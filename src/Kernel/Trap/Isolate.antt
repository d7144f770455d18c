-- ===== src/Kernel/Trap/Isolate.antt =====
-- Isolation in pset4/kernel.cc: what any number of traps leaves alone.
use mathlib.Core.Path.{subst}
use cs61_f18_psets.Base.{
  ℕ, zero, suc, ◌+◌, ◌%◌, ◌<◌, ◌≡◌, ◌≢◌, refl, sym, ap, ◌∙◌, true, not, ◌||◌, Option, none, some,
  Bool-cases, inl, inr, ◌==◌, arith,
}
use cs61_f18_psets.Kernel.Machine.{Kernel, Proc, Regs, p_broken, Outcome, done, panicked, nproc}
use cs61_f18_psets.Kernel.Memory.{owner_of}
use cs61_f18_psets.Kernel.Memory.Pages.{PageCall, kalloc_physical_page-PageCall}
use cs61_f18_psets.Kernel.Schedule.{
  Next, user, halted, spinning, run, schedule_loop, schedule, memshow, proc_of, is_runnable,
}
use cs61_f18_psets.Kernel.Trap.{
  current_proc, save_regs, set_rax, Call, getpid, yield, panics, page_alloc, other, Answer, returns,
  leaves, page_alloc_answer, handle_call, call_of, syscall, Trap, system_call, timer, page_fault,
  unexpected, trap_of, in_user_mode, resume, after_call, handle_trap, exception,
}
use cs61_f18_psets.Kernel.Trap.Preserve.{
  IsValid, Keeps, Keeps-refl, Keeps-trans, set_current-Keeps, save_regs-Keeps, set_rax-Keeps,
  memshow-Keeps, tick-Keeps, Given-Keeps, current_pid,
}

-- The kernel goes back to user mode with a runnable process of the table, if it does.
abbrev pub NextKeeps : Kernel → Next → Type 0
NextKeeps k (user j k') =
    (l : Kernel) × Keeps k l
    × (k' ≡ record l { current = j })
    × (j < nproc)
    × (is_runnable (proc_of l j).state ≡ true)
NextKeeps k halted = Unit {0}
NextKeeps k spinning = Unit {0}

abbrev AnswerKeeps : Kernel → Answer → Type 0
AnswerKeeps k (returns v k') = Keeps k k'
AnswerKeeps k (leaves n) = NextKeeps k n

schedule_loop-NextKeeps :
    (spins pid : ℕ) (k l : Kernel) → Keeps k l → NextKeeps k (schedule_loop spins pid l)
unfolding schedule_loop run
schedule_loop-NextKeeps zero pid k l h = tt
schedule_loop-NextKeeps (suc spins) pid k l h =
    elim (Bool-cases (is_runnable (proc_of l ((pid + 1) % nproc)).state)) [
      | inl on ↦ rw on (l, h, refl, omega arith, on)
      | inr off ↦ rw off (schedule_loop-NextKeeps spins ((pid + 1) % nproc) k l h)
    ]

schedule-NextKeeps : (spins : ℕ) (k l : Kernel) → Keeps k l → NextKeeps k (schedule spins l)
unfolding schedule
schedule-NextKeeps spins k l h = schedule_loop-NextKeeps spins (current_proc l).pid k l h

resume-NextKeeps : (spins : ℕ) (k l : Kernel) → Keeps k l → NextKeeps k (resume spins l)
unfolding resume run
resume-NextKeeps spins k l h = elim (Bool-cases (is_runnable (current_proc l).state)) [
  | inl on ↦ rw on (l, h, refl, h.valid.running, on)
  | inr off ↦ rw off (schedule-NextKeeps spins k l h)
]

page_alloc-AnswerKeeps :
    (ke pa owner : ℕ) (k l : Kernel) (o : Outcome (Option ℕ × Kernel))
    → Keeps k l
    → PageCall ke l pa owner o
    → AnswerKeeps k (page_alloc_answer o)
unfolding page_alloc_answer
page_alloc-AnswerKeeps ke pa owner k l panicked h c = tt
page_alloc-AnswerKeeps ke pa owner k l (done (some q, l')) h (even, same, given) =
    Keeps-trans k l l' h (Given-Keeps ke l l' pa owner h.valid even given)
page_alloc-AnswerKeeps ke pa owner k l (done (none, l')) h (even, busy, same) =
    subst (Keeps k) (sym same) h

handle_call-AnswerKeeps :
    (ke spins : ℕ) (c : Call) (k l : Kernel) → Keeps k l → AnswerKeeps k (handle_call ke spins c l)
unfolding handle_call
handle_call-AnswerKeeps ke spins getpid k l h = h
handle_call-AnswerKeeps ke spins yield k l h =
    schedule-NextKeeps spins k (set_rax 0 l) (Keeps-trans k l _ h (set_rax-Keeps l 0 h.valid))
handle_call-AnswerKeeps ke spins panics k l h = tt
handle_call-AnswerKeeps ke spins page_alloc k l h = page_alloc-AnswerKeeps ke _ _ k l _ h (
    kalloc_physical_page-PageCall ke (current_proc l).regs.rdi (current_proc l).pid l h.valid.pages)
handle_call-AnswerKeeps ke spins other k l h = tt

after_call-NextKeeps :
    (spins : ℕ) (k : Kernel) (a : Answer) → AnswerKeeps k a → NextKeeps k (after_call spins a)
unfolding after_call
after_call-NextKeeps spins k (returns v l) h =
    resume-NextKeeps spins k (set_rax v l) (Keeps-trans k l _ h (set_rax-Keeps l v h.valid))
after_call-NextKeeps spins k (leaves n) h = h

saved-Keeps : (k l : Kernel) (regs : Regs) → Keeps k l → Keeps k (memshow (save_regs regs l)).1
saved-Keeps k l regs h =
    let h₁ = Keeps-trans k l _ h (save_regs-Keeps l regs h.valid) in
    Keeps-trans k _ _ h₁ (memshow-Keeps (save_regs regs l) h₁.valid)

handle_trap-NextKeeps :
    (ke spins : ℕ) (t : Trap) (regs : Regs) (k l : Kernel)
    → Keeps k l
    → NextKeeps k (handle_trap ke spins t regs l)
unfolding handle_trap syscall
handle_trap-NextKeeps ke spins system_call regs k l h =
    after_call-NextKeeps spins k _
      (handle_call-AnswerKeeps ke spins (call_of regs.rax) k _ (saved-Keeps k l regs h))
handle_trap-NextKeeps ke spins timer regs k l h =
    schedule-NextKeeps spins k _ (Keeps-trans k l _ h (tick-Keeps l _ h.valid))
handle_trap-NextKeeps ke spins page_fault regs k l h = elim (Bool-cases (in_user_mode regs)) [
  | inl mine ↦ rw mine (
      resume-NextKeeps spins k _
        (Keeps-trans k l _ h (set_current-Keeps l _ h.valid (current_pid l h.valid))))
  | inr kernels ↦ rw kernels tt
]
handle_trap-NextKeeps ke spins unexpected regs k l h = tt

-- Whatever registers a process brings into the kernel, a trap of a valid kernel that goes back to user
-- mode goes to a runnable process of the table, in a valid kernel in which only the descriptor of the
-- process that trapped has changed, and every page in use has kept its owner and its bytes.
pub exception-NextKeeps :
    (ke spins : ℕ) (regs : Regs) (k : Kernel) → IsValid k → NextKeeps k (exception ke spins regs k)
unfolding exception
exception-NextKeeps ke spins regs k v =
    elim (Bool-cases (not (regs.intno == 14) || in_user_mode regs)) [
      | inl shown ↦ rw shown (
          handle_trap-NextKeeps ke spins (trap_of regs.intno) regs k _
            (saved-Keeps k k regs (Keeps-refl k v)))
      | inr hidden ↦
          rw hidden (
            handle_trap-NextKeeps ke spins (trap_of regs.intno) regs k _ (save_regs-Keeps k regs v))
    ]

-- The states that traps lead to, the registers being the processes' choice.
pub data Reach (ke spins : ℕ) (k : Kernel) : Kernel → Type 0 where
  here : Reach ke spins k k
  trap :
      {l m : Kernel} (regs : Regs) (j : ℕ)
      → Reach ke spins k l
      → exception ke spins regs l ≡ user j m
      → Reach ke spins k m

-- A valid kernel whose current process is runnable.
pub record InUser (k : Kernel) : Type 0 where
  pub valid : IsValid k
  pub on : is_runnable (current_proc k).state ≡ true

-- What one trap leaves as it was.
abbrev Left : Kernel → Kernel → Type 0
Left k m =
    InUser m
    × ((i : ℕ) → i ≢ k.current → proc_of m i ≡ proc_of k i)
    × ((q : ℕ) → owner_of k q ≢ 0 → (owner_of m q ≡ owner_of k q) × (m.memory q ≡ k.memory q))

Keeps-Left :
    (k l : Kernel) (j : ℕ)
    → Keeps k l
    → j < nproc
    → is_runnable (proc_of l j).state ≡ true
    → Left k (record l { current = j })
Keeps-Left k l j h lt on = (
  record {
    valid = record {
      slots = h.valid.slots;
      pages = h.valid.pages;
      pids = h.valid.pids;
      running = lt;
    };
    on = on;
  },
  h.others,
  λ q ne. (h.owners q ne, h.contents q ne),
)

exception-Left :
    (ke spins j : ℕ) (regs : Regs) (k m : Kernel)
    → IsValid k
    → exception ke spins regs k ≡ user j m
    → Left k m
exception-Left ke spins j regs k m v e =
    let (l, h, same, lt, on) = subst (NextKeeps k) e (exception-NextKeeps ke spins regs k v) in
    subst (Left k) (sym same) (Keeps-Left k l j h lt on)

not_current : (k : Kernel) (i : ℕ) → InUser k → (proc_of k i).state ≡ p_broken → i ≢ k.current
not_current k i u broken e = cc (u.on, subst (λ j. (proc_of k j).state ≡ p_broken) e broken)

-- Through any sequence of traps, whatever the processes bring into the kernel, it stays valid with a
-- runnable current process; a page in use keeps its owner, and its bytes as far as the kernel goes.
pub pages_kept :
    (ke spins : ℕ) (k m : Kernel)
    → InUser k
    → Reach ke spins k m
    → InUser m
      × ((q : ℕ) → owner_of k q ≢ 0 → (owner_of m q ≡ owner_of k q) × (m.memory q ≡ k.memory q))
pages_kept ke spins k m u here = (u, λ q ne. (refl, refl))
pages_kept ke spins k m u (trap {l = l} regs j r e) =
    let (v, before) = pages_kept ke spins k l u r in
    let (v', _, now) = exception-Left ke spins j regs l m v.valid e in
    (
      v',
      λ q ne.
          let (o, b) = before q ne in
          let (o', b') = now q (λ z. ne (sym o ∙ z)) in (o' ∙ o, b' ∙ b),
    )

-- A process that has been marked broken keeps its descriptor through any sequence of traps, and never
-- runs again.
pub broken_forever :
    (ke spins i : ℕ) (k m : Kernel)
    → InUser k
    → (proc_of k i).state ≡ p_broken
    → Reach ke spins k m
    → (proc_of m i ≡ proc_of k i) × (m.current ≢ i)
broken_forever ke spins i k m u broken here = (refl, λ e. not_current k i u broken (sym e))
broken_forever ke spins i k m u broken (trap {l = l} regs j r e) =
    let (same, off) = broken_forever ke spins i k l u broken r in
    let (v, _) = pages_kept ke spins k l u r in
    let (v', others, _) = exception-Left ke spins j regs l m v.valid e in
    let same' : proc_of m i ≡ proc_of k i = others i (λ c. off (sym c)) ∙ same in
    (same', λ c. not_current m i v' (ap (λ (p : Proc). p.state) same' ∙ broken) (sym c))
