-- ===== src/Kernel/Setup/Booted.antt =====
-- `kernel` of pset4/kernel.cc: every program that it starts is in memory, whole and on pages of its
-- own, when the first process runs.
use cs61_f18_psets.Base.{
  ℕ, zero, suc, ◌+◌, ◌-◌, ◌≤◌, ◌<◌, ◌≡◌, ◌≢◌, ◌⊎◌, inl, inr, refl, sym, ◌∙◌, Bool-cases, Option,
  some, none, List, [], ◌∷◌, if◌then◌else◌, arith, All,
}
use cs61_f18_psets.Base.Int.{pos, eq_ℤ}
use cs61_f18_psets.Base.Text.{codes}
use cs61_f18_psets.Libc.Compare.{strcmp}
use cs61_f18_psets.Kernel.Machine.{Kernel, p_runnable, Outcome, done, panicked, page_size, nproc}
use cs61_f18_psets.Kernel.Memory.{owner_of}
use cs61_f18_psets.Kernel.Schedule.{Next, user, halted, spinning, run, proc_of, is_runnable}
use cs61_f18_psets.Kernel.Trap.Preserve.{IsValid}
use cs61_f18_psets.Kernel.Trap.Isolate.{InUser}
use cs61_f18_psets.Kernel.Boot.{boot_state, boot_state-IsValid}
use cs61_f18_psets.Kernel.Loader.{RamImage, ProgramLoader}
use cs61_f18_psets.Kernel.Setup.{stack_addr, process_setup, setup_all, setup, kernel, after_setup}
use cs61_f18_psets.Kernel.Setup.Pages.{Returns, Returns->>=, Returns-map, InPage, InSegments}
use cs61_f18_psets.Kernel.Setup.Bytes.{IsProper, Holds, Holds-kept}
use cs61_f18_psets.Kernel.Setup.Process.{segments, entry_of}
use cs61_f18_psets.Kernel.Setup.Started.{first_regs, Started}
use cs61_f18_psets.Kernel.Setup.Whole.{process_setup-Started}

-- Process `pid` can run from `entry` on, with its segments and its stack on pages of its own.
pub record Ready (pagetable pid entry : ℕ) (ls : List ProgramLoader) (k : Kernel) : Type 0 where
  pub self : proc_of k pid ≡ record {
    pagetable = pagetable;
    pid = pid;
    regs = first_regs entry (stack_addr pid + page_size);
    state = p_runnable;
  }
  pub owned : (a : ℕ) → InSegments ls a ⊎ InPage (stack_addr pid) a → owner_of k a ≡ pid
  pub stack_zeroed : (a : ℕ) → InPage (stack_addr pid) a → k.memory a ≡ 0
  pub image : All (Holds k.memory) ls

abbrev pub numbered : ℕ → ℕ → List (ℕ × ℕ)
numbered zero i = []
numbered (suc n) i = (i, i - 1) ∷ numbered n (i + 1)

-- The programs that a command line starts.
abbrev pub programs_of : Option (List ℕ) → List (ℕ × ℕ)
programs_of none = numbered 4 1
programs_of (some text) =
    if eq_ℤ (strcmp text (codes "fork")) (pos 0)
    then (1, 4) ∷ []
    else if eq_ℤ (strcmp text (codes "forkexit")) (pos 0)
    then (1, 5) ∷ []
    else numbered 4 1

module _ (pagetable : ℕ) where
  started :
      (pid entry : ℕ) (ls : List ProgramLoader) (k k' : Kernel)
      → Started pagetable pid entry ls k k'
      → Ready pagetable pid entry ls k'
  started pid entry ls k k' s = record {
    self = s.self;
    owned = s.owned;
    stack_zeroed = s.stack_zeroed;
    image = s.image;
  }

  -- Another process that starts leaves a process ready.
  undisturbed :
      (pid entry : ℕ) (ls : List ProgramLoader) (pid' entry' : ℕ) (ls' : List ProgramLoader)
      (k k' : Kernel)
      → pid ≢ 0
      → pid ≢ pid'
      → Started pagetable pid' entry' ls' k k'
      → Ready pagetable pid entry ls k
      → Ready pagetable pid entry ls k'
  undisturbed pid entry ls pid' entry' ls' k k' ne other s r =
      let used : (a : ℕ) → InSegments ls a ⊎ InPage (stack_addr pid) a → owner_of k a ≢ 0 =
        λ a i z. ne (sym (r.owned a i) ∙ z) in
      record {
        self = s.others pid other ∙ r.self;
        owned = λ a i. s.owners a (used a i) ∙ r.owned a i;
        stack_zeroed = λ a i. s.contents a (used a (inr i)) ∙ r.stack_zeroed a i;
        image = Holds-kept k.memory k'.memory ls (λ a i. s.contents a (used a (inl i))) r.image;
      }

module _ (ke pagetable : ℕ) (ramimages : List RamImage)
    (proper : (n : ℕ) → All IsProper (segments ramimages n)) where
  -- The process `p.0` runs the program `p.1`.
  abbrev pub RunsProgram : Kernel → ℕ × ℕ → Type 0
  RunsProgram k p = Ready pagetable p.0 (entry_of ramimages p.1) (segments ramimages p.1) k

  -- What setting up processes from `i` on does.
  abbrev SetUp : ℕ → List (ℕ × ℕ) → Kernel → Kernel → Type 0
  SetUp i ps k k' =
      IsValid k'
      × All (RunsProgram k') ps
      × ((p : ℕ × ℕ) → p.0 ≢ 0 → p.0 < i → RunsProgram k p → RunsProgram k' p)

  process_setup-SetUp :
      (i n : ℕ) (k : Kernel)
      → IsValid k
      → i ≢ 0
      → i < nproc
      → Returns (λ _ l. SetUp i ((i, n) ∷ []) k l) (process_setup ke pagetable ramimages i n k)
  process_setup-SetUp i n k v ne h =
      Returns-map (λ _ l. Started pagetable i (entry_of ramimages n) (segments ramimages n) k l)
        (λ _ l. SetUp i ((i, n) ∷ []) k l) _
        (λ _ l s. (
          s.valid,
          (started pagetable i _ _ k l s, tt),
          (λ p some_pid below r.
              undisturbed pagetable p.0 _ _ i _ _ k l some_pid (λ e. absurd (omega arith)) s r),
        ))
        (process_setup-Started ke pagetable ramimages k i n v ne h (proper n))

  setup_all-SetUp :
      (n i : ℕ) (k : Kernel)
      → IsValid k
      → i ≢ 0
      → i + n ≤ nproc
      → Returns (λ _ l. SetUp i (numbered n i) k l) (setup_all ke pagetable ramimages n i k)
  unfolding setup_all
  setup_all-SetUp zero i k v ne h = (v, tt, (λ p some_pid below r. r))
  setup_all-SetUp (suc n) i k v ne h =
      Returns->>= (λ _ l. SetUp i ((i, i - 1) ∷ []) k l) (λ _ l. SetUp i (numbered (suc n) i) k l)
        (process_setup ke pagetable ramimages i (i - 1))
        (λ _. setup_all ke pagetable ramimages n (i + 1)) k
        (process_setup-SetUp i (i - 1) k v ne (omega arith))
        (λ _ l (v₁, here, before).
          Returns-map (λ _ m. SetUp (i + 1) (numbered n (i + 1)) l m)
            (λ _ m. SetUp i (numbered (suc n) i) k m) _
            (λ _ m (v₂, later, kept). (
              v₂,
              (kept (i, i - 1) ne (omega arith) here.0, later),
              (λ p some_pid below r. kept p some_pid (omega arith) (before p some_pid below r)),
            ))
            (setup_all-SetUp n (i + 1) l v₁ (λ e. absurd (omega arith)) (omega arith)))

  abbrev pub Boots : List (ℕ × ℕ) → Next → Type 0
  Boots ps (user j k) = (j ≡ 1) × InUser k × All (RunsProgram k) ps
  Boots ps halted = Unit
  Boots ps spinning = ⊥

  suc_ne : (n : ℕ) → suc n ≢ 0
  suc_ne n e = absurd (omega arith)

  at_first : (k : Kernel) → IsValid k → IsValid (record k { current = 1 })
  at_first k v = record { slots = v.slots; pages = v.pages; pids = v.pids; running = omega arith }

  All-at_first :
      (k : Kernel) (ps : List (ℕ × ℕ))
      → All (RunsProgram k) ps
      → All (RunsProgram (record k { current = 1 })) ps
  All-at_first k [] r = tt
  All-at_first k (p ∷ ps) (r, rs) = (
    record { self = r.self; owned = r.owned; stack_zeroed = r.stack_zeroed; image = r.image },
    All-at_first k ps rs,
  )

  after_setup-Boots :
      (memory : ℕ → ℕ) (ps : List (ℕ × ℕ)) (o : Outcome (Unit {0} × Kernel))
      → Returns (λ _ k. SetUp 1 ps (boot_state memory) k) o
      → Boots ps (after_setup ke pagetable ramimages o)
  unfolding run
  after_setup-Boots memory ps panicked h = tt
  after_setup-Boots memory ps (done (t, k)) (v, ready, kept) =
      elim (Bool-cases (is_runnable (proc_of k 1).state)) [
        | inr off ↦ rw off tt
        | inl on ↦ rw on (refl, record { valid = at_first k v; on = on }, All-at_first k ps ready)
      ]

  setup-SetUp :
      (command : Option (List ℕ)) (memory : ℕ → ℕ)
      → Returns
          (λ _ k. SetUp 1 (programs_of command) (boot_state memory) k)
          (setup ke pagetable ramimages command (boot_state memory))
  unfolding setup
  setup-SetUp none memory =
      setup_all-SetUp 4 1 (boot_state memory) (boot_state-IsValid memory) (suc_ne 0) (omega arith)
  setup-SetUp (some text) memory = elim (Bool-cases (eq_ℤ (strcmp text (codes "fork")) (pos 0))) [
    | inl fork ↦ rw fork (
        process_setup-SetUp 1 4 (boot_state memory) (boot_state-IsValid memory) (suc_ne 0)
          (omega arith))
    | inr other ↦ elim (Bool-cases (eq_ℤ (strcmp text (codes "forkexit")) (pos 0))) [
      | inl exit ↦
          rw (other, exit)
            (process_setup-SetUp 1 5 (boot_state memory) (boot_state-IsValid memory) (suc_ne 0)
              (omega arith))
      | inr rest ↦
          rw (other, rest)
            (setup_all-SetUp 4 1 (boot_state memory) (boot_state-IsValid memory) (suc_ne 0)
              (omega arith))
    ]
  ]

  -- With executables whose segments are no shorter than their data, and whatever memory holds at the
  -- start: `kernel` either panics, or it goes
  -- to process 1, which can run, in a valid kernel that has every program of the command line in memory
  -- (4 for "fork", 5 for "forkexit", else the first four), each with its own process, registers, pages
  -- and stack.
  pub kernel-Boots :
      (command : Option (List ℕ)) (memory : ℕ → ℕ)
      → Boots (programs_of command) (kernel ke pagetable ramimages command memory)
  unfolding kernel
  kernel-Boots command memory =
      after_setup-Boots memory (programs_of command) _ (setup-SetUp command memory)
