-- ===== src/Kernel/Setup/Started.antt =====
-- `process_setup` of pset4/kernel.cc makes a process that can run, and disturbs nothing else.
use cs61_f18_psets.Base.{
  get_or, ℕ, ◌+◌, ◌<◌, ◌≡◌, ◌≢◌, ◌⊎◌, inl, inr, refl, sym, ap, ◌∙◌, List, All,
}
use cs61_f18_psets.Kernel.Machine.{Kernel, Regs, p_runnable, page_size, nproc}
use cs61_f18_psets.Kernel.Memory.{owner_of}
use cs61_f18_psets.Kernel.Schedule.{proc_of, no_proc, no_regs}
use cs61_f18_psets.Kernel.Trap.Preserve.{IsValid}
use cs61_f18_psets.Kernel.Boot.{init_process}
use cs61_f18_psets.Kernel.Loader.{ProgramLoader}
use cs61_f18_psets.Kernel.Setup.{
  with_table, with_entry, with_stack, change_proc, stack_addr, load_segments,
}
use cs61_f18_psets.Kernel.Setup.Pages.{Took, InPage, InSegments, Apart, owner_back}
use cs61_f18_psets.Kernel.Setup.Bytes.{
  IsProper, Holds, Holds-kept, load_segments_outside, load_segments-Holds, load_segments_rest,
}
use cs61_f18_psets.Kernel.Setup.Process.{
  changed_self, changed_other, changed-IsValid, load_segments-IsValid,
}

-- The registers of a process before its first instruction.
abbrev pub first_regs : ℕ → ℕ → Regs
first_regs rip rsp = record no_regs {
  cs = 0x1B;
  fs = 0x23;
  gs = 0x23;
  ss = 0x23;
  rflags = 0x200;
  rip = rip;
  rsp = rsp;
}

-- Process `pid` has come to the kernel `k`: it can run from `entry` on, its segments' and its stack's
-- pages were nobody's and are its own, the segments hold the program's bytes and the stack zeroes.
-- No other process has changed, and no page that was in use.
pub record Started (pagetable pid entry : ℕ) (ls : List ProgramLoader) (k k' : Kernel)
    : Type 0 where
  pub valid : IsValid k'
  pub same_current : k'.current ≡ k.current
  pub self : proc_of k' pid ≡ record {
    pagetable = pagetable;
    pid = pid;
    regs = first_regs entry (stack_addr pid + page_size);
    state = p_runnable;
  }
  pub others : (i : ℕ) → i ≢ pid → proc_of k' i ≡ proc_of k i
  pub owners : (a : ℕ) → owner_of k a ≢ 0 → owner_of k' a ≡ owner_of k a
  pub contents : (a : ℕ) → owner_of k a ≢ 0 → k'.memory a ≡ k.memory a
  pub was_free : (a : ℕ) → InSegments ls a ⊎ InPage (stack_addr pid) a → owner_of k a ≡ 0
  pub owned : (a : ℕ) → InSegments ls a ⊎ InPage (stack_addr pid) a → owner_of k' a ≡ pid
  pub apart : (a : ℕ) → InSegments ls a → ¬ InPage (stack_addr pid) a
  pub stack_zeroed : (a : ℕ) → InPage (stack_addr pid) a → k'.memory a ≡ 0
  pub image : All (Holds k'.memory) ls

module _ (pagetable pid entry : ℕ) (ls : List ProgramLoader) where
  abbrev pub first : Kernel → Kernel
  first k = change_proc pid (with_table pagetable) k

  -- Between the two allocations.
  abbrev pub middle : Kernel → Kernel
  middle k = change_proc pid (with_entry entry) (load_segments ls k)

  pub first-IsValid : (k : Kernel) → IsValid k → pid < nproc → IsValid (first k)
  unfolding init_process with_table
  first-IsValid k v h = changed-IsValid pid (with_table pagetable) k v h (λ r. refl)

  pub middle-IsValid : (l : Kernel) → IsValid l → pid < nproc → IsValid (middle l)
  unfolding with_entry
  middle-IsValid l v h =
      changed-IsValid pid (with_entry entry) (load_segments ls l) (load_segments-IsValid ls l v) h
        (λ r. refl)

  module _ (k l m : Kernel) (v : IsValid k) (ne : pid ≢ 0) (h : pid < nproc)
      (p : Took pid (InSegments ls) (first k) l)
      (q : Took pid (InPage (stack_addr pid)) (middle l) m) (proper : All IsProper ls)
      (apart : Apart ls) where
    middle_owner : (a : ℕ) → owner_of (middle l) a ≡ owner_of l a
    middle_owner a = ap (λ u. owner_of u a) (load_segments_rest ls l)

    middle_proc : (i : ℕ) → i ≢ pid → proc_of (middle l) i ≡ proc_of k i
    middle_proc i other =
        changed_other pid i (with_entry entry) (load_segments ls l) other
        ∙ ap (λ u. proc_of u i) (load_segments_rest ls l)
        ∙ ap (λ t. get_or t i no_proc) p.processes
        ∙ changed_other pid i (with_table pagetable) k other

    self_lem :
        proc_of (change_proc pid (with_stack pid) m) pid
        ≡ with_stack pid (with_entry entry (with_table pagetable (proc_of k pid)))
    self_lem =
        changed_self pid (with_stack pid) m q.keeps.valid h
        ∙ ap (with_stack pid) (
            ap (λ t. get_or t pid no_proc) q.processes
            ∙ changed_self pid (with_entry entry) (load_segments ls l)
                (load_segments-IsValid ls l p.keeps.valid) h
            ∙ ap (with_entry entry) (
                ap (λ u. proc_of u pid) (load_segments_rest ls l)
                ∙ ap (λ t. get_or t pid no_proc) p.processes
                ∙ changed_self pid (with_table pagetable) k v h))

    kept_owner : (a : ℕ) → owner_of k a ≢ 0 → owner_of m a ≡ owner_of k a
    kept_owner a used =
        let e = middle_owner a ∙ p.keeps.owners a used in
        q.keeps.owners a (λ z. used (sym e ∙ z)) ∙ e

    kept_content : (a : ℕ) → owner_of k a ≢ 0 → m.memory a ≡ k.memory a
    kept_content a used =
        let e = middle_owner a ∙ p.keeps.owners a used in
        q.keeps.contents a (λ z. used (sym e ∙ z))
        ∙ load_segments_outside ls l a proper (λ i. used (p.was_free a i))
        ∙ p.keeps.contents a used

    segment_owned : (a : ℕ) → InSegments ls a → owner_of m a ≡ pid
    segment_owned a i =
        let e = middle_owner a ∙ p.owned a i in q.keeps.owners a (λ z. ne (sym e ∙ z)) ∙ e

    stack_free : (a : ℕ) → InPage (stack_addr pid) a → owner_of k a ≡ 0
    stack_free a i = owner_back (first k) l a p.keeps (sym (middle_owner a) ∙ q.was_free a i)

    segment_content : (a : ℕ) → InSegments ls a → m.memory a ≡ (middle l).memory a
    segment_content a i = q.keeps.contents a (λ z. ne (sym (middle_owner a ∙ p.owned a i) ∙ z))

    pub Started_lem : Started pagetable pid entry ls k (change_proc pid (with_stack pid) m)
    unfolding init_process with_table with_entry with_stack
    Started_lem = record {
      valid = changed-IsValid pid (with_stack pid) m q.keeps.valid h (λ r. refl);
      same_current =
          q.keeps.same_current
          ∙ ap (λ u. u.current) (load_segments_rest ls l)
          ∙ p.keeps.same_current;
      self =
          self_lem
          ∙ ap
              (λ i. record {
                pagetable = pagetable;
                pid = i;
                regs = first_regs entry (stack_addr pid + page_size);
                state = p_runnable;
              })
              (v.pids pid h);
      others = λ i other.
          changed_other pid i (with_stack pid) m other
          ∙ ap (λ t. get_or t i no_proc) q.processes
          ∙ middle_proc i other;
      owners = kept_owner;
      contents = kept_content;
      was_free = λ a i. elim i [ inl s ↦ p.was_free a s | inr s ↦ stack_free a s ];
      owned = λ a i. elim i [ inl s ↦ segment_owned a s | inr s ↦ q.owned a s ];
      apart = λ a s t. ne (sym (p.owned a s) ∙ sym (middle_owner a) ∙ q.was_free a t);
      stack_zeroed = q.zeroed;
      image = Holds-kept _ m.memory ls segment_content (load_segments-Holds ls l proper apart);
    }
