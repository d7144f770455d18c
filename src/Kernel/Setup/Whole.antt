-- ===== src/Kernel/Setup/Whole.antt =====
-- The steps of `process_setup` in pset4/kernel.cc, one after the other.
use mathlib.Core.Path.{subst}
use cs61_f18_psets.Base.{ℕ, ◌<◌, ◌≡◌, ◌≢◌, refl, sym, List, arith, All}
use cs61_f18_psets.Kernel.Machine.{Kernel, modify, ◌>>◌, nproc}
use cs61_f18_psets.Kernel.Trap.Preserve.{IsValid}
use cs61_f18_psets.Kernel.Loader.{
  RamImage, ProgramLoader, loader_rounds, loader_entry, loader_reset, program_loader,
}
use cs61_f18_psets.Kernel.Setup.{
  with_entry, with_stack, take_program, copy_program, take_stack, change_proc, stack_addr,
  load_segments, take_page, take_segments, process_setup,
}
use cs61_f18_psets.Kernel.Setup.Pages.{
  Returns, Returns->>=, Returns-map, Took, InPage, InSegments, Apart, take_page-Took,
  take_segments-Took,
}
use cs61_f18_psets.Kernel.Setup.Bytes.{IsProper}
use cs61_f18_psets.Kernel.Setup.Process.{
  loaded, segments, entry_of, program_loader-loaded, loader_reset-loaded,
}
use cs61_f18_psets.Kernel.Setup.Started.{
  Started, first, middle, first-IsValid, middle-IsValid, Started_lem,
}

module _ (ke pagetable : ℕ) (ramimages : List RamImage) where
  take_program-Took :
      (k : Kernel) (pid n : ℕ)
      → IsValid k
      → pid ≢ 0
      → pid < nproc
      → Returns
          (λ _ m. Took pid (InSegments (segments ramimages n)) k m × Apart (segments ramimages n))
          (take_program ke (loaded ramimages n) pid k)
  unfolding take_program
  take_program-Took k pid n v ne h =
      Returns->>= (λ l m. (l ≡ loaded ramimages n) × (m ≡ k))
        (λ _ m. Took pid (InSegments (segments ramimages n)) k m × Apart (segments ramimages n))
        (loader_reset (loaded ramimages n)) (λ l. take_segments ke (loader_rounds l) pid) k
        (loader_reset-loaded ramimages n k)
        (λ l m (e, same).
          rw (e, same) (take_segments-Took ke (segments ramimages n) k pid v ne (omega arith)))

  copy_program_lem :
      (k : Kernel) (n : ℕ)
      → Returns
          (λ _ m. m ≡ load_segments (segments ramimages n) k)
          (copy_program (loaded ramimages n) k)
  unfolding copy_program
  copy_program_lem k n =
      Returns->>= (λ l m. (l ≡ loaded ramimages n) × (m ≡ k))
        (λ _ m. m ≡ load_segments (segments ramimages n) k) (loader_reset (loaded ramimages n))
        (λ l. modify (load_segments (loader_rounds l))) k (loader_reset-loaded ramimages n k)
        (λ l m (e, same). rw (e, same))

  take_stack-Took :
      (k : Kernel) (pid : ℕ)
      → IsValid k
      → pid < nproc
      → Returns
          (λ _ k'.
            (m : Kernel) × Took pid (InPage (stack_addr pid)) k m
            × (k' ≡ change_proc pid (with_stack pid) m))
          (take_stack ke pid k)
  unfolding take_stack
  take_stack-Took k pid v h =
      Returns->>= (λ _ m. Took pid (InPage (stack_addr pid)) k m)
        (λ _ k'.
          (m : Kernel) × Took pid (InPage (stack_addr pid)) k m
          × (k' ≡ change_proc pid (with_stack pid) m))
        (take_page ke (stack_addr pid) pid) (λ _. modify (change_proc pid (with_stack pid))) k
        (take_page-Took ke k (stack_addr pid) pid v (omega arith)) (λ _ m t. (m, t, refl))

  setup_tail :
      (k l : Kernel) (pid n : ℕ)
      → IsValid k
      → pid ≢ 0
      → pid < nproc
      → All IsProper (segments ramimages n)
      → Took pid
          (InSegments (segments ramimages n))
          (first pagetable pid (entry_of ramimages n) (segments ramimages n) k)
          l
      → Apart (segments ramimages n)
      → Returns
          (λ _ k'. Started pagetable pid (entry_of ramimages n) (segments ramimages n) k k')
          ((copy_program (loaded ramimages n)
              >> (modify (change_proc pid (with_entry (entry_of ramimages n)))
                  >> take_stack ke pid))
            l)
  setup_tail k l pid n v ne h proper t apart =
      let ls : List ProgramLoader = segments ramimages n in
      let entry : ℕ = entry_of ramimages n in
      let mid : Kernel = middle pagetable pid entry ls l in
      let Q : Unit {0} → Kernel → Type 0 = λ _ k'. Started pagetable pid entry ls k k' in
      let v₁ : IsValid mid = middle-IsValid pagetable pid entry ls l t.keeps.valid h in
      Returns->>= (λ _ m. m ≡ load_segments ls l) Q (copy_program (loaded ramimages n))
        (λ _. modify (change_proc pid (with_entry entry)) >> take_stack ke pid) l
        (copy_program_lem l n)
        (λ _ m e. rw e (
          Returns-map
            (λ _ k'.
              (m' : Kernel) × Took pid (InPage (stack_addr pid)) mid m'
              × (k' ≡ change_proc pid (with_stack pid) m'))
            Q _
            (λ _ k' (m', q, at).
              subst (Started pagetable pid entry ls k) (sym at)
                (Started_lem pagetable pid entry ls k l m' v ne h t q proper apart))
            (take_stack-Took mid pid v₁ h)))

  -- In a valid kernel with a process slot other than 0, and a program whose segments are no shorter
  -- than their data: when `process_setup` returns, the process has started as `Started` says.
  pub process_setup-Started :
      (k : Kernel) (pid n : ℕ)
      → IsValid k
      → pid ≢ 0
      → pid < nproc
      → All IsProper (segments ramimages n)
      → Returns
          (λ _ k'. Started pagetable pid (entry_of ramimages n) (segments ramimages n) k k')
          (process_setup ke pagetable ramimages pid n k)
  unfolding process_setup
  process_setup-Started k pid n v ne h proper =
      let ls : List ProgramLoader = segments ramimages n in
      let entry : ℕ = entry_of ramimages n in
      let loader : ProgramLoader = loaded ramimages n in
      let start : Kernel = first pagetable pid entry ls k in
      let Q : Unit {0} → Kernel → Type 0 = λ _ k'. Started pagetable pid entry ls k k' in
      let v₁ : IsValid start = first-IsValid pagetable pid entry ls k v h in
      Returns->>= (λ l m. (l ≡ loader) × (m ≡ start)) Q (program_loader ramimages n)
        (λ l.
          take_program ke l pid
          >> (copy_program l
              >> (modify (change_proc pid (with_entry (loader_entry l))) >> take_stack ke pid)))
        start (program_loader-loaded ramimages n start)
        (λ l m (e, same).
          rw (e, same)
            (Returns->>= (λ _ m. Took pid (InSegments ls) start m × Apart ls) Q
              (take_program ke loader pid)
              (λ _.
                copy_program loader
                >> (modify (change_proc pid (with_entry entry)) >> take_stack ke pid))
              start (take_program-Took start pid n v₁ ne h)
              (λ _ m (t, apart). setup_tail k m pid n v ne h proper t apart)))
