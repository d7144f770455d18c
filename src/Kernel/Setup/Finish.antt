-- ===== src/Kernel/Setup/Finish.antt =====
-- `process_setup` of pset4/kernel.cc returns, and does its work, when there is room.
use mathlib.Core.Path.{subst}
use cs61_f18_psets.Base.{ℕ, ◌%◌, ◌<◌, ◌≡◌, ◌≢◌, refl, sym, ap, ◌∙◌, true, ◌==◌, List, arith, All}
use cs61_f18_psets.Kernel.Machine.{
  Kernel, K, Outcome, done, panicked, modify, ◌>>=◌, ◌>>◌, page_size, nproc,
}
use cs61_f18_psets.Kernel.Memory.Alloc.{is_free}
use cs61_f18_psets.Kernel.Trap.Preserve.{IsValid}
use cs61_f18_psets.Kernel.Loader.{
  RamImage, ProgramLoader, magic_of, elf_magic, loader_reset, program_loader, loader_entry,
}
use cs61_f18_psets.Kernel.Setup.{
  stack_addr, change_proc, with_table, with_entry, with_stack, load_segments, take_page,
  take_program, copy_program, take_stack, take_segments, process_setup,
}
use cs61_f18_psets.Kernel.Setup.Pages.{Returns, InPage}
use cs61_f18_psets.Kernel.Setup.Bytes.{IsProper, load_segments_rest}
use cs61_f18_psets.Kernel.Setup.Process.{loaded, segments, entry_of}
use cs61_f18_psets.Kernel.Setup.Started.{Started}
use cs61_f18_psets.Kernel.Setup.Whole.{process_setup-Started}
use cs61_f18_psets.Kernel.Setup.Room.{
  OnAnyPage, PagesApart, AllFree, Only, TakesOnly, take_page_returns, take_segments_returns,
}

-- The program is an executable, its segments lie on pages of their own, and these and the page of the
-- stack are free.
pub record HasRoom (ke : ℕ) (ramimages : List RamImage) (pid n : ℕ) (k : Kernel) : Type 0 where
  pub magic : (magic_of (loaded ramimages n).elf == elf_magic) ≡ true
  pub apart : PagesApart (segments ramimages n)
  pub free : AllFree ke k (OnAnyPage (segments ramimages n))
  pub stack : is_free ke k (stack_addr pid) ≡ true
  pub stack_apart : ¬ OnAnyPage (segments ramimages n) (stack_addr pid)

abbrev Finishes : Outcome (Unit {0} × Kernel) → Type 0
Finishes panicked = ⊥
Finishes (done (t, k)) = Unit

Finishes-then :
    (In : ℕ → Type 0) (f : K (Unit {0})) (k : Kernel) (o : Outcome (Unit {0} × Kernel))
    → TakesOnly In k o
    → ((l : Kernel) → Only In k l → Finishes (f l))
    → Finishes (elim o [ panicked ↦ panicked | done (t, l) ↦ f l ])
Finishes-then In f k panicked h g = h
Finishes-then In f k (done (t, l)) h g = g l h

done-then :
    {A : Type 0} (m : K A) (f : A → K (Unit {0})) (k : Kernel) (a : A) (l : Kernel)
    → m k ≡ done (a, l)
    → Finishes (f a l)
    → Finishes ((m >>= f) k)
done-then m f k a l e h =
    subst (λ o. Finishes (elim o [ panicked ↦ panicked | done (b, l') ↦ f b l' ])) (sym e) h

with_result :
    (P : Unit {0} → Kernel → Type 0) (o : Outcome (Unit {0} × Kernel))
    → Finishes o
    → Returns P o
    → (k : Kernel) × (o ≡ done (tt, k)) × P tt k
with_result P panicked h r = absurd h
with_result P (done (tt, k)) h r = (k, refl, r)

stack_even : (pid : ℕ) → stack_addr pid % page_size ≡ 0
unfolding stack_addr
stack_even pid = omega arith

module _ (ke pagetable : ℕ) (ramimages : List RamImage) (n : ℕ)
    (magic : (magic_of (loaded ramimages n).elf == elf_magic) ≡ true) where
  program_loader_done : (k : Kernel) → program_loader ramimages n k ≡ done (loaded ramimages n, k)
  unfolding program_loader loader_reset
  program_loader_done k = rw magic

  take_program_done :
      (k : Kernel) (pid : ℕ)
      → take_program ke (loaded ramimages n) pid k ≡ take_segments ke (segments ramimages n) pid k
  unfolding take_program loader_reset
  take_program_done k pid = rw magic

  copy_program_done :
      (k : Kernel)
      → copy_program (loaded ramimages n) k ≡ done (tt, load_segments (segments ramimages n) k)
  unfolding copy_program loader_reset
  copy_program_done k = rw magic

  take_stack-Finishes :
      (k : Kernel) (pid : ℕ)
      → pid < nproc
      → is_free ke k (stack_addr pid) ≡ true
      → Finishes (take_stack ke pid k)
  unfolding take_stack
  take_stack-Finishes k pid h free =
      Finishes-then (InPage (stack_addr pid)) (modify (change_proc pid (with_stack pid))) k
        (take_page ke (stack_addr pid) pid k)
        (take_page_returns ke k (stack_addr pid) pid (stack_even pid) free) (λ l only. tt)

  copied_then_stacked :
      (k : Kernel) (pid : ℕ)
      → pid < nproc
      → is_free ke k (stack_addr pid) ≡ true
      → Finishes (
          (copy_program (loaded ramimages n)
              >> (modify (change_proc pid (with_entry (entry_of ramimages n)))
                  >> take_stack ke pid))
            k)
  copied_then_stacked k pid h free =
      let ls : List ProgramLoader = segments ramimages n in
      let same = ap (λ u. is_free ke u (stack_addr pid)) (load_segments_rest ls k) in
      done-then (copy_program (loaded ramimages n))
        (λ _. modify (change_proc pid (with_entry (entry_of ramimages n))) >> take_stack ke pid) k
        tt _ (copy_program_done k)
        (take_stack-Finishes
          (change_proc pid (with_entry (entry_of ramimages n)) (load_segments ls k)) pid h
          (same ∙ free))

  process_setup-Finishes :
      (k : Kernel) (pid : ℕ)
      → pid < nproc
      → HasRoom ke ramimages pid n k
      → Finishes (process_setup ke pagetable ramimages pid n k)
  unfolding process_setup
  process_setup-Finishes k pid h room =
      let ls : List ProgramLoader = segments ramimages n in
      let start : Kernel = change_proc pid (with_table pagetable) k in
      let rest : ProgramLoader → K (Unit {0}) = λ l.
        copy_program l
        >> (modify (change_proc pid (with_entry (loader_entry l))) >> take_stack ke pid) in
      done-then (program_loader ramimages n) (λ l. take_program ke l pid >> rest l) start
        (loaded ramimages n) start (program_loader_done start)
        (Finishes-then (OnAnyPage ls) (rest (loaded ramimages n)) start
          (take_program ke (loaded ramimages n) pid start)
          (subst (TakesOnly (OnAnyPage ls) start) (sym (take_program_done start pid))
            (take_segments_returns ke ls start pid room.apart room.free))
          (λ l only.
            copied_then_stacked l pid h
              (rw (only (stack_addr pid) (stack_even pid) room.stack_apart) room.stack)))

-- In a valid kernel, for a process other than 0 and a program whose segments are no shorter than their
-- data, for which there is room: `process_setup` returns. The process can then run from the program's
-- entry on; the pages of its segments and its stack were nobody's and are its own; its segments hold
-- the program's bytes, and its stack zeroes; no other process has changed, and no page that was in use.
pub process_setup_returns :
    (ke pagetable : ℕ) (ramimages : List RamImage) (k : Kernel) (pid n : ℕ)
    → IsValid k
    → pid ≢ 0
    → pid < nproc
    → All IsProper (segments ramimages n)
    → HasRoom ke ramimages pid n k
    → (k' : Kernel) × (process_setup ke pagetable ramimages pid n k ≡ done (tt, k'))
      × Started pagetable pid (entry_of ramimages n) (segments ramimages n) k k'
process_setup_returns ke pagetable ramimages k pid n v ne h proper room =
    with_result (λ _ k'. Started pagetable pid (entry_of ramimages n) (segments ramimages n) k k')
      (process_setup ke pagetable ramimages pid n k)
      (process_setup-Finishes ke pagetable ramimages n room.magic k pid h room)
      (process_setup-Started ke pagetable ramimages k pid n v ne h proper)
