-- ===== src/Kernel/Setup/Process.antt =====
-- What `process_setup` of pset4/kernel.cc leaves behind when it returns.
use mathlib.Core.Path.{subst}
use native.Mathlib.Decide.{ℕ_discrete}
use cs61_f18_psets.Base.{
  ℕ, ◌<◌, ◌≡◌, ◌≢◌, refl, sym, ◌∙◌, Bool, true, false, List, arith, get_elem?, length-set,
  get_or-set_self, get_or-set_ne,
}
use cs61_f18_psets.Kernel.Machine.{Kernel, Proc, assert, pure, ◌>>◌, nproc}
use cs61_f18_psets.Kernel.Schedule.{proc_of, no_proc}
use cs61_f18_psets.Kernel.Trap.Preserve.{IsValid}
use cs61_f18_psets.Kernel.Loader.{
  RamImage, ProgramLoader, begin_of, first_of, loader_rounds, loader_entry, loader_reset,
  program_loader,
}
use cs61_f18_psets.Kernel.Setup.{change_proc, load_segments}
use cs61_f18_psets.Kernel.Setup.Pages.{Returns}
use cs61_f18_psets.Kernel.Setup.Bytes.{load_segments_rest}

-- A program's loader after `reset`, and the segments that it goes over.
abbrev pub loaded : List RamImage → ℕ → ProgramLoader
loaded ramimages n =
    let elf = begin_of (get_elem? ramimages n) in record { elf = elf; ph = first_of elf }

abbrev pub segments : List RamImage → ℕ → List ProgramLoader
segments ramimages n = loader_rounds (loaded ramimages n)

-- Where program `n` begins.
abbrev pub entry_of : List RamImage → ℕ → ℕ
entry_of ramimages n = loader_entry (loaded ramimages n)

checked_pure :
    (b : Bool) (l : ProgramLoader) (k : Kernel)
    → Returns (λ l' m. (l' ≡ l) × (m ≡ k)) ((assert b >> pure l) k)
checked_pure true l k = (refl, refl)
checked_pure false l k = tt

pub program_loader-loaded :
    (ramimages : List RamImage) (n : ℕ) (k : Kernel)
    → Returns (λ l m. (l ≡ loaded ramimages n) × (m ≡ k)) (program_loader ramimages n k)
unfolding program_loader loader_reset
program_loader-loaded ramimages n k = checked_pure _ (loaded ramimages n) k

pub loader_reset-loaded :
    (ramimages : List RamImage) (n : ℕ) (k : Kernel)
    → Returns (λ l m. (l ≡ loaded ramimages n) × (m ≡ k)) (loader_reset (loaded ramimages n) k)
unfolding loader_reset
loader_reset-loaded ramimages n k = checked_pure _ (loaded ramimages n) k

-- The process table after a change of one slot.
pub changed_self :
    (pid : ℕ) (f : Proc → Proc) (k : Kernel)
    → IsValid k
    → pid < nproc
    → proc_of (change_proc pid f k) pid ≡ f (proc_of k pid)
changed_self pid f k v h = get_or-set_self k.ptable pid _ no_proc (omega (arith, v.slots))

pub changed_other :
    (pid i : ℕ) (f : Proc → Proc) (k : Kernel)
    → i ≢ pid
    → proc_of (change_proc pid f k) i ≡ proc_of k i
changed_other pid i f k ne = get_or-set_ne k.ptable pid i _ no_proc (λ e. ne (sym e))

changed_pid :
    (pid i : ℕ) (f : Proc → Proc) (k : Kernel)
    → IsValid k
    → pid < nproc
    → ((p : Proc) → (f p).pid ≡ p.pid)
    → i < nproc
    → (proc_of (change_proc pid f k) i).pid ≡ i
changed_pid pid i f k v h same hi = elim (ℕ_discrete i pid) [
  | yes e ↦
      subst (λ j. (proc_of (change_proc pid f k) j).pid ≡ j) (sym e)
        (rw (changed_self pid f k v h, same) (v.pids pid h))
  | no ne ↦ rw (changed_other pid i f k ne) (v.pids i hi)
]

pub changed-IsValid :
    (pid : ℕ) (f : Proc → Proc) (k : Kernel)
    → IsValid k
    → pid < nproc
    → ((p : Proc) → (f p).pid ≡ p.pid)
    → IsValid (change_proc pid f k)
changed-IsValid pid f k v h same = record {
  slots = length-set k.ptable pid _ ∙ v.slots;
  pages = v.pages;
  pids = λ i hi. changed_pid pid i f k v h same hi;
  running = v.running;
}

pub load_segments-IsValid :
    (ls : List ProgramLoader) (k : Kernel) → IsValid k → IsValid (load_segments ls k)
load_segments-IsValid ls k v =
    subst IsValid (sym (load_segments_rest ls k))
      (record { slots = v.slots; pages = v.pages; pids = v.pids; running = v.running })
