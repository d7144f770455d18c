-- ===== src/Kernel/Setup.antt =====
-- `process_setup` and `kernel` of pset4/kernel.cc: programs come into memory, and the first process
-- runs. The kernel's page table is an address, and the executables are parameters.
pub mod Pages
pub mod Bytes
pub mod Process
pub mod Started
pub mod Whole
pub mod Booted
pub mod Room
pub mod Finish
mod Tests
use cs61_f18_psets.Base.{
  ℕ, zero, suc, ◌+◌, ◌-◌, ◌*◌, ◌/◌, ◌≤◌, ◌≡◌, Bool, true, false, ◌&&◌, Option, none, some, List, [],
  ◌∷◌, set, ltb, leb, ◌==◌, if◌then◌else◌,
}
use cs61_f18_psets.Base.Int.{pos, eq_ℤ}
use cs61_f18_psets.Base.Text.{codes}
use cs61_f18_psets.Libc.Compare.{strcmp}
use cs61_f18_psets.Kernel.Machine.{
  Kernel, Proc, p_runnable, K, Outcome, done, panicked, pure, panic, modify, ◌>>=◌, ◌>>◌, page_size,
  proc_start_addr, proc_size,
}
use cs61_f18_psets.Kernel.Memory.{round_down, fill, kalloc_physical_page}
use cs61_f18_psets.Kernel.Schedule.{Next, halted, run, proc_of}
use cs61_f18_psets.Kernel.Boot.{init_process, boot_state}
use cs61_f18_psets.Kernel.Loader.{
  RamImage, ProgramLoader, program_loader, loader_reset, loader_rounds, loader_va, loader_size,
  loader_data, loader_data_size, loader_entry,
}

-- `memcpy(dst, data, n)` into physical memory.
unfoldable pub copy_in : (ℕ → ℕ) → ℕ → (ℕ → ℕ) → ℕ → ℕ → ℕ
copy_in memory dst bytes n a = if leb dst a && ltb a (dst + n) then bytes (a - dst) else memory a

abbrev pub change_proc : ℕ → (Proc → Proc) → Kernel → Kernel
change_proc pid f k = record k { ptable = set k.ptable pid (f (proc_of k pid)) }

-- `memset`, then `memcpy`, of one segment.
unfoldable pub load_segment : ProgramLoader → Kernel → Kernel
unfolding copy_in fill loader_va loader_size loader_data loader_data_size
load_segment l k = record k {
  memory =
      copy_in (fill k.memory (loader_va l) (loader_size l) 0) (loader_va l) (loader_data l)
        (loader_data_size l);
}

unfoldable pub load_segments : List ProgramLoader → Kernel → Kernel
unfolding load_segment
load_segments [] k = k
load_segments (l ∷ rest) k = load_segments rest (load_segment l k)

-- The rounds of `for (a = lo; a < end; a += PAGESIZE)`.
unfoldable pub page_rounds : ℕ → ℕ → ℕ
page_rounds lo end = (end - lo + (page_size - 1)) / page_size

-- `PROC_START_ADDR + PROC_SIZE * pid - PAGESIZE`.
unfoldable pub stack_addr : ℕ → ℕ
stack_addr pid = proc_start_addr + proc_size * pid - page_size

-- What `process_setup` changes in the process's descriptor.
unfoldable pub with_table : ℕ → Proc → Proc
unfolding init_process
with_table pagetable p = record (init_process p 0) { pagetable = pagetable }

unfoldable pub with_entry : ℕ → Proc → Proc
with_entry entry p = record p { regs = record (p.regs) { rip = entry } }

unfoldable pub with_stack : ℕ → Proc → Proc
unfolding stack_addr
with_stack pid p = record p {
  regs = record (p.regs) { rsp = stack_addr pid + page_size };
  state = p_runnable;
}

-- "copy instructions and data into place"
unfoldable pub copy_program : ProgramLoader → K (Unit {0})
unfolding load_segments
copy_program loader = do l ← loader_reset loader; modify (load_segments (loader_rounds l))

-- A null pointer is a panic.
abbrev pub need : Option ℕ → K (Unit {0})
need none = panic
need (some pa) = pure tt

module _ (kernel_end : ℕ) where
  -- "Cannot allocate memory for process!"
  unfoldable pub take_page : ℕ → ℕ → K (Unit {0})
  unfolding kalloc_physical_page
  take_page a pid = kalloc_physical_page kernel_end a pid >>= need

  -- The inner loop, for a number of rounds.
  unfoldable pub take_pages : ℕ → ℕ → ℕ → K (Unit {0})
  unfolding take_page
  take_pages zero a pid k = done (tt, k)
  take_pages (suc n) a pid k = (take_page a pid >> take_pages n (a + page_size) pid) k

  -- The outer loop.
  unfoldable pub take_segments : List ProgramLoader → ℕ → K (Unit {0})
  unfolding take_pages page_rounds round_down loader_va loader_size
  take_segments [] pid k = done (tt, k)
  take_segments (l ∷ rest) pid k =
      let lo = round_down (loader_va l) page_size in
      (take_pages (page_rounds lo (loader_va l + loader_size l)) lo pid >> take_segments rest pid) k

  -- "allocate and map all memory"
  unfoldable pub take_program : ProgramLoader → ℕ → K (Unit {0})
  unfolding take_segments
  take_program loader pid = do l ← loader_reset loader; take_segments (loader_rounds l) pid

  -- "allocate stack", and "mark process as runnable"
  unfoldable pub take_stack : ℕ → K (Unit {0})
  unfolding take_page stack_addr
  take_stack pid = do take_page (stack_addr pid) pid; modify (change_proc pid (with_stack pid))

  module _ (kernel_pagetable : ℕ) (ramimages : List RamImage) where
    unfoldable pub process_setup : ℕ → ℕ → K (Unit {0})
    unfolding take_program copy_program take_stack program_loader loader_entry
    process_setup pid program_number = do
      modify (change_proc pid (with_table kernel_pagetable))
      loader ← program_loader ramimages program_number
      take_program loader pid
      copy_program loader
      modify (change_proc pid (with_entry (loader_entry loader)))
      take_stack pid

    -- `for (pid_t i = 1; i <= 4; ++i)`, for the rounds that are left.
    unfoldable pub setup_all : ℕ → ℕ → K (Unit {0})
    unfolding process_setup
    setup_all zero i k = done (tt, k)
    setup_all (suc n) i k = (process_setup i (i - 1) >> setup_all n (i + 1)) k

    abbrev after_setup : Outcome (Unit {0} × Kernel) → Next
    after_setup panicked = halted
    after_setup (done (t, k)) = run 1 k

    -- The command line that the boot loader passes on, if any.
    unfoldable pub setup : Option (List ℕ) → K (Unit {0})
    unfolding process_setup setup_all strcmp
    setup command = elim command [
      | none ↦ setup_all 4 1
      | some text ↦
          if eq_ℤ (strcmp text (codes "fork")) (pos 0)
          then process_setup 1 4
          else if eq_ℤ (strcmp text (codes "forkexit")) (pos 0)
          then process_setup 1 5
          else setup_all 4 1
    ]

    -- `memory` is what physical memory holds when the kernel starts.
    unfoldable pub kernel : Option (List ℕ) → (ℕ → ℕ) → Next
    unfolding setup boot_state run
    kernel command memory = after_setup (setup command (boot_state memory))
