-- ===== src/Kernel/Schedule.antt =====
-- `run`, `schedule` and `memshow` of pset4/kernel.cc. What the display shows and the keys that the
-- user types are left out: between two instructions of a process the kernel only decides which
-- process runs next.
pub mod Fair
use cs61_f18_psets.Base.{
  ℕ, zero, suc, ◌+◌, ◌-◌, ◌/◌, ◌%◌, ◌^◌, ◌≤◌, Bool, true, false, not, ◌&&◌, ◌||◌, Option, none,
  some, List, [], get_or, get_elem?, ltb, leb, ◌==◌, if◌then◌else◌,
}
use cs61_f18_psets.Kernel.Machine.{
  Kernel, Proc, Regs, ProcState, p_free, p_runnable, p_blocked, p_broken, Outcome, done, panicked,
  nproc,
}

abbrev pub no_regs : Regs
no_regs = record {
  rax = 0;
  rdi = 0;
  rip = 0;
  rsp = 0;
  cs = 0;
  fs = 0;
  gs = 0;
  ss = 0;
  rflags = 0;
  intno = 0;
  err = 0;
}

-- What an index beyond the table would read.
abbrev pub no_proc : Proc
no_proc = record { pagetable = 0; pid = 0; regs = no_regs; state = p_free }

abbrev pub proc_of : Kernel → ℕ → Proc
proc_of k i = get_or k.ptable i no_proc

abbrev pub is_runnable : ProcState → Bool
is_runnable p_runnable = true
is_runnable _ = false

abbrev pub is_free_slot : ProcState → Bool
is_free_slot p_free = true
is_free_slot _ = false

-- How the kernel leaves a trap: back to user mode with a process, in a panic, or spinning in
-- `schedule` with no process to run.
pub data Next : Type 0 where
  user : ℕ → Kernel → Next
  halted : Next
  spinning : Next

-- `check_pagetable` only asserts facts about the page table; it is part of the hardware set-up.
unfoldable pub run : ℕ → Kernel → Next
run i k = if is_runnable (proc_of k i).state then user i (record k { current = i }) else halted

-- The loop of `schedule` with a number of spins left.
unfoldable pub schedule_loop : ℕ → ℕ → Kernel → Next
schedule_loop zero pid k = spinning
schedule_loop (suc spins) pid k =
    let next = (pid + 1) % nproc in
    let rest = schedule_loop spins next k in
    if is_runnable (proc_of k next).state then run next k else rest

unfoldable pub schedule : ℕ → Kernel → Next
schedule spins k = schedule_loop spins (proc_of k k.current).pid k

-- The search of `memshow` for a process with a page table, `n` slots left.
unfoldable pub show_search : ℕ → Kernel → ℕ → Option ℕ × ℕ
show_search zero k showing = (none, showing)
show_search (suc n) k showing =
    let p = proc_of k showing in
    let rest = show_search n k ((showing + 1) % nproc) in
    if not (is_free_slot p.state) && not (p.pagetable == 0) then (some showing, showing) else rest

-- `ticks` is a 32-bit counter, and `HZ / 2` is 50.
unfoldable pub memshow : Kernel → Option ℕ × Kernel
memshow k =
    let switch = (k.last_ticks == 0) || leb 50 ((k.ticks + 2 ^ 32 - k.last_ticks) % 2 ^ 32) in
    let showing = if switch then (k.showing + 1) % nproc else k.showing in
    let last_ticks = if switch then k.ticks else k.last_ticks in
    let (p, shown) = show_search nproc k showing in
    (p, record k { showing = shown; last_ticks = last_ticks })
