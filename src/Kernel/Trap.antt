-- ===== src/Kernel/Trap.antt =====
-- `exception` and `syscall` of pset4/kernel.cc.
pub mod Preserve
pub mod Isolate
use cs61_f18_psets.Base.{
  ℕ, ◌+◌, ◌-◌, ◌/◌, ◌%◌, ◌^◌, Bool, true, false, not, ◌||◌, Option, none, some, set, ◌==◌,
  if◌then◌else◌,
}
use cs61_f18_psets.Kernel.Machine.{
  Kernel, Proc, Regs, ProcState, p_runnable, p_broken, Outcome, done, panicked,
}
use cs61_f18_psets.Kernel.Memory.{kalloc_physical_page}
use cs61_f18_psets.Kernel.Schedule.{
  Next, user, halted, spinning, run, schedule, memshow, proc_of, is_runnable,
}

-- `*current = p`.
unfoldable pub set_current : Proc → Kernel → Kernel
set_current p k = record k { ptable = set k.ptable k.current p }

abbrev pub current_proc : Kernel → Proc
current_proc k = proc_of k k.current

-- `current->regs = *regs`.
unfoldable pub save_regs : Regs → Kernel → Kernel
unfolding set_current
save_regs regs k = set_current (record (current_proc k) { regs = regs }) k

-- `current->regs.reg_rax = v`.
unfoldable pub set_rax : ℕ → Kernel → Kernel
unfolding set_current
set_rax v k =
    set_current (record (current_proc k) { regs = record ((current_proc k).regs) { rax = v } }) k

-- The system call numbers of pset4/lib.hh that the kernel handles, and any other.
pub data Call : Type 0 where
  getpid yield panics page_alloc other : Call

unfoldable pub call_of : ℕ → Call
call_of n =
    if n == 1
    then getpid
    else if n == 2
    then yield
    else if n == 3
    then panics
    else if n == 4
    then page_alloc
    else other

-- A system call returns a value to its process, or leaves the kernel in another way.
pub data Answer : Type 0 where
  returns : ℕ → Kernel → Answer
  leaves : Next → Answer

unfoldable pub page_alloc_answer : Outcome (Option ℕ × Kernel) → Answer
page_alloc_answer panicked = leaves halted
page_alloc_answer (done (some pa, k)) = returns 0 k
page_alloc_answer (done (none, k)) = returns (2 ^ 64 - 1) k

unfoldable pub handle_call : ℕ → ℕ → Call → Kernel → Answer
handle_call ke spins getpid k = returns (current_proc k).pid k
handle_call ke spins yield k = leaves (schedule spins (set_rax 0 k))
handle_call ke spins panics k = leaves halted
handle_call ke spins page_alloc k =
    page_alloc_answer (kalloc_physical_page ke (current_proc k).regs.rdi (current_proc k).pid k)
handle_call ke spins other k = leaves halted

unfoldable pub syscall : ℕ → ℕ → Regs → Kernel → Answer
syscall ke spins regs k = handle_call ke spins (call_of regs.rax) (memshow (save_regs regs k)).1

-- The interrupts that the kernel handles, and any other.
pub data Trap : Type 0 where
  system_call timer page_fault unexpected : Trap

unfoldable pub trap_of : ℕ → Trap
trap_of n =
    if n == 48
    then system_call
    else if n == 32
    then timer
    else if n == 14
    then page_fault
    else unexpected

-- `regs->reg_err & PFERR_USER`.
abbrev pub in_user_mode : Regs → Bool
in_user_mode regs = (regs.err / 4) % 2 == 1

-- "Return to the current process (or run something else)."
unfoldable pub resume : ℕ → Kernel → Next
resume spins k = if is_runnable (current_proc k).state then run k.current k else schedule spins k

unfoldable pub after_call : ℕ → Answer → Next
after_call spins (returns v k) = resume spins (set_rax v k)
after_call spins (leaves n) = n

unfoldable pub handle_trap : ℕ → ℕ → Trap → Regs → Kernel → Next
handle_trap ke spins system_call regs k = after_call spins (syscall ke spins regs k)
handle_trap ke spins timer regs k = schedule spins (record k { ticks = (k.ticks + 1) % 2 ^ 32 })
handle_trap ke spins page_fault regs k =
    if in_user_mode regs
    then resume spins (set_current (record (current_proc k) { state = p_broken }) k)
    else halted
handle_trap ke spins unexpected regs k = halted

unfoldable pub exception : ℕ → ℕ → Regs → Kernel → Next
exception ke spins regs k =
    let saved = save_regs regs k in
    let shown = if not (regs.intno == 14) || in_user_mode regs then (memshow saved).1 else saved in
    handle_trap ke spins (trap_of regs.intno) regs shown
