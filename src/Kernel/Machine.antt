-- ===== src/Kernel/Machine.antt =====
-- The state of the kernel: pset4/kernel.hh's `proc`, `pageinfo` and constants, and the variables of
-- pset4/kernel.cc. A pointer into `ptable` is an index; memory is a function from addresses to bytes.
use cs61_f18_psets.Base.{ℕ, Bool, true, false, List}

abbrev pub page_size : ℕ
page_size = 0x1000

abbrev pub nproc : ℕ
nproc = 16

abbrev pub kernel_start_addr : ℕ
kernel_start_addr = 0x40000

abbrev pub kernel_stack_top : ℕ
kernel_stack_top = 0x80000

abbrev pub proc_start_addr : ℕ
proc_start_addr = 0x100000

abbrev pub memsize_physical : ℕ
memsize_physical = 0x200000

abbrev pub npages : ℕ
npages = 0x200

abbrev pub proc_size : ℕ
proc_size = 0x40000

-- `procstate_t`.
pub data ProcState : Type 0 where
  p_free p_runnable p_blocked p_broken : ProcState

-- The registers that the kernel's C++ code reads or writes.
pub record Regs : Type 0 where
  pub rax : ℕ
  pub rdi : ℕ
  pub rip : ℕ
  pub rsp : ℕ
  pub cs : ℕ
  pub fs : ℕ
  pub gs : ℕ
  pub ss : ℕ
  pub rflags : ℕ
  pub intno : ℕ
  pub err : ℕ

-- `proc`; the page table is its address, 0 for a null pointer.
pub record Proc : Type 0 where
  pub pagetable : ℕ
  pub pid : ℕ
  pub regs : Regs
  pub state : ProcState

pub record Kernel : Type 0 where
  pub ptable : List Proc
  pub current : ℕ
  pub ticks : ℕ
  pub owners : List ℕ
  pub memory : ℕ → ℕ
  pub next_alloc_pa : ℕ
  pub last_ticks : ℕ
  pub showing : ℕ

-- How a kernel routine ends: it returns, or it panics (a failed assertion included), after which the
-- machine only waits for the user to switch it off.
pub data Outcome (A : Type 0) : Type 0 where
  done : A → Outcome A
  panicked : Outcome A

abbrev pub K : Type 0 → Type 0
K A = Kernel → Outcome (A × Kernel)

abbrev pub pure : {A : Type 0} → A → K A
pure a k = done (a, k)

abbrev pub panic : {A : Type 0} → K A
panic k = panicked

infixl 5 ◌>>=◌ ◌>>◌
abbrev pub ◌>>=◌ : {A B : Type 0} → K A → (A → K B) → K B
◌>>=◌ m f k = elim (m k) [ panicked ↦ panicked | done (a, k') ↦ f a k' ]

abbrev pub ◌>>◌ : {B : Type 0} → K (Unit {0}) → K B → K B
m >> f = m >>= λ _. f

abbrev pub assert : Bool → K (Unit {0})
assert true k = done (tt, k)
assert false k = panicked

abbrev pub modify : (Kernel → Kernel) → K (Unit {0})
modify f k = done (tt, f k)
