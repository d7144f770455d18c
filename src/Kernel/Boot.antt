-- ===== src/Kernel/Boot.antt =====
-- The process table that `kernel` of pset4/kernel.cc sets up, and `init_process` of
-- pset4/k-hardware.cc. What physical memory holds at the start is a parameter.
use cs61_f18_psets.Base.{
  ℕ, zero, suc, ◌+◌, ◌/◌, ◌%◌, ◌<◌, ◌≡◌, refl, List, [], ◌∷◌, replicate, length, length-replicate,
  get_or, ◌==◌, if◌then◌else◌, arith,
}
use cs61_f18_psets.Kernel.Machine.{Kernel, Proc, p_free, nproc, npages}
use cs61_f18_psets.Kernel.Schedule.{no_regs, no_proc}
use cs61_f18_psets.Kernel.Trap.Preserve.{IsValid}

-- `for (i = 0; i < NPROC; i++) { ptable[i].pid = i; ptable[i].state = P_FREE; }` once the kernel's
-- data are cleared; `n` slots from index `i` on.
unfoldable pub free_slots : ℕ → ℕ → List Proc
free_slots i zero = []
free_slots i (suc n) =
    record { pagetable = 0; pid = i; regs = no_regs; state = p_free } ∷ free_slots (i + 1) n

-- The kernel's variables before the first `process_setup`: the kernel's data have been cleared, the
-- rest of physical memory is as it was.
unfoldable pub boot_state : (ℕ → ℕ) → Kernel
boot_state memory = record {
  ptable = free_slots 0 nproc;
  current = 0;
  ticks = 1;
  owners = replicate npages 0;
  memory = memory;
  next_alloc_pa = 0;
  last_ticks = 0;
  showing = 0;
}

length-free_slots : (i n : ℕ) → length (free_slots i n) ≡ n
unfolding free_slots
length-free_slots i zero = refl
length-free_slots i (suc n) = omega (arith, length-free_slots (i + 1) n)

pid-free_slots : (s n i : ℕ) → i < n → (get_or (free_slots s n) i no_proc).pid ≡ s + i
unfolding free_slots
pid-free_slots s zero i h = absurd (omega arith)
pid-free_slots s (suc n) zero h = omega arith
pid-free_slots s (suc n) (suc i) h = omega (arith, pid-free_slots (s + 1) n i)

pub boot_state-IsValid : (memory : ℕ → ℕ) → IsValid (boot_state memory)
unfolding boot_state
boot_state-IsValid memory = record {
  slots = length-free_slots 0 nproc;
  pages = length-replicate {A = ℕ} npages 0;
  pids = λ i h. omega (arith, pid-free_slots 0 nproc i h);
  running = omega arith;
}

-- `init_process(p, flags)`: `SEGSEL_APP_CODE | 3`, `SEGSEL_APP_DATA | 3`, `EFLAGS_IF`, and the two
-- flags that change `%rflags`.
unfoldable pub init_process : Proc → ℕ → Proc
init_process p flags =
    let iopl : ℕ = if flags % 2 == 1 then 0x3000 else 0 in
    let enabled : ℕ = if (flags / 2) % 2 == 1 then 0 else 0x200 in
    record p {
      regs = record no_regs { cs = 0x1B; fs = 0x23; gs = 0x23; ss = 0x23; rflags = iopl + enabled };
    }
