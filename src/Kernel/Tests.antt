-- ===== src/Kernel/Tests.antt =====
-- Runs of the kernel model.
use cs61_f18_psets.Base.{ℕ, ◌+◌, ◌≡◌, ◌≢◌, refl, Option, some, ◌≤◌, ◌<◌, arith, length}
use cs61_f18_psets.Kernel.Machine.{
  Kernel, Proc, ProcState, Regs, p_runnable, p_broken, page_size, npages, nproc,
}
use cs61_f18_psets.Kernel.Memory.{
  kalloc_loop, allocatable_physical_address, kalloc, kalloc_physical_page, claim, owner_of,
}
use cs61_f18_psets.Kernel.Memory.Alloc.{kalloc_distinct, Kalloc, kalloc_total}
use cs61_f18_psets.Kernel.Memory.Pages.{PageCall, kalloc_physical_page-PageCall}
use cs61_f18_psets.Kernel.Schedule.{
  user, run, schedule, schedule_loop, memshow, show_search, proc_of, no_regs,
}
use cs61_f18_psets.Kernel.Trap.{exception, set_current, handle_trap, trap_of, save_regs}
use cs61_f18_psets.Kernel.Trap.Preserve.{IsValid, set_current-Keeps}
use cs61_f18_psets.Kernel.Trap.Isolate.{
  NextKeeps, here, trap, InUser, exception-NextKeeps, pages_kept, broken_forever,
}
use cs61_f18_psets.Kernel.Boot.{free_slots, boot_state, boot_state-IsValid}

-- Memory holds 170 in each byte when the kernel starts.
abbrev booted : Kernel
booted = boot_state (λ a. 170)

booted-IsValid : IsValid booted
booted-IsValid = boot_state-IsValid (λ a. 170)

-- The kernel's image ends at 0x52000.
abbrev image_end : ℕ
image_end = 0x52000

abbrev at_user_page : Kernel → Kernel
at_user_page k = record k { next_alloc_pa = 0x100000 }

kalloc_run :
    kalloc image_end 8 booted
    ≡ some (some 0x1000, claim 0x1000 255 (record booted { next_alloc_pa = 0x2000 }))
unfolding kalloc boot_state kalloc_loop allocatable_physical_address
kalloc_run = refl

abbrev second : Kernel
second = claim 0x1000 255 (record booted { next_alloc_pa = 0x2000 })

kalloc_run_again :
    kalloc image_end 8 second
    ≡ some (some 0x2000, claim 0x2000 255 (record second { next_alloc_pa = 0x3000 }))
unfolding kalloc boot_state kalloc_loop allocatable_physical_address claim
kalloc_run_again = refl

kalloc_distinct_example : 0x1000 + page_size ≤ 0x2000
kalloc_distinct_example =
    kalloc_distinct image_end 8 8 0x1000 0x2000 booted second _ kalloc_run kalloc_run_again

kalloc_total_example :
    (r : Option ℕ × Kernel) × (kalloc image_end 8 second ≡ some r) × Kalloc image_end 8 second r
kalloc_total_example = kalloc_total image_end 8 second

boot_pages : length booted.owners ≡ npages
boot_pages = booted-IsValid.pages

kalloc_physical_page-PageCall_example :
    PageCall image_end booted 0x100000 1 (kalloc_physical_page image_end 0x100000 1 booted)
kalloc_physical_page-PageCall_example =
    kalloc_physical_page-PageCall image_end 0x100000 1 booted boot_pages

abbrev entry : ℕ → ProcState → Proc
entry i s = record { pagetable = 0x8000; pid = i; regs = no_regs; state = s }

at_current : (k : Kernel) (c : ℕ) → IsValid k → c < nproc → IsValid (record k { current = c })
at_current k c v h = record { slots = v.slots; pages = v.pages; pids = v.pids; running = h }

-- Process 3 has faulted, process 1 runs.
abbrev faulted : Kernel
faulted = set_current (entry 3 p_broken) (record booted { current = 3 })

abbrev busy : Kernel
busy = set_current (entry 1 p_runnable) (record faulted { current = 1 })

faulted-IsValid : IsValid faulted
faulted-IsValid =
    (set_current-Keeps (record booted { current = 3 }) (entry 3 p_broken)
      (at_current booted 3 booted-IsValid (omega arith)) refl).valid

busy-IsValid : IsValid busy
busy-IsValid =
    (set_current-Keeps (record faulted { current = 1 }) (entry 1 p_runnable)
      (at_current faulted 1 faulted-IsValid (omega arith)) refl).valid

busy-InUser : InUser busy
unfolding set_current boot_state free_slots
busy-InUser = record { valid = busy-IsValid; on = refl }

abbrev timer_regs : Regs
timer_regs = record no_regs { intno = 32; rip = 7 }

abbrev ticked : Kernel
ticked = record (memshow (save_regs timer_regs busy)).1 { ticks = 2; current = 1 }

timer_run : exception image_end 16 timer_regs busy ≡ user 1 ticked
unfolding exception handle_trap trap_of schedule schedule_loop run memshow save_regs set_current
    boot_state free_slots show_search
timer_run = refl

exception-NextKeeps_example : NextKeeps busy (exception image_end 16 timer_regs busy)
exception-NextKeeps_example = exception-NextKeeps image_end 16 timer_regs busy busy-IsValid

pages_kept_example :
    InUser ticked
    × ((q : ℕ)
        → owner_of busy q ≢ 0
        → (owner_of ticked q ≡ owner_of busy q) × (ticked.memory q ≡ busy.memory q))
pages_kept_example =
    pages_kept image_end 16 busy ticked busy-InUser (trap timer_regs 1 here timer_run)

broken_here : (proc_of busy 3).state ≡ p_broken
unfolding set_current boot_state free_slots
broken_here = refl

broken_forever_example : (proc_of ticked 3 ≡ proc_of busy 3) × (ticked.current ≢ 3)
broken_forever_example =
    broken_forever image_end 16 3 busy ticked busy-InUser broken_here
      (trap timer_regs 1 here timer_run)

-- Process 1 runs and process 2 is runnable too.
abbrev two_busy : Kernel
two_busy = record (set_current (entry 2 p_runnable) (record busy { current = 2 })) { current = 1 }
