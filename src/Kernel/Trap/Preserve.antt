-- ===== src/Kernel/Trap/Preserve.antt =====
-- What no trap of pset4/kernel.cc can change: the descriptors of processes that are not running, and
-- the owners and contents of pages that are in use.
use mathlib.Core.Path.{subst}
use native.Mathlib.Decide.{ℕ_discrete}
use cs61_f18_psets.Base.{
  ℕ, ◌+◌, ◌/◌, ◌%◌, ◌≤◌, ◌<◌, ◌≡◌, ◌≢◌, ◌⊎◌, refl, sym, ◌∙◌, length, length-set, get_or-set_self,
  get_or-set_ne, arith,
}
use cs61_f18_psets.Kernel.Machine.{Kernel, Proc, Regs, page_size, npages, nproc}
use cs61_f18_psets.Kernel.Memory.{owner_of}
use cs61_f18_psets.Kernel.Memory.Pages.{Given}
use cs61_f18_psets.Kernel.Schedule.{memshow, proc_of, no_proc}
use cs61_f18_psets.Kernel.Trap.{set_current, current_proc, save_regs, set_rax}

-- The tables have their sizes, process `i` stands at index `i`, and the current one is in the table.
pub record IsValid (k : Kernel) : Type 0 where
  pub slots : length k.ptable ≡ nproc
  pub pages : length k.owners ≡ npages
  pub pids : (i : ℕ) → i < nproc → (proc_of k i).pid ≡ i
  pub running : k.current < nproc

apart :
    (pa a : ℕ)
    → pa % page_size ≡ 0
    → a / page_size ≢ pa / page_size
    → (a < pa) ⊎ (pa + page_size ≤ a)
apart pa a even ne = omega arith

-- A step that leaves the other processes, the current process's place and the pages in use alone.
pub record Keeps (k k' : Kernel) : Type 0 where
  pub valid : IsValid k'
  pub same_current : k'.current ≡ k.current
  pub others : (i : ℕ) → i ≢ k.current → proc_of k' i ≡ proc_of k i
  pub owners : (q : ℕ) → owner_of k q ≢ 0 → owner_of k' q ≡ owner_of k q
  pub contents : (a : ℕ) → owner_of k a ≢ 0 → k'.memory a ≡ k.memory a

pub Keeps-refl : (k : Kernel) → IsValid k → Keeps k k
Keeps-refl k v = record {
  valid = v;
  same_current = refl;
  others = λ i ne. refl;
  owners = λ q ne. refl;
  contents = λ a ne. refl;
}

pub Keeps-trans : (k l m : Kernel) → Keeps k l → Keeps l m → Keeps k m
Keeps-trans k l m p q = record {
  valid = q.valid;
  same_current = q.same_current ∙ p.same_current;
  others = λ i ne. q.others i (λ e. ne (e ∙ p.same_current)) ∙ p.others i ne;
  owners = λ a ne. q.owners a (λ e. ne (sym (p.owners a ne) ∙ e)) ∙ p.owners a ne;
  contents = λ a ne. q.contents a (λ e. ne (sym (p.owners a ne) ∙ e)) ∙ p.contents a ne;
}

set_pid :
    (k : Kernel) (p : Proc) (i : ℕ)
    → IsValid k
    → p.pid ≡ k.current
    → i < nproc
    → Dec (k.current ≡ i)
    → (proc_of (set_current p k) i).pid ≡ i
unfolding set_current
set_pid k p i v e h (yes at) =
    let self = get_or-set_self k.ptable k.current p no_proc (omega (arith, v.slots, v.running)) in
    subst (λ j. (proc_of (set_current p k) j).pid ≡ j) at (rw self e)
set_pid k p i v e h (no ne) = rw (get_or-set_ne k.ptable k.current i p no_proc ne) (v.pids i h)

pub set_current-Keeps :
    (k : Kernel) (p : Proc) → IsValid k → p.pid ≡ k.current → Keeps k (set_current p k)
unfolding set_current
set_current-Keeps k p v e = record {
  valid = record {
    slots = length-set k.ptable k.current p ∙ v.slots;
    pages = v.pages;
    pids = λ i h. set_pid k p i v e h (ℕ_discrete k.current i);
    running = v.running;
  };
  same_current = refl;
  others = λ i ne. get_or-set_ne k.ptable k.current i p no_proc (λ s. ne (sym s));
  owners = λ q ne. refl;
  contents = λ a ne. refl;
}

pub current_pid : (k : Kernel) → IsValid k → (current_proc k).pid ≡ k.current
current_pid k v = v.pids k.current v.running

pub save_regs-Keeps : (k : Kernel) (regs : Regs) → IsValid k → Keeps k (save_regs regs k)
unfolding save_regs
save_regs-Keeps k regs v = set_current-Keeps k _ v (current_pid k v)

pub set_rax-Keeps : (k : Kernel) (n : ℕ) → IsValid k → Keeps k (set_rax n k)
unfolding set_rax
set_rax-Keeps k n v = set_current-Keeps k _ v (current_pid k v)

pub memshow-Keeps : (k : Kernel) → IsValid k → Keeps k (memshow k).1
unfolding memshow
memshow-Keeps k v = record {
  valid = record { slots = v.slots; pages = v.pages; pids = v.pids; running = v.running };
  same_current = refl;
  others = λ i ne. refl;
  owners = λ q ne. refl;
  contents = λ a ne. refl;
}

pub tick-Keeps : (k : Kernel) (n : ℕ) → IsValid k → Keeps k (record k { ticks = n })
tick-Keeps k n v = record {
  valid = record { slots = v.slots; pages = v.pages; pids = v.pids; running = v.running };
  same_current = refl;
  others = λ i ne. refl;
  owners = λ q ne. refl;
  contents = λ a ne. refl;
}

other_page :
    (ke : ℕ) (k k' : Kernel) (pa owner q : ℕ)
    → Given ke k k' pa owner
    → owner_of k q ≢ 0
    → q / page_size ≢ pa / page_size
other_page ke k k' pa owner q g ne e = ne (rw e (ground (arith, g.was_free)))

pub Given-Keeps :
    (ke : ℕ) (k k' : Kernel) (pa owner : ℕ)
    → IsValid k
    → pa % page_size ≡ 0
    → Given ke k k' pa owner
    → Keeps k k'
Given-Keeps ke k k' pa owner v even g = record {
  valid = record {
    slots = rw g.processes v.slots;
    pages = g.pages ∙ v.pages;
    pids = λ i h. rw g.processes (v.pids i h);
    running = omega (arith, g.running, v.running);
  };
  same_current = g.running;
  others = λ i ne. rw g.processes;
  owners = λ q ne. g.others q (other_page ke k k' pa owner q g ne);
  contents = λ a ne. g.outside a (apart pa a even (other_page ke k k' pa owner a g ne));
}
