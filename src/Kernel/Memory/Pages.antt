-- ===== src/Kernel/Memory/Pages.antt =====
-- The ownership of pages under `kalloc` and `kalloc_physical_page` of pset4/kernel.cc: a page with an
-- owner is never given to another, and a page that is given is filled with zeroes.
use mathlib.Core.Path.{subst}
use cs61_f18_psets.Base.{
  ℕ, ◌+◌, ◌/◌, ◌%◌, ◌≤◌, ◌<◌, ◌≡◌, ◌≢◌, ◌⊎◌, refl, sym, true, false, Option, none, some, length,
  ◌==◌, arith, Bool-cases, inl, inr, get_or-set_self, get_or-set_ne, length-set,
}
use cs61_f18_psets.Kernel.Machine.{
  Kernel, Outcome, done, panicked, page_size, memsize_physical, npages,
}
use cs61_f18_psets.Kernel.Memory.{
  allocatable_physical_address, kalloc, kalloc_physical_page, owner_of, claim, fill,
}
use cs61_f18_psets.Kernel.Memory.Alloc.{is_free, Allocates-of}

-- An allocatable address lies in physical memory, above the first page, and is no I/O address.
pub allocatable_bounds :
    (ke pa : ℕ)
    → allocatable_physical_address ke pa ≡ true
    → (page_size ≤ pa) × (pa < memsize_physical) × ((pa < 0xA0000) ⊎ (0x100000 ≤ pa))
unfolding allocatable_physical_address
allocatable_bounds ke pa h = ground arith

-- What the kernel has done to give the page at `pa` to `owner`: the page was free, it now has that
-- owner and holds zeroes; no other page has another owner, no byte outside it has changed.
pub record Given (ke : ℕ) (k k' : Kernel) (pa owner : ℕ) : Type 0 where
  pub was_free : is_free ke k pa ≡ true
  pub owned : owner_of k' pa ≡ owner % 256
  pub others : (q : ℕ) → q / page_size ≢ pa / page_size → owner_of k' q ≡ owner_of k q
  pub zeroed : (a : ℕ) → pa ≤ a → a < pa + page_size → k'.memory a ≡ 0
  pub outside : (a : ℕ) → (a < pa) ⊎ (pa + page_size ≤ a) → k'.memory a ≡ k.memory a
  pub pages : length k'.owners ≡ length k.owners
  pub processes : k'.ptable ≡ k.ptable
  pub running : k'.current ≡ k.current

pub claim-Given :
    (ke : ℕ) (k : Kernel) (pa owner : ℕ)
    → length k.owners ≡ npages
    → is_free ke k pa ≡ true
    → Given ke k (claim pa owner k) pa owner
unfolding claim fill
claim-Given ke k pa owner n free = record {
  was_free = free;
  owned =
      get_or-set_self k.owners (pa / page_size) (owner % 256) 0
        (omega (arith, allocatable_bounds ke pa (ground arith)));
  others = λ q ne. get_or-set_ne k.owners (pa / page_size) (q / page_size) _ 0 (λ e. ne (sym e));
  zeroed = λ a lo hi. ground arith;
  outside = λ a h. ground arith;
  pages = length-set k.owners (pa / page_size) (owner % 256);
  processes = refl;
  running = refl;
}

-- Every page that `kalloc` returns was free; it is now owned by the kernel (owner 255) and zeroed,
-- and no other page, byte or process has changed.
pub kalloc-Given :
    (ke sz pa : ℕ) (k k' : Kernel)
    → length k.owners ≡ npages
    → kalloc ke sz k ≡ some (some pa, k')
    → Given ke k k' pa 255
kalloc-Given ke sz pa k k' n h =
    let (first, e) = Allocates-of ke sz pa k k' h in
    let k₁ : Kernel = record k { next_alloc_pa = pa + page_size } in
    let given = claim-Given ke k₁ pa 255 n first.2 in
    let same : claim pa 255 k₁ ≡ k' = sym e in
    subst (λ u. Given ke k u pa 255) same
      (record {
        was_free = given.was_free;
        owned = given.owned;
        others = given.others;
        zeroed = given.zeroed;
        outside = given.outside;
        pages = given.pages;
        processes = given.processes;
        running = given.running;
      })

abbrev pub PageCall : ℕ → Kernel → ℕ → ℕ → Outcome (Option ℕ × Kernel) → Type 0
PageCall ke k pa owner panicked = pa % page_size ≢ 0
PageCall ke k pa owner (done (some q, k')) =
    (pa % page_size ≡ 0) × (q ≡ pa) × Given ke k k' pa owner
PageCall ke k pa owner (done (none, k')) =
    (pa % page_size ≡ 0) × (is_free ke k pa ≡ false) × (k' ≡ k)

-- `kalloc_physical_page` panics exactly on an address that is not page-aligned. On an aligned address
-- of a free page it returns the address and gives the page to the owner; on any other aligned address
-- it returns a null pointer and changes nothing.
pub kalloc_physical_page-PageCall :
    (ke pa owner : ℕ) (k : Kernel)
    → length k.owners ≡ npages
    → PageCall ke k pa owner (kalloc_physical_page ke pa owner k)
unfolding kalloc_physical_page
kalloc_physical_page-PageCall ke pa owner k n = elim (Bool-cases (pa % page_size == 0)) [
  | inr odd ↦ rw odd (λ e. ground arith)
  | inl even ↦ elim (Bool-cases (is_free ke k pa)) [
    | inr busy ↦ rw (even, busy) (ground arith, busy, refl)
    | inl free ↦ rw (even, free) (ground arith, refl, claim-Given ke k pa owner n free)
  ]
]
