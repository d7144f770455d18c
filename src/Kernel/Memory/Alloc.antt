-- ===== src/Kernel/Memory/Alloc.antt =====
-- What `kalloc` of pset4/kernel.cc promises.
use mathlib.Core.Path.{subst}
use cs61_f18_psets.Base.{
  ℕ, zero, suc, ◌+◌, ◌*◌, ◌≤◌, ◌<◌, ◌≡◌, ◌⊎◌, refl, sym, ap, ◌∙◌, Bool, true, false, ◌&&◌, Option,
  none, some, ltb, ◌==◌, arith, ltb→lt, ltb→le, Bool-cases, inl, inr, some-inj,
}
use cs61_f18_psets.Kernel.Machine.{Kernel, page_size, memsize_physical, npages}
use cs61_f18_psets.Kernel.Memory.{
  allocatable_physical_address, kalloc_loop, kalloc, owner_of, claim,
}

module _ (kernel_end : ℕ) where
  -- A page that the allocator may hand out.
  abbrev pub is_free : Kernel → ℕ → Bool
  is_free k pa = allocatable_physical_address kernel_end pa && (owner_of k pa == 0)

  -- The `i`-th page from the allocator's position on.
  abbrev pub nth_page : Kernel → ℕ → ℕ
  nth_page k i = k.next_alloc_pa + i * page_size

  -- `pa` is the first free page from the allocator's position on.
  abbrev pub FirstFree : Kernel → ℕ → Type 0
  FirstFree k pa =
      (n : ℕ) × (pa ≡ nth_page k n)
      × (is_free k pa ≡ true)
      × ((i : ℕ) → i < n → is_free k (nth_page k i) ≡ false)

  abbrev pub NoneFree : Kernel → Type 0
  NoneFree k = (i : ℕ) → nth_page k i < memsize_physical → is_free k (nth_page k i) ≡ false

  abbrev pub Allocates : Kernel → Option ℕ × Kernel → Type 0
  Allocates k (some pa, k') =
      FirstFree k pa × (k' ≡ claim pa 255 (record k { next_alloc_pa = pa + page_size }))
  Allocates k (none, k') = NoneFree k × (k' ≡ record k { next_alloc_pa = k'.next_alloc_pa })

  abbrev moved_on : Kernel → Kernel
  moved_on k = record k { next_alloc_pa = k.next_alloc_pa + page_size }

  page_zero : (k : Kernel) → nth_page k 0 ≡ k.next_alloc_pa
  page_zero k = omega arith

  page_suc : (k : Kernel) (i : ℕ) → nth_page (moved_on k) i ≡ nth_page k (suc i)
  page_suc k i = omega arith

  skip_page :
      (k : Kernel) (P : ℕ → Type 0)
      → is_free k k.next_alloc_pa ≡ false
      → ((i : ℕ) → P (suc i) → is_free (moved_on k) (nth_page (moved_on k) i) ≡ false)
      → (i : ℕ) → P i
      → is_free k (nth_page k i) ≡ false
  skip_page k P busy rest zero p = rw (page_zero k) busy
  skip_page k P busy rest (suc i) p = rw (← page_suc k i) (rest i p)

  skip-Allocates :
      (k : Kernel) (r : Option ℕ × Kernel)
      → is_free k k.next_alloc_pa ≡ false
      → Allocates (moved_on k) r
      → Allocates k r
  skip-Allocates k (some pa, k') busy ((n, at, free, before), e) = (
    (
      suc n,
      at ∙ page_suc k n,
      free,
      skip_page k (λ i. i < suc n) busy (λ i h. before i (omega arith)),
    ),
    e,
  )
  skip-Allocates k (none, k') busy (full, e) =
      (skip_page k (λ i. nth_page k i < memsize_physical) busy (λ i h. full i (omega arith)), e)

  kalloc_loop-Allocates :
      (fuel : ℕ) (k : Kernel)
      → 1 ≤ fuel
      → memsize_physical + page_size ≤ k.next_alloc_pa + fuel * page_size
      → (r : Option ℕ × Kernel) × (kalloc_loop kernel_end fuel k ≡ some r) × Allocates k r
  unfolding kalloc_loop
  kalloc_loop-Allocates zero k h m = absurd (omega arith)
  kalloc_loop-Allocates (suc fuel) k h m =
      elim (Bool-cases (ltb k.next_alloc_pa memsize_physical)) [
        | inr past ↦ (
          (none, k),
          rw past refl,
          ((λ i b. absurd (omega (arith, ltb→le k.next_alloc_pa memsize_physical past))), refl),
        )
        | inl inside ↦ elim (Bool-cases (is_free k k.next_alloc_pa)) [
          | inl free ↦ (
            (some k.next_alloc_pa, claim k.next_alloc_pa 255 (moved_on k)),
            rw (inside, free) refl,
            ((0, sym (page_zero k), free, λ i b. absurd (omega arith)), refl),
          )
          | inr busy ↦
              let (r, e, a) =
                kalloc_loop-Allocates fuel (moved_on k)
                  (omega (arith, ltb→lt k.next_alloc_pa memsize_physical inside)) (omega arith) in
              (r, rw (inside, busy) e, skip-Allocates k r busy a)
        ]
      ]

  abbrev pub Kalloc : ℕ → Kernel → Option ℕ × Kernel → Type 0
  Kalloc sz k r = ((page_size < sz) × (r ≡ (none, k))) ⊎ ((sz ≤ page_size) × Allocates k r)

  -- `kalloc` always returns. A request beyond a page changes nothing and gets a null pointer. Any
  -- other gets the first free page from the allocator's position on, which it claims, or a null
  -- pointer when none of those pages is free.
  pub kalloc_total :
      (sz : ℕ) (k : Kernel)
      → (r : Option ℕ × Kernel) × (kalloc kernel_end sz k ≡ some r) × Kalloc sz k r
  unfolding kalloc
  kalloc_total sz k = elim (Bool-cases (ltb page_size sz)) [
    | inl big ↦ ((none, k), rw big refl, inl (ltb→lt page_size sz big, refl))
    | inr fits ↦
        let (r, e, a) = kalloc_loop-Allocates (suc npages) k (omega arith) (omega arith) in
        (r, rw fits e, inr (ltb→le page_size sz fits, a))
  ]

  Kalloc-of :
      (sz : ℕ) (k : Kernel) (r : Option ℕ × Kernel)
      → kalloc kernel_end sz k ≡ some r
      → Kalloc sz k r
  Kalloc-of sz k r h =
      let (r', e, a) = kalloc_total sz k in
      let same : r' ≡ r = some-inj (sym e ∙ h) in subst (Kalloc sz k) same a

  pub Allocates-of :
      (sz pa : ℕ) (k k' : Kernel)
      → kalloc kernel_end sz k ≡ some (some pa, k')
      → Allocates k (some pa, k')
  Allocates-of sz pa k k' h = elim (Kalloc-of sz k (some pa, k') h) [
    | inl (big, e) ↦ absurd (cc (ap (λ (q : Option ℕ × Kernel). q.0) e))
    | inr (fits, a) ↦ a
  ]

  -- Two successful calls of `kalloc`, one after the other, return different pages, in order.
  pub kalloc_distinct :
      (sz sz' pa pa' : ℕ) (k k' k'' : Kernel)
      → kalloc kernel_end sz k ≡ some (some pa, k')
      → kalloc kernel_end sz' k' ≡ some (some pa', k'')
      → pa + page_size ≤ pa'
  unfolding claim
  kalloc_distinct sz sz' pa pa' k k' k'' h h' =
      let first = Allocates-of sz pa k k' h in
      let second = Allocates-of sz' pa' k' k'' h' in
      omega (arith, second.0.1, ap (λ (q : Kernel). q.next_alloc_pa) first.1)
