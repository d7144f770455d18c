-- ===== src/Kernel/PageTable/Source.antt =====
-- `kalloc` of pset4/kernel.cc as the allocator that `vmiter::map` of pset4/k-vmiter.cc takes its pages
-- from. A page is held when it has an owner.
use mathlib.Core.Path.{subst}
use cs61_f18_psets.Base.{
  ℕ, zero, suc, ◌+◌, ◌/◌, ◌%◌, ◌^◌, ◌<◌, ◌≡◌, refl, sym, ap, ◌∙◌, Bool, true, false, not, ◌&&◌,
  Option, none, some, some-inj, ltb, ◌==◌, Bool-cases, Option-cases, inl, inr, length, List, get_or,
  ==_iff, arith,
}
use cs61_f18_psets.Kernel.Machine.{Kernel, page_size, npages, memsize_physical}
use cs61_f18_psets.Kernel.Memory.{kalloc, kalloc_loop, owner_of, claim}
use cs61_f18_psets.Kernel.Memory.Alloc.{is_free, FirstFree, Allocates-of, Kalloc, kalloc_total}
use cs61_f18_psets.Kernel.Memory.Pages.{Given, kalloc-Given, allocatable_bounds}
use cs61_f18_psets.Kernel.PageTable.Map.{PageSource}

-- A kernel whose table of pages has its size and whose allocator stands at the start of a page.
abbrev pub Usable : Type 0
Usable = (k : Kernel) × (length k.owners ≡ npages) × (k.next_alloc_pa % page_size ≡ 0)

abbrev pub is_held : Kernel → ℕ → Bool
is_held k p = not (owner_of k p == 0)

pub held-free :
    (k : Kernel) (c : Bool) (p : ℕ) → (c && (owner_of k p == 0)) ≡ true → is_held k p ≡ false
held-free k c p h = ground arith

pub held_by_kernel : (k : Kernel) (p : ℕ) → owner_of k p ≡ 255 → is_held k p ≡ true
held_by_kernel k p h = rw h refl

module _ (ke : ℕ) where
  -- `kalloc` always returns; out of fuel, this would be a null pointer.
  abbrev pub answer : Kernel → Option (Option ℕ × Kernel) → Option ℕ × Kernel
  answer k none = (none, k)
  answer k (some r) = r

  -- What `kalloc(PAGESIZE)` returns.
  abbrev pub take : Kernel → Option ℕ × Kernel
  take k = answer k (kalloc ke page_size k)

  take_total : (k : Kernel) → (kalloc_total ke page_size k).0 ≡ take k
  take_total k = sym (ap (answer k) (kalloc_total ke page_size k).1)

  pub take-kalloc : (k : Kernel) → kalloc ke page_size k ≡ some (take k)
  take-kalloc k = (kalloc_total ke page_size k).1 ∙ ap some (take_total k)

  kalloc_loop-aligned :
      (fuel : ℕ) (k : Kernel) (r : Option ℕ × Kernel)
      → k.next_alloc_pa % page_size ≡ 0
      → kalloc_loop ke fuel k ≡ some r
      → r.1.next_alloc_pa % page_size ≡ 0
  unfolding kalloc_loop claim
  kalloc_loop-aligned zero k r h e = cc e
  kalloc_loop-aligned (suc fuel) k r h e =
      let next = record k { next_alloc_pa = k.next_alloc_pa + page_size } in
      elim (Bool-cases (ltb k.next_alloc_pa memsize_physical)) [
        | inr past ↦
            subst (λ (q : Option ℕ × Kernel). q.1.next_alloc_pa % page_size ≡ 0)
              (some-inj (rw past at e)) h
        | inl inside ↦ elim (Bool-cases (is_free ke k k.next_alloc_pa)) [
          | inl free ↦
              subst (λ (q : Option ℕ × Kernel). q.1.next_alloc_pa % page_size ≡ 0)
                (some-inj (rw (inside, free) at e)) (omega (arith, h))
          | inr busy ↦ kalloc_loop-aligned fuel next r (omega (arith, h)) (rw (inside, busy) at e)
        ]
      ]

  pub take-aligned :
      (k : Kernel) → k.next_alloc_pa % page_size ≡ 0 → (take k).1.next_alloc_pa % page_size ≡ 0
  unfolding kalloc
  take-aligned k h = kalloc_loop-aligned (suc npages) k (take k) h (take-kalloc k)

  pub take-Given :
      (p : ℕ) (k : Kernel)
      → length k.owners ≡ npages
      → (take k).0 ≡ some p
      → Given ke k (take k).1 p 255
  take-Given p k n e =
      kalloc-Given ke page_size p k (take k).1 n (take-kalloc k ∙ ap (λ o. some (o, (take k).1)) e)

  Kalloc-owners :
      (k : Kernel) (r : Option ℕ × Kernel)
      → Kalloc ke page_size k r
      → r.0 ≡ none
      → r.1.owners ≡ k.owners
  Kalloc-owners k (some p, k') a e = cc e
  Kalloc-owners k (none, k') (inl (lt, same)) e = absurd (omega (arith, lt))
  Kalloc-owners k (none, k') (inr (fits, (full, same))) e = ap (λ (q : Kernel). q.owners) same

  take-owners : (k : Kernel) → (take k).0 ≡ none → (take k).1.owners ≡ k.owners
  take-owners k e =
      Kalloc-owners k (take k)
        (subst (Kalloc ke page_size k) (take_total k) (kalloc_total ke page_size k).2) e

  pub take-pages : (k : Kernel) → length k.owners ≡ npages → length (take k).1.owners ≡ npages
  take-pages k n = elim (Option-cases (take k).0) [
    | inl out ↦ ap length (take-owners k out) ∙ n
    | inr (p, given) ↦ (take-Given p k n given).pages ∙ n
  ]

  pub take-keeps :
      (p : ℕ) (k : Kernel)
      → length k.owners ≡ npages
      → is_held k p ≡ true
      → is_held (take k).1 p ≡ true
  take-keeps p k n held = elim (Option-cases (take k).0) [
    | inl out ↦
        ap (λ (s : List ℕ). not (get_or s (p / page_size) 0 == 0)) (take-owners k out) ∙ held
    | inr (q, given) ↦
        let g = take-Given q k n given in
        elim (Bool-cases (p / page_size == q / page_size)) [
          | inl same ↦
              let e = (==_iff (p / page_size) (q / page_size)).0 same in
              held_by_kernel (take k).1 p (ap (λ i. get_or (take k).1.owners i 0) e ∙ g.owned)
          | inr other ↦
              ap (λ o. not (o == 0)) (g.others p (λ e. cc ((==_iff _ _).1 e, other))) ∙ held
        ]
  ]

  pub FirstFree-aligned :
      (k : Kernel) (p : ℕ) → k.next_alloc_pa % page_size ≡ 0 → FirstFree ke k p → p % page_size ≡ 0
  FirstFree-aligned k p h (n, at, free, before) = omega (arith, at, h)

  pub free-small : (k : Kernel) (p : ℕ) → is_free ke k p ≡ true → p < 2 ^ 51
  free-small k p h = omega (arith, allocatable_bounds ke p (ground arith))

  -- The kernel's allocator, as `map` uses it.
  abbrev pub kernel_pages : PageSource
  kernel_pages = record {
    State = Usable;
    kalloc = λ (k, n, h). ((take k).0, ((take k).1, take-pages k n, take-aligned k h));
    holds = λ (k, n, h) p. is_held k p;
    kalloc_aligned = λ p (k, n, h) e. (
      FirstFree-aligned k p h
          (Allocates-of ke page_size p k (take k).1
            (take-kalloc k ∙ ap (λ o. some (o, (take k).1)) e)).0,
      free-small k p (take-Given p k n e).was_free,
    );
    kalloc_new = λ p (k, n, h) e. (
      held-free k _ p (take-Given p k n e).was_free,
      held_by_kernel (take k).1 p (take-Given p k n e).owned,
    );
    kalloc_keeps = λ p (k, n, h) held. take-keeps p k n held;
  }
