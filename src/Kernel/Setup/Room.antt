-- ===== src/Kernel/Setup/Room.antt =====
-- `process_setup` of pset4/kernel.cc returns when there is room for its program.
use cs61_f18_psets.Base.{
  some, ℕ, zero, suc, ◌+◌, ◌/◌, ◌%◌, ◌≡◌, ◌≢◌, ◌⊎◌, inl, inr, refl, ◌∙◌, true, ◌==◌, List, [], ◌∷◌,
  arith, get_or-set_ne,
}
use cs61_f18_psets.Kernel.Machine.{Kernel, K, Outcome, done, panicked, page_size}
use cs61_f18_psets.Kernel.Memory.{owner_of, claim, round_down, kalloc_physical_page}
use cs61_f18_psets.Kernel.Memory.Alloc.{is_free}
use cs61_f18_psets.Kernel.Loader.{ProgramLoader, loader_va, loader_size}
use cs61_f18_psets.Kernel.Setup.{take_page, take_pages, take_segments, page_rounds}
use cs61_f18_psets.Kernel.Setup.Pages.{InPage, InPages}

-- The addresses of the pages of a segment.
abbrev pub first_page : ProgramLoader → ℕ
first_page l = round_down (loader_va l) page_size

abbrev pub pages_of : ProgramLoader → ℕ
pages_of l = page_rounds (first_page l) (loader_va l + loader_size l)

abbrev pub OnPages : ProgramLoader → ℕ → Type 0
OnPages l = InPages (first_page l) (pages_of l)

abbrev pub OnAnyPage : List ProgramLoader → ℕ → Type 0
OnAnyPage [] a = ⊥
OnAnyPage (l ∷ ls) a = OnPages l a ⊎ OnAnyPage ls a

-- No two segments share a page.
abbrev pub PagesApart : List ProgramLoader → Type 0
PagesApart [] = Unit
PagesApart (l ∷ ls) = ((a : ℕ) → OnPages l a → ¬ OnAnyPage ls a) × PagesApart ls

-- No page outside of `In` has another owner.
abbrev pub Only : (ℕ → Type 0) → Kernel → Kernel → Type 0
Only In k l = (q : ℕ) → q % page_size ≡ 0 → ¬ In q → owner_of l q ≡ owner_of k q

-- The routine returns, with such a kernel.
abbrev pub TakesOnly : (ℕ → Type 0) → Kernel → Outcome (Unit {0} × Kernel) → Type 0
TakesOnly In k panicked = ⊥
TakesOnly In k (done (t, l)) = Only In k l

both_TakesOnly :
    (First Second Both : ℕ → Type 0) (k l : Kernel) (o : Outcome (Unit {0} × Kernel))
    → ((q : ℕ) → First q → Both q)
    → ((q : ℕ) → Second q → Both q)
    → Only First k l
    → TakesOnly Second l o
    → TakesOnly Both k o
both_TakesOnly First Second Both k l panicked p q first second = second
both_TakesOnly First Second Both k l (done (t, m)) p q first second =
    λ a h out. second a h (λ i. out (q a i)) ∙ first a h (λ i. out (p a i))

first_page_even : (l : ProgramLoader) → first_page l % page_size ≡ 0
unfolding round_down
first_page_even l = omega arith

then_TakesOnly :
    (First Second Both : ℕ → Type 0) (f : K (Unit {0})) (k : Kernel)
    (o : Outcome (Unit {0} × Kernel))
    → ((q : ℕ) → First q → Both q)
    → ((q : ℕ) → Second q → Both q)
    → TakesOnly First k o
    → ((l : Kernel) → Only First k l → TakesOnly Second l (f l))
    → TakesOnly Both k (elim o [ panicked ↦ panicked | done (t, l) ↦ f l ])
then_TakesOnly First Second Both f k panicked p q first second = first
then_TakesOnly First Second Both f k (done (t, l)) p q first second =
    both_TakesOnly First Second Both k l (f l) p q first (second l first)

module _ (ke : ℕ) where
  abbrev pub AllFree : Kernel → (ℕ → Type 0) → Type 0
  AllFree k In = (q : ℕ) → q % page_size ≡ 0 → In q → is_free ke k q ≡ true

  still_free :
      (First Second : ℕ → Type 0) (k l : Kernel)
      → ((q : ℕ) → Second q → ¬ First q)
      → Only First k l
      → AllFree k Second
      → AllFree l Second
  still_free First Second k l apart only free q even i =
      rw (only q even (apart q i)) (free q even i)

  given_page :
      (k : Kernel) (pa pid : ℕ)
      → (pa % page_size == 0) ≡ true
      → is_free ke k pa ≡ true
      → kalloc_physical_page ke pa pid k ≡ done (some pa, claim pa pid k)
  unfolding kalloc_physical_page
  given_page k pa pid aligned free = rw (aligned, free)

  pub take_page_returns :
      (k : Kernel) (pa pid : ℕ)
      → pa % page_size ≡ 0
      → is_free ke k pa ≡ true
      → TakesOnly (InPage pa) k (take_page ke pa pid k)
  unfolding take_page claim
  take_page_returns k pa pid even free =
      let apart : (q : ℕ) → q % page_size ≡ 0 → ¬ InPage pa q → pa / page_size ≢ q / page_size =
        λ q h out e. absurd (out (omega arith)) in
      rw (given_page k pa pid (ground arith) free)
        (λ q h out. get_or-set_ne k.owners (pa / page_size) (q / page_size) _ 0 (apart q h out))

  pub take_pages_returns :
      (n : ℕ) (k : Kernel) (pa pid : ℕ)
      → pa % page_size ≡ 0
      → AllFree k (InPages pa n)
      → TakesOnly (InPages pa n) k (take_pages ke n pa pid k)
  unfolding take_pages
  take_pages_returns zero k pa pid even free = λ q h out. refl
  take_pages_returns (suc n) k pa pid even free =
      then_TakesOnly (InPage pa) (InPages (pa + page_size) n) (InPages pa (suc n))
        (take_pages ke n (pa + page_size) pid) k _ (λ q h. omega arith) (λ q h. omega arith)
        (take_page_returns k pa pid even (free pa even (omega arith)))
        (λ l only. take_pages_returns n l (pa + page_size) pid (omega arith) (
          still_free (InPage pa) (InPages (pa + page_size) n) k l (λ q h g. absurd (omega arith))
            only (λ q h i. free q h (omega arith))))

  pub take_segments_returns :
      (ls : List ProgramLoader) (k : Kernel) (pid : ℕ)
      → PagesApart ls
      → AllFree k (OnAnyPage ls)
      → TakesOnly (OnAnyPage ls) k (take_segments ke ls pid k)
  unfolding take_segments
  take_segments_returns [] k pid apart free = λ q h out. refl
  take_segments_returns (l ∷ ls) k pid (here, apart) free =
      then_TakesOnly (OnPages l) (OnAnyPage ls) (OnAnyPage (l ∷ ls)) (take_segments ke ls pid) k _
        (λ q h. inl h) (λ q h. inr h)
        (take_pages_returns (pages_of l) k (first_page l) pid (first_page_even l)
          (λ q h i. free q h (inl i)))
        (λ m only. take_segments_returns ls m pid apart (
          still_free (OnPages l) (OnAnyPage ls) k m (λ q h g. here q g h) only
            (λ q h i. free q h (inr i))))
