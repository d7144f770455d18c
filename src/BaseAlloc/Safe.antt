-- ===== src/BaseAlloc/Safe.antt =====
-- pset1/basealloc.cc hands out no block twice, and gives none back to the C library.
use mathlib.Core.Path.{subst}
use cs61_f18_psets.Base.{
  ℕ, ◌+◌, ◌≤◌, ◌≡◌, ◌≢◌, inl, inr, Bool, true, false, Option, none, some, List, [], ◌∷◌, ◌++◌,
  some-inj, if◌then◌else◌, refl, ap, sym, ◌∙◌, arith,
}
use cs61_f18_psets.BaseAlloc.{
  Heap, Allocator, Call, call_malloc, call_free, find, erase, fresh_allocator, base_malloc,
  base_free, free_found, run_calls,
}
use cs61_f18_psets.BaseAlloc.Blocks.{
  count, count-append, find-append_self, find-append_ne, count-erase,
}
use cs61_f18_psets.BaseAlloc.Entries.{All-append, All-erase, All-find}
use cs61_f18_psets.BaseAlloc.Given.{Separate, IsValid, base_malloc-Given}

module _ (heap : Heap) (laws : Separate heap) where
  open heap use {State, malloc}
  open laws use {holds, bytes, malloc_new, malloc_keeps}

  -- Of a valid allocator, a pointer that `base_malloc` returns was not active; its block has as many
  -- bytes in the C library's heap as were asked for at least, and the table gives it a size that lies
  -- between the two; no other active block changes.
  pub base_malloc_lem :
      (sz p : ℕ) (b : Allocator) (st : State)
      → IsValid heap laws b st
      → (base_malloc heap sz b st).0 ≡ some p
      → (find p b.allocs ≡ none)
        × ((n : ℕ) × (sz ≤ n)
            × (n ≤ bytes (base_malloc heap sz b st).1.1 p)
            × (find p (base_malloc heap sz b st).1.0.allocs ≡ some n))
        × ((q : ℕ) → q ≢ p → find q (base_malloc heap sz b st).1.0.allocs ≡ find q b.allocs)
  base_malloc_lem sz p b st v e =
      let g = base_malloc-Given heap laws sz b st v in
      elim g.result [
        | inl (failed, same) ↦ cc (failed, e)
        | inr ((q, n), fits, room, gives, none_yet, more) ↦
            subst
              (λ r.
                (find r b.allocs ≡ none)
                × ((n : ℕ) × (sz ≤ n)
                    × (n ≤ bytes (base_malloc heap sz b st).1.1 r)
                    × (find r (base_malloc heap sz b st).1.0.allocs ≡ some n))
                × ((q : ℕ)
                    → q ≢ r
                    → find q (base_malloc heap sz b st).1.0.allocs ≡ find q b.allocs))
              (some-inj (sym gives ∙ e))
              (
                none_yet,
                (n, fits, room, ap (find q) more ∙ find-append_self q n b.allocs none_yet),
                λ r ne. ap (find r) more ∙ find-append_ne q n r b.allocs ne,
              )
      ]

  -- How many entries the lists have for a block.
  abbrev entries : Allocator → ℕ → ℕ
  entries b a = count a b.allocs + count a b.frees

  -- A valid allocator that has every block of `b` in its lists.
  abbrev pub KeepsBlocks : Allocator → Allocator × State → Type 0
  KeepsBlocks b (b', st') = IsValid heap laws b' st' × ((a : ℕ) → entries b a ≤ entries b' a)

  free_found-KeepsBlocks :
      (p : ℕ) (o : Option ℕ) (b : Allocator) (st : State)
      → find p b.allocs ≡ o
      → IsValid heap laws b st
      → KeepsBlocks b (free_found heap p o b, st)
  free_found-KeepsBlocks p none b st e v = (v, λ a. omega arith)
  free_found-KeepsBlocks p (some n) b st e v =
      let total : (a : ℕ)
          → count a b.allocs + count a b.frees
            ≡ count a (erase p b.allocs) + count a (b.frees ++ ((p, n) ∷ [])) =
        λ a. omega (arith, count-erase p n a b.allocs e, count-append a b.frees ((p, n) ∷ [])) in
      (
        record {
          enabled = v.enabled;
          unique = λ a. omega (arith, total a, v.unique a);
          held = λ a some_entry. v.held a (omega (arith, total a));
          sized_allocs = All-erase _ p b.allocs v.sized_allocs;
          sized_frees =
              All-append _ b.frees _ v.sized_frees
                (All-find (λ (f : ℕ × ℕ). f.1 ≤ bytes st f.0) p n b.allocs e v.sized_allocs, tt);
        },
        λ a. omega (arith, total a),
      )

  enabled-KeepsBlocks :
      (d : Bool) (b : Allocator) (u w : Allocator × State)
      → d ≡ false
      → KeepsBlocks b w
      → KeepsBlocks b (if d then u else w)
  enabled-KeepsBlocks true b u w e v = cc e
  enabled-KeepsBlocks false b u w e v = v

  base_free-KeepsBlocks :
      (ptr : Option ℕ) (b : Allocator) (st : State)
      → IsValid heap laws b st
      → KeepsBlocks b (base_free heap ptr b st)
  unfolding base_free
  base_free-KeepsBlocks none b st v = (v, λ a. omega arith)
  base_free-KeepsBlocks (some ptr) b st v =
      enabled-KeepsBlocks b.disabled b _ _ v.enabled
        (free_found-KeepsBlocks ptr (find ptr b.allocs) b st refl v)

  more_calls :
      (b b' : Allocator) (last : Allocator × State)
      → ((a : ℕ) → entries b a ≤ entries b' a)
      → KeepsBlocks b' last
      → KeepsBlocks b last
  more_calls b b' last first (v, rest) = (v, λ a. omega (arith, first a, rest a))

  -- From a valid allocator on, every sequence of calls leaves one, and no block leaves the two lists:
  -- each block that was in one of them is in exactly one of them afterwards, and the C library still
  -- holds it.
  pub run_calls-IsValid :
      (calls : List Call) (b : Allocator) (st : State)
      → IsValid heap laws b st
      → KeepsBlocks b (run_calls heap calls b st)
  unfolding run_calls
  run_calls-IsValid [] b st v = (v, λ a. omega arith)
  run_calls-IsValid (call_malloc sz ∷ calls) b st v =
      let g = base_malloc-Given heap laws sz b st v in
      more_calls b (base_malloc heap sz b st).1.0 _ g.keeps (run_calls-IsValid calls _ _ g.valid)
  run_calls-IsValid (call_free ptr ∷ calls) b st v =
      let (v', kept) = base_free-KeepsBlocks ptr b st v in
      more_calls b (base_free heap ptr b st).0 _ kept (run_calls-IsValid calls _ _ v')

  pub fresh-IsValid : (st : State) → IsValid heap laws fresh_allocator st
  unfolding fresh_allocator
  fresh-IsValid st = record {
    enabled = refl;
    unique = λ a. omega arith;
    held = λ a h. absurd (omega arith);
    sized_allocs = tt;
    sized_frees = tt;
  }
