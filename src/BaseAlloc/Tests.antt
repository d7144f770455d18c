-- ===== src/BaseAlloc/Tests.antt =====
-- A heap that hands out one block behind the other, on which the assumptions on the C library hold.
use cs61_f18_psets.Base.{
  ℕ, ◌+◌, ◌≤◌, ◌≡◌, ◌≢◌, ◌<◌, ◌⊎◌, true, false, none, some-inj, Option, some, ◌==◌, if◌then◌else◌,
  List, [], ◌∷◌, ltb, refl, arith,
}
use cs61_f18_psets.BaseAlloc.{
  Heap, Call, call_malloc, call_free, find, fresh_allocator, alloc_random, reuse, try_frees,
  reuse_or_new, base_malloc, base_free, run_calls,
}
use cs61_f18_psets.BaseAlloc.M61.{m61_malloc, m61_calloc, m61_calloc_lem}
use cs61_f18_psets.BaseAlloc.Given.{Separate}
use cs61_f18_psets.BaseAlloc.Safe.{KeepsBlocks, base_malloc_lem, run_calls-IsValid, fresh-IsValid}

-- The next address, and the size of each block.
abbrev bump : ℕ → ℕ × (ℕ → ℕ) → Option ℕ × (ℕ × (ℕ → ℕ))
bump sz (next, sizes) = (some next, (next + sz + 1, λ p. if p == next then sz else sizes p))

abbrev counting : Heap
counting = record { State = ℕ × (ℕ → ℕ); malloc = bump; free = λ p st. st }

bump_new :
    (sz p next : ℕ) (sizes : ℕ → ℕ)
    → next ≡ p
    → (ltb p next ≡ false) × (ltb p (next + sz + 1) ≡ true) × (sz ≤ (bump sz (next, sizes)).1.1 p)
bump_new sz p next sizes e = (ground arith, ground arith, ground arith)

bump_keeps :
    (sz p next : ℕ) (sizes : ℕ → ℕ)
    → ltb p next ≡ true
    → (ltb p (next + sz + 1) ≡ true) × ((bump sz (next, sizes)).1.1 p ≡ sizes p)
bump_keeps sz p next sizes h = (ground arith, ground arith)

abbrev counting_laws : Separate counting
counting_laws = record {
  holds = λ st p. ltb p st.0;
  bytes = λ st p. st.1 p;
  malloc_new = λ sz p st e. bump_new sz p st.0 st.1 (some-inj e);
  malloc_keeps = λ sz p st h. bump_keeps sz p st.0 st.1 h;
}

abbrev start : ℕ × (ℕ → ℕ)
start = (100, λ p. 0)

-- Two blocks are freed, and smaller ones are asked for.
abbrev calls : List Call
calls =
    call_malloc 64
    ∷ call_malloc 32
    ∷ call_free (some 100)
    ∷ call_free (some 165)
    ∷ call_malloc 8
    ∷ call_malloc 8
    ∷ call_malloc 8
    ∷ []

calls_run :
    (run_calls counting calls fresh_allocator start).0.allocs
    ≡ (165, 32) ∷ (100, 64) ∷ (198, 8) ∷ []
unfolding run_calls base_malloc base_free reuse_or_new try_frees reuse alloc_random fresh_allocator
calls_run = refl

gives_100 : (base_malloc counting 64 fresh_allocator start).0 ≡ some 100
unfolding base_malloc reuse_or_new try_frees alloc_random fresh_allocator
gives_100 = refl

base_malloc_example :
    (find 100 fresh_allocator.allocs ≡ none)
    × ((n : ℕ) × (64 ≤ n)
        × (n ≤ counting_laws.bytes (base_malloc counting 64 fresh_allocator start).1.1 100)
        × (find 100 (base_malloc counting 64 fresh_allocator start).1.0.allocs ≡ some n))
    × ((q : ℕ)
        → q ≢ 100
        → find q (base_malloc counting 64 fresh_allocator start).1.0.allocs
          ≡ find q fresh_allocator.allocs)
base_malloc_example =
    base_malloc_lem counting counting_laws 64 100 fresh_allocator start
      (fresh-IsValid counting counting_laws start) gives_100

run_calls_example :
    KeepsBlocks counting counting_laws fresh_allocator
      (run_calls counting calls fresh_allocator start)
run_calls_example =
    run_calls-IsValid counting counting_laws calls fresh_allocator start
      (fresh-IsValid counting counting_laws start)

calloc_gives_100 : (m61_calloc counting 4 8 fresh_allocator start (λ a. 170)).0.0 ≡ some 100
unfolding m61_calloc m61_malloc base_malloc reuse_or_new try_frees alloc_random fresh_allocator
calloc_gives_100 = refl

m61_calloc_example :
    (find 100 fresh_allocator.allocs ≡ none)
    × ((n : ℕ) × (32 ≤ n)
        × (n
            ≤ counting_laws.bytes
                (m61_calloc counting 4 8 fresh_allocator start (λ a. 170)).0.1.1
                100)
        × (find 100 (m61_calloc counting 4 8 fresh_allocator start (λ a. 170)).0.1.0.allocs
            ≡ some n))
    × ((a : ℕ)
        → 100 ≤ a
        → a < 132
        → (m61_calloc counting 4 8 fresh_allocator start (λ a. 170)).1 a ≡ 0)
    × ((a : ℕ)
        → (a < 100) ⊎ (132 ≤ a)
        → (m61_calloc counting 4 8 fresh_allocator start (λ a. 170)).1 a ≡ 170)
m61_calloc_example =
    m61_calloc_lem counting counting_laws 4 8 100 fresh_allocator start (λ a. 170)
      (fresh-IsValid counting counting_laws start) calloc_gives_100

-- 2^32 members of 2^32 bytes: the product is 0 modulo 2^64, and a block of no byte is returned.
calloc_wraps :
    find 100
      (m61_calloc counting 4294967296 4294967296 fresh_allocator start (λ a. 170)).0.1.0.allocs
    ≡ some 0
unfolding m61_calloc m61_malloc base_malloc reuse_or_new try_frees alloc_random fresh_allocator
calloc_wraps = refl
