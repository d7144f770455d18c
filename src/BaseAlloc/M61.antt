-- ===== src/BaseAlloc/M61.antt =====
-- pset1/m61.cc: `m61_malloc`, `m61_free` and `m61_calloc` over the base allocator. The file and the
-- line of a call are not used there. Memory is a function from addresses to bytes.
use cs61_f18_psets.Base.{
  ℕ, ◌+◌, ◌*◌, ◌^◌, ◌-◌, ◌%◌, ◌≤◌, ◌<◌, ◌≡◌, ◌⊎◌, inl, inr, true, false, ◌&&◌, Option, none, some,
  ltb, leb, if◌then◌else◌, Bool-cases, refl, arith,
}
use cs61_f18_psets.BaseAlloc.{Heap, Allocator, find, base_malloc, base_free}
use cs61_f18_psets.BaseAlloc.Given.{Separate, IsValid}
use cs61_f18_psets.BaseAlloc.Safe.{base_malloc_lem}

-- `memset(ptr, 0, n)`.
abbrev pub zeroed : (ℕ → ℕ) → ℕ → ℕ → ℕ → ℕ
zeroed memory ptr n a = if leb ptr a && ltb a (ptr + n) then 0 else memory a

zeroed_in : (memory : ℕ → ℕ) (p n a : ℕ) → p ≤ a → a < p + n → zeroed memory p n a ≡ 0
zeroed_in memory p n a le lt =
    let from : leb p a ≡ true = ground arith in
    let to : ltb a (p + n) ≡ true = ground arith in rw (from, to) refl

zeroed_out : (memory : ℕ → ℕ) (p n a : ℕ) → (a < p) ⊎ (p + n ≤ a) → zeroed memory p n a ≡ memory a
zeroed_out memory p n a (inl lt) = let from : leb p a ≡ false = ground arith in rw from refl
zeroed_out memory p n a (inr le) =
    let to : ltb a (p + n) ≡ false = ground arith in
    elim (Bool-cases (leb p a)) [ inl z ↦ rw (z, to) refl | inr z ↦ rw z refl ]

-- Every number is 255 in each of its bytes, also the two addresses.
pub record M61Statistics : Type 0 where
  pub nactive : ℕ
  pub active_size : ℕ
  pub ntotal : ℕ
  pub total_size : ℕ
  pub nfail : ℕ
  pub fail_size : ℕ
  pub heap_min : ℕ
  pub heap_max : ℕ

unfoldable pub m61_getstatistics : M61Statistics
m61_getstatistics = record {
  nactive = 2 ^ 64 - 1;
  active_size = 2 ^ 64 - 1;
  ntotal = 2 ^ 64 - 1;
  total_size = 2 ^ 64 - 1;
  nfail = 2 ^ 64 - 1;
  fail_size = 2 ^ 64 - 1;
  heap_min = 2 ^ 64 - 1;
  heap_max = 2 ^ 64 - 1;
}

module _ (heap : Heap) where
  open heap use {State}

  unfoldable pub m61_malloc : ℕ → Allocator → State → Option ℕ × (Allocator × State)
  m61_malloc sz b st = base_malloc heap sz b st

  unfoldable pub m61_free : Option ℕ → Allocator → State → Allocator × State
  m61_free ptr b st = base_free heap ptr b st

  abbrev pub clear : Option ℕ → ℕ → (ℕ → ℕ) → ℕ → ℕ
  clear none n memory = memory
  clear (some ptr) n memory = zeroed memory ptr n

  -- `nmemb * sz` is a `size_t`.
  unfoldable pub m61_calloc :
      ℕ → ℕ → Allocator → State → (ℕ → ℕ) → (Option ℕ × (Allocator × State)) × (ℕ → ℕ)
  unfolding m61_malloc
  m61_calloc nmemb sz b st memory =
      let n = nmemb * sz % 2 ^ 64 in let res = m61_malloc n b st in (res, clear res.0 n memory)

  module _ (laws : Separate heap) where
    -- Of a valid allocator, a block that `m61_calloc(nmemb, sz)` returns was not active and has in the C
    -- library's heap as many bytes as the product modulo 2^64 at least. These bytes are zero, and no
    -- other byte changes: nothing outside the block is written.
    pub m61_calloc_lem :
        (nmemb sz p : ℕ) (b : Allocator) (st : State) (memory : ℕ → ℕ)
        → IsValid heap laws b st
        → (m61_calloc nmemb sz b st memory).0.0 ≡ some p
        → (find p b.allocs ≡ none)
          × ((n : ℕ) × (nmemb * sz % 2 ^ 64 ≤ n)
              × (n ≤ laws.bytes (m61_calloc nmemb sz b st memory).0.1.1 p)
              × (find p (m61_calloc nmemb sz b st memory).0.1.0.allocs ≡ some n))
          × ((a : ℕ)
              → p ≤ a
              → a < p + nmemb * sz % 2 ^ 64
              → (m61_calloc nmemb sz b st memory).1 a ≡ 0)
          × ((a : ℕ)
              → (a < p) ⊎ (p + nmemb * sz % 2 ^ 64 ≤ a)
              → (m61_calloc nmemb sz b st memory).1 a ≡ memory a)
    unfolding m61_calloc m61_malloc
    m61_calloc_lem nmemb sz p b st memory v e =
        let (before, given, kept) = base_malloc_lem heap laws (nmemb * sz % 2 ^ 64) p b st v e in
        (
          before,
          given,
          rw e (λ a le lt. zeroed_in memory p _ a le lt),
          rw e (λ a out. zeroed_out memory p _ a out),
        )
