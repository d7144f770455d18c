-- ===== src/BaseAlloc.antt =====
-- The base allocator of pset1/basealloc.cc, which pset1/m61.cc allocates from. It hands freed blocks
-- out again at random, and never gives them back to the C library.
pub mod Blocks
pub mod Entries
pub mod Given
pub mod Safe
pub mod M61
mod Tests
use cs61_f18_psets.Base.{
  ℕ, zero, suc, ◌+◌, ◌-◌, ◌*◌, ◌/◌, ◌%◌, ◌^◌, Bool, true, false, not, Option, none, some, List, [],
  ◌∷◌, get_or, set, length, ◌++◌, ltb, leb, ◌==◌, if◌then◌else◌,
}

-- The C library's `malloc` and `free`, as parameters. A null pointer is `none`.
pub record Heap : Type 1 where
  pub State : Type 0
  pub malloc : ℕ → State → Option ℕ × State
  pub free : ℕ → State → State

-- The static variables: `allocs` maps an active pointer to its size, `frees` has the freed blocks,
-- `x` is the random state.
pub record Allocator : Type 0 where
  pub allocs : List (ℕ × ℕ)
  pub frees : List (ℕ × ℕ)
  pub disabled : Bool
  pub x : ℕ
  pub atexit_installed : Bool

pub data Call : Type 0 where
  call_malloc : (sz : ℕ) → Call
  call_free : (ptr : Option ℕ) → Call

-- `allocs.find(ptr)`.
abbrev pub find : ℕ → List (ℕ × ℕ) → Option ℕ
find ptr [] = none
find ptr ((p, n) ∷ s) = if p == ptr then some n else find ptr s

-- `allocs[ptr] = sz`.
abbrev pub assign : ℕ → ℕ → List (ℕ × ℕ) → List (ℕ × ℕ)
assign ptr sz [] = (ptr, sz) ∷ []
assign ptr sz ((p, n) ∷ s) = if p == ptr then (p, sz) ∷ s else (p, n) ∷ assign ptr sz s

-- `allocs.insert(f)`, which leaves an entry for the pointer as it is.
abbrev pub insert : ℕ × ℕ → List (ℕ × ℕ) → List (ℕ × ℕ)
insert (ptr, sz) [] = (ptr, sz) ∷ []
insert (ptr, sz) ((p, n) ∷ s) = (p, n) ∷ (if p == ptr then s else insert (ptr, sz) s)

-- `allocs.erase(it)`.
abbrev pub erase : ℕ → List (ℕ × ℕ) → List (ℕ × ℕ)
erase ptr [] = []
erase ptr ((p, n) ∷ s) = if p == ptr then s else (p, n) ∷ erase ptr s

abbrev pub back : List (ℕ × ℕ) → ℕ × ℕ
back [] = (0, 0)
back (f ∷ []) = f
back (f ∷ g ∷ s) = back (g ∷ s)

abbrev pub pop_back : List (ℕ × ℕ) → List (ℕ × ℕ)
pop_back [] = []
pop_back (f ∷ []) = []
pop_back (f ∷ g ∷ s) = f ∷ pop_back (g ∷ s)

unfoldable pub fresh_allocator : Allocator
fresh_allocator = record {
  allocs = [];
  frees = [];
  disabled = false;
  x = 8973443640547502487;
  atexit_installed = false;
}

unfoldable pub alloc_random : Allocator → ℕ × Allocator
alloc_random b =
    let x = (b.x * 6364136223846793005 + 1) % 2 ^ 64 in (x / 2 ^ 32 % 2 ^ 32, record b { x = x })

-- The block `frees[i]` is active again.
unfoldable pub reuse : ℕ → Allocator → Allocator
reuse i b = record b {
  allocs = insert (get_or b.frees i (0, 0)) b.allocs;
  frees = pop_back (set b.frees i (back b.frees));
}

-- The loop of `base_malloc`, for a number of rounds that are left before `ntries` is 10.
unfoldable pub try_frees : ℕ → ℕ → ℕ → Allocator → Option ℕ × Allocator
try_frees zero ntries sz b = (none, b)
try_frees (suc rounds) ntries sz b =
    let size = length b.frees in
    let b1 = (alloc_random b).1 in
    let i = (alloc_random b).0 % size in
    let f = get_or b.frees i (0, 0) in
    let rest = try_frees rounds (ntries + 1) sz b1 in
    if ltb ntries size then if leb sz f.1 then (some f.0, reuse i b1) else rest else (none, b)

unfoldable pub base_allocate_disable : Bool → Allocator → Allocator
base_allocate_disable d b = record b { disabled = d }

module _ (heap : Heap) where
  open heap use {State, malloc, free}

  abbrev pub record_allocation : ℕ → Allocator → Option ℕ × State → Option ℕ × (Allocator × State)
  record_allocation sz b (none, st) = (none, (b, st))
  record_allocation sz b (some ptr, st) =
      (some ptr, (record b { allocs = assign ptr sz b.allocs }, st))

  -- "need a new allocation"
  unfoldable pub reuse_or_new : ℕ → Option ℕ × Allocator → State → Option ℕ × (Allocator × State)
  reuse_or_new sz (some ptr, b) st = (some ptr, (b, st))
  reuse_or_new sz (none, b) st = record_allocation sz b (malloc (if sz == 0 then 1 else sz) st)

  unfoldable pub base_malloc : ℕ → Allocator → State → Option ℕ × (Allocator × State)
  base_malloc sz b st =
      let b1 = record b { atexit_installed = true } in
      let (r, b2) = alloc_random b1 in
      if b.disabled
      then ((malloc sz st).0, (b, (malloc sz st).1))
      else reuse_or_new sz (if r % 4 == 0 then (none, b2) else try_frees 10 0 sz b2) st

  abbrev pub free_found : ℕ → Option ℕ → Allocator → Allocator
  free_found ptr none b = b
  free_found ptr (some n) b = record b {
    frees = b.frees ++ ((ptr, n) ∷ []);
    allocs = erase ptr b.allocs;
  }

  -- An invalid free is ignored; `free` of a null pointer does nothing.
  unfoldable pub base_free : Option ℕ → Allocator → State → Allocator × State
  base_free none b st = (b, st)
  base_free (some ptr) b st =
      if b.disabled then (b, free ptr st) else (free_found ptr (find ptr b.allocs) b, st)

  unfoldable pub free_all : List (ℕ × ℕ) → State → State
  free_all [] st = st
  free_all ((ptr, n) ∷ frees) st = free_all frees (free ptr st)

  unfoldable pub base_allocate_atexit : Allocator → State → State
  base_allocate_atexit b st = free_all b.frees st

  -- A program's calls, in their order.
  unfoldable pub run_calls : List Call → Allocator → State → Allocator × State
  run_calls [] b st = (b, st)
  run_calls (call_malloc sz ∷ calls) b st =
      let (_, (b', st')) = base_malloc sz b st in run_calls calls b' st'
  run_calls (call_free ptr ∷ calls) b st =
      let (b', st') = base_free ptr b st in run_calls calls b' st'
