-- ===== src/Libc/Random.antt =====
-- `rand` and `srand` of pset4/lib.cc. `int` has 32 bits, and its arithmetic must not overflow.
use native.Mathlib.Nat.{div-lt_iff_lt-mul, mod-lt, mul-le-mul_right}
use cs61_f18_psets.Base.{
  ℕ, ◌+◌, ◌-◌, ◌*◌, ◌/◌, ◌%◌, ◌^◌, ◌<◌, ◌≡◌, ◌↔◌, refl, Bool, true, false, leb, if◌then◌else◌,
  arith, Bool-cases, inl, inr,
}
use cs61_f18_psets.Base.Int.{ℤ, pos, ◌+ℤ◌, ◌≤ℤ◌, ltb_ℤ, pos_part, neg_part, +ℤ_parts}

-- `rand_seed_set` and `rand_seed`.
pub record Seed : Type 0 where
  pub is_set : Bool
  pub seed : ℕ

abbrev pub rand_max : ℕ
rand_max = 2 ^ 31 - 1

-- The argument is an `unsigned`.
unfoldable pub srand : ℕ → Seed
srand seed = record { is_set = true; seed = seed % 2 ^ 32 }

unfoldable pub rand : Seed → ℕ × Seed
unfolding srand
rand st =
    let start = if st.is_set then st else srand 819234718 in
    let next = (start.seed * 6364136223846793005 + 1) % 2 ^ 64 in
    ((next / 2 ^ 32) % 2 ^ 31, record start { seed = next })

-- A call fails its first assertion, overflows an `int`, or draws a number. The second assertion
-- cannot fail: a difference above `RAND_MAX` has overflowed already.
pub data Draw : Type 0 where
  failed overflowed : Draw
  drawn : ℤ → Seed → Draw

-- `max - min`, where `min <= max`.
abbrev pub difference : ℤ → ℤ → ℕ
difference min max = pos_part max + neg_part min - (pos_part min + neg_part max)

unfoldable pub rand_between : ℤ → ℤ → Seed → Draw
rand_between min max st =
    let (r, next) = rand st in
    let d = difference min max in
    if ltb_ℤ max min
    then failed
    else if leb rand_max d
    then overflowed
    else drawn (min +ℤ pos (r * (d + 1) / 2 ^ 31)) next

-- What a call promises.
abbrev pub Between : ℤ → ℤ → Draw → Type 0
Between min max (drawn x st) = (min ≤ℤ x) × (x ≤ℤ max) × (st.is_set ≡ true)
Between min max failed = ⊥
Between min max overflowed = ⊥

scaled : (r d : ℕ) → r < 2 ^ 31 → r * (d + 1) / 2 ^ 31 < d + 1
scaled r d lt = smaller.1 (omega (arith, mul-le-mul_right (d + 1) lt))
  where
    smaller : (r * (d + 1) / 2 ^ 31 < d + 1) ↔ (r * (d + 1) < (d + 1) * 2 ^ 31)
    smaller = div-lt_iff_lt-mul (omega arith)

in_range :
    (min max : ℤ) (k : ℕ)
    → min ≤ℤ max
    → k < difference min max + 1
    → (min ≤ℤ (min +ℤ pos k)) × ((min +ℤ pos k) ≤ℤ max)
in_range min max k le lt =
    (omega (arith, +ℤ_parts min (pos k)), omega (arith, +ℤ_parts min (pos k)))

-- `rand` stays within `RAND_MAX`, and leaves a generator that has been seeded.
rand_bound : (st : Seed) → ((rand st).0 < 2 ^ 31) × ((rand st).1.is_set ≡ true)
unfolding rand srand
rand_bound st = elim (Bool-cases st.is_set) [
  | inl e ↦ rw e (mod-lt _ (omega arith), refl)
  | inr e ↦ rw e (omega arith, refl)
]

-- For `min <= max` whose distance is below `RAND_MAX`, `rand(min, max)` draws a number from `min` to
-- `max`, and leaves a generator that has been seeded.
pub rand_between-Between :
    (min max : ℤ) (st : Seed)
    → min ≤ℤ max
    → difference min max < rand_max
    → Between min max (rand_between min max st)
unfolding rand_between
rand_between-Between min max st le lt =
    let ordered : ltb_ℤ max min ≡ false = ground arith in
    let narrow : leb rand_max (difference min max) ≡ false = ground arith in
    let (below, set_up) = rand_bound st in
    let (low, high) = in_range min max _ le (scaled (rand st).0 (difference min max) below) in
    rw (ordered, narrow) (low, high, set_up)
