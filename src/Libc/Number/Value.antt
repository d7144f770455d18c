-- ===== src/Libc/Number/Value.antt =====
-- `strtoul` and `strtol` against numbers without a bound.
use native.Mathlib.Nat.{div-lt_iff_lt-mul, mod-eq_of_lt}
use cs61_f18_psets.Base.{
  Bool, true, false, ℕ, zero, suc, ◌+◌, ◌-◌, ◌*◌, ◌/◌, ◌%◌, ◌^◌, ◌≤◌, ◌<◌, ◌≡◌, ◌⊎◌, ◌↔◌, inl, inr,
  refl, ap, true, false, none, some, List, [], ◌∷◌, min, ltb, if◌then◌else◌, Bool-cases, ltb→lt,
  ltb→le, Option-cases, arith, some-inj,
}
use cs61_f18_psets.Base.Int.{pos, neg}
use cs61_f18_psets.Libc.Number.{
  digit_of, overflows, digits, saturated, signed, strtoul, strtol, minus_of, to_long, bound,
  sign_of, base_of, skip_spaces,
}

-- The number that the characters taken for digits give in front of a string, behind the digits of `x`.
unfoldable pub value : ℕ → ℕ → List ℕ → ℕ
value base x [] = x
value base x (c ∷ s) = elim (digit_of base c) [
  | none ↦ x
  | some digit ↦ value base (x * base + digit) s
]

-- A digit is below its base, which is not 0.
digit_bound : (base c d : ℕ) → base ≤ 36 → digit_of base c ≡ some d → d < base
unfolding digit_of
digit_bound base c d h e = ground (
  arith,
  some-inj {x = c - 48} {y = d},
  some-inj {x = c - 97 + 10} {y = d},
  some-inj {x = c - 65 + 10} {y = d},
)

mul_step : (x base d : ℕ) → 0 < base → x ≤ x * base + d
mul_step x zero d h = absurd (omega arith)
mul_step x (suc b) d h = omega arith

value_grows : (base x : ℕ) (s : List ℕ) → base ≤ 36 → x ≤ value base x s
unfolding value
value_grows base x [] h = omega arith
value_grows base x (c ∷ s) h = elim (Option-cases (digit_of base c)) [
  | inl e ↦ rw (e, value) (omega arith)
  | inr (d, e) ↦
      rw (e, value)
        (omega
          (arith, digit_bound base c d h e, mul_step x base d, value_grows base (x * base + d) s h))
]

overflows_lem :
    (base x d : ℕ)
    → d < base
    → base ≤ 36
    → ((overflows base x d ≡ true) × (2 ^ 64 ≤ x * base + d))
      ⊎ ((overflows base x d ≡ false) × (x * base + d < 2 ^ 64))
unfolding overflows
overflows_lem base x d lt h = elim (Bool-cases (ltb ((2 ^ 64 - 1 - d) / base) x)) [
  | inl e ↦ inl (e, omega (arith, divided.0 (ltb→lt _ _ e)))
  | inr e ↦ inr (e, not_less (ltb→le _ _ e))
]
  where
    divided : ((2 ^ 64 - 1 - d) / base < x) ↔ (2 ^ 64 - 1 - d < x * base)
    divided = div-lt_iff_lt-mul (omega arith)

    not_less : x ≤ (2 ^ 64 - 1 - d) / base → x * base + d < 2 ^ 64
    not_less le = elim (Bool-cases (ltb (2 ^ 64 - 1 - d) (x * base))) [
      | inl e ↦ absurd (omega (arith, divided.1 (ltb→lt _ _ e)))
      | inr e ↦ omega (arith, ltb→le _ _ e)
    ]

digits-over : (base x : ℕ) (s : List ℕ) → (digits base x true s).0.1 ≡ true
unfolding digits
digits-over base x [] = refl
digits-over base x (c ∷ s) = elim (Option-cases (digit_of base c)) [
  | inl e ↦ rw (e, digits) refl
  | inr (d, e) ↦
      rw (e, digits)
        (digits-over base (if overflows base x d then x else (x * base + d) % 2 ^ 64) s)
]

capped : (x : ℕ) → x < 2 ^ 64 → x ≡ min x (2 ^ 64 - 1)
capped x h = ground arith

cap : (v : ℕ) → 2 ^ 64 ≤ v → 2 ^ 64 - 1 ≡ min v (2 ^ 64 - 1)
cap v h = ground arith

pub digits-value :
    (base x : ℕ) (s : List ℕ)
    → base ≤ 36
    → x < 2 ^ 64
    → saturated (digits base x false s).0 ≡ min (value base x s) (2 ^ 64 - 1)
unfolding digits value
digits-value base x [] h lt = ground arith
digits-value base x (c ∷ s) h lt = elim (Option-cases (digit_of base c)) [
  | inl e ↦ rw (e, digits, value) (capped x lt)
  | inr (d, e) ↦
      rw (e, digits, value)
        (elim (overflows_lem base x d (digit_bound base c d h e) h) [
          | inl (over, big) ↦ rw over (
              rw (digits-over base x s)
                (cap _ (omega (arith, value_grows base (x * base + d) s h))))
          | inr (fits, small) ↦
              rw (fits, mod-eq_of_lt small) (digits-value base (x * base + d) s h small)
        ])
]

base_of_bound : (base : ℕ) (s : List ℕ) → base ≤ 36 → (base_of base s).0 ≤ 36
unfolding base_of
base_of_bound base s h = ground arith

-- For a base up to 36, `strtoul` returns the number without a bound that the characters taken for
-- digits give, or the largest `unsigned long` where that is larger, negated modulo 2 ^ 64 behind a
-- minus sign.
pub strtoul-value :
    (s : List ℕ) (base : ℕ)
    → base ≤ 36
    → (strtoul s base).0 ≡ (
        let (negative, t) = sign_of (skip_spaces s) in
        let (b, u) = base_of base t in signed negative (min (value b 0 u) (2 ^ 64 - 1)))
unfolding strtoul
strtoul-value s base h = ap (signed (sign_of (skip_spaces s)).0) (
    digits-value _ 0 (base_of base (sign_of (skip_spaces s)).1).1 (base_of_bound base _ h)
      (omega arith))

long_value :
    (negative : Bool) (u : ℕ)
    → to_long (signed negative (if ltb (bound negative) u then bound negative else u))
      ≡ (if negative then neg (pos (min u (2 ^ 63))) else pos (min u (2 ^ 63 - 1)))
unfolding to_long neg
long_value true u = ground arith
long_value false u = ground arith

-- `strtol` returns the number that `strtoul` reads behind the spaces and a minus sign, with that sign,
-- or the nearest `long`.
pub strtol_lem :
    (s : List ℕ) (base : ℕ)
    → (strtol s base).0 ≡ (
        let (negative, t) = minus_of (skip_spaces s) in
        let u = (strtoul t base).0 in
        if negative then neg (pos (min u (2 ^ 63))) else pos (min u (2 ^ 63 - 1)))
unfolding strtol
strtol_lem s base =
    long_value (minus_of (skip_spaces s)).0 (strtoul (minus_of (skip_spaces s)).1 base).0
