-- ===== src/Libc/Number/Numeral.antt =====
-- Numerals as C writes them, for `strtoul` of pset4/lib.cc: spaces, a sign, the prefix of a base and
-- digits; what the loop over the digits makes of them.
use cs61_f18_psets.Base.{
  ℕ, ◌+◌, ◌-◌, ◌*◌, ◌≤◌, ◌<◌, ◌≡◌, ◌≢◌, ◌⊎◌, inl, inr, refl, ap, ◌∙◌, Bool, true, false, none, some,
  some-inj, List, [], ◌∷◌, ◌++◌, map, All, Bool-cases, leb, Option-cases, arith,
}
use cs61_f18_psets.Libc.Number.{digit_of, digits}
use cs61_f18_psets.Libc.Number.Value.{value}

-- The character `c` stands for the digit `d`: `0` to `9`, then `a` to `z` or `A` to `Z`.
abbrev pub Digit : ℕ → ℕ → Type 0
Digit c d =
    ((d < 10) × (c ≡ b'0' + d))
    ⊎ ((10 ≤ d) × (d < 36) × ((c + 10 ≡ b'a' + d) ⊎ (c + 10 ≡ b'A' + d)))

-- Characters with the digits that they stand for, each below the base.
abbrev pub Digits : ℕ → List (ℕ × ℕ) → Type 0
Digits b ds = All (λ (p : ℕ × ℕ). (p.1 < b) × Digit p.0 p.1) ds

abbrev pub text : List (ℕ × ℕ) → List ℕ
text ds = map (λ (p : ℕ × ℕ). p.0) ds

-- The number that digits stand for, behind those of `x`.
abbrev pub number : ℕ → ℕ → List (ℕ × ℕ) → ℕ
number b x [] = x
number b x ((c, d) ∷ ds) = number b (x * b + d) ds

-- No digit comes first, and none of the characters from `:` to `?`, which `strtoul` can take for one.
abbrev pub Stops : ℕ → List ℕ → Type 0
Stops b [] = Unit
Stops b (c ∷ s) = ((d : ℕ) → d < b → Digit c d → ⊥) × ((c < 58) ⊎ (64 ≤ c))

abbrev pub Blank : ℕ → Type 0
Blank c = ((9 ≤ c) × (c ≤ 13)) ⊎ (c ≡ b' ')

-- Whether a sign negates.
pub data Sign : Bool → List ℕ → Type 0 where
  no_sign : Sign false []
  plus : Sign false (b'+' ∷ [])
  minus : Sign true (b'-' ∷ [])

abbrev pub NoHex : List ℕ → Type 0
NoHex (c ∷ d ∷ s) = (c ≢ b'0') ⊎ ((d ≢ b'x') × (d ≢ b'X'))
NoHex _ = Unit

-- For a base that is asked for: the base of the digits, the prefix, and what comes behind it.
pub data Prefix : ℕ → ℕ → List ℕ → List ℕ → Type 0 where
  as_given : (b : ℕ) (s : List ℕ) → b ≢ 0 → b ≢ 16 → Prefix b b [] s
  hex :
      (base x : ℕ) (s : List ℕ)
      → (base ≡ 0) ⊎ (base ≡ 16)
      → (x ≡ b'x') ⊎ (x ≡ b'X')
      → Prefix base 16 (b'0' ∷ x ∷ []) s
  bare_hex : (s : List ℕ) → NoHex s → Prefix 16 16 [] s
  octal : (s : List ℕ) → NoHex (b'0' ∷ s) → Prefix 0 8 [] (b'0' ∷ s)
  decimal : (c : ℕ) (s : List ℕ) → c ≢ b'0' → Prefix 0 10 [] (c ∷ s)

low_digit : (b c : ℕ) → b'0' ≤ c → c < b'0' + b → digit_of b c ≡ some (c - b'0')
unfolding digit_of
low_digit b c lo hi = ground arith

lower_digit :
    (b c : ℕ) → b ≤ 16 → b'a' ≤ c → c + 10 < b'a' + b → digit_of b c ≡ some (c - b'a' + 10)
unfolding digit_of
lower_digit b c le lo hi = ground arith

upper_digit :
    (b c : ℕ) → b ≤ 16 → b'A' ≤ c → c + 10 < b'A' + b → digit_of b c ≡ some (c - b'A' + 10)
unfolding digit_of
upper_digit b c le lo hi = ground arith

digit_of-Digit : (b c d : ℕ) → b ≤ 16 → d < b → Digit c d → digit_of b c ≡ some d
digit_of-Digit b c d le lt (inl (small, e)) =
    low_digit b c (omega (arith, e)) (omega (arith, e)) ∙ ap some (omega (arith, e))
digit_of-Digit b c d le lt (inr (from, to, inl e)) =
    lower_digit b c le (omega (arith, e)) (omega (arith, e)) ∙ ap some (omega (arith, e))
digit_of-Digit b c d le lt (inr (from, to, inr e)) =
    upper_digit b c le (omega (arith, e)) (omega (arith, e)) ∙ ap some (omega (arith, e))

-- What `strtoul` takes for a digit in a base up to 16 is one, but for the characters from `:` to `?`.
Digit-digit_of :
    (b c d : ℕ) → b ≤ 16 → (c < 58) ⊎ (64 ≤ c) → digit_of b c ≡ some d → (d < b) × Digit c d
unfolding digit_of
Digit-digit_of b c d le (inl low) e = (
  ground (arith, some-inj {x = c - 48} {y = d}),
  inl (
    ground (arith, some-inj {x = c - 48} {y = d}),
    ground (arith, some-inj {x = c - 48} {y = d}),
  ),
)
Digit-digit_of b c d le (inr high) e = elim (Bool-cases (leb b'a' c)) [
  | inl lower ↦
      let same : c - 97 + 10 ≡ d = ground (arith, some-inj {x = c - 97 + 10} {y = d}) in
      let small : d < b = ground arith in
      (small, inr (omega arith, omega arith, inl (ground arith)))
  | inr upper ↦
      let same : c - 65 + 10 ≡ d = ground (arith, some-inj {x = c - 65 + 10} {y = d}) in
      let small : d < b = ground arith in
      (small, inr (omega arith, omega arith, inr (ground arith)))
]

digit_of-Stops : (b c : ℕ) (s : List ℕ) → b ≤ 16 → Stops b (c ∷ s) → digit_of b c ≡ none
digit_of-Stops b c s le (no_digit, apart) = elim (Option-cases (digit_of b c)) [
  | inl e ↦ e
  | inr (d, e) ↦ let (lt, digit) = Digit-digit_of b c d le apart e in absurd (no_digit d lt digit)
]

-- The loop's number, and where it stops.
pub value-text :
    (b x : ℕ) (ds : List (ℕ × ℕ)) (rest : List ℕ)
    → b ≤ 16
    → Digits b ds
    → Stops b rest
    → value b x (text ds ++ rest) ≡ number b x ds
unfolding value
value-text b x [] [] le z stops = refl
value-text b x [] (c ∷ s) le z stops = rw (digit_of-Stops b c s le stops, value) refl
value-text b x ((c, d) ∷ ds) rest le ((lt, digit), z) stops =
    rw (digit_of-Digit b c d le lt digit, value) (value-text b (x * b + d) ds rest le z stops)

pub digits-text :
    (b : ℕ) (ds : List (ℕ × ℕ)) (rest : List ℕ) (x : ℕ) (overflow : Bool)
    → b ≤ 16
    → Digits b ds
    → Stops b rest
    → (digits b x overflow (text ds ++ rest)).1 ≡ rest
unfolding digits
digits-text b [] [] x overflow le z stops = refl
digits-text b [] (c ∷ s) x overflow le z stops = rw (digit_of-Stops b c s le stops, digits) refl
digits-text b ((c, d) ∷ ds) rest x overflow le ((lt, digit), z) stops =
    rw (digit_of-Digit b c d le lt digit, digits) (digits-text b ds rest _ _ le z stops)
