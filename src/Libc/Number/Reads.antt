-- ===== src/Libc/Number/Reads.antt =====
-- `strtoul` of pset4/lib.cc reads the numerals of Libc.Number.Numeral.
use mathlib.Core.Path.{subst}
use cs61_f18_psets.Base.{
  ℕ, ◌-◌, ◌^◌, ◌≤◌, ◌≡◌, ◌≢◌, ◌⊎◌, inl, inr, refl, sym, ap, ◌∙◌, Bool, true, false, List, [], ◌∷◌,
  ◌++◌, min, All, ◌==◌, ◌%◌, if◌then◌else◌, arith,
}
use cs61_f18_psets.Libc.Number.{
  isspace, skip_spaces, sign_of, hex_prefix, base_of, digits, saturated, signed, strtoul,
}
use cs61_f18_psets.Libc.Number.Value.{digits-value}
use cs61_f18_psets.Libc.Number.Numeral.{
  Digit, Digits, text, number, Stops, Blank, Sign, no_sign, plus, minus, NoHex, Prefix, as_given,
  hex, bare_hex, octal, decimal, value-text, digits-text,
}

isspace-Blank : (d : ℕ) → Blank d → isspace d ≡ true
unfolding isspace
isspace-Blank d (inl (lo, hi)) = ground arith
isspace-Blank d (inr e) = ground arith

skip_spaces-blanks :
    (spaces : List ℕ) (c : ℕ) (s : List ℕ)
    → All Blank spaces
    → isspace c ≡ false
    → skip_spaces (spaces ++ (c ∷ s)) ≡ c ∷ s
unfolding skip_spaces
skip_spaces-blanks [] c s z solid = rw (solid, skip_spaces) refl
skip_spaces-blanks (d ∷ spaces) c s (blank, z) solid =
    let e : isspace d ≡ true = isspace-Blank d blank in
    rw (e, skip_spaces) (skip_spaces-blanks spaces c s z solid)

solid_from : (c : ℕ) → 33 ≤ c → isspace c ≡ false
unfolding isspace
solid_from c le = ground arith

sign_of-Sign :
    {negative : Bool} {sign : List ℕ} (c : ℕ) (s : List ℕ)
    → Sign negative sign
    → 48 ≤ c
    → sign_of (sign ++ (c ∷ s)) ≡ (negative, c ∷ s)
unfolding sign_of
sign_of-Sign c s no_sign le = ground arith
sign_of-Sign c s plus le = refl
sign_of-Sign c s minus le = refl

skip-Sign :
    {negative : Bool} {sign : List ℕ} (spaces : List ℕ) (c : ℕ) (s : List ℕ)
    → All Blank spaces
    → Sign negative sign
    → 48 ≤ c
    → skip_spaces (spaces ++ (sign ++ (c ∷ s))) ≡ sign ++ (c ∷ s)
skip-Sign spaces c s z no_sign le = skip_spaces-blanks spaces c s z (solid_from c (omega arith))
skip-Sign spaces c s z plus le = skip_spaces-blanks spaces _ _ z (solid_from b'+' (omega arith))
skip-Sign spaces c s z minus le = skip_spaces-blanks spaces _ _ z (solid_from b'-' (omega arith))

hex_prefix-x : (x : ℕ) (s : List ℕ) → (x ≡ b'x') ⊎ (x ≡ b'X') → hex_prefix (b'0' ∷ x ∷ s) ≡ true
unfolding hex_prefix
hex_prefix-x x s (inl e) = ground arith
hex_prefix-x x s (inr e) = ground arith

hex_prefix-NoHex : (s : List ℕ) → NoHex s → hex_prefix s ≡ false
unfolding hex_prefix
hex_prefix-NoHex [] h = refl
hex_prefix-NoHex (c ∷ []) h = refl
hex_prefix-NoHex (c ∷ d ∷ s) (inl ne) = ground arith
hex_prefix-NoHex (c ∷ d ∷ s) (inr (small, large)) = ground arith

hex_prefix-ne : (c : ℕ) (s : List ℕ) → c ≢ b'0' → hex_prefix (c ∷ s) ≡ false
unfolding hex_prefix
hex_prefix-ne c [] ne = refl
hex_prefix-ne c (d ∷ s) ne = ground arith

base_of-Prefix :
    {base b : ℕ} {prefix s : List ℕ} → Prefix base b prefix s → base_of base (prefix ++ s) ≡ (b, s)
unfolding base_of
base_of-Prefix (as_given b s some_base other) =
    let nonzero : (b == 0) ≡ false = ground arith in
    let not_hex : (b == 16) ≡ false = ground arith in rw (nonzero, not_hex) refl
base_of-Prefix (hex base x s (inl e) either) = rw (e, hex_prefix-x x s either) refl
base_of-Prefix (hex base x s (inr e) either) = rw (e, hex_prefix-x x s either) refl
base_of-Prefix (bare_hex s bare) = rw (hex_prefix-NoHex s bare) refl
base_of-Prefix (octal s bare) = rw (hex_prefix-NoHex (b'0' ∷ s) bare) refl
base_of-Prefix (decimal c s other) =
    let not_zero : (c == b'0') ≡ false = ground arith in rw (hex_prefix-ne c s other, not_zero) refl

Prefix-bound : {base b : ℕ} {prefix s : List ℕ} → Prefix base b prefix s → base ≤ 16 → b ≤ 16
Prefix-bound (as_given b s some_base other) le = le
Prefix-bound (hex base x s asked either) le = omega arith
Prefix-bound (bare_hex s bare) le = omega arith
Prefix-bound (octal s bare) le = omega arith
Prefix-bound (decimal c s other) le = omega arith

-- A prefix and digits begin with a character that is no space and no sign.
starts :
    {base b : ℕ} {prefix s : List ℕ} (c : ℕ) (u : List ℕ)
    → Prefix base b prefix s
    → s ≡ c ∷ u
    → 48 ≤ c
    → (h : ℕ) × (t : List ℕ) × (prefix ++ s ≡ h ∷ t) × (48 ≤ h)
starts c u (as_given b s some_base other) e le = (c, u, e, le)
starts c u (hex base x s asked either) e le = (b'0', x ∷ s, refl, omega arith)
starts c u (bare_hex s bare) e le = (c, u, e, le)
starts c u (octal s bare) e le = (c, u, e, le)
starts c u (decimal d s other) e le = (c, u, e, le)

Digit-from : (c d : ℕ) → Digit c d → 48 ≤ c
Digit-from c d (inl (small, e)) = omega (arith, e)
Digit-from c d (inr (from, to, inl e)) = omega (arith, e)
Digit-from c d (inr (from, to, inr e)) = omega (arith, e)

-- What `strtoul` does behind the sign, and behind the prefix.
abbrev read_digits : Bool → ℕ × List ℕ → ℕ × List ℕ
read_digits negative (b, u) =
    (signed negative (saturated (digits b 0 false u).0), (digits b 0 false u).1)

strtoul-steps :
    (s : List ℕ) (base : ℕ)
    → strtoul s base
      ≡ read_digits (sign_of (skip_spaces s)).0 (base_of base (sign_of (skip_spaces s)).1)
unfolding strtoul
strtoul-steps s base = refl

sign_of-skip_spaces :
    {negative : Bool} {sign : List ℕ} (spaces t : List ℕ) (h : ℕ) (u : List ℕ)
    → All Blank spaces
    → Sign negative sign
    → t ≡ h ∷ u
    → 48 ≤ h
    → sign_of (skip_spaces (spaces ++ (sign ++ t))) ≡ (negative, t)
sign_of-skip_spaces {negative = negative} {sign = sign} spaces t h u z sg e le =
    subst (λ v. sign_of (skip_spaces (spaces ++ (sign ++ v))) ≡ (negative, v)) (sym e)
      (ap sign_of (skip-Sign spaces h u z sg le) ∙ sign_of-Sign h u sg le)

-- In a base up to 16, with the prefix of its base if any: `strtoul` reads spaces, a sign, a prefix and
-- digits, and stops behind the last digit. It returns the number that the digits stand for, each by its
-- own place in `0` to `9` and `a` to `f` or `A` to `F`, or the largest `unsigned long` where that is
-- larger, negated modulo 2 ^ 64 behind a minus sign. The digits must not be followed by one of the
-- characters from `:` to `?`.
pub strtoul_lem :
    {negative : Bool} {base b : ℕ} {sign prefix : List ℕ} (spaces : List ℕ) (c d : ℕ)
    (ds : List (ℕ × ℕ)) (rest : List ℕ)
    → base ≤ 16
    → All Blank spaces
    → Sign negative sign
    → Prefix base b prefix (text ((c, d) ∷ ds) ++ rest)
    → Digits b ((c, d) ∷ ds)
    → Stops b rest
    → strtoul (spaces ++ (sign ++ (prefix ++ (text ((c, d) ∷ ds) ++ rest)))) base ≡ (
        let n = min (number b 0 ((c, d) ∷ ds)) (2 ^ 64 - 1) in
        (if negative then (2 ^ 64 - n) % 2 ^ 64 else n, rest))
strtoul_lem {negative = negative} {base = base} {b = b} {prefix = prefix} spaces c d ds rest le z sg
      pre digits_are stops =
    let all = text ((c, d) ∷ ds) ++ rest in
    let small = Prefix-bound pre le in
    let (h, t, e, from) = starts c _ pre refl (Digit-from c d digits_are.0.1) in
    let behind = sign_of-skip_spaces spaces (prefix ++ all) h t z sg e from in
    strtoul-steps _ base
    ∙ ap (λ (q : Bool × List ℕ). read_digits q.0 (base_of base q.1)) behind
    ∙ ap (read_digits negative) (base_of-Prefix pre)
    ∙ ap (λ n. (signed negative n, (digits b 0 false all).1))
        (digits-value b 0 all (omega arith) (omega arith)
          ∙ ap (λ n. min n (2 ^ 64 - 1)) (value-text b 0 ((c, d) ∷ ds) rest small digits_are stops))
    ∙ ap (λ r. (signed negative (min (number b 0 ((c, d) ∷ ds)) (2 ^ 64 - 1)), r))
        (digits-text b ((c, d) ∷ ds) rest 0 false small digits_are stops)
