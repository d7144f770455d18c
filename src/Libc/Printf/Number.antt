-- ===== src/Libc/Printf/Number.antt =====
-- `%d` read back: `strtol` finds the number in what `printer_vprintf` prints for it.
use mathlib.Core.List.{append-nil}
use cs61_f18_psets.Base.{
  ℕ, zero, suc, ◌+◌, ◌-◌, ◌*◌, ◌≤◌, ◌<◌, ◌^◌, ◌≡◌, Bool, true, false, some, List, [], ◌∷◌, ◌++◌,
  min, length, replicate, if◌then◌else◌, Bool-cases, Option-cases, inl, inr, refl, arith, ap, ◌∙◌,
}
use cs61_f18_psets.Base.Int.{ℤ, pos, negsuc, pos_part, neg_part, neg, ltb_ℤ}
use cs61_f18_psets.Libc.Format.{Flags, signed}
use cs61_f18_psets.Libc.Printf.{field, shown, prefix_of, zeros_of, render, text_of, laid_out}
use cs61_f18_psets.Libc.Number.{
  digit_of, strtoul, strtol, sign_of, minus_of, base_of, skip_spaces, isspace, fill_numbuf,
  upper_digits,
}
use cs61_f18_psets.Libc.Number.Value.{value, strtoul-value, strtol_lem}
use cs61_f18_psets.Libc.Number.Table.{Plain, AllPlain, upper-Table}
use cs61_f18_psets.Libc.Number.Print.{fill_loop-Printed, isspace-Plain, ==-false}

skip_spaces-replicate : (n : ℕ) (s : List ℕ) → skip_spaces (replicate n b' ' ++ s) ≡ skip_spaces s
unfolding skip_spaces isspace
skip_spaces-replicate zero s = refl
skip_spaces-replicate (suc n) s = skip_spaces-replicate n s

-- Zeros in front and a space behind do not change the value.
value-leading : (n : ℕ) (s : List ℕ) → value 10 0 (replicate n b'0' ++ s) ≡ value 10 0 s
unfolding value digit_of
value-leading zero s = refl
value-leading (suc n) s = value-leading n s

value-spaces : (x n : ℕ) (s : List ℕ) → value 10 x (s ++ replicate n b' ') ≡ value 10 x s
unfolding value digit_of
value-spaces x zero s = ap (value 10 x) (append-nil s)
value-spaces x (suc n) [] = refl
value-spaces x (suc n) (c ∷ s) = elim (Option-cases (digit_of 10 c)) [
  | inl e ↦ rw (e, value) refl
  | inr (d, e) ↦ rw (e, value) (value-spaces (x * 10 + d) (suc n) s)
]

abbrev PlainHead : List ℕ → Type 0
PlainHead [] = ⊥
PlainHead (c ∷ s) = Plain c

skip_spaces-PlainHead : (s : List ℕ) → PlainHead s → skip_spaces s ≡ s
unfolding skip_spaces
skip_spaces-PlainHead [] h = refl
skip_spaces-PlainHead (c ∷ s) h = rw (isspace-Plain c h, skip_spaces) refl

minus_of-PlainHead : (s : List ℕ) → PlainHead s → minus_of s ≡ (false, s)
unfolding minus_of
minus_of-PlainHead [] h = refl
minus_of-PlainHead (c ∷ s) h = rw (==-false c 45 (λ z. omega arith)) refl

sign_of-PlainHead : (s : List ℕ) → PlainHead s → sign_of s ≡ (false, s)
unfolding sign_of
sign_of-PlainHead [] h = refl
sign_of-PlainHead (c ∷ s) h =
    rw (==-false c 45 (λ z. omega arith), ==-false c 43 (λ z. omega arith)) refl

base_of_ten : (s : List ℕ) → base_of 10 s ≡ (10, s)
unfolding base_of
base_of_ten s = refl

strtoul-PlainHead : (s : List ℕ) → PlainHead s → (strtoul s 10).0 ≡ min (value 10 0 s) (2 ^ 64 - 1)
strtoul-PlainHead s h =
    strtoul-value s 10 (omega arith)
    ∙ rw (skip_spaces-PlainHead s h, sign_of-PlainHead s h, base_of_ten s) refl

strtoul-plus :
    (s : List ℕ) → PlainHead s → (strtoul (b'+' ∷ s) 10).0 ≡ min (value 10 0 s) (2 ^ 64 - 1)
unfolding skip_spaces isspace sign_of
strtoul-plus s h = strtoul-value (b'+' ∷ s) 10 (omega arith) ∙ rw (base_of_ten s) refl

-- What `strtol` makes of the padding and prefix in front of a text.
abbrev clamped : ℕ → ℤ
clamped v = pos (min (min v (2 ^ 64 - 1)) (2 ^ 63 - 1))

nonnegative : (m : ℕ) → ltb_ℤ (pos m) (pos 0) ≡ false
nonnegative m = ground arith

below_zero : (m : ℕ) → ltb_ℤ (negsuc m) (pos 0) ≡ true
below_zero m = ground arith

unclamped : (v m : ℕ) → m < 2 ^ 63 → v ≡ m → clamped v ≡ pos m
unclamped v m lt e = ap pos (ground arith)

unclamped_minus :
    (v m : ℕ) → m < 2 ^ 63 → v ≡ suc m → neg (pos (min (min v (2 ^ 64 - 1)) (2 ^ 63))) ≡ negsuc m
unfolding neg
unclamped_minus v m lt e = ground arith

module _ (n : ℕ) (s : List ℕ) (h : PlainHead s) where
  strtol-minus :
      (strtol (replicate n b' ' ++ b'-' ∷ s) 10).0
      ≡ neg (pos (min (min (value 10 0 s) (2 ^ 64 - 1)) (2 ^ 63)))
  unfolding skip_spaces isspace minus_of
  strtol-minus =
      strtol_lem (replicate n b' ' ++ b'-' ∷ s) 10
      ∙ rw (skip_spaces-replicate n (b'-' ∷ s), strtoul-PlainHead s h) refl

  strtol-plus : (strtol (replicate n b' ' ++ b'+' ∷ s) 10).0 ≡ clamped (value 10 0 s)
  unfolding skip_spaces isspace minus_of
  strtol-plus =
      strtol_lem (replicate n b' ' ++ b'+' ∷ s) 10
      ∙ rw (skip_spaces-replicate n (b'+' ∷ s), strtoul-plus s h) refl

  strtol-plain : (strtol (replicate n b' ' ++ s) 10).0 ≡ clamped (value 10 0 s)
  strtol-plain =
      strtol_lem (replicate n b' ' ++ s) 10
      ∙ rw
          (
            skip_spaces-replicate n s,
            skip_spaces-PlainHead s h,
            minus_of-PlainHead s h,
            strtoul-PlainHead s h,
          )
          refl

  strtol-space : (strtol (replicate n b' ' ++ b' ' ∷ s) 10).0 ≡ clamped (value 10 0 s)
  unfolding skip_spaces isspace
  strtol-space =
      strtol_lem (replicate n b' ' ++ b' ' ∷ s) 10
      ∙ rw
          (
            skip_spaces-replicate n (b' ' ∷ s),
            skip_spaces-PlainHead s h,
            minus_of-PlainHead s h,
            strtoul-PlainHead s h,
          )
          refl

  strtol-prefix :
      (f : Flags) (m : ℕ)
      → m < 2 ^ 63
      → value 10 0 s ≡ m
      → (strtol (replicate n b' ' ++ (prefix_of f (signed (pos m)) ++ s)) 10).0 ≡ pos m
  unfolding prefix_of
  strtol-prefix f m lt e = elim (Bool-cases f.plus) [
    | inl p ↦ rw (nonnegative m, p) (strtol-plus ∙ unclamped _ m lt e)
    | inr p ↦ elim (Bool-cases f.space) [
      | inl q ↦ rw (nonnegative m, p, q) (strtol-space ∙ unclamped _ m lt e)
      | inr q ↦ rw (nonnegative m, p, q) (strtol-plain ∙ unclamped _ m lt e)
    ]
  ]

  strtol-negative :
      (f : Flags) (m : ℕ)
      → m < 2 ^ 63
      → value 10 0 s ≡ suc m
      → (strtol (replicate n b' ' ++ (prefix_of f (signed (negsuc m)) ++ s)) 10).0 ≡ negsuc m
  unfolding prefix_of
  strtol-negative f m lt e = rw (below_zero m) (strtol-minus ∙ unclamped_minus _ m lt e)

replicate_or_nil :
    (b : Bool) (n c : ℕ) → (m : ℕ) × ((if b then replicate n c else []) ≡ replicate m c)
replicate_or_nil true n c = (n, refl)
replicate_or_nil false n c = (0, refl)

nil_or_replicate :
    (b : Bool) (n c : ℕ) → (m : ℕ) × ((if b then [] else replicate n c) ≡ replicate m c)
nil_or_replicate true n c = (0, refl)
nil_or_replicate false n c = (n, refl)

PlainHead-body :
    (z : ℕ) (s t : List ℕ) → AllPlain s → 0 < length s → PlainHead (replicate z b'0' ++ (s ++ t))
PlainHead-body zero [] t all lt = absurd (omega arith)
PlainHead-body zero (c ∷ s) t all lt = all.0
PlainHead-body (suc z) s t all lt = (omega arith, (omega arith, λ e. absurd (omega arith)))

abbrev InLong : ℤ → Type 0
InLong x = (pos_part x < 2 ^ 63) × (neg_part x ≤ 2 ^ 63)

strtol-signed :
    (n : ℕ) (s : List ℕ) (f : Flags) (x : ℤ)
    → PlainHead s
    → InLong x
    → value 10 0 s ≡ pos_part x + neg_part x
    → (strtol (replicate n b' ' ++ (prefix_of f (signed x) ++ s)) 10).0 ≡ x
strtol-signed n s f (pos m) h r e = strtol-prefix n s h f m (omega arith) (omega arith)
strtol-signed n s f (negsuc m) h r e = strtol-negative n s h f m (omega arith) (omega arith)

strtol-field :
    (f : Flags) (width : ℤ) (x : ℤ) (leading : ℕ) (s : List ℕ)
    → AllPlain s
    → 0 < length s
    → InLong x
    → value 10 0 s ≡ pos_part x + neg_part x
    → (strtol (field f.left width (prefix_of f (signed x)) leading s) 10).0 ≡ x
unfolding field
strtol-field f width x leading s all lt r e =
    let padding = pos_part width - (length s + leading + length (prefix_of f (signed x))) in
    let (n, before) = nil_or_replicate f.left padding b' ' in
    let (m, behind) = replicate_or_nil f.left padding b' ' in
    rw (before, behind)
      (strtol-signed n (replicate leading b'0' ++ (s ++ replicate m b' ')) f x
        (PlainHead-body leading s (replicate m b' ') all lt) r
        (value-leading leading (s ++ replicate m b' ') ∙ value-spaces 0 m s ∙ e))

shown-signed : (precision x : ℤ) (s : List ℕ) → shown precision (signed x) s ≡ s
unfolding shown
shown-signed (pos n) x s = refl
shown-signed (negsuc n) x s = refl

-- Whatever the flags, the width and the precision of a `%d` or `%i`, `strtol` in base 10 reads its number
-- back from what is printed.
pub strtol-render :
    (f : Flags) (width precision x : ℤ)
    → InLong x
    → (s : List ℕ) × (render f width precision (signed x) ≡ some s) × ((strtol s 10).0 ≡ x)
unfolding render text_of fill_numbuf value
strtol-render f width precision x r =
    let v = pos_part x + neg_part x in
    let (s, same, plain, worth) =
      fill_loop-Printed upper_digits 10 (omega arith) (upper-Table 10 (omega arith)) (suc v) v []
        (omega arith) tt in
    (
      laid_out f width precision (signed x) s,
      rw (same, render) refl,
      rw (shown-signed precision x s) (
          strtol-field f width x
            (zeros_of f width precision (signed x) (length s) (length (prefix_of f (signed x)))) s
            plain.0 plain.1 r worth),
    )
