-- ===== src/Libc/Number/Print.antt =====
-- `fill_numbuf`: it ends, its text fits its buffer, and `strtoul` reads it back.
use native.Mathlib.Nat.{
  div-lt_iff_lt-mul, pow-suc, mul-le-mul_left, div-add-mod', div-mul-le_self, mod-eq_of_lt, mod-lt,
}
use cs61_f18_psets.Base.{
  ℕ, zero, suc, ◌+◌, ◌-◌, ◌*◌, ◌/◌, ◌%◌, ◌^◌, ◌≤◌, ◌<◌, ◌≡◌, ◌≢◌, ◌↔◌, inl, inr, refl, ap, ◌∙◌,
  true, false, some, List, [], ◌∷◌, min, ◌==◌, Bool-cases, arith, some-inj, get_or, length, ==_iff,
}
use cs61_f18_psets.Base.Int.{ℤ, pos, negsuc}
use cs61_f18_psets.Libc.Number.{
  digit_of, strtoul, sign_of, base_of, skip_spaces, isspace, hex_prefix, fill_loop, fill_numbuf,
  upper_digits, lower_digits,
}
use cs61_f18_psets.Libc.Number.Value.{value, strtoul-value}
use cs61_f18_psets.Libc.Number.Table.{Plain, AllPlain, Table, upper-Table, lower-Table}

twice : (q base : ℕ) → 2 ≤ base → 2 * q ≤ q * base
twice q zero h = absurd (omega arith)
twice q (suc zero) h = absurd (omega arith)
twice q (suc (suc b)) h = omega arith

not_zero : (n : ℕ) → (n == 0) ≡ false → 0 < n
not_zero n e = ground arith

smaller : (val base : ℕ) → 2 ≤ base → (val / base == 0) ≡ false → val / base < val
smaller val base h e =
    omega (arith, twice (val / base) base h, not_zero (val / base) e, div-mul-le_self val base)

-- What is left of a number behind its last digit.
no_more : (val base : ℕ) → 2 ≤ base → (val / base == 0) ≡ true → val % base ≡ val
no_more val base h e =
    mod-eq_of_lt (omega (arith, small.0 (omega (arith, (==_iff (val / base) 0).0 e))))
  where
    small : (val / base < 1) ↔ (val < 1 * base)
    small = div-lt_iff_lt-mul (omega arith)

module _ (table : List ℕ) (base : ℕ) (two : 2 ≤ base) (good : Table table base) where
  -- The text is there, its characters are plain, and it is worth as much as the number.
  abbrev pub Printed : ℕ → ℕ → List ℕ → Type 0
  Printed fuel val text =
      (s : List ℕ) × (fill_loop fuel table base val text ≡ some s)
      × (AllPlain s × (0 < length s))
      × (value base 0 s ≡ value base val text)

  last :
      (val : ℕ) (text : List ℕ)
      → value base 0 (get_or table (val % base) 0 ∷ text) ≡ value base (val % base) text
  unfolding value
  last val text =
      rw ((good (val % base) (mod-lt val (omega arith))).0, value)
        (ap (λ v. value base v text) (omega arith))

  next :
      (val : ℕ) (text : List ℕ)
      → value base (val / base) (get_or table (val % base) 0 ∷ text) ≡ value base val text
  unfolding value
  next val text =
      rw ((good (val % base) (mod-lt val (omega arith))).0, value)
        (ap (λ v. value base v text) (div-add-mod' val base))

  pub fill_loop-Printed :
      (fuel val : ℕ) (text : List ℕ) → val < fuel → AllPlain text → Printed fuel val text
  unfolding fill_loop
  fill_loop-Printed zero val text lt plain = absurd (omega arith)
  fill_loop-Printed (suc fuel) val text lt plain = elim (Bool-cases (val / base == 0)) [
    | inl e ↦ rw e (
      _,
      refl,
      ((digit.1, plain), omega arith),
      last val text ∙ ap (λ v. value base v text) (no_more val base two e),
    )
    | inr e ↦
        let (s, same, all, worth) =
          fill_loop-Printed fuel (val / base) (get_or table (val % base) 0 ∷ text)
            (omega (arith, smaller val base two e)) (digit.1, plain) in
        rw e (s, same, all, worth ∙ next val text)
  ]
    where
      digit :
          (digit_of base (get_or table (val % base) 0) ≡ some (val % base))
          × Plain (get_or table (val % base) 0)
      digit = good (val % base) (mod-lt val (omega arith))

-- A plain string has no space, sign or prefix in front.
pub isspace-Plain : (c : ℕ) → Plain c → isspace c ≡ false
unfolding isspace
isspace-Plain c h = ground arith

skip_spaces-Plain : (s : List ℕ) → AllPlain s → skip_spaces s ≡ s
unfolding skip_spaces
skip_spaces-Plain [] h = refl
skip_spaces-Plain (c ∷ s) h = rw (isspace-Plain c h.0, skip_spaces) refl

pub ==-false : (a b : ℕ) → a ≢ b → (a == b) ≡ false
==-false a b h = ground arith

sign_of-Plain : (s : List ℕ) → AllPlain s → sign_of s ≡ (false, s)
unfolding sign_of
sign_of-Plain [] h = refl
sign_of-Plain (c ∷ s) h =
    rw (==-false c 45 (λ z. omega (arith, h.0.0)), ==-false c 43 (λ z. omega (arith, h.0.0))) refl

hex_prefix-Plain : (s : List ℕ) → AllPlain s → hex_prefix s ≡ false
unfolding hex_prefix
hex_prefix-Plain [] h = refl
hex_prefix-Plain (c ∷ []) h = refl
hex_prefix-Plain (c ∷ d ∷ s) h = ground (arith, h.1.0.0, h.1.0.1.0, h.1.0.1.1)

base_of-Plain : (base : ℕ) (s : List ℕ) → 2 ≤ base → AllPlain s → base_of base s ≡ (base, s)
unfolding base_of
base_of-Plain base s two h =
    rw (==-false base 0 (λ z. omega arith), hex_prefix-Plain s h) (ground arith)

strtoul-Plain :
    (base : ℕ) (s : List ℕ)
    → 2 ≤ base
    → base ≤ 36
    → AllPlain s
    → (strtoul s base).0 ≡ min (value base 0 s) (2 ^ 64 - 1)
strtoul-Plain base s two le h =
    strtoul-value s base le
    ∙ rw (skip_spaces-Plain s h, sign_of-Plain s h, base_of-Plain base s two h) refl

-- The base without its sign.
abbrev pub magnitude : ℤ → ℕ
magnitude (pos n) = n
magnitude (negsuc n) = suc n

fits : (v : ℕ) → v < 2 ^ 64 → min v (2 ^ 64 - 1) ≡ v
fits v h = ground arith

read_back :
    (table : List ℕ) (base val : ℕ)
    → 2 ≤ base
    → base ≤ 16
    → Table table base
    → val < 2 ^ 64
    → (s : List ℕ) × (fill_loop (suc val) table base val [] ≡ some s) × ((strtoul s base).0 ≡ val)
unfolding value
read_back table base val two le good lt =
    let (s, same, all, worth) =
      fill_loop-Printed table base two good (suc val) val [] (omega arith) tt in
    (
      s,
      same,
      strtoul-Plain base s two (omega arith) all.0
          ∙ ap (λ v. min v (2 ^ 64 - 1)) worth
          ∙ fits val lt,
    )

-- In a base from 2 to 16, with upper- or lower-case digits, `fill_numbuf` ends on every `unsigned long`,
-- and `strtoul` in that base reads the number back from its text.
pub fill_numbuf-strtoul :
    (val : ℕ) (base : ℤ)
    → val < 2 ^ 64
    → 2 ≤ magnitude base
    → magnitude base ≤ 16
    → (s : List ℕ) × (fill_numbuf val base ≡ some s) × ((strtoul s (magnitude base)).0 ≡ val)
unfolding fill_numbuf
fill_numbuf-strtoul val (pos b) lt two le =
    read_back upper_digits b val two le (upper-Table b le) lt
fill_numbuf-strtoul val (negsuc n) lt two le =
    read_back lower_digits (suc n) val two le (lower-Table (suc n) le) lt

eightfold : (q base : ℕ) → 8 ≤ base → q * 8 ≤ q * base
eightfold q base h = mul-le-mul_left q h

shorter : (val base n : ℕ) → 8 ≤ base → val < 8 ^ suc n → val / base < 8 ^ n
shorter val base n h lt = quotient.1 (omega (arith, eightfold (8 ^ n) base h, eight_more))
  where
    eight_more : 8 ^ suc n ≡ 8 ^ n * 8
    eight_more = pow-suc 8 n

    quotient : (val / base < 8 ^ n) ↔ (val < 8 ^ n * base)
    quotient = div-lt_iff_lt-mul (omega arith)

fill_loop-length :
    (table : List ℕ) (base n fuel val : ℕ) (text s : List ℕ)
    → 8 ≤ base
    → val < 8 ^ suc n
    → fill_loop fuel table base val text ≡ some s
    → length s ≤ length text + suc n
unfolding fill_loop
fill_loop-length table base n zero val text s h lt e = ground (arith, e)
fill_loop-length table base n (suc fuel) val text s h lt e = elim (Bool-cases (val / base == 0)) [
  | inl z ↦ omega (arith, ap length (some-inj (rw z at e)))
  | inr z ↦ more n lt (not_zero (val / base) z) (λ k b.
      fill_loop-length table base k fuel (val / base) (get_or table (val % base) 0 ∷ text) s h b
        (rw z at e))
]
  where
    more :
        (n : ℕ)
        → val < 8 ^ suc n
        → 0 < val / base
        → ((k : ℕ) → val / base < 8 ^ suc k → length s ≤ suc (length text) + suc k)
        → length s ≤ length text + suc n
    more zero lt some_left rest = absurd (omega (arith, shorter val base 0 h lt))
    more (suc n) lt some_left rest = omega (arith, rest n (shorter val base (suc n) h lt))

-- In a base from 8 on, the text of an `unsigned long` and its terminator fit into the 24 bytes of
-- `printer_vprintf`'s buffer.
pub length-fill_numbuf :
    (val : ℕ) (base : ℤ) (s : List ℕ)
    → val < 2 ^ 64
    → 8 ≤ magnitude base
    → fill_numbuf val base ≡ some s
    → length s + 1 ≤ 24
unfolding fill_numbuf
length-fill_numbuf val (pos b) s lt h e =
    omega (arith, fill_loop-length upper_digits b 21 (suc val) val [] s h (omega arith) e)
length-fill_numbuf val (negsuc n) s lt h e =
    omega (arith, fill_loop-length lower_digits (suc n) 21 (suc val) val [] s h (omega arith) e)
