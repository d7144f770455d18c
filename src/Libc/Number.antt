-- ===== src/Libc/Number.antt =====
-- `strtoul`, `strtol` and `fill_numbuf` of pset4/lib.cc, and `isspace` of pset4/lib.hh. A C string is the list
-- of the bytes before its terminator, and `unsigned long` has 64 bits.
pub mod Value
pub mod Numeral
pub mod Reads
pub mod Table
pub mod Print
use cs61_f18_psets.Base.{
  ℕ, zero, suc, ◌+◌, ◌-◌, ◌*◌, ◌/◌, ◌%◌, ◌^◌, Bool, true, false, ◌&&◌, ◌||◌, Option, none, some,
  List, [], ◌∷◌, get_or, ltb, leb, ◌==◌, if◌then◌else◌,
}
use cs61_f18_psets.Base.Int.{ℤ, pos, negsuc}

unfoldable pub isspace : ℕ → Bool
isspace ch = (leb 9 ch && leb ch 13) || ch == b' '

unfoldable pub skip_spaces : List ℕ → List ℕ
skip_spaces [] = []
skip_spaces (c ∷ s) = elim (isspace c) [ true ↦ skip_spaces s | false ↦ c ∷ s ]

-- `negative`, and the string behind the sign.
unfoldable pub sign_of : List ℕ → Bool × List ℕ
sign_of [] = (false, [])
sign_of (c ∷ s) = (c == b'-', if c == b'-' || c == b'+' then s else c ∷ s)

unfoldable pub hex_prefix : List ℕ → Bool
hex_prefix (c ∷ d ∷ s) = c == b'0' && (d == b'x' || d == b'X')
hex_prefix _ = false

abbrev pub behind_prefix : List ℕ → List ℕ
behind_prefix (c ∷ d ∷ s) = s
behind_prefix s = s

abbrev pub leading_zero : List ℕ → Bool
leading_zero [] = false
leading_zero (c ∷ s) = c == b'0'

-- The base, and the string behind its prefix.
unfoldable pub base_of : ℕ → List ℕ → ℕ × List ℕ
base_of base s =
    if base == 0
    then if hex_prefix s then (16, behind_prefix s) else (if leading_zero s then 8 else 10, s)
    else (base, if base == 16 && hex_prefix s then behind_prefix s else s)

-- The digit that a character stands for, in the order of the code's tests.
unfoldable pub digit_of : ℕ → ℕ → Option ℕ
digit_of base c =
    if leb b'0' c && ltb c (b'0' + base)
    then some (c - b'0')
    else if ltb 10 base && leb b'a' c && ltb c (b'a' + base - 10)
    then some (c - b'a' + 10)
    else if ltb 10 base && leb b'A' c && ltb c (b'A' + base - 10)
    then some (c - b'A' + 10)
    else none

-- `x > (-1UL - digit) / base`.
unfoldable pub overflows : ℕ → ℕ → ℕ → Bool
overflows base x digit = ltb ((2 ^ 64 - 1 - digit) / base) x

-- The loop over the digits: `x`, `overflow` and the place where it stops.
unfoldable pub digits : ℕ → ℕ → Bool → List ℕ → (ℕ × Bool) × List ℕ
digits base x overflow [] = ((x, overflow), [])
digits base x overflow (c ∷ s) = elim (digit_of base c) [
  | none ↦ ((x, overflow), c ∷ s)
  | some digit ↦
      digits base (if overflows base x digit then x else (x * base + digit) % 2 ^ 64)
        (overflow || overflows base x digit) s
]

-- `if (overflow) x = -1UL;`.
abbrev pub saturated : ℕ × Bool → ℕ
saturated (x, overflow) = if overflow then 2 ^ 64 - 1 else x

-- `if (negative) x = -x;`.
abbrev pub signed : Bool → ℕ → ℕ
signed negative x = if negative then (2 ^ 64 - x) % 2 ^ 64 else x

-- The number, and what `*endptr` points to.
unfoldable pub strtoul : List ℕ → ℕ → ℕ × List ℕ
strtoul s base =
    let (negative, t) = sign_of (skip_spaces s) in
    let (b, u) = base_of base t in
    let (x, rest) = digits b 0 false u in (signed negative (saturated x), rest)

abbrev pub upper_digits : List ℕ
upper_digits = 48 ∷ 49 ∷ 50 ∷ 51 ∷ 52 ∷ 53 ∷ 54 ∷ 55 ∷ 56 ∷ 57 ∷ 65 ∷ 66 ∷ 67 ∷ 68 ∷ 69 ∷ 70 ∷ []

abbrev pub lower_digits : List ℕ
lower_digits = 48 ∷ 49 ∷ 50 ∷ 51 ∷ 52 ∷ 53 ∷ 54 ∷ 55 ∷ 56 ∷ 57 ∷ 97 ∷ 98 ∷ 99 ∷ 100 ∷ 101 ∷ 102 ∷ []

-- The `do … while` loop; `text` is what has been written from the end of the buffer.
unfoldable pub fill_loop : ℕ → List ℕ → ℕ → ℕ → List ℕ → Option (List ℕ)
fill_loop zero table base val text = none
fill_loop (suc fuel) table base val text =
    let longer = get_or table (val % base) 0 ∷ text in
    let rest = fill_loop fuel table base (val / base) longer in
    if val / base == 0 then some longer else rest

-- A negative base asks for lower-case digits.
unfoldable pub fill_numbuf : ℕ → ℤ → Option (List ℕ)
fill_numbuf val (pos base) = fill_loop (suc val) upper_digits base val []
fill_numbuf val (negsuc n) = fill_loop (suc val) lower_digits (suc n) val []

-- `negative` in `strtol`, which skips only a minus sign.
unfoldable pub minus_of : List ℕ → Bool × List ℕ
minus_of [] = (false, [])
minus_of (c ∷ s) = (c == b'-', if c == b'-' then s else c ∷ s)

-- `long(u)`.
unfoldable pub to_long : ℕ → ℤ
to_long u = if ltb u (2 ^ 63) then pos u else negsuc (2 ^ 64 - 1 - u)

-- `bound`, for both signs.
abbrev pub bound : Bool → ℕ
bound negative = if negative then 2 ^ 63 else 2 ^ 63 - 1

unfoldable pub strtol : List ℕ → ℕ → ℤ × List ℕ
strtol s base =
    let (negative, t) = minus_of (skip_spaces s) in
    let (u, rest) = strtoul t base in
    let v = if ltb (bound negative) u then bound negative else u in
    (to_long (signed negative v), rest)
