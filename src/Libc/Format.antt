-- ===== src/Libc/Format.antt =====
-- The directives of `printer_vprintf`'s formats in pset4/lib.cc: flags, width, precision and
-- conversion. A format is the list of the bytes before its terminator, and an argument is the bits of a
-- number or the string that it points to. An `int` for a width is taken to be large enough.
use cs61_f18_psets.Base.{
  ℕ, ◌+◌, ◌-◌, ◌*◌, ◌%◌, ◌^◌, Bool, true, false, not, ◌&&◌, ◌||◌, Option, none, some, List, [], ◌∷◌,
  ltb, leb, ◌==◌, if◌then◌else◌,
}
use cs61_f18_psets.Base.Int.{ℤ, pos, negsuc, pos_part}
use cs61_f18_psets.Libc.Number.{to_long}

pub data Arg : Type 0 where
  number : ℕ → Arg
  string : List ℕ → Arg

-- `va_arg`: `none` stands for an argument that is missing or of another kind, which C leaves undefined.
abbrev pub take_number : List Arg → Option (ℕ × List Arg)
take_number (number v ∷ args) = some (v, args)
take_number _ = none

abbrev pub take_string : List Arg → Option (List ℕ × List Arg)
take_string (string s ∷ args) = some (s, args)
take_string _ = none

-- `int(v)`, from the low 32 bits.
unfoldable pub to_int : ℕ → ℤ
to_int v = let w = v % 2 ^ 32 in if ltb w (2 ^ 31) then pos w else negsuc (2 ^ 32 - 1 - w)

-- `FLAG_ALT`, `FLAG_ZERO`, `FLAG_LEFTJUSTIFY`, `FLAG_SPACEPOSITIVE` and `FLAG_PLUSPOSITIVE`.
pub record Flags : Type 0 where
  pub alt : Bool
  pub zeroed : Bool
  pub left : Bool
  pub space : Bool
  pub plus : Bool

abbrev pub no_flags : Flags
no_flags = record { alt = false; zeroed = false; left = false; space = false; plus = false }

-- The flag of a character of `flag_chars`.
abbrev pub add_flag : ℕ → Flags → Option Flags
add_flag c f =
    if c == b'#'
    then some (record f { alt = true })
    else if c == b'0'
    then some (record f { zeroed = true })
    else if c == b'-'
    then some (record f { left = true })
    else if c == b' '
    then some (record f { space = true })
    else if c == b'+'
    then some (record f { plus = true })
    else none

unfoldable pub scan_flags : Flags → List ℕ → Flags × List ℕ
scan_flags f [] = (f, [])
scan_flags f (c ∷ s) = elim (add_flag c f) [ none ↦ (f, c ∷ s) | some f' ↦ scan_flags f' s ]

abbrev pub is_digit : ℕ → Bool
is_digit c = leb b'0' c && leb c b'9'

-- `for (...; *format >= '0' && *format <= '9'; ) width = 10 * width + *format++ - '0';`
unfoldable pub scan_digits : ℕ → List ℕ → ℕ × List ℕ
scan_digits n [] = (n, [])
scan_digits n (c ∷ s) = elim (is_digit c) [
  | true ↦ scan_digits (10 * n + c - b'0') s
  | false ↦ (n, c ∷ s)
]

abbrev pub starred : List Arg → List ℕ → Option (ℤ × List ℕ × List Arg)
starred args s = elim (take_number args) [
  | none ↦ none
  | some (v, args') ↦ some (to_int v, s, args')
]

abbrev pub counted : List Arg → ℕ × List ℕ → Option (ℤ × List ℕ × List Arg)
counted args (n, s) = some (pos n, s, args)

-- The width; a missing one is -1.
unfoldable pub scan_width : List ℕ → List Arg → Option (ℤ × List ℕ × List Arg)
scan_width [] args = some (negsuc 0, [], args)
scan_width (c ∷ s) args =
    if is_digit c && not (c == b'0')
    then counted args (scan_digits 0 (c ∷ s))
    else if c == b'*'
    then starred args s
    else some (negsuc 0, c ∷ s, args)

abbrev pub at_least_0 : Option (ℤ × List ℕ × List Arg) → Option (ℤ × List ℕ × List Arg)
at_least_0 none = none
at_least_0 (some (p, s, args)) = some (pos (pos_part p), s, args)

-- Behind the `.`; no number counts as 0.
unfoldable pub scan_precision_number : List ℕ → List Arg → Option (ℤ × List ℕ × List Arg)
scan_precision_number [] args = some (pos 0, [], args)
scan_precision_number (c ∷ s) args =
    if is_digit c
    then counted args (scan_digits 0 (c ∷ s))
    else if c == b'*'
    then at_least_0 (starred args s)
    else some (pos 0, c ∷ s, args)

-- The precision; a missing one is -1.
unfoldable pub scan_precision : List ℕ → List Arg → Option (ℤ × List ℕ × List Arg)
scan_precision [] args = some (negsuc 0, [], args)
scan_precision (c ∷ s) args =
    if c == b'.' then scan_precision_number s args else some (negsuc 0, c ∷ s, args)

-- What a conversion asks for: a signed number; an unsigned one with its base and `FLAG_ALT2`; text;
-- another color.
pub data Item : Type 0 where
  signed : ℤ → Item
  unsigned : ℕ → ℤ → Bool → Item
  text : List ℕ → Item
  color : ℕ → Item

abbrev pub with_number : (ℕ → Item) → List Arg → Option (Item × List Arg)
with_number f args = elim (take_number args) [ none ↦ none | some (v, args') ↦ some (f v, args') ]

abbrev pub with_string : List Arg → Option (Item × List Arg)
with_string args = elim (take_string args) [ none ↦ none | some (s, args') ↦ some (text s, args') ]

-- `format_unsigned`.
abbrev pub unsigned_item : Bool → ℤ → ℕ → Item
unsigned_item long base v = unsigned (if long then v else v % 2 ^ 32) base false

-- The one-character string in `numbuf`, empty if the character is the terminator.
abbrev pub single : ℕ → List ℕ
single c = if c % 256 == 0 then [] else (c % 256) ∷ []

-- The cases of the `switch` behind `l` and `z`.
unfoldable pub item_of : ℕ → Bool → List Arg → Option (Item × List Arg)
item_of c long args =
    if c == b'd' || c == b'i'
    then with_number (λ v. signed (if long then to_long v else to_int v)) args
    else if c == b'u'
    then with_number (unsigned_item long (pos 10)) args
    else if c == b'x'
    then with_number (unsigned_item long (negsuc 15)) args
    else if c == b'X'
    then with_number (unsigned_item long (pos 16)) args
    else if c == b'p'
    then with_number (λ v. unsigned v (negsuc 15) true) args
    else if c == b's'
    then with_string args
    else if c == b'C'
    then with_number (λ v. color (v % 2 ^ 32)) args
    else if c == b'c'
    then with_number (λ v. text (single v)) args
    else some (text (c ∷ []), args)

abbrev pub behind : List ℕ → Option (Item × List Arg) → Option (Item × List ℕ × List Arg)
behind s none = none
behind s (some (item, args)) = some (item, s, args)

-- At the terminator a `%` is printed, and the format ends.
unfoldable pub conversion : Bool → List ℕ → List Arg → Option (Item × List ℕ × List Arg)
conversion long [] args = some (text (b'%' ∷ []), [], args)
conversion long (c ∷ s) args = elim (c == b'l' || c == b'z') [
  | true ↦ conversion true s args
  | false ↦ behind s (item_of c long args)
]
