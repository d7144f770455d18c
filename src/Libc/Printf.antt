-- ===== src/Libc/Printf.antt =====
-- `printer_vprintf` of pset4/lib.cc. The calls of `p->putc` are a list of characters with their
-- colors, which the printers of Libc.Printer take one by one.
pub mod Scan
pub mod Field
pub mod Number
use cs61_f18_psets.Base.{
  ℕ, zero, suc, ◌+◌, ◌-◌, ◌*◌, ◌%◌, ◌^◌, Bool, true, false, not, ◌&&◌, ◌||◌, Option, none, some,
  List, [], ◌∷◌, ◌++◌, map, length, take, replicate, ltb, leb, ◌==◌, if◌then◌else◌,
}
use cs61_f18_psets.Base.Int.{ℤ, pos, negsuc, pos_part, neg_part, ltb_ℤ, eq_ℤ}
use cs61_f18_psets.Libc.Number.{to_long, fill_numbuf}
use cs61_f18_psets.Libc.Format.{
  Arg, Flags, Item, add_flag, at_least_0, behind, color, conversion, counted, is_digit, item_of,
  no_flags, number, scan_digits, scan_flags, scan_precision, scan_precision_number, scan_width,
  signed, single, starred, string, take_number, take_string, text, to_int, unsigned, unsigned_item,
  with_number, with_string,
}

abbrev pub base_mark : ℤ → List ℕ
base_mark base =
    if eq_ℤ base (pos 16)
    then b'0' ∷ b'X' ∷ []
    else if eq_ℤ base (negsuc 15)
    then b'0' ∷ b'x' ∷ []
    else []

-- The sign, the base's mark, or nothing.
unfoldable pub prefix_of : Flags → Item → List ℕ
prefix_of f (signed x) =
    if ltb_ℤ x (pos 0)
    then b'-' ∷ []
    else if f.plus
    then b'+' ∷ []
    else if f.space
    then b' ' ∷ []
    else []
prefix_of f (unsigned v base always) =
    if (f.alt || always) && (not (v == 0) || always) then base_mark base else []
prefix_of f _ = []

-- `data`, before a precision cuts it.
unfoldable pub text_of : Item → Option (List ℕ)
text_of (signed x) = fill_numbuf (pos_part x + neg_part x) (pos 10)
text_of (unsigned v base always) = fill_numbuf v base
text_of (text s) = some s
text_of (color c) = some []

abbrev pub is_numeric : Item → Bool
is_numeric (signed x) = true
is_numeric (unsigned v base always) = true
is_numeric _ = false

-- The first `datalen` characters of `data`.
unfoldable pub shown : ℤ → Item → List ℕ → List ℕ
shown (pos n) item s = if is_numeric item then s else take n s
shown (negsuc n) item s = s

-- The number of zeros, for `n` characters of data and `k` of prefix.
unfoldable pub zeros_of : Flags → ℤ → ℤ → Item → ℕ → ℕ → ℕ
zeros_of f width (pos p) item n k = if is_numeric item then p - n else 0
zeros_of f width (negsuc p) item n k =
    if is_numeric item && f.zeroed && not f.left && ltb_ℤ (pos (n + k)) width
    then pos_part width - n - k
    else 0

-- The characters of one directive: padding, prefix, zeros, data, padding.
unfoldable pub field : Bool → ℤ → List ℕ → ℕ → List ℕ → List ℕ
field left width prefix leading shown =
    let padding = pos_part width - (length shown + leading + length prefix) in
    (if left then [] else replicate padding b' ')
    ++ (prefix
        ++ (replicate leading b'0' ++ (shown ++ (if left then replicate padding b' ' else []))))

abbrev pub laid_out : Flags → ℤ → ℤ → Item → List ℕ → List ℕ
laid_out f width precision item s =
    let d = shown precision item s in
    let k = prefix_of f item in
    field f.left width k (zeros_of f width precision item (length d) (length k)) d

-- The whole of a directive: what it prints in the color of the call.
unfoldable pub render : Flags → ℤ → ℤ → Item → Option (List ℕ)
render f width precision item = elim (text_of item) [
  | none ↦ none
  | some s ↦ some (laid_out f width precision item s)
]

abbrev pub Call : Type 0
Call = ℕ × ℕ

-- What a directive does: its calls, the color, the format and the arguments from there on.
pub record Step : Type 0 where
  pub calls : List Call
  pub now : ℕ
  pub rest : List ℕ
  pub args : List Arg

abbrev pub paint : ℕ → List ℕ → List Call
paint c = map (λ x. (x, c))

abbrev pub painted : ℕ → List ℕ → List Arg → Option (List ℕ) → Option Step
painted c rest args none = none
painted c rest args (some s) =
    some (record { calls = paint c s; now = c; rest = rest; args = args })

abbrev pub perform : ℕ → Flags → ℤ → ℤ → Item × List ℕ × List Arg → Option Step
perform c f width precision (color now, rest, args) =
    some (record { calls = []; now = now; rest = rest; args = args })
perform c f width precision (item, rest, args) = painted c rest args (render f width precision item)

abbrev pub with_item : ℕ → Flags → ℤ → ℤ → Option (Item × List ℕ × List Arg) → Option Step
with_item c f width precision none = none
with_item c f width precision (some item) = perform c f width precision item

abbrev pub with_precision : ℕ → Flags → ℤ → Option (ℤ × List ℕ × List Arg) → Option Step
with_precision c f width none = none
with_precision c f width (some (precision, s, args)) =
    with_item c f width precision (conversion false s args)

abbrev pub with_width : ℕ → Flags → Option (ℤ × List ℕ × List Arg) → Option Step
with_width c f none = none
with_width c f (some (width, s, args)) = with_precision c f width (scan_precision s args)

-- From behind a `%`.
unfoldable pub directive : ℕ → List ℕ → List Arg → Option Step
directive c s args = let (f, t) = scan_flags no_flags s in with_width c f (scan_width t args)

-- The calls of a whole format. `undefined` stands for an argument that does not fit, `unfinished`
-- for fuel that ran out.
pub data Printing : Type 0 where
  printed : List Call → Printing
  undefined unfinished : Printing

abbrev pub after : List Call → Printing → Printing
after calls (printed more) = printed (calls ++ more)
after calls undefined = undefined
after calls unfinished = unfinished

unfoldable pub printf_loop : ℕ → ℕ → List ℕ → List Arg → Printing
printf_loop zero c s args = unfinished
printf_loop (suc fuel) c [] args = printed []
printf_loop (suc fuel) c (x ∷ s) args = elim (x == b'%') [
  | false ↦ after ((x, c) ∷ []) (printf_loop fuel c s args)
  | true ↦ elim (directive c s args) [
    | none ↦ undefined
    | some d ↦ after d.calls (printf_loop fuel d.now d.rest d.args)
  ]
]

-- One round for each character of the format and one for its end.
unfoldable pub printer_vprintf : ℕ → List ℕ → List Arg → Printing
printer_vprintf c format args = printf_loop (suc (length format)) c format args
