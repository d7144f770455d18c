-- ===== src/Http/Text.antt =====
-- What pset6/pong61.cc takes from the C library on text: `sscanf` with `%d`, `strtoul` in base 0,
-- `strncasecmp`, and `snprintf` with `%d` and `%s`. A line is the list of its bytes.
use cs61_f18_psets.Base.{
  ℕ, zero, suc, ◌+◌, ◌-◌, ◌*◌, ◌/◌, ◌%◌, ◌^◌, Bool, true, false, ◌&&◌, ◌||◌, Option, none, some,
  List, [], ◌∷◌, ltb, leb, ◌==◌, if◌then◌else◌,
}
use cs61_f18_psets.Base.Int.{ℤ, pos, negsuc, neg}
use cs61_f18_psets.Base.Text.{codes}

-- The bytes before the first null.
unfoldable pub c_string : List ℕ → List ℕ
c_string [] = []
c_string (c ∷ s) = if c == 0 then [] else c ∷ c_string s

abbrev is_space : ℕ → Bool
is_space c = c == b' ' || (leb 9 c && leb c 13)

unfoldable pub skip_space : List ℕ → List ℕ
skip_space [] = []
skip_space (c ∷ s) = if is_space c then skip_space s else c ∷ s

-- The value of a digit, 36 for any other character.
unfoldable pub digit_value : ℕ → ℕ
digit_value c =
    if leb b'0' c && leb c b'9'
    then c - b'0'
    else if leb b'a' c && leb c b'z'
    then c - b'a' + 10
    else if leb b'A' c && leb c b'Z'
    then c - b'A' + 10
    else 36

-- The digits at the head of the string, behind a number `n`; what follows them.
unfoldable pub scan_digits : ℕ → ℕ → List ℕ → ℕ × List ℕ
unfolding digit_value
scan_digits base n [] = (n, [])
scan_digits base n (c ∷ s) =
    let d = digit_value c in
    let rest = scan_digits base (n * base + d) s in if ltb d base then rest else (n, c ∷ s)

abbrev starts_with_digit : ℕ → List ℕ → Bool
starts_with_digit base [] = false
starts_with_digit base (c ∷ s) = ltb (digit_value c) base

-- A sign, and whether it is a minus.
unfoldable pub scan_sign : List ℕ → Bool × List ℕ
scan_sign [] = (false, [])
scan_sign (c ∷ s) =
    if c == b'-' then (true, s) else if c == b'+' then (false, s) else (false, c ∷ s)

-- `%d`: the number, and the rest of the string. An `int` is taken to be large enough.
unfoldable pub scan_int : List ℕ → Option (ℤ × List ℕ)
unfolding skip_space scan_sign scan_digits digit_value
scan_int s =
    let (minus, digits) = scan_sign (skip_space s) in
    let (n, rest) = scan_digits 10 0 digits in
    if starts_with_digit 10 digits then some (if minus then neg (pos n) else pos n, rest) else none

-- The rest of a string behind a text that it must start with.
unfoldable pub strip : List ℕ → List ℕ → Option (List ℕ)
strip [] s = some s
strip (c ∷ prefix) [] = none
strip (c ∷ prefix) (d ∷ s) = if c == d then strip prefix s else none

abbrev second_int : Option (ℤ × List ℕ) → Option ℤ
second_int none = none
second_int (some (status, rest)) = some status

abbrev minor_then_status : Option (ℤ × List ℕ) → Option ℤ
minor_then_status none = none
minor_then_status (some (minor, rest)) = second_int (scan_int rest)

abbrev behind_name : Option (List ℕ) → Option ℤ
behind_name none = none
behind_name (some s) = minor_then_status (scan_int s)

-- `sscanf(line, "HTTP/1.%d %d", &minor, &status)`, when it is 2: the status.
unfoldable pub scan_status : List ℕ → Option ℤ
unfolding strip scan_int c_string
scan_status line = behind_name (strip (codes "HTTP/1.") (c_string line))

-- `0x` and `0` select the base; `0x` only before a digit.
unfoldable pub scan_base : List ℕ → ℕ × List ℕ
unfolding digit_value
scan_base (z ∷ x ∷ d ∷ s) =
    if z == b'0'
    then if (x == b'x' || x == b'X') && ltb (digit_value d) 16
      then (16, d ∷ s)
      else (8, z ∷ x ∷ d ∷ s)
    else (10, z ∷ x ∷ d ∷ s)
scan_base (z ∷ s) = (if z == b'0' then 8 else 10, z ∷ s)
scan_base [] = (10, [])

-- `strtoul(s, nullptr, 0)`.
unfoldable pub strtoul : List ℕ → ℕ
unfolding skip_space scan_sign scan_base scan_digits c_string
strtoul s =
    let (minus, digits) = scan_sign (skip_space (c_string s)) in
    let (base, tail) = scan_base digits in
    let n = (scan_digits base 0 tail).0 in
    if leb (2 ^ 64) n then 2 ^ 64 - 1 else if minus then (2 ^ 64 - n) % 2 ^ 64 else n

unfoldable pub tolower : ℕ → ℕ
tolower c = if leb b'A' c && leb c b'Z' then c + 32 else c

-- `strncasecmp(s, prefix, strlen(prefix)) == 0`: what follows the prefix.
unfoldable pub strip_case : List ℕ → List ℕ → Option (List ℕ)
unfolding tolower
strip_case [] s = some s
strip_case (c ∷ prefix) [] = none
strip_case (c ∷ prefix) (d ∷ s) = if tolower c == tolower d then strip_case prefix s else none

-- The decimal digits of `n` before `s`. An `int` has ten digits at most.
unfoldable pub digits_before : ℕ → ℕ → List ℕ → List ℕ
digits_before zero n s = s
digits_before (suc fuel) n s =
    let rest = digits_before fuel (n / 10) ((b'0' + n % 10) ∷ s) in
    if ltb n 10 then (b'0' + n) ∷ s else rest

unfoldable pub decimal : ℤ → List ℕ
unfolding digits_before
decimal (pos n) = digits_before 10 n []
decimal (negsuc n) = b'-' ∷ digits_before 10 (n + 1) []
