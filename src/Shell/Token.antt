-- ===== src/Shell/Token.antt =====
-- `isshellspecial` and `parse_shell_token` of pset5/helpers.cc, and the token loop of `eval_line` in
-- pset5/sh61.cc. A C string is the list of the bytes before its terminator, so `*str` at the end of
-- the string is the empty list, and a pointer into the string is the list of the bytes from there on.
use mathlib.Core.Option
use cs61_f18_psets.Base.{
  ℕ, zero, suc, Bool, true, false, not, ◌&&◌, ◌||◌, Option, none, some, List, [], ◌∷◌, ◌++◌, length,
  leb, ◌==◌, if◌then◌else◌,
}

-- The C library's `isspace` and `isdigit` in the C locale.
unfoldable pub isspace : ℕ → Bool
isspace c = (leb 9 c && leb c 13) || c == b' '

unfoldable pub isdigit : ℕ → Bool
isdigit c = leb b'0' c && leb c b'9'

unfoldable pub isshellspecial : ℕ → Bool
isshellspecial ch =
    ch == b'<'
    || ch == b'>'
    || ch == b'&'
    || ch == b'|'
    || ch == b';'
    || ch == b'('
    || ch == b')'
    || ch == b'#'

-- The `TOKEN_` constants of pset5/sh61.hh.
pub data TokenType : Type 0 where
  token_normal token_redirection token_sequence token_background token_pipe token_and token_or
        token_lparen token_rparen token_other :
      TokenType

-- A call finds the end of the string and returns a null pointer, or returns a token and the pointer
-- behind it. `overrun` is a pointer behind the terminator.
pub data Parsed : Type 0 where
  end : Parsed
  token : TokenType → List ℕ → List ℕ → Parsed
  overrun : TokenType → List ℕ → Parsed

unfoldable pub skip_spaces : List ℕ → List ℕ
skip_spaces [] = []
skip_spaces (c ∷ s) = elim (isspace c) [ true ↦ skip_spaces s | false ↦ c ∷ s ]

-- The digits at the front, and what follows them.
unfoldable pub span_digits : List ℕ → List ℕ × List ℕ
span_digits [] = ([], [])
span_digits (c ∷ s) = elim (isdigit c) [
  | true ↦ let (ds, rest) = span_digits s in (c ∷ ds, rest)
  | false ↦ ([], c ∷ s)
]

-- What the loop over a normal token does with a character, in its order of tests. `more` says that
-- another character follows.
pub data Action : Type 0 where
  stop opens closes escapes keeps : Action

unfoldable pub action : ℕ → ℕ → Bool → Action
action quoted c more =
    if quoted == 0 && (isspace c || isshellspecial c)
    then stop
    else if (c == b'"' || c == 39) && quoted == 0
    then opens
    else if c == quoted
    then closes
    else if c == 92 && more && not (quoted == 39)
    then escapes
    else keeps

abbrev pub emit : ℕ → List ℕ × List ℕ → List ℕ × List ℕ
emit c (text, rest) = (c ∷ text, rest)

-- The loop over a normal token: its text, and where it stops.
unfoldable pub word : ℕ → List ℕ → List ℕ × List ℕ
word quoted [] = ([], [])
word quoted (c ∷ []) = elim (action quoted c false) [
  | stop ↦ ([], c ∷ [])
  | keeps ↦ (c ∷ [], [])
  | _ ↦ ([], [])
]
word quoted (c ∷ d ∷ s) = elim (action quoted c true) [
  | stop ↦ ([], c ∷ d ∷ s)
  | opens ↦ word c (d ∷ s)
  | closes ↦ word 0 (d ∷ s)
  | escapes ↦ emit d (word quoted s)
  | keeps ↦ emit c (word quoted (d ∷ s))
]

-- `++str` at the end of a redirection.
unfoldable pub step_over : TokenType → List ℕ → List ℕ → Parsed
step_over t text [] = overrun t text
step_over t text (c ∷ s) = token t text s

abbrev pub starts_with_digit : List ℕ → Bool
starts_with_digit [] = false
starts_with_digit (c ∷ s) = isdigit c

-- Behind `<` or `>`, the string `s`; `text` is what has been built.
unfoldable pub redirection : List ℕ → List ℕ → Parsed
redirection text [] = token token_redirection text []
redirection text (c ∷ s) =
    if c == b'>'
    then token token_redirection (text ++ c ∷ []) s
    else if c == b'&' && starts_with_digit s
    then (let (ds, rest) = span_digits s in step_over token_redirection (text ++ c ∷ ds) rest)
    else token token_redirection text (c ∷ s)

abbrev pub special_type : ℕ → TokenType
special_type c =
    if c == b';'
    then token_sequence
    else if c == b'&'
    then token_background
    else if c == b'|'
    then token_pipe
    else if c == b'('
    then token_lparen
    else if c == b')'
    then token_rparen
    else token_other

abbrev pub normal : List ℕ → List ℕ × List ℕ → Parsed
normal ds (text, rest) = token token_normal (ds ++ text) rest

abbrev pub is_nil : List ℕ → Bool
is_nil [] = true
is_nil (c ∷ s) = false

abbrev pub starts_with : ℕ → List ℕ → Bool
starts_with c [] = false
starts_with c (d ∷ s) = d == c

abbrev pub tail : List ℕ → List ℕ
tail [] = []
tail (c ∷ s) = s

-- Behind the digits `ds` at the front.
unfoldable pub dispatch : List ℕ → List ℕ → Parsed
dispatch ds [] = normal ds (word 0 [])
dispatch ds (c ∷ s) =
    if c == b'<' || c == b'>'
    then redirection (ds ++ c ∷ []) s
    else if is_nil ds && (c == b'&' || c == b'|') && starts_with c s
    then token (if c == b'&' then token_and else token_or) (c ∷ c ∷ []) (tail s)
    else if is_nil ds && isshellspecial c
    then token (special_type c) (c ∷ []) s
    else normal ds (word 0 (c ∷ s))

-- At the first character that is no space.
unfoldable pub parse_from : List ℕ → Parsed
parse_from [] = end
parse_from (c ∷ s) =
    let (ds, rest) = span_digits (c ∷ s) in if c == b'#' then end else dispatch ds rest

unfoldable pub parse_shell_token : List ℕ → Parsed
parse_shell_token s = parse_from (skip_spaces s)

-- What the loop of `eval_line` pushes to `args`. The outer `none` means that the fuel ran out, the
-- inner one that the string was read behind its end.
unfoldable pub eval_args : ℕ → List ℕ → Option (Option (List (List ℕ)))
eval_args zero s = none
eval_args (suc fuel) s = elim (parse_shell_token s) [
  | end ↦ some (some [])
  | overrun t text ↦ some none
  | token t text rest ↦ Option.map (Option.map (λ args. text ∷ args)) (eval_args fuel rest)
]

unfoldable pub eval_line : List ℕ → Option (Option (List (List ℕ)))
eval_line s = eval_args (suc (length s)) s
