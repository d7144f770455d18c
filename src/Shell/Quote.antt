-- ===== src/Shell/Quote.antt =====
-- pset5/helpers.cc: quoting is undone by the tokenizer, and what happens behind `>&`.
use cs61_f18_psets.Base.{
  ℕ, zero, suc, ◌≤◌, ◌<◌, ◌≡◌, ◌≢◌, refl, ap, ◌∙◌, Bool, true, false, some, List, [], ◌∷◌, ◌++◌,
  length, length-append, ◌==◌, arith,
}
use cs61_f18_psets.Shell.Token.{
  isspace, isdigit, isshellspecial, token_normal, token_redirection, end, token, overrun,
  skip_spaces, span_digits, action, keeps, emit, word, step_over, redirection, normal, dispatch,
  parse_from, parse_shell_token, eval_args, eval_line,
}

parse-none : (s : List ℕ) → parse_shell_token (b'>' ∷ s) ≡ redirection (b'>' ∷ []) s
unfolding parse_shell_token skip_spaces isspace parse_from span_digits isdigit dispatch
parse-none s = refl

-- Every character behind a backslash.
abbrev pub escape : List ℕ → List ℕ
escape [] = []
escape (c ∷ w) = 92 ∷ c ∷ escape w

-- A command line: the words, escaped, each followed by a space.
abbrev pub print_line : List (List ℕ) → List ℕ
print_line [] = []
print_line (w ∷ ws) = escape w ++ b' ' ∷ print_line ws

abbrev pub NonEmpty : List (List ℕ) → Type 0
NonEmpty [] = Unit {0}
NonEmpty (w ∷ ws) = (w ≢ []) × NonEmpty ws

word-space : (r : List ℕ) → word 0 (b' ' ∷ r) ≡ ([], b' ' ∷ r)
unfolding word action isspace
word-space [] = refl
word-space (c ∷ r) = refl

word-escape : (w r : List ℕ) → word 0 (escape w ++ b' ' ∷ r) ≡ (w, b' ' ∷ r)
unfolding word action isspace isshellspecial
word-escape [] r = word-space r
word-escape (c ∷ w) r = rw (word-escape w r) refl

parse-escape :
    (c : ℕ) (w r : List ℕ)
    → parse_shell_token (escape (c ∷ w) ++ b' ' ∷ r) ≡ token token_normal (c ∷ w) (b' ' ∷ r)
unfolding parse_shell_token skip_spaces isspace parse_from span_digits isdigit dispatch
    isshellspecial
parse-escape c w r = rw (word-escape (c ∷ w) r) refl

parse-nil : parse_shell_token [] ≡ end
unfolding parse_shell_token skip_spaces parse_from
parse-nil = refl

skip-space : (s : List ℕ) → parse_shell_token (b' ' ∷ s) ≡ parse_shell_token s
unfolding parse_shell_token skip_spaces isspace
skip-space s = refl

-- A string without its leading space, if it has one.
abbrev Follows : List ℕ → List ℕ → Type 0
Follows s t = parse_shell_token s ≡ parse_shell_token t

eval_args-print :
    (fuel : ℕ) (ws : List (List ℕ)) (s : List ℕ)
    → length ws < fuel
    → NonEmpty ws
    → Follows s (print_line ws)
    → eval_args fuel s ≡ some (some ws)
unfolding eval_args
eval_args-print zero ws s h n f = absurd (omega arith)
eval_args-print (suc fuel) [] s h n f = rw (f, parse-nil, eval_args) refl
eval_args-print (suc fuel) ([] ∷ ws) s h n f = absurd (n.0 refl)
eval_args-print (suc fuel) ((c ∷ w) ∷ ws) s h n f =
    rw (f, parse-escape c w (print_line ws), eval_args)
      (rw (eval_args-print fuel ws (b' ' ∷ print_line ws) (omega arith) n.1 (skip-space _)) refl)

length-print : (ws : List (List ℕ)) → length ws ≤ length (print_line ws)
length-print [] = omega arith
length-print (w ∷ ws) =
    omega (arith, length-append (escape w) (b' ' ∷ print_line ws), length-print ws)

-- A command line of non-empty words, each with a backslash before every character and a space behind,
-- is parsed back to exactly those words, whatever characters they hold.
pub eval_line-print :
    (ws : List (List ℕ)) → NonEmpty ws → eval_line (print_line ws) ≡ some (some ws)
unfolding eval_line
eval_line-print ws n =
    eval_args-print (suc (length (print_line ws))) ws (print_line ws)
      (omega (arith, length-print ws)) n refl

word-close : (r : List ℕ) → word 39 (39 ∷ b' ' ∷ r) ≡ ([], b' ' ∷ r)
unfolding word action
word-close r = word-space r

-- No digit stands at the front.
abbrev pub NoDigit : List ℕ → Type 0
NoDigit [] = Unit {0}
NoDigit (c ∷ s) = isdigit c ≡ false

no_digit : (s : List ℕ) → NoDigit (b'>' ∷ s)
unfolding isdigit
no_digit s = refl

-- No character of the list is `q`.
abbrev pub Without : ℕ → List ℕ → Type 0
Without q [] = Unit {0}
Without q (c ∷ w) = (c ≢ q) × Without q w

action-keeps : (c : ℕ) (more : Bool) → c ≢ 39 → action 39 c more ≡ keeps
unfolding action
action-keeps c more n = ground arith

word-keeps : (c d : ℕ) (s : List ℕ) → c ≢ 39 → word 39 (c ∷ d ∷ s) ≡ emit c (word 39 (d ∷ s))
unfolding word
word-keeps c d s n = rw (action-keeps c true n, word) refl

word-quoted : (w r : List ℕ) → Without 39 w → word 39 (w ++ 39 ∷ b' ' ∷ r) ≡ (w, b' ' ∷ r)
word-quoted [] r n = word-close r
word-quoted (c ∷ []) r n = word-keeps c 39 (b' ' ∷ r) n.0 ∙ ap (emit c) (word-quoted [] r tt)
word-quoted (c ∷ d ∷ w) r n =
    word-keeps c d (w ++ 39 ∷ b' ' ∷ r) n.0 ∙ ap (emit c) (word-quoted (d ∷ w) r n.1)

parse-opens : (c : ℕ) (s : List ℕ) → parse_shell_token (39 ∷ c ∷ s) ≡ normal [] (word 39 (c ∷ s))
unfolding parse_shell_token skip_spaces isspace parse_from span_digits isdigit dispatch
    isshellspecial word action
parse-opens c s = refl

-- A word in single quotes, which holds no single quote itself, is parsed to that word, the empty word
-- included, and the tokenizer stops at the space behind it.
pub parse-quoted :
    (w r : List ℕ)
    → Without 39 w
    → parse_shell_token (39 ∷ (w ++ 39 ∷ b' ' ∷ r)) ≡ token token_normal w (b' ' ∷ r)
parse-quoted [] r n = parse-opens 39 (b' ' ∷ r) ∙ ap (normal []) (word-quoted [] r n)
parse-quoted (c ∷ w) r n =
    parse-opens c (w ++ 39 ∷ b' ' ∷ r) ∙ ap (normal []) (word-quoted (c ∷ w) r n)

abbrev pub AllDigits : List ℕ → Type 0
AllDigits [] = Unit {0}
AllDigits (d ∷ ds) = (isdigit d ≡ true) × AllDigits ds

span_digits-append : (ds s : List ℕ) → AllDigits ds → NoDigit s → span_digits (ds ++ s) ≡ (ds, s)
unfolding span_digits
span_digits-append [] [] a n = refl
span_digits-append [] (c ∷ s) a n = rw (n, span_digits) refl
span_digits-append (d ∷ ds) s a n = rw (a.0, span_digits) (rw (span_digits-append ds s a.1 n) refl)

-- The prefix of a redirection to a file descriptor, `N>&`, and its own number, `FD`.
redirection-fd :
    (text fd s : List ℕ) (d : ℕ)
    → AllDigits (d ∷ fd)
    → NoDigit s
    → redirection text (b'&' ∷ d ∷ (fd ++ s))
      ≡ step_over token_redirection (text ++ b'&' ∷ d ∷ fd) s
unfolding redirection
redirection-fd text fd s d a n = rw (a.0, span_digits-append (d ∷ fd) s a n) refl

digit-front : (d : ℕ) → isdigit d ≡ true → (isspace d ≡ false) × ((d == b'#') ≡ false)
unfolding isdigit isspace
digit-front d h = ground arith

skip-digit : (d : ℕ) (s : List ℕ) → isdigit d ≡ true → skip_spaces (d ∷ s) ≡ d ∷ s
unfolding skip_spaces
skip-digit d s h = rw ((digit-front d h).0, skip_spaces) refl

from-digits :
    (d : ℕ) (ds s : List ℕ)
    → AllDigits (d ∷ ds)
    → NoDigit s
    → parse_from (d ∷ (ds ++ s)) ≡ dispatch (d ∷ ds) s
unfolding parse_from
from-digits d ds s a n =
    rw ((digit-front d a.0).1, parse_from) (rw (span_digits-append (d ∷ ds) s a n) refl)

parse-digits :
    (ds s : List ℕ)
    → AllDigits ds
    → parse_shell_token (ds ++ b'>' ∷ s) ≡ redirection (ds ++ b'>' ∷ []) s
unfolding parse_shell_token dispatch
parse-digits [] s a = parse-none s
parse-digits (d ∷ ds) s a =
    ap parse_from (skip-digit d (ds ++ b'>' ∷ s) a.0) ∙ from-digits d ds (b'>' ∷ s) a (no_digit s)

parse-redirection :
    (ds fd s : List ℕ) (d : ℕ)
    → AllDigits ds
    → AllDigits (d ∷ fd)
    → NoDigit s
    → parse_shell_token (ds ++ b'>' ∷ b'&' ∷ d ∷ (fd ++ s))
      ≡ step_over token_redirection ((ds ++ b'>' ∷ []) ++ b'&' ∷ d ∷ fd) s
parse-redirection ds fd s d a b n =
    parse-digits ds (b'&' ∷ d ∷ (fd ++ s)) a ∙ redirection-fd (ds ++ b'>' ∷ []) fd s d b n

-- Behind a redirection to a file descriptor, `N>&FD`, the tokenizer steps over one more character: a
-- character behind it, be it a separator, is lost, and at the end of the string the pointer that is
-- returned lies behind the terminator.
pub redirection_drops :
    (ds fd s : List ℕ) (d c : ℕ)
    → AllDigits ds
    → AllDigits (d ∷ fd)
    → isdigit c ≡ false
    → (parse_shell_token (ds ++ b'>' ∷ b'&' ∷ d ∷ (fd ++ c ∷ s))
        ≡ token token_redirection ((ds ++ b'>' ∷ []) ++ b'&' ∷ d ∷ fd) s)
      × (parse_shell_token (ds ++ b'>' ∷ b'&' ∷ d ∷ (fd ++ []))
          ≡ overrun token_redirection ((ds ++ b'>' ∷ []) ++ b'&' ∷ d ∷ fd))
unfolding step_over
redirection_drops ds fd s d c a b n =
    (parse-redirection ds fd (c ∷ s) d a b n, parse-redirection ds fd [] d a b tt)
