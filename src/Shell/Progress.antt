-- ===== src/Shell/Progress.antt =====
-- pset5/helpers.cc: every token that `parse_shell_token` returns takes up at least one character, so
-- the loop of `eval_line` in pset5/sh61.cc ends.
use mathlib.Core.Path.{subst}
use mathlib.Core.Option
use cs61_f18_psets.Base.{
  ℕ, zero, suc, ◌+◌, ◌≤◌, ◌<◌, ◌≡◌, ◌⊎◌, refl, false, ◌&&◌, Option, none, some, List, [], ◌∷◌, ◌++◌,
  length, Bool-cases, inl, inr, ◌==◌, arith,
}
use cs61_f18_psets.Shell.Token.{
  isspace, isshellspecial, TokenType, token_redirection, Parsed, end, token, overrun, skip_spaces,
  span_digits, action, word, step_over, starts_with_digit, redirection, is_nil, tail, dispatch,
  parse_from, parse_shell_token, eval_args, eval_line,
}

-- A token's rest is shorter than `n`.
abbrev pub Shorter : ℕ → Parsed → Type 0
Shorter n end = Unit {0}
Shorter n (token t text rest) = length rest < n
Shorter n (overrun t text) = Unit {0}

Shorter-mono : (m n : ℕ) (p : Parsed) → m ≤ n → Shorter m p → Shorter n p
Shorter-mono m n end h s = tt
Shorter-mono m n (token t text rest) h s = omega arith
Shorter-mono m n (overrun t text) h s = tt

length-word : (quoted : ℕ) (s : List ℕ) → length (word quoted s).1 ≤ length s
unfolding word
length-word quoted [] = omega arith
length-word quoted (c ∷ []) = ground arith
length-word quoted (c ∷ d ∷ s) = ground (
  arith,
  length-word c (d ∷ s),
  length-word 0 (d ∷ s),
  length-word quoted s,
  length-word quoted (d ∷ s),
)

-- A first character at which the loop does not stop is taken.
word_takes :
    (quoted c : ℕ) (s : List ℕ)
    → quoted ≡ 0
    → isspace c ≡ false
    → isshellspecial c ≡ false
    → length (word quoted (c ∷ s)).1 < length (c ∷ s)
unfolding word action
word_takes quoted c [] z a b = ground arith
word_takes quoted c (d ∷ s) z a b = ground (
  arith,
  length-word c (d ∷ s),
  length-word 0 (d ∷ s),
  length-word quoted s,
  length-word quoted (d ∷ s),
)

length-span_digits : (s : List ℕ) → length (span_digits s).0 + length (span_digits s).1 ≡ length s
unfolding span_digits
length-span_digits [] = omega arith
length-span_digits (c ∷ s) = ground (arith, length-span_digits s)

length-skip_spaces : (s : List ℕ) → length (skip_spaces s) ≤ length s
unfolding skip_spaces
length-skip_spaces [] = omega arith
length-skip_spaces (c ∷ s) = ground (arith, length-skip_spaces s)

Shorter-step_over :
    (n : ℕ) (t : TokenType) (text s : List ℕ) → length s ≤ n → Shorter (suc n) (step_over t text s)
unfolding step_over
Shorter-step_over n t text [] h = tt
Shorter-step_over n t text (c ∷ s) h = omega arith

Shorter-redirection : (text s : List ℕ) → Shorter (suc (length s)) (redirection text s)
unfolding redirection
Shorter-redirection text [] = omega arith
Shorter-redirection text (c ∷ s) = elim (Bool-cases (c == b'>')) [
  | inl e ↦ rw e (omega arith)
  | inr e ↦ elim (Bool-cases (c == b'&' && starts_with_digit s)) [
    | inl d ↦
        rw (e, d)
          (Shorter-step_over (suc (length s)) token_redirection (text ++ c ∷ (span_digits s).0)
            (span_digits s).1 (omega (arith, length-span_digits s)))
    | inr d ↦ rw (e, d) (omega arith)
  ]
]

length-tail : (c : ℕ) (s : List ℕ) → length (tail s) ≤ length s
length-tail c [] = omega arith
length-tail c (d ∷ s) = omega arith

word_shorter :
    (ds : List ℕ) (c : ℕ) (s : List ℕ)
    → (is_nil ds && isspace c) ≡ false
    → (is_nil ds && isshellspecial c) ≡ false
    → length (word 0 (c ∷ s)).1 < length ds + length (c ∷ s)
word_shorter [] c s a b = omega (arith, word_takes 0 c s refl a b)
word_shorter (d ∷ ds) c s a b = omega (arith, length-word 0 (c ∷ s))

-- Behind digits `ds` with no space next.
Shorter-dispatch :
    (ds : List ℕ) (c : ℕ) (s : List ℕ)
    → (is_nil ds && isspace c) ≡ false
    → Shorter (length ds + length (c ∷ s)) (dispatch ds (c ∷ s))
unfolding dispatch
Shorter-dispatch ds c s a = ground (
  arith,
  Shorter-mono (suc (length s)) (length ds + suc (length s)) (redirection (ds ++ c ∷ []) s),
  Shorter-redirection (ds ++ c ∷ []) s,
  length-tail c s,
  word_shorter ds c s a,
)

skip_spaces-front : (s : List ℕ) (c : ℕ) (r : List ℕ) → skip_spaces s ≡ c ∷ r → isspace c ≡ false
unfolding skip_spaces
skip_spaces-front [] c r e = absurd (cc)
skip_spaces-front (d ∷ s) c r e = ground (arith, skip_spaces-front s c r)

-- The front is no digit and stays, or is a digit and is taken.
span_digits-front :
    (c : ℕ) (s : List ℕ)
    → ((span_digits (c ∷ s)).0 ≡ []) × ((span_digits (c ∷ s)).1 ≡ c ∷ s)
      ⊎ (is_nil (span_digits (c ∷ s)).0 ≡ false)
unfolding span_digits
span_digits-front c s = ground arith

Shorter-rest :
    (ds rest : List ℕ) → is_nil ds ≡ false → Shorter (length ds + length rest) (dispatch ds rest)
unfolding dispatch word
Shorter-rest [] rest h = absurd (cc)
Shorter-rest (d ∷ ds) [] h = omega arith
Shorter-rest (d ∷ ds) (c ∷ s) h = Shorter-dispatch (d ∷ ds) c s refl

Shorter-parse_from :
    (c : ℕ) (s : List ℕ) → isspace c ≡ false → Shorter (length (c ∷ s)) (parse_from (c ∷ s))
unfolding parse_from
Shorter-parse_from c s a = elim (Bool-cases (c == b'#')) [
  | inl e ↦ rw e tt
  | inr e ↦ elim (span_digits-front c s) [
    | inl (none_yet, same) ↦
        rw (e, none_yet, same)
          (Shorter-mono (0 + length (c ∷ s)) (length (c ∷ s)) (dispatch [] (c ∷ s)) (omega arith)
            (Shorter-dispatch [] c s a))
    | inr some_ds ↦
        rw (e, ← length-span_digits (c ∷ s))
          (Shorter-rest (span_digits (c ∷ s)).0 (span_digits (c ∷ s)).1 some_ds)
  ]
]

Shorter-cases :
    (r : List ℕ) (n : ℕ)
    → ((c : ℕ) (s : List ℕ) → r ≡ c ∷ s → isspace c ≡ false)
    → length r ≤ n
    → Shorter n (parse_from r)
unfolding parse_from
Shorter-cases [] n f h = tt
Shorter-cases (c ∷ s) n f h =
    Shorter-mono (length (c ∷ s)) n (parse_from (c ∷ s)) h (Shorter-parse_from c s (f c s refl))

-- The string behind a token is shorter than the string that was parsed.
pub Shorter-parse_shell_token : (s : List ℕ) → Shorter (length s) (parse_shell_token s)
unfolding parse_shell_token
Shorter-parse_shell_token s =
    Shorter-cases (skip_spaces s) (length s) (skip_spaces-front s) (length-skip_spaces s)

pub Parsed-cases :
    (p : Parsed)
    → (p ≡ end)
      ⊎ ((t : TokenType) × (text : List ℕ) × (rest : List ℕ) × (p ≡ token t text rest))
      ⊎ ((t : TokenType) × (text : List ℕ) × (p ≡ overrun t text))
Parsed-cases end = inl refl
Parsed-cases (token t text rest) = inr (inl (t, text, rest, refl))
Parsed-cases (overrun t text) = inr (inr (t, text, refl))

eval_args_total :
    (fuel : ℕ) (s : List ℕ)
    → length s < fuel
    → (r : Option (List (List ℕ))) × (eval_args fuel s ≡ some r)
unfolding eval_args
eval_args_total zero s h = absurd (omega arith)
eval_args_total (suc fuel) s h = elim (Parsed-cases (parse_shell_token s)) [
  | inl e ↦ (some [], rw (e, eval_args) refl)
  | inr (inr (t, text, e)) ↦ (none, rw (e, eval_args) refl)
  | inr (inl (t, text, rest, e)) ↦
      let shorter : length rest < length s =
        subst (Shorter (length s)) e (Shorter-parse_shell_token s) in
      let (r, done) = eval_args_total fuel rest (omega arith) in
      (Option.map (λ args. text ∷ args) r, rw (e, eval_args) (rw done refl))
]

-- The token loop of `eval_line` ends on every command line: as many rounds as the line has
-- characters, and one more, are enough.
pub eval_line_total : (s : List ℕ) → (r : Option (List (List ℕ))) × (eval_line s ≡ some r)
unfolding eval_line
eval_line_total s = eval_args_total (suc (length s)) s (omega arith)
