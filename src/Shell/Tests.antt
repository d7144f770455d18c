-- ===== src/Shell/Tests.antt =====
-- Runs of the tokenizer.
use cs61_f18_psets.Base.Text.{codes}
use cs61_f18_psets.Base.{◌≡◌, refl, some, [], ◌∷◌}
use cs61_f18_psets.Shell.Token.{
  isdigit, parse_shell_token, skip_spaces, isspace, parse_from, span_digits, dispatch, redirection,
  step_over, isshellspecial, word, action, eval_line, eval_args,
}
use cs61_f18_psets.Shell.Quote.{print_line, eval_line-print}

line_run :
    eval_line (codes "a\\ b \"c d\"&&e # f")
    ≡ some (some (codes "a b" ∷ codes "c d" ∷ codes "&&" ∷ codes "e" ∷ []))
unfolding eval_line eval_args parse_shell_token skip_spaces isspace parse_from span_digits isdigit
    dispatch isshellspecial word action
line_run = refl

-- The `;` is lost.
lost_separator :
    eval_line (codes "a 2>&1;b") ≡ some (some (codes "a" ∷ codes "2>&1" ∷ codes "b" ∷ []))
unfolding eval_line eval_args parse_shell_token skip_spaces isspace parse_from span_digits isdigit
    dispatch isshellspecial word action redirection step_over
lost_separator = refl

eval_line-print_example :
    eval_line (print_line (codes "a;b" ∷ codes "# ' " ∷ []))
    ≡ some (some (codes "a;b" ∷ codes "# ' " ∷ []))
eval_line-print_example =
    eval_line-print (codes "a;b" ∷ codes "# ' " ∷ []) ((λ e. cc e), ((λ e. cc e), tt))
