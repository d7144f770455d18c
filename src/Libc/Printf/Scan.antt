-- ===== src/Libc/Printf/Scan.antt =====
-- The parts of `printer_vprintf` that read the format: each moves forward, so the loop ends.
use mathlib.Core.Path.{subst}
use cs61_f18_psets.Base.{
  ℕ, zero, suc, ◌+◌, ◌-◌, ◌*◌, ◌≤◌, ◌<◌, ◌≢◌, inl, inr, Bool, true, false, not, ◌&&◌, ◌||◌, Option,
  none, some, List, [], ◌∷◌, length, Bool-cases, Option-cases, ◌==◌, if◌then◌else◌, arith, refl,
}
use cs61_f18_psets.Base.Int.{ℤ, pos, negsuc}
use cs61_f18_psets.Libc.Format.{
  Arg, number, string, Flags, no_flags, add_flag, scan_flags, is_digit, scan_digits, scan_width,
  scan_precision_number, scan_precision, Item, signed, unsigned, text, color, item_of, conversion,
  at_least_0, starred, counted, behind,
}
use cs61_f18_psets.Libc.Printf.{
  directive, Step, printed, undefined, unfinished, Printing, after, Call, with_item, with_precision,
  with_width, painted, printf_loop, printer_vprintf,
}

length-scan_flags : (f : Flags) (s : List ℕ) → length (scan_flags f s).1 ≤ length s
unfolding scan_flags
length-scan_flags f [] = omega arith
length-scan_flags f (c ∷ s) = elim (Option-cases (add_flag c f)) [
  | inl e ↦ rw (e, scan_flags) (omega arith)
  | inr (f', e) ↦ rw (e, scan_flags) (omega (arith, length-scan_flags f' s))
]

length-scan_digits : (n : ℕ) (s : List ℕ) → length (scan_digits n s).1 ≤ length s
unfolding scan_digits
length-scan_digits n [] = omega arith
length-scan_digits n (c ∷ s) = elim (Bool-cases (is_digit c)) [
  | inl e ↦ rw (e, scan_digits) (omega (arith, length-scan_digits (10 * n + c - b'0') s))
  | inr e ↦ rw (e, scan_digits) (omega arith)
]

-- What a successful scan leaves of the format.
abbrev Within : ℕ → Option (ℤ × List ℕ × List Arg) → Type 0
Within n none = Unit {0}
Within n (some (w, s, args)) = length s ≤ n

starred-Within : (n : ℕ) (s : List ℕ) (args : List Arg) → length s ≤ n → Within n (starred args s)
starred-Within n s [] h = tt
starred-Within n s (number v ∷ args) h = h
starred-Within n s (string t ∷ args) h = tt

either-Within :
    (n : ℕ) (b : Bool) (r q : Option (ℤ × List ℕ × List Arg))
    → Within n r
    → Within n q
    → Within n (if b then r else q)
either-Within n true r q h k = h
either-Within n false r q h k = k

scan_width-Within : (s : List ℕ) (args : List Arg) → Within (length s) (scan_width s args)
unfolding scan_width
scan_width-Within [] args = omega arith
scan_width-Within (c ∷ s) args =
    either-Within (suc (length s)) (is_digit c && not (c == b'0'))
      (counted args (scan_digits 0 (c ∷ s)))
      (if c == b'*' then starred args s else some (negsuc 0, c ∷ s, args))
      (length-scan_digits 0 (c ∷ s))
      (either-Within (suc (length s)) (c == b'*') (starred args s) (some (negsuc 0, c ∷ s, args))
        (starred-Within _ s args (omega arith)) (omega arith))

at_least_0-Within :
    (n : ℕ) (r : Option (ℤ × List ℕ × List Arg)) → Within n r → Within n (at_least_0 r)
at_least_0-Within n none h = h
at_least_0-Within n (some (p, s, args)) h = h

scan_precision_number-Within :
    (s : List ℕ) (args : List Arg) → Within (length s) (scan_precision_number s args)
unfolding scan_precision_number
scan_precision_number-Within [] args = omega arith
scan_precision_number-Within (c ∷ s) args =
    either-Within (suc (length s)) (is_digit c) (counted args (scan_digits 0 (c ∷ s)))
      (if c == b'*' then at_least_0 (starred args s) else some (pos 0, c ∷ s, args))
      (length-scan_digits 0 (c ∷ s))
      (either-Within (suc (length s)) (c == b'*') (at_least_0 (starred args s))
        (some (pos 0, c ∷ s, args)) (at_least_0-Within _ _ (starred-Within _ s args (omega arith)))
        (omega arith))

Within-weaken : (n m : ℕ) (r : Option (ℤ × List ℕ × List Arg)) → n ≤ m → Within n r → Within m r
Within-weaken n m none le h = tt
Within-weaken n m (some (p, s, args)) le h = omega arith

scan_precision-Within : (s : List ℕ) (args : List Arg) → Within (length s) (scan_precision s args)
unfolding scan_precision
scan_precision-Within [] args = omega arith
scan_precision-Within (c ∷ s) args =
    either-Within (suc (length s)) (c == b'.') (scan_precision_number s args)
      (some (negsuc 0, c ∷ s, args))
      (Within-weaken _ _ _ (omega arith) (scan_precision_number-Within s args)) (omega arith)

abbrev Shorter : ℕ → Option (Item × List ℕ × List Arg) → Type 0
Shorter n none = Unit {0}
Shorter n (some (item, s, args)) = length s ≤ n

behind-Shorter :
    (n : ℕ) (s : List ℕ) (r : Option (Item × List Arg)) → length s ≤ n → Shorter n (behind s r)
behind-Shorter n s none h = tt
behind-Shorter n s (some (item, args)) h = h

conversion-Shorter :
    (n : ℕ) (long : Bool) (s : List ℕ) (args : List Arg)
    → length s ≤ n
    → Shorter n (conversion long s args)
unfolding conversion
conversion-Shorter n long [] args h = h
conversion-Shorter n long (c ∷ s) args h = elim (Bool-cases (c == b'l' || c == b'z')) [
  | inl e ↦ rw (e, conversion) (conversion-Shorter n true s args (omega arith))
  | inr e ↦ rw (e, conversion) (behind-Shorter n s (item_of c long args) (omega arith))
]

-- What a directive leaves of the format.
abbrev Leaves : ℕ → Option Step → Type 0
Leaves n none = Unit {0}
Leaves n (some d) = length d.rest ≤ n

painted-Leaves :
    (n c : ℕ) (s : List ℕ) (args : List Arg) (r : Option (List ℕ))
    → length s ≤ n
    → Leaves n (painted c s args r)
painted-Leaves n c s args none h = tt
painted-Leaves n c s args (some t) h = h

with_item-Leaves :
    (n c : ℕ) (f : Flags) (w p : ℤ) (r : Option (Item × List ℕ × List Arg))
    → Shorter n r
    → Leaves n (with_item c f w p r)
with_item-Leaves n c f w p none h = tt
with_item-Leaves n c f w p (some (color now, s, args)) h = h
with_item-Leaves n c f w p (some (signed x, s, args)) h = painted-Leaves n c s args _ h
with_item-Leaves n c f w p (some (unsigned v b a, s, args)) h = painted-Leaves n c s args _ h
with_item-Leaves n c f w p (some (text t, s, args)) h = painted-Leaves n c s args _ h

with_precision-Leaves :
    (n c : ℕ) (f : Flags) (w : ℤ) (r : Option (ℤ × List ℕ × List Arg))
    → Within n r
    → Leaves n (with_precision c f w r)
with_precision-Leaves n c f w none h = tt
with_precision-Leaves n c f w (some (p, s, args)) h =
    with_item-Leaves n c f w p _ (conversion-Shorter n false s args h)

with_width-Leaves :
    (n c : ℕ) (f : Flags) (r : Option (ℤ × List ℕ × List Arg))
    → Within n r
    → Leaves n (with_width c f r)
with_width-Leaves n c f none h = tt
with_width-Leaves n c f (some (w, s, args)) h =
    with_precision-Leaves n c f w _ (Within-weaken _ n _ h (scan_precision-Within s args))

pub directive-Leaves :
    (c : ℕ) (s : List ℕ) (args : List Arg) → Leaves (length s) (directive c s args)
unfolding directive
directive-Leaves c s args = with_width-Leaves (length s) c _ _ (
    Within-weaken _ _ _ (length-scan_flags no_flags s)
      (scan_width-Within (scan_flags no_flags s).1 args))

after-finished : (calls : List Call) (r : Printing) → r ≢ unfinished → after calls r ≢ unfinished
after-finished calls (printed more) h = λ e. cc e
after-finished calls undefined h = λ e. cc e
after-finished calls unfinished h = λ e. h refl

printf_loop-finished :
    (fuel c : ℕ) (s : List ℕ) (args : List Arg)
    → length s < fuel
    → printf_loop fuel c s args ≢ unfinished
unfolding printf_loop
printf_loop-finished zero c s args h = absurd (omega arith)
printf_loop-finished (suc fuel) c [] args h = λ e. cc e
printf_loop-finished (suc fuel) c (x ∷ s) args h = elim (Bool-cases (x == b'%')) [
  | inr e ↦
      rw (e, printf_loop)
        (after-finished ((x, c) ∷ []) (printf_loop fuel c s args)
          (printf_loop-finished fuel c s args (omega arith)))
  | inl e ↦ elim (Option-cases (directive c s args)) [
    | inl none_left ↦ rw (e, none_left, printf_loop) (λ z. cc z)
    | inr (d, step) ↦
        rw (e, step, printf_loop)
          (after-finished d.calls (printf_loop fuel d.now d.rest d.args) (
            printf_loop-finished fuel d.now d.rest d.args
              (omega (arith, subst (Leaves (length s)) step (directive-Leaves c s args)))))
  ]
]

-- `printer_vprintf` comes to the end of every format, whatever directives it holds.
pub printer_vprintf_total :
    (c : ℕ) (format : List ℕ) (args : List Arg) → printer_vprintf c format args ≢ unfinished
unfolding printer_vprintf
printer_vprintf_total c format args =
    printf_loop-finished (suc (length format)) c format args (omega arith)
