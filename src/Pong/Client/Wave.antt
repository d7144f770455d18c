-- ===== src/Pong/Client/Wave.antt =====
-- One coordinate of the lone ball of pset6/pong61.cc: it goes up and down between the two sides.
use cs61_f18_psets.Base.{
  ℕ, ◌+◌, ◌-◌, ◌*◌, ◌%◌, ◌<◌, ◌≡◌, ap, ◌∙◌, Bool, true, false, Bool-cases, inl, inr, ltb, ◌==◌,
  if◌then◌else◌, arith,
}
use native.Mathlib.Nat.{mod-lt, mod-eq_of_lt, mod_self, mod-add-mod}

-- The rounds that it takes there and back.
abbrev pub period : ℕ → ℕ
period side = 2 * (side - 1)

-- The coordinate, in a round of the period.
abbrev pub tri : ℕ → ℕ → ℕ
tri side r = if ltb r side then r else period side - r

-- Where the ball is after `n` rounds.
abbrev pub wave : ℕ → ℕ → ℕ
wave side n = tri side (n % period side)

-- Whether it goes up next, if it came up or down to `x`.
abbrev pub goes_up : ℕ → ℕ → Bool → Bool
goes_up side x true = ltb (x + 1) side
goes_up side x false = x == 0

abbrev pub step : ℕ → Bool → ℕ
step x true = x + 1
step x false = x - 1

abbrev next : ℕ → ℕ → ℕ
next p r = if (r + 1) == p then 0 else r + 1

next_mod : (n p : ℕ) → 1 < p → (n + 1) % p ≡ next p (n % p)
next_mod n p h = elim (Bool-cases ((n % p + 1) == p)) [
  | inl last ↦ rw (last, ← mod-add-mod n p 1) (ap (λ m. m % p) (ground arith) ∙ mod_self p)
  | inr more ↦ rw (more, ← mod-add-mod n p 1) (mod-eq_of_lt (ground (arith, mod-lt n {m = p})))
]

step-tri :
    (side r : ℕ)
    → 1 < side
    → r < period side
    → step (tri side r) (ltb r (side - 1)) ≡ tri side (next (period side) r)
step-tri side r h lt = ground arith

tri_turn :
    (side r : ℕ)
    → 1 < side
    → r < period side
    → goes_up side (tri side (next (period side) r)) (ltb r (side - 1))
      ≡ ltb (next (period side) r) (side - 1)
tri_turn side r h lt = ground arith

-- Whether the ball goes up in the next round, after `n` rounds.
abbrev pub up : ℕ → ℕ → Bool
up side n = ltb (n % period side) (side - 1)

pub step-wave : (side n : ℕ) → 1 < side → step (wave side n) (up side n) ≡ wave side (n + 1)
step-wave side n h =
    rw (next_mod n (period side) (omega arith))
      (step-tri side (n % period side) h (mod-lt n (omega arith)))

pub wave_turn :
    (side n : ℕ) → 1 < side → goes_up side (wave side (n + 1)) (up side n) ≡ up side (n + 1)
wave_turn side n h =
    rw (next_mod n (period side) (omega arith))
      (tri_turn side (n % period side) h (mod-lt n (omega arith)))

pub wave_bound : (side n : ℕ) → 1 < side → wave side n < side
wave_bound side n h = ground (arith, mod-lt n {m = period side})

zero_mod : (p : ℕ) → 1 < p → 0 % p ≡ 0
zero_mod p h = mod-eq_of_lt (omega arith)

pub wave_start : (side : ℕ) → 1 < side → wave side 0 ≡ 0
wave_start side h = rw (zero_mod (period side) (omega arith)) (ground arith)

pub up_start : (side : ℕ) → 1 < side → up side 0 ≡ true
up_start side h = rw (zero_mod (period side) (omega arith)) (ground arith)
