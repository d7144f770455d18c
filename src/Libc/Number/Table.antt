-- ===== src/Libc/Number/Table.antt =====
-- The digit tables of `fill_numbuf` against the digits that `strtoul` reads.
use cs61_f18_psets.Base.{
  ℕ, zero, suc, ◌+◌, ◌≤◌, ◌<◌, ◌≡◌, ◌≢◌, inl, inr, refl, some, List, [], ◌∷◌, ltb, if◌then◌else◌,
  Bool-cases, arith, get_or, ltb→lt, ltb→le,
}
use cs61_f18_psets.Libc.Number.{digit_of, upper_digits, lower_digits}

upper_lem : (d : ℕ) → d < 16 → get_or upper_digits d 0 ≡ (if ltb d 10 then 48 + d else 55 + d)
upper_lem zero h = refl
upper_lem (suc zero) h = refl
upper_lem (suc (suc zero)) h = refl
upper_lem (suc (suc (suc zero))) h = refl
upper_lem (suc (suc (suc (suc zero)))) h = refl
upper_lem (suc (suc (suc (suc (suc zero))))) h = refl
upper_lem (suc (suc (suc (suc (suc (suc zero)))))) h = refl
upper_lem (suc (suc (suc (suc (suc (suc (suc zero))))))) h = refl
upper_lem (suc (suc (suc (suc (suc (suc (suc (suc zero)))))))) h = refl
upper_lem (suc (suc (suc (suc (suc (suc (suc (suc (suc zero))))))))) h = refl
upper_lem (suc (suc (suc (suc (suc (suc (suc (suc (suc (suc zero)))))))))) h = refl
upper_lem (suc (suc (suc (suc (suc (suc (suc (suc (suc (suc (suc zero))))))))))) h = refl
upper_lem (suc (suc (suc (suc (suc (suc (suc (suc (suc (suc (suc (suc zero)))))))))))) h = refl
upper_lem (suc (suc (suc (suc (suc (suc (suc (suc (suc (suc (suc (suc (suc zero))))))))))))) h =
    refl
upper_lem (suc (suc (suc (suc (suc (suc (suc (suc (suc (suc (suc (suc (suc (suc zero))))))))))))))
      h =
    refl
upper_lem
      (suc (suc (suc (suc (suc (suc (suc (suc (suc (suc (suc (suc (suc (suc (suc zero)))))))))))))))
      h =
    refl
upper_lem
      (suc
        (suc (suc (suc (suc (suc (suc (suc (suc (suc (suc (suc (suc (suc (suc (suc d))))))))))))))))
      h =
    absurd (omega arith)

lower_lem : (d : ℕ) → d < 16 → get_or lower_digits d 0 ≡ (if ltb d 10 then 48 + d else 87 + d)
lower_lem zero h = refl
lower_lem (suc zero) h = refl
lower_lem (suc (suc zero)) h = refl
lower_lem (suc (suc (suc zero))) h = refl
lower_lem (suc (suc (suc (suc zero)))) h = refl
lower_lem (suc (suc (suc (suc (suc zero))))) h = refl
lower_lem (suc (suc (suc (suc (suc (suc zero)))))) h = refl
lower_lem (suc (suc (suc (suc (suc (suc (suc zero))))))) h = refl
lower_lem (suc (suc (suc (suc (suc (suc (suc (suc zero)))))))) h = refl
lower_lem (suc (suc (suc (suc (suc (suc (suc (suc (suc zero))))))))) h = refl
lower_lem (suc (suc (suc (suc (suc (suc (suc (suc (suc (suc zero)))))))))) h = refl
lower_lem (suc (suc (suc (suc (suc (suc (suc (suc (suc (suc (suc zero))))))))))) h = refl
lower_lem (suc (suc (suc (suc (suc (suc (suc (suc (suc (suc (suc (suc zero)))))))))))) h = refl
lower_lem (suc (suc (suc (suc (suc (suc (suc (suc (suc (suc (suc (suc (suc zero))))))))))))) h =
    refl
lower_lem (suc (suc (suc (suc (suc (suc (suc (suc (suc (suc (suc (suc (suc (suc zero))))))))))))))
      h =
    refl
lower_lem
      (suc (suc (suc (suc (suc (suc (suc (suc (suc (suc (suc (suc (suc (suc (suc zero)))))))))))))))
      h =
    refl
lower_lem
      (suc
        (suc (suc (suc (suc (suc (suc (suc (suc (suc (suc (suc (suc (suc (suc (suc d))))))))))))))))
      h =
    absurd (omega arith)

digit_number : (base d : ℕ) → d < base → d < 10 → digit_of base (48 + d) ≡ some d
unfolding digit_of
digit_number base d lt h = ground arith

upper_letter : (base d : ℕ) → d < base → base ≤ 16 → 10 ≤ d → digit_of base (55 + d) ≡ some d
unfolding digit_of
upper_letter base d lt h le = ground arith

lower_letter : (base d : ℕ) → d < base → base ≤ 16 → 10 ≤ d → digit_of base (87 + d) ≡ some d
unfolding digit_of
lower_letter base d lt h le = ground arith

-- No space, no sign and no part of a prefix but `0`.
abbrev pub Plain : ℕ → Type 0
Plain c = (48 ≤ c) × ((c ≤ 102) × (c ≢ 88))

abbrev pub AllPlain : List ℕ → Type 0
AllPlain [] = Unit {0}
AllPlain (c ∷ s) = Plain c × AllPlain s

-- A table whose first `base` characters are the digits.
abbrev pub Table : List ℕ → ℕ → Type 0
Table table base =
    (d : ℕ) → d < base → (digit_of base (get_or table d 0) ≡ some d) × Plain (get_or table d 0)

pub upper-Table : (base : ℕ) → base ≤ 16 → Table upper_digits base
upper-Table base h d lt = elim (Bool-cases (ltb d 10)) [
  | inl e ↦
      rw (upper_lem d (omega arith), e)
        (
          digit_number base d lt (ltb→lt _ _ e),
          (omega arith, (omega (arith, ltb→lt _ _ e), λ z. omega (arith, ltb→lt _ _ e))),
        )
  | inr e ↦
      rw (upper_lem d (omega arith), e)
        (upper_letter base d lt h (ltb→le _ _ e), (omega arith, (omega arith, λ z. omega arith)))
]

pub lower-Table : (base : ℕ) → base ≤ 16 → Table lower_digits base
lower-Table base h d lt = elim (Bool-cases (ltb d 10)) [
  | inl e ↦
      rw (lower_lem d (omega arith), e)
        (
          digit_number base d lt (ltb→lt _ _ e),
          (omega arith, (omega (arith, ltb→lt _ _ e), λ z. omega (arith, ltb→lt _ _ e))),
        )
  | inr e ↦
      rw (lower_lem d (omega arith), e)
        (
          lower_letter base d lt h (ltb→le _ _ e),
          (omega arith, (omega arith, λ z. omega (arith, ltb→le _ _ e))),
        )
]
