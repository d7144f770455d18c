-- ===== src/BaseAlloc/Entries.antt =====
-- A property of all entries of the lists in pset1/basealloc.cc stays when these change.
use mathlib.Core.Path.{subst}
use cs61_f18_psets.Base.{
  ℕ, zero, suc, ◌<◌, ◌≡◌, ◌==◌, ==_iff, Bool-cases, inl, inr, refl, true, false, some, some-inj,
  List, [], ◌∷◌, ◌++◌, get_or, set, length, All, arith,
}
use cs61_f18_psets.BaseAlloc.{find, erase, back, pop_back}

module _ (P : ℕ × ℕ → Type 0) where
  pub All-append : (s t : List (ℕ × ℕ)) → All P s → All P t → All P (s ++ t)
  All-append [] t a b = b
  All-append (f ∷ s) t (p, a) b = (p, All-append s t a b)

  pub All-get_or :
      (s : List (ℕ × ℕ)) (i : ℕ) (d : ℕ × ℕ) → i < length s → All P s → P (get_or s i d)
  All-get_or [] i d lt a = absurd (omega arith)
  All-get_or (f ∷ s) zero d lt (p, a) = p
  All-get_or (f ∷ s) (suc i) d lt (p, a) = All-get_or s i d (omega arith) a

  All-set : (s : List (ℕ × ℕ)) (i : ℕ) (g : ℕ × ℕ) → P g → All P s → All P (set s i g)
  All-set [] i g q a = tt
  All-set (f ∷ s) zero g q (p, a) = (q, a)
  All-set (f ∷ s) (suc i) g q (p, a) = (p, All-set s i g q a)

  All-back : (f : ℕ × ℕ) (s : List (ℕ × ℕ)) → All P (f ∷ s) → P (back (f ∷ s))
  All-back f [] (p, a) = p
  All-back f (g ∷ s) (p, a) = All-back g s a

  All-pop_back : (s : List (ℕ × ℕ)) → All P s → All P (pop_back s)
  All-pop_back [] a = tt
  All-pop_back (f ∷ []) a = tt
  All-pop_back (f ∷ g ∷ s) (p, a) = (p, All-pop_back (g ∷ s) a)

  pub All-swap : (s : List (ℕ × ℕ)) (i : ℕ) → All P s → All P (pop_back (set s i (back s)))
  All-swap [] i a = tt
  All-swap (f ∷ s) i a = All-pop_back _ (All-set (f ∷ s) i _ (All-back f s a) a)

  pub All-erase : (p : ℕ) (s : List (ℕ × ℕ)) → All P s → All P (erase p s)
  All-erase p [] a = tt
  All-erase p ((q, n) ∷ s) (h, a) = elim (Bool-cases (q == p)) [
    | inl z ↦ rw z a
    | inr z ↦ rw z (h, All-erase p s a)
  ]

  pub All-find : (p n : ℕ) (s : List (ℕ × ℕ)) → find p s ≡ some n → All P s → P (p, n)
  All-find p n [] e a = cc e
  All-find p n ((q, m) ∷ s) e (h, a) = elim (Bool-cases (q == p)) [
    | inl z ↦
        let size : m ≡ n = some-inj (cc (e, find_here q m s z)) in
        subst P (cc (size, (==_iff q p).0 z)) h
    | inr z ↦ All-find p n s (cc (e, find_on q m s z)) a
  ]
    where
      find_here : (q m : ℕ) (s : List (ℕ × ℕ)) → (q == p) ≡ true → find p ((q, m) ∷ s) ≡ some m
      find_here q m s z = rw z refl

      find_on : (q m : ℕ) (s : List (ℕ × ℕ)) → (q == p) ≡ false → find p ((q, m) ∷ s) ≡ find p s
      find_on q m s z = rw z refl
