-- ===== src/BaseAlloc/Blocks.antt =====
-- How often a block occurs in the lists of pset1/basealloc.cc, and what a pointer finds there.
use cs61_f18_psets.Base.{
  ℕ, zero, suc, ◌+◌, ◌≤◌, ◌<◌, ◌⊎◌, ◌≡◌, ◌≢◌, true, false, none, some, List, [], ◌∷◌, ◌++◌, get_or,
  set, length, ==_iff, ◌==◌, if◌then◌else◌, inl, inr, Bool-cases, refl, ap, sym, ◌∙◌, arith,
}
use cs61_f18_psets.BaseAlloc.{find, assign, insert, erase, back, pop_back}

abbrev pub hit : ℕ → ℕ → ℕ
hit p a = if p == a then 1 else 0

-- The entries for the pointer `a`.
abbrev pub count : ℕ → List (ℕ × ℕ) → ℕ
count a [] = 0
count a ((p, n) ∷ s) = hit p a + count a s

pub hit_self : (p : ℕ) → hit p p ≡ 1
hit_self p = rw ((==_iff p p).1 refl) refl

pub hit-cases : (p a : ℕ) → ((p ≡ a) × (hit p a ≡ 1)) ⊎ (hit p a ≡ 0)
hit-cases p a = elim (Bool-cases (p == a)) [
  | inl z ↦ inl ((==_iff p a).0 z, rw z refl)
  | inr z ↦ inr (rw z refl)
]

pub count-append : (a : ℕ) (s t : List (ℕ × ℕ)) → count a (s ++ t) ≡ count a s + count a t
count-append a [] t = omega arith
count-append a ((p, n) ∷ s) t = omega (arith, count-append a s t)

find_here : (a p n : ℕ) (s : List (ℕ × ℕ)) → (p == a) ≡ true → find a ((p, n) ∷ s) ≡ some n
find_here a p n s z = rw z refl

find_on : (a p n : ℕ) (s : List (ℕ × ℕ)) → (p == a) ≡ false → find a ((p, n) ∷ s) ≡ find a s
find_on a p n s z = rw z refl

pub find-count : (a : ℕ) (s : List (ℕ × ℕ)) → count a s ≡ 0 → find a s ≡ none
find-count a [] h = refl
find-count a ((p, n) ∷ s) h = elim (Bool-cases (p == a)) [
  | inl z ↦ absurd (let e : hit p a ≡ 1 = rw z refl in omega arith)
  | inr z ↦ rw z (find-count a s (omega arith))
]

pub count-find : (a n : ℕ) (s : List (ℕ × ℕ)) → find a s ≡ some n → 1 ≤ count a s
count-find a n [] h = cc h
count-find a n ((p, m) ∷ s) h = elim (Bool-cases (p == a)) [
  | inl z ↦ let e : hit p a ≡ 1 = rw z refl in omega arith
  | inr z ↦ omega (arith, count-find a n s (sym (find_on a p m s z) ∙ h))
]

-- Both ways to add an entry put it at the end when the pointer has none.
pub assign-none : (p n : ℕ) (s : List (ℕ × ℕ)) → find p s ≡ none → assign p n s ≡ s ++ ((p, n) ∷ [])
assign-none p n [] h = refl
assign-none p n ((q, m) ∷ s) h = elim (Bool-cases (q == p)) [
  | inl z ↦ cc (h, find_here p q m s z)
  | inr z ↦ rw z (ap (λ rest. (q, m) ∷ rest) (assign-none p n s (sym (find_on p q m s z) ∙ h)))
]

pub insert-none :
    (p n : ℕ) (s : List (ℕ × ℕ)) → find p s ≡ none → insert (p, n) s ≡ s ++ ((p, n) ∷ [])
insert-none p n [] h = refl
insert-none p n ((q, m) ∷ s) h = elim (Bool-cases (q == p)) [
  | inl z ↦ cc (h, find_here p q m s z)
  | inr z ↦ rw z (ap (λ rest. (q, m) ∷ rest) (insert-none p n s (sym (find_on p q m s z) ∙ h)))
]

pub find-append_self :
    (p n : ℕ) (s : List (ℕ × ℕ)) → find p s ≡ none → find p (s ++ ((p, n) ∷ [])) ≡ some n
find-append_self p n [] h = rw ((==_iff p p).1 refl) refl
find-append_self p n ((q, m) ∷ s) h = elim (Bool-cases (q == p)) [
  | inl z ↦ cc (h, find_here p q m s z)
  | inr z ↦
      find_on p q m (s ++ ((p, n) ∷ [])) z ∙ find-append_self p n s (sym (find_on p q m s z) ∙ h)
]

pub find-append_ne : (p n q : ℕ) (s : List (ℕ × ℕ)) → q ≢ p → find q (s ++ ((p, n) ∷ [])) ≡ find q s
find-append_ne p n q [] ne = elim (Bool-cases (p == q)) [
  | inl z ↦ absurd (ne (sym ((==_iff p q).0 z)))
  | inr z ↦ rw z refl
]
find-append_ne p n q ((r, m) ∷ s) ne =
    ap (λ rest. if r == q then some m else rest) (find-append_ne p n q s ne)

pub count-erase :
    (p n a : ℕ) (s : List (ℕ × ℕ)) → find p s ≡ some n → count a s ≡ hit p a + count a (erase p s)
count-erase p n a [] h = cc h
count-erase p n a ((q, m) ∷ s) h = elim (Bool-cases (q == p)) [
  | inl z ↦ rw (z, (==_iff q p).0 z) refl
  | inr z ↦ rw z (omega (arith, count-erase p n a s (sym (find_on p q m s z) ∙ h)))
]

pub find-erase_ne : (p q : ℕ) (s : List (ℕ × ℕ)) → q ≢ p → find q (erase p s) ≡ find q s
find-erase_ne p q [] ne = refl
find-erase_ne p q ((r, m) ∷ s) ne = elim (Bool-cases (r == p)) [
  | inl z ↦ elim (Bool-cases (r == q)) [
    | inl same ↦ absurd (ne (sym ((==_iff r q).0 same) ∙ (==_iff r p).0 z))
    | inr other ↦ rw (z, other) refl
  ]
  | inr z ↦ rw z (ap (λ rest. if r == q then some m else rest) (find-erase_ne p q s ne))
]

count-pop_back :
    (a p n : ℕ) (s : List (ℕ × ℕ))
    → count a ((p, n) ∷ s) ≡ hit (back ((p, n) ∷ s)).0 a + count a (pop_back ((p, n) ∷ s))
count-pop_back a p n [] = omega arith
count-pop_back a p n ((q, m) ∷ s) = omega (arith, count-pop_back a q m s)

-- `f = frees.back(); frees.pop_back();` takes out the one block `f`.
pub count-swap :
    (a i : ℕ) (s : List (ℕ × ℕ))
    → i < length s
    → count a s ≡ hit (get_or s i (0, 0)).0 a + count a (pop_back (set s i (back s)))
count-swap a i [] lt = absurd (omega arith)
count-swap a zero ((p, n) ∷ []) lt = omega arith
count-swap a (suc i) ((p, n) ∷ []) lt = absurd (omega arith)
count-swap a zero ((p, n) ∷ (q, m) ∷ s) lt = omega (arith, count-pop_back a q m s)
count-swap a (suc zero) ((p, n) ∷ (q, m) ∷ s) lt =
    omega (arith, count-swap a zero ((q, m) ∷ s) (omega arith))
count-swap a (suc (suc i)) ((p, n) ∷ (q, m) ∷ s) lt =
    omega (arith, count-swap a (suc i) ((q, m) ∷ s) (omega arith))
