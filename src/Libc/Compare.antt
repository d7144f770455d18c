-- ===== src/Libc/Compare.antt =====
-- `memcmp`, `strlen`, `strnlen`, `strcmp`, `strncmp` and `strchr` of pset4/lib.cc. A C string is the
-- list of the bytes before its terminator, none of which is zero.
use native.Mathlib.Nat.{add-zero}
use cs61_f18_psets.Base.{
  ℕ, zero, suc, ◌+◌, ◌%◌, ◌<◌, ◌≡◌, ◌↔◌, refl, sym, ap, ◌∙◌, Option, none, some, List, [], ◌∷◌,
  take, ltb, ◌==◌, ==_iff, arith, if◌then◌else◌,
}
use cs61_f18_psets.Base.Int.{ℤ, pos, negsuc, neg}
use cs61_f18_psets.Libc.Mem.{Memory}

-- `(x > y) - (x < y)` for two bytes.
unfoldable pub byte_order : ℕ → ℕ → ℤ
byte_order x y = if ltb y x then pos 1 else if ltb x y then negsuc 0 else pos 0

unfoldable pub memcmp : Memory → ℕ → ℕ → ℕ → ℤ
memcmp m a b zero = pos 0
memcmp m a b (suc n) =
    let rest = memcmp m (a + 1) (b + 1) n in if m a == m b then rest else byte_order (m a) (m b)

unfoldable pub strlen : List ℕ → ℕ
strlen [] = 0
strlen (c ∷ s) = strlen s + 1

unfoldable pub strnlen : List ℕ → ℕ → ℕ
strnlen s zero = 0
strnlen [] (suc n) = 0
strnlen (c ∷ s) (suc n) = strnlen s n + 1

unfoldable pub strcmp : List ℕ → List ℕ → ℤ
strcmp [] [] = byte_order 0 0
strcmp [] (d ∷ b) = byte_order 0 d
strcmp (c ∷ a) [] = byte_order c 0
strcmp (c ∷ a) (d ∷ b) = let rest = strcmp a b in if c == d then rest else byte_order c d

unfoldable pub strncmp : List ℕ → List ℕ → ℕ → ℤ
strncmp a b zero = pos 0
strncmp [] [] (suc n) = byte_order 0 0
strncmp [] (d ∷ b) (suc n) = byte_order 0 d
strncmp (c ∷ a) [] (suc n) = byte_order c 0
strncmp (c ∷ a) (d ∷ b) (suc n) =
    let rest = strncmp a b n in if c == d then rest else byte_order c d

-- The offset of the first `c` in the string, the terminator included.
unfoldable pub strchr : List ℕ → ℕ → Option ℕ
strchr [] c = if c % 256 == 0 then some 0 else none
strchr (d ∷ s) c =
    let rest = strchr s c in
    if d == c % 256 then some 0 else elim rest [ none ↦ none | some i ↦ some (i + 1) ]

abbrev pub NonZero : List ℕ → Type 0
NonZero [] = Unit {0}
NonZero (c ∷ s) = (0 < c) × NonZero s

byte_order-neg : (x y : ℕ) → byte_order y x ≡ neg (byte_order x y)
unfolding byte_order neg
byte_order-neg x y = ground arith

byte_order-zero : (x y : ℕ) → byte_order x y ≡ pos 0 → x ≡ y
unfolding byte_order
byte_order-zero x y h = ground arith

strcmp_zero : (a b : List ℕ) → NonZero a → NonZero b → strcmp a b ≡ pos 0 → a ≡ b
unfolding strcmp
strcmp_zero [] [] ha hb h = refl
strcmp_zero [] (d ∷ b) ha hb h = absurd (omega (arith, byte_order-zero 0 d h, hb.0))
strcmp_zero (c ∷ a) [] ha hb h = absurd (omega (arith, byte_order-zero c 0 h, ha.0))
strcmp_zero (c ∷ a) (d ∷ b) ha hb h = ground (arith, strcmp_zero a b ha.1 hb.1, byte_order-zero c d)

strcmp_same : (a : List ℕ) → strcmp a a ≡ pos 0
unfolding strcmp byte_order
strcmp_same [] = refl
strcmp_same (c ∷ a) = rw ((==_iff c c).1 refl) (strcmp_same a)

strcmp_eq : (a b : List ℕ) → a ≡ b → strcmp a b ≡ pos 0
strcmp_eq a b e = rw (← e) (strcmp_same a)

strcmp-neg : (a b : List ℕ) → strcmp b a ≡ neg (strcmp a b)
unfolding strcmp
strcmp-neg [] [] = byte_order-neg 0 0
strcmp-neg [] (d ∷ b) = byte_order-neg 0 d
strcmp-neg (c ∷ a) [] = byte_order-neg c 0
strcmp-neg (c ∷ a) (d ∷ b) = ground (arith, strcmp-neg a b, byte_order-neg c d)

shift : (a i : ℕ) → a + suc i ≡ a + 1 + i
shift a i = omega arith

memcmp_same :
    (m : Memory) (a b n : ℕ) → memcmp m a b n ≡ pos 0 → (i : ℕ) → i < n → m (a + i) ≡ m (b + i)
unfolding memcmp
memcmp_same m a b zero h i lt = absurd (omega arith)
memcmp_same m a b (suc n) h zero lt =
    ap m (add-zero a) ∙ ground (arith, byte_order-zero (m a) (m b)) ∙ sym (ap m (add-zero b))
memcmp_same m a b (suc n) h (suc i) lt =
    ap m (shift a i)
    ∙ memcmp_same m (a + 1) (b + 1) n (ground (arith, byte_order-zero (m a) (m b))) i (omega arith)
    ∙ sym (ap m (shift b i))

same_memcmp :
    (m : Memory) (a b n : ℕ) → ((i : ℕ) → i < n → m (a + i) ≡ m (b + i)) → memcmp m a b n ≡ pos 0
unfolding memcmp
same_memcmp m a b zero h = refl
same_memcmp m a b (suc n) h =
    let first : m a ≡ m b = sym (ap m (add-zero a)) ∙ h 0 (omega arith) ∙ ap m (add-zero b) in
    rw ((==_iff (m a) (m b)).1 first) (
      same_memcmp m (a + 1) (b + 1) n
        (λ i lt. sym (ap m (shift a i)) ∙ h (suc i) (omega arith) ∙ ap m (shift b i)))

-- `strcmp` answers 0 exactly on equal strings, and changes its sign when they are swapped.
pub strcmp_lem :
    (a b : List ℕ)
    → NonZero a
    → NonZero b
    → ((strcmp a b ≡ pos 0) ↔ (a ≡ b)) × (strcmp b a ≡ neg (strcmp a b))
strcmp_lem a b ha hb = ((strcmp_zero a b ha hb, strcmp_eq a b), strcmp-neg a b)

-- `strncmp` compares the first `n` bytes as `strcmp` compares strings.
pub strncmp-take : (a b : List ℕ) (n : ℕ) → strncmp a b n ≡ strcmp (take n a) (take n b)
unfolding strncmp strcmp byte_order
strncmp-take a b zero = refl
strncmp-take [] [] (suc n) = refl
strncmp-take [] (d ∷ b) (suc n) = refl
strncmp-take (c ∷ a) [] (suc n) = refl
strncmp-take (c ∷ a) (d ∷ b) (suc n) = rw (strncmp-take a b n) refl

-- `memcmp` answers 0 exactly when the two areas hold the same bytes.
pub memcmp_zero :
    (m : Memory) (a b n : ℕ) → (memcmp m a b n ≡ pos 0) ↔ ((i : ℕ) → i < n → m (a + i) ≡ m (b + i))
memcmp_zero m a b n = (memcmp_same m a b n, same_memcmp m a b n)
