-- ===== src/Io/Placed.antt =====
-- Blocks of a file written where they came from, in any order, as pset3/reordercat61.cc writes them.
use native.Mathlib.Nat.{div-mul-le_self, lt-div-mul-add, div-lt_iff_lt-mul, mul-lt-mul_of_pos_right}
use mathlib.Core.Path.{subst}
use cs61_f18_psets.Base.{
  ℕ, zero, suc, ◌+◌, ◌*◌, ◌/◌, ◌≤◌, ◌<◌, ◌≡◌, ◌≢◌, ◌⊎◌, inl, inr, true, false, none, some, List, [],
  ◌∷◌, get_elem?, get_or, set, length, length-set, ==_iff, get_or-set_self, get_or-set_ne, take,
  drop, ◌==◌, Bool-cases, Option-cases, some-inj, refl, ap, sym, ◌∙◌, arith,
}
use cs61_f18_psets.Io.Shuffle.{block_positions}
use cs61_f18_psets.Io.Files.{FileView, write_at}
use cs61_f18_psets.Io.Steps.{drop-none, drop-some}

-- The characters of a buffer, written from an offset on.
abbrev pub write_all : List ℕ → ℕ → List ℕ → List ℕ
write_all bytes p [] = bytes
write_all bytes p (c ∷ buf) = write_all (write_at bytes p c) (p + 1) buf

get_elem?-write_at_self : (bytes : List ℕ) (p c : ℕ) → get_elem? (write_at bytes p c) p ≡ some c
get_elem?-write_at_self [] zero c = refl
get_elem?-write_at_self [] (suc p) c = get_elem?-write_at_self [] p c
get_elem?-write_at_self (x ∷ bytes) zero c = refl
get_elem?-write_at_self (x ∷ bytes) (suc p) c = get_elem?-write_at_self bytes p c

get_elem?-write_at_ne :
    (bytes : List ℕ) (p c i v : ℕ)
    → i ≢ p
    → get_elem? bytes i ≡ some v
    → get_elem? (write_at bytes p c) i ≡ some v
get_elem?-write_at_ne [] p c i v ne e = cc e
get_elem?-write_at_ne (x ∷ bytes) zero c zero v ne e = absurd (ne refl)
get_elem?-write_at_ne (x ∷ bytes) zero c (suc i) v ne e = e
get_elem?-write_at_ne (x ∷ bytes) (suc p) c zero v ne e = e
get_elem?-write_at_ne (x ∷ bytes) (suc p) c (suc i) v ne e =
    get_elem?-write_at_ne bytes p c i v (λ z. ne (ap suc z)) e

length-write_at :
    (bytes : List ℕ) (p c n : ℕ) → length bytes ≤ n → p < n → length (write_at bytes p c) ≤ n
length-write_at [] zero c n h lt = omega arith
length-write_at [] (suc p) c zero h lt = absurd (omega arith)
length-write_at [] (suc p) c (suc n) h lt =
    omega (arith, length-write_at [] p c n (omega arith) (omega arith))
length-write_at (x ∷ bytes) zero c n h lt = h
length-write_at (x ∷ bytes) (suc p) c zero h lt = absurd (omega arith)
length-write_at (x ∷ bytes) (suc p) c (suc n) h lt =
    omega (arith, length-write_at bytes p c n (omega arith) (omega arith))

within : (s : List ℕ) (n c : ℕ) → get_elem? s n ≡ some c → n < length s
within [] n c e = cc e
within (d ∷ s) zero c e = omega arith
within (d ∷ s) (suc n) c e = omega (arith, within s n c e)

beyond : (s : List ℕ) (n : ℕ) → get_elem? s n ≡ none → length s ≤ n
beyond [] n e = omega arith
beyond (c ∷ s) zero e = cc e
beyond (c ∷ s) (suc n) e = omega (arith, beyond s n e)

apart : (i p : ℕ) → (i == p) ≡ false → p ≤ i → p < i
apart i p z le = ground arith

pub same_list :
    (xs ys : List ℕ)
    → length xs ≤ length ys
    → ((i : ℕ) → i < length ys → get_elem? xs i ≡ get_elem? ys i)
    → xs ≡ ys
same_list [] [] h e = refl
same_list [] (y ∷ ys) h e = cc (e 0 (omega arith))
same_list (x ∷ xs) [] h e = absurd (omega arith)
same_list (x ∷ xs) (y ∷ ys) h e =
    cc (
      some-inj (e 0 (omega arith)),
      same_list xs ys (omega arith) (λ i lt. e (suc i) (omega arith)),
    )

abbrev pub view : List ℕ → ℕ → FileView
view bytes offset = record { bytes = bytes; offset = offset }

module _ (input : List ℕ) where
  -- The output holds the input's character at `i`.
  abbrev pub Agrees : List ℕ → ℕ → Type 0
  Agrees bytes i = (v : ℕ) × (get_elem? bytes i ≡ some v) × (get_elem? input i ≡ some v)

  Agrees-write_at :
      (bytes : List ℕ) (p c i : ℕ)
      → get_elem? input p ≡ some c
      → Agrees bytes i
      → Agrees (write_at bytes p c) i
  Agrees-write_at bytes p c i e (v, b, a) = elim (Bool-cases (i == p)) [
    | inl z ↦
        let at = (==_iff i p).0 z in
        (
          c,
          ap (get_elem? (write_at bytes p c)) at ∙ get_elem?-write_at_self bytes p c,
          ap (get_elem? input) at ∙ e,
        )
    | inr z ↦ (v, get_elem?-write_at_ne bytes p c i v (λ at. cc (z, (==_iff i p).1 at)) b, a)
  ]

  -- A block of the input, written where it came from.
  abbrev pub Placed : ℕ → ℕ → List ℕ → List ℕ → Type 0
  Placed n p bytes bytes' =
      ((i : ℕ) → Agrees bytes i → Agrees bytes' i)
      × ((i : ℕ) → p ≤ i → i < p + n → i < length input → Agrees bytes' i)
      × (length bytes ≤ length input → length bytes' ≤ length input)

  pub write_all-Placed :
      (n p : ℕ) (bytes : List ℕ) → Placed n p bytes (write_all bytes p (take n (drop p input)))
  write_all-Placed zero p bytes = (λ i h. h, λ i le lt. absurd (omega arith), λ h. h)
  write_all-Placed (suc n) p bytes = elim (Option-cases (get_elem? input p)) [
    | inl e ↦
        rw (drop-none input p e)
          (λ i h. h, λ i le lt in_file. absurd (omega (arith, beyond input p e)), λ h. h)
    | inr (c, e) ↦
        let (keep, fill, short) = write_all-Placed n (p + 1) (write_at bytes p c) in
        rw (drop-some input p c e) (
          λ i h. keep i (Agrees-write_at bytes p c i e h),
          λ i le lt in_file. elim (Bool-cases (i == p)) [
            | inl z ↦
                let at = (==_iff i p).0 z in
                keep i (
                  c,
                  ap (get_elem? (write_at bytes p c)) at ∙ get_elem?-write_at_self bytes p c,
                  ap (get_elem? input) at ∙ e,
                )
            | inr z ↦ fill i (omega (arith, apart i p z le)) (omega arith) in_file
          ],
          λ h. short (length-write_at bytes p c (length input) h (within input p c e)),
        )
  ]

equal : (a b : ℕ) → (a == b) ≡ true → a ≡ b
equal a b e = (==_iff a b).0 e

different : (a b : ℕ) → (a == b) ≡ false → a ≢ b
different a b e = λ z. cc (e, (==_iff a b).1 z)

-- The array behind `blockpos[index] = blockpos[nblocks - 1];`.
replaced :
    (n index k : ℕ) (blockpos : List ℕ)
    → index < suc n
    → suc n ≤ length blockpos
    → (k == index) ≡ true
    → get_or (set blockpos index (get_or blockpos n 0)) k 0 ≡ get_or blockpos n 0
replaced n index k blockpos lt room e =
    ap (λ j. get_or (set blockpos index (get_or blockpos n 0)) j 0) (equal k index e)
    ∙ get_or-set_self blockpos index (get_or blockpos n 0) 0 (omega arith)

kept :
    (n index k : ℕ) (blockpos : List ℕ)
    → (k == index) ≡ false
    → get_or (set blockpos index (get_or blockpos n 0)) k 0 ≡ get_or blockpos k 0
kept n index k blockpos e =
    get_or-set_ne blockpos index k (get_or blockpos n 0) 0 (λ z. different k index e (sym z))

module _ (input : List ℕ) (block_size : ℕ) where
  -- What is left to do: the first `n` entries of `blockpos` are blocks of the file, the rest of the file is in place.
  pub record Pending (n : ℕ) (blockpos bytes : List ℕ) : Type 0 where
    pub room : n ≤ length blockpos
    pub blocks : (k : ℕ) → k < n → get_or blockpos k 0 * block_size < length input
    pub short : length bytes ≤ length input
    pub rest :
        (i : ℕ)
        → i < length input
        → ((k : ℕ) × (k < n)
            × (get_or blockpos k 0 * block_size ≤ i)
            × (i < get_or blockpos k 0 * block_size + block_size))
          ⊎ Agrees input bytes i

  -- One block is placed, and the last entry takes the place of its own.
  pub Pending-step :
      (n index : ℕ) (blockpos bytes bytes' : List ℕ)
      → index < suc n
      → Pending (suc n) blockpos bytes
      → Placed input block_size (get_or blockpos index 0 * block_size) bytes bytes'
      → Pending n (set blockpos index (get_or blockpos n 0)) bytes'
  Pending-step n index blockpos bytes bytes' lt p (keep, fill, shrink) = record {
    room = omega (arith, length-set {0} blockpos index (get_or blockpos n 0), p.room);
    blocks = λ k below. elim (Bool-cases (k == index)) [
      | inl z ↦
          subst (λ b. b * block_size < length input) (sym (replaced n index k blockpos lt p.room z))
            (p.blocks n (omega arith))
      | inr z ↦
          subst (λ b. b * block_size < length input) (sym (kept n index k blockpos z))
            (p.blocks k (omega arith))
    ];
    short = shrink p.short;
    rest = λ i in_file. elim (p.rest i in_file) [
      | inr agrees ↦ inr (keep i agrees)
      | inl (k, below, from, to) ↦ elim (Bool-cases (k == index)) [
        | inl z ↦
            let at = equal k index z in
            inr (
              fill i (subst (λ j. get_or blockpos j 0 * block_size ≤ i) at from)
                (subst (λ j. i < get_or blockpos j 0 * block_size + block_size) at to) in_file)
        | inr z ↦ elim (Bool-cases (k == n)) [
          | inl last ↦
              let at = equal k n last in
              let new = replaced n index index blockpos lt p.room ((==_iff index index).1 refl) in
              inl (
                index,
                omega (arith, different k index z),
                subst (λ b. b * block_size ≤ i) (sym new)
                    (subst (λ j. get_or blockpos j 0 * block_size ≤ i) at from),
                subst (λ b. i < b * block_size + block_size) (sym new)
                    (subst (λ j. i < get_or blockpos j 0 * block_size + block_size) at to),
              )
          | inr more ↦ inl (
            k,
            omega (arith, different k n more),
            subst (λ b. b * block_size ≤ i) (sym (kept n index k blockpos z)) from,
            subst (λ b. i < b * block_size + block_size) (sym (kept n index k blockpos z)) to,
          )
        ]
      ]
    ];
  }

pub complete :
    (input : List ℕ) (block_size : ℕ) (blockpos bytes : List ℕ)
    → Pending input block_size 0 blockpos bytes
    → bytes ≡ input
complete input block_size blockpos bytes p = same_list bytes input p.short (λ i lt.
    elim (p.rest i lt) [
      | inl (k, below, from, to) ↦ absurd (omega arith)
      | inr (v, b, a) ↦ b ∙ sym a
    ])

length-block_positions : (n i : ℕ) → length (block_positions n i) ≡ n
unfolding block_positions
length-block_positions zero i = refl
length-block_positions (suc n) i = ap suc (length-block_positions n (i + 1))

get_or-block_positions : (n i k : ℕ) → k < n → get_or (block_positions n i) k 0 ≡ i + k
unfolding block_positions
get_or-block_positions zero i k h = absurd (omega arith)
get_or-block_positions (suc n) i zero h = omega arith
get_or-block_positions (suc n) i (suc k) h =
    omega (arith, get_or-block_positions n (i + 1) k (omega arith))

below_size : (k n size : ℕ) → 0 < size → k < n → k * size < n * size
below_size k n size pos lt = mul-lt-mul_of_pos_right lt pos

-- Every block is still to be placed.
pub initial :
    (input : List ℕ) (block_size nblocks : ℕ)
    → 0 < block_size
    → nblocks * block_size ≡ length input
    → Pending input block_size nblocks (block_positions nblocks 0) []
initial input block_size nblocks some_size e = record {
  room = omega (arith, length-block_positions nblocks 0);
  blocks = λ k lt.
      rw (get_or-block_positions nblocks 0 k lt)
        (omega (arith, below_size k nblocks block_size some_size lt));
  short = omega arith;
  rest = λ i lt.
      let k = i / block_size in
      let below : k < nblocks = (div-lt_iff_lt-mul some_size).1 (omega arith) in
      inl (
        k,
        below,
        rw (get_or-block_positions nblocks 0 k below) (omega (arith, div-mul-le_self i block_size)),
        rw (get_or-block_positions nblocks 0 k below)
            (omega (arith, lt-div-mul-add {a = i} some_size)),
      );
}
