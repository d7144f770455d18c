-- ===== src/BaseAlloc/Given.antt =====
-- What one call of `base_malloc` in pset1/basealloc.cc does to the lists of blocks.
use native.Mathlib.Nat.{mod-lt}
use mathlib.Core.Path.{subst}
use cs61_f18_psets.Base.{
  ℕ, zero, suc, ◌+◌, ◌≤◌, ◌<◌, ◌%◌, ◌≡◌, ◌⊎◌, inl, inr, Bool, true, false, Option, none, some, List,
  [], All, sym, ◌∷◌, ◌++◌, get_or, length, ltb, leb, ltb→lt, ◌==◌, if◌then◌else◌, Bool-cases, refl,
  ap, ◌∙◌, arith,
}
use cs61_f18_psets.BaseAlloc.{
  Heap, Allocator, find, assign, alloc_random, reuse, try_frees, reuse_or_new, record_allocation,
  base_malloc,
}
use cs61_f18_psets.BaseAlloc.Entries.{All-append, All-get_or, All-swap}
use cs61_f18_psets.BaseAlloc.Blocks.{
  hit, hit_self, hit-cases, count, count-append, find-count, assign-none, insert-none, count-swap,
}

leb→le : (a b : ℕ) → leb a b ≡ true → a ≤ b
leb→le a b h = ground arith

-- What the C library says of `malloc`: a block that it returns is not in use and has the bytes that were
-- asked for; it takes no block away, and changes the size of none.
pub record Separate (heap : Heap) : Type 0 where
  pub holds : heap.State → ℕ → Bool
  pub bytes : heap.State → ℕ → ℕ
  pub malloc_new :
      (sz p : ℕ) (st : heap.State)
      → (heap.malloc sz st).0 ≡ some p
      → (holds st p ≡ false)
        × (holds (heap.malloc sz st).1 p ≡ true)
        × (sz ≤ bytes (heap.malloc sz st).1 p)
  pub malloc_keeps :
      (sz p : ℕ) (st : heap.State)
      → holds st p ≡ true
      → (holds (heap.malloc sz st).1 p ≡ true) × (bytes (heap.malloc sz st).1 p ≡ bytes st p)

module _ (heap : Heap) (laws : Separate heap) where
  open heap use {State, malloc}
  open laws use {holds, bytes, malloc_new, malloc_keeps}

  -- The sizes that a list gives are not beyond those of the C library's blocks.
  abbrev pub Sized : State → List (ℕ × ℕ) → Type 0
  Sized st s = All (λ (f : ℕ × ℕ). f.1 ≤ bytes st f.0) s

  -- No block is in the allocator's lists twice, and the C library still holds each of them, with the
  -- bytes that the list says at least.
  pub record IsValid (b : Allocator) (st : State) : Type 0 where
    pub enabled : b.disabled ≡ false
    pub unique : (a : ℕ) → count a b.allocs + count a b.frees ≤ 1
    pub held : (a : ℕ) → 1 ≤ count a b.allocs + count a b.frees → holds st a ≡ true
    pub sized_allocs : Sized st b.allocs
    pub sized_frees : Sized st b.frees

  -- The C library still has the blocks of `st`, as large as they were.
  abbrev Keeps : State → State → Type 0
  Keeps st st' = (a : ℕ) → holds st a ≡ true → (holds st' a ≡ true) × (bytes st' a ≡ bytes st a)

  Keeps-Sized :
      (st st' : State) (s : List (ℕ × ℕ))
      → Keeps st st'
      → ((a : ℕ) → 1 ≤ count a s → holds st a ≡ true)
      → Sized st s
      → Sized st' s
  Keeps-Sized st st' [] keeps h z = tt
  Keeps-Sized st st' ((p, n) ∷ s) keeps h (fits, z) = (
    omega (arith, (keeps p (h p (omega (arith, hit_self p)))).1),
    Keeps-Sized st st' s keeps (λ a some_entry. h a (omega arith)) z,
  )

  enough :
      {A B : Type 0} (sz : ℕ) {m : ℕ} → A × B × ((if sz == 0 then 1 else sz) ≤ m) → A × B × (sz ≤ m)
  enough sz (a, b, le) = (a, b, ground arith)

  -- What `base_malloc` does to a valid allocator.
  pub record Given (sz : ℕ) (b : Allocator) (res : Option ℕ × (Allocator × State)) : Type 0 where
    pub valid : IsValid res.1.0 res.1.1
    pub keeps :
        (a : ℕ)
        → count a b.allocs + count a b.frees ≤ count a res.1.0.allocs + count a res.1.0.frees
    pub result :
        ((res.0 ≡ none) × (res.1.0.allocs ≡ b.allocs))
        ⊎ ((f : ℕ × ℕ) × (sz ≤ f.1)
            × (f.1 ≤ bytes res.1.1 f.0)
            × (res.0 ≡ some f.0)
            × (find f.0 b.allocs ≡ none)
            × (res.1.0.allocs ≡ b.allocs ++ (f ∷ [])))

  absent_count : (n p : ℕ) (st : State) → (1 ≤ n → holds st p ≡ true) → holds st p ≡ false → n ≡ 0
  absent_count zero p st h e = refl
  absent_count (suc n) p st h e = cc (h (omega arith), e)

  -- A block that is in no list joins the active ones.
  Given-append :
      (sz p n : ℕ) (b b' : Allocator) (st : State)
      → b'.disabled ≡ false
      → b'.allocs ≡ b.allocs ++ ((p, n) ∷ [])
      → sz ≤ n
      → n ≤ bytes st p
      → Sized st b.allocs
      → Sized st b'.frees
      → find p b.allocs ≡ none
      → ((a : ℕ)
          → count a b.allocs + count a b.frees ≤ hit p a + count a b.allocs + count a b'.frees)
      → ((a : ℕ) → hit p a + count a b.allocs + count a b'.frees ≤ 1)
      → ((a : ℕ) → 1 ≤ hit p a + count a b.allocs + count a b'.frees → holds st a ≡ true)
      → Given sz b (some p, (b', st))
  Given-append sz p n b b' st on e fits room sa sf none_yet all_kept one_each all_held =
      let total : (a : ℕ) → count a b'.allocs ≡ count a b.allocs + (hit p a + 0) =
        λ a. ap (count a) e ∙ count-append a b.allocs ((p, n) ∷ []) in
      record {
        valid = record {
          enabled = on;
          unique = λ a. omega (arith, total a, one_each a);
          held = λ a some_entry. all_held a (omega (arith, total a));
          sized_allocs = subst (Sized st) (sym e) (All-append _ b.allocs _ sa (room, tt));
          sized_frees = sf;
        };
        keeps = λ a. omega (arith, total a, all_kept a);
        result = inr ((p, n), fits, room, refl, none_yet, e);
      }

  -- A new block for the pointer `p`.
  Given-new :
      (sz p : ℕ) (b : Allocator) (st st' : State)
      → holds st p ≡ false
      → holds st' p ≡ true
      → sz ≤ bytes st' p
      → Keeps st st'
      → IsValid b st
      → Given sz b (some p, (record b { allocs = assign p sz b.allocs }, st'))
  Given-new sz p b st st' before after room keeps v =
      let absent = absent_count (count p b.allocs + count p b.frees) p st (v.held p) before in
      let none_yet = find-count p b.allocs (omega arith) in
      Given-append sz p sz b (record b { allocs = assign p sz b.allocs }) st' v.enabled
        (assign-none p sz b.allocs none_yet) (omega arith) room
        (Keeps-Sized st st' b.allocs keeps (λ a h. v.held a (omega arith)) v.sized_allocs)
        (Keeps-Sized st st' b.frees keeps (λ a h. v.held a (omega arith)) v.sized_frees) none_yet
        (λ a. omega arith)
        (λ a. elim (hit-cases p a) [
          | inl (same, one) ↦
              subst (λ c. hit p c + count c b.allocs + count c b.frees ≤ 1) same
                (omega (arith, hit_self p))
          | inr other ↦ omega (arith, v.unique a)
        ])
        (λ a some_entry. elim (hit-cases p a) [
          | inl (same, one) ↦ subst (λ c. holds st' c ≡ true) same after
          | inr other ↦ (keeps a (v.held a (omega arith))).0
        ])

  -- The block `frees[i]` again.
  Given-reused :
      (sz i : ℕ) (b : Allocator) (st : State)
      → i < length b.frees
      → sz ≤ (get_or b.frees i (0, 0)).1
      → IsValid b st
      → Given sz b (some (get_or b.frees i (0, 0)).0, (reuse i b, st))
  unfolding reuse
  Given-reused sz i b st lt fits v =
      let f = get_or b.frees i (0, 0) in
      let swap = λ (a : ℕ). count-swap a i b.frees lt in
      let none_yet =
        find-count f.0 b.allocs (omega (arith, swap f.0, hit_self f.0, v.unique f.0)) in
      Given-append sz f.0 f.1 b _ st v.enabled (insert-none f.0 f.1 b.allocs none_yet) fits
        (All-get_or _ b.frees i (0, 0) lt v.sized_frees) v.sized_allocs
        (All-swap _ b.frees i v.sized_frees) none_yet (λ a. omega (arith, swap a))
        (λ a. omega (arith, swap a, v.unique a)) (λ a some_entry. v.held a (omega (arith, swap a)))

  -- What comes before leaves the active blocks as they are.
  Given-from :
      (sz : ℕ) (b b1 : Allocator) (res : Option ℕ × (Allocator × State))
      → b1.allocs ≡ b.allocs
      → ((a : ℕ) → count a b.allocs + count a b.frees ≤ count a b1.allocs + count a b1.frees)
      → Given sz b1 res
      → Given sz b res
  Given-from sz b b1 res e more_kept g = record {
    valid = g.valid;
    keeps = λ a. omega (arith, more_kept a, g.keeps a);
    result = elim g.result [
      | inl (failed, same) ↦ inl (failed, same ∙ e)
      | inr (f, fits, room, gives, none_yet, more) ↦ inr (
        f,
        fits,
        room,
        gives,
        subst (λ s. find f.0 s ≡ none) e none_yet,
        more ∙ ap (λ s. s ++ (f ∷ [])) e,
      )
    ];
  }

  Given-none : (sz : ℕ) (b : Allocator) (st : State) → IsValid b st → Given sz b (none, (b, st))
  Given-none sz b st v = record { valid = v; keeps = λ a. omega arith; result = inl (refl, refl) }

  IsValid-alloc_random : (b : Allocator) (st : State) → IsValid b st → IsValid (alloc_random b).1 st
  unfolding alloc_random
  IsValid-alloc_random b st v = record {
    enabled = v.enabled;
    unique = v.unique;
    held = v.held;
    sized_allocs = v.sized_allocs;
    sized_frees = v.sized_frees;
  }

  allocs-alloc_random : (b : Allocator) → (alloc_random b).1.allocs ≡ b.allocs
  unfolding alloc_random
  allocs-alloc_random b = refl

  Given-random :
      (sz : ℕ) (b : Allocator) (res : Option ℕ × (Allocator × State))
      → Given sz (alloc_random b).1 res
      → Given sz b res
  unfolding alloc_random
  Given-random sz b res g =
      Given-from sz b (alloc_random b).1 res (allocs-alloc_random b) (λ a. omega arith) g

  Given-reused_next :
      (sz i : ℕ) (b : Allocator) (st : State)
      → i < length b.frees
      → sz ≤ (get_or b.frees i (0, 0)).1
      → IsValid (alloc_random b).1 st
      → Given sz
          (alloc_random b).1
          (some (get_or b.frees i (0, 0)).0, (reuse i (alloc_random b).1, st))
  unfolding alloc_random
  Given-reused_next sz i b st lt fits v = Given-reused sz i (alloc_random b).1 st lt fits v

  try_frees-Given :
      (rounds ntries sz : ℕ) (b : Allocator) (st : State)
      → IsValid b st
      → Given sz b ((try_frees rounds ntries sz b).0, ((try_frees rounds ntries sz b).1, st))
  unfolding try_frees
  try_frees-Given zero ntries sz b st v = Given-none sz b st v
  try_frees-Given (suc rounds) ntries sz b st v =
      let v1 = IsValid-alloc_random b st v in
      let i = (alloc_random b).0 % length b.frees in
      elim (Bool-cases (ltb ntries (length b.frees))) [
        | inr z ↦ rw z (Given-none sz b st v)
        | inl z ↦ elim (Bool-cases (leb sz (get_or b.frees i (0, 0)).1)) [
          | inl fits ↦
              rw (z, fits)
                (Given-random sz b _ (
                  Given-reused_next sz i b st
                    (mod-lt (alloc_random b).0 (omega (arith, ltb→lt ntries (length b.frees) z)))
                    (leb→le sz (get_or b.frees i (0, 0)).1 fits) v1))
          | inr big ↦
              rw (z, big)
                (Given-random sz b _
                  (try_frees-Given rounds (ntries + 1) sz (alloc_random b).1 st v1))
        ]
      ]

  record_allocation-Given :
      (sz : ℕ) (b : Allocator) (st : State) (r : Option ℕ × State)
      → ((p : ℕ) → r.0 ≡ some p → (holds st p ≡ false) × (holds r.1 p ≡ true) × (sz ≤ bytes r.1 p))
      → Keeps st r.1
      → IsValid b st
      → Given sz b (record_allocation heap sz b r)
  record_allocation-Given sz b st (none, st') new keeps v = record {
    valid = record {
      enabled = v.enabled;
      unique = v.unique;
      held = λ a some_entry. (keeps a (v.held a some_entry)).0;
      sized_allocs =
          Keeps-Sized st st' b.allocs keeps (λ a h. v.held a (omega arith)) v.sized_allocs;
      sized_frees = Keeps-Sized st st' b.frees keeps (λ a h. v.held a (omega arith)) v.sized_frees;
    };
    keeps = λ a. omega arith;
    result = inl (refl, refl);
  }
  record_allocation-Given sz b st (some p, st') new keeps v =
      let (before, after, room) = new p refl in Given-new sz p b st st' before after room keeps v

  reuse_or_new-Given :
      (sz : ℕ) (b b1 : Allocator) (ptr : Option ℕ) (st : State)
      → Given sz b (ptr, (b1, st))
      → Given sz b (reuse_or_new heap sz (ptr, b1) st)
  unfolding reuse_or_new
  reuse_or_new-Given sz b b1 (some ptr) st g = g
  reuse_or_new-Given sz b b1 none st g = elim g.result [
    | inl (failed, same) ↦ Given-from sz b b1 _ same g.keeps (
        record_allocation-Given sz b1 st (malloc (if sz == 0 then 1 else sz) st)
          (λ p e. enough sz (malloc_new _ p st e)) (λ a. malloc_keeps _ a st) g.valid)
    | inr (f, fits, room, gives, none_yet, more) ↦ cc gives
  ]

  either-Given :
      (sz : ℕ) (b : Allocator) (st : State) (c : Bool) (u w : Option ℕ × Allocator)
      → Given sz b (reuse_or_new heap sz u st)
      → Given sz b (reuse_or_new heap sz w st)
      → Given sz b (reuse_or_new heap sz (if c then u else w) st)
  either-Given sz b st true u w g h = g
  either-Given sz b st false u w g h = h

  enabled-Given :
      (sz : ℕ) (b : Allocator) (d : Bool) (u w : Option ℕ × (Allocator × State))
      → d ≡ false
      → Given sz b w
      → Given sz b (if d then u else w)
  enabled-Given sz b true u w e g = cc e
  enabled-Given sz b false u w e g = g

  from_b1 :
      (sz : ℕ) (b : Allocator) (res : Option ℕ × (Allocator × State))
      → Given sz (record b { atexit_installed = true }) res
      → Given sz b res
  from_b1 sz b res g = Given-from sz b _ res refl (λ a. omega arith) g

  pub base_malloc-Given :
      (sz : ℕ) (b : Allocator) (st : State) → IsValid b st → Given sz b (base_malloc heap sz b st)
  unfolding base_malloc
  base_malloc-Given sz b st v =
      let b1 = record b { atexit_installed = true } in
      let v1 : IsValid b1 st = record {
        enabled = v.enabled;
        unique = v.unique;
        held = v.held;
        sized_allocs = v.sized_allocs;
        sized_frees = v.sized_frees;
      } in
      let b2 = (alloc_random b1).1 in
      let v2 = IsValid-alloc_random b1 st v1 in
      enabled-Given sz b b.disabled _ _ v.enabled (
        either-Given sz b st ((alloc_random b1).0 % 4 == 0) (none, b2) (try_frees 10 0 sz b2)
          (reuse_or_new-Given sz b b2 none st
            (from_b1 sz b _ (Given-random sz b1 _ (Given-none sz b2 st v2))))
          (reuse_or_new-Given sz b _ _ st
            (from_b1 sz b _ (Given-random sz b1 _ (try_frees-Given 10 0 sz b2 st v2)))))
