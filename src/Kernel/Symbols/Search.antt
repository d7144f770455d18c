-- ===== src/Kernel/Symbols/Search.antt =====
-- The binary search of `lookup_symbol` in pset4/k-hardware.cc.
use cs61_f18_psets.Base.{
  ℕ, zero, suc, ◌+◌, ◌-◌, ◌/◌, ◌^◌, ◌≤◌, ◌<◌, ◌≡◌, ◌≢◌, refl, true, false, Bool-cases, inl, inr, ap,
  ltb→lt, ltb→le, Option, none, some, List, length, ltb, if◌then◌else◌, arith,
}
use cs61_f18_psets.Kernel.Symbols.{
  ElfSymbol, symbol_at, covers, lookup_loop, symtab_entry, lookup_symbol,
}

-- A table in ascending order, whose symbols do not reach into the next ones.
pub record IsTable (syms : List ElfSymbol) : Type 0 where
  pub ascending :
      (i j : ℕ)
      → i < j
      → j < length syms
      → (symbol_at syms i).st_value ≤ (symbol_at syms j).st_value
  pub ends :
      (i j : ℕ)
      → i < j
      → j < length syms
      → (symbol_at syms i).st_value + (symbol_at syms i).st_size ≤ (symbol_at syms j).st_value
  pub small :
      (i : ℕ) → i < length syms → (symbol_at syms i).st_value + (symbol_at syms i).st_size < 2 ^ 64

module _ (syms : List ElfSymbol) (addr : ℕ) where
  -- The one symbol with the address, or that there is none.
  abbrev pub Located : Option (ℕ × ℕ) → Type 0
  Located none = (t : ℕ) → t < length syms → covers syms addr t ≡ false
  Located (some (name, start)) =
      (t : ℕ) × (t < length syms)
      × (covers syms addr t ≡ true)
      × (name ≡ (symbol_at syms t).st_name)
      × (start ≡ (symbol_at syms t).st_value)
      × ((u : ℕ) → u < length syms → covers syms addr u ≡ true → u ≡ t)

  -- A symbol that covers the address stands from `l` on, before `r`.
  abbrev Between : ℕ → ℕ → Type 0
  Between l r = (t : ℕ) → t < length syms → covers syms addr t ≡ true → (l ≤ t) × (t < r)

  -- A symbol that covers the address ends before the next one.
  reaches :
      (table : IsTable syms) (i j : ℕ)
      → i < j
      → j < length syms
      → covers syms addr i ≡ true
      → addr < (symbol_at syms j).st_value
  unfolding covers
  reaches table i j h hj c =
      ground (arith, table.ends i j h hj, table.ascending (i + 1) j, table.small i (omega arith))

  covers_value : (i : ℕ) → covers syms addr i ≡ true → (symbol_at syms i).st_value ≤ addr
  unfolding covers
  covers_value i c = ground arith

  module _ (table : IsTable syms)
      (alone : (i j : ℕ)
        → i < j
        → j < length syms
        → (symbol_at syms i).st_value ≡ addr
        → (symbol_at syms j).st_value ≢ addr) where
    only_one :
        (t u : ℕ)
        → t < length syms
        → u < length syms
        → covers syms addr t ≡ true
        → covers syms addr u ≡ true
        → ¬ (t < u)
    only_one t u ht hu ct cu lt = omega (arith, reaches table t u lt hu ct, covers_value u cu)

    differs : (m t : ℕ) → covers syms addr m ≡ false → covers syms addr t ≡ true → t ≢ m
    differs m t miss c e = cc

    above :
        (m t : ℕ)
        → m < length syms
        → covers syms addr m ≡ false
        → covers syms addr t ≡ true
        → (symbol_at syms m).st_value < addr
        → m < t
    above m t hm miss c lo = grind (arith, differs m t miss c, reaches table t m)

    below :
        (m t : ℕ)
        → m < length syms
        → t < length syms
        → covers syms addr m ≡ false
        → covers syms addr t ≡ true
        → addr ≤ (symbol_at syms m).st_value
        → t < m
    below m t hm ht miss c hi =
        grind (arith, differs m t miss c, covers_value t c, alone m t, table.ascending m t)

    -- The half that the search goes on with has the symbol, if there is one.
    narrowed :
        (l r m : ℕ)
        → m < length syms
        → covers syms addr m ≡ false
        → Between l r
        → Between
            (if ltb (symbol_at syms m).st_value addr then m + 1 else l)
            (if ltb (symbol_at syms m).st_value addr then r else m)
    narrowed l r m hm miss between t ht c =
        elim (Bool-cases (ltb (symbol_at syms m).st_value addr)) [
          | inl up ↦
              let lo = above m t hm miss c (ltb→lt _ _ up) in
              rw up (omega (arith, lo), (between t ht c).1)
          | inr down ↦ rw down ((between t ht c).0, below m t hm ht miss c (ltb→le _ _ down))
        ]

    nowhere :
        (l r t : ℕ) → t < length syms → ltb l r ≡ false → Between l r → covers syms addr t ≡ false
    nowhere l r t ht over between = elim (Bool-cases (covers syms addr t)) [
      | inr miss ↦ miss
      | inl c ↦ absurd (omega (arith, between t ht c, ltb→le l r over))
    ]

    same :
        (t u : ℕ)
        → t < length syms
        → u < length syms
        → covers syms addr t ≡ true
        → covers syms addr u ≡ true
        → u ≡ t
    same t u ht hu ct cu = omega (arith, only_one t u ht hu ct cu, only_one u t hu ht cu ct)

    search :
        (fuel l r : ℕ)
        → r - l < fuel
        → r ≤ length syms
        → Between l r
        → (o : Option (ℕ × ℕ)) × (lookup_loop syms addr fuel l r ≡ some o) × Located o
    unfolding lookup_loop
    search zero l r h hr between = absurd (omega arith)
    search (suc fuel) l r h hr between = elim (Bool-cases (ltb l r)) [
      | inr over ↦ rw over (none, refl, (λ t ht. nowhere l r t ht over between))
      | inl on ↦
          let m : ℕ = l + (r - l) / 2 in
          let lt : l < r = ltb→lt l r on in
          let hm : m < length syms = omega arith in
          elim (Bool-cases (covers syms addr m)) [
            | inl found ↦
                rw (on, found)
                  (some _, refl, (m, hm, found, refl, refl, λ u hu c. same m u hm hu found c))
            | inr miss ↦
                rw (on, miss)
                  (search fuel _ _ (ground arith) (ground arith) (narrowed l r m hm miss between))
          ]
    ]

    -- In a table in order, whose symbols do not overlap and of which no two begin at the address: the
    -- search ends, with the name and the start of the one symbol that covers the address, or with no
    -- answer when no symbol does.
    pub lookup_symbol_lem :
        (entry : ℕ)
        → (o : Option (ℕ × ℕ)) × (lookup_symbol syms entry addr ≡ (symtab_entry entry, some o))
          × Located o
    unfolding lookup_symbol
    lookup_symbol_lem entry =
        let (o, e, h) =
          search (suc (length syms)) 0 (length syms) (omega arith) (omega arith)
            (λ t ht c. (omega arith, ht)) in
        (o, ap (λ u. (symtab_entry entry, u)) e, h)
