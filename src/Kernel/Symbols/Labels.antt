-- ===== src/Kernel/Symbols/Labels.antt =====
-- What `lookup_symbol` of pset4/k-hardware.cc does where labels share a function's address.
use cs61_f18_psets.Base.{
  ℕ, zero, suc, ◌+◌, ◌-◌, ◌/◌, ◌^◌, ◌≤◌, ◌<◌, ◌≡◌, ◌≢◌, refl, ap, true, false, some, none, List, [],
  ◌∷◌, ◌++◌, map, length, arith, ltb,
}
use cs61_f18_psets.Kernel.Symbols.{
  ElfSymbol, symbol_at, covers, lookup_loop, symtab_entry, lookup_symbol,
}

module _ (value size name : ℕ) where
  -- Labels and a function at one address, in the order of their sizes.
  abbrev pub labelled : List ℕ → List ElfSymbol
  labelled labels =
      map (λ label. record { st_name = label; st_value = value; st_size = 0 }) labels
      ++ (record { st_name = name; st_value = value; st_size = size } ∷ [])

  length-labelled : (labels : List ℕ) → length (labelled labels) ≡ length labels + 1
  length-labelled [] = refl
  length-labelled (a ∷ labels) = omega (arith, length-labelled labels)

  value_at :
      (labels : List ℕ) (i : ℕ)
      → i ≤ length labels
      → (symbol_at (labelled labels) i).st_value ≡ value
  value_at [] zero h = refl
  value_at [] (suc i) h = absurd (omega arith)
  value_at (a ∷ labels) zero h = refl
  value_at (a ∷ labels) (suc i) h = value_at labels i (omega arith)

  size_at :
      (labels : List ℕ) (i : ℕ) → i < length labels → (symbol_at (labelled labels) i).st_size ≡ 0
  size_at [] i h = absurd (omega arith)
  size_at (a ∷ labels) zero h = refl
  size_at (a ∷ labels) (suc i) h = size_at labels i (omega arith)

  function_at : (labels : List ℕ) → (symbol_at (labelled labels) (length labels)).st_size ≡ size
  function_at [] = refl
  function_at (a ∷ labels) = function_at labels

  -- A label covers nothing, as the symbol behind it has its address.
  label-covers :
      (labels : List ℕ) (i : ℕ) → i < length labels → covers (labelled labels) value i ≡ false
  unfolding covers
  label-covers labels i h =
      let at = value_at labels i (omega arith) in
      let behind = value_at labels (i + 1) (omega arith) in
      let empty = size_at labels i h in let count = length-labelled labels in ground arith

  -- Every probe below the middle hits a label, and the search goes down from it.
  goes_down :
      (labels : List ℕ) (fuel r : ℕ)
      → r < fuel
      → r ≤ length labels + 1
      → 2 ≤ length labels
      → lookup_loop (labelled labels) value fuel 0 r ≡ some none
  unfolding lookup_loop
  goes_down labels zero r lt le two = absurd (omega arith)
  goes_down labels (suc fuel) zero lt le two = refl
  goes_down labels (suc fuel) (suc r) lt le two =
      let m = 0 + (suc r - 0) / 2 in
      let none_here = label-covers labels m (omega arith) in
      let same = value_at labels m (omega arith) in
      let between : ltb 0 (suc r) ≡ true = ground arith in
      let down : ltb value value ≡ false = ground arith in
      rw (between, none_here, same, down) (goes_down labels fuel m (omega arith) (omega arith) two)

  -- In a table of two or more labels and a function behind them, all at one address and nothing else:
  -- the function covers the address, but the search gives no answer for it.
  pub function_hidden :
      (labels : List ℕ) (entry : ℕ)
      → 2 ≤ length labels
      → size ≢ 0
      → value + size < 2 ^ 64
      → (covers (labelled labels) value (length labels) ≡ true)
        × (lookup_symbol (labelled labels) entry value ≡ (symtab_entry entry, some none))
  unfolding covers lookup_symbol
  function_hidden labels entry two some_bytes small =
      let at = value_at labels (length labels) (omega arith) in
      let here = function_at labels in
      let count = length-labelled labels in
      (
        ground arith,
        ap (λ o. (symtab_entry entry, o))
            (goes_down labels (suc (length (labelled labels))) (length (labelled labels))
              (omega arith) (omega arith) two),
      )
