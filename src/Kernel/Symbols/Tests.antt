-- ===== src/Kernel/Symbols/Tests.antt =====
-- Runs of the symbol look-up.
use cs61_f18_psets.Base.{ℕ, ◌≡◌, refl, true, Option, some, none, List, [], ◌∷◌, arith}
use cs61_f18_psets.Kernel.Symbols.{ElfSymbol, covers, lookup_loop, symtab_entry, lookup_symbol}
use cs61_f18_psets.Kernel.Symbols.Search.{IsTable, Located, lookup_symbol_lem}
use cs61_f18_psets.Kernel.Symbols.Labels.{function_hidden}

-- A function, a label without a size, another function.
abbrev symbols : List ElfSymbol
symbols =
    record { st_name = 1; st_value = 0x40000; st_size = 16 }
    ∷ record { st_name = 8; st_value = 0x40020; st_size = 0 }
    ∷ record { st_name = 15; st_value = 0x40030; st_size = 8 }
    ∷ []

symbols-IsTable : IsTable symbols
symbols-IsTable = record {
  ascending = λ i j h hj. grind arith;
  ends = λ i j h hj. grind arith;
  small = λ i h. grind arith;
}

lookup_symbol_lem_example :
    (o : Option (ℕ × ℕ)) × (lookup_symbol symbols 0 0x40025 ≡ (symtab_entry 0, some o))
    × Located symbols 0x40025 o
lookup_symbol_lem_example =
    lookup_symbol_lem symbols 0x40025 symbols-IsTable (λ i j h hj e d. grind arith) 0

lookup_run : lookup_symbol symbols 0 0x40025 ≡ (0x1000083, some (some (8, 0x40020)))
unfolding lookup_symbol lookup_loop covers symtab_entry
lookup_run = refl

function_hidden_example :
    (covers
        (record { st_name = 1; st_value = 100; st_size = 0 }
          ∷ record { st_name = 2; st_value = 100; st_size = 0 }
          ∷ record { st_name = 3; st_value = 100; st_size = 8 }
          ∷ [])
        100
        2
      ≡ true)
    × (lookup_symbol
          (record { st_name = 1; st_value = 100; st_size = 0 }
            ∷ record { st_name = 2; st_value = 100; st_size = 0 }
            ∷ record { st_name = 3; st_value = 100; st_size = 8 }
            ∷ [])
          0
          100
        ≡ (symtab_entry 0, some none))
function_hidden_example =
    function_hidden 100 8 3 (1 ∷ 2 ∷ []) 0 (omega arith) (omega arith) (omega arith)
