-- ===== src/Kernel/Symbols.antt =====
-- `lookup_symbol` of pset4/k-hardware.cc: which function an address belongs to, for backtraces. The
-- symbol table, which build/mkchickadeesymtab.cc writes into the kernel's image, is a parameter; a
-- symbol's name is its offset in the table of strings.
pub mod Search
pub mod Labels
mod Tests
use cs61_f18_psets.Base.{
  ℕ, zero, suc, ◌+◌, ◌-◌, ◌/◌, ◌%◌, ◌^◌, Bool, true, false, ◌&&◌, ◌||◌, Option, none, some, List,
  length, get_or, ltb, leb, ◌==◌, if◌then◌else◌,
}

-- `elf_symbol` of pset4/elf.h.
pub record ElfSymbol : Type 0 where
  pub st_name : ℕ
  pub st_value : ℕ
  pub st_size : ℕ

abbrev pub no_symbol : ElfSymbol
no_symbol = record { st_name = 0; st_value = 0; st_size = 0 }

abbrev pub symbol_at : List ElfSymbol → ℕ → ElfSymbol
symbol_at syms m = get_or syms m no_symbol

-- A symbol without a size reaches up to the next one; addresses have 64 bits.
unfoldable pub covers : List ElfSymbol → ℕ → ℕ → Bool
covers syms addr m =
    let sym = symbol_at syms m in
    leb sym.st_value addr
    && (if sym.st_size == 0
        then (m + 1 == length syms) || ltb addr (symbol_at syms (m + 1)).st_value
        else ltb addr ((sym.st_value + sym.st_size) % 2 ^ 64))

-- The loop, for a number of rounds; `none` outside means that these are used up. The answer is the
-- name and the first address of the symbol.
unfoldable pub lookup_loop : List ElfSymbol → ℕ → ℕ → ℕ → ℕ → Option (Option (ℕ × ℕ))
unfolding covers
lookup_loop syms addr zero l r = none
lookup_loop syms addr (suc fuel) l r =
    let m = l + (r - l) / 2 in
    let sym = symbol_at syms m in
    let up = ltb sym.st_value addr in
    let rest = lookup_loop syms addr fuel (if up then m + 1 else l) (if up then r else m) in
    if ltb l r
    then if covers syms addr m then some (some (sym.st_name, sym.st_value)) else rest
    else some none

-- `kernel_pagetable[2].entry[8]`, through which the table can be read: at 0x1000000 with `PTE_PS`,
-- `PTE_P` and `PTE_W`.
unfoldable pub symtab_entry : ℕ → ℕ
symtab_entry entry = if entry == 0 then 0x1000083 else entry

-- The page table's entry afterwards, and the answer.
unfoldable pub lookup_symbol : List ElfSymbol → ℕ → ℕ → ℕ × Option (Option (ℕ × ℕ))
unfolding lookup_loop symtab_entry
lookup_symbol syms entry addr =
    (symtab_entry entry, lookup_loop syms addr (suc (length syms)) 0 (length syms))
