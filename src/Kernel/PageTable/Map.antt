-- ===== src/Kernel/PageTable/Map.antt =====
-- `vmiter::map` of pset4/k-vmiter.cc. `kalloc` of pset4/kernel.cc comes in by its interface.
use Prim.Native.Nat.{bit_and, bit_or}
use cs61_f18_psets.Base.{
  ℕ, zero, suc, ◌+◌, ◌-◌, ◌%◌, ◌^◌, ◌<◌, ◌≡◌, Bool, true, false, not, ◌&&◌, ◌||◌, Option, none,
  some, ltb, leb, ◌==◌, if◌then◌else◌,
}
use cs61_f18_psets.Kernel.Machine.{Outcome, done, panicked}
use cs61_f18_psets.Kernel.PageTable.{Vmiter, is_present, pa_bits, down}

-- What `map` asks of the page allocator: `kalloc(PAGESIZE)`, and that the pages it gives are aligned,
-- below 2^51 and not held before.
pub record PageSource : Type 1 where
  pub State : Type 0
  pub kalloc : State → Option ℕ × State
  pub holds : State → ℕ → Bool
  pub kalloc_aligned : (p : ℕ) (st : State) → (kalloc st).0 ≡ some p → (p % 4096 ≡ 0) × (p < 2 ^ 51)
  pub kalloc_new :
      (p : ℕ) (st : State)
      → (kalloc st).0 ≡ some p
      → (holds st p ≡ false) × (holds (kalloc st).1 p ≡ true)
  pub kalloc_keeps : (p : ℕ) (st : State) → holds st p ≡ true → holds (kalloc st).1 p ≡ true

abbrev pub page_of : ℕ → ℕ
page_of a = a - a % 4096

-- `memset(pt, 0, PAGESIZE)`.
abbrev pub clear_page : (ℕ → ℕ) → ℕ → ℕ → ℕ
clear_page entries pt a = if leb pt a && ltb a (pt + 4096) then 0 else entries a

-- `*pep = e`.
abbrev pub set_entry : (ℕ → ℕ) → ℕ → ℕ → ℕ → ℕ
set_entry entries pep e a = if a == pep then e else entries a

-- `pt | PTE_P | PTE_W | PTE_U`.
unfoldable pub table_entry : ℕ → ℕ
table_entry pt = pt - pt % 8 + 7

-- Whether one of the assertions on the arguments of `map` fails.
unfoldable pub refused : ℕ → ℕ → Vmiter → Bool
unfolding is_present pa_bits
refused pa perm it =
    not (it.va % 4096 == 0)
    || (if is_present perm then not (pa_bits pa == pa) else is_present pa)
    || not (bit_and (bit_and perm 7) it.perm_bits == bit_and perm 7)

module _ (source : PageSource) where
  open source use {State, kalloc, holds, kalloc_aligned, kalloc_new, kalloc_keeps}

  -- Whether `map` returns 0, the iterator, the entries, and the allocator behind it.
  abbrev pub Mapping : Type 0
  Mapping = Bool × Vmiter × (ℕ → ℕ) × State

  -- The loop that adds page table pages; `none` means that the fuel ran out.
  unfoldable pub map_loop : ℕ → ℕ → Vmiter → (ℕ → ℕ) → State → Option (Outcome Mapping)
  unfolding is_present down table_entry
  map_loop zero perm it entries st = none
  map_loop (suc fuel) perm it entries st =
      if ltb 0 it.level && not (perm == 0)
      then if is_present (entries it.pep) then some panicked else elim (kalloc st).0 [
        | none ↦ some (done (false, it, entries, (kalloc st).1))
        | some pt ↦
            let entries' = set_entry (clear_page entries pt) it.pep (table_entry pt) in
            map_loop fuel perm (down entries' it) entries' (kalloc st).1
      ]
      else some (done (true, it, entries, st))

  -- "if (level_ == 0) { *pep_ = pa | perm; }"
  abbrev pub install : ℕ → ℕ → Option (Outcome Mapping) → Option (Outcome Mapping)
  install pa perm (some (done (true, it, entries, st))) = some (
      done (
        true,
        it,
        if it.level == 0 then set_entry entries it.pep (bit_or pa perm) else entries,
        st,
      ))
  install pa perm r = r

  -- A walk has four levels: the loop has three rounds at most, and one test more.
  unfoldable pub map : ℕ → ℕ → Vmiter → (ℕ → ℕ) → State → Option (Outcome Mapping)
  unfolding map_loop refused
  map pa perm it entries st =
      if refused pa perm it then some panicked else install pa perm (map_loop 4 perm it entries st)
