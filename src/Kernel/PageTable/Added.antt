-- ===== src/Kernel/PageTable/Added.antt =====
-- The entries that `vmiter::map` of pset4/k-vmiter.cc writes, and the walk over a page that it adds.
use Prim.Native.Nat.{bit_and}
use cs61_f18_psets.Base.{
  ℕ, zero, suc, ◌+◌, ◌-◌, ◌*◌, ◌/◌, ◌%◌, ◌^◌, ◌≤◌, ◌<◌, ◌≡◌, ◌≢◌, true, false, ltb, leb, ltb→lt,
  ◌==◌, ==_iff, inl, inr, Bool-cases, refl, sym, ap, ◌∙◌, arith,
}
use cs61_f18_psets.Kernel.PageTable.{pageindex, entry_at, is_present, is_table, pa_bits, down_loop}
use cs61_f18_psets.Kernel.PageTable.Walk.{
  pageindex-lt, down_loop-zero, down_loop-table, down_loop-stays,
}
use cs61_f18_psets.Kernel.PageTable.Map.{page_of, clear_page, set_entry, table_entry}

is_table-table_entry : (p : ℕ) → p % 4096 ≡ 0 → is_table (table_entry p) ≡ true
unfolding is_table is_present table_entry
is_table-table_entry p aligned =
    let low : (p - p % 8 + 7) % 2 ≡ 1 = omega arith in
    let small : (p - p % 8 + 7) / 128 % 2 ≡ 0 = omega arith in rw (low, small) refl

pa_bits-table_entry : (p : ℕ) → p % 4096 ≡ 0 → p < 2 ^ 51 → pa_bits (table_entry p) ≡ p
unfolding pa_bits table_entry
pa_bits-table_entry p aligned small = omega arith

pub is_present-zero : is_present 0 ≡ false
unfolding is_present
is_present-zero = refl

is_table-zero : is_table 0 ≡ false
unfolding is_table is_present
is_table-zero = refl

cleared : (entries : ℕ → ℕ) (p i : ℕ) → i < 512 → clear_page entries p (entry_at p i) ≡ 0
cleared entries p i lt =
    let from : leb p (p + 8 * i) ≡ true = ground arith in
    let to : ltb (p + 8 * i) (p + 4096) ≡ true = ground arith in rw (from, to) refl

pub set_same : (entries : ℕ → ℕ) (pep e : ℕ) → set_entry entries pep e pep ≡ e
set_same entries pep e = rw ((==_iff pep pep).1 refl) refl

pub set_other : (entries : ℕ → ℕ) (pep e a : ℕ) → a ≢ pep → set_entry entries pep e a ≡ entries a
set_other entries pep e a ne = elim (Bool-cases (a == pep)) [
  | inl z ↦ absurd (ne ((==_iff a pep).0 z))
  | inr z ↦ rw z refl
]

pub page_of-entry : (p i : ℕ) → p % 4096 ≡ 0 → i < 512 → page_of (entry_at p i) ≡ p
page_of-entry p i aligned lt = omega arith

same_page : (p a : ℕ) → p % 4096 ≡ 0 → leb p a ≡ true → ltb a (p + 4096) ≡ true → page_of a ≡ p
same_page p a aligned z y = let from : p ≤ a = ground arith in omega (arith, ltb→lt a (p + 4096) y)

-- A byte outside of the page that is cleared.
pub not_cleared :
    (entries : ℕ → ℕ) (p a : ℕ) → p % 4096 ≡ 0 → page_of a ≢ p → clear_page entries p a ≡ entries a
not_cleared entries p a aligned ne = elim (Bool-cases (leb p a)) [
  | inr z ↦ rw z refl
  | inl z ↦ elim (Bool-cases (ltb a (p + 4096))) [
    | inr y ↦ rw (z, y) refl
    | inl y ↦ absurd (ne (same_page p a aligned z y))
  ]
]

-- The entry that `map` adds leads one level down, to an entry of the new page.
module _ (va level pep perm_bits p : ℕ) (entries : ℕ → ℕ) where
  abbrev pub added : ℕ → ℕ
  added = set_entry (clear_page entries p) pep (table_entry p)

  abbrev pub below : ℕ
  below = entry_at p (pageindex va level)

  pub added-below : p % 4096 ≡ 0 → page_of pep ≢ p → added below ≡ 0
  added-below aligned other =
      set_other (clear_page entries p) pep (table_entry p) below (λ e.
        other (
          ap page_of (sym e)
          ∙ page_of-entry p (pageindex va level) aligned (pageindex-lt va level)))
      ∙ cleared entries p (pageindex va level) (pageindex-lt va level)

  down_loop-below :
      (perm' : ℕ) (level' : ℕ) (e : level' ≡ level)
      → added below ≡ 0
      → down_loop added va level' below perm' ≡ (below, level', perm')
  down_loop-below perm' zero e none_yet = down_loop-zero added va below perm'
  down_loop-below perm' (suc l) e none_yet =
      down_loop-stays added va l below perm' (ap is_table none_yet ∙ is_table-zero)

  pub down_loop-added :
      p % 4096 ≡ 0
      → p < 2 ^ 51
      → page_of pep ≢ p
      → down_loop added va (suc level) pep perm_bits
        ≡ (below, level, bit_and perm_bits (table_entry p))
  down_loop-added aligned small other =
      let entry = set_same (clear_page entries p) pep (table_entry p) in
      down_loop-table added va level pep perm_bits
        (ap is_table entry ∙ is_table-table_entry p aligned)
      ∙ ap
          (λ e.
            down_loop added va level (entry_at (pa_bits e) (pageindex va level))
              (bit_and perm_bits e))
          entry
      ∙ ap
          (λ q.
            down_loop added va level (entry_at q (pageindex va level))
              (bit_and perm_bits (table_entry p)))
          (pa_bits-table_entry p aligned small)
      ∙ down_loop-below (bit_and perm_bits (table_entry p)) level refl (added-below aligned other)
