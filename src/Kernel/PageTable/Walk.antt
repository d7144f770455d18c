-- ===== src/Kernel/PageTable/Walk.antt =====
-- The iterator of pset4/k-vmiter.cc keeps its place: a move from one address to another arrives where
-- a walk from the top of the page table does.
use native.Mathlib.Nat.{mul-mod_left, div-div-eq-div-mul, mod-lt, pow-suc}
use Prim.Native.Nat.{bit_and}
use mathlib.Core.Path.{subst}
use cs61_f18_psets.Base.{
  ℕ, zero, suc, ◌+◌, ◌-◌, ◌*◌, ◌/◌, ◌%◌, ◌^◌, ◌≤◌, ◌<◌, ◌≡◌, true, false, ◌==◌, ==_iff, inl, inr,
  Bool-cases, refl, ap, sym, ◌∙◌, arith,
}
use cs61_f18_psets.Kernel.PageTable.{
  Vmiter, above, pageindex, entry_at, is_table, pa_bits, initial_perm, down_loop, down, real_find,
  vmiter,
}

-- An index has nine bits.
nine_more : (d : ℕ) → 2 ^ (d + 9) ≡ 2 ^ d * 512
nine_more d =
    let two = λ (k : ℕ). pow-suc 2 (d + k) in
    let next =
      λ (k : ℕ). let e : d + suc k ≡ suc (d + k) = omega arith in ap (λ m. 2 ^ m) e ∙ two k in
    let none_more : d + 0 ≡ d = omega arith in
    omega (
      arith,
      ap (λ m. 2 ^ m) none_more,
      next 0,
      next 1,
      next 2,
      next 3,
      next 4,
      next 5,
      next 6,
      next 7,
      next 8,
    )

above-suc : (va n : ℕ) → above va (suc n) ≡ above va n / 512
above-suc va n =
    let wider : 2 ^ (12 + 9 * suc n) ≡ 2 ^ (12 + 9 * n) * 512 =
      let e : 12 + 9 * suc n ≡ 12 + 9 * n + 9 = omega arith in
      ap (λ k. 2 ^ k) e ∙ nine_more (12 + 9 * n) in
    ap (λ d. va / d) wider ∙ sym (div-div-eq-div-mul va (2 ^ (12 + 9 * n)) 512)

-- Addresses that agree above a level agree above the next one.
same_above : (va va' n k : ℕ) → above va n ≡ above va' n → above va (n + k) ≡ above va' (n + k)
same_above va va' n zero e =
    let at : n ≡ n + 0 = omega arith in subst (λ m. above va m ≡ above va' m) at e
same_above va va' n (suc k) e =
    let at : suc (n + k) ≡ n + suc k = omega arith in
    subst (λ m. above va m ≡ above va' m) at
      (above-suc va (n + k)
        ∙ ap (λ a. a / 512) (same_above va va' n k e)
        ∙ sym (above-suc va' (n + k)))

pub pageindex-lt : (va n : ℕ) → pageindex va n < 512
unfolding pageindex
pageindex-lt va n = mod-lt (above va n) (omega arith)

pa_bits-aligned : (e : ℕ) → pa_bits e % 4096 ≡ 0
unfolding pa_bits
pa_bits-aligned e = mul-mod_left (e / 4096 % 2 ^ 39) 4096

same_index :
    (va va' n level : ℕ)
    → n ≤ level
    → above va (n + 1) ≡ above va' (n + 1)
    → pageindex va (suc level) ≡ pageindex va' (suc level)
unfolding pageindex
same_index va va' n level le e =
    let at : n + 1 + (level - n) ≡ suc level = omega arith in
    ap (λ a. a % 512)
      (subst (λ m. above va m ≡ above va' m) at (same_above va va' (n + 1) (level - n) e))

-- `pep_ += pageindex(va, level_) - curidx` stays in the table.
entry_moved :
    (base i j : ℕ)
    → base % 4096 ≡ 0
    → i < 512
    → entry_at base i + 8 * j - 8 * (entry_at base i % 4096 / 8) ≡ entry_at base j
entry_moved base i j aligned lt = omega arith

module _ (entries : ℕ → ℕ) where
  -- The walk does not climb.
  down_loop-le : (va level pep perm_bits : ℕ) → (down_loop entries va level pep perm_bits).1 ≤ level
  unfolding down_loop
  down_loop-le va zero pep perm_bits = omega arith
  down_loop-le va (suc level) pep perm_bits = elim (Bool-cases (is_table (entries pep))) [
    | inl z ↦ rw z (
        omega (
          arith,
          down_loop-le va level (entry_at (pa_bits (entries pep)) (pageindex va level))
              (bit_and perm_bits (entries pep)),
        ))
    | inr z ↦ rw z (omega arith)
  ]

  pub down_loop-zero :
      (va pep perm_bits : ℕ) → down_loop entries va zero pep perm_bits ≡ (pep, zero, perm_bits)
  unfolding down_loop
  down_loop-zero va pep perm_bits = refl

  pub down_loop-table :
      (va level pep perm_bits : ℕ)
      → is_table (entries pep) ≡ true
      → down_loop entries va (suc level) pep perm_bits
        ≡ down_loop entries va level
            (entry_at (pa_bits (entries pep)) (pageindex va level))
            (bit_and perm_bits (entries pep))
  unfolding down_loop
  down_loop-table va level pep perm_bits z = rw z refl

  pub down_loop-stays :
      (va level pep perm_bits : ℕ)
      → is_table (entries pep) ≡ false
      → down_loop entries va (suc level) pep perm_bits ≡ (pep, suc level, perm_bits)
  unfolding down_loop
  down_loop-stays va level pep perm_bits z = rw z refl

  -- Where the walk to `va` ended in a table that `va'` shares, the walk to `va'` goes on to `target`.
  abbrev Resumes : ℕ → ℕ → ℕ × ℕ × ℕ → ℕ × ℕ × ℕ → Type 0
  Resumes va va' r target =
      above va (r.1 + 1) ≡ above va' (r.1 + 1)
      → down_loop entries va' r.1 (r.0 + 8 * pageindex va' r.1 - 8 * (r.0 % 4096 / 8)) r.2 ≡ target

  resume_here :
      (va va' level base perm_bits : ℕ)
      → base % 4096 ≡ 0
      → down_loop entries va level (entry_at base (pageindex va level)) perm_bits
        ≡ (entry_at base (pageindex va level), level, perm_bits)
      → Resumes va va'
          (down_loop entries va level (entry_at base (pageindex va level)) perm_bits)
          (down_loop entries va' level (entry_at base (pageindex va' level)) perm_bits)
  resume_here va va' level base perm_bits aligned e =
      subst
        (λ r.
          Resumes va va' r
            (down_loop entries va' level (entry_at base (pageindex va' level)) perm_bits))
        (sym e)
        (λ h.
          ap (λ pep. down_loop entries va' level pep perm_bits)
            (entry_moved base (pageindex va level) (pageindex va' level) aligned
              (pageindex-lt va level)))

  down_loop-resume :
      (va va' level base perm_bits : ℕ)
      → base % 4096 ≡ 0
      → Resumes va va'
          (down_loop entries va level (entry_at base (pageindex va level)) perm_bits)
          (down_loop entries va' level (entry_at base (pageindex va' level)) perm_bits)
  down_loop-resume va va' zero base perm_bits aligned =
      resume_here va va' zero base perm_bits aligned (down_loop-zero va _ perm_bits)
  down_loop-resume va va' (suc level) base perm_bits aligned =
      let pep = entry_at base (pageindex va (suc level)) in
      elim (Bool-cases (is_table (entries pep))) [
        | inl z ↦
            let e = entries pep in
            let perm' = bit_and perm_bits e in
            let r = down_loop entries va level (entry_at (pa_bits e) (pageindex va level)) perm' in
            let low : r.1 ≤ level =
              down_loop-le va level (entry_at (pa_bits e) (pageindex va level)) perm' in
            subst
              (λ w. Resumes va va' w (
                down_loop entries va' (suc level) (entry_at base (pageindex va' (suc level)))
                  perm_bits))
              (sym (down_loop-table va level pep perm_bits z))
              (λ h.
                down_loop-resume va va' level (pa_bits e) perm' (pa_bits-aligned e) h
                ∙ sym (down_loop-table va' level pep perm_bits z)
                ∙ ap (λ i. down_loop entries va' (suc level) (entry_at base i) perm_bits)
                    (same_index va va' r.1 level low h))
        | inr z ↦
            resume_here va va' (suc level) base perm_bits aligned
              (down_loop-stays va level pep perm_bits z)
      ]

  -- An iterator at the top of the table.
  abbrev top : ℕ → ℕ → Vmiter
  top pt va = record {
    pt = pt;
    pep = entry_at pt (pageindex va 3);
    level = 3;
    perm_bits = initial_perm;
    va = va;
  }

  abbrev placed : ℕ → ℕ → ℕ × ℕ × ℕ → Vmiter
  placed pt va r = record { pt = pt; pep = r.0; level = r.1; perm_bits = r.2; va = va }

  down-top :
      (pt va : ℕ)
      → down entries (top pt va)
        ≡ placed pt va (down_loop entries va 3 (entry_at pt (pageindex va 3)) initial_perm)
  unfolding down
  down-top pt va = refl

  first_entry :
      (pt i : ℕ)
      → pt % 4096 ≡ 0
      → entry_at pt 0 + 8 * i - 8 * (entry_at pt 0 % 4096 / 8) ≡ entry_at pt i
  first_entry pt i aligned = omega arith

  -- The constructor walks from the top.
  vmiter-top : (pt va : ℕ) → pt % 4096 ≡ 0 → vmiter entries pt va ≡ down entries (top pt va)
  unfolding vmiter real_find
  vmiter-top pt va aligned = elim (Bool-cases (above 0 4 == above va 4)) [
    | inl z ↦ rw z (
        ap (λ (pep : ℕ). down entries (record (top pt va) { pep = pep }))
          (first_entry pt (pageindex va 3) aligned))
    | inr z ↦ rw z refl
  ]

  find-placed :
      (pt va va' pep level perm_bits : ℕ)
      → Resumes va va'
          (pep, level, perm_bits)
          (down_loop entries va' 3 (entry_at pt (pageindex va' 3)) initial_perm)
      → real_find entries va' (placed pt va (pep, level, perm_bits)) ≡ down entries (top pt va')
  unfolding real_find down
  find-placed pt va va' pep level perm_bits resumes =
      elim (Bool-cases (above va (level + 1) == above va' (level + 1))) [
        | inl z ↦ rw z (ap (placed pt va') (resumes ((==_iff _ _).0 z)))
        | inr z ↦ rw z refl
      ]

  -- In a page-aligned table, `find` moves an iterator from `va` to `va'` as if it were made for `va'`:
  -- the entry, the level and the permissions are those of a walk from the top.
  pub real_find_lem :
      (pt va va' : ℕ)
      → pt % 4096 ≡ 0
      → real_find entries va' (vmiter entries pt va) ≡ vmiter entries pt va'
  real_find_lem pt va va' aligned =
      ap (real_find entries va') (vmiter-top pt va aligned ∙ down-top pt va)
      ∙ find-placed pt va va' _ _ _ (down_loop-resume va va' 3 pt initial_perm aligned)
      ∙ sym (vmiter-top pt va' aligned)
