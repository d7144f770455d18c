-- ===== src/Kernel/Loader/Segments.antt =====
-- Which segments the loop over a `program_loader` of pset4/k-hardware.cc sees.
use cs61_f18_psets.Base.{
  ℕ, zero, suc, ◌≤◌, ◌≡◌, refl, ap, true, false, Bool-cases, inl, inr, Option, none, some, List, [],
  ◌∷◌, map, length, ◌==◌, if◌then◌else◌, arith,
}
use cs61_f18_psets.Kernel.Loader.{
  ElfImage, ElfProgram, ProgramLoader, is_load, fix, rounds, loader_next, loader_size,
}

-- The segments to load, up to the first that is empty.
abbrev pub loads : List ElfProgram → List ElfProgram
loads [] = []
loads (p ∷ ps) =
    let rest = loads ps in if is_load p then if p.p_memsz == 0 then [] else p ∷ rest else rest

-- The segment that a loader stands at.
abbrev pub here : ProgramLoader → Option ElfProgram
here l = elim l.ph [ [] ↦ none | (p ∷ rest) ↦ some p ]

length-fix : (ps : List ElfProgram) → length (fix ps) ≤ length ps
unfolding fix
length-fix [] = omega arith
length-fix (p ∷ ps) = elim (Bool-cases (is_load p)) [
  | inl on ↦ rw on (omega arith)
  | inr off ↦ rw off (omega (arith, length-fix ps))
]

fix_load : (p : ElfProgram) (ps : List ElfProgram) → is_load p ≡ true → fix (p ∷ ps) ≡ p ∷ ps
unfolding fix
fix_load p ps on = rw on

fix_skip : (p : ElfProgram) (ps : List ElfProgram) → is_load p ≡ false → fix (p ∷ ps) ≡ fix ps
unfolding fix
fix_skip p ps off = rw off

-- One round at a segment to load.
round_lem :
    (fuel : ℕ) (elf : Option ElfImage) (p : ElfProgram) (ps : List ElfProgram)
    → map here (rounds fuel (record { elf = elf; ph = fix ps })) ≡ map some (loads ps)
    → map here (rounds (suc fuel) (record { elf = elf; ph = p ∷ ps }))
      ≡ map some (if p.p_memsz == 0 then [] else p ∷ loads ps)
unfolding rounds loader_next loader_size
round_lem fuel elf p ps ih = elim (Bool-cases (p.p_memsz == 0)) [
  | inl empty ↦ rw empty refl
  | inr some_bytes ↦ rw some_bytes (ap (λ rest. some p ∷ rest) ih)
]

at_load :
    (fuel : ℕ) (elf : Option ElfImage) (p : ElfProgram) (ps : List ElfProgram)
    → suc (length ps) ≤ fuel
    → ((n : ℕ)
        → length (fix ps) ≤ n
        → map here (rounds n (record { elf = elf; ph = fix ps })) ≡ map some (loads ps))
    → map here (rounds fuel (record { elf = elf; ph = p ∷ ps }))
      ≡ map some (if p.p_memsz == 0 then [] else p ∷ loads ps)
at_load zero elf p ps h ih = absurd (omega arith)
at_load (suc fuel) elf p ps h ih = round_lem fuel elf p ps (ih fuel (omega (arith, length-fix ps)))

-- With as many rounds as there are headers from the first segment on, the loop over a loader sees
-- exactly the segments to load, in the order of the headers, up to the first that is empty.
pub rounds-loads :
    (fuel : ℕ) (elf : Option ElfImage) (ps : List ElfProgram)
    → length (fix ps) ≤ fuel
    → map here (rounds fuel (record { elf = elf; ph = fix ps })) ≡ map some (loads ps)
unfolding fix rounds loader_size
rounds-loads zero elf [] h = refl
rounds-loads (suc fuel) elf [] h = refl
rounds-loads fuel elf (p ∷ ps) h = elim (Bool-cases (is_load p)) [
  | inl on ↦
      let e = fix_load p ps on in
      let enough : suc (length ps) ≤ fuel = omega (arith, ap length e) in
      rw (e, on) (at_load fuel elf p ps enough (λ n. rounds-loads n elf ps))
  | inr off ↦
      let e = fix_skip p ps off in
      let enough : length (fix ps) ≤ fuel = omega (arith, ap length e) in
      rw (e, off) (rounds-loads fuel elf ps enough)
]
