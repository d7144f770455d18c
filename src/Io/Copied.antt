-- ===== src/Io/Copied.antt =====
-- The programs of pset3 that copy their input, on regular files.
use native.Mathlib.Nat.{zero-add, suc-add, mod-eq_of_lt}
use mathlib.Core.Path.{subst}
use mathlib.Core.List.{append-nil, append_assoc}
use cs61_f18_psets.Base.{
  ℕ, zero, suc, ◌+◌, ◌%◌, ◌≤◌, ◌<◌, ◌≡◌, true, false, some, List, [], ◌∷◌, ◌++◌, get_elem?, length,
  take, drop, refl, ap, sym, ◌∙◌, arith, Option-cases, inl, inr, some-inj, Bool-cases,
}
use cs61_f18_psets.Io.Os.{Os, Random}
use cs61_f18_psets.Io.File.{io61_read, io61_write, is_empty}
use cs61_f18_psets.Io.Copy.{
  Arguments, open_both, close_both, cat_loop, cat61, block_loop, blockcat61, block_size_or,
  rand_block_loop, randblockcat61,
}
use cs61_f18_psets.Io.Files.{Regular}
use cs61_f18_psets.Io.Steps.{
  AllBytes, Stand, at_end, readc_none, readc_some, writec-Stand, io61_read-Facing, write_loop-Stand,
  drop-none, drop-some, extended,
}

pub AllBytes-take : (n : ℕ) (s : List ℕ) → AllBytes s → AllBytes (take n s)
AllBytes-take zero s h = tt
AllBytes-take (suc n) [] h = tt
AllBytes-take (suc n) (c ∷ s) h = (h.0, AllBytes-take n s h.1)

pub AllBytes-drop : (n : ℕ) (s : List ℕ) → AllBytes s → AllBytes (drop n s)
AllBytes-drop zero s h = h
AllBytes-drop (suc n) [] h = tt
AllBytes-drop (suc n) (c ∷ s) h = AllBytes-drop n s h.1

pub AllBytes-get_elem? : (s : List ℕ) (p c : ℕ) → AllBytes s → get_elem? s p ≡ some c → c < 256
AllBytes-get_elem? [] p c h e = cc e
AllBytes-get_elem? (d ∷ s) zero c h e = subst (λ x. x < 256) (some-inj e) h.0
AllBytes-get_elem? (d ∷ s) (suc p) c h e = AllBytes-get_elem? s p c h.1 e

drop-nil : (k : ℕ) → drop {A = ℕ} k [] ≡ []
drop-nil zero = refl
drop-nil (suc k) = refl

drop-add : (p k : ℕ) (s : List ℕ) → drop (p + k) s ≡ drop k (drop p s)
drop-add zero k s = ap (λ n. drop n s) (zero-add k)
drop-add (suc p) k [] = ap (λ n. drop n []) (suc-add p k) ∙ sym (drop-nil k)
drop-add (suc p) k (c ∷ s) = ap (λ n. drop n (c ∷ s)) (suc-add p k) ∙ drop-add p k s

drop-length-take : (n : ℕ) (s : List ℕ) → drop (length (take n s)) s ≡ drop n s
drop-length-take zero s = refl
drop-length-take (suc n) [] = refl
drop-length-take (suc n) (c ∷ s) = drop-length-take n s

drop-le : (n : ℕ) (s : List ℕ) → length (drop n s) ≤ length s
drop-le zero s = omega arith
drop-le (suc n) [] = omega arith
drop-le (suc n) (c ∷ s) = omega (arith, drop-le n s)

take-drop : (n : ℕ) (s : List ℕ) → take n s ++ drop n s ≡ s
take-drop zero s = refl
take-drop (suc n) [] = refl
take-drop (suc n) (c ∷ s) = ap (λ t. c ∷ t) (take-drop n s)

take_empty : (n : ℕ) (s : List ℕ) → 0 < n → is_empty (take n s) ≡ true → s ≡ []
take_empty zero s h e = absurd (omega arith)
take_empty (suc n) [] h e = refl
take_empty (suc n) (c ∷ s) h e = cc e

drop_less :
    (n : ℕ) (s : List ℕ) → 0 < n → is_empty (take n s) ≡ false → length (drop n s) < length s
drop_less zero s h e = absurd (omega arith)
drop_less (suc n) [] h e = cc e
drop_less (suc n) (c ∷ s) h e = omega (arith, drop-le n s)

-- What is left behind a block, and the block with what is left.
drop_block : (n p : ℕ) (s : List ℕ) → drop (p + length (take n (drop p s))) s ≡ drop n (drop p s)
drop_block n p s = drop-add p (length (take n (drop p s))) s ∙ drop-length-take n (drop p s)

join_block :
    (n p : ℕ) (out s : List ℕ)
    → (out ++ take n (drop p s)) ++ drop (p + length (take n (drop p s))) s ≡ out ++ drop p s
join_block n p out s =
    append_assoc out (take n (drop p s)) _
    ∙ ap (λ t. out ++ t)
        (ap (λ t. take n (drop p s) ++ t) (drop_block n p s) ∙ take-drop n (drop p s))

positive_size : (args : Arguments) → 0 < block_size_or 4096 args
positive_size args = ground arith

module _ (os : Os) (inf outf : ℕ) (files : Regular os inf outf) (input : List ℕ)
    (all : AllBytes input) where
  open os use {State}

  -- What a loop leaves: an output that holds `out`.
  abbrev Holds : List ℕ → State → Type 0
  Holds out st = (q : ℕ) × Stand os inf outf files input q out st

  cat_loop-Holds :
      (n p : ℕ) (out : List ℕ) (st : State)
      → Stand os inf outf files input p out st
      → Holds (out ++ take n (drop p input)) (cat_loop os inf outf n st)
  unfolding cat_loop
  cat_loop-Holds zero p out st h = (p, extended os inf outf files (sym (append-nil out)) h)
  cat_loop-Holds (suc n) p out st h = elim (Option-cases (get_elem? input p)) [
    | inl e ↦
        let (r, h') = readc_none os inf outf files input (at_end out) p st h e in
        rw (r, drop-none input p e, cat_loop)
          (p, extended os inf outf files (sym (append-nil out)) h')
    | inr (c, e) ↦
        let (r, h') = readc_some os inf outf files input (at_end out) p c st h e in
        let (q, last) =
          cat_loop-Holds n (p + 1) _ _
            (writec-Stand os inf outf files input out (p + 1) (some c) _ h') in
        rw (r, drop-some input p c e, cat_loop)
          (
            q,
            extended os inf outf files
                (append_assoc out (c % 256 ∷ []) _
                  ∙ ap (λ d. out ++ d ∷ take n (drop (p + 1) input))
                      (mod-eq_of_lt (AllBytes-get_elem? input p c all e)))
                last,
          )
  ]

  -- `cat61` copies the first `input_size` characters of its input, or all of it where it is shorter.
  pub cat61_lem :
      (args : Arguments) (st opened : State)
      → open_both os args st ≡ some (inf, outf, opened)
      → Stand os inf outf files input 0 [] opened
      → (last : State) × (cat61 os args st ≡ some (close_both os inf outf last))
        × Holds (take args.input_size input) last
  unfolding cat61
  cat61_lem args st opened e h = (
    cat_loop os inf outf args.input_size opened,
    rw (e, cat61) refl,
    cat_loop-Holds args.input_size 0 [] opened h,
  )

  -- A block that is read is written behind the output.
  block-Stand :
      (n p : ℕ) (out : List ℕ) (st : State)
      → Stand os inf outf files input p out st
      → Stand os inf outf files input
          (p + length (take n (drop p input)))
          (out ++ take n (drop p input))
          (io61_write os outf (io61_read os inf n st).0 (io61_read os inf n st).1).1
  unfolding io61_write
  block-Stand n p out st h =
      let (same, h') = io61_read-Facing os inf outf files n input (at_end out) p st h in
      rw same
        (write_loop-Stand os inf outf files (take n (drop p input)) input out _ _
          (AllBytes-take n _ (AllBytes-drop p input all)) h').1

  ended :
      (n p : ℕ) (out : List ℕ) (st : State)
      → 0 < n
      → is_empty (take n (drop p input)) ≡ true
      → Stand os inf outf files input (p + length (take n (drop p input))) out st
      → Holds (out ++ drop p input) st
  ended n p out st some_size e h = (
    _,
    extended os inf outf files
        (sym (append-nil out) ∙ sym (ap (λ t. out ++ t) (take_empty n (drop p input) some_size e)))
        h,
  )

  shorter :
      (n p fuel : ℕ)
      → 0 < n
      → is_empty (take n (drop p input)) ≡ false
      → length (drop p input) < suc fuel
      → length (drop (p + length (take n (drop p input))) input) < fuel
  shorter n p fuel some_size e lt =
      rw (drop_block n p input) (omega (arith, drop_less n (drop p input) some_size e))

  block_loop-Holds :
      (fuel size p : ℕ) (out : List ℕ) (st : State)
      → 0 < size
      → length (drop p input) < fuel
      → Stand os inf outf files input p out st
      → (last : State) × (block_loop os fuel inf outf size st ≡ some last)
        × Holds (out ++ drop p input) last
  unfolding block_loop
  block_loop-Holds zero size p out st some_size lt h = absurd (omega arith)
  block_loop-Holds (suc fuel) size p out st some_size lt h =
      let (same, h') = io61_read-Facing os inf outf files size input (at_end out) p st h in
      elim (Bool-cases (is_empty (take size (drop p input)))) [
        | inl e ↦ rw (same, e, block_loop) (_, refl, ended size p out _ some_size e h')
        | inr e ↦
            rw (ap is_empty same ∙ e, block_loop)
              (rw (← join_block size p out input) (
                block_loop-Holds fuel size _ _ _ some_size (shorter size p fuel some_size e lt)
                  (block-Stand size p out st h)))
      ]

  module _ (rng : Random) where
    open rng use {Engine, random}

    rand_block_loop-Holds :
        (fuel max p : ℕ) (g : Engine) (out : List ℕ) (st : State)
        → length (drop p input) < fuel
        → Stand os inf outf files input p out st
        → (last : State) × (rand_block_loop os rng fuel inf outf max g st ≡ some last)
          × Holds (out ++ drop p input) last
    unfolding rand_block_loop
    rand_block_loop-Holds zero max p g out st lt h = absurd (omega arith)
    rand_block_loop-Holds (suc fuel) max p g out st lt h =
        let n = (random g).0 % max + 1 in
        let (same, h') = io61_read-Facing os inf outf files n input (at_end out) p st h in
        elim (Bool-cases (is_empty (take n (drop p input)))) [
          | inl e ↦
              rw (ap is_empty same ∙ e, rand_block_loop)
                (_, refl, ended n p out _ (omega arith) e h')
          | inr e ↦
              rw (ap is_empty same ∙ e, rand_block_loop)
                (rw (← join_block n p out input) (
                  rand_block_loop-Holds fuel max _ (random g).1 _ _
                    (shorter n p fuel (omega arith) e lt) (block-Stand n p out st h)))
        ]

    -- `randblockcat61` copies its whole input, whatever block sizes the generator draws.
    pub randblockcat61_lem :
        (fuel : ℕ) (args : Arguments) (g : Engine) (st opened : State)
        → length input < fuel
        → open_both os args st ≡ some (inf, outf, opened)
        → Stand os inf outf files input 0 [] opened
        → (last : State) × (randblockcat61 os rng fuel args g st
            ≡ some (close_both os inf outf last))
          × Holds input last
    unfolding randblockcat61
    randblockcat61_lem fuel args g st opened lt e h =
        let (last, done, holds) =
          rand_block_loop-Holds fuel (block_size_or 4096 args) 0 g [] opened lt h in
        (last, rw (e, randblockcat61) (rw (done, randblockcat61) refl), holds)

  -- `blockcat61` copies its whole input, for every block size, and ends: each round but the last copies a character at least.
  pub blockcat61_lem :
      (fuel : ℕ) (args : Arguments) (st opened : State)
      → length input < fuel
      → open_both os args st ≡ some (inf, outf, opened)
      → Stand os inf outf files input 0 [] opened
      → (last : State) × (blockcat61 os fuel args st ≡ some (close_both os inf outf last))
        × Holds input last
  unfolding blockcat61
  blockcat61_lem fuel args st opened lt e h =
      let (last, done, holds) =
        block_loop-Holds fuel (block_size_or 4096 args) 0 [] opened (positive_size args) lt h in
      (last, rw (e, blockcat61) (rw (done, blockcat61) refl), holds)
