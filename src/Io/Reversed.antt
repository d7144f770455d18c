-- ===== src/Io/Reversed.antt =====
-- pset3/reverse61.cc on regular files.
use native.Mathlib.Nat.{mod-eq_of_lt}
use mathlib.Core.List.{append-nil, append_assoc, reverse, reverse-append}
use cs61_f18_psets.Base.{
  ℕ, zero, suc, ◌+◌, ◌-◌, ◌%◌, ◌≤◌, ◌<◌, ◌≡◌, none, some, List, [], ◌∷◌, ◌++◌, get_elem?, length,
  take, replicate, refl, ap, sym, ◌∙◌, arith, Option-cases, inl, inr, some-inj,
}
use cs61_f18_psets.Io.Os.{Os}
use cs61_f18_psets.Io.File.{io61_seek}
use cs61_f18_psets.Io.Copy.{
  Arguments, open_both, close_both, reverse_loop, reverse_files, reverse61, input_size_of,
}
use cs61_f18_psets.Io.Files.{Regular}
use cs61_f18_psets.Io.Steps.{
  AllBytes, Stand, at_end, readc_none, readc_some, writec-Stand, seek-Facing, extended,
}
use cs61_f18_psets.Io.Copied.{AllBytes-get_elem?}

-- The first `n` characters of the input from the last to the first, behind what `EOF` is written as for those that it does not have.
abbrev pub reversed : ℕ → List ℕ → List ℕ
reversed n input = replicate (n - length input) 255 ++ reverse (take n input)

beyond : (s : List ℕ) (n : ℕ) → get_elem? s n ≡ none → length s ≤ n
beyond [] n e = omega arith
beyond (c ∷ s) zero e = cc e
beyond (c ∷ s) (suc n) e = omega (arith, beyond s n e)

within : (s : List ℕ) (n c : ℕ) → get_elem? s n ≡ some c → n < length s
within [] n c e = cc e
within (d ∷ s) zero c e = omega arith
within (d ∷ s) (suc n) c e = omega (arith, within s n c e)

take_all : (s : List ℕ) (n : ℕ) → length s ≤ n → take n s ≡ s
take_all [] zero h = refl
take_all [] (suc n) h = refl
take_all (c ∷ s) zero h = absurd (omega arith)
take_all (c ∷ s) (suc n) h = ap (λ t. c ∷ t) (take_all s n (omega arith))

take_next : (s : List ℕ) (n c : ℕ) → get_elem? s n ≡ some c → take (suc n) s ≡ take n s ++ c ∷ []
take_next [] n c e = cc e
take_next (d ∷ s) zero c e = ap (λ x. x ∷ []) (some-inj e)
take_next (d ∷ s) (suc n) c e = ap (λ t. d ∷ t) (take_next s n c e)

reversed_zero : (s : List ℕ) → reversed 0 s ≡ []
reversed_zero s = let less : 0 - length s ≡ 0 = omega arith in rw less refl

reversed-none :
    (s : List ℕ) (n : ℕ) → get_elem? s n ≡ none → reversed (suc n) s ≡ 255 ∷ reversed n s
reversed-none s n e =
    let le = beyond s n e in
    let more : suc n - length s ≡ suc (n - length s) = omega arith in
    rw (more, take_all s n le, take_all s (suc n) (omega arith)) refl

reversed-some :
    (s : List ℕ) (n c : ℕ) → get_elem? s n ≡ some c → reversed (suc n) s ≡ c ∷ reversed n s
reversed-some s n c e =
    let lt = within s n c e in
    let now : suc n - length s ≡ 0 = omega arith in
    let before : n - length s ≡ 0 = omega arith in
    rw (now, before, take_next s n c e, reverse-append (take n s) (c ∷ [])) refl

module _ (os : Os) (inf outf : ℕ) (files : Regular os inf outf) (input : List ℕ)
    (all : AllBytes input) where
  open os use {State}

  reverse_loop-Stand :
      (n p : ℕ) (out : List ℕ) (st : State)
      → Stand os inf outf files input p out st
      → (q : ℕ) × Stand os inf outf files input q
          (out ++ reversed n input)
          (reverse_loop os inf outf n st)
  unfolding reverse_loop
  reverse_loop-Stand zero p out st h = (
    p,
    extended os inf outf files
        (sym (append-nil out) ∙ ap (λ t. out ++ t) (sym (reversed_zero input))) h,
  )
  reverse_loop-Stand (suc n) p out st h =
      let (h1, _) = seek-Facing os inf outf files input (at_end out) p n st h in
      elim (Option-cases (get_elem? input n)) [
        | inl e ↦
            let (r, h2) = readc_none os inf outf files input (at_end out) n _ h1 e in
            let (q, last) =
              reverse_loop-Stand n n _ _ (writec-Stand os inf outf files input out n none _ h2) in
            rw (r, reverse_loop, reversed-none input n e)
              (q, extended os inf outf files (append_assoc out (255 ∷ []) (reversed n input)) last)
        | inr (c, e) ↦
            let (r, h2) = readc_some os inf outf files input (at_end out) n c _ h1 e in
            let (q, last) =
              reverse_loop-Stand n (n + 1) _ _
                (writec-Stand os inf outf files input out (n + 1) (some c) _ h2) in
            rw (r, reverse_loop, reversed-some input n c e)
              (
                q,
                extended os inf outf files
                    (append_assoc out (c % 256 ∷ []) (reversed n input)
                      ∙ ap (λ d. out ++ d ∷ reversed n input)
                          (mod-eq_of_lt (AllBytes-get_elem? input n c all e)))
                    last,
              )
      ]

  -- `reverse61` writes the first `size` characters of its input in reverse order, where `size` is the one given or else
  -- the file's. For a size beyond the end of the file it writes the byte 255 for each character that is
  -- missing first.
  pub reverse61_lem :
      (args : Arguments) (size : ℕ) (st opened : State)
      → open_both os args st ≡ some (inf, outf, opened)
      → input_size_of os inf args opened ≡ some size
      → Stand os inf outf files input 0 [] opened
      → (last : State) × (reverse61 os args st ≡ some (close_both os inf outf last))
        × ((q : ℕ) × Stand os inf outf files input q (reversed size input) last)
  unfolding reverse61 reverse_files
  reverse61_lem args size st opened e f h =
      let (h1, good) = seek-Facing os inf outf files input (at_end []) 0 0 opened h in
      (
        reverse_loop os inf outf size (io61_seek os inf 0 opened).1,
        rw (e, reverse61) (rw (f, reverse61) (rw (good, reverse_files) refl)),
        reverse_loop-Stand size 0 [] _ h1,
      )
