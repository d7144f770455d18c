-- ===== src/Io/Steps.antt =====
-- The operations of pset3/io61.cc on regular files.
use native.Mathlib.Nat.{mod-eq_of_lt}
use mathlib.Core.Path.{subst}
use mathlib.Core.List.{append-nil, append_assoc}
use cs61_f18_psets.Base.{
  length-append, ==_iff, some-inj, Option-cases, inl, inr, ℕ, zero, suc, ◌+◌, ◌%◌, ◌<◌, ◌≡◌, true,
  Option, none, some, List, [], ◌∷◌, ◌++◌, get_elem?, length, take, drop, refl, ap, sym, ◌∙◌, arith,
}
use cs61_f18_psets.Io.Os.{Os}
use cs61_f18_psets.Io.File.{
  io61_readc, io61_read, io61_writec, write_loop, io61_seek, one_byte, wrote_one, is_at, byte_of,
}
use cs61_f18_psets.Io.Files.{FileView, Regular, step_past, put_byte, byte_read, write_at}

-- Bytes as a file holds them.
abbrev pub AllBytes : List ℕ → Type 0
AllBytes [] = Unit {0}
AllBytes (c ∷ s) = (c < 256) × AllBytes s

one_byte-read : (o : Option ℕ) → one_byte (some (byte_read o)) ≡ o
one_byte-read none = refl
one_byte-read (some c) = refl

write_at_end : (out : List ℕ) (c : ℕ) → write_at out (length out) c ≡ out ++ c ∷ []
write_at_end [] c = refl
write_at_end (x ∷ out) c = ap (λ s. x ∷ s) (write_at_end out c)

abbrev pub at_end : List ℕ → FileView
at_end out = record { bytes = out; offset = length out }

appended :
    (out : List ℕ) (c : ℕ)
    → put_byte c (record { bytes = out; offset = length out })
      ≡ record { bytes = out ++ c ∷ []; offset = length (out ++ c ∷ []) }
appended out c = rw (write_at_end out c, length-append out (c ∷ [])) refl

pub drop-none : (xs : List ℕ) (p : ℕ) → get_elem? xs p ≡ none → drop p xs ≡ []
drop-none [] zero e = refl
drop-none [] (suc p) e = refl
drop-none (x ∷ xs) zero e = cc e
drop-none (x ∷ xs) (suc p) e = drop-none xs p e

drop-suc : (xs : List ℕ) (p c : ℕ) → get_elem? xs p ≡ some c → drop p xs ≡ c ∷ drop (suc p) xs
drop-suc [] p c e = cc e
drop-suc (x ∷ xs) zero c e = ap (λ y. y ∷ xs) (some-inj e)
drop-suc (x ∷ xs) (suc p) c e = drop-suc xs p c e

pub drop-some : (xs : List ℕ) (p c : ℕ) → get_elem? xs p ≡ some c → drop p xs ≡ c ∷ drop (p + 1) xs
drop-some xs p c e = drop-suc xs p c e ∙ ap (λ k. c ∷ drop k xs) {x = suc p} (omega arith)

module _ (os : Os) (inf outf : ℕ) (files : Regular os inf outf) where
  open os use {State}
  open files use {
    source, sink, read_result, read_source, read_sink, write_result, write_sink, write_source,
    seek_result, seek_source, seek_sink,
  }

  -- The input holds `input` and stands at `p`, and the output is `f`.
  pub record Facing (input : List ℕ) (p : ℕ) (f : FileView) (st : State) : Type 0 where
    pub at : source st ≡ record { bytes = input; offset = p }
    pub done : sink st ≡ f

  -- The output holds `out` and stands at its end.
  abbrev pub Stand : List ℕ → ℕ → List ℕ → State → Type 0
  Stand input p out st = Facing input p (at_end out) st

  pub moved :
      {input : List ℕ} {f : FileView} {p q : ℕ} {st : State}
      → p ≡ q
      → Facing input p f st
      → Facing input q f st
  moved {input} {f} {st = st} e h = subst (λ q. Facing input q f st) e h

  pub extended :
      {input out out' : List ℕ} {p : ℕ} {st : State}
      → out ≡ out'
      → Stand input p out st
      → Stand input p out' st
  extended {input} {p = p} {st = st} e h = subst (λ o. Stand input p o st) e h

  readc_result :
      (input : List ℕ) (f : FileView) (p : ℕ) (st : State)
      → Facing input p f st
      → (io61_readc os inf st).0 ≡ get_elem? input p
  unfolding io61_readc
  readc_result input f p st h =
      ap one_byte (read_result st)
      ∙ one_byte-read _
      ∙ ap (λ (g : FileView). get_elem? g.bytes g.offset) h.at

  readc-Facing :
      (input : List ℕ) (f : FileView) (p : ℕ) (st : State)
      → Facing input p f st
      → Facing input (p + length (byte_read (get_elem? input p))) f (io61_readc os inf st).1
  unfolding io61_readc
  readc-Facing input f p st h = record {
    at = read_source st ∙ ap step_past h.at;
    done = read_sink st ∙ h.done;
  }

  pub writec-Stand :
      (input out : List ℕ) (p : ℕ) (ch : Option ℕ) (st : State)
      → Stand input p out st
      → Stand input p (out ++ byte_of ch ∷ []) (io61_writec os outf ch st).1
  unfolding io61_writec
  writec-Stand input out p ch st h = record {
    at = write_source _ st ∙ h.at;
    done = write_sink _ st ∙ ap (put_byte (byte_of ch)) h.done ∙ appended out (byte_of ch);
  }

  writec_result : (ch : Option ℕ) (st : State) → (io61_writec os outf ch st).0 ≡ true
  unfolding io61_writec
  writec_result ch st = ap wrote_one (write_result (byte_of ch) st)

  pub seek-Facing :
      (input : List ℕ) (f : FileView) (p q : ℕ) (st : State)
      → Facing input p f st
      → Facing input q f (io61_seek os inf q st).1 × ((io61_seek os inf q st).0 ≡ true)
  unfolding io61_seek
  seek-Facing input f p q st h = (
    record {
      at = seek_source q st ∙ ap (λ (g : FileView). record g { offset = q }) h.at;
      done = seek_sink q st ∙ h.done;
    },
    ap (is_at q) (seek_result q st) ∙ (==_iff q q).1 refl,
  )

  -- What `io61_readc` does at the end of the input, and before it.
  pub readc_none :
      (input : List ℕ) (f : FileView) (p : ℕ) (st : State)
      → Facing input p f st
      → get_elem? input p ≡ none
      → ((io61_readc os inf st).0 ≡ none) × Facing input p f (io61_readc os inf st).1
  readc_none input f p st h e = (
    readc_result input f p st h ∙ e,
    subst (λ q. Facing input q f (io61_readc os inf st).1)
        (ap (λ o. p + length (byte_read o)) e ∙ omega arith) (readc-Facing input f p st h),
  )

  pub readc_some :
      (input : List ℕ) (f : FileView) (p c : ℕ) (st : State)
      → Facing input p f st
      → get_elem? input p ≡ some c
      → ((io61_readc os inf st).0 ≡ some c) × Facing input (p + 1) f (io61_readc os inf st).1
  readc_some input f p c st h e = (
    readc_result input f p st h ∙ e,
    subst (λ q. Facing input q f (io61_readc os inf st).1) (ap (λ o. p + length (byte_read o)) e)
        (readc-Facing input f p st h),
  )

  -- `io61_read` returns what is there, up to `n` characters, and moves behind it.
  pub io61_read-Facing :
      (n : ℕ) (input : List ℕ) (f : FileView) (p : ℕ) (st : State)
      → Facing input p f st
      → ((io61_read os inf n st).0 ≡ take n (drop p input))
        × Facing input (p + length (take n (drop p input))) f (io61_read os inf n st).1
  unfolding io61_read
  io61_read-Facing zero input f p st h = (refl, subst (λ q. Facing input q f st) (omega arith) h)
  io61_read-Facing (suc n) input f p st h = elim (Option-cases (get_elem? input p)) [
    | inl e ↦
        let (r, h') = readc_none input f p st h e in
        rw (r, drop-none input p e, io61_read) (refl, moved (omega arith) h')
    | inr (c, e) ↦
        let (r, h') = readc_some input f p c st h e in
        let (same, h'') = io61_read-Facing n input f (p + 1) (io61_readc os inf st).1 h' in
        rw (r, drop-some input p c e, io61_read) (ap (λ s. c ∷ s) same, moved (omega arith) h'')
  ]

  -- `io61_write` appends its whole buffer.
  pub write_loop-Stand :
      (buf input out : List ℕ) (p : ℕ) (st : State)
      → AllBytes buf
      → Stand input p out st
      → ((write_loop os outf buf st).0 ≡ length buf)
        × Stand input p (out ++ buf) (write_loop os outf buf st).1
  unfolding write_loop
  write_loop-Stand [] input out p st b h =
      (refl, subst (λ o. Stand input p o st) (sym (append-nil out)) h)
  write_loop-Stand (c ∷ buf) input out p st b h =
      let (same, h') =
        write_loop-Stand buf input (out ++ c % 256 ∷ []) p (io61_writec os outf (some c) st).1 b.1
          (writec-Stand input out p (some c) st h) in
      rw (writec_result (some c) st, write_loop)
        (
          ap suc same,
          extended
              (append_assoc out (c % 256 ∷ []) buf ∙ ap (λ d. out ++ d ∷ buf) (mod-eq_of_lt b.0))
              h',
        )
