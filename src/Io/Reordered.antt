-- ===== src/Io/Reordered.antt =====
-- pset3/reordercat61.cc on regular files: the blocks come in a random order, and each lands in its place.
use native.Mathlib.Nat.{mod-eq_of_lt, mod-lt, mul-div_cancel}
use mathlib.Core.Path.{subst}
use cs61_f18_psets.Base.{
  ℕ, zero, suc, ◌+◌, ◌*◌, ◌%◌, ◌≤◌, ◌<◌, ◌≡◌, true, false, some, List, [], ◌∷◌, get_or, set, length,
  ==_iff, take, drop, ltb, refl, ap, ◌∙◌, arith,
}
use cs61_f18_psets.Io.Os.{Os, Random}
use cs61_f18_psets.Io.File.{
  io61_read, io61_write, io61_writec, write_loop, io61_seek, is_empty, wrote_one,
}
use cs61_f18_psets.Io.Shuffle.{reorder_loop, reorder_copy, block_positions, returned}
use cs61_f18_psets.Io.Copy.{close_both}
use cs61_f18_psets.Io.Files.{FileView, Regular, put_byte, write_at}
use cs61_f18_psets.Io.Copied.{AllBytes-take, AllBytes-drop}
use cs61_f18_psets.Io.Steps.{AllBytes, Facing, io61_read-Facing, seek-Facing}
use cs61_f18_psets.Io.Placed.{
  write_all, view, write_all-Placed, Pending, Pending-step, complete, initial,
}

not_empty : (n p : ℕ) (s : List ℕ) → 0 < n → p < length s → is_empty (take n (drop p s)) ≡ false
not_empty zero p s pos lt = absurd (omega arith)
not_empty (suc n) p [] pos lt = absurd (omega arith)
not_empty (suc n) zero (c ∷ s) pos lt = refl
not_empty (suc n) (suc p) (c ∷ s) pos lt = not_empty (suc n) p s pos (omega arith)

module _ (os : Os) (inf outf : ℕ) (files : Regular os inf outf) (input : List ℕ)
    (all : AllBytes input) where
  open os use {State}
  open files use {
    write_result, write_sink, write_source, seek_out_sink, seek_out_source, source, sink,
  }

  abbrev Faces : ℕ → FileView → State → Type 0
  Faces = Facing os inf outf files input

  abbrev wrote : List ℕ → FileView → FileView
  wrote buf f = record { bytes = write_all f.bytes f.offset buf; offset = f.offset + length buf }

  writec-Faces :
      (c q : ℕ) (f : FileView) (st : State)
      → c < 256
      → Faces q f st
      → Faces q (put_byte c f) (io61_writec os outf (some c) st).1
        × ((io61_writec os outf (some c) st).0 ≡ true)
  unfolding io61_writec
  writec-Faces c q f st lt h = rw (mod-eq_of_lt lt) (
    record { at = write_source c st ∙ h.at; done = write_sink c st ∙ ap (put_byte c) h.done },
    ap wrote_one (write_result c st),
  )

  write_loop-Faces :
      (buf : List ℕ) (q : ℕ) (f : FileView) (st : State)
      → AllBytes buf
      → Faces q f st
      → Faces q (wrote buf f) (write_loop os outf buf st).1
  unfolding write_loop
  write_loop-Faces [] q f st b h =
      subst (λ g. Faces q g st)
        (let e : f.offset ≡ f.offset + 0 = omega arith in ap (view f.bytes) e) h
  write_loop-Faces (c ∷ buf) q f st b h =
      let (h', good) = writec-Faces c q f st b.0 h in
      rw (good, write_loop)
        (subst (λ g. Faces q g (write_loop os outf buf (io61_writec os outf (some c) st).1).1)
          (let e : f.offset + 1 + length buf ≡ f.offset + suc (length buf) = omega arith in
            ap (view (write_all (write_at f.bytes f.offset c) (f.offset + 1) buf)) e)
          (write_loop-Faces buf q (put_byte c f) _ b.1 h'))

  seek_out-Faces :
      (p q : ℕ) (f : FileView) (st : State)
      → Faces q f st
      → Faces q (record f { offset = p }) (io61_seek os outf p st).1
  unfolding io61_seek
  seek_out-Faces p q f st h = record {
    at = seek_out_source p st ∙ h.at;
    done = seek_out_sink p st ∙ ap (λ (g : FileView). record g { offset = p }) h.done;
  }

  module _ (rng : Random) (block_size : ℕ) (some_size : 0 < block_size) where
    open rng use {Engine, random}

    -- The block at `p` is read and written in its place.
    block-Faces :
        (p q : ℕ) (f : FileView) (st : State)
        → Faces q f st
        → p < length input
        → (is_empty (io61_read os inf block_size (io61_seek os inf p st).1).0 ≡ false)
          × ((r : ℕ) × Faces r
                (wrote (take block_size (drop p input)) (record f { offset = p }))
                (io61_write os outf
                  (io61_read os inf block_size (io61_seek os inf p st).1).0
                  (io61_seek os outf p
                    (io61_read os inf block_size (io61_seek os inf p st).1).1).1).1)
    unfolding io61_write
    block-Faces p q f st h lt =
        let (h1, _) = seek-Facing os inf outf files input f q p st h in
        let (same, h2) = io61_read-Facing os inf outf files block_size input f p _ h1 in
        let h3 = seek_out-Faces p _ f _ h2 in
        rw same (
          not_empty block_size p input some_size lt,
          (
            _,
            write_loop-Faces (take block_size (drop p input)) _ (record f { offset = p }) _
                (AllBytes-take block_size _ (AllBytes-drop p input all)) h3,
          ),
        )

    reorder_loop-Faces :
        (n q : ℕ) (blockpos : List ℕ) (g : Engine) (f : FileView) (st : State)
        → Faces q f st
        → Pending input block_size n blockpos f.bytes
        → (r : ℕ) × (g' : FileView) × Faces r g'
            (reorder_loop os rng inf outf block_size n blockpos g st)
          × (g'.bytes ≡ input)
    unfolding reorder_loop
    reorder_loop-Faces zero q blockpos g f st h p =
        (q, f, h, complete input block_size blockpos f.bytes p)
    reorder_loop-Faces (suc n) q blockpos g f st h p =
        let index = (random g).0 % suc n in
        let lt : index < suc n = mod-lt (random g).0 (omega arith) in
        let pos = get_or blockpos index 0 * block_size in
        let (go, placed) = block-Faces pos q f st h (p.blocks index lt) in
        rw (go, reorder_loop)
          (reorder_loop-Faces n placed.0 (set blockpos index (get_or blockpos n 0)) (random g).1 _ _
            placed.1
            (Pending-step input block_size n index blockpos f.bytes _ lt p
              (write_all-Placed input block_size pos f.bytes)))

    -- On an input of `nblocks` whole blocks, at most `30 << 20` of them, what `reordercat61` does behind
    -- its options leaves an exact copy, whatever order of the blocks its random numbers give.
    pub reorder_copy_lem :
        (nblocks q : ℕ) (g : Engine) (st : State)
        → nblocks * block_size ≡ length input
        → nblocks ≤ 31457280
        → Faces q (record { bytes = []; offset = 0 }) st
        → (last : State) × (reorder_copy os rng inf outf block_size (length input) g st
            ≡ returned (close_both os inf outf last))
          × ((r : ℕ) × (f : FileView) × Faces r f last × (f.bytes ≡ input))
    unfolding reorder_copy
    reorder_copy_lem nblocks q g st e small h =
        let small_file : ltb 31457280 nblocks ≡ false = ground arith in
        (
          reorder_loop os rng inf outf block_size nblocks (block_positions nblocks 0) g st,
          subst
              (λ size.
                reorder_copy os rng inf outf block_size size g st
                ≡ returned (
                    close_both os inf outf (
                      reorder_loop os rng inf outf block_size nblocks (block_positions nblocks 0) g
                        st)))
              e
              (rw
                (
                  mul-div_cancel nblocks some_size,
                  small_file,
                  (==_iff (nblocks * block_size) (nblocks * block_size)).1 refl,
                )
                refl),
          reorder_loop-Faces nblocks q (block_positions nblocks 0) g _ st h
              (initial input block_size nblocks some_size e),
        )
