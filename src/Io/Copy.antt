-- ===== src/Io/Copy.antt =====
-- The programs that read their input in order, or backwards: pset3/cat61.cc, pset3/blockcat61.cc,
-- pset3/randblockcat61.cc and pset3/reverse61.cc. The arguments have been parsed; a size that was not
-- given is 2 ^ 64 - 1. Profiling is left out.
use cs61_f18_psets.Base.{
  ℕ, zero, suc, ◌+◌, ◌%◌, ◌^◌, true, false, Option, none, some, List, leb, ◌==◌, if◌then◌else◌,
}
use cs61_f18_psets.Io.Os.{Os, Random}
use cs61_f18_psets.Io.File.{
  read_only, write_only, io61_readc, io61_read, io61_writec, io61_write, io61_close, io61_seek,
  io61_filesize, io61_open_check, is_empty,
}

-- The members of `io61_arguments` that the programs read.
pub record Arguments : Type 0 where
  pub input_size : ℕ
  pub block_size : ℕ
  pub stride : ℕ
  pub input_file : Option (List ℕ)
  pub output_file : Option (List ℕ)

-- `args.block_size ? args.block_size : n`.
abbrev pub block_size_or : ℕ → Arguments → ℕ
block_size_or n args = if args.block_size == 0 then n else args.block_size

module _ (os : Os) where
  open os use {State}

  -- The two files, and the state with both open.
  unfoldable pub open_both : Arguments → State → Option (ℕ × ℕ × State)
  open_both args st = elim (io61_open_check os args.input_file read_only st) [
    | none ↦ none
    | some (inf, st1) ↦ elim (io61_open_check os args.output_file write_only st1) [
      | none ↦ none
      | some (outf, st2) ↦ some (inf, outf, st2)
    ]
  ]

  unfoldable pub close_both : ℕ → ℕ → State → State
  close_both inf outf st = (io61_close os outf (io61_close os inf st).1).1

  -- `while (args.input_size > 0)`.
  unfoldable pub cat_loop : ℕ → ℕ → ℕ → State → State
  cat_loop inf outf zero st = st
  cat_loop inf outf (suc size) st =
      let (ch, st1) = io61_readc os inf st in
      elim ch [ none ↦ st1 | some c ↦ cat_loop inf outf size (io61_writec os outf (some c) st1).1 ]

  -- `none` is an exit with an error.
  unfoldable pub cat61 : Arguments → State → Option State
  cat61 args st = elim (open_both args st) [
    | none ↦ none
    | some (inf, outf, st1) ↦ some (close_both inf outf (cat_loop inf outf args.input_size st1))
  ]

  -- `while (1)` in pset3/blockcat61.cc; `none` means that the fuel ran out.
  unfoldable pub block_loop : ℕ → ℕ → ℕ → ℕ → State → Option State
  block_loop zero inf outf size st = none
  block_loop (suc fuel) inf outf size st =
      let (buf, st1) = io61_read os inf size st in
      elim (is_empty buf) [
        | true ↦ some st1
        | false ↦ block_loop fuel inf outf size (io61_write os outf buf st1).1
      ]

  unfoldable pub blockcat61 : ℕ → Arguments → State → Option State
  blockcat61 fuel args st = elim (open_both args st) [
    | none ↦ none
    | some (inf, outf, st1) ↦ elim (block_loop fuel inf outf (block_size_or 4096 args) st1) [
      | none ↦ none
      | some st2 ↦ some (close_both inf outf st2)
    ]
  ]

  -- The loop of pset3/reverse61.cc.
  unfoldable pub reverse_loop : ℕ → ℕ → ℕ → State → State
  reverse_loop inf outf zero st = st
  reverse_loop inf outf (suc size) st =
      let st1 = (io61_seek os inf size st).1 in
      let (ch, st2) = io61_readc os inf st1 in
      reverse_loop inf outf size (io61_writec os outf ch st2).1

  -- `if ((ssize_t) args.input_size < 0) args.input_size = io61_filesize(inf);`
  unfoldable pub input_size_of : ℕ → Arguments → State → Option ℕ
  input_size_of inf args st =
      if leb (2 ^ 63) args.input_size then io61_filesize os inf st else some args.input_size

  unfoldable pub reverse_files : ℕ → ℕ → ℕ → State → Option State
  reverse_files inf outf size st =
      let (good, st1) = io61_seek os inf 0 st in
      elim good [
        | false ↦ none
        | true ↦ some (close_both inf outf (reverse_loop inf outf size st1))
      ]

  unfoldable pub reverse61 : Arguments → State → Option State
  reverse61 args st = elim (open_both args st) [
    | none ↦ none
    | some (inf, outf, st1) ↦ elim (input_size_of inf args st1) [
      | none ↦ none
      | some size ↦ reverse_files inf outf size st1
    ]
  ]

module _ (os : Os) (rng : Random) where
  open os use {State}
  open rng use {Engine, random}

  -- `while (1)` in pset3/randblockcat61.cc.
  unfoldable pub rand_block_loop : ℕ → ℕ → ℕ → ℕ → Engine → State → Option State
  rand_block_loop zero inf outf max_blocksize g st = none
  rand_block_loop (suc fuel) inf outf max_blocksize g st =
      let (r, g') = random g in
      let m = r % max_blocksize + 1 in
      let (buf, st1) = io61_read os inf m st in
      elim (is_empty buf) [
        | true ↦ some st1
        | false ↦ rand_block_loop fuel inf outf max_blocksize g' (io61_write os outf buf st1).1
      ]

  -- The generator has been seeded.
  unfoldable pub randblockcat61 : ℕ → Arguments → Engine → State → Option State
  randblockcat61 fuel args g st = elim (open_both os args st) [
    | none ↦ none
    | some (inf, outf, st1) ↦ elim (rand_block_loop fuel inf outf (block_size_or 4096 args) g st1) [
      | none ↦ none
      | some st2 ↦ some (close_both os inf outf st2)
    ]
  ]
