-- ===== src/Io/Shuffle.antt =====
-- The programs of pset3 that move between blocks or files: pset3/stridecat61.cc,
-- pset3/ostridecat61.cc, pset3/reordercat61.cc and pset3/scattergather61.cc. A buffer holds whatever is
-- read into it.
use cs61_f18_psets.Base.{
  ℕ, zero, suc, ◌+◌, ◌-◌, ◌*◌, ◌/◌, ◌%◌, ◌^◌, Bool, true, false, not, ◌||◌, Option, none, some,
  List, [], ◌∷◌, length, get_or, set, ltb, leb, ◌==◌, if◌then◌else◌,
}
use cs61_f18_psets.Io.Os.{Os, Random}
use cs61_f18_psets.Io.File.{
  read_only, write_only, io61_readc, io61_read, io61_write, io61_close, io61_seek, io61_filesize,
  io61_open_check, is_empty, Mode,
}
use cs61_f18_psets.Io.Copy.{Arguments, block_size_or, close_both, input_size_of}

-- How a program ends: it returns, exits with an error, fails an assertion, or runs out of fuel.
pub data Ending (S : Type 0) : Type 0 where
  returned : S → Ending S
  exited failed unfinished : Ending S

-- "Move file position to next stride": `pos` and `block_size`, which are 64-bit words.
unfoldable pub next_stride : ℕ → ℕ → ℕ → ℕ → ℕ × ℕ
next_stride stride input_size pos block_size =
    let moved = (pos + stride) % 2 ^ 64 in
    let wrapped = (moved % stride + block_size) % 2 ^ 64 in
    if leb input_size moved
    then (
      wrapped,
      if ltb stride ((wrapped + block_size) % 2 ^ 64)
          then (stride + 2 ^ 64 - wrapped) % 2 ^ 64
          else block_size,
    )
    else (moved, block_size)

-- The array of block positions, `for (size_t i = 0; i < nblocks; ++i) blockpos[i] = i;`, from `i` on.
unfoldable pub block_positions : ℕ → ℕ → List ℕ
block_positions zero i = []
block_positions (suc n) i = i ∷ block_positions n (i + 1)

-- `infs.erase(infs.begin() + ini)`.
abbrev pub erase : ℕ → List ℕ → List ℕ
erase i [] = []
erase zero (x ∷ xs) = xs
erase (suc i) (x ∷ xs) = x ∷ erase i xs

module _ (os : Os) where
  open os use {State}

  abbrev pub close_after : ℕ → ℕ → Ending State → Ending State
  close_after inf outf (returned st) = returned (close_both os inf outf st)
  close_after inf outf exited = exited
  close_after inf outf failed = failed
  close_after inf outf unfinished = unfinished

  -- The loop of pset3/stridecat61.cc, where `moving` is `inf`, and of pset3/ostridecat61.cc, where
  -- it is `outf`.
  unfoldable pub stride_loop : ℕ → ℕ → ℕ → ℕ → ℕ → ℕ → ℕ × ℕ → ℕ → State → Ending State
  stride_loop zero inf outf moving stride input_size (pos, block_size) written st = unfinished
  stride_loop (suc fuel) inf outf moving stride input_size (pos, block_size) written st =
      let (buf, st1) = io61_read os inf block_size st in
      let st2 = (io61_write os outf buf st1).1 in
      let next = next_stride stride input_size pos block_size in
      let (good, st3) = io61_seek os moving next.0 st2 in
      elim (ltb written input_size) [
        | false ↦ returned st
        | true ↦ elim (is_empty buf) [
          | true ↦ returned st1
          | false ↦ elim good [
            | false ↦ failed
            | true ↦
                stride_loop fuel inf outf moving stride input_size next (written + length buf) st3
          ]
        ]
      ]

  -- Behind the tests of pset3/stridecat61.cc: the output is opened, and the blocks are copied.
  unfoldable pub stride_copy : ℕ → Arguments → ℕ → ℕ → State → Ending State
  stride_copy fuel args inf size st = elim (io61_open_check os args.output_file write_only st) [
    | none ↦ exited
    | some (outf, st1) ↦
        close_after inf outf
          (stride_loop fuel inf outf inf args.stride size (0, block_size_or 1 args) 0 st1)
  ]

  unfoldable pub stridecat61 : ℕ → Arguments → State → Ending State
  stridecat61 fuel args st = elim (io61_open_check os args.input_file read_only st) [
    | none ↦ exited
    | some (inf, st1) ↦ elim (input_size_of os inf args st1) [
      | none ↦ exited
      | some size ↦
          let (good, st2) = io61_seek os inf 0 st1 in
          elim good [ false ↦ exited | true ↦ stride_copy fuel args inf size st2 ]
    ]
  ]

  -- Here the output is sought, and the size is always the file's.
  unfoldable pub ostride_copy : ℕ → Arguments → ℕ → ℕ → ℕ × State → Ending State
  ostride_copy fuel args inf size (outf, st) =
      let (good, st1) = io61_seek os outf 0 st in
      elim good [
        | false ↦ exited
        | true ↦
            close_after inf outf
              (stride_loop fuel inf outf outf args.stride size (0, block_size_or 1 args) 0 st1)
      ]

  unfoldable pub ostridecat61 : ℕ → Arguments → State → Ending State
  ostridecat61 fuel args st = elim (io61_open_check os args.input_file read_only st) [
    | none ↦ exited
    | some (inf, st1) ↦ elim (io61_filesize os inf st1) [
      | none ↦ exited
      | some size ↦ elim (io61_open_check os args.output_file write_only st1) [
        | none ↦ exited
        | some opened ↦ ostride_copy fuel args inf size opened
      ]
    ]
  ]

  -- `read_line` of pset3/scattergather61.cc, by lines.
  unfoldable pub read_to_newline : ℕ → ℕ → State → List ℕ × State
  read_to_newline fd zero st = ([], st)
  read_to_newline fd (suc n) st =
      let (ch, st1) = io61_readc os fd st in
      elim ch [
        | none ↦ ([], st1)
        | some c ↦ elim (c == 10) [
          | true ↦ (c ∷ [], st1)
          | false ↦ let (rest, last) = read_to_newline fd n st1 in (c ∷ rest, last)
        ]
      ]

  unfoldable pub read_line : ℕ → ℕ → Bool → State → List ℕ × State
  read_line fd sz lines st = if lines then read_to_newline fd sz st else io61_read os fd sz st

  -- `while (!infs.empty())`; `ini` and `outi` are 64-bit words.
  unfoldable pub scatter_loop : ℕ → ℕ → Bool → ℕ → ℕ → List ℕ → List ℕ → State → Ending State
  scatter_loop zero size lines ini outi infs outfs st = unfinished
  scatter_loop (suc fuel) size lines ini outi infs outfs st =
      let i = (ini + 1) % 2 ^ 64 % length infs in
      let fd = get_or infs i 0 in
      let (buf, st1) = read_line fd size lines st in
      elim (is_empty infs) [
        | true ↦ returned st
        | false ↦ elim (is_empty buf) [
          | true ↦
              scatter_loop fuel size lines ((i + 2 ^ 64 - 1) % 2 ^ 64) outi (erase i infs) outfs
                (io61_close os fd st1).1
          | false ↦
              scatter_loop fuel size lines i ((outi + 1) % length outfs) infs outfs
                (io61_write os (get_or outfs outi 0) buf st1).1
        ]
      ]

  -- The files of the vectors `args.input_files` and `args.output_files`.
  unfoldable pub open_all : Mode → List (Option (List ℕ)) → State → Option (List ℕ × State)
  open_all mode [] st = some ([], st)
  open_all mode (filename ∷ names) st = elim (io61_open_check os filename mode st) [
    | none ↦ none
    | some (fd, st1) ↦ elim (open_all mode names st1) [
      | none ↦ none
      | some (fds, st2) ↦ some (fd ∷ fds, st2)
    ]
  ]

  unfoldable pub close_all : List ℕ → Ending State → Ending State
  close_all (fd ∷ fds) (returned st) = close_all fds (returned (io61_close os fd st).1)
  close_all fds ending = ending

  -- `ini` starts at -1.
  unfoldable pub scattergather61 :
      ℕ → ℕ → Bool → List (Option (List ℕ)) → List (Option (List ℕ)) → State → Ending State
  scattergather61 fuel size lines input_files output_files st =
      elim (open_all read_only input_files st) [
        | none ↦ exited
        | some (infs, st1) ↦ elim (open_all write_only output_files st1) [
          | none ↦ exited
          | some (outfs, st2) ↦ close_all outfs (
              scatter_loop fuel (if size == 0 then 1 else size) lines (2 ^ 64 - 1) 0 infs outfs st2)
        ]
      ]

module _ (os : Os) (rng : Random) where
  open os use {State}
  open rng use {Engine, random}

  -- `while (nblocks != 0)` of pset3/reordercat61.cc.
  unfoldable pub reorder_loop : ℕ → ℕ → ℕ → ℕ → List ℕ → Engine → State → State
  reorder_loop inf outf block_size zero blockpos g st = st
  reorder_loop inf outf block_size (suc n) blockpos g st =
      let (r, g') = random g in
      let index = r % suc n in
      let pos = get_or blockpos index 0 * block_size in
      let rest = set blockpos index (get_or blockpos n 0) in
      let (buf, st1) = io61_read os inf block_size (io61_seek os inf pos st).1 in
      let st2 = (io61_write os outf buf (io61_seek os outf pos st1).1).1 in
      elim (is_empty buf) [ true ↦ st1 | false ↦ reorder_loop inf outf block_size n rest g' st2 ]

  -- Both files can be sought: the size is tested, and the blocks are copied.
  unfoldable pub reorder_copy : ℕ → ℕ → ℕ → ℕ → Engine → State → Ending State
  reorder_copy inf outf block_size size g st =
      let nblocks = size / block_size in
      if ltb 31457280 nblocks || not (nblocks * block_size == size)
      then exited
      else returned (
          close_both os inf outf
            (reorder_loop inf outf block_size nblocks (block_positions nblocks 0) g st))

  unfoldable pub reorder_output : Arguments → ℕ → ℕ → Engine → State → Ending State
  reorder_output args inf size g st = elim (io61_open_check os args.output_file write_only st) [
    | none ↦ exited
    | some (outf, st1) ↦
        let (good, st2) = io61_seek os outf 0 st1 in
        elim good [
          | false ↦ exited
          | true ↦ reorder_copy inf outf (block_size_or 4096 args) size g st2
        ]
  ]

  unfoldable pub reordercat61 : Arguments → Engine → State → Ending State
  reordercat61 args g st = elim (io61_open_check os args.input_file read_only st) [
    | none ↦ exited
    | some (inf, st1) ↦ elim (input_size_of os inf args st1) [
      | none ↦ exited
      | some size ↦
          let (good, st2) = io61_seek os inf 0 st1 in
          elim good [ false ↦ exited | true ↦ reorder_output args inf size g st2 ]
    ]
  ]
