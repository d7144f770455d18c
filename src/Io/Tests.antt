-- ===== src/Io/Tests.antt =====
-- A system in memory, on which the assumptions on files hold and the programs run.
use cs61_f18_psets.Base.{
  ℕ, zero, suc, ◌+◌, ◌≡◌, true, Option, none, some, List, [], ◌∷◌, get_elem?, length, take, refl,
  arith,
}
use cs61_f18_psets.Io.Os.{Os, Random}
use cs61_f18_psets.Io.File.{
  io61_readc, io61_read, io61_writec, io61_write, write_loop, io61_seek, io61_close, io61_flush,
  io61_open_check,
}
use cs61_f18_psets.Io.Copy.{
  Arguments, open_both, close_both, cat61, randblockcat61, reverse_loop, reverse_files, reverse61,
  input_size_of,
}
use cs61_f18_psets.Io.Shuffle.{
  Ending, returned, stridecat61, stride_copy, stride_loop, next_stride, read_line, read_to_newline,
  scatter_loop, scattergather61, open_all, close_all, reordercat61, reorder_output, reorder_copy,
  reorder_loop, block_positions,
}
use cs61_f18_psets.Io.Steps.{Stand, Facing}
use cs61_f18_psets.Io.Copied.{cat61_lem, randblockcat61_lem}
use cs61_f18_psets.Io.Reordered.{reorder_copy_lem}
use cs61_f18_psets.Io.Reversed.{reversed, reverse61_lem}
use cs61_f18_psets.Io.Files.{FileView, Regular, byte_read, step_past, put_byte}

-- Descriptor 0 reads, and every other one writes.
pub record TwoFiles : Type 0 where
  pub from : FileView
  pub to : FileView

abbrev memory_read : ℕ → ℕ → TwoFiles → Option (List ℕ) × TwoFiles
memory_read fd n st = (
  some (byte_read (get_elem? st.from.bytes st.from.offset)),
  record st { from = step_past st.from },
)

abbrev put_bytes : List ℕ → FileView → FileView
put_bytes [] f = f
put_bytes (c ∷ s) f = put_bytes s (put_byte c f)

abbrev memory_write : ℕ → List ℕ → TwoFiles → Option ℕ × TwoFiles
memory_write fd s st = (some (length s), record st { to = put_bytes s st.to })

abbrev seek_in : ℕ → ℕ → TwoFiles → TwoFiles
seek_in zero p st = record st { from = record (st.from) { offset = p } }
seek_in (suc fd) p st = record st { to = record (st.to) { offset = p } }

abbrev memory : Os
memory = record {
  State = TwoFiles;
  open_file = λ name mode st. (some 2, st);
  read = memory_read;
  write = memory_write;
  lseek = λ fd p st. (some p, seek_in fd p st);
  fstat = λ fd st. some (true, length st.from.bytes);
  close = λ fd st. (true, st);
}

abbrev memory_files : Regular memory 0 1
memory_files = record {
  source = λ st. st.from;
  sink = λ st. st.to;
  read_result = λ st. refl;
  read_source = λ st. refl;
  read_sink = λ st. refl;
  write_result = λ c st. refl;
  write_sink = λ c st. refl;
  write_source = λ c st. refl;
  seek_result = λ p st. refl;
  seek_source = λ p st. refl;
  seek_sink = λ p st. refl;
  seek_out_result = λ p st. refl;
  seek_out_sink = λ p st. refl;
  seek_out_source = λ p st. refl;
}

abbrev input : List ℕ
input = 10 ∷ 20 ∷ 30 ∷ 40 ∷ 50 ∷ 60 ∷ []

abbrev before : TwoFiles
before = record {
  from = record { bytes = input; offset = 0 };
  to = record { bytes = []; offset = 0 };
}

-- `-s 8 -b 2 -t 3`, from the standard input to the standard output.
abbrev arguments : Arguments
arguments = record {
  input_size = 8;
  block_size = 2;
  stride = 3;
  input_file = none;
  output_file = none;
}

abbrev counter : Random
counter = record { Engine = ℕ; random = λ g. (g, g + 1) }

abbrev bytes_of : Option TwoFiles → List ℕ
bytes_of none = []
bytes_of (some st) = st.to.bytes

abbrev ending_bytes : Ending TwoFiles → List ℕ
ending_bytes (returned st) = st.to.bytes
ending_bytes _ = []

before-Stand : Stand memory 0 1 memory_files input 0 [] before
before-Stand = record { at = refl; done = refl }

opens : open_both memory arguments before ≡ some (0, 1, before)
unfolding open_both io61_open_check
opens = refl

sized : input_size_of memory 0 arguments before ≡ some 8
unfolding input_size_of
sized = refl

-- Two characters are missing.
reverse_run :
    bytes_of (reverse61 memory arguments before) ≡ 255 ∷ 255 ∷ 60 ∷ 50 ∷ 40 ∷ 30 ∷ 20 ∷ 10 ∷ []
unfolding reverse61 open_both io61_open_check input_size_of reverse_files reverse_loop io61_seek
    io61_readc io61_writec close_both io61_close io61_flush
reverse_run = refl

-- The columns 0 to 1 and 2 of a stride of three.
stride_run :
    ending_bytes (stridecat61 memory 9 (record arguments { input_size = 6 }) before)
    ≡ 10 ∷ 20 ∷ 40 ∷ 50 ∷ 30 ∷ 60 ∷ []
unfolding stridecat61 stride_copy stride_loop next_stride io61_open_check input_size_of io61_seek
    io61_readc io61_read io61_writec io61_write write_loop close_both io61_close io61_flush
stride_run = refl

reorder_run :
    ending_bytes (reordercat61 memory counter (record arguments { input_size = 6 }) 1 before)
    ≡ input
unfolding reordercat61 reorder_output reorder_copy reorder_loop block_positions io61_open_check
    input_size_of io61_seek io61_readc io61_read io61_writec io61_write write_loop close_both
    io61_close io61_flush
reorder_run = refl

cat61_example :
    (last : TwoFiles) × (cat61 memory arguments before ≡ some (close_both memory 0 1 last))
    × ((q : ℕ) × Stand memory 0 1 memory_files input q (take 8 input) last)
cat61_example =
    cat61_lem memory 0 1 memory_files input (omega arith) arguments before before opens before-Stand

randblockcat61_example :
    (last : TwoFiles) × (randblockcat61 memory counter 7 arguments 5 before
      ≡ some (close_both memory 0 1 last))
    × ((q : ℕ) × Stand memory 0 1 memory_files input q input last)
randblockcat61_example =
    randblockcat61_lem memory 0 1 memory_files input (omega arith) counter 7 arguments 5 before
      before (omega arith) opens before-Stand

reverse61_example :
    (last : TwoFiles) × (reverse61 memory arguments before ≡ some (close_both memory 0 1 last))
    × ((q : ℕ) × Stand memory 0 1 memory_files input q (reversed 8 input) last)
reverse61_example =
    reverse61_lem memory 0 1 memory_files input (omega arith) arguments 8 before before opens sized
      before-Stand

reorder_copy_example :
    (last : TwoFiles) × (reorder_copy memory counter 0 1 2 (length input) 7 before
      ≡ returned (close_both memory 0 1 last))
    × ((r : ℕ) × (f : FileView) × Facing memory 0 1 memory_files input r f last × (f.bytes ≡ input))
reorder_copy_example =
    reorder_copy_lem memory 0 1 memory_files input (omega arith) counter 2 (omega arith) 3 0 7
      before refl (omega arith) (record { at = refl; done = refl })

-- One input and one output, by lines.
scatter_run : ending_bytes (scattergather61 memory 5 4 true (none ∷ []) (none ∷ []) before) ≡ input
unfolding scattergather61 open_all close_all scatter_loop read_line read_to_newline io61_open_check
    io61_readc io61_writec io61_write write_loop io61_close io61_flush
scatter_run = refl
