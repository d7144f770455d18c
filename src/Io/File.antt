-- ===== src/Io/File.antt =====
-- pset3/io61.cc, the handout's version of the I/O library: one system call for each character. An
-- `io61_file` is its descriptor.
use cs61_f18_psets.Base.{
  ℕ, zero, suc, ◌%◌, Bool, true, false, not, ◌||◌, Option, none, some, List, [], ◌∷◌, ◌==◌,
  if◌then◌else◌,
}
use cs61_f18_psets.Base.Int.{ℤ, pos, negsuc}
use cs61_f18_psets.Io.Os.{Os}

-- `O_RDONLY`, and the flags with which the programs open their output.
pub data Mode : Type 0 where
  read_only write_only : Mode

-- `buf[0]`, if the call returned 1.
abbrev pub one_byte : Option (List ℕ) → Option ℕ
one_byte none = none
one_byte (some []) = none
one_byte (some (c ∷ [])) = some c
one_byte (some (c ∷ d ∷ s)) = none

-- The `unsigned char` that a result of `io61_readc` is stored as; `EOF` is -1.
abbrev pub byte_of : Option ℕ → ℕ
byte_of none = 255
byte_of (some c) = c % 256

abbrev pub wrote_one : Option ℕ → Bool
wrote_one none = false
wrote_one (some n) = n == 1

abbrev pub is_empty : List ℕ → Bool
is_empty [] = true
is_empty (c ∷ buf) = false

abbrev pub is_at : ℕ → Option ℕ → Bool
is_at p none = false
is_at p (some r) = r == p

abbrev pub regular_size : Option (Bool × ℕ) → Option ℕ
regular_size none = none
regular_size (some (regular, size)) = if regular then some size else none

abbrev pub standard : Mode → ℕ
standard read_only = 0
standard write_only = 1

-- `O_RDONLY` and `O_WRONLY | O_CREAT | O_TRUNC` as Linux numbers them.
abbrev pub open_flags : Mode → ℕ
open_flags read_only = 0
open_flags write_only = 0x241

module _ (os : Os) where
  open os use {State, open_file, read, write, lseek, fstat, close}

  -- `none` is `EOF`.
  unfoldable pub io61_readc : ℕ → State → Option ℕ × State
  io61_readc fd st = let (r, st') = read fd 1 st in (one_byte r, st')

  -- The characters that are read; the result is their number.
  unfoldable pub io61_read : ℕ → ℕ → State → List ℕ × State
  io61_read fd zero st = ([], st)
  io61_read fd (suc n) st =
      let (ch, st') = io61_readc fd st in
      elim ch [
        | none ↦ ([], st')
        | some c ↦ let (rest, last) = io61_read fd n st' in (c ∷ rest, last)
      ]

  -- Whether the result is 0.
  unfoldable pub io61_writec : ℕ → Option ℕ → State → Bool × State
  io61_writec fd ch st = let (r, st') = write fd (byte_of ch ∷ []) st in (wrote_one r, st')

  -- The loop of `io61_write`: how much was written.
  unfoldable pub write_loop : ℕ → List ℕ → State → ℕ × State
  write_loop fd [] st = (0, st)
  write_loop fd (c ∷ buf) st =
      let (good, st') = io61_writec fd (some c) st in
      elim good [ false ↦ (0, st') | true ↦ let (n, last) = write_loop fd buf st' in (suc n, last) ]

  unfoldable pub io61_write : ℕ → List ℕ → State → ℤ × State
  io61_write fd buf st =
      let (n, last) = write_loop fd buf st in
      (if not (n == 0) || is_empty buf then pos n else negsuc 0, last)

  -- It buffers nothing.
  unfoldable pub io61_flush : ℕ → State → State
  io61_flush fd st = st

  unfoldable pub io61_close : ℕ → State → Bool × State
  io61_close fd st = close fd (io61_flush fd st)

  -- Whether the result is 0.
  unfoldable pub io61_seek : ℕ → ℕ → State → Bool × State
  io61_seek fd p st = let (r, st') = lseek fd p st in (is_at p r, st')

  -- `none` is -1.
  unfoldable pub io61_filesize : ℕ → State → Option ℕ
  io61_filesize fd st = regular_size (fstat fd st)

  abbrev pub opened : Option ℕ × State → Option (ℕ × State)
  opened (none, st) = none
  opened (some fd, st) = some (fd, st)

  -- `none` outside is `exit(1)`. `io61_fdopen` only stores the descriptor.
  unfoldable pub io61_open_check : Option (List ℕ) → Mode → State → Option (ℕ × State)
  io61_open_check none mode st = some (standard mode, st)
  io61_open_check (some filename) mode st = opened (open_file filename (open_flags mode) st)
