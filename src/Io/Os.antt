-- ===== src/Io/Os.antt =====
-- The system calls that pset3/io61.cc makes. They belong to the operating system, so they are
-- parameters: each takes the system's state and returns its result and the next state.
use cs61_f18_psets.Base.{ℕ, Bool, Option, List}

pub record Os : Type 1 where
  pub State : Type 0
  -- `open(filename, mode, 0666)`: a descriptor, or `none` for -1.
  pub open_file : List ℕ → ℕ → State → Option ℕ × State
  -- `read(fd, buf, n)`: the bytes that were read, or `none` for -1.
  pub read : ℕ → ℕ → State → Option (List ℕ) × State
  -- `write(fd, buf, n)`: the number of bytes that were written, or `none` for -1.
  pub write : ℕ → List ℕ → State → Option ℕ × State
  -- `lseek(fd, pos, SEEK_SET)`: the new offset, or `none` for -1.
  pub lseek : ℕ → ℕ → State → Option ℕ × State
  -- `fstat(fd, &s)`: `S_ISREG(s.st_mode)` and `s.st_size`, or `none` for -1.
  pub fstat : ℕ → State → Option (Bool × ℕ)
  -- `close(fd)`: whether it returns 0.
  pub close : ℕ → State → Bool × State

-- The C library's `random()`.
pub record Random : Type 1 where
  pub Engine : Type 0
  pub random : Engine → ℕ × Engine
