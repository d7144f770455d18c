-- ===== src/Lib.antt =====
-- A verification library for the programs of the CS 61 problem sets: the allocators of pset1, the
-- I/O programs of pset3, the WeensyOS kernel and its C library (pset4), the shell's tokenizer (pset5)
-- and the pong programs (pset6).
--
-- The parts and their files
--
-- * Base holds what the parts share: Boolean tests on the native ℕ, lists read and written by an
--   index, and the integers.
-- * Kernel is pset4's kernel. Kernel.Machine has its state: the process table, the current process,
--   the ticks, the owner of each physical page, memory byte by byte, and the static variables of
--   `kalloc` and `memshow` (pset4/kernel.cc, pset4/kernel.hh). Kernel.Memory has the page allocator
--   `kalloc`, `kfree` and `kalloc_physical_page` with `allocatable_physical_address` of
--   pset4/k-hardware.cc. Kernel.Schedule has `run`, `schedule` and `memshow`; Kernel.Trap has
--   `exception` and `syscall`, which call all of these; Kernel.Boot has the process table as `kernel`
--   sets it up and `init_process`. Kernel.Loader has the `program_loader` of pset4/k-hardware.cc, over
--   the headers of pset4/elf.h, and Kernel.Setup has `process_setup` and `kernel`, up to the first
--   process. Its theorems take the loading apart: Kernel.Setup.Pages has the pages that are taken,
--   Kernel.Setup.Bytes what is copied into them, Kernel.Setup.Started and Kernel.Setup.Whole the
--   process that comes of it, Kernel.Setup.Room and Kernel.Setup.Finish when there is room for it, and
--   Kernel.Setup.Booted the state that the first process finds. Kernel.Symbols is the binary search of
--   `lookup_symbol`, and Kernel.Keyboard `keyboard_readc` with `check_keyboard`. What a process does
--   between two traps shows in the registers that it brings into the next one, which the theorems
--   leave open; the bytes that it writes are the subject of its page table. A reachable state is one
--   that a sequence of traps leads to.
-- * Kernel.PageTable is `vmiter` of pset4/k-vmiter.cc and pset4/k-vmiter.hh: `find`, `next`, `step`
--   and what an iterator reads, with `map` in Kernel.PageTable.Map. The entries are a function from an
--   entry's address to its 64 bits, and `kalloc` comes in by the interface PageSource, which
--   Kernel.PageTable.Source fills with the kernel's own `kalloc`.
-- * Libc is pset4/lib.cc, which the kernel and the processes share: Libc.Mem has the routines that
--   copy and fill memory, Libc.Compare those that compare areas and strings, Libc.Number `strtoul`,
--   with the numerals that it reads in Libc.Number.Numeral, `strtol` and `fill_numbuf`, the digits of the kernel's `printf`, and Libc.Random `rand`.
--   Libc.Format and Libc.Printf have `printer_vprintf`: a directive's flags, width, precision and
--   conversion, and the characters that it prints. Libc.Printer has the two printers they go to,
--   `string_printer` with `vsnprintf`, and `console_printer` with the scrolling of the screen.
-- * Shell is pset5: Shell.Token has `parse_shell_token` of pset5/helpers.cc and the token loop of
--   `eval_line` in pset5/sh61.cc.
-- * Io is pset3: Io.File has pset3/io61.cc, every call of which takes the system's state; Io.Copy has
--   pset3/cat61.cc, blockcat61.cc, randblockcat61.cc and reverse61.cc, Io.Shuffle has
--   pset3/stridecat61.cc, ostridecat61.cc, scattergather61.cc and reordercat61.cc. Io.Files says what
--   the theorems assume of regular files, and Io.Tests has a system in memory that meets it.
-- * BaseAlloc is pset1: pset1/basealloc.cc, over a heap of the C library's with the size of each block, and in BaseAlloc.M61 the functions of pset1/m61.cc.
-- * Pong is pset6: Pong.Board and Pong.Ball have `pong_board` and `pong_ball` of pset6/pongboard.hh,
--   Pong.Setup and Pong.Simulation the constructors and the loops of `main` in pset6/simpong61.cc,
--   Pong.Motion the loop that moves the balls, Pong.Placed, Pong.Fair and Pong.SetUp when the loops
--   of `main` end, Pong.Picture the lines that `signal_handler` writes.
--   Pong.Invariant says that a ball stands on the cell that points to it and on no obstacle, and that
--   no two balls share a cell. Pong.Client has the game of `main` in pset6/pong61.cc, with its one ball.
-- * Http is the rest of pset6/pong61.cc: `http_connection` with the state of a connection, its parser of
--   response headers, the loops that send a request and receive a response, and `pong_thread`. The
--   results of `read` and `write` are lists, one element for each call.
--
-- Data
--
-- A pointer into an array is an index, a null pointer is `none`, and `cell(x, y)` outside the board is
-- the obstacle cell of its own that the code has. A C string is the list of the bytes before its
-- terminator. Fixed-width counters keep their wrap-around; pong's coordinates are integers without
-- bounds, which agree with `int` where the board has fewer than 2^31 cells, since the source multiplies
-- the sides; a larger board is undefined in C++, and no theorem is to be read for it. The client of
-- pset6 writes behind the end of `buf_` without a test; the model tests for it and ends in `overran`. A failed assertion or a kernel
-- panic is an outcome of its own, and so is a program's `exit(1)`. A shift is a division by a power of
-- two, and a mask of low bits a remainder.
--
-- Fuel
--
-- The loop of `kalloc` has one round more than memory has pages, and it always ends. `eval_line` has
-- one round more than its line has characters, and it always ends; `printer_vprintf` has the same of
-- its format. `schedule` spins while no process can run; the number of spins is an argument, and 16
-- are enough when one can. The loops of pset6/simpong61.cc draw random cells until one is free; how
-- many draws that takes is the engine's choice, so the fuel is an argument, which is enough when so many
-- pairs of draws bring up every cell. `fill_numbuf` divides by
-- its base until nothing is left, which a number has fewer rounds for than it counts. `vmiter::map`
-- has four rounds, one for each level of the walk. The block loops of pset3 have an argument for their
-- rounds, and one more than the file has characters is enough, as they read one at least in each. A
-- loop over a `program_loader` has as many rounds as the executable has headers, and `lookup_symbol` one
-- more than the table has symbols. The loop around `ball.move()` in pset6/pong61.cc has an argument for
-- its calls: one is enough on a board with two rows and columns. The loops of Http end with the lists
-- of results that they are given.
--
-- Parameters
--
-- The end of the kernel's image (`kernel_end`, set by the linker), the C++ library's random engine (a
-- record with draws that stay in the range asked for), the C library's `BUFSIZ`, `random`, `malloc`
-- and `free`, and the operating system's `open`, `read`, `write`, `lseek`, `fstat` and `close`; the
-- executables that are linked into the kernel, its symbol table, the address of its page table, what
-- physical memory holds when the kernel starts, and the bytes from the keyboard; for pset6/pong61.cc whether `strtod` finds a negative number.
--
-- Not modelled
--
-- `ptiter`, descriptor tables and port I/O of pset4/k-hardware.cc, the
-- drawing of memory, and the boot loader and the host's build tools. `command::run` and `make_child`
-- of pset5 are stubs in the repository, as are the statistics of pset1/m61.cc. The argument parser and
-- the timing of pset3/profile61.cc, its two other versions of the I/O library, and
-- pset3/pipeexchange61.cc are left out: the programs take their parsed arguments. pset6's look-up
-- of the server, its sockets and threads, and the waiting for `move_done` are left to the system; data
-- races between threads that move balls without synchronization are not part of this library.
mod Base
pub mod Kernel
pub mod Libc
pub mod Shell
pub mod Io
pub mod Http
pub mod BaseAlloc
pub mod Pong
