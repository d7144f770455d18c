-- ===== src/Libc/Printer.antt =====
-- The printers behind `printer_vprintf` in pset4/lib.cc: the one that writes to a buffer, for
-- `vsnprintf`, and the one that writes to the console.
pub mod Buffer
pub mod Console
mod Tests
use Prim.Native.Nat.{bit_or}
use cs61_f18_psets.Base.{
  ℕ, zero, suc, ◌+◌, ◌-◌, ◌*◌, ◌%◌, ◌^◌, Bool, true, false, Option, none, some, List, [], ◌∷◌, ltb,
  leb, ◌==◌, if◌then◌else◌,
}
use cs61_f18_psets.Base.Int.{ℤ, pos, negsuc}
use cs61_f18_psets.Libc.Mem.{Memory, store, memmove, memset}
use cs61_f18_psets.Libc.Format.{Arg}
use cs61_f18_psets.Libc.Printf.{Call, Printing, printed, undefined, unfinished, printer_vprintf}

-- `string_printer`, with the memory that it writes to.
pub record StringPrinter : Type 0 where
  pub memory : Memory
  pub s : ℕ
  pub end : ℕ
  pub n : ℕ

unfoldable pub string_putc : ℕ → StringPrinter → StringPrinter
string_putc c sp =
    let fits = ltb sp.s sp.end in
    record sp {
      memory = if fits then store sp.memory sp.s c else sp.memory;
      s = if fits then sp.s + 1 else sp.s;
      n = (sp.n + 1) % 2 ^ 64;
    }

unfoldable pub string_calls : List Call → StringPrinter → StringPrinter
string_calls [] sp = sp
string_calls ((c, color) ∷ calls) sp = string_calls calls (string_putc c sp)

-- The terminator.
unfoldable pub terminate : ℕ → StringPrinter → ℕ → ℕ
terminate size sp a =
    if size == 0
    then sp.memory a
    else if ltb sp.s sp.end
    then store sp.memory sp.s 0 a
    else store sp.memory (sp.end - 1) 0 a

abbrev pub start : Memory → ℕ → ℕ → StringPrinter
start m s size = record { memory = m; s = s; end = s + size; n = 0 }

unfoldable pub into_buffer : ℕ → StringPrinter → Printing → Option (ℕ × Memory)
into_buffer size sp (printed calls) =
    let last = string_calls calls sp in some (last.n, terminate size last)
into_buffer size sp undefined = none
into_buffer size sp unfinished = none

-- The result and the memory that is left. The buffer does not reach the end of the address space.
unfoldable pub vsnprintf : Memory → ℕ → ℕ → List ℕ → List Arg → Option (ℕ × Memory)
vsnprintf m s size format args = into_buffer size (start m s size) (printer_vprintf 0 format args)

abbrev pub columns : ℕ
columns = 80

abbrev pub rows : ℕ
rows = 25

-- `console_printer`, with the cells of `console`; the cursor is an index.
pub record ConsolePrinter : Type 0 where
  pub cells : Memory
  pub cursor : ℕ
  pub scroll : Bool

-- The body of the `while` loop.
unfoldable pub make_room : ConsolePrinter → ConsolePrinter
make_room cp =
    if cp.scroll
    then record cp {
      cells =
          memset (memmove cp.cells 0 columns ((rows - 1) * columns)) ((rows - 1) * columns) 0
            columns;
      cursor = cp.cursor - columns;
    }
    else record cp { cursor = 0 }

-- `none` means that the fuel ran out.
unfoldable pub room_loop : ℕ → ConsolePrinter → Option ConsolePrinter
room_loop zero cp = none
room_loop (suc fuel) cp = elim (leb (rows * columns) cp.cursor) [
  | true ↦ room_loop fuel (make_room cp)
  | false ↦ some cp
]

-- `*cp->cursor++ = c | color;`
unfoldable pub put_cell : ℕ → ℕ → ConsolePrinter → ConsolePrinter
put_cell c color cp = record cp {
  cells = store cp.cells cp.cursor (bit_or c color % 2 ^ 16);
  cursor = cp.cursor + 1;
}

-- `for (; pos != 80; pos++) *cp->cursor++ = ' ' | color;`, `n` columns before the end of the line.
unfoldable pub blank_line : ℕ → ℕ → ConsolePrinter → ConsolePrinter
blank_line zero color cp = cp
blank_line (suc n) color cp = blank_line n color (put_cell b' ' color cp)

unfoldable pub write_char : ℕ → ℕ → ConsolePrinter → ConsolePrinter
write_char c color cp =
    if c == 10 then blank_line (80 - cp.cursor % 80) color cp else put_cell c color cp

unfoldable pub console_putc : ℕ → ℕ → ConsolePrinter → Option ConsolePrinter
console_putc c color cp = elim (room_loop (suc cp.cursor) cp) [
  | none ↦ none
  | some cp' ↦ some (write_char c color cp')
]

unfoldable pub console_calls : List Call → ConsolePrinter → Option ConsolePrinter
console_calls [] cp = some cp
console_calls ((c, color) ∷ calls) cp = elim (console_putc c color cp) [
  | none ↦ none
  | some cp' ↦ console_calls calls cp'
]

-- The variables `console` and `cursorpos`.
pub record Screen : Type 0 where
  pub console : Memory
  pub cursorpos : ℕ

-- Where `console_vprintf` starts: a negative `cpos` stands for the cursor.
unfoldable pub console_start : ℤ → Screen → ConsolePrinter
console_start (negsuc k) sc = record { cells = sc.console; cursor = sc.cursorpos; scroll = true }
console_start (pos p) sc = record {
  cells = sc.console;
  cursor = if leb p (rows * columns) then p else 0;
  scroll = false;
}

-- The result and the screen that is left; `console_show_cursor` is hardware.
unfoldable pub console_end : ℤ → Screen → ConsolePrinter → ℕ × Screen
console_end (negsuc k) sc cp = (cp.cursor, record { console = cp.cells; cursorpos = cp.cursor })
console_end (pos p) sc cp = (cp.cursor, record sc { console = cp.cells })

unfoldable pub onto_console : ℤ → Screen → Printing → Option (ℕ × Screen)
onto_console cpos sc (printed calls) = elim (console_calls calls (console_start cpos sc)) [
  | none ↦ none
  | some cp ↦ some (console_end cpos sc cp)
]
onto_console cpos sc undefined = none
onto_console cpos sc unfinished = none

unfoldable pub console_vprintf : ℤ → ℕ → List ℕ → List Arg → Screen → Option (ℕ × Screen)
console_vprintf cpos color format args sc = onto_console cpos sc (printer_vprintf color format args)

-- `console[i] = ' ' | 0x0700`, `n` cells left.
unfoldable pub clear_cells : ℕ → ℕ → Memory → Memory
clear_cells zero i m = m
clear_cells (suc n) i m = clear_cells n (i + 1) (store m i 0x720)

unfoldable pub console_clear : Screen → Screen
console_clear sc = record { console = clear_cells (rows * columns) 0 sc.console; cursorpos = 0 }
