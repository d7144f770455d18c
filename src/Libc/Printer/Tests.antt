-- ===== src/Libc/Printer/Tests.antt =====
-- Runs of the formatted printing.
use cs61_f18_psets.Base.Text.{codes}
use cs61_f18_psets.Base.{ℕ, ◌≤◌, ◌≡◌, refl, true, some, List, [], ◌∷◌, arith}
use cs61_f18_psets.Base.Int.{pos, negsuc}
use cs61_f18_psets.Libc.Mem.{Memory}
use cs61_f18_psets.Libc.Number.{strtol, fill_numbuf, fill_loop, to_long}
use cs61_f18_psets.Libc.Format.{
  number, string, no_flags, Flags, signed, scan_flags, scan_width, scan_precision,
  scan_precision_number, scan_digits, conversion, item_of, to_int,
}
use cs61_f18_psets.Libc.Printf.{
  printed, paint, printer_vprintf, printf_loop, directive, render, text_of, prefix_of, shown,
  zeros_of, field,
}
use cs61_f18_psets.Libc.Printf.Number.{strtol-render}
use cs61_f18_psets.Libc.Printer.{
  vsnprintf, ConsolePrinter, Screen, console_vprintf, console_clear, clear_cells,
}
use cs61_f18_psets.Libc.Printer.Buffer.{vsnprintf_lem, contents}
use cs61_f18_psets.Libc.Printer.Console.{console_vprintf-InScreen}

-- `%-6.3s|%+05ld|%#x%%`
format_run :
    printer_vprintf 7
      (codes "%-6.3s|%+05ld|%#x%%")
      (string (codes "abcdef") ∷ number 42 ∷ number 255 ∷ [])
    ≡ printed (paint 7 (codes "abc   |+0042|0xff%"))
unfolding printer_vprintf printf_loop directive scan_flags scan_width scan_precision
    scan_precision_number scan_digits conversion item_of render text_of prefix_of shown zeros_of
    field fill_numbuf fill_loop to_long to_int
format_run = refl

abbrev padded : Flags
padded = record no_flags { zeroed = true; plus = true }

strtol-render_example :
    (s : List ℕ) × (render padded (pos 9) (negsuc 0) (signed (negsuc 41)) ≡ some s)
    × ((strtol s 10).0 ≡ negsuc 41)
strtol-render_example =
    strtol-render padded (pos 9) (negsuc 0) (negsuc 41) (omega arith, omega arith)

abbrev blank : Memory
blank a = 0

hello_run : printer_vprintf 0 (codes "hello") [] ≡ printed (paint 0 (codes "hello"))
unfolding printer_vprintf printf_loop
hello_run = refl

-- Three bytes of room.
vsnprintf_example :
    (m : Memory) × (vsnprintf blank 100 3 (codes "hello") [] ≡ some (5, m))
    × ((a : ℕ) → m a ≡ contents blank 100 3 (codes "hello") a)
vsnprintf_example = vsnprintf_lem blank 100 3 (codes "hello") [] (paint 0 (codes "hello")) hello_run

abbrev bottom : ConsolePrinter
bottom = record { cells = λ i. i; cursor = 2000; scroll = true }

abbrev last_cell : Screen
last_cell = record { console = blank; cursorpos = 1999 }

console_vprintf_example :
    (r : ℕ) × (sc : Screen) × (console_vprintf (negsuc 0) 0 (codes "hello") [] last_cell
      ≡ some (r, sc))
    × (r ≤ 2000)
    × (sc.cursorpos ≤ 2000)
    × ((i : ℕ) → 2000 ≤ i → sc.console i ≡ 0)
console_vprintf_example =
    console_vprintf-InScreen (negsuc 0) 0 (codes "hello") [] last_cell (paint 0 (codes "hello"))
      (omega arith) hello_run

clear_run : (console_clear last_cell).console 7 ≡ 0x720
unfolding console_clear clear_cells
clear_run = refl
