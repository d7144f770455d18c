-- ===== src/Libc/Printer/Console.antt =====
-- Where the console printer writes, and how it scrolls.
use cs61_f18_psets.Base.{
  ℕ, zero, suc, ◌+◌, ◌-◌, ◌%◌, ◌≤◌, ◌<◌, ◌≡◌, true, false, some, List, [], ◌∷◌, ltb, leb, ◌==◌,
  if◌then◌else◌, arith, refl, Bool-cases, inl, inr, ◌∙◌,
}
use cs61_f18_psets.Base.Int.{ℤ, pos, negsuc}
use cs61_f18_psets.Libc.Mem.{Memory, memmove, memset, memmove-Moved, memset_lem}
use cs61_f18_psets.Libc.Format.{Arg}
use cs61_f18_psets.Libc.Printf.{Call, printed, printer_vprintf}
use cs61_f18_psets.Libc.Printer.{
  ConsolePrinter, make_room, room_loop, put_cell, blank_line, write_char, console_putc,
  console_calls, Screen, console_start, console_end, onto_console, console_vprintf,
}

-- Every line has moved up by one and the last one is cleared.
abbrev pub Scrolled : Memory → Memory → Type 0
Scrolled m m' = (i : ℕ) → m' i ≡ (if ltb i 1920 then m (i + 80) else if ltb i 2000 then 0 else m i)

-- `memmove` and `memset` in `console_putc` scroll the screen by one line.
pub make_room-Scrolled :
    (cp : ConsolePrinter)
    → cp.scroll ≡ true
    → Scrolled cp.cells (make_room cp).cells × ((make_room cp).cursor ≡ cp.cursor - 80)
unfolding make_room
make_room-Scrolled cp e = rw e (λ i. moved i, refl)
  where
    moved :
        (i : ℕ)
        → memset (memmove cp.cells 0 80 1920) 1920 0 80 i
          ≡ (if ltb i 1920 then cp.cells (i + 80) else if ltb i 2000 then 0 else cp.cells i)
    moved i = ground (
      arith,
      memset_lem 80 (memmove cp.cells 0 80 1920) 1920 0 i,
      memmove-Moved cp.cells 0 80 1920 i,
    )

leb→le : (a b : ℕ) → leb a b ≡ true → a ≤ b
leb→le a b h = ground arith

leb→lt : (a b : ℕ) → leb a b ≡ false → b < a
leb→lt a b h = ground arith

lt→leb : (a b : ℕ) → b < a → leb a b ≡ false
lt→leb a b h = ground arith

-- A step keeps to the screen.
pub record InScreen (cp cp' : ConsolePrinter) : Type 0 where
  pub cursor : cp'.cursor ≤ 2000
  pub beyond : (i : ℕ) → 2000 ≤ i → cp'.cells i ≡ cp.cells i

InScreen-trans : (a b c : ConsolePrinter) → InScreen a b → InScreen b c → InScreen a c
InScreen-trans a b c h k = record {
  cursor = k.cursor;
  beyond = λ i le. k.beyond i le ∙ h.beyond i le;
}

wraps : (cp : ConsolePrinter) → cp.scroll ≡ false → make_room cp ≡ record cp { cursor = 0 }
unfolding make_room
wraps cp e = rw e refl

make_room-InScreen :
    (cp : ConsolePrinter)
    → cp.cursor ≡ 2000
    → InScreen cp (make_room cp) × ((make_room cp).cursor < 2000)
make_room-InScreen cp full = elim (Bool-cases cp.scroll) [
  | inl e ↦
      let (cells, at) = make_room-Scrolled cp e in
      (record { cursor = omega arith; beyond = λ i le. ground (arith, cells i) }, omega arith)
  | inr e ↦ rw (wraps cp e) (record { cursor = omega arith; beyond = λ i le. refl }, omega arith)
]

room_loop_done :
    (fuel : ℕ) (cp : ConsolePrinter) → cp.cursor < 2000 → room_loop (suc fuel) cp ≡ some cp
unfolding room_loop
room_loop_done fuel cp h = rw (lt→leb 2000 cp.cursor h, room_loop) refl

room_loop_full :
    (fuel : ℕ) (cp : ConsolePrinter)
    → leb 2000 cp.cursor ≡ true
    → room_loop (suc fuel) cp ≡ room_loop fuel (make_room cp)
unfolding room_loop
room_loop_full fuel cp e = rw (e, room_loop) refl

-- The `while` loop takes one round at most.
room_loop-InScreen :
    (fuel : ℕ) (cp : ConsolePrinter)
    → cp.cursor ≤ fuel
    → cp.cursor ≤ 2000
    → (cp' : ConsolePrinter) × (room_loop (suc fuel) cp ≡ some cp')
      × InScreen cp cp'
      × (cp'.cursor < 2000)
room_loop-InScreen zero cp z h = (
  cp,
  room_loop_done 0 cp (omega arith),
  record { cursor = h; beyond = λ i le. refl },
  omega arith,
)
room_loop-InScreen (suc fuel) cp z h = elim (Bool-cases (leb 2000 cp.cursor)) [
  | inl e ↦
      let (ok, lt) = make_room-InScreen cp (omega (arith, leb→le 2000 cp.cursor e)) in
      (make_room cp, room_loop_full (suc fuel) cp e ∙ room_loop_done fuel (make_room cp) lt, ok, lt)
  | inr e ↦
      let lt = leb→lt 2000 cp.cursor e in
      (cp, room_loop_done (suc fuel) cp lt, record { cursor = h; beyond = λ i le. refl }, lt)
]

put_cell-InScreen :
    (c color : ℕ) (cp : ConsolePrinter) → cp.cursor < 2000 → InScreen cp (put_cell c color cp)
unfolding put_cell
put_cell-InScreen c color cp h = record { cursor = omega arith; beyond = λ i le. ground arith }

put_cell_room :
    (cp : ConsolePrinter) (color n : ℕ)
    → cp.cursor + suc n ≤ 2000
    → (put_cell b' ' color cp).cursor + n ≤ 2000
unfolding put_cell
put_cell_room cp color n h = omega arith

blank_line-InScreen :
    (n color : ℕ) (cp : ConsolePrinter) → cp.cursor + n ≤ 2000 → InScreen cp (blank_line n color cp)
unfolding blank_line
blank_line-InScreen zero color cp h = record { cursor = omega arith; beyond = λ i le. refl }
blank_line-InScreen (suc n) color cp h =
    InScreen-trans cp (put_cell b' ' color cp) (blank_line n color (put_cell b' ' color cp))
      (put_cell-InScreen b' ' color cp (omega arith))
      (blank_line-InScreen n color (put_cell b' ' color cp) (put_cell_room cp color n h))

write_char-InScreen :
    (c color : ℕ) (cp : ConsolePrinter) → cp.cursor < 2000 → InScreen cp (write_char c color cp)
unfolding write_char
write_char-InScreen c color cp h = elim (Bool-cases (c == 10)) [
  | inl e ↦ rw e (blank_line-InScreen (80 - cp.cursor % 80) color cp (omega arith))
  | inr e ↦ rw e (put_cell-InScreen c color cp h)
]

console_putc-InScreen :
    (c color : ℕ) (cp : ConsolePrinter)
    → cp.cursor ≤ 2000
    → (cp' : ConsolePrinter) × (console_putc c color cp ≡ some cp') × InScreen cp cp'
unfolding console_putc
console_putc-InScreen c color cp h =
    let (cp1, done, ok, lt) = room_loop-InScreen cp.cursor cp (omega arith) h in
    (
      write_char c color cp1,
      rw (done, console_putc) refl,
      InScreen-trans cp cp1 (write_char c color cp1) ok (write_char-InScreen c color cp1 lt),
    )

console_calls-InScreen :
    (calls : List Call) (cp : ConsolePrinter)
    → cp.cursor ≤ 2000
    → (cp' : ConsolePrinter) × (console_calls calls cp ≡ some cp') × InScreen cp cp'
unfolding console_calls
console_calls-InScreen [] cp h = (cp, refl, record { cursor = h; beyond = λ i le. refl })
console_calls-InScreen ((c, color) ∷ calls) cp h =
    let (cp1, first, ok1) = console_putc-InScreen c color cp h in
    let (cp2, rest, ok2) = console_calls-InScreen calls cp1 ok1.cursor in
    (cp2, rw (first, console_calls) rest, InScreen-trans cp cp1 cp2 ok1 ok2)

console_start-cursor :
    (cpos : ℤ) (sc : Screen) → sc.cursorpos ≤ 2000 → (console_start cpos sc).cursor ≤ 2000
unfolding console_start
console_start-cursor (negsuc k) sc h = h
console_start-cursor (pos p) sc h = ground arith

console_end-InScreen :
    (cpos : ℤ) (sc : Screen) (cp : ConsolePrinter)
    → sc.cursorpos ≤ 2000
    → InScreen (console_start cpos sc) cp
    → ((console_end cpos sc cp).0 ≤ 2000)
      × ((console_end cpos sc cp).1.cursorpos ≤ 2000)
      × ((i : ℕ) → 2000 ≤ i → (console_end cpos sc cp).1.console i ≡ sc.console i)
unfolding console_end console_start
console_end-InScreen (negsuc k) sc cp h ok = (ok.cursor, ok.cursor, ok.beyond)
console_end-InScreen (pos p) sc cp h ok = (ok.cursor, h, ok.beyond)

-- With its cursor on the screen, and where the arguments are those that the format's directives read,
-- so that `printer_vprintf` prints (its outcome is `printed`): `console_vprintf` ends at any `cpos`, returns a position on the screen, leaves
-- the cursor on it, and writes to no memory behind the console.
pub console_vprintf-InScreen :
    (cpos : ℤ) (color : ℕ) (format : List ℕ) (args : List Arg) (sc : Screen) (calls : List Call)
    → sc.cursorpos ≤ 2000
    → printer_vprintf color format args ≡ printed calls
    → (r : ℕ) × (sc' : Screen) × (console_vprintf cpos color format args sc ≡ some (r, sc'))
      × (r ≤ 2000)
      × (sc'.cursorpos ≤ 2000)
      × ((i : ℕ) → 2000 ≤ i → sc'.console i ≡ sc.console i)
unfolding console_vprintf onto_console
console_vprintf-InScreen cpos color format args sc calls h e =
    let (cp, done, ok) =
      console_calls-InScreen calls (console_start cpos sc) (console_start-cursor cpos sc h) in
    let (at, cursor, beyond) = console_end-InScreen cpos sc cp h ok in
    (
      (console_end cpos sc cp).0,
      (console_end cpos sc cp).1,
      rw (e, onto_console) (rw (done, onto_console) refl),
      at,
      cursor,
      beyond,
    )
