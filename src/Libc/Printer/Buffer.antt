-- ===== src/Libc/Printer/Buffer.antt =====
-- What `vsnprintf` writes.
use cs61_f18_psets.Base.{
  ℕ, zero, suc, ◌+◌, ◌-◌, ◌%◌, ◌^◌, ◌≤◌, ◌<◌, ◌≡◌, false, ◌&&◌, some, List, [], ◌∷◌, min, get_or,
  length, ltb, leb, ◌==◌, if◌then◌else◌, arith, refl, Bool-cases, inl, inr, ltb→lt, ltb→le, lt→ltb,
  ◌∙◌, ap,
}
use cs61_f18_psets.Libc.Mem.{Memory, store}
use cs61_f18_psets.Libc.Format.{Arg}
use cs61_f18_psets.Libc.Printf.{Call, printed, printer_vprintf}
use cs61_f18_psets.Libc.Printer.{
  StringPrinter, string_putc, string_calls, terminate, start, into_buffer, vsnprintf,
}

-- The characters of calls.
abbrev pub chars : List Call → List ℕ
chars [] = []
chars ((c, color) ∷ calls) = c ∷ chars calls

get_or-cons :
    (c n : ℕ) (t : List ℕ) → get_or (c ∷ t) n 0 ≡ (if n == 0 then c else get_or t (n - 1) 0)
get_or-cons c zero t = refl
get_or-cons c (suc n) t = ground arith

-- Where `calls` move the pointer, and what they leave in memory.
abbrev Written : List ℕ → StringPrinter → StringPrinter → Type 0
Written t sp last =
    (last.s ≡ min (sp.s + length t) sp.end)
    × (last.end ≡ sp.end)
    × (last.n ≡ (sp.n + length t) % 2 ^ 64)
    × ((a : ℕ)
        → last.memory a ≡ (
            if leb sp.s a && ltb a (min (sp.s + length t) sp.end)
            then get_or t (a - sp.s) 0
            else sp.memory a))

-- One call, and the calls behind it, for the byte at `a`.
byte_step :
    (s end a c x l : ℕ) (t : List ℕ)
    → s < end
    → (if leb (s + 1) a && ltb a (min (s + 1 + l) end)
        then get_or t (a - (s + 1)) 0
        else if a == s
        then c
        else x)
      ≡ (if leb s a && ltb a (min (s + suc l) end) then get_or (c ∷ t) (a - s) 0 else x)
byte_step s end a c x l t lt = ground (arith, get_or-cons c (a - s) t)

byte_full :
    (s end a x y z l : ℕ)
    → s ≡ end
    → (if leb s a && ltb a (min (s + l) end) then y else x)
      ≡ (if leb s a && ltb a (min (s + suc l) end) then z else x)
byte_full s end a x y z l e = ground arith

-- What a call of `string_putc` makes of a printer with room, and of one without.
abbrev roomy : ℕ → StringPrinter → StringPrinter
roomy c sp = record sp { memory = store sp.memory sp.s c; s = sp.s + 1; n = (sp.n + 1) % 2 ^ 64 }

abbrev full : StringPrinter → StringPrinter
full sp = record sp { n = (sp.n + 1) % 2 ^ 64 }

string_putc-roomy : (c : ℕ) (sp : StringPrinter) → sp.s < sp.end → string_putc c sp ≡ roomy c sp
unfolding string_putc
string_putc-roomy c sp h = rw (lt→ltb sp.s sp.end h) refl

ltb_same : (a b : ℕ) → a ≡ b → ltb a b ≡ false
ltb_same a b e = ground arith

string_putc-full : (c : ℕ) (sp : StringPrinter) → sp.s ≡ sp.end → string_putc c sp ≡ full sp
unfolding string_putc
string_putc-full c sp h = rw (ltb_same sp.s sp.end h) refl

roomy-Written :
    (c : ℕ) (t : List ℕ) (sp last : StringPrinter)
    → sp.s < sp.end
    → Written t (roomy c sp) last
    → Written (c ∷ t) sp last
roomy-Written c t sp last lt (s, end, n, bytes) = (
  omega arith,
  end,
  omega arith,
  λ a. bytes a ∙ byte_step sp.s sp.end a c (sp.memory a) (length t) t lt,
)

full-Written :
    (c : ℕ) (t : List ℕ) (sp last : StringPrinter)
    → sp.s ≡ sp.end
    → Written t (full sp) last
    → Written (c ∷ t) sp last
full-Written c t sp last e (s, end, n, bytes) = (
  omega arith,
  end,
  omega arith,
  λ a. bytes a ∙ byte_full sp.s sp.end a (sp.memory a) _ _ (length t) e,
)

string_calls-Written :
    (calls : List Call) (sp : StringPrinter)
    → sp.s ≤ sp.end
    → sp.n < 2 ^ 64
    → Written (chars calls) sp (string_calls calls sp)
unfolding string_calls
string_calls-Written [] sp h k = (omega arith, refl, omega arith, λ a. ground arith)
string_calls-Written ((c, color) ∷ calls) sp h k = elim (Bool-cases (ltb sp.s sp.end)) [
  | inl e ↦
      let lt = ltb→lt sp.s sp.end e in
      rw (string_putc-roomy c sp lt, string_calls)
        (roomy-Written c (chars calls) sp _ lt
          (string_calls-Written calls (roomy c sp) (omega arith) (omega arith)))
  | inr e ↦
      let same : sp.s ≡ sp.end = omega (arith, ltb→le sp.s sp.end e) in
      rw (string_putc-full c sp same, string_calls)
        (full-Written c (chars calls) sp _ same
          (string_calls-Written calls (full sp) h (omega arith)))
]

-- What is at address `a` behind a call that prints `t`.
abbrev pub contents : Memory → ℕ → ℕ → List ℕ → ℕ → ℕ
contents m s size t a =
    if size == 0
    then m a
    else if a == s + min (length t) (size - 1)
    then 0
    else if leb s a && ltb a (s + min (length t) (size - 1))
    then get_or t (a - s) 0
    else m a

positive : (n : ℕ) → 0 < n → (n == 0) ≡ false
positive n h = ground arith

nothing : (s a x y l : ℕ) → (if leb s a && ltb a (min (s + l) (s + 0)) then x else y) ≡ y
nothing s a x y l = ground arith

module _ (m : Memory) (s size a : ℕ) (t : List ℕ) (last : StringPrinter)
    (some_room : 0 < size) where
  -- The text and its terminator fit.
  terminate_short :
      length t < size
      → last.s ≡ s + length t
      → last.end ≡ s + size
      → last.memory a ≡ (if leb s a && ltb a (s + length t) then get_or t (a - s) 0 else m a)
      → terminate size last a ≡ contents m s size t a
  unfolding terminate
  terminate_short short at end bytes =
      rw (positive size some_room, lt→ltb last.s last.end (omega arith), cut)
        (rw at (ground (arith, bytes)))
    where
      cut : min (length t) (size - 1) ≡ length t
      cut = omega arith

  terminate_long :
      size ≤ length t
      → last.s ≡ s + size
      → last.end ≡ s + size
      → last.memory a ≡ (if leb s a && ltb a (s + size) then get_or t (a - s) 0 else m a)
      → terminate size last a ≡ contents m s size t a
  unfolding terminate
  terminate_long long at end bytes =
      rw (positive size some_room, not_less, cut, place) (ground (arith, bytes))
    where
      cut : min (length t) (size - 1) ≡ size - 1
      cut = omega arith

      not_less : ltb last.s last.end ≡ false
      not_less = ltb_same last.s last.end (omega arith)

      place : last.end - 1 ≡ s + (size - 1)
      place = omega arith

terminate-contents :
    (m : Memory) (s size a : ℕ) (t : List ℕ) (last : StringPrinter)
    → Written t (start m s size) last
    → terminate size last a ≡ contents m s size t a
unfolding terminate
terminate-contents m s zero a t last (at, end, n, bytes) = bytes a ∙ nothing s a _ _ (length t)
terminate-contents m s (suc k) a t last (at, end, n, bytes) =
    elim (Bool-cases (ltb (length t) (suc k))) [
      | inl e ↦
          let lt = ltb→lt (length t) (suc k) e in
          terminate_short m s (suc k) a t last (omega arith) lt (omega arith) end (
            bytes a
            ∙ ap (λ p. if leb s a && ltb a p then get_or t (a - s) 0 else m a) (omega arith))
      | inr e ↦
          let le = ltb→le (length t) (suc k) e in
          terminate_long m s (suc k) a t last (omega arith) le (omega arith) end (
            bytes a
            ∙ ap (λ p. if leb s a && ltb a p then get_or t (a - s) 0 else m a) (omega arith))
    ]

-- Where the arguments are those that the format's directives read, so that `printer_vprintf` prints
-- (its outcome is `printed`): `vsnprintf` ends, with the number of characters printed, modulo 2 ^ 64. A buffer of `size` bytes holds the first of them, at most `size - 1`, and a terminator; no byte outside it changes, and
-- none at all where `size` is 0.
pub vsnprintf_lem :
    (m : Memory) (s size : ℕ) (format : List ℕ) (args : List Arg) (calls : List Call)
    → printer_vprintf 0 format args ≡ printed calls
    → (m' : Memory) × (vsnprintf m s size format args ≡ some (length (chars calls) % 2 ^ 64, m'))
      × ((a : ℕ) → m' a ≡ contents m s size (chars calls) a)
unfolding vsnprintf into_buffer
vsnprintf_lem m s size format args calls e =
    let last = string_calls calls (start m s size) in
    let w = string_calls-Written calls (start m s size) (omega arith) (omega arith) in
    (
      terminate size last,
      rw e (ap (λ n. some (n, terminate size last)) (omega (arith, w.2))),
      λ a. terminate-contents m s size a (chars calls) last w,
    )
