-- ===== src/Kernel/Keyboard/Modifiers.antt =====
-- Which modifier keys are on after a byte from the keyboard (pset4/k-hardware.cc).
use Prim.Native.Nat.{bit_and, bit_or, bit_xor}
use native.Mathlib.Decide.{ℕ_discrete}
use cs61_f18_psets.Base.{
  ap, sym, if_true, if_false, ltb→lt, ℕ, zero, suc, ◌+◌, ◌-◌, ◌%◌, ◌^◌, ◌<◌, ◌≡◌, ◌⊎◌, inl, inr,
  refl, ◌∙◌, Bool, true, false, not, ◌&&◌, Bool-cases, some, ltb, leb, ◌==◌, if◌then◌else◌, arith,
}
use cs61_f18_psets.Kernel.Keyboard.{
  Keyboard, key_shift, key_capslock, key_of, has_bit, release, press, keymap, keyboard_readc,
}

-- A test of the numbers below `n`.
abbrev below : ℕ → (ℕ → Bool) → Bool
below zero f = true
below (suc n) f = let rest = below n f in if f n then rest else false

below_lem : (n i : ℕ) (f : ℕ → Bool) → below n f ≡ true → i < n → f i ≡ true
below_lem zero i f h lt = absurd (omega arith)
below_lem (suc n) i f h lt = elim (Bool-cases (f n)) [
  | inr off ↦ absurd (cc (h, if_false (f n) (below n f) false off))
  | inl on ↦ elim (ℕ_discrete i n) [
    | yes e ↦ ap f e ∙ on
    | no ne ↦ below_lem n i f (sym (if_true (f n) (below n f) false on) ∙ h) (omega arith)
  ]
]

same : Bool → Bool → Bool
same true b = b
same false b = not b

same_lem : (a b : Bool) → same a b ≡ true → a ≡ b
unfolding same
same_lem true true h = refl
same_lem true false h = sym h
same_lem false true h = h
same_lem false false h = refl

both : (a b : Bool) → (a && b) ≡ true → (a ≡ true) × (b ≡ true)
both true b h = (refl, h)
both false b h = absurd (cc h)

-- What setting, turning and clearing bit `c` does to bit `b`, and that six bits are enough.
on_bit : ℕ → ℕ → ℕ → Bool
unfolding same
on_bit m c b =
    (same (has_bit (bit_or m (2 ^ c)) b) (if b == c then true else has_bit m b)
      && ltb (bit_or m (2 ^ c)) 64)
    && ((same (has_bit (bit_xor m (2 ^ c)) b) (if b == c then not (has_bit m b) else has_bit m b)
          && ltb (bit_xor m (2 ^ c)) 64)
        && (same (has_bit (bit_and m (255 - 2 ^ c)) b) (if b == c then false else has_bit m b)
            && ltb (bit_and m (255 - 2 ^ c)) 64))

all_bits : below 64 (λ m. below 6 (λ c. below 6 (λ b. on_bit m c b))) ≡ true
unfolding on_bit
all_bits = refl

on_bit_lem : (m c b : ℕ) → m < 64 → c < 6 → b < 6 → on_bit m c b ≡ true
on_bit_lem m c b hm hc hb =
    below_lem 6 b (λ i. on_bit m c i)
      (below_lem 6 c (λ j. below 6 (λ i. on_bit m j i))
        (below_lem 64 m (λ k. below 6 (λ j. below 6 (λ i. on_bit k j i))) all_bits hm) hc)
      hb

module _ (m c b : ℕ) (hm : m < 64) (hc : c < 6) (hb : b < 6) where
  set_bit :
      (has_bit (bit_or m (2 ^ c)) b ≡ (if b == c then true else has_bit m b))
      × (bit_or m (2 ^ c) < 64)
  unfolding on_bit
  set_bit =
      let (bit, small) = both _ _ (both _ _ (on_bit_lem m c b hm hc hb)).0 in
      (same_lem _ _ bit, ltb→lt _ _ small)

  turn_bit :
      (has_bit (bit_xor m (2 ^ c)) b ≡ (if b == c then not (has_bit m b) else has_bit m b))
      × (bit_xor m (2 ^ c) < 64)
  unfolding on_bit
  turn_bit =
      let (bit, small) = both _ _ (both _ _ (both _ _ (on_bit_lem m c b hm hc hb)).1).0 in
      (same_lem _ _ bit, ltb→lt _ _ small)

  clear_bit :
      (has_bit (bit_and m (255 - 2 ^ c)) b ≡ (if b == c then false else has_bit m b))
      × (bit_and m (255 - 2 ^ c) < 64)
  unfolding on_bit
  clear_bit =
      let (bit, small) = both _ _ (both _ _ (both _ _ (on_bit_lem m c b hm hc hb)).1).1 in
      (same_lem _ _ bit, ltb→lt _ _ small)

-- Modifier `b` when the key `ch` is pressed or released: shift, control and alt are on while they are
-- held, the three locks change when they are pressed.
abbrev pub held : ℕ → Bool → ℕ → Bool → Bool
held ch pressed b on =
    if ch == key_shift + b then if ltb b 3 then pressed else if pressed then not on else on else on

-- The modifiers after a pressed key: only the keys from shift on change them.
abbrev pressed_bits : ℕ → ℕ → ℕ
pressed_bits ch m =
    if leb key_capslock ch
    then bit_xor m (2 ^ (ch - key_shift))
    else if leb key_shift ch
    then bit_or m (2 ^ (ch - key_shift))
    else m

press_bits : (ch m : ℕ) → (press ch m).1 ≡ pressed_bits ch m
unfolding press
press_bits ch m = ground arith

lock_held :
    (ch b : ℕ) (on : Bool)
    → leb key_capslock ch ≡ true
    → (if b == ch - key_shift then not on else on) ≡ held ch true b on
lock_held ch b on h = ground arith

press_held :
    (ch b : ℕ) (on : Bool)
    → leb key_capslock ch ≡ false
    → leb key_shift ch ≡ true
    → (if b == ch - key_shift then true else on) ≡ held ch true b on
press_held ch b on h g = ground arith

other_held : (ch b : ℕ) (on pressed : Bool) → leb key_shift ch ≡ false → on ≡ held ch pressed b on
other_held ch b on pressed h = ground arith

release_held :
    (ch b : ℕ) (on : Bool)
    → (leb key_shift ch && ltb ch key_capslock) ≡ true
    → (if b == ch - key_shift then false else on) ≡ held ch false b on
release_held ch b on h = ground arith

unreleased_held :
    (ch b : ℕ) (on : Bool)
    → (leb key_shift ch && ltb ch key_capslock) ≡ false
    → on ≡ held ch false b on
unreleased_held ch b on h = ground arith

press_lem :
    (ch m b : ℕ)
    → ch < 256
    → m < 64
    → b < 6
    → (has_bit (pressed_bits ch m) b ≡ held ch true b (has_bit m b)) × (pressed_bits ch m < 64)
press_lem ch m b hc hm hb = elim (Bool-cases (leb key_capslock ch)) [
  | inl lock ↦
      let (bit, small) = turn_bit m (ch - key_shift) b hm (omega arith) hb in
      rw lock (bit ∙ lock_held ch b (has_bit m b) lock, small)
  | inr more ↦ elim (Bool-cases (leb key_shift ch)) [
    | inl holds ↦
        let (bit, small) = set_bit m (ch - key_shift) b hm (omega arith) hb in
        rw (more, holds) (bit ∙ press_held ch b (has_bit m b) more holds, small)
    | inr plain ↦ rw (more, plain) (other_held ch b (has_bit m b) true plain, hm)
  ]
]

release_lem :
    (ch m b : ℕ)
    → ch < 256
    → m < 64
    → b < 6
    → (has_bit (release ch m) b ≡ held ch false b (has_bit m b)) × (release ch m < 64)
unfolding release
release_lem ch m b hc hm hb = elim (Bool-cases (leb key_shift ch && ltb ch key_capslock)) [
  | inl holds ↦
      let (bit, small) = clear_bit m (ch - key_shift) b hm (omega arith) hb in
      rw holds (bit ∙ release_held ch b (has_bit m b) holds, small)
  | inr plain ↦ rw plain (unreleased_held ch b (has_bit m b) plain, hm)
]

all_small : below 256 (λ i. ltb (key_of i) 256) ≡ true
unfolding keymap
all_small = refl

key_small : (i : ℕ) → i < 256 → key_of i < 256
key_small i h = ltb→lt _ _ (below_lem 256 i (λ j. ltb (key_of j) 256) all_small h)

-- Six modifiers, and an escape that is off or on.
pub record IsKeyboard (k : Keyboard) : Type 0 where
  pub six : k.modifiers < 64
  pub escape : (k.last_escape ≡ 0) ⊎ (k.last_escape ≡ 0x80)

-- What a byte does to the keyboard's state.
pub record Reads (k : Keyboard) (byte : ℕ) (k' : Keyboard) : Type 0 where
  pub valid : IsKeyboard k'
  pub escape_next : k'.last_escape ≡ (if byte == 0xE0 then 0x80 else 0)
  pub bits :
      (b : ℕ)
      → b < 6
      → has_bit k'.modifiers b ≡ (
          if byte == 0xE0
          then has_bit k.modifiers b
          else held (key_of (byte % 128 + k.last_escape)) (ltb byte 128) b (has_bit k.modifiers b))

key-Reads :
    (k : Keyboard) (byte m : ℕ) (pressed : Bool)
    → (byte == 0xE0) ≡ false
    → ltb byte 128 ≡ pressed
    → m < 64
    → ((b : ℕ)
        → b < 6
        → has_bit m b
          ≡ held (key_of (byte % 128 + k.last_escape)) pressed b (has_bit k.modifiers b))
    → Reads k byte (record { modifiers = m; last_escape = 0 })
key-Reads k byte m pressed key at small bits = record {
  valid = record { six = small; escape = inl refl };
  escape_next = rw key refl;
  bits = λ b hb. rw (key, at) (bits b hb);
}

-- A byte that a valid keyboard delivers: the escape byte is remembered for the next byte, and changes no
-- modifier. Any other byte ends the escape and names a key of the key map; shift, control and alt are
-- on from a press of theirs to a release, and a lock changes with each press. The keyboard stays valid.
pub keyboard_readc-Reads :
    (k : Keyboard) (byte : ℕ)
    → IsKeyboard k
    → byte < 256
    → Reads k byte (keyboard_readc k (some byte)).1
unfolding keyboard_readc
keyboard_readc-Reads k byte v h =
    let index : byte % 128 + k.last_escape < 256 = omega (arith, v.escape) in
    let ch : ℕ = key_of (byte % 128 + k.last_escape) in
    let small : ch < 256 = key_small (byte % 128 + k.last_escape) index in
    elim (Bool-cases (byte == 0xE0)) [
      | inl escape ↦ rw escape (record {
        valid = record { six = v.six; escape = inr refl };
        escape_next = rw escape refl;
        bits = λ b hb. rw escape refl;
      })
      | inr key ↦ elim (Bool-cases (leb 0x80 byte)) [
        | inl up ↦
            rw (key, up)
              (key-Reads k byte (release ch k.modifiers) false key (ground arith)
                (release_lem ch k.modifiers 0 small v.six (omega arith)).1
                (λ b hb. (release_lem ch k.modifiers b small v.six hb).0))
        | inr down ↦
            let same_key : byte + k.last_escape ≡ byte % 128 + k.last_escape = ground arith in
            rw (key, down, same_key, press_bits ch k.modifiers)
              (key-Reads k byte (pressed_bits ch k.modifiers) true key (ground arith)
                (press_lem ch k.modifiers 0 small v.six (omega arith)).1
                (λ b hb. (press_lem ch k.modifiers b small v.six hb).0))
      ]
    ]
