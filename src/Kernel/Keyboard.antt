-- ===== src/Kernel/Keyboard.antt =====
-- `keyboard_readc` and `check_keyboard` of pset4/k-hardware.cc. What the keyboard's ports deliver in a
-- call is an argument: nothing, or a byte. Bits are taken with the operations of the native ℕ.
pub mod Modifiers
mod Tests
use Prim.Native.Nat.{bit_and, bit_or, bit_xor}
use cs61_f18_psets.Base.{
  ℕ, zero, suc, ◌+◌, ◌-◌, ◌/◌, ◌%◌, ◌^◌, Bool, true, false, not, ◌&&◌, ◌||◌, Option, none, some,
  List, [], ◌∷◌, ◌++◌, get_or, replicate, ltb, leb, ◌==◌, if◌then◌else◌,
}
use cs61_f18_psets.Base.Int.{ℤ, pos, negsuc}
use cs61_f18_psets.Base.Text.{codes}

abbrev pub key_shift : ℕ
key_shift = 0xFA

abbrev pub key_control : ℕ
key_control = 0xFB

abbrev pub key_alt : ℕ
key_alt = 0xFC

abbrev pub key_capslock : ℕ
key_capslock = 0xFD

abbrev pub key_numlock : ℕ
key_numlock = 0xFE

abbrev pub key_scrolllock : ℕ
key_scrolllock = 0xFF

-- `CKEY(cn)`.
abbrev pub ckey : ℕ → ℕ
ckey cn = 0x80 + cn

-- `keymap`, the rows by their first index.
unfoldable pub keymap : List ℕ
keymap =
    (0 ∷ 27 ∷ ckey 0 ∷ ckey 1 ∷ ckey 2 ∷ ckey 3 ∷ ckey 4 ∷ ckey 5 ∷ [])
    ++ (ckey 6 ∷ ckey 7 ∷ ckey 8 ∷ ckey 9 ∷ ckey 10 ∷ ckey 11 ∷ 8 ∷ 9 ∷ [])
    -- 0x10
    ++ codes "qwertyui"
    ++ codes "op"
    ++ (ckey 12 ∷ ckey 13 ∷ ckey 14 ∷ key_control ∷ [])
    ++ codes "as"
    -- 0x20
    ++ codes "dfghjkl"
    ++ (ckey 15 ∷ ckey 16 ∷ ckey 17 ∷ key_shift ∷ ckey 18 ∷ [])
    ++ codes "zxcv"
    -- 0x30
    ++ codes "bnm"
    ++ (ckey 19 ∷ ckey 20 ∷ ckey 21 ∷ key_shift ∷ [])
    ++ codes "*"
    ++ (key_alt ∷ 32 ∷ key_capslock ∷ 0 ∷ 0 ∷ 0 ∷ 0 ∷ 0 ∷ [])
    -- 0x40
    ++ (0 ∷ 0 ∷ 0 ∷ 0 ∷ 0 ∷ key_numlock ∷ key_scrolllock ∷ [])
    ++ codes "789-456+1"
    -- 0x50
    ++ codes "230."
    ++ replicate 12 0
    -- 0x60
    ++ replicate 48 0
    -- 0x90
    ++ (0 ∷ 0 ∷ 0 ∷ 0 ∷ 0 ∷ 0 ∷ 0 ∷ 0 ∷ 0 ∷ 0 ∷ 0 ∷ 0 ∷ ckey 14 ∷ key_control ∷ 0 ∷ 0 ∷ [])
    -- 0xA0
    ++ replicate 16 0
    -- 0xB0
    ++ (0 ∷ 0 ∷ 0 ∷ 0 ∷ 0 ∷ 47 ∷ 0 ∷ 0 ∷ key_alt ∷ 0 ∷ 0 ∷ 0 ∷ 0 ∷ 0 ∷ 0 ∷ 0 ∷ [])
    -- 0xC0: `KEY_HOME`, `KEY_UP`, `KEY_PAGEUP`, `KEY_LEFT`, `KEY_RIGHT`, `KEY_END`
    ++ (0 ∷ 0 ∷ 0 ∷ 0 ∷ 0 ∷ 0 ∷ 0 ∷ 0xC4 ∷ [])
    ++ (0xC0 ∷ 0xC6 ∷ 0 ∷ 0xC3 ∷ 0 ∷ 0xC1 ∷ 0 ∷ 0xC5 ∷ [])
    -- 0xD0: `KEY_DOWN`, `KEY_PAGEDOWN`, `KEY_INSERT`, `KEY_DELETE`
    ++ (0xC2 ∷ 0xC7 ∷ 0xC8 ∷ 0xC9 ∷ 0 ∷ 0 ∷ 0 ∷ 0 ∷ [])
    ++ replicate 8 0
    -- 0xE0
    ++ replicate 32 0

-- `complex_keymap`: without modifiers, with shift, with control, and with both.
unfoldable pub complex_keymap : List (List ℕ)
complex_keymap =
    (49 ∷ 33 ∷ 0 ∷ 0 ∷ [])
    ∷ (50 ∷ 64 ∷ 0 ∷ 0 ∷ [])
    ∷ (51 ∷ 35 ∷ 0 ∷ 0 ∷ [])
    ∷ (52 ∷ 36 ∷ 0 ∷ 0 ∷ [])
    ∷ (53 ∷ 37 ∷ 0 ∷ 0 ∷ [])
    ∷ (54 ∷ 94 ∷ 0 ∷ 30 ∷ [])
    ∷ (55 ∷ 38 ∷ 0 ∷ 0 ∷ [])
    ∷ (56 ∷ 42 ∷ 0 ∷ 0 ∷ [])
    ∷ (57 ∷ 40 ∷ 0 ∷ 0 ∷ [])
    ∷ (48 ∷ 41 ∷ 0 ∷ 0 ∷ [])
    ∷ (45 ∷ 95 ∷ 0 ∷ 31 ∷ [])
    ∷ (61 ∷ 43 ∷ 0 ∷ 0 ∷ [])
    ∷ (91 ∷ 123 ∷ 27 ∷ 0 ∷ [])
    ∷ (93 ∷ 125 ∷ 29 ∷ 0 ∷ [])
    ∷ (10 ∷ 10 ∷ 13 ∷ 13 ∷ [])
    ∷ (59 ∷ 58 ∷ 0 ∷ 0 ∷ [])
    ∷ (39 ∷ 34 ∷ 0 ∷ 0 ∷ [])
    ∷ (96 ∷ 126 ∷ 0 ∷ 0 ∷ [])
    ∷ (92 ∷ 124 ∷ 28 ∷ 0 ∷ [])
    ∷ (44 ∷ 60 ∷ 0 ∷ 0 ∷ [])
    ∷ (46 ∷ 62 ∷ 0 ∷ 0 ∷ [])
    ∷ (47 ∷ 63 ∷ 0 ∷ 0 ∷ [])
    ∷ []

-- The two static variables; both are bytes.
pub record Keyboard : Type 0 where
  pub modifiers : ℕ
  pub last_escape : ℕ

abbrev pub key_of : ℕ → ℕ
key_of i = get_or keymap i 0

-- `modifiers & (1 << b)`.
abbrev pub has_bit : ℕ → ℕ → Bool
has_bit m b = not (bit_and m (2 ^ b) == 0)

-- A released key.
unfoldable pub release : ℕ → ℕ → ℕ
release ch m =
    if leb key_shift ch && ltb ch key_capslock then bit_and m (255 - 2 ^ (ch - key_shift)) else m

abbrev pub is_letter : ℕ → Bool
is_letter ch = leb 97 ch && leb ch 122

-- What a letter gives: with control, in capitals, or as it is.
unfoldable pub letter : ℕ → ℕ → ℕ
letter ch m =
    let shift = has_bit m 0 in
    let capslock = has_bit m 3 in
    if has_bit m 1
    then ch - 0x60
    else if (shift && not capslock) || (not shift && capslock)
    then ch - 0x20
    else ch

-- A pressed key: the character, and the modifiers afterwards.
unfoldable pub press : ℕ → ℕ → ℕ × ℕ
unfolding letter complex_keymap
press ch m =
    if is_letter ch
    then (letter ch m, m)
    else if leb key_capslock ch
    then (0, bit_xor m (2 ^ (ch - key_shift)))
    else if leb key_shift ch
    then (0, bit_or m (2 ^ (ch - key_shift)))
    else if leb (ckey 0) ch && leb ch (ckey 21)
    then (get_or (get_or complex_keymap (ch - ckey 0) []) (bit_and m 3) 0, m)
    else if ltb ch 0x80 && has_bit m 1
    then (0, m)
    else (ch, m)

-- The character, or -1 for none, 0 for a call to repeat. `escape` is 0 or 0x80, and an `or` with 7 bits
-- below it is a sum.
unfoldable pub keyboard_readc : Keyboard → Option ℕ → ℤ × Keyboard
unfolding release press keymap
keyboard_readc k none = (negsuc 0, k)
keyboard_readc k (some byte) =
    let typed = press (key_of (byte + k.last_escape)) k.modifiers in
    let released = release (key_of (byte % 128 + k.last_escape)) k.modifiers in
    if byte == 0xE0
    then (pos 0, record k { last_escape = 0x80 })
    else if leb 0x80 byte
    then (pos 0, record { modifiers = released; last_escape = 0 })
    else (pos typed.0, record { modifiers = typed.1; last_escape = 0 })

-- `check_keyboard` goes on, with the key; it starts the kernel again, with a command; or it switches the
-- machine off.
pub data Checked : Type 0 where
  typed : ℤ → Keyboard → Checked
  reboot : List ℕ → Checked
  poweroff : Checked

abbrev pub react : ℤ × Keyboard → Checked
react (pos c, k) =
    if c == 97
    then reboot (codes "allocator")
    else if c == 102
    then reboot (codes "fork")
    else if c == 101
    then reboot (codes "forkexit")
    else if (c == 3) || (c == 113)
    then poweroff
    else typed (pos c) k
react (negsuc c, k) = typed (negsuc c) k

unfoldable pub check_keyboard : Keyboard → Option ℕ → Checked
unfolding keyboard_readc
check_keyboard k input = react (keyboard_readc k input)
