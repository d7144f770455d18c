-- ===== src/Kernel/Keyboard/Tests.antt =====
-- Runs of the keyboard.
use cs61_f18_psets.Base.{◌≡◌, refl, inl, some, length, arith}
use cs61_f18_psets.Base.Int.{pos}
use cs61_f18_psets.Base.Text.{codes}
use cs61_f18_psets.Kernel.Keyboard.{
  Keyboard, reboot, keymap, complex_keymap, letter, press, keyboard_readc, check_keyboard,
}
use cs61_f18_psets.Kernel.Keyboard.Modifiers.{Reads, keyboard_readc-Reads}

abbrev at_first : Keyboard
at_first = record { modifiers = 0; last_escape = 0 }

abbrev shifted : Keyboard
shifted = record { modifiers = 1; last_escape = 0 }

length-keymap : length keymap ≡ 256
unfolding keymap
length-keymap = refl

length-complex_keymap : length complex_keymap ≡ 22
unfolding complex_keymap
length-complex_keymap = refl

-- Shift goes down; then the keys of `a`, of `5` and of the cursor.
shift_run : keyboard_readc at_first (some 0x2A) ≡ (pos 0, shifted)
unfolding keyboard_readc press keymap
shift_run = refl

capital_run : keyboard_readc shifted (some 0x1E) ≡ (pos 65, shifted)
unfolding keyboard_readc press keymap letter
capital_run = refl

percent_run : keyboard_readc shifted (some 0x06) ≡ (pos 37, shifted)
unfolding keyboard_readc press keymap complex_keymap
percent_run = refl

up_run :
    keyboard_readc (record { modifiers = 0; last_escape = 0x80 }) (some 0x48) ≡ (pos 0xC0, at_first)
unfolding keyboard_readc press keymap complex_keymap
up_run = refl

fork_run : check_keyboard at_first (some 0x21) ≡ reboot (codes "fork")
unfolding check_keyboard keyboard_readc press keymap letter
fork_run = refl

keyboard_readc-Reads_example : Reads shifted 0xAA (keyboard_readc shifted (some 0xAA)).1
keyboard_readc-Reads_example =
    keyboard_readc-Reads shifted 0xAA (record { six = omega arith; escape = inl refl })
      (omega arith)
