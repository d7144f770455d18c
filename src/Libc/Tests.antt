-- ===== src/Libc/Tests.antt =====
-- Runs of the C library functions.
use cs61_f18_psets.Base.{ℕ, ◌≡◌, refl, inl, inr, List, [], ◌∷◌, some, arith, false, ◌^◌, ◌-◌}
use cs61_f18_psets.Base.Int.{pos, negsuc}
use cs61_f18_psets.Libc.Mem.{Memory, Moved, memcpy, memmove, copy_up, copy_down, memmove-Moved}
use cs61_f18_psets.Libc.Number.{
  strtoul, strtol, minus_of, to_long, fill_numbuf, fill_loop, skip_spaces, isspace, sign_of,
  base_of, hex_prefix, digits, digit_of, overflows,
}
use cs61_f18_psets.Libc.Number.Numeral.{Digit, minus, hex}
use cs61_f18_psets.Libc.Number.Reads.{strtoul_lem}
use cs61_f18_psets.Libc.Random.{Seed, rand_between, overflowed}
use cs61_f18_psets.Libc.Number.Print.{fill_numbuf-strtoul}
use cs61_f18_psets.Libc.Compare.{strchr, strlen, strnlen}

-- Byte `a` holds `a`.
abbrev counting : Memory
counting a = a

-- An overlapping move to a higher address.
overlap_run : memmove counting 12 10 4 15 ≡ 13
unfolding memmove copy_down copy_up
overlap_run = refl

-- `memcpy` repeats bytes on the same areas.
overlap_memcpy : memcpy counting 12 10 4 15 ≡ 11
unfolding memcpy copy_up
overlap_memcpy = refl

chr_run : strchr (97 ∷ 98 ∷ 99 ∷ []) 99 ≡ some 2
unfolding strchr
chr_run = refl

nlen_run : strnlen (97 ∷ 98 ∷ 99 ∷ []) 2 ≡ 2
unfolding strnlen
nlen_run = refl

len_run : strlen (97 ∷ 98 ∷ 99 ∷ []) ≡ 3
unfolding strlen
len_run = refl

memmove-Moved_example : Moved counting 12 10 4 (memmove counting 12 10 4)
memmove-Moved_example = memmove-Moved counting 12 10 4

abbrev left : List ℕ
left = 97 ∷ 98 ∷ []

abbrev right : List ℕ
right = 97 ∷ 200 ∷ []

-- ` -0x1f ;`
abbrev negative_hex : List ℕ
negative_hex = 32 ∷ 45 ∷ 48 ∷ 120 ∷ 49 ∷ 102 ∷ 32 ∷ 59 ∷ []

strtoul_run : strtoul negative_hex 0 ≡ (2 ^ 64 - 31, 32 ∷ 59 ∷ [])
unfolding strtoul skip_spaces isspace sign_of base_of hex_prefix digits digit_of overflows
strtoul_run = refl

-- In base 16, `:` counts as the digit 10.
colon_run : strtoul (58 ∷ []) 16 ≡ (10, [])
unfolding strtoul skip_spaces isspace sign_of base_of hex_prefix digits digit_of overflows
colon_run = refl

print_run : fill_numbuf 255 (negsuc 15) ≡ some (102 ∷ 102 ∷ [])
unfolding fill_numbuf fill_loop
print_run = refl

space_apart : (d : ℕ) → Digit b' ' d → ⊥
space_apart d (inl (small, e)) = absurd (omega arith)
space_apart d (inr (from, to, inl e)) = absurd (omega arith)
space_apart d (inr (from, to, inr e)) = absurd (omega arith)

strtoul_example : strtoul negative_hex 0 ≡ (2 ^ 64 - 31, 32 ∷ 59 ∷ [])
strtoul_example =
    strtoul_lem (b' ' ∷ []) b'1' 1 ((b'f', 15) ∷ []) (32 ∷ 59 ∷ []) (omega arith) (inr refl, tt)
      minus (hex 0 b'x' _ (inl refl) (inl refl))
      (
        (omega arith, inl (omega arith, refl)),
        ((omega arith, inr (omega arith, omega arith, inl refl)), tt),
      )
      ((λ d lt digit. space_apart d digit), inl (omega arith))

fill_numbuf-strtoul_example :
    (s : List ℕ) × (fill_numbuf 61453 (negsuc 15) ≡ some s) × ((strtoul s 16).0 ≡ 61453)
fill_numbuf-strtoul_example =
    fill_numbuf-strtoul 61453 (negsuc 15) (omega arith) (omega arith) (omega arith)

abbrev hex_text : List ℕ
hex_text = 102 ∷ 102 ∷ []

-- `--7`
abbrev two_signs : List ℕ
two_signs = 45 ∷ 45 ∷ 55 ∷ []

-- Behind `strtol`'s own minus sign `strtoul` takes another one.
two_signs_run : (strtol two_signs 10).0 ≡ negsuc (2 ^ 63 - 1)
unfolding strtol strtoul skip_spaces isspace minus_of to_long sign_of base_of hex_prefix digits
    digit_of overflows
two_signs_run = refl

abbrev unseeded : Seed
unseeded = record { is_set = false; seed = 0 }

-- The widest range that the code's comment allows.
widest_run : rand_between (pos 0) (pos (2 ^ 31 - 1)) unseeded ≡ overflowed
unfolding rand_between
widest_run = refl
