-- ===== src/Libc/Mem.antt =====
-- `memcpy`, `memmove` and `memset` of pset4/lib.cc, over a memory of bytes. An address is a number, and
-- the areas do not wrap round the end of the address space.
use cs61_f18_psets.Base.{
  ℕ, zero, suc, ◌+◌, ◌-◌, ◌%◌, ◌≤◌, ◌<◌, ◌≡◌, ◌⊎◌, ◌∙◌, Bool, ◌&&◌, Bool-cases, inl, inr, ltb, leb,
  ◌==◌, arith, if◌then◌else◌,
}

abbrev pub Memory : Type 0
Memory = ℕ → ℕ

-- `*d = c`.
abbrev pub store : Memory → ℕ → ℕ → Memory
store m d c a = if a == d then c else m a

-- `for (; n > 0; --n, ++s, ++d) *d = *s;`
unfoldable pub copy_up : ℕ → Memory → ℕ → ℕ → Memory
copy_up zero m d s = m
copy_up (suc n) m d s = copy_up n (store m d (m s)) (d + 1) (s + 1)

-- `while (n-- > 0) *--d = *--s;`, from the ends of areas that start at `d` and `s`.
unfoldable pub copy_down : ℕ → Memory → ℕ → ℕ → Memory
copy_down zero m d s = m
copy_down (suc n) m d s = copy_down n (store m (d + n) (m (s + n))) d s

unfoldable pub memcpy : Memory → ℕ → ℕ → ℕ → Memory
memcpy m dst src n = copy_up n m dst src

unfoldable pub memmove : Memory → ℕ → ℕ → ℕ → Memory
memmove m dst src n =
    if ltb src dst && ltb dst (src + n) then copy_down n m dst src else copy_up n m dst src

-- `c` is converted to a byte.
unfoldable pub memset : Memory → ℕ → ℕ → ℕ → Memory
memset m v c zero = m
memset m v c (suc n) = memset (store m v (c % 256)) (v + 1) c n

abbrev pub inside : ℕ → ℕ → ℕ → Bool
inside d n a = leb d a && ltb a (d + n)

-- The bytes at `src` as they were, moved to `dst`, and all others as they were.
abbrev pub Moved : Memory → ℕ → ℕ → ℕ → Memory → Type 0
Moved m dst src n m' = (a : ℕ) → m' a ≡ (if inside dst n a then m (src + (a - dst)) else m a)

up_step :
    (n : ℕ) (m : Memory) (d s a : ℕ)
    → (d ≤ s) ⊎ (s + suc n ≤ d)
    → (if inside (d + 1) n a then store m d (m s) ((s + 1) + (a - (d + 1))) else store m d (m s) a)
      ≡ (if inside d (suc n) a then m (s + (a - d)) else m a)
up_step n m d s a h = ground arith

down_step :
    (n : ℕ) (m : Memory) (d s a : ℕ)
    → s < d
    → (if inside d n a
        then store m (d + n) (m (s + n)) (s + (a - d))
        else store m (d + n) (m (s + n)) a)
      ≡ (if inside d (suc n) a then m (s + (a - d)) else m a)
down_step n m d s a h = ground arith

copy_up-Moved :
    (n : ℕ) (m : Memory) (d s : ℕ) → (d ≤ s) ⊎ (s + n ≤ d) → Moved m d s n (copy_up n m d s)
unfolding copy_up
copy_up-Moved zero m d s h a = ground arith
copy_up-Moved (suc n) m d s h a =
    copy_up-Moved n (store m d (m s)) (d + 1) (s + 1) (omega arith) a ∙ up_step n m d s a h

copy_down-Moved : (n : ℕ) (m : Memory) (d s : ℕ) → s < d → Moved m d s n (copy_down n m d s)
unfolding copy_down
copy_down-Moved zero m d s h a = ground arith
copy_down-Moved (suc n) m d s h a =
    copy_down-Moved n (store m (d + n) (m (s + n))) d s h a ∙ down_step n m d s a h

-- `memmove` moves the bytes of the source, whether or not the areas overlap, and changes no other byte.
pub memmove-Moved : (m : Memory) (dst src n : ℕ) → Moved m dst src n (memmove m dst src n)
unfolding memmove
memmove-Moved m dst src n = elim (Bool-cases (ltb src dst && ltb dst (src + n))) [
  | inl e ↦ rw e (copy_down-Moved n m dst src (ground arith))
  | inr e ↦ rw e (copy_up-Moved n m dst src (ground arith))
]

-- `memcpy` does so where the destination does not lie inside the source behind its start.
pub memcpy-Moved :
    (m : Memory) (dst src n : ℕ)
    → (dst ≤ src) ⊎ (src + n ≤ dst)
    → Moved m dst src n (memcpy m dst src n)
unfolding memcpy
memcpy-Moved m dst src n h = copy_up-Moved n m dst src h

-- `memset` fills its area with the low byte of `c` and changes no other byte.
pub memset_lem :
    (n : ℕ) (m : Memory) (v c a : ℕ) → memset m v c n a ≡ (if inside v n a then c % 256 else m a)
unfolding memset
memset_lem zero m v c a = ground arith
memset_lem (suc n) m v c a = ground (arith, memset_lem n (store m v (c % 256)) (v + 1) c a)
