-- ===== src/Kernel/PageTable.antt =====
-- Page tables: the iterator `vmiter` of pset4/k-vmiter.cc and pset4/k-vmiter.hh, with `pageindex`
-- and `pageoffmask` of pset4/x86-64.h. The entries are a function from an entry's address to its 64
-- bits, which `pep` points into.
pub mod Walk
pub mod Map
pub mod Added
pub mod Mapped
pub mod Source
mod Tests
use Prim.Native.Nat.{bit_and}
use cs61_f18_psets.Base.{
  ℕ, zero, suc, ◌+◌, ◌-◌, ◌*◌, ◌/◌, ◌%◌, ◌^◌, Bool, true, false, not, ◌&&◌, ◌==◌, ltb,
  if◌then◌else◌,
}

pub record Vmiter : Type 0 where
  pub pt : ℕ
  pub pep : ℕ
  pub level : ℕ
  pub perm_bits : ℕ
  pub va : ℕ

-- `addr >> (PAGEOFFBITS + level * PAGEINDEXBITS)`.
abbrev pub above : ℕ → ℕ → ℕ
above addr level = addr / 2 ^ (12 + 9 * level)

unfoldable pub pageindex : ℕ → ℕ → ℕ
pageindex addr level = above addr level % 512

-- `addr & pageoffmask(level)`.
unfoldable pub pageoffset : ℕ → ℕ → ℕ
pageoffset addr level = addr % 2 ^ (12 + 9 * level)

-- `&pt->entry[index]`.
abbrev pub entry_at : ℕ → ℕ → ℕ
entry_at pt index = pt + 8 * index

-- `e & PTE_P`.
unfoldable pub is_present : ℕ → Bool
is_present e = e % 2 == 1

-- `(e & (PTE_P | PTE_PS)) == PTE_P`.
unfoldable pub is_table : ℕ → Bool
unfolding is_present
is_table e = is_present e && (e / 128 % 2 == 0)

-- `e & PTE_PAMASK`, bits 12 to 50.
unfoldable pub pa_bits : ℕ → ℕ
pa_bits e = e / 4096 % 2 ^ 39 * 4096

abbrev pub initial_perm : ℕ
initial_perm = 0xFFF

module _ (entries : ℕ → ℕ) where
  -- The loop of `down`, from the iterator's level on: its `pep`, level and permissions.
  unfoldable pub down_loop : ℕ → ℕ → ℕ → ℕ → ℕ × ℕ × ℕ
  unfolding is_table pageindex pa_bits
  down_loop va zero pep perm_bits = (pep, 0, perm_bits)
  down_loop va (suc level) pep perm_bits =
      let e = entries pep in
      let rest =
        down_loop va level (entry_at (pa_bits e) (pageindex va level)) (bit_and perm_bits e) in
      if is_table e then rest else (pep, suc level, perm_bits)

  unfoldable pub down : Vmiter → Vmiter
  unfolding down_loop
  down it =
      let (pep, level, perm_bits) = down_loop it.va it.level it.pep it.perm_bits in
      record it { pep = pep; level = level; perm_bits = perm_bits }

  -- From the top, unless `va` has the bits of the old address above what the entry's table covers.
  unfoldable pub real_find : ℕ → Vmiter → Vmiter
  unfolding down pageindex
  real_find va it =
      let curidx = it.pep % 4096 / 8 in
      down (
        if not (above it.va (it.level + 1) == above va (it.level + 1))
        then record {
          pt = it.pt;
          pep = entry_at it.pt (pageindex va 3);
          level = 3;
          perm_bits = initial_perm;
          va = va;
        }
        else record it { pep = it.pep + 8 * pageindex va it.level - 8 * curidx; va = va })

  -- The constructor.
  unfoldable pub vmiter : ℕ → ℕ → Vmiter
  unfolding real_find
  vmiter pt va =
      real_find va
        (record { pt = pt; pep = entry_at pt 0; level = 3; perm_bits = initial_perm; va = 0 })

  -- The physical address at which `it` stands.
  unfoldable pub pa : Vmiter → ℕ
  unfolding is_present pa_bits pageoffset
  pa it =
      let e = entries it.pep in
      let base = if ltb 0 it.level then pa_bits e - pa_bits e / 4096 % 2 * 4096 else pa_bits e in
      if is_present e then base + pageoffset it.va it.level else 0

  unfoldable pub perm : Vmiter → ℕ
  unfolding is_present
  perm it = let e = entries it.pep in if is_present e then bit_and e it.perm_bits else 0

  unfoldable pub present : Vmiter → Bool
  unfolding is_present
  present it = is_present (entries it.pep)

  -- Whether all of the permissions `p` are there.
  unfoldable pub has_perm : ℕ → Vmiter → Bool
  has_perm p it = bit_and (bit_and (entries it.pep) it.perm_bits) p == p

  unfoldable pub writable : Vmiter → Bool
  unfolding has_perm
  writable it = has_perm 3 it

  unfoldable pub user : Vmiter → Bool
  unfolding has_perm
  user it = has_perm 5 it

  unfoldable pub last_va : Vmiter → ℕ
  unfolding pageoffset
  last_va it = (it.va + (2 ^ (12 + 9 * it.level) - pageoffset it.va it.level)) % 2 ^ 64

  -- An empty region is left in one step.
  unfoldable pub next : Vmiter → Vmiter
  unfolding real_find perm pageoffset
  next it =
      let level = if ltb 0 it.level && (perm it == 0) then it.level else 0 in
      real_find ((it.va + (2 ^ (12 + 9 * level) - pageoffset it.va level)) % 2 ^ 64) it

  unfoldable pub step : Vmiter → Vmiter
  unfolding real_find last_va
  step it = real_find (last_va it) it
