-- ===== src/Kernel/Memory.antt =====
-- Physical memory: `reserved_physical_address` and `allocatable_physical_address` of
-- pset4/k-hardware.cc, `kalloc`, `kfree` and `kalloc_physical_page` of pset4/kernel.cc. The end of
-- the kernel's image, which the linker sets, is the parameter `kernel_end`.
pub mod Alloc
pub mod Pages
use cs61_f18_psets.Base.{
  ℕ, zero, suc, ◌+◌, ◌-◌, ◌/◌, ◌%◌, ◌≤◌, ◌<◌, Bool, true, false, not, ◌&&◌, ◌||◌, Option, none,
  some, List, get_or, set, ltb, leb, ◌==◌, if◌then◌else◌,
}
use cs61_f18_psets.Kernel.Machine.{
  Kernel, K, Outcome, done, panicked, pure, assert, ◌>>=◌, ◌>>◌, page_size, kernel_start_addr,
  kernel_stack_top, memsize_physical, npages,
}

unfoldable pub reserved_physical_address : ℕ → Bool
reserved_physical_address pa = ltb pa page_size || (leb 0xA0000 pa && ltb pa 0x100000)

unfoldable pub round_down : ℕ → ℕ → ℕ
round_down x multiple = x - x % multiple

unfoldable pub round_up : ℕ → ℕ → ℕ
unfolding round_down
round_up x multiple = round_down (x + multiple - 1) multiple

-- `memset((void*) pa, c, n)`.
unfoldable pub fill : (ℕ → ℕ) → ℕ → ℕ → ℕ → ℕ → ℕ
fill memory pa n c a = if leb pa a && ltb a (pa + n) then c else memory a

abbrev pub owner_of : Kernel → ℕ → ℕ
owner_of k pa = get_or k.owners (pa / page_size) 0

-- `pages[pa / PAGESIZE].owner = owner; memset((void*) pa, 0, PAGESIZE);`. The owner is a `uint8_t`.
unfoldable pub claim : ℕ → ℕ → Kernel → Kernel
claim pa owner k = record k {
  owners = set k.owners (pa / page_size) (owner % 256);
  memory = fill k.memory pa page_size 0;
}

module _ (kernel_end : ℕ) where
  unfoldable pub allocatable_physical_address : ℕ → Bool
  unfolding reserved_physical_address round_up
  allocatable_physical_address pa =
      not (reserved_physical_address pa)
      && (ltb pa kernel_start_addr || leb (round_up kernel_end page_size) pa)
      && (ltb pa (kernel_stack_top - page_size) || leb kernel_stack_top pa)
      && ltb pa memsize_physical

  -- The loop of `kalloc`; `none` outside means that the fuel ran out.
  unfoldable pub kalloc_loop : ℕ → Kernel → Option (Option ℕ × Kernel)
  kalloc_loop zero k = none
  kalloc_loop (suc fuel) k =
      let pa = k.next_alloc_pa in
      let k' = record k { next_alloc_pa = pa + page_size } in
      let rest = kalloc_loop fuel k' in
      if ltb pa memsize_physical
      then if allocatable_physical_address pa && (owner_of k pa == 0)
        then some (some pa, claim pa 255 k')
        else rest
      else some (none, k)

  -- One round for each page and one for the test that ends the loop.
  unfoldable pub kalloc : ℕ → Kernel → Option (Option ℕ × Kernel)
  kalloc sz k = if ltb page_size sz then some (none, k) else kalloc_loop (suc npages) k

  -- `kfree` only checks its argument.
  unfoldable pub kfree : ℕ → K (Unit {0})
  kfree pa = do assert (pa % page_size == 0); assert ((pa == 0) || allocatable_physical_address pa)

  -- The answer is the address, or `none` for a null pointer.
  unfoldable pub kalloc_physical_page : ℕ → ℕ → K (Option ℕ)
  kalloc_physical_page pa owner = do
    assert (pa % page_size == 0)
    λ k.
        if allocatable_physical_address pa && (owner_of k pa == 0)
        then done (some pa, claim pa owner k)
        else done (none, k)
