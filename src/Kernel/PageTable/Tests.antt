-- ===== src/Kernel/PageTable/Tests.antt =====
-- Page tables that are walked and filled.
use cs61_f18_psets.Base.{ℕ, ◌≡◌, ◌%◌, Option, some, refl, ◌∙◌, length, length-set}
use cs61_f18_psets.Kernel.Machine.{Kernel, npages, Outcome, done}
use cs61_f18_psets.Kernel.PageTable.{
  Vmiter, pageindex, is_present, is_table, pa_bits, down_loop, down, real_find, vmiter, pa,
  pageoffset,
}
use cs61_f18_psets.Kernel.PageTable.Walk.{real_find_lem}
use cs61_f18_psets.Kernel.PageTable.Map.{PageSource, Mapping, map_loop, map, refused, table_entry}
use cs61_f18_psets.Kernel.PageTable.Source.{Usable, kernel_pages}
use cs61_f18_psets.Kernel.Boot.{boot_state, boot_state-IsValid}
use cs61_f18_psets.Kernel.Memory.{claim, kalloc, kalloc_loop, allocatable_physical_address}

-- The kernel has taken one page, at 0x1000, for the table.
abbrev one_page : Kernel
one_page = claim 0x1000 255 (record (boot_state (λ a. 170)) { next_alloc_pa = 0x2000 })

one_page-pages : length one_page.owners ≡ npages
unfolding claim
one_page-pages = length-set _ 1 _ ∙ (boot_state-IsValid (λ a. 170)).pages

one_page-aligned : one_page.next_alloc_pa % 4096 ≡ 0
unfolding claim
one_page-aligned = refl

abbrev booted : Usable
booted = (one_page, one_page-pages, one_page-aligned)

abbrev source : PageSource
source = kernel_pages 0x52000

abbrev empty : ℕ → ℕ
empty a = 0

-- The table at 0x1000, at the address 0x100000.
abbrev start : Vmiter
start = record { pt = 0x1000; pep = 0x1000; level = 3; perm_bits = 0xFFF; va = 0x100000 }

start_run : vmiter empty 0x1000 0x100000 ≡ start
unfolding vmiter real_find down down_loop is_table is_present pageindex pa_bits
start_run = refl

abbrev after : Option (Outcome (Mapping source)) → Vmiter × (ℕ → ℕ)
after (some (done (good, it, entries, st))) = (it, entries)
after _ = (start, empty)

-- Three pages are added, and the address reads back.
map_run :
    (let r = after (map source 0x5000 7 start empty booted) in pa r.1 (vmiter r.1 0x1000 0x100123))
    ≡ 0x5123
unfolding map map_loop refused table_entry vmiter real_find down down_loop is_table is_present
    pageindex pa_bits pa pageoffset claim boot_state kalloc kalloc_loop allocatable_physical_address
map_run = refl

abbrev filled : ℕ → ℕ
filled = (after (map source 0x5000 7 start empty booted)).1

real_find_example :
    real_find filled 0x300000 (vmiter filled 0x1000 0x100000) ≡ vmiter filled 0x1000 0x300000
real_find_example = real_find_lem filled 0x1000 0x100000 0x300000 refl
