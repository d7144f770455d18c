-- ===== src/Kernel/Setup/Tests.antt =====
-- Runs of the loader and of the kernel's start.
use cs61_f18_psets.Base.{
  get_or-replicate, ◌/◌, ℕ, zero, suc, ◌+◌, ◌≤◌, ◌<◌, ◌≡◌, inl, inr, refl, true, Option, none, some,
  List, [], ◌∷◌, map, length, arith, All,
}
use cs61_f18_psets.Base.Text.{codes}
use cs61_f18_psets.Kernel.Machine.{npages, page_size, Kernel, done}
use cs61_f18_psets.Kernel.Memory.{round_down, claim, allocatable_physical_address, owner_of}
use cs61_f18_psets.Kernel.Schedule.{Next, user, halted, spinning}
use cs61_f18_psets.Kernel.Trap.Preserve.{IsValid}
use cs61_f18_psets.Kernel.Boot.{free_slots, boot_state, boot_state-IsValid}
use cs61_f18_psets.Kernel.Loader.{
  loader_next, ElfProgram, ElfImage, RamImage, elf_magic, fix, rounds, loader_size,
  loader_data_size, loader_va,
}
use cs61_f18_psets.Kernel.Loader.Segments.{here, loads, rounds-loads}
use cs61_f18_psets.Kernel.Setup.{with_stack, process_setup, kernel, stack_addr, page_rounds}
use cs61_f18_psets.Kernel.Setup.Bytes.{IsProper}
use cs61_f18_psets.Kernel.Setup.Process.{loaded, segments, entry_of}
use cs61_f18_psets.Kernel.Setup.Started.{Started}
use cs61_f18_psets.Kernel.Setup.Booted.{Boots, programs_of, kernel-Boots}
use cs61_f18_psets.Kernel.Memory.Alloc.{is_free}
use cs61_f18_psets.Kernel.Setup.Room.{OnPages}
use cs61_f18_psets.Kernel.Setup.Finish.{HasRoom, process_setup_returns}

abbrev code_segment : ElfProgram
code_segment = record {
  p_type = 1;
  p_flags = 5;
  p_offset = 64;
  p_va = 0x100000;
  p_filesz = 3;
  p_memsz = 3;
}

-- The stack's flags, which are nothing to load.
abbrev note_segment : ElfProgram
note_segment = record { p_type = 6; p_flags = 6; p_offset = 0; p_va = 0; p_filesz = 0; p_memsz = 0 }

abbrev data_segment : ElfProgram
data_segment = record {
  p_type = 1;
  p_flags = 6;
  p_offset = 80;
  p_va = 0x101FF0;
  p_filesz = 2;
  p_memsz = 32;
}

abbrev allocator : ElfImage
allocator = record {
  e_magic = elf_magic;
  e_entry = 0x100001;
  programs = code_segment ∷ note_segment ∷ data_segment ∷ [];
  content = λ i. i + 7;
}

abbrev images : List RamImage
images = record { name = codes "allocator"; begin = allocator } ∷ []

images_proper : (n : ℕ) → All IsProper (segments images n)
unfolding fix rounds loader_size loader_data_size
images_proper zero = (omega arith, (omega arith, tt))
images_proper (suc n) = tt

enough_rounds : length (fix allocator.programs) ≤ 3
unfolding fix
enough_rounds = omega arith

rounds-loads_example :
    map here (rounds 3 (record { elf = some allocator; ph = fix allocator.programs }))
    ≡ map some (loads allocator.programs)
unfolding fix
rounds-loads_example = rounds-loads 3 (some allocator) allocator.programs enough_rounds

loads_run : loads allocator.programs ≡ code_segment ∷ data_segment ∷ []
loads_run = refl

-- Memory holds 170 in each byte when the kernel starts.
abbrev booted : Kernel
booted = boot_state (λ a. 170)

booted-IsValid : IsValid booted
booted-IsValid = boot_state-IsValid (λ a. 170)

owner_at_boot : (q : ℕ) → owner_of booted q ≡ 0
unfolding boot_state
owner_at_boot q = get_or-replicate npages (q / page_size) 0

free_at_boot : (q : ℕ) → 0x100000 ≤ q → q < 0x200000 → is_free 0x52000 booted q ≡ true
unfolding allocatable_physical_address
free_at_boot q lo hi = rw (owner_at_boot q) (ground arith)

code_pages : (a : ℕ) → OnPages (loaded images 0) a → (0x100000 ≤ a) × (a < 0x101000)
unfolding round_down page_rounds loader_va loader_size fix
code_pages a i = omega arith

data_pages : (a : ℕ) → OnPages (loader_next (loaded images 0)) a → (0x101000 ≤ a) × (a < 0x103000)
unfolding round_down page_rounds loader_va loader_size fix loader_next
data_pages a i = omega arith

boot_room : HasRoom 0x52000 images 1 0 booted
unfolding fix rounds loader_size loader_next stack_addr
boot_room = record {
  magic = refl;
  apart = (
    (λ a i j. elim j [
      | inl d ↦ absurd (omega (arith, code_pages a i, data_pages a d))
      | inr f ↦ f
    ]),
    ((λ a i j. j), tt),
  );
  free = λ q even i. elim i [
    | inl c ↦ free_at_boot q (omega (arith, code_pages q c)) (omega (arith, code_pages q c))
    | inr (inl d) ↦ free_at_boot q (omega (arith, data_pages q d)) (omega (arith, data_pages q d))
    | inr (inr f) ↦ absurd f
  ];
  stack = free_at_boot (stack_addr 1) (omega arith) (omega arith);
  stack_apart = λ i. elim i [
    | inl c ↦ absurd (omega (arith, code_pages (stack_addr 1) c))
    | inr (inl d) ↦ absurd (omega (arith, data_pages (stack_addr 1) d))
    | inr (inr f) ↦ f
  ];
}

process_setup_returns_example :
    (k' : Kernel) × (process_setup 0x52000 0x8000 images 1 0 booted ≡ done (tt, k'))
    × Started 0x8000 1 (entry_of images 0) (segments images 0) booted k'
process_setup_returns_example =
    process_setup_returns 0x52000 0x8000 images booted 1 0 booted-IsValid
      (λ e. absurd (omega arith)) (omega arith) (images_proper 0) boot_room

kernel-Boots_example :
    Boots 0x52000 0x8000 images images_proper
      (programs_of none)
      (kernel 0x52000 0x8000 images none (λ a. 170))
kernel-Boots_example = kernel-Boots 0x52000 0x8000 images images_proper none (λ a. 170)

abbrev goes_to : Next → Option ℕ
goes_to (user j k) = some j
goes_to halted = none
goes_to spinning = none

kernel_run : goes_to (kernel 0x52000 0x8000 images none (λ a. 170)) ≡ some 1
unfolding kernel allocatable_physical_address rounds claim free_slots with_stack
kernel_run = refl
