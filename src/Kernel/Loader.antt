-- ===== src/Kernel/Loader.antt =====
-- `program_loader` of pset4/k-hardware.cc, which goes over the segments of an executable. The
-- executables are files that the build makes, so they are a parameter; pset4/elf.h has their headers.
pub mod Segments
use cs61_f18_psets.Base.{
  ℕ, zero, suc, ◌+◌, ◌/◌, ◌%◌, ◌≤◌, ◌≡◌, Bool, true, false, ◌&&◌, Option, none, some, List, [], ◌∷◌,
  get_elem?, length, ltb, ◌==◌, if◌then◌else◌,
}
use cs61_f18_psets.Kernel.Machine.{K, pure, assert, ◌>>◌}

-- `elf_program`.
pub record ElfProgram : Type 0 where
  pub p_type : ℕ
  pub p_flags : ℕ
  pub p_offset : ℕ
  pub p_va : ℕ
  pub p_filesz : ℕ
  pub p_memsz : ℕ

-- `elf_header`, the table of the `e_phnum` program headers at `e_phoff`, and the file's bytes.
pub record ElfImage : Type 0 where
  pub e_magic : ℕ
  pub e_entry : ℕ
  pub programs : List ElfProgram
  pub content : ℕ → ℕ

abbrev pub elf_magic : ℕ
elf_magic = 0x464C457F

-- `ELF_PTYPE_LOAD`.
abbrev pub is_load : ElfProgram → Bool
is_load ph = ph.p_type == 1

-- `ramimages`: a name and an executable.
pub record RamImage : Type 0 where
  pub name : List ℕ
  pub begin : ElfImage

-- `program_loader`: the program headers from `ph_` to `endph_`.
pub record ProgramLoader : Type 0 where
  pub elf : Option ElfImage
  pub ph : List ElfProgram

-- `fix`: to the next segment to load.
unfoldable pub fix : List ElfProgram → List ElfProgram
fix [] = []
fix (ph ∷ rest) = if is_load ph then ph ∷ rest else fix rest

abbrev pub segment_va : List ElfProgram → ℕ
segment_va [] = 0
segment_va (ph ∷ rest) = ph.p_va

abbrev pub segment_size : List ElfProgram → ℕ
segment_size [] = 0
segment_size (ph ∷ rest) = ph.p_memsz

abbrev pub segment_offset : List ElfProgram → ℕ
segment_offset [] = 0
segment_offset (ph ∷ rest) = ph.p_offset

abbrev pub segment_data_size : List ElfProgram → ℕ
segment_data_size [] = 0
segment_data_size (ph ∷ rest) = ph.p_filesz

abbrev pub segment_present : List ElfProgram → Bool
segment_present [] = false
segment_present (ph ∷ rest) = true

-- `ELF_PFLAG_WRITE` is bit 1.
abbrev pub segment_writable : List ElfProgram → Bool
segment_writable [] = false
segment_writable (ph ∷ rest) = ph.p_flags / 2 % 2 == 1

unfoldable pub loader_va : ProgramLoader → ℕ
loader_va l = segment_va l.ph

unfoldable pub loader_size : ProgramLoader → ℕ
loader_size l = segment_size l.ph

-- `data()` as a function from an index; behind the last segment it is a null pointer.
unfoldable pub loader_data : ProgramLoader → ℕ → ℕ
loader_data l i = elim l.elf [ none ↦ 0 | some elf ↦ elf.content (segment_offset l.ph + i) ]

unfoldable pub loader_data_size : ProgramLoader → ℕ
loader_data_size l = segment_data_size l.ph

unfoldable pub loader_present : ProgramLoader → Bool
loader_present l = segment_present l.ph

unfoldable pub loader_writable : ProgramLoader → Bool
loader_writable l = segment_writable l.ph

unfoldable pub loader_entry : ProgramLoader → ℕ
loader_entry l = elim l.elf [ none ↦ 0 | some elf ↦ elf.e_entry ]

abbrev pub behind : List ElfProgram → List ElfProgram
behind [] = []
behind (ph ∷ rest) = fix rest

-- `operator++`.
unfoldable pub loader_next : ProgramLoader → ProgramLoader
unfolding fix
loader_next l = record l { ph = behind l.ph }

abbrev pub first_of : Option ElfImage → List ElfProgram
first_of none = []
first_of (some elf) = fix elf.programs

abbrev pub magic_of : Option ElfImage → ℕ
magic_of none = elf_magic
magic_of (some elf) = elf.e_magic

-- `reset`, with its assertion.
unfoldable pub loader_reset : ProgramLoader → K ProgramLoader
unfolding fix
loader_reset l = assert (magic_of l.elf == elf_magic) >> pure (record l { ph = first_of l.elf })

abbrev pub begin_of : Option RamImage → Option ElfImage
begin_of none = none
begin_of (some image) = some image.begin

module _ (ramimages : List RamImage) where
  -- The constructor; a number of no image gives a loader without segments.
  unfoldable pub program_loader : ℕ → K ProgramLoader
  unfolding loader_reset
  program_loader n = loader_reset (record { elf = begin_of (get_elem? ramimages n); ph = [] })

-- What a loop `for (reset(); size() != 0; ++loader)` sees: the loader in each round.
unfoldable pub rounds : ℕ → ProgramLoader → List ProgramLoader
unfolding loader_next loader_size
rounds zero l = []
rounds (suc fuel) l =
    let rest = rounds fuel (loader_next l) in if loader_size l == 0 then [] else l ∷ rest

-- A loader has as many rounds as program headers at most.
abbrev pub loader_rounds : ProgramLoader → List ProgramLoader
loader_rounds l = rounds (length l.ph) l
