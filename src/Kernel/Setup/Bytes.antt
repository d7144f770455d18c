-- ===== src/Kernel/Setup/Bytes.antt =====
-- The bytes that `process_setup` of pset4/kernel.cc copies into place.
use cs61_f18_psets.Base.{
  ℕ, ◌+◌, ◌-◌, ◌≤◌, ◌≡◌, inl, inr, refl, ◌∙◌, List, [], ◌∷◌, ltb, if◌then◌else◌, arith, All,
}
use cs61_f18_psets.Kernel.Machine.{Kernel}
use cs61_f18_psets.Kernel.Memory.{fill}
use cs61_f18_psets.Kernel.Loader.{
  ProgramLoader, loader_va, loader_size, loader_data, loader_data_size,
}
use cs61_f18_psets.Kernel.Setup.{copy_in, load_segment, load_segments}
use cs61_f18_psets.Kernel.Setup.Pages.{Within, InSegments, Apart}

-- The data of a segment is no longer than the segment.
abbrev pub IsProper : ProgramLoader → Type 0
IsProper l = loader_data_size l ≤ loader_size l

-- What a segment's address holds: a byte of the executable, and zeroes behind them.
abbrev pub image_byte : ProgramLoader → ℕ → ℕ
image_byte l a =
    if ltb a (loader_va l + loader_data_size l) then loader_data l (a - loader_va l) else 0

abbrev pub Holds : (ℕ → ℕ) → ProgramLoader → Type 0
Holds memory l = (a : ℕ) → Within l a → memory a ≡ image_byte l a

pub Holds-kept :
    (memory memory' : ℕ → ℕ) (ls : List ProgramLoader)
    → ((a : ℕ) → InSegments ls a → memory' a ≡ memory a)
    → All (Holds memory) ls
    → All (Holds memory') ls
Holds-kept memory memory' [] same held = tt
Holds-kept memory memory' (l ∷ ls) same (here, held) =
    ((λ a h. same a (inl h) ∙ here a h), Holds-kept memory memory' ls (λ a i. same a (inr i)) held)

load_segment_within :
    (l : ProgramLoader) (k : Kernel) → IsProper l → Holds (load_segment l k).memory l
unfolding load_segment copy_in fill
load_segment_within l k p a h = ground arith

load_segment_outside :
    (l : ProgramLoader) (k : Kernel) (a : ℕ)
    → IsProper l
    → ¬ Within l a
    → (load_segment l k).memory a ≡ k.memory a
unfolding load_segment copy_in fill
load_segment_outside l k a p out = ground arith

pub load_segments_outside :
    (ls : List ProgramLoader) (k : Kernel) (a : ℕ)
    → All IsProper ls
    → ¬ InSegments ls a
    → (load_segments ls k).memory a ≡ k.memory a
unfolding load_segments
load_segments_outside [] k a p out = refl
load_segments_outside (l ∷ ls) k a (p, ps) out =
    load_segments_outside ls (load_segment l k) a ps (λ h. out (inr h))
    ∙ load_segment_outside l k a p (λ h. out (inl h))

pub load_segments-Holds :
    (ls : List ProgramLoader) (k : Kernel)
    → All IsProper ls
    → Apart ls
    → All (Holds (load_segments ls k).memory) ls
unfolding load_segments
load_segments-Holds [] k p apart = tt
load_segments-Holds (l ∷ ls) k (p, ps) (here, apart) = (
  (λ a h.
      load_segments_outside ls (load_segment l k) a ps (here a h) ∙ load_segment_within l k p a h),
  load_segments-Holds ls (load_segment l k) ps apart,
)

-- Only memory changes.
pub load_segments_rest :
    (ls : List ProgramLoader) (k : Kernel)
    → load_segments ls k ≡ record k { memory = (load_segments ls k).memory }
unfolding load_segments load_segment
load_segments_rest [] k = refl
load_segments_rest (l ∷ ls) k = load_segments_rest ls (load_segment l k)
