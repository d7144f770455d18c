-- ===== src/Kernel/Setup/Pages.antt =====
-- The pages that `process_setup` of pset4/kernel.cc takes for the segments of a program.
use native.Mathlib.Decide.{ℕ_discrete}
use cs61_f18_psets.Base.{
  sym, ℕ, zero, suc, ◌+◌, ◌*◌, ◌/◌, ◌%◌, ◌≤◌, ◌<◌, ◌≡◌, ◌≢◌, ◌⊎◌, inl, inr, refl, ◌∙◌, List, [],
  ◌∷◌, Option, some, none, arith,
}
use cs61_f18_psets.Kernel.Machine.{Kernel, K, Outcome, done, panicked, ◌>>=◌, page_size}
use cs61_f18_psets.Kernel.Memory.{owner_of, round_down}
use cs61_f18_psets.Kernel.Memory.Pages.{Given, PageCall, kalloc_physical_page-PageCall}
use cs61_f18_psets.Kernel.Trap.Preserve.{IsValid, Keeps, Keeps-refl, Keeps-trans, Given-Keeps}
use cs61_f18_psets.Kernel.Loader.{ProgramLoader, loader_va, loader_size}
use cs61_f18_psets.Kernel.Setup.{need, take_page, take_pages, take_segments, page_rounds}

-- What holds of the kernel when a routine returns.
abbrev pub Returns : {A : Type 0} → (A → Kernel → Type 0) → Outcome (A × Kernel) → Type 0
Returns P panicked = Unit
Returns P (done (a, k)) = P a k

bind_outcome :
    {A B : Type 0} (P : A → Kernel → Type 0) (Q : B → Kernel → Type 0) (f : A → K B)
    (o : Outcome (A × Kernel))
    → Returns P o
    → ((a : A) (l : Kernel) → P a l → Returns Q (f a l))
    → Returns Q (elim o [ panicked ↦ panicked | done (a, l) ↦ f a l ])
bind_outcome P Q f panicked p q = tt
bind_outcome P Q f (done (a, l)) p q = q a l p

pub Returns->>= :
    {A B : Type 0} (P : A → Kernel → Type 0) (Q : B → Kernel → Type 0) (m : K A) (f : A → K B)
    (k : Kernel)
    → Returns P (m k)
    → ((a : A) (l : Kernel) → P a l → Returns Q (f a l))
    → Returns Q ((m >>= f) k)
Returns->>= P Q m f k p q = bind_outcome P Q f (m k) p q

pub Returns-map :
    {A : Type 0} (P Q : A → Kernel → Type 0) (o : Outcome (A × Kernel))
    → ((a : A) (l : Kernel) → P a l → Q a l)
    → Returns P o
    → Returns Q o
Returns-map P Q panicked f p = tt
Returns-map P Q (done (a, l)) f p = f a l p

-- From `k` to `k'` the addresses of `In` have come from no owner to `pid` and hold zeroes, and nothing
-- in use has changed, nor has a process.
pub record Took (pid : ℕ) (In : ℕ → Type 0) (k k' : Kernel) : Type 0 where
  pub keeps : Keeps k k'
  pub processes : k'.ptable ≡ k.ptable
  pub was_free : (a : ℕ) → In a → owner_of k a ≡ 0
  pub owned : (a : ℕ) → In a → owner_of k' a ≡ pid
  pub zeroed : (a : ℕ) → In a → k'.memory a ≡ 0

-- The addresses of a segment.
abbrev pub Within : ProgramLoader → ℕ → Type 0
Within l a = (loader_va l ≤ a) × (a < loader_va l + loader_size l)

abbrev pub InSegments : List ProgramLoader → ℕ → Type 0
InSegments [] a = ⊥
InSegments (l ∷ ls) a = Within l a ⊎ InSegments ls a

-- No two segments share an address.
abbrev pub Apart : List ProgramLoader → Type 0
Apart [] = Unit
Apart (l ∷ ls) = ((a : ℕ) → Within l a → ¬ InSegments ls a) × Apart ls

pub owner_back : (k l : Kernel) (a : ℕ) → Keeps k l → owner_of l a ≡ 0 → owner_of k a ≡ 0
owner_back k l a keeps e = elim (ℕ_discrete (owner_of k a) 0) [
  | yes z ↦ z
  | no ne ↦ absurd (ne (sym (keeps.owners a ne) ∙ e))
]

pub Took-none :
    (k : Kernel) (pid : ℕ) (In : ℕ → Type 0) → IsValid k → ((a : ℕ) → ¬ In a) → Took pid In k k
Took-none k pid In v out = record {
  keeps = Keeps-refl k v;
  processes = refl;
  was_free = λ a h. absurd (out a h);
  owned = λ a h. absurd (out a h);
  zeroed = λ a h. absurd (out a h);
}

pub Took-less :
    (k l : Kernel) (pid : ℕ) (In Out : ℕ → Type 0)
    → ((a : ℕ) → In a → Out a)
    → Took pid Out k l
    → Took pid In k l
Took-less k l pid In Out f t = record {
  keeps = t.keeps;
  processes = t.processes;
  was_free = λ a h. t.was_free a (f a h);
  owned = λ a h. t.owned a (f a h);
  zeroed = λ a h. t.zeroed a (f a h);
}

pub Took-trans :
    (k l m : Kernel) (pid : ℕ) (First Second Both : ℕ → Type 0)
    → pid ≢ 0
    → ((a : ℕ) → Both a → First a ⊎ Second a)
    → Took pid First k l
    → Took pid Second l m
    → Took pid Both k m
Took-trans k l m pid First Second Both ne split p q = record {
  keeps = Keeps-trans k l m p.keeps q.keeps;
  processes = q.processes ∙ p.processes;
  was_free = λ a h. elim (split a h) [
    | inl i ↦ p.was_free a i
    | inr j ↦ owner_back k l a p.keeps (q.was_free a j)
  ];
  owned = λ a h. elim (split a h) [
    | inl i ↦ q.keeps.owners a (λ e. ne (sym (p.owned a i) ∙ e)) ∙ p.owned a i
    | inr j ↦ q.owned a j
  ];
  zeroed = λ a h. elim (split a h) [
    | inl i ↦ q.keeps.contents a (λ e. ne (sym (p.owned a i) ∙ e)) ∙ p.zeroed a i
    | inr j ↦ q.zeroed a j
  ];
}

abbrev pub InPage : ℕ → ℕ → Type 0
InPage pa a = (pa ≤ a) × (a < pa + page_size)

abbrev pub InPages : ℕ → ℕ → ℕ → Type 0
InPages pa n a = (pa ≤ a) × (a < pa + n * page_size)

same_page : (pa a : ℕ) → pa % page_size ≡ 0 → InPage pa a → a / page_size ≡ pa / page_size
same_page pa a even h = omega arith

Given-Took :
    (ke : ℕ) (k k' : Kernel) (pa pid : ℕ)
    → IsValid k
    → pid < 256
    → pa % page_size ≡ 0
    → Given ke k k' pa pid
    → Took pid (InPage pa) k k'
Given-Took ke k k' pa pid v small even g = record {
  keeps = Given-Keeps ke k k' pa pid v even g;
  processes = g.processes;
  was_free = λ a h. rw (same_page pa a even h) (ground (arith, g.was_free));
  owned = λ a h. rw (same_page pa a even h) (omega (arith, g.owned));
  zeroed = λ a (lo, hi). g.zeroed a lo hi;
}

module _ (kernel_end : ℕ) where
  need_page :
      (k : Kernel) (pa pid : ℕ) (o : Outcome (Option ℕ × Kernel))
      → IsValid k
      → pid < 256
      → PageCall kernel_end k pa pid o
      → Returns
          (λ _ l. Took pid (InPage pa) k l)
          (elim o [ panicked ↦ panicked | done (r, l) ↦ need r l ])
  need_page k pa pid panicked v small c = tt
  need_page k pa pid (done (some q, l)) v small (even, same, given) =
      Given-Took kernel_end k l pa pid v small even given
  need_page k pa pid (done (none, l)) v small c = tt

  pub take_page-Took :
      (k : Kernel) (pa pid : ℕ)
      → IsValid k
      → pid < 256
      → Returns (λ _ l. Took pid (InPage pa) k l) (take_page kernel_end pa pid k)
  unfolding take_page
  take_page-Took k pa pid v small =
      need_page k pa pid _ v small (kalloc_physical_page-PageCall kernel_end pa pid k v.pages)

  pub take_pages-Took :
      (n : ℕ) (k : Kernel) (pa pid : ℕ)
      → IsValid k
      → pid ≢ 0
      → pid < 256
      → pa % page_size ≡ 0
      → Returns (λ _ l. Took pid (InPages pa n) k l) (take_pages kernel_end n pa pid k)
  unfolding take_pages
  take_pages-Took zero k pa pid v ne small even = Took-none k pid _ v (λ a h. absurd (omega arith))
  take_pages-Took (suc n) k pa pid v ne small even =
      Returns->>= (λ _ l. Took pid (InPage pa) k l) _ (take_page kernel_end pa pid) _ k
        (take_page-Took k pa pid v small)
        (λ t l p.
          Returns-map (λ _ m. Took pid (InPages (pa + page_size) n) l m)
            (λ _ m. Took pid (InPages pa (suc n)) k m) _
            (λ _ m q.
              Took-trans k l m pid (InPage pa) (InPages (pa + page_size) n) (InPages pa (suc n)) ne
                (λ a h. ground arith) p q)
            (take_pages-Took n l (pa + page_size) pid p.keeps.valid ne small (omega arith)))

  take_segment-Took :
      (l : ProgramLoader) (k : Kernel) (pid : ℕ)
      → IsValid k
      → pid ≢ 0
      → pid < 256
      → Returns
          (λ _ m. Took pid (Within l) k m)
          (take_pages kernel_end
            (page_rounds (round_down (loader_va l) page_size) (loader_va l + loader_size l))
            (round_down (loader_va l) page_size)
            pid
            k)
  unfolding page_rounds round_down
  take_segment-Took l k pid v ne small =
      let lo : ℕ = round_down (loader_va l) page_size in
      let n : ℕ = page_rounds lo (loader_va l + loader_size l) in
      Returns-map (λ _ m. Took pid (InPages lo n) k m) (λ _ m. Took pid (Within l) k m) _
        (λ _ m q. Took-less k m pid (Within l) (InPages lo n) (λ a h. omega arith) q)
        (take_pages-Took n k lo pid v ne small (omega arith))

  -- When every page that the segments need can be taken, they share no address.
  pub take_segments-Took :
      (ls : List ProgramLoader) (k : Kernel) (pid : ℕ)
      → IsValid k
      → pid ≢ 0
      → pid < 256
      → Returns (λ _ m. Took pid (InSegments ls) k m × Apart ls) (take_segments kernel_end ls pid k)
  unfolding take_segments
  take_segments-Took [] k pid v ne small = (Took-none k pid _ v (λ a h. absurd h), tt)
  take_segments-Took (l ∷ ls) k pid v ne small =
      let lo : ℕ = round_down (loader_va l) page_size in
      Returns->>= (λ _ m. Took pid (Within l) k m)
        (λ _ n. Took pid (InSegments (l ∷ ls)) k n × Apart (l ∷ ls))
        (take_pages kernel_end (page_rounds lo (loader_va l + loader_size l)) lo pid)
        (λ _. take_segments kernel_end ls pid) k (take_segment-Took l k pid v ne small)
        (λ t m p.
          Returns-map (λ _ n. Took pid (InSegments ls) m n × Apart ls)
            (λ _ n. Took pid (InSegments (l ∷ ls)) k n × Apart (l ∷ ls)) _
            (λ _ n (q, apart). (
              Took-trans k m n pid (Within l) (InSegments ls) (InSegments (l ∷ ls)) ne (λ a h. h) p
                  q,
              ((λ a here there. ne (sym (p.owned a here) ∙ q.was_free a there)), apart),
            ))
            (take_segments-Took ls m pid p.keeps.valid ne small))
