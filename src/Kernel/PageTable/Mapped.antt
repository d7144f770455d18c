-- ===== src/Kernel/PageTable/Mapped.antt =====
-- `vmiter::map` ends, at a mapping of one page, and writes nothing but its own entries.
use Prim.Native.Nat.{bit_and, bit_or}
use mathlib.Core.Path.{subst}
use cs61_f18_psets.Base.{
  ℕ, zero, suc, ◌%◌, ◌^◌, ◌≤◌, ◌<◌, ◌≡◌, ◌≢◌, ◌⊎◌, Bool, true, false, not, ◌&&◌, Option, none, some,
  ltb, ◌==◌, ==_iff, if◌then◌else◌, inl, inr, Bool-cases, Option-cases, refl, sym, ap, ◌∙◌, arith,
}
use cs61_f18_psets.Kernel.Machine.{Outcome, done, panicked}
use cs61_f18_psets.Kernel.PageTable.{Vmiter, pageindex, entry_at, is_present, down_loop, down}
use cs61_f18_psets.Kernel.PageTable.Walk.{pageindex-lt}
use cs61_f18_psets.Kernel.PageTable.Map.{
  PageSource, Mapping, page_of, clear_page, set_entry, table_entry, map_loop, refused, install, map,
}
use cs61_f18_psets.Kernel.PageTable.Added.{
  is_present-zero, set_same, set_other, page_of-entry, not_cleared, added, added-below,
  down_loop-added,
}

module _ (source : PageSource) where
  open source use {State, kalloc, holds, kalloc_aligned, kalloc_new, kalloc_keeps}

  -- How the loop of `map` ends that starts with the iterator `it`: it has come down to a mapping of one
  -- page when pages were to be added, and no entry changed but `it`'s and those of new pages.
  abbrev Ends : (ℕ → ℕ) → Vmiter → State → Option (Outcome (Mapping source)) → Type 0
  Ends entries it st none = ⊥
  Ends entries it st (some panicked) = (0 < it.level) × (is_present (entries it.pep) ≡ true)
  Ends entries it st (some (done (false, it', entries', st'))) = 0 < it'.level
  Ends entries it st (some (done (true, it', entries', st'))) =
      (it'.level ≡ 0)
      × ((a : ℕ) → holds st (page_of a) ≡ true → a ≢ it.pep → entries' a ≡ entries a)

  -- The frame of one round and the rest.
  Ends-round :
      (entries entries1 : ℕ → ℕ) (it it1 : Vmiter) (st st1 : State)
      (r : Option (Outcome (Mapping source)))
      → ((a : ℕ) → holds st (page_of a) ≡ true → holds st1 (page_of a) ≡ true)
      → ((a : ℕ) → holds st (page_of a) ≡ true → a ≢ it1.pep)
      → ((a : ℕ) → holds st (page_of a) ≡ true → a ≢ it.pep → entries1 a ≡ entries a)
      → entries1 it1.pep ≡ 0
      → Ends entries1 it1 st1 r
      → Ends entries it st r
  Ends-round entries entries1 it it1 st st1 none keeps apart frame zeroed ends = ends
  Ends-round entries entries1 it it1 st st1 (some panicked) keeps apart frame zeroed (up, there) =
      absurd (cc (sym (ap is_present zeroed ∙ is_present-zero) ∙ there))
  Ends-round entries entries1 it it1 st st1 (some (done (false, it', e', st'))) keeps apart frame
        zeroed ends =
      ends
  Ends-round entries entries1 it it1 st st1 (some (done (true, it', e', st'))) keeps apart frame
        zeroed (low, same) =
      (low, λ a held ne. same a (keeps a held) (apart a held) ∙ frame a held ne)

  adding : (level perm : ℕ) → 0 < level → perm ≢ 0 → (ltb 0 level && not (perm == 0)) ≡ true
  adding level perm pos some_perm =
      let up : ltb 0 level ≡ true = ground arith in
      elim (Bool-cases (perm == 0)) [
        | inl z ↦ absurd (some_perm ((==_iff perm 0).0 z))
        | inr z ↦ rw (up, z) refl
      ]

  Ends-zero :
      (fuel perm : ℕ) (it : Vmiter) (entries : ℕ → ℕ) (st : State)
      → it.level ≡ 0
      → Ends entries it st (map_loop source (suc fuel) perm it entries st)
  unfolding map_loop
  Ends-zero fuel perm it entries st low =
      let down_there : ltb 0 it.level ≡ false = ground arith in
      rw down_there (low, λ a held ne. refl)

  Ends-present :
      (fuel perm : ℕ) (it : Vmiter) (entries : ℕ → ℕ) (st : State)
      → 0 < it.level
      → (ltb 0 it.level && not (perm == 0)) ≡ true
      → is_present (entries it.pep) ≡ true
      → Ends entries it st (map_loop source (suc fuel) perm it entries st)
  unfolding map_loop
  Ends-present fuel perm it entries st pos more there = rw (more, there) (pos, there)

  Ends-out :
      (fuel perm : ℕ) (it : Vmiter) (entries : ℕ → ℕ) (st : State)
      → 0 < it.level
      → (ltb 0 it.level && not (perm == 0)) ≡ true
      → is_present (entries it.pep) ≡ false
      → (kalloc st).0 ≡ none
      → Ends entries it st (map_loop source (suc fuel) perm it entries st)
  unfolding map_loop
  Ends-out fuel perm it entries st pos more free out = rw (more, free, out) pos

  map_loop-page :
      (fuel perm p : ℕ) (it : Vmiter) (entries : ℕ → ℕ) (st : State)
      → (ltb 0 it.level && not (perm == 0)) ≡ true
      → is_present (entries it.pep) ≡ false
      → (kalloc st).0 ≡ some p
      → map_loop source (suc fuel) perm it entries st
        ≡ map_loop source fuel perm
            (down (set_entry (clear_page entries p) it.pep (table_entry p)) it)
            (set_entry (clear_page entries p) it.pep (table_entry p))
            (kalloc st).1
  unfolding map_loop
  map_loop-page fuel perm p it entries st more free given = rw (more, free, given) refl

  -- The iterator on the new page.
  down-page :
      (level p : ℕ) (it : Vmiter) (entries : ℕ → ℕ)
      → it.level ≡ suc level
      → p % 4096 ≡ 0
      → p < 2 ^ 51
      → page_of it.pep ≢ p
      → down (set_entry (clear_page entries p) it.pep (table_entry p)) it ≡ record it {
        pep = entry_at p (pageindex it.va level);
        level = level;
        perm_bits = bit_and it.perm_bits (table_entry p);
      }
  unfolding down
  down-page level p it entries e aligned small other =
      ap (λ (r : ℕ × ℕ × ℕ). record it { pep = r.0; level = r.1; perm_bits = r.2 })
        (ap
            (λ l.
              down_loop (added it.va level it.pep it.perm_bits p entries) it.va l it.pep
                it.perm_bits)
            e
          ∙ down_loop-added it.va level it.pep it.perm_bits p entries aligned small other)

  unlike : (st : State) (p q : ℕ) → holds st p ≡ true → holds st q ≡ false → p ≢ q
  unlike st p q mine free = λ e. cc (ap (holds st) e, mine, free)

  map_loop-Ends :
      (fuel perm level : ℕ) (it : Vmiter) (entries : ℕ → ℕ) (st : State)
      → perm ≢ 0
      → it.level ≡ level
      → level < fuel
      → holds st (page_of it.pep) ≡ true
      → Ends entries it st (map_loop source fuel perm it entries st)
  map_loop-Ends zero perm level it entries st some_perm e lt held = absurd (omega arith)
  map_loop-Ends (suc fuel) perm zero it entries st some_perm e lt held =
      Ends-zero fuel perm it entries st e
  map_loop-Ends (suc fuel) perm (suc level) it entries st some_perm e lt held =
      let more = adding it.level perm (omega arith) some_perm in
      elim (Bool-cases (is_present (entries it.pep))) [
        | inl there ↦ Ends-present fuel perm it entries st (omega arith) more there
        | inr free ↦ elim (Option-cases (kalloc st).0) [
          | inl out ↦ Ends-out fuel perm it entries st (omega arith) more free out
          | inr (p, given) ↦
              let (aligned, small) = kalloc_aligned p st given in
              let (before, after) = kalloc_new p st given in
              let e1 = set_entry (clear_page entries p) it.pep (table_entry p) in
              let moved =
                down-page level p it entries e aligned small
                  (unlike st (page_of it.pep) p held before) in
              let page : page_of (down e1 it).pep ≡ p =
                ap (λ (i : Vmiter). page_of i.pep) moved
                ∙ page_of-entry p (pageindex it.va level) aligned (pageindex-lt it.va level) in
              subst (Ends entries it st)
                (sym (map_loop-page fuel perm p it entries st more free given))
                (Ends-round entries e1 it (down e1 it) st (kalloc st).1 _
                  (λ a. kalloc_keeps (page_of a) st)
                  (λ a held_a same. unlike st (page_of a) p held_a before (ap page_of same ∙ page))
                  (λ a held_a ne.
                    set_other (clear_page entries p) it.pep (table_entry p) a ne
                    ∙ not_cleared entries p a aligned (unlike st (page_of a) p held_a before))
                  (ap (λ (i : Vmiter). e1 i.pep) moved
                    ∙ added-below it.va level it.pep it.perm_bits p entries aligned
                        (unlike st (page_of it.pep) p held before))
                  (map_loop-Ends fuel perm level (down e1 it) e1 (kalloc st).1 some_perm
                    (ap (λ (i : Vmiter). i.level) moved) (omega arith)
                    (subst (λ q. holds (kalloc st).1 q ≡ true) (sym page) after)))
        ]
      ]

  -- How `map` ends: in a failed assertion, out of memory above the pages, or with the entry `pa | perm` for the page,
  -- where no entry changed but this one, the one that `it` stood at, and those of new pages.
  abbrev pub Maps : ℕ → ℕ → (ℕ → ℕ) → Vmiter → State → Option (Outcome (Mapping source)) → Type 0
  Maps pa perm entries it st none = ⊥
  Maps pa perm entries it st (some panicked) =
      (refused pa perm it ≡ true) ⊎ ((0 < it.level) × (is_present (entries it.pep) ≡ true))
  Maps pa perm entries it st (some (done (false, it', entries', st'))) = 0 < it'.level
  Maps pa perm entries it st (some (done (true, it', entries', st'))) =
      (it'.level ≡ 0)
      × (entries' it'.pep ≡ bit_or pa perm)
      × ((a : ℕ) → holds st (page_of a) ≡ true → a ≢ it.pep → a ≢ it'.pep → entries' a ≡ entries a)

  install-Maps :
      (pa perm : ℕ) (it : Vmiter) (entries : ℕ → ℕ) (st : State)
      (r : Option (Outcome (Mapping source)))
      → Ends entries it st r
      → Maps pa perm entries it st (install source pa perm r)
  install-Maps pa perm it entries st none ends = ends
  install-Maps pa perm it entries st (some panicked) ends = inr ends
  install-Maps pa perm it entries st (some (done (false, it', e', st'))) ends = ends
  install-Maps pa perm it entries st (some (done (true, it', e', st'))) (low, same) =
      let bottom : (it'.level == 0) ≡ true = (==_iff it'.level 0).1 low in
      rw bottom (
        low,
        set_same e' it'.pep (bit_or pa perm),
        λ a held ne ne'. set_other e' it'.pep (bit_or pa perm) a ne' ∙ same a held ne,
      )

  if-Maps :
      (c : Bool) (pa perm : ℕ) (it : Vmiter) (entries : ℕ → ℕ) (st : State)
      (r : Option (Outcome (Mapping source)))
      → refused pa perm it ≡ c
      → Maps pa perm entries it st r
      → Maps pa perm entries it st (if c then some panicked else r)
  if-Maps true pa perm it entries st r e maps = inl e
  if-Maps false pa perm it entries st r e maps = maps

  -- With permissions other than none, for an iterator of a level up to 3 in a page that the allocator
  -- holds, `map` always ends. An assertion fails only where one on the arguments does or the iterator
  -- stands at a present entry above the pages. When `map` returns 0, it stands at the entry of one page,
  -- which is `pa | perm`, and no other entry of the pages in use has changed but the one where it stood
  -- before.
  pub map-Maps :
      (pa perm : ℕ) (it : Vmiter) (entries : ℕ → ℕ) (st : State)
      → perm ≢ 0
      → it.level ≤ 3
      → holds st (page_of it.pep) ≡ true
      → Maps pa perm entries it st (map source pa perm it entries st)
  unfolding map
  map-Maps pa perm it entries st some_perm low held =
      if-Maps (refused pa perm it) pa perm it entries st _ refl (
        install-Maps pa perm it entries st _
          (map_loop-Ends 4 perm it.level it entries st some_perm refl (omega arith) held))
