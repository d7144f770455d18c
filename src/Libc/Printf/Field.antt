-- ===== src/Libc/Printf/Field.antt =====
-- The layout of one directive of `printer_vprintf`.
use cs61_f18_psets.Base.{
  ℕ, ◌+◌, ◌≡◌, Bool, true, false, some, List, length, length-append, length-replicate, refl, max,
  arith,
}
use cs61_f18_psets.Base.Int.{ℤ, pos_part}
use cs61_f18_psets.Libc.Format.{Flags, Item}
use cs61_f18_psets.Libc.Printf.{field, shown, prefix_of, zeros_of, render, text_of, laid_out}

-- A directive prints its width, or all of its prefix, zeros and data where that is more.
length-field :
    (left : Bool) (width : ℤ) (prefix : List ℕ) (leading : ℕ) (text : List ℕ)
    → length (field left width prefix leading text)
      ≡ max (pos_part width) (length prefix + leading + length text)
unfolding field
length-field true width prefix leading text = simp (length-append, length-replicate) (omega arith)
length-field false width prefix leading text = simp (length-append, length-replicate) (omega arith)

-- A directive with the text `t` for its argument prints as many characters as its width says, or the
-- prefix, the zeros and as much of `t` as its precision allows, where these are more.
pub length-render :
    (f : Flags) (width precision : ℤ) (item : Item) (t : List ℕ)
    → text_of item ≡ some t
    → (s : List ℕ) × (render f width precision item ≡ some s)
      × (length s
          ≡ max (pos_part width) (
              length (prefix_of f item)
              + zeros_of f width precision item
                  (length (shown precision item t))
                  (length (prefix_of f item))
              + length (shown precision item t)))
unfolding render
length-render f width precision item t e =
    (laid_out f width precision item t, rw (e, render) refl, length-field f.left width _ _ _)
