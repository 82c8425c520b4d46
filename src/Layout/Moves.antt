-- ===== src/Layout/Moves.antt =====
-- What one round of the layout loop in org/org.go does, case by case.
use gramophile.Prelude.{
  ℕ, suc, ◌≤◌, ◌<◌, ltb, true, false, List, [], ◌∷◌, ◌≡◌, ◌⊎◌, inl, inr, refl, ap, Bool-cases,
  arith, String,
}
use gramophile.Layout.Types.{Float, Space, GroupSpill, Spill, GroupingElement}
use gramophile.Layout.Place.{Shelf, place, fill, fill_up, next_space, place_or_move, window}

pub GroupSpill-cases :
    (t : GroupSpill) → (t ≡ GroupSpill.no_spill) ⊎ (t ≡ GroupSpill.break_ordering)
GroupSpill-cases GroupSpill.no_spill = inl refl
GroupSpill-cases GroupSpill.break_ordering = inr refl

module _ {W : Type 0} (float : Float W) (width_of : GroupingElement W → W)
    (describe : ℕ → W → W → W → String) (original : ℕ → ℕ) where
  -- Filling up a unit does not move on.
  abbrev pub Stays : Shelf W → Shelf W → Type 0
  Stays s s' = (s'.rest ≡ s.rest) × (s'.spaces ≡ s.spaces) × (s'.unit ≡ s.unit)

  pub fill-Stays :
      (sp : Space W) (es : List (GroupingElement W)) (s : Shelf W)
      → Stays s (fill float width_of describe original sp es s)
  unfolding fill place
  fill-Stays sp [] s = (refl, refl, refl)
  fill-Stays sp (e ∷ es) s = elim (Bool-cases (float.le (float.add s.used (width_of e)) sp.width)) [
    | inl fits ↦
        rw (fits, fill)
          (fill-Stays sp es (
            place float width_of describe original sp (describe e.id s.used (width_of e) sp.width) e
              s))
    | inr wide ↦ rw (wide, fill) (fill-Stays sp es s)
  ]

  pub fill_up-Stays :
      (spill : Spill) (sp : Space W) (es : List (GroupingElement W)) (s : Shelf W)
      → Stays s (fill_up float width_of describe original spill sp es s)
  unfolding fill_up
  fill_up-Stays spill sp es s = elim (GroupSpill-cases spill.type) [
    | inl keeps ↦ rw (keeps, fill_up) (refl, refl, refl)
    | inr fills ↦ rw (fills, fill_up) (fill-Stays sp (window spill.look_ahead es) s)
  ]

  pub next_space_lem :
      (s : Shelf W) {sp : Space W} {sps : List (Space W)}
      → s.spaces ≡ sp ∷ sps
      → next_space float width_of describe original s
        ≡ record s { spaces = sps; unit = 1; used = float.of_ℕ 0 }
  unfolding next_space
  next_space_lem s e =
      ap
        (λ (q : List (Space W)). elim q as (λ x. Shelf W) [
          | [] ↦ s
          | sp ∷ sps ↦ record s { spaces = sps; unit = 1; used = float.of_ℕ 0 }
        ])
        e

  -- The state after the unit is filled up and left.
  abbrev pub left : Spill → Space W → List (GroupingElement W) → Shelf W → Shelf W
  left spill sp es s =
      let filled = fill_up float width_of describe original spill sp es s in
      record filled { unit = suc filled.unit; used = float.of_ℕ 0 }

  -- The next unit, the next space from a full or a missing unit, or the element is placed.
  abbrev pub Moves :
      Spill → Space W → GroupingElement W → List (GroupingElement W) → Shelf W → Shelf W → Type 0
  Moves spill sp e es s s' =
      ((float.gt (float.add s.used (width_of e)) sp.width ≡ true)
        × (suc s.unit ≤ sp.units)
        × (s' ≡ left spill sp es s))
      ⊎ ((float.gt (float.add s.used (width_of e)) sp.width ≡ true)
          × (sp.units < suc s.unit)
          × (s' ≡ next_space float width_of describe original (left spill sp es s)))
      ⊎ ((sp.units < s.unit) × (s' ≡ next_space float width_of describe original s))
      ⊎ ((float.gt (float.add s.used (width_of e)) sp.width ≡ false)
          × (s.unit ≤ sp.units)
          × (s' ≡ record (place float width_of describe original sp "regular" e s) { rest = es }))

  pub place_or_move-Moves :
      (spill : Spill) (sp : Space W) (e : GroupingElement W) (es : List (GroupingElement W))
      (s : Shelf W)
      → Moves spill sp e es s (place_or_move float width_of describe original spill sp e es s)
  unfolding place_or_move
  place_or_move-Moves spill sp e es s =
      let same = (fill_up-Stays spill sp es s).2 in
      elim (Bool-cases (float.gt (float.add s.used (width_of e)) sp.width)) [
        | inl full ↦ elim (Bool-cases (ltb sp.units (left spill sp es s).unit)) [
          | inl last ↦ inr (inl (full, ground (arith, same), rw (full, last) refl))
          | inr more ↦ inl (full, ground (arith, same), rw (full, more) refl)
        ]
        | inr room ↦ elim (Bool-cases (ltb sp.units s.unit)) [
          | inl last ↦ inr (inr (inl (ground arith, rw (room, last) refl)))
          | inr more ↦ inr (inr (inr (room, ground arith, rw (room, more) refl)))
        ]
      ]
