-- ===== src/Layout/Capacity.antt =====
-- No unit of a space is filled beyond its width by the layout loop of org/org.go.
use gramophile.Prelude.{
  ℕ, suc, ◌+◌, false, List, [], ◌∷◌, ◌≡◌, inl, inr, refl, sym, ap, ◌∙◌, subst, length, Bool-cases,
  arith, String, All, All-append,
}
use gramophile.Org.Types.{Placement}
use gramophile.Layout.Types.{Float, Space, Spill, GroupingElement}
use gramophile.Layout.Place.{
  Shelf, Round, place, fill, fill_up, place_all, rounds_of, at_start, window,
}
use gramophile.Layout.Moves.{GroupSpill-cases, Moves, next_space_lem, fill_up-Stays, left}
use gramophile.Layout.Load.{
  FloatLaws, DifferentNames, HasRoom, IsEmptyFrom, Front-next, Fits, Fits-place, Fits-unit,
  Fits-space, load,
}
use gramophile.Layout.Total.{HasSpill, lay_out-Finishes}

module _ {W : Type 0} (float : Float W) (laws : FloatLaws float) (width_of : GroupingElement W → W)
    (describe : ℕ → W → W → W → String) (original : ℕ → ℕ) (spaces : List (Space W))
    (d : DifferentNames spaces) where
  -- The state, and the state at given spaces.
  abbrev FitsAt : List (Space W) → Shelf W → Type 0
  FitsAt sps s = Fits float spaces sps s.placements s.unit s.used

  fill-Fits :
      (sp : Space W) (sps : List (Space W)) (es : List (GroupingElement W)) (s : Shelf W)
      → FitsAt (sp ∷ sps) s
      → FitsAt (sp ∷ sps) (fill float width_of describe original sp es s)
  unfolding fill place
  fill-Fits sp sps [] s h = h
  fill-Fits sp sps (e ∷ es) s h =
      elim (Bool-cases (float.le (float.add s.used (width_of e)) sp.width)) [
        | inl fits ↦
            rw (fits, fill)
              (fill-Fits sp sps es
                (place float width_of describe original sp
                  (describe e.id s.used (width_of e) sp.width) e s)
                (Fits-place float spaces sp sps s.placements s.used _ d h refl
                  (laws.le→not_gt _ _ fits)))
        | inr wide ↦ rw (wide, fill) (fill-Fits sp sps es s h)
      ]

  fill_up-Fits :
      (spill : Spill) (sp : Space W) (sps : List (Space W)) (es : List (GroupingElement W))
      (s : Shelf W)
      → FitsAt (sp ∷ sps) s
      → FitsAt (sp ∷ sps) (fill_up float width_of describe original spill sp es s)
  unfolding fill_up
  fill_up-Fits spill sp sps es s h = elim (GroupSpill-cases spill.type) [
    | inl keeps ↦ rw (keeps, fill_up) h
    | inr fills ↦ rw (fills, fill_up) (fill-Fits sp sps (window spill.look_ahead es) s h)
  ]

  Fits-same :
      {sps sps' : List (Space W)} {ps ps' : List (Placement W)} {u u' : ℕ} {used used' : W}
      → Fits float spaces sps ps u used
      → sps' ≡ sps
      → ps' ≡ ps
      → u' ≡ u
      → used' ≡ used
      → Fits float spaces sps' ps' u' used'
  Fits-same h a b c e = rw (a, b, c, e) h

  Fits-Moves :
      (spill : Spill) (s s' : Shelf W) (sp : Space W) (sps : List (Space W)) (e : GroupingElement W)
      (es : List (GroupingElement W))
      → FitsAt s.spaces s
      → s.spaces ≡ sp ∷ sps
      → Moves float width_of describe original spill sp e es s s'
      → FitsAt s'.spaces s'
  unfolding place
  Fits-Moves spill s s' sp sps e es h p moves =
      let here : FitsAt (sp ∷ sps) s = subst (λ z. FitsAt z s) p h in
      let filled = fill_up float width_of describe original spill sp es s in
      let up = fill_up-Fits spill sp sps es s here in
      let stays = fill_up-Stays float width_of describe original spill sp es s in
      elim moves [
        | inl (full, more, same) ↦
            Fits-same (Fits-unit float spaces sp sps filled.placements filled.unit filled.used up)
              (ap (λ z. z.spaces) same ∙ stays.1 ∙ p) (ap (λ z. z.placements) same)
              (ap (λ z. z.unit) same) (ap (λ z. z.used) same)
        | inr (inl (full, last, same)) ↦
            let all =
              same
              ∙ next_space_lem float width_of describe original
                  (left float width_of describe original spill sp es s) (stays.1 ∙ p) in
            Fits-same (Fits-space float spaces sp sps filled.placements filled.unit filled.used up)
              (ap (λ z. z.spaces) all) (ap (λ z. z.placements) all) (ap (λ z. z.unit) all)
              (ap (λ z. z.used) all)
        | inr (inr (inl (last, same))) ↦
            let all = same ∙ next_space_lem float width_of describe original s p in
            Fits-same (Fits-space float spaces sp sps s.placements s.unit s.used here)
              (ap (λ z. z.spaces) all) (ap (λ z. z.placements) all) (ap (λ z. z.unit) all)
              (ap (λ z. z.used) all)
        | inr (inr (inr (room, unit, same))) ↦
            Fits-same (Fits-place float spaces sp sps s.placements s.used _ d here refl room)
              (ap (λ z. z.spaces) same ∙ p) (ap (λ z. z.placements) same) (ap (λ z. z.unit) same)
              (ap (λ z. z.used) same)
      ]

  empty-HasRoom :
      (sps : List (Space W))
      → All (λ (sp : Space W). float.gt (float.of_ℕ 0) sp.width ≡ false) sps
      → All (HasRoom float []) sps × All (IsEmptyFrom float 0 []) sps
  unfolding load
  empty-HasRoom [] h = (tt, tt)
  empty-HasRoom (sp ∷ sps) h =
      let rest = empty-HasRoom sps h.1 in ((λ u. h.0, rest.0), (λ v le. refl, rest.1))

  -- For spaces of different names and no negative width that end with one unit that is never full,
  -- with or without a spill, the layout loop ends and the widths on each unit of each space, added
  -- in the order of the placements, are not above the width of the space.
  pub place_all-HasRoom :
      (spill : Spill) (es : List (GroupingElement W))
      → HasSpill float spaces 1
      → All (λ (sp : Space W). float.gt (float.of_ℕ 0) sp.width ≡ false) spaces
      → (s : Shelf W) × (place_all float width_of describe original spill spaces es
          ≡ Round.finished s)
        × All (HasRoom float s.placements) spaces
  unfolding place_all Fits
  place_all-HasRoom spill es spilled widths =
      let start = empty-HasRoom spaces widths in
      let n =
        lay_out-Finishes float width_of describe original spill (λ s. FitsAt s.spaces s)
          (λ s e es' h r done. h)
          (λ s s' sp sps e es' h r new p moves. Fits-Moves spill s s' sp sps e es' h p moves)
          (suc (length es + rounds_of spaces)) (at_start float width_of describe original spaces es)
          ([], refl, tt, start.0, Front-next float [] spaces start.1) spilled (omega arith) in
      (
        n.0,
        n.1,
        subst (All (HasRoom float (n.0).placements)) (sym n.2.1)
            (All-append (HasRoom float (n.0).placements) n.2.0 (n.0).spaces n.2.2 n.2.3),
      )
