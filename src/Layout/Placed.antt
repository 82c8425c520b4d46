-- ===== src/Layout/Placed.antt =====
-- What the layout loop of org/org.go places: each element, and without a spill in their order.
use gramophile.Prelude.{
  ℕ, suc, ◌+◌, eqb, Bool, true, ◌||◌, List, [], ◌∷◌, ◌≡◌, inl, inr, refl, sym, ap, ◌∙◌, subst,
  length, any, Bool-cases, arith, String,
}
use gramophile.Org.Types.{Placement}
use gramophile.Org.Counting.{any-append}
use gramophile.Layout.Types.{Float, Space, Spill, GroupingElement}
use gramophile.Layout.Place.{
  Shelf, Round, place, fill, fill_up, place_all, rounds_of, window, at_start,
}
use gramophile.Layout.Moves.{GroupSpill-cases, fill_up-Stays, Moves, next_space_lem, left}
use gramophile.Layout.Total.{HasSpill, lay_out-Finishes}

module _ {W : Type 0} where
  abbrev pub has_id : ℕ → List (Placement W) → Bool
  has_id k ps = any (λ p. eqb p.iid k) ps

  abbrev pub has_element : ℕ → List (GroupingElement W) → Bool
  has_element k es = any (λ e. eqb e.id k) es

  -- No placement is lost from one state to the next.
  abbrev Keeps : Shelf W → Shelf W → Type 0
  Keeps s s' = (k : ℕ) → has_id k s.placements ≡ true → has_id k s'.placements ≡ true

  -- What is marked as placed has a placement.
  abbrev Marked : Shelf W → Type 0
  Marked s = (k : ℕ) → s.placed k ≡ true → has_id k s.placements ≡ true

  -- What is not left to lay out has a placement.
  abbrev Covers : List (GroupingElement W) → Shelf W → Type 0
  Covers es₀ s =
      Marked s
      × ((k : ℕ)
          → has_element k es₀ ≡ true
          → (has_id k s.placements || has_element k s.rest) ≡ true)

  Covers-Keeps :
      (es₀ : List (GroupingElement W)) (s s' : Shelf W)
      → Covers es₀ s
      → Keeps s s'
      → Marked s'
      → s'.rest ≡ s.rest
      → Covers es₀ s'
  Covers-Keeps es₀ s s' h keeps marked e = (
    marked,
    λ k m.
        subst (λ (z : List (GroupingElement W)). (has_id k s'.placements || has_element k z) ≡ true)
          (sym e) (ground (arith, h.1 k m, keeps k)),
  )

  -- The state by its fields.
  Covers-same :
      (es₀ : List (GroupingElement W)) (s s' : Shelf W)
      → Covers es₀ s
      → s'.placed ≡ s.placed
      → s'.placements ≡ s.placements
      → s'.rest ≡ s.rest
      → Covers es₀ s'
  Covers-same es₀ s s' h a b c = rw (a, b, c) h

  Covers-skip :
      (es₀ : List (GroupingElement W)) (s : Shelf W) (e : GroupingElement W)
      (es : List (GroupingElement W))
      → Covers es₀ s
      → s.rest ≡ e ∷ es
      → has_id e.id s.placements ≡ true
      → Covers es₀ (record s { rest = es })
  unfolding any
  Covers-skip es₀ s e es h r done = (
    h.0,
    λ k m.
        (let l =
            subst
              (λ (z : List (GroupingElement W)). (has_id k s.placements || has_element k z) ≡ true)
              r (h.1 k m) in
          elim (Bool-cases (eqb e.id k)) [
            | inl this ↦
                let same : e.id ≡ k = ground arith in
                rw (subst (λ z. has_id z s.placements ≡ true) same done) refl
            | inr other ↦ rw (other) at l
          ]),
  )

module _ {W : Type 0} (float : Float W) (width_of : GroupingElement W → W)
    (describe : ℕ → W → W → W → String) (original : ℕ → ℕ) where
  abbrev placed : Space W → String → GroupingElement W → Shelf W → Shelf W
  placed = place float width_of describe original

  place-Keeps :
      (sp : Space W) (text : String) (e : GroupingElement W) (s : Shelf W)
      → Marked s
      → Keeps s (placed sp text e s)
        × Marked (placed sp text e s)
        × (has_id e.id (placed sp text e s).placements ≡ true)
  unfolding place any
  place-Keeps sp text e s m =
      let append = λ (k : ℕ). any-append (λ (p : Placement W). eqb p.iid k) s.placements in
      (
        λ k h. append k _ ∙ rw (h) refl,
        λ k h. append k _ ∙ ground (arith, m k, h),
        append e.id _ ∙ ground arith,
      )

  fill-Keeps :
      (sp : Space W) (es : List (GroupingElement W)) (s : Shelf W)
      → Marked s
      → Keeps s (fill float width_of describe original sp es s)
        × Marked (fill float width_of describe original sp es s)
  unfolding fill
  fill-Keeps sp [] s m = (λ k h. h, m)
  fill-Keeps sp (e ∷ es) s m =
      elim (Bool-cases (float.le (float.add s.used (width_of e)) sp.width)) [
        | inl fits ↦
            let one = place-Keeps sp (describe e.id s.used (width_of e) sp.width) e s m in
            let more =
              fill-Keeps sp es (placed sp (describe e.id s.used (width_of e) sp.width) e s) one.1 in
            rw (fits, fill) (λ k h. more.0 k (one.0 k h), more.1)
        | inr wide ↦ rw (wide, fill) (fill-Keeps sp es s m)
      ]

  fill_up-Keeps :
      (spill : Spill) (sp : Space W) (es : List (GroupingElement W)) (s : Shelf W)
      → Marked s
      → Keeps s (fill_up float width_of describe original spill sp es s)
        × Marked (fill_up float width_of describe original spill sp es s)
  unfolding fill_up
  fill_up-Keeps spill sp es s m = elim (GroupSpill-cases spill.type) [
    | inl keeps ↦ rw (keeps, fill_up) (λ k h. h, m)
    | inr fills ↦ rw (fills, fill_up) (fill-Keeps sp (window spill.look_ahead es) s m)
  ]

  -- A round that does not skip its element.
  Covers-Moves :
      (es₀ : List (GroupingElement W)) (spill : Spill) (s s' : Shelf W) (sp : Space W)
      (sps : List (Space W)) (e : GroupingElement W) (es : List (GroupingElement W))
      → Covers es₀ s
      → s.rest ≡ e ∷ es
      → s.spaces ≡ sp ∷ sps
      → Moves float width_of describe original spill sp e es s s'
      → Covers es₀ s'
  unfolding place
  Covers-Moves es₀ spill s s' sp sps e es h r p moves =
      let filled = fill_up float width_of describe original spill sp es s in
      let stays = fill_up-Stays float width_of describe original spill sp es s in
      let up = fill_up-Keeps spill sp es s h.0 in
      let covered = Covers-Keeps es₀ s filled h up.0 up.1 stays.0 in
      elim moves [
        | inl (full, more, same) ↦
            Covers-same es₀ filled s' covered (ap (λ z. z.placed) same)
              (ap (λ z. z.placements) same) (ap (λ z. z.rest) same)
        | inr (inl (full, last, same)) ↦
            let all =
              same
              ∙ next_space_lem float width_of describe original
                  (left float width_of describe original spill sp es s) (stays.1 ∙ p) in
            Covers-same es₀ filled s' covered (ap (λ z. z.placed) all) (ap (λ z. z.placements) all)
              (ap (λ z. z.rest) all)
        | inr (inr (inl (last, same))) ↦
            let all = same ∙ next_space_lem float width_of describe original s p in
            Covers-same es₀ s s' h (ap (λ z. z.placed) all) (ap (λ z. z.placements) all)
              (ap (λ z. z.rest) all)
        | inr (inr (inr (room, unit, same))) ↦
            let t = placed sp "regular" e s in
            let one = place-Keeps sp "regular" e s h.0 in
            Covers-same es₀ (record t { rest = es }) s'
              (Covers-skip es₀ t e es (Covers-Keeps es₀ s t h one.0 one.1 refl) r one.2)
              (ap (λ z. z.placed) same) (ap (λ z. z.placements) same) (ap (λ z. z.rest) same)
      ]

  -- For spaces that end with one unit that is never full, the layout loop ends without a look at a
  -- space that is not there, and then each element has a placement of its id.
  pub place_all-places :
      (spill : Spill) (spaces : List (Space W)) (es : List (GroupingElement W))
      → HasSpill float spaces 1
      → (s : Shelf W) × (place_all float width_of describe original spill spaces es
          ≡ Round.finished s)
        × ((k : ℕ) → has_element k es ≡ true → has_id k s.placements ≡ true)
  unfolding place_all any
  place_all-places spill spaces es spilled =
      let n =
        lay_out-Finishes float width_of describe original spill (Covers es)
          (λ s e es' h r done. Covers-skip es s e es' h r (h.0 e.id done))
          (λ s s' sp sps e es' h r new p moves. Covers-Moves es spill s s' sp sps e es' h r p moves)
          (suc (length es + rounds_of spaces)) (at_start float width_of describe original spaces es)
          (λ k m. ground (arith, m), λ k m. m) spilled (omega arith) in
      (
        n.0,
        n.1,
        λ k m.
            (let covers = n.2.1 k m in
              let covered =
                subst
                  (λ (z : List (GroupingElement W)).
                    (has_id k (n.0).placements || has_element k z) ≡ true)
                  n.3 covers in
              ground (arith, covered)),
      )
