-- ===== src/Layout/Total.antt =====
-- The layout loop of org/org.go ends, and what it keeps: a rule for its invariants.
use gramophile.Prelude.{
  ℕ, zero, suc, ◌+◌, ◌-◌, ◌≤◌, ◌<◌, true, false, List, [], ◌∷◌, ◌≡◌, ◌⊎◌, inl, inr, refl, sym, ap,
  ◌∙◌, subst, length, Bool-cases, arith, String,
}
use gramophile.Org.Loop.{List-cases}
use gramophile.Layout.Types.{Float, Space, Spill, GroupingElement}
use gramophile.Layout.Place.{Shelf, Round, place, place_or_move, round, lay_out, rounds_of}
use gramophile.Layout.Moves.{Moves, fill_up-Stays, place_or_move-Moves, next_space_lem, left}

module _ {W : Type 0} (float : Float W) where
  -- The last space has one unit, which is never full; `u` is a unit of the first or the one behind.
  abbrev pub HasSpill : List (Space W) → ℕ → Type 0
  HasSpill [] u = ⊥
  HasSpill (sp ∷ []) u = (u ≡ 1) × (sp.units ≡ 1) × ((x : W) → float.gt x sp.width ≡ false)
  HasSpill (sp ∷ sq ∷ sps) u = (u ≤ suc sp.units) × HasSpill (sq ∷ sps) 1

  abbrev pub left_over : Shelf W → ℕ
  left_over s = length s.rest + (rounds_of s.spaces - s.unit)

module _ {W : Type 0} (float : Float W) (width_of : GroupingElement W → W)
    (describe : ℕ → W → W → W → String) (original : ℕ → ℕ) (spill : Spill) where
  abbrev rounded : Shelf W → Round W
  rounded = round float width_of describe original spill

  abbrev laid_out : ℕ → Shelf W → Round W
  laid_out fuel s = lay_out float width_of describe original fuel spill s

  -- A round with an element that is left.
  abbrev one_round : Shelf W → GroupingElement W → List (GroupingElement W) → Round W
  one_round s e es = elim (s.placed e.id) [
    | true ↦ Round.goes_on (record s { rest = es })
    | false ↦ elim s.spaces [
      | [] ↦ Round.out_of_range
      | sp ∷ sps ↦ Round.goes_on (place_or_move float width_of describe original spill sp e es s)
    ]
  ]

  -- Same spaces, next unit.
  HasSpill-unit :
      (sps : List (Space W)) (sp : Space W) (u : ℕ) (x : W)
      → HasSpill float (sp ∷ sps) u
      → float.gt x sp.width ≡ true
      → suc u ≤ sp.units
      → HasSpill float (sp ∷ sps) (suc u)
        × (rounds_of (sp ∷ sps) - suc u < rounds_of (sp ∷ sps) - u)
  unfolding rounds_of
  HasSpill-unit [] sp u x h full more = absurd (cc (h.2 x))
  HasSpill-unit (sq ∷ sps) sp u x h full more = ((omega arith, h.1), omega arith)

  -- The next space, when there is no such unit.
  HasSpill-space :
      (sps : List (Space W)) (sp : Space W) (u : ℕ)
      → HasSpill float (sp ∷ sps) u
      → ((sp.units < u) ⊎ ((sp.units < suc u) × (x : W) × (float.gt x sp.width ≡ true)))
      → HasSpill float sps 1 × (rounds_of sps - 1 < rounds_of (sp ∷ sps) - u)
  unfolding rounds_of
  HasSpill-space [] sp u h (inl less) = absurd (omega arith)
  HasSpill-space [] sp u h (inr (less, x, full)) = absurd (cc (h.2 x))
  HasSpill-space (sq ∷ sps) sp u h d = (h.1, omega arith)

  -- What is ahead, by the fields of the state.
  Ahead : ℕ → List (GroupingElement W) → List (Space W) → ℕ → Type 0
  Ahead m es sps u = HasSpill float sps u × (length es + (rounds_of sps - u) < m)

  Ahead-same :
      (m : ℕ) {es es' : List (GroupingElement W)} {sps sps' : List (Space W)} {u u' : ℕ}
      → es' ≡ es
      → sps' ≡ sps
      → u' ≡ u
      → Ahead m es sps u
      → Ahead m es' sps' u'
  Ahead-same m a b c h = rw (a, b, c) h

  -- A round that does not skip its element keeps the spill space ahead and has less left.
  Moves-HasSpill :
      (s s' : Shelf W) (sp : Space W) (sps : List (Space W)) (e : GroupingElement W)
      (es : List (GroupingElement W))
      → HasSpill float s.spaces s.unit
      → s.rest ≡ e ∷ es
      → s.spaces ≡ sp ∷ sps
      → Moves float width_of describe original spill sp e es s s'
      → Ahead (left_over float s) s'.rest s'.spaces s'.unit
  unfolding Ahead place
  Moves-HasSpill s s' sp sps e es h r p moves =
      let stays = fill_up-Stays float width_of describe original spill sp es s in
      let h' : HasSpill float (sp ∷ sps) s.unit = subst (λ z. HasSpill float z s.unit) p h in
      let now : left_over float s ≡ suc (length es) + (rounds_of (sp ∷ sps) - s.unit) =
        rw (r, p) refl in
      let leave = λ (t : Shelf W) (q : t.spaces ≡ sp ∷ sps).
        next_space_lem float width_of describe original t q in
      elim moves [
        | inl (full, more, same) ↦
            let next = HasSpill-unit sps sp s.unit _ h' full more in
            Ahead-same (left_over float s) (ap (λ z. z.rest) same ∙ stays.0 ∙ r)
              (ap (λ z. z.spaces) same ∙ stays.1 ∙ p) (ap (λ z. z.unit) same ∙ ap suc stays.2)
              (next.0, omega (arith, now, next.1))
        | inr (inl (full, last, same)) ↦
            let next = HasSpill-space sps sp s.unit h' (inr (last, _, full)) in
            let all =
              same ∙ leave (left float width_of describe original spill sp es s) (stays.1 ∙ p) in
            Ahead-same (left_over float s) (ap (λ z. z.rest) all ∙ stays.0 ∙ r)
              (ap (λ z. z.spaces) all) (ap (λ z. z.unit) all) (next.0, omega (arith, now, next.1))
        | inr (inr (inl (last, same))) ↦
            let next = HasSpill-space sps sp s.unit h' (inl last) in
            let all = same ∙ leave s p in
            Ahead-same (left_over float s) (ap (λ z. z.rest) all ∙ r) (ap (λ z. z.spaces) all)
              (ap (λ z. z.unit) all) (next.0, omega (arith, now, next.1))
        | inr (inr (inr (room, unit, same))) ↦
            Ahead-same (left_over float s) (ap (λ z. z.rest) same) (ap (λ z. z.spaces) same ∙ p)
              (ap (λ z. z.unit) same) (h', omega (arith, now))
      ]

  round-empty : (s : Shelf W) → s.rest ≡ [] → rounded s ≡ Round.finished s
  unfolding round
  round-empty s r =
      ap
        (λ (q : List (GroupingElement W)). elim q as (λ x. Round W) [
          | [] ↦ Round.finished s
          | e ∷ es ↦ one_round s e es
        ])
        r

  round-more :
      (s : Shelf W) {e : GroupingElement W} {es : List (GroupingElement W)}
      → s.rest ≡ e ∷ es
      → rounded s ≡ one_round s e es
  unfolding round
  round-more s r =
      ap
        (λ (q : List (GroupingElement W)). elim q as (λ x. Round W) [
          | [] ↦ Round.finished s
          | e ∷ es ↦ one_round s e es
        ])
        r

  one_round-space :
      (s : Shelf W) (e : GroupingElement W) (es : List (GroupingElement W)) {sp : Space W}
      {sps : List (Space W)}
      → s.placed e.id ≡ false
      → s.spaces ≡ sp ∷ sps
      → one_round s e es
        ≡ Round.goes_on (place_or_move float width_of describe original spill sp e es s)
  one_round-space s e es h p =
      rw (h, one_round)
        (ap
          (λ (q : List (Space W)). elim q as (λ x. Round W) [
            | [] ↦ Round.out_of_range
            | sp ∷ sps ↦
                Round.goes_on (place_or_move float width_of describe original spill sp e es s)
          ])
          p)

  abbrev after : ℕ → Round W → Round W
  after fuel r = elim r [
    | Round.finished s' ↦ Round.finished s'
    | Round.goes_on s' ↦ laid_out fuel s'
    | Round.out_of_range ↦ Round.out_of_range
    | Round.out_of_fuel ↦ Round.out_of_fuel
  ]

  -- A round that ends the loop, and one that does not.
  lay_out-ends :
      (fuel : ℕ) (s : Shelf W)
      → rounded s ≡ Round.finished s
      → laid_out (suc fuel) s ≡ Round.finished s
  unfolding lay_out
  lay_out-ends fuel s h = ap (after fuel) h

  lay_out-goes :
      (fuel : ℕ) (s s' : Shelf W)
      → rounded s ≡ Round.goes_on s'
      → laid_out (suc fuel) s ≡ laid_out fuel s'
  unfolding lay_out
  lay_out-goes fuel s s' h = ap (after fuel) h

  -- A property of the state that skipping an element and each other round keep holds at the end, and
  -- there is an end, with nothing left to lay out.
  pub lay_out-Finishes {κ} :
      (P : Shelf W → Type κ)
      → ((s : Shelf W) (e : GroupingElement W) (es : List (GroupingElement W))
          → P s
          → s.rest ≡ e ∷ es
          → s.placed e.id ≡ true
          → P (record s { rest = es }))
      → ((s s' : Shelf W) (sp : Space W) (sps : List (Space W)) (e : GroupingElement W)
            (es : List (GroupingElement W))
          → P s
          → s.rest ≡ e ∷ es
          → s.placed e.id ≡ false
          → s.spaces ≡ sp ∷ sps
          → Moves float width_of describe original spill sp e es s s'
          → P s')
      → (fuel : ℕ) (s : Shelf W) → P s
      → HasSpill float s.spaces s.unit
      → left_over float s < fuel
      → (s' : Shelf W) × (lay_out float width_of describe original fuel spill s ≡ Round.finished s')
        × P s'
        × (s'.rest ≡ [])
  unfolding Ahead
  lay_out-Finishes P skip move zero s h k m = absurd (omega arith)
  lay_out-Finishes P skip move (suc fuel) s h k m = elim (List-cases s.rest) [
    | inl empty ↦ (s, lay_out-ends fuel s (round-empty s empty), h, empty)
    | inr (e, es, r) ↦ elim (Bool-cases (s.placed e.id)) [
      | inl done ↦
          let less : suc (length es) ≡ length s.rest = sym (ap (λ z. length z) r) in
          let n =
            lay_out-Finishes P skip move fuel (record s { rest = es }) (skip s e es h r done) k
              (omega (arith, less, m)) in
          (
            n.0,
            lay_out-goes fuel s (record s { rest = es })
                  (round-more s r ∙ rw (done, one_round) refl)
                ∙ n.1,
            n.2,
            n.3,
          )
      | inr new ↦ elim (List-cases s.spaces) [
        | inl none_left ↦ absurd (subst (λ z. HasSpill float z s.unit) none_left k)
        | inr (sp, sps, p) ↦
            let s' = place_or_move float width_of describe original spill sp e es s in
            let moves = place_or_move-Moves float width_of describe original spill sp e es s in
            let ahead = Moves-HasSpill s s' sp sps e es k r p moves in
            let n =
              lay_out-Finishes P skip move fuel s' (move s s' sp sps e es h r new p moves) ahead.0
                (omega (arith, ahead.1, m)) in
            (
              n.0,
              lay_out-goes fuel s s' (round-more s r ∙ one_round-space s e es new p) ∙ n.1,
              n.2,
              n.3,
            )
      ]
    ]
  ]
