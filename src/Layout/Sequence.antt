-- ===== src/Layout/Sequence.antt =====
-- Without a spill the layout loop of org/org.go places the elements in their order.
use mathlib.Core.List.{append_assoc, append-nil}
use gramophile.Prelude.{
  ℕ, suc, ◌+◌, eqb, true, false, List, [], ◌∷◌, ◌++◌, ◌≡◌, inl, inr, refl, sym, ap, ◌∙◌, subst,
  length, any, arith, String,
}
use gramophile.Org.Types.{Placement}
use gramophile.Org.Counting.{any-append}
use gramophile.Layout.Types.{Float, Space, GroupSpill, Spill, GroupingElement}
use gramophile.Layout.Place.{Shelf, Round, place, fill_up, place_all, rounds_of, at_start}
use gramophile.Layout.Moves.{Moves, next_space_lem, left}
use gramophile.Layout.Total.{HasSpill, lay_out-Finishes}
use gramophile.Layout.Placed.{has_element}

module _ {W : Type 0} where
  -- The instance id and the index of each placement.
  unfoldable pub positions : List (Placement W) → List (ℕ × ℕ)
  positions [] = []
  positions (p ∷ ps) = (p.iid, p.index) ∷ positions ps

  -- Each element by its id, at one more than the number of the records before it.
  unfoldable pub numbers : ℕ → List (GroupingElement W) → List (ℕ × ℕ)
  numbers i [] = []
  numbers i (e ∷ es) = (e.id, i + 1) ∷ numbers (i + length e.records) es

  unfoldable size : List (GroupingElement W) → ℕ
  size [] = 0
  size (e ∷ es) = length e.records + size es

  -- No two elements have the same id.
  abbrev pub DifferentIds : List (GroupingElement W) → Type 0
  DifferentIds [] = Unit
  DifferentIds (e ∷ es) = (has_element e.id es ≡ false) × DifferentIds es

  pub positions-append :
      (ps qs : List (Placement W)) → positions (ps ++ qs) ≡ positions ps ++ positions qs
  unfolding positions
  positions-append [] qs = refl
  positions-append (p ∷ ps) qs = ap (λ z. (p.iid, p.index) ∷ z) (positions-append ps qs)

  numbers-append :
      (i : ℕ) (es : List (GroupingElement W)) (e : GroupingElement W)
      → numbers i (es ++ e ∷ []) ≡ numbers i es ++ (e.id, i + size es + 1) ∷ []
  unfolding numbers size
  numbers-append i [] e = ap (λ (n : ℕ). (e.id, n) ∷ []) (omega arith)
  numbers-append i (x ∷ es) e =
      ap (λ z. (x.id, i + 1) ∷ z)
        (numbers-append (i + length x.records) es e
          ∙ ap (λ (n : ℕ). numbers (i + length x.records) es ++ (e.id, n) ∷ []) (omega arith))

  size-append :
      (es : List (GroupingElement W)) (e : GroupingElement W)
      → size (es ++ e ∷ []) ≡ size es + length e.records
  unfolding size
  size-append [] e = omega arith
  size-append (x ∷ es) e = omega (arith, size-append es e)

  Different-new :
      (done : List (GroupingElement W)) (e : GroupingElement W) (es : List (GroupingElement W))
      → DifferentIds (done ++ e ∷ es)
      → has_element e.id done ≡ false
  unfolding any
  Different-new [] e es d = refl
  Different-new (x ∷ done) e es d =
      let h = sym (any-append (λ y. eqb y.id x.id) done (e ∷ es)) ∙ d.0 in
      ground (arith, h, Different-new done e es d.1)

  -- The elements that are done come first, are the only ones marked, and are numbered.
  abbrev Reached : List (GroupingElement W) → Shelf W → Type 0
  Reached es₀ s =
      (done : List (GroupingElement W)) × (es₀ ≡ done ++ s.rest)
      × ((k : ℕ) → s.placed k ≡ true → has_element k done ≡ true)
      × (positions s.placements ≡ numbers 0 done)
      × (s.index ≡ size done)

  Reached-skip :
      (es₀ : List (GroupingElement W)) (s : Shelf W) (e : GroupingElement W)
      (es : List (GroupingElement W))
      → DifferentIds es₀
      → Reached es₀ s
      → s.rest ≡ e ∷ es
      → s.placed e.id ≡ true
      → ⊥
  Reached-skip es₀ s e es d h r done =
      let split = h.1 ∙ ap (λ z. h.0 ++ z) r in
      let new = Different-new h.0 e es (subst DifferentIds split d) in
      absurd (cc (h.2 e.id done, new))

  Reached-same :
      (es₀ : List (GroupingElement W)) (s s' : Shelf W)
      → Reached es₀ s
      → s'.rest ≡ s.rest
      → s'.placed ≡ s.placed
      → s'.placements ≡ s.placements
      → s'.index ≡ s.index
      → Reached es₀ s'
  Reached-same es₀ s s' h a b c d = rw (a, b, c, d) h

module _ {W : Type 0} (float : Float W) (width_of : GroupingElement W → W)
    (describe : ℕ → W → W → W → String) (original : ℕ → ℕ) (spill : Spill)
    (keeps : spill.type ≡ GroupSpill.no_spill) where
  fill_up-none :
      (sp : Space W) (es : List (GroupingElement W)) (s : Shelf W)
      → fill_up float width_of describe original spill sp es s ≡ s
  unfolding fill_up
  fill_up-none sp es s = rw (keeps, fill_up) refl

  Reached-place :
      (es₀ : List (GroupingElement W)) (sp : Space W) (e : GroupingElement W)
      (es : List (GroupingElement W)) (s : Shelf W)
      → Reached es₀ s
      → s.rest ≡ e ∷ es
      → Reached es₀ (record (place float width_of describe original sp "regular" e s) { rest = es })
  unfolding place any positions
  Reached-place es₀ sp e es s h r = (
    h.0 ++ e ∷ [],
    h.1 ∙ ap (λ z. h.0 ++ z) r ∙ sym (append_assoc h.0 (e ∷ []) es),
    λ k m. any-append (λ y. eqb y.id k) h.0 (e ∷ []) ∙ ground (arith, h.2 k, m),
    positions-append s.placements _
        ∙ ap (λ z. z ++ (e.id, s.index + 1) ∷ []) h.3
        ∙ ap (λ (n : ℕ). numbers 0 h.0 ++ (e.id, n) ∷ []) (omega (arith, h.4))
        ∙ sym (numbers-append 0 h.0 e),
    omega (arith, h.4, size-append h.0 e),
  )

  Reached-Moves :
      (es₀ : List (GroupingElement W)) (s s' : Shelf W) (sp : Space W) (sps : List (Space W))
      (e : GroupingElement W) (es : List (GroupingElement W))
      → Reached es₀ s
      → s.rest ≡ e ∷ es
      → s.spaces ≡ sp ∷ sps
      → Moves float width_of describe original spill sp e es s s'
      → Reached es₀ s'
  Reached-Moves es₀ s s' sp sps e es h r p moves =
      let leaves : left float width_of describe original spill sp es s
          ≡ record s { unit = suc s.unit; used = float.of_ℕ 0 } =
        ap (λ (z : Shelf W). record z { unit = suc z.unit; used = float.of_ℕ 0 })
          (fill_up-none sp es s) in
      let like = λ (t : Shelf W). Reached-same es₀ t s' in
      elim moves [
        | inl (full, more, same) ↦
            let all = same ∙ leaves in
            like s h (ap (λ z. z.rest) all) (ap (λ z. z.placed) all) (ap (λ z. z.placements) all)
              (ap (λ z. z.index) all)
        | inr (inl (full, last, same)) ↦
            let all =
              same
              ∙ next_space_lem float width_of describe original
                  (left float width_of describe original spill sp es s)
                  (ap (λ z. z.spaces) leaves ∙ p)
              ∙ ap (λ (z : Shelf W). record z { spaces = sps; unit = 1; used = float.of_ℕ 0 })
                  leaves in
            like s h (ap (λ z. z.rest) all) (ap (λ z. z.placed) all) (ap (λ z. z.placements) all)
              (ap (λ z. z.index) all)
        | inr (inr (inl (last, same))) ↦
            let all = same ∙ next_space_lem float width_of describe original s p in
            like s h (ap (λ z. z.rest) all) (ap (λ z. z.placed) all) (ap (λ z. z.placements) all)
              (ap (λ z. z.index) all)
        | inr (inr (inr (room, unit, same))) ↦
            Reached-same es₀
              (record (place float width_of describe original sp "regular" e s) { rest = es }) s'
              (Reached-place es₀ sp e es s h r) (ap (λ z. z.rest) same) (ap (λ z. z.placed) same)
              (ap (λ z. z.placements) same) (ap (λ z. z.index) same)
      ]

  -- If the last space has one unit that no width exceeds, then without a spill the layout loop ends
  -- and places elements of different ids once each, in their order; the index of each is one more
  -- than the number of the records before it.
  pub place_all_in_order :
      (spaces : List (Space W)) (es : List (GroupingElement W))
      → DifferentIds es
      → HasSpill float spaces 1
      → (s : Shelf W) × (place_all float width_of describe original spill spaces es
          ≡ Round.finished s)
        × (positions s.placements ≡ numbers 0 es)
  unfolding place_all positions numbers size
  place_all_in_order spaces es different spilled =
      let n =
        lay_out-Finishes float width_of describe original spill (Reached es)
          (λ s e es' h r done. absurd (Reached-skip es s e es' different h r done))
          (λ s s' sp sps e es' h r new p moves. Reached-Moves es s s' sp sps e es' h r p moves)
          (suc (length es + rounds_of spaces)) (at_start float width_of describe original spaces es)
          ([], refl, λ k m. ground (arith, m), refl, refl) spilled (omega arith) in
      let all : es ≡ n.2.0 = n.2.1 ∙ ap (λ z. n.2.0 ++ z) n.3 ∙ append-nil n.2.0 in
      (n.0, n.1, n.2.3 ∙ ap (numbers 0) (sym all))
