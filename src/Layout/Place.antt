-- ===== src/Layout/Place.antt =====
-- The loop of org/org.go that lays elements out on the shelves. `width_of` is getWidth and `describe`
-- the text that is kept of an element that fills up a unit.
use gramophile.Prelude.{
  ℕ, ℤ, pos, negsuc, zero, suc, ◌+◌, ltb, String, Bool, true, false, List, [], ◌∷◌, ◌++◌,
  if◌then◌else◌, length, take, put_at,
}
use gramophile.Org.Types.{Placement}
use gramophile.Layout.Types.{Float, Space, GroupSpill, Spill, GroupingElement}

-- The variables of the loop: `rest` is ordList[i:], `spaces` is the spaces from currSlot on.
pub record Shelf (W : Type 0) : Type 0 where
  pub rest : List (GroupingElement W)
  pub spaces : List (Space W)
  pub unit : ℕ
  pub used : W
  pub index : ℕ
  pub placed : ℕ → Bool
  pub placements : List (Placement W)

-- A round ends the loop, goes on, or reads a space that is not there.
pub data Round (W : Type 0) : Type 0 where
  finished : Shelf W → Round W
  goes_on : Shelf W → Round W
  out_of_range : Round W
  out_of_fuel : Round W

-- Enough rounds: one for each element, and for each space one for each unit and two more.
unfoldable pub rounds_of : {W : Type 0} → List (Space W) → ℕ
rounds_of [] = 0
rounds_of (sp ∷ sps) = sp.units + 2 + rounds_of sps

-- The elements that are looked at to fill up a unit.
abbrev pub window : {W : Type 0} → ℤ → List (GroupingElement W) → List (GroupingElement W)
window (pos n) es = take n es
window (negsuc n) es = es

module _ {W : Type 0} (float : Float W) (width_of : GroupingElement W → W)
    (describe : ℕ → W → W → W → String) (original : ℕ → ℕ) where
  open float use {of_ℕ, add, gt, le}

  unfoldable pub place : Space W → String → GroupingElement W → Shelf W → Shelf W
  place sp text e s =
      let width = width_of e in
      record s {
        placed = put_at e.id true s.placed;
        placements =
            s.placements
            ++ record {
              iid = e.id;
              unit = s.unit;
              index = s.index + 1;
              space = sp.name;
              width = width;
              original_index = original e.id;
              observations = text;
              sort_key = "";
            }
              ∷ [];
        index = s.index + length e.records;
        used = add s.used width;
      }

  -- The elements of the window that still fit are placed, in order.
  unfoldable pub fill : Space W → List (GroupingElement W) → Shelf W → Shelf W
  unfolding place
  fill sp [] s = s
  fill sp (e ∷ es) s =
      let text = describe e.id s.used (width_of e) sp.width in
      fill sp es (if le (add s.used (width_of e)) sp.width then place sp text e s else s)

  unfoldable pub fill_up : Spill → Space W → List (GroupingElement W) → Shelf W → Shelf W
  unfolding fill
  fill_up spill sp es s = elim spill.type [
    | GroupSpill.no_spill ↦ s
    | GroupSpill.break_ordering ↦ fill sp (window spill.look_ahead es) s
  ]

  -- `currUnit > units`: the next space, from its first unit.
  unfoldable pub next_space : Shelf W → Shelf W
  next_space s = elim s.spaces [
    | [] ↦ s
    | sp ∷ sps ↦ record s { spaces = sps; unit = 1; used = of_ℕ 0 }
  ]

  -- Element `e`, which is not placed, with `es` behind it, at space `sp`.
  unfoldable pub place_or_move :
      Spill → Space W → GroupingElement W → List (GroupingElement W) → Shelf W → Shelf W
  unfolding fill_up next_space place
  place_or_move spill sp e es s =
      let filled = fill_up spill sp es s in
      let moved = record filled { unit = suc filled.unit; used = of_ℕ 0 } in
      if gt (add s.used (width_of e)) sp.width
      then (if ltb sp.units moved.unit then next_space moved else moved)
      else if ltb sp.units s.unit
      then next_space s
      else record (place sp "regular" e s) { rest = es }

  unfoldable pub round : Spill → Shelf W → Round W
  unfolding place_or_move
  round spill s = elim s.rest [
    | [] ↦ Round.finished s
    | e ∷ es ↦ elim (s.placed e.id) [
      | true ↦ Round.goes_on (record s { rest = es })
      | false ↦ elim s.spaces [
        | [] ↦ Round.out_of_range
        | sp ∷ sps ↦ Round.goes_on (place_or_move spill sp e es s)
      ]
    ]
  ]

  -- `for i < len(ordList)`, on fuel.
  unfoldable pub lay_out : ℕ → Spill → Shelf W → Round W
  unfolding round
  lay_out zero spill s = Round.out_of_fuel
  lay_out (suc fuel) spill s = elim (round spill s) [
    | Round.finished s' ↦ Round.finished s'
    | Round.goes_on s' ↦ lay_out fuel spill s'
    | Round.out_of_range ↦ Round.out_of_range
    | Round.out_of_fuel ↦ Round.out_of_fuel
  ]

  abbrev pub at_start : List (Space W) → List (GroupingElement W) → Shelf W
  at_start spaces es = record {
    rest = es;
    spaces = spaces;
    unit = 1;
    used = of_ℕ 0;
    index = 0;
    placed = λ k. false;
    placements = [];
  }

  -- The loop from its start.
  unfoldable pub place_all : Spill → List (Space W) → List (GroupingElement W) → Round W
  unfolding lay_out rounds_of
  place_all spill spaces es =
      lay_out (suc (length es + rounds_of spaces)) spill (at_start spaces es)
