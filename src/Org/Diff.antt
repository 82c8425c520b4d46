-- ===== src/Org/Diff.antt =====
-- org/diff.go: the moves between two snapshots, and the order in which to make them.
use gramophile.Prelude.{
  put_at, ℕ, ℤ, pos, zero, suc, Bool, true, false, not, ◌&&◌, Option, none, some, List, [], ◌∷◌,
  ◌++◌, eqb, eqb_ℤ, ltb, leb, if◌then◌else◌, ◌==◌, length, get_elem?, select, sort, ◌-ℤ◌,
}
use gramophile.Org.Types.{Placement, OrganisationSnapshot, Move}

module _ {W : Type 0} where
  -- endMap: of two placements of one record the later one counts.
  unfoldable pub end_map :
      List (Option (Placement W)) → (ℕ → Option (Placement W)) → ℕ → Option (Placement W)
  end_map [] m = m
  end_map (none ∷ ps) m = end_map ps m
  end_map (some p ∷ ps) m = end_map ps (put_at p.iid (some p) m)

  abbrev pub same_slot : Placement W → Placement W → Bool
  same_slot p q = eqb p.unit q.unit && p.space == q.space

  -- The move of one placement, if its record is still there and its slot has changed.
  unfoldable pub slot_move : (ℕ → Option (Placement W)) → Placement W → List (Move W)
  slot_move ends p = elim (ends p.iid) [
    | none ↦ []
    | some q ↦ if same_slot p q then [] else record { start = some p; end = some q } ∷ []
  ]

  unfoldable pub slot_moves :
      (ℕ → Option (Placement W)) → (ℕ → Bool) → List (Option (Placement W)) → List (Move W)
  unfolding slot_move
  slot_moves ends seen [] = []
  slot_moves ends seen (none ∷ ps) = slot_moves ends seen ps
  slot_moves ends seen (some p ∷ ps) =
      let first = slot_move ends p ++ slot_moves ends (put_at p.iid true seen) ps in
      let rest = slot_moves ends seen ps in if seen p.iid then rest else first

  unfoldable pub compute_slot_moves :
      Option (OrganisationSnapshot W) → Option (OrganisationSnapshot W) → List (Move W)
  unfolding end_map slot_moves
  compute_slot_moves (some s) (some e) =
      slot_moves (end_map e.placements (λ k. none)) (λ k. false) s.placements
  compute_slot_moves none e = []
  compute_slot_moves (some s) none = []

-- The numbers from `i` on, `n` of them.
unfoldable pub range_from : ℕ → ℕ → List ℕ
range_from i zero = []
range_from i (suc n) = i ∷ range_from (suc i) n

abbrev pub range : ℕ → List ℕ
range n = range_from 0 n

unfoldable pub count {ℓ} : {A : Type ℓ} → (A → Bool) → List A → ℕ
count p [] = 0
count p (x ∷ xs) = if p x then suc (count p xs) else count p xs

-- The variables of Kahn's loop; `ordered` holds the numbers of the moves.
pub record Kahn : Type 0 where
  pub queue : List ℕ
  pub in_degree : ℕ → ℤ
  pub ordered : List ℕ
  pub visited : ℕ → Bool

-- The inner loop over the moves that wait for one that is made.
unfoldable pub relax : List ℕ → (ℕ → ℤ) → List ℕ → (ℕ → ℤ) × List ℕ
relax [] deg queue = (deg, queue)
relax (x ∷ xs) deg queue =
    let d = deg x -ℤ pos 1 in
    relax xs (put_at x d deg) (if eqb_ℤ d (pos 0) then queue ++ x ∷ [] else queue)

module _ (adj : ℕ → List ℕ) (less : ℕ → ℕ → Bool) where
  -- One round, on the sorted queue.
  unfoldable pub visit : List ℕ → Kahn → Kahn
  unfolding relax
  visit [] s = s
  visit (curr ∷ rest) s =
      let r = relax (adj curr) s.in_degree rest in
      record {
        queue = r.1;
        in_degree = r.0;
        ordered = s.ordered ++ curr ∷ [];
        visited = put_at curr true s.visited;
      }

  -- `for len(queue) > 0`, on fuel.
  unfoldable pub kahn : ℕ → Kahn → Kahn
  unfolding visit
  kahn zero s = s
  kahn (suc fuel) s = elim s.queue [ [] ↦ s | x ∷ xs ↦ kahn fuel (visit (sort less s.queue) s) ]

-- The start state: the moves that wait for none.
unfoldable pub kahn_start : ℕ → (ℕ → ℕ → Bool) → Kahn
kahn_start n edge =
    let degree = λ (x : ℕ). pos (count (λ y. edge y x) (range n)) in
    record {
      queue = select (λ x. eqb_ℤ (degree x) (pos 0)) (range n);
      in_degree = degree;
      ordered = [];
      visited = λ x. false;
    }

-- The order of the numbers below `n`: Kahn's loop, then what is left, sorted.
unfoldable pub order_indices : ℕ → (ℕ → ℕ → Bool) → (ℕ → ℕ → Bool) → List ℕ
unfolding kahn kahn_start
order_indices n edge less =
    let s = kahn (λ y. select (edge y) (range n)) less (suc n) (kahn_start n edge) in
    if ltb (length s.ordered) n
    then s.ordered ++ sort less (select (λ x. not (s.visited x)) (range n))
    else s.ordered

module _ {W : Type 0} where
  -- GetStart().GetUnit(), which is 0 of `nil`.
  abbrev pub start_unit : Move W → ℕ
  start_unit m = elim m.start [ none ↦ 0 | some p ↦ p.unit ]

  -- Move `y` leaves the slot that move `x` goes to.
  abbrev pub vacates : Move W → Move W → Bool
  vacates y x = elim y.start [
    | none ↦ false
    | some p ↦ elim x.end [ none ↦ false | some q ↦ same_slot p q ]
  ]

  unfoldable pub must_precede : List (Move W) → ℕ → ℕ → Bool
  must_precede moves y x = elim (get_elem? moves y) [
    | none ↦ false
    | some a ↦ elim (get_elem? moves x) [ none ↦ false | some b ↦ not (eqb y x) && vacates a b ]
  ]

  -- moves[i].GetStart().GetUnit(), at an index in range.
  abbrev pub unit_at : List (Move W) → ℕ → ℕ
  unit_at moves i = elim (get_elem? moves i) [ none ↦ 0 | some m ↦ start_unit m ]

  abbrev pub unit_less : List (Move W) → ℕ → ℕ → Bool
  unit_less moves a b = ltb (unit_at moves a) (unit_at moves b)

  -- The moves of the numbers.
  unfoldable pub pick : List (Move W) → List ℕ → List (Move W)
  pick moves [] = []
  pick moves (i ∷ is) = elim (get_elem? moves i) [
    | none ↦ pick moves is
    | some x ↦ x ∷ pick moves is
  ]

  unfoldable pub order_slot_moves : List (Move W) → List (Move W)
  unfolding order_indices must_precede pick
  order_slot_moves moves =
      if leb (length moves) 1
      then moves
      else pick moves (order_indices (length moves) (must_precede moves) (unit_less moves))
