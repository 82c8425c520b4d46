-- ===== src/Org/Changes.antt =====
-- The moves between two snapshots, org/diff.go, against a description by record.
use mathlib.Core.List.{append-nil}
use gramophile.Prelude.{
  ℕ, Bool, true, false, Option, none, some, List, [], ◌∷◌, ◌++◌, ◌≡◌, refl, sym, ap, ◌∙◌, inl, inr,
  eqb, eqb_iff, if◌then◌else◌, put_at, select, select-append, arith, Bool-cases, Option-cases,
}
use gramophile.Org.Types.{Placement, OrganisationSnapshot, Move}
use gramophile.Org.Diff.{end_map, same_slot, slot_move, slot_moves, compute_slot_moves}

module _ {W : Type 0} where
  -- The first placement of record `k`.
  unfoldable pub first_of : ℕ → List (Option (Placement W)) → Option (Placement W)
  first_of k [] = none
  first_of k (none ∷ ps) = first_of k ps
  first_of k (some p ∷ ps) = if eqb p.iid k then some p else first_of k ps

  -- The last placement of record `k`, or `o`.
  unfoldable pub last_of :
      ℕ → List (Option (Placement W)) → Option (Placement W) → Option (Placement W)
  last_of k [] o = o
  last_of k (none ∷ ps) o = last_of k ps o
  last_of k (some p ∷ ps) o = last_of k ps (if eqb p.iid k then some p else o)

  -- The move from one slot to another one.
  unfoldable pub change : Option (Placement W) → Option (Placement W) → List (Move W)
  change (some p) (some q) =
      if same_slot p q then [] else record { start = some p; end = some q } ∷ []
  change none o = []
  change (some p) none = []

  abbrev pub moves_record : ℕ → Move W → Bool
  moves_record k m = elim m.start [ none ↦ false | some p ↦ eqb p.iid k ]

  end_map-last :
      (k : ℕ) (ps : List (Option (Placement W))) (m : ℕ → Option (Placement W))
      → end_map ps m k ≡ last_of k ps (m k)
  unfolding end_map last_of
  end_map-last k [] m = refl
  end_map-last k (none ∷ ps) m = end_map-last k ps m
  end_map-last k (some p ∷ ps) m = end_map-last k ps (put_at p.iid (some p) m)

  slot_move-change :
      (ends : ℕ → Option (Placement W)) (p : Placement W)
      → slot_move ends p ≡ change (some p) (ends p.iid)
  unfolding slot_move change
  slot_move-change ends p = elim (Option-cases (ends p.iid)) [
    | inl gone ↦ rw (gone, slot_move, change) refl
    | inr (q, there) ↦ rw (there, slot_move, change) refl
  ]

  select-change :
      (k : ℕ) (p : Placement W) (o : Option (Placement W))
      → select (moves_record k) (change (some p) o)
        ≡ (if eqb p.iid k then change (some p) o else [])
  unfolding change select
  select-change k p none = ground arith
  select-change k p (some q) = ground arith

  select-slot_moves :
      (k : ℕ) (ends : ℕ → Option (Placement W)) (seen : ℕ → Bool) (ps : List (Option (Placement W)))
      → select (moves_record k) (slot_moves ends seen ps)
        ≡ (if seen k then [] else change (first_of k ps) (ends k))
  unfolding slot_moves first_of change select
  select-slot_moves k ends seen [] = ground arith
  select-slot_moves k ends seen (none ∷ ps) = select-slot_moves k ends seen ps
  select-slot_moves k ends seen (some p ∷ ps) =
      let here_is : eqb p.iid k ≡ true → p.iid ≡ k = (eqb_iff p.iid k).0 in
      let later = select-slot_moves k ends (put_at p.iid true seen) ps in
      let split : select (moves_record k)
            (slot_move ends p ++ slot_moves ends (put_at p.iid true seen) ps)
          ≡ (if eqb p.iid k then change (some p) (ends p.iid) else [])
            ++ (if put_at p.iid true seen k then [] else change (first_of k ps) (ends k)) =
        select-append (moves_record k) (slot_move ends p)
          (slot_moves ends (put_at p.iid true seen) ps)
        ∙ ap (λ z. z ++ select (moves_record k) (slot_moves ends (put_at p.iid true seen) ps))
            (ap (select (moves_record k)) (slot_move-change ends p)
              ∙ select-change k p (ends p.iid))
        ∙ ap (λ z. (if eqb p.iid k then change (some p) (ends p.iid) else []) ++ z) later in
      elim (Bool-cases (seen p.iid)) [
        | inl old ↦ rw (old) (
            select-slot_moves k ends seen ps ∙ elim (Bool-cases (eqb p.iid k)) [
              | inl here ↦ let s : seen k ≡ true = sym (ap seen (here_is here)) ∙ old in rw (s) refl
              | inr other ↦ rw (other) refl
            ])
        | inr new ↦ rw (new) (
            split ∙ elim (Bool-cases (eqb p.iid k)) [
              | inl here ↦
                  let s : seen k ≡ false = sym (ap seen (here_is here)) ∙ new in
                  rw (here, s)
                    (append-nil (change (some p) (ends p.iid))
                      ∙ ap (λ j. change (some p) (ends j)) (here_is here))
              | inr other ↦ rw (other) refl
            ])
      ]

  -- For every record, the moves of that record are the one move from its first placement at the
  -- start to its last placement at the end, if it has both and the unit or the space differs, and
  -- none otherwise.
  pub compute_slot_moves-record :
      (s e : OrganisationSnapshot W) (k : ℕ)
      → select (moves_record k) (compute_slot_moves (some s) (some e))
        ≡ change (first_of k s.placements) (last_of k e.placements none)
  unfolding compute_slot_moves
  compute_slot_moves-record s e k =
      select-slot_moves k (end_map e.placements (λ k. none)) (λ k. false) s.placements
      ∙ ap (change (first_of k s.placements)) (end_map-last k e.placements (λ k. none))
