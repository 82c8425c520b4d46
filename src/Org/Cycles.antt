-- ===== src/Org/Cycles.antt =====
-- What org/diff.go does with moves on or behind a cycle.
use mathlib.Core.List.Perm
use mathlib.Core.List.{append-nil}
use gramophile.Prelude.{
  ℕ, ◌≤◌, ◌<◌, Bool, true, false, not, ◌&&◌, Option, none, some, List, [], ◌∷◌, ◌++◌, ◌≡◌, refl,
  sym, ap, ◌∙◌, inl, inr, eqb, ltb, leb, length, get_elem?, select, any, All, All-mono, All-of_mem,
  All-Memᴰ, arith, Bool-cases, Option-cases, sort, sort-perm, sort-All, sort-IsSorted, IsSorted,
}
use gramophile.Org.Types.{Move}
use gramophile.Org.Diff.{
  order_indices, range, count, must_precede, unit_less, unit_at, start_unit, vacates, pick,
  order_slot_moves,
}
use gramophile.Org.Counting.{any-perm, All-select, All-select_self, All-range_from-lt}
use gramophile.Org.Loop.{last, last-visited, last-Follows}
use gramophile.Org.Indices.{blocked, order_indices-split}
use gramophile.Org.Pick.{pick-append}
use gramophile.Org.Order.{Vacated, Vacated-pick, Vacated-few, unit_less-IsWeakOrder}

any-of_count : (p : ℕ → Bool) (xs : List ℕ) → eqb (count p xs) 0 ≡ false → any p xs ≡ true
unfolding any count
any-of_count p [] h = absurd (ground arith)
any-of_count p (x ∷ xs) h = ground (arith, any-of_count p xs)

any-select_both :
    (p q r : ℕ → Bool) (xs : List ℕ)
    → ((x : ℕ) → r x ≡ (q x && p x))
    → any q (select p xs) ≡ any r xs
unfolding any select
any-select_both p q r [] h = refl
any-select_both p q r (x ∷ xs) h = ground (arith, h x, any-select_both p q r xs h)

module _ (n : ℕ) (edge less : ℕ → ℕ → Bool) where
  -- What the loop does not make waits for another such move.
  blocked-Waits : All (λ x. any (λ y. edge y x) (blocked n edge less) ≡ true) (blocked n edge less)
  blocked-Waits =
      let s = last n edge less in
      let wait : (x : ℕ)
          → x < n
          → not (s.visited x) ≡ true
          → any (λ y. edge y x) (blocked n edge less) ≡ true =
        λ x k h.
          any-select_both (λ y. not (s.visited y)) (λ y. edge y x)
            (λ y. edge y x && not (s.visited y)) (range n) (λ y. refl)
          ∙ any-of_count (λ y. edge y x && not (s.visited y)) (range n)
              (sym (last-visited n edge less x k) ∙ ground arith) in
      let xs = blocked n edge less in
      let inside =
        All-select (λ x. (0 ≤ x) × (x < n)) (λ x. not (s.visited x)) (range n)
          (All-range_from-lt 0 n n (omega arith)) in
      All-of_mem xs (λ x m. wait x (All-Memᴰ (λ x. (0 ≤ x) × (x < n)) xs inside m).1 (
        All-Memᴰ (λ x. not (s.visited x) ≡ true) xs
          (All-select_self (λ x. not (s.visited x)) (range n)) m))

module _ {W : Type 0} where
  any-pick :
      (moves : List (Move W)) (is : List ℕ) (i : ℕ) {x : Move W}
      → get_elem? moves i ≡ some x
      → any (λ j. must_precede moves j i) is ≡ true
      → any (λ y. vacates y x) (pick moves is) ≡ true
  unfolding any pick must_precede
  any-pick moves [] i h m = absurd (cc)
  any-pick moves (j ∷ js) i {x} h m = elim (Option-cases (get_elem? moves j)) [
    | inl out ↦
        let no : must_precede moves j i ≡ false = rw (out, must_precede) refl in
        rw (out, pick) (any-pick moves js i h (ground arith))
    | inr (y, found) ↦
        let same : must_precede moves j i ≡ (not (eqb j i) && vacates y x) =
          rw (found, h, must_precede) refl in
        rw (found, pick, any)
          (elim (Bool-cases (vacates y x)) [
            | inl leaves ↦ rw (leaves) refl
            | inr stays ↦ rw (stays) (any-pick moves js i h (ground arith))
          ])
  ]

  All-pick {κ} :
      (P : Move W → Type κ) (Q : ℕ → Type κ) (moves : List (Move W)) (is : List ℕ)
      → ((i : ℕ) (x : Move W) → get_elem? moves i ≡ some x → Q i → P x)
      → All Q is
      → All P (pick moves is)
  unfolding pick
  All-pick P Q moves [] f h = tt
  All-pick P Q moves (i ∷ is) f h = elim (Option-cases (get_elem? moves i)) [
    | inl out ↦ rw (out, pick) (All-pick P Q moves is f h.1)
    | inr (y, found) ↦ rw (found, pick) (f i y found h.0, All-pick P Q moves is f h.1)
  ]

  abbrev pub start_less : Move W → Move W → Bool
  start_less a b = ltb (start_unit a) (start_unit b)

  unit_at-found :
      (moves : List (Move W)) (i : ℕ) {x : Move W}
      → get_elem? moves i ≡ some x
      → unit_at moves i ≡ start_unit x
  unit_at-found moves i e =
      ap (λ (o : Option (Move W)). elim o [ none ↦ 0 | some m ↦ start_unit m ]) e

  pick-IsSorted :
      (moves : List (Move W)) (is : List ℕ)
      → IsSorted (unit_less moves) is
      → IsSorted start_less (pick moves is)
  unfolding pick
  pick-IsSorted moves [] h = tt
  pick-IsSorted moves (i ∷ is) h = elim (Option-cases (get_elem? moves i)) [
    | inl out ↦ rw (out, pick) (pick-IsSorted moves is h.1)
    | inr (x, found) ↦
        rw (found, pick)
          (
            All-pick (λ y. start_less y x ≡ false) (λ j. unit_less moves j i ≡ false) moves is
                (λ j y e k.
                  ap (λ z. ltb z (start_unit x)) (sym (unit_at-found moves j e))
                  ∙ ap (λ z. ltb (unit_at moves j) z) (sym (unit_at-found moves i found))
                  ∙ k)
                h.0,
            pick-IsSorted moves is h.1,
          )
  ]

  -- Each move waits for one of the list.
  abbrev pub IsBlocked : List (Move W) → Type 0
  IsBlocked post = All (λ x. any (λ y. vacates y x) post ≡ true) post

  -- Two parts: one in the order asked for, and moves that wait for each other, by unit.
  abbrev pub Parts : List (Move W) → List (Move W) → Type 0
  Parts moves result =
      (pre : List (Move W)) × (post : List (Move W)) × (result ≡ pre ++ post)
      × Vacated moves [] pre
      × IsBlocked post
      × IsSorted start_less post

  indices-Parts :
      (moves : List (Move W))
      → Parts moves
          (pick moves (order_indices (length moves) (must_precede moves) (unit_less moves)))
  unfolding pick
  indices-Parts moves =
      let n = length moves in
      let edge = must_precede moves in
      let less = unit_less moves in
      let s = last n edge less in
      let rest = sort less (blocked n edge less) in
      let waits_in : (x : ℕ)
          → any (λ y. edge y x) (blocked n edge less) ≡ any (λ y. edge y x) rest =
        λ x. any-perm (λ y. edge y x) (Perm.symm (sort-perm less (blocked n edge less))) in
      (
        pick moves s.ordered,
        pick moves rest,
        ap (pick moves) (order_indices-split n edge less) ∙ pick-append moves s.ordered rest,
        Vacated-pick moves [] s.ordered (last-Follows n edge less),
        All-pick (λ x. any (λ y. vacates y x) (pick moves rest) ≡ true)
            (λ i. any (λ y. edge y i) rest ≡ true) moves rest (λ i x e h. any-pick moves rest i e h)
            (sort-All less (λ i. any (λ y. edge y i) rest ≡ true) (blocked n edge less)
              (All-mono (blocked n edge less) (λ x h. sym (waits_in x) ∙ h)
                (blocked-Waits n edge less))),
        pick-IsSorted moves rest
            (sort-IsSorted less (unit_less-IsWeakOrder moves) (blocked n edge less)),
      )

  -- Whatever cycles there are, the result is two parts: in the first each move comes after every
  -- other move that leaves its destination; in the second each waits for a move of that part, and
  -- the start units do not descend.
  pub order_slot_moves-Parts : (moves : List (Move W)) → Parts moves (order_slot_moves moves)
  unfolding order_slot_moves pick
  order_slot_moves-Parts moves = elim (Bool-cases (leb (length moves) 1)) [
    | inl few ↦ rw (few) (moves, [], sym (append-nil moves), Vacated-few moves few, tt, tt)
    | inr many ↦ rw (many) (indices-Parts moves)
  ]
