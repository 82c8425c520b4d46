-- ===== src/Org/Order.antt =====
-- The order of the moves of org/diff.go.
use mathlib.Core.List.Perm
use mathlib.Core.List.{Perm, Mem, mem-cons_self, mem-cons_of_mem}
use mathlib.Core.Option.{some-injective}
use gramophile.Prelude.{
  ℕ, zero, suc, ◌<◌, true, false, not, ◌&&◌, none, some, List, [], ◌∷◌, Memᴰ, ◌≡◌, ◌⊎◌, refl, sym,
  ap, ◌∙◌, subst, inl, inr, eqb, eqb_iff, leb, length, get_elem?, any, All, All-of_mem, arith,
  Bool-cases, Option-cases, IsWeakOrder,
}
use gramophile.Org.Types.{Move}
use gramophile.Org.Diff.{order_indices, must_precede, unit_less, vacates, pick, order_slot_moves}
use gramophile.Org.Pick.{pick-all, pick-perm}
use gramophile.Org.Visit.{Follows}
use gramophile.Org.Indices.{order_indices-perm, order_indices-Follows}

module _ {W : Type 0} where
  -- Each move that leaves the slot that another goes to is earlier than that one, or in `done`.
  abbrev pub Vacated : List (Move W) → List (Move W) → List (Move W) → Type 0
  Vacated moves done [] = Unit
  Vacated moves done (x ∷ xs) =
      All (λ y. vacates y x ≡ true → (y ≡ x) ⊎ Mem y done) moves × Vacated moves (x ∷ done) xs

  index-of :
      (moves : List (Move W)) {y : Move W} → Memᴰ y moves → (i : ℕ) × (get_elem? moves i ≡ some y)
  index-of [] m = elim m [ ]
  index-of (x ∷ xs) (Memᴰ.head e) = (0, ap (λ z. some z) (sym e))
  index-of (x ∷ xs) (Memᴰ.tail m) = let r = index-of xs m in (suc r.0, r.1)

  get-lt :
      (moves : List (Move W)) (i : ℕ) {y : Move W} → get_elem? moves i ≡ some y → i < length moves
  get-lt [] i h = absurd (cc)
  get-lt (x ∷ xs) zero h = omega arith
  get-lt (x ∷ xs) (suc i) h = omega (arith, get-lt xs i h)

  pick-Mem :
      (moves : List (Move W)) (is : List ℕ) (i : ℕ) {y : Move W}
      → get_elem? moves i ≡ some y
      → any (eqb i) is ≡ true
      → Mem y (pick moves is)
  unfolding pick any
  pick-Mem moves [] i h m = absurd (cc)
  pick-Mem moves (j ∷ js) i {y} h m = elim (Bool-cases (eqb i j)) [
    | inl here ↦
        let e : j ≡ i = ground arith in
        let found = ap (get_elem? moves) e ∙ h in rw (found, pick) mem-cons_self
    | inr there ↦
        let rest = pick-Mem moves js i h (ground arith) in
        elim (Option-cases (get_elem? moves j)) [
          | inl out ↦ rw (out, pick) rest
          | inr (z, found) ↦ rw (found, pick) (mem-cons_of_mem z rest)
        ]
  ]

  -- A move that leaves the slot of move `i` is that move or an earlier one.
  earlier :
      (moves : List (Move W)) (done : List ℕ) (i : ℕ) {x y : Move W}
      → get_elem? moves i ≡ some x
      → ((j : ℕ) → j < length moves → must_precede moves j i ≡ true → any (eqb j) done ≡ true)
      → Memᴰ y moves
      → vacates y x ≡ true
      → (y ≡ x) ⊎ Mem y (pick moves done)
  unfolding must_precede
  earlier moves done i {x} {y} here f m v =
      let (j, there) = index-of moves m in
      elim (Bool-cases (eqb j i)) [
        | inl same ↦ let e : j ≡ i = (eqb_iff j i).0 same in inl (cc)
        | inr other ↦
            let edge : must_precede moves j i ≡ true = rw (there, here, must_precede, other) v in
            inr (pick-Mem moves done j there (f j (get-lt moves j there) edge))
      ]

  pub Vacated-pick :
      (moves : List (Move W)) (done is : List ℕ)
      → Follows (length moves) (must_precede moves) done is
      → Vacated moves (pick moves done) (pick moves is)
  unfolding pick
  Vacated-pick moves done [] f = tt
  Vacated-pick moves done (i ∷ is) f =
      let rest = Vacated-pick moves (i ∷ done) is f.1 in
      elim (Option-cases (get_elem? moves i)) [
        | inl out ↦
            let same : pick moves (i ∷ done) ≡ pick moves done = rw (out, pick) refl in
            rw (out, pick) (subst (λ z. Vacated moves z (pick moves is)) same rest)
        | inr (x, here) ↦
            let same : pick moves (i ∷ done) ≡ x ∷ pick moves done = rw (here, pick) refl in
            rw (here, pick)
              (
                All-of_mem moves (λ y m v. earlier moves done i here f.0 m v),
                subst (λ z. Vacated moves z (pick moves is)) same rest,
              )
      ]

  pub unit_less-IsWeakOrder : (moves : List (Move W)) → IsWeakOrder (unit_less moves)
  unit_less-IsWeakOrder moves = record {
    asym = λ a b h. ground arith;
    neg_trans = λ a b c h k. ground arith;
  }

  -- The ordered moves are a permutation of the given ones: none is lost or made twice, whatever
  -- cycles there are.
  pub order_slot_moves-perm : (moves : List (Move W)) → Perm (order_slot_moves moves) moves
  unfolding order_slot_moves
  order_slot_moves-perm moves = elim (Bool-cases (leb (length moves) 1)) [
    | inl few ↦ rw (few) Perm.rfl
    | inr many ↦ rw (many) (
        subst
          (Perm (pick moves (order_indices (length moves) (must_precede moves) (unit_less moves))))
          (pick-all moves)
          (pick-perm moves
            (order_indices-perm (length moves) (must_precede moves) (unit_less moves))))
  ]

  -- One move waits for no other.
  pub Vacated-few : (moves : List (Move W)) → leb (length moves) 1 ≡ true → Vacated moves [] moves
  Vacated-few [] h = tt
  Vacated-few (x ∷ []) h = (((λ v. inl refl), tt), tt)
  Vacated-few (x ∷ y ∷ xs) h = absurd (ground arith)

  abbrev rank_of : List (Move W) → (Move W → ℕ) → ℕ → ℕ
  rank_of moves rank i = elim (get_elem? moves i) [ none ↦ 0 | some m ↦ rank m ]

  get-All {κ} :
      (P : Move W → Type κ) (moves : List (Move W)) (i : ℕ) {m : Move W}
      → All P moves
      → get_elem? moves i ≡ some m
      → P m
  get-All P [] i h e = absurd (cc)
  get-All P (x ∷ xs) zero h e = subst P (some-injective x _ e) h.0
  get-All P (x ∷ xs) (suc i) h e = get-All P xs i h.1 e

  must_precede-rises :
      (moves : List (Move W)) (rank : Move W → ℕ)
      → All (λ a. All (λ b. vacates a b ≡ true → rank a < rank b) moves) moves
      → (y x : ℕ) → must_precede moves y x ≡ true
      → rank_of moves rank y < rank_of moves rank x
  unfolding must_precede
  must_precede-rises moves rank h y x e = elim (Option-cases (get_elem? moves y)) [
    | inl out ↦ let no : false ≡ true = rw (out, must_precede) at e in absurd (cc)
    | inr (a, first) ↦ elim (Option-cases (get_elem? moves x)) [
      | inl out ↦ let no : false ≡ true = rw (first, out, must_precede) at e in absurd (cc)
      | inr (b, second) ↦
          let leaves : (not (eqb y x) && vacates a b) ≡ true =
            rw (first, second, must_precede) at e in
          rw (first, second, rank_of)
            (get-All (λ b. vacates a b ≡ true → rank a < rank b) moves x
              (get-All (λ a. All (λ b. vacates a b ≡ true → rank a < rank b) moves) moves y h first)
              second (ground arith))
    ]
  ]

  -- If the moves can be ranked so that each has a lower rank than one whose destination is the slot
  -- that it leaves, then in the result each move comes after every other move that leaves the slot
  -- that it goes to.
  pub order_slot_moves-Vacated :
      (moves : List (Move W)) (rank : Move W → ℕ)
      → All (λ a. All (λ b. vacates a b ≡ true → rank a < rank b) moves) moves
      → Vacated moves [] (order_slot_moves moves)
  unfolding order_slot_moves pick
  order_slot_moves-Vacated moves rank h = elim (Bool-cases (leb (length moves) 1)) [
    | inl few ↦ rw (few) (Vacated-few moves few)
    | inr many ↦ rw (many) (
        Vacated-pick moves [] (order_indices (length moves) (must_precede moves) (unit_less moves))
          (order_indices-Follows (length moves) (must_precede moves) (unit_less moves)
            (rank_of moves rank) (λ y x k l e. must_precede-rises moves rank h y x e)))
  ]
