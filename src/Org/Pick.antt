-- ===== src/Org/Pick.antt =====
-- Picking moves by their numbers, org/diff.go.
use mathlib.Core.List.Perm
use mathlib.Core.List.{Perm, Permᴰ, Perm-prop}
use mathlib.Core.Logic.{∥∥₁_elim}
use gramophile.Prelude.{
  ℕ, zero, suc, List, [], ◌∷◌, ◌++◌, ◌≡◌, refl, sym, ap, ◌∙◌, subst, inl, inr, length, get_elem?,
  Option-cases,
}
use gramophile.Org.Types.{Move}
use gramophile.Org.Diff.{range, range_from, pick}
use gramophile.Org.Counting.{append-perm}

module _ {W : Type 0} where
  pick-later :
      (x : Move W) (xs : List (Move W)) (i n : ℕ)
      → pick (x ∷ xs) (range_from (suc i) n) ≡ pick xs (range_from i n)
  unfolding pick range_from
  pick-later x xs i zero = refl
  pick-later x xs i (suc n) = elim (Option-cases (get_elem? xs i)) [
    | inl out ↦ rw (out, pick) (pick-later x xs (suc i) n)
    | inr (y, here) ↦ rw (here, pick) (ap (λ z. y ∷ z) (pick-later x xs (suc i) n))
  ]

  pub pick-all : (xs : List (Move W)) → pick xs (range (length xs)) ≡ xs
  unfolding pick range_from
  pick-all [] = refl
  pick-all (x ∷ xs) = ap (λ z. x ∷ z) (pick-later x xs 0 (length xs) ∙ pick-all xs)

  pub pick-append :
      (moves : List (Move W)) (is js : List ℕ)
      → pick moves (is ++ js) ≡ pick moves is ++ pick moves js
  unfolding pick
  pick-append moves [] js = refl
  pick-append moves (i ∷ is) js = elim (Option-cases (get_elem? moves i)) [
    | inl out ↦ rw (out, pick) (pick-append moves is js)
    | inr (y, here) ↦ rw (here, pick) (ap (λ z. y ∷ z) (pick-append moves is js))
  ]

  -- Two numbers picked in either order.
  pick-swap :
      (moves : List (Move W)) (i j : ℕ) (ks : List ℕ)
      → Perm (pick moves (i ∷ j ∷ ks)) (pick moves (j ∷ i ∷ ks))
  pick-swap moves i j ks =
      let a = pick moves (i ∷ []) in
      let b = pick moves (j ∷ []) in
      let split = λ (x y : ℕ).
        pick-append moves (x ∷ y ∷ []) ks
        ∙ ap (λ z. z ++ pick moves ks) (pick-append moves (x ∷ []) (y ∷ [])) in
      subst (λ z. Perm z (pick moves (j ∷ i ∷ ks))) (sym (split i j))
        (subst (Perm ((a ++ b) ++ pick moves ks)) (sym (split j i))
          (Perm.append_right (pick moves ks) (append-perm a b)))

  pick-cons :
      (moves : List (Move W)) (i : ℕ) (is js : List ℕ)
      → Perm (pick moves is) (pick moves js)
      → Perm (pick moves (i ∷ is)) (pick moves (i ∷ js))
  pick-cons moves i is js p =
      subst (λ z. Perm z (pick moves (i ∷ js))) (sym (pick-append moves (i ∷ []) is))
        (subst (Perm (pick moves (i ∷ []) ++ pick moves is)) (sym (pick-append moves (i ∷ []) js))
          (Perm.append_left (pick moves (i ∷ [])) p))

  pub pick-perm :
      (moves : List (Move W)) {is js : List ℕ} → Perm is js → Perm (pick moves is) (pick moves js)
  pick-perm moves m = ∥∥₁_elim m Perm-prop go
    where
      go : {is js : List ℕ} → Permᴰ is js → Perm (pick moves is) (pick moves js)
      go Permᴰ.nil = Perm.rfl
      go (Permᴰ.cons {a = i} {b = j} {l₁ = is} {l₂ = js} e d) =
          subst (λ k. Perm (pick moves (i ∷ is)) (pick moves (k ∷ js))) e
            (pick-cons moves i is js (go d))
      go (Permᴰ.swap {a = i} {b = j} {a' = k'} {b' = j'} {l = ks} e f) =
          subst (λ k. Perm (pick moves (i ∷ j ∷ ks)) (pick moves (k ∷ j' ∷ ks))) f
            (subst (λ k. Perm (pick moves (i ∷ j ∷ ks)) (pick moves (j ∷ k ∷ ks))) e
              (pick-swap moves i j ks))
      go (Permᴰ.trans d d') = Perm.trans (go d) (go d')
