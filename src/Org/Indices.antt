-- ===== src/Org/Indices.antt =====
-- The order of the numbers of the moves, org/diff.go: first the loop's, then those on or behind a
-- cycle.
use mathlib.Core.List.Perm
use mathlib.Core.List.{Perm, append-nil}
use gramophile.Prelude.{
  ℕ, zero, suc, ◌≤◌, ◌<◌, pos, Bool, true, false, not, ◌&&◌, ◌||◌, List, [], ◌∷◌, ◌++◌, ◌≡◌, refl,
  sym, ap, ◌∙◌, subst, inl, inr, eqb_ℤ, ltb, ltb-false→le, length, length-append, select, All,
  All-mono, All-of, arith, Bool-cases, sort, sort-perm,
}
use gramophile.Org.Diff.{order_indices, range, count, Kahn}
use gramophile.Org.Counting.{
  select-or_perm, select-All, length-perm, length-range_from, All-range_from-lt,
}
use gramophile.Org.Visit.{Follows, waits}
use gramophile.Org.Loop.{last, last-Follows, last-ready, last-zero, last-visited}

nil-of_length {ℓ} : {A : Type ℓ} (xs : List A) → length xs ≡ 0 → xs ≡ []
nil-of_length [] h = refl
nil-of_length (x ∷ xs) h = absurd (omega arith)

count-none : (p : ℕ → Bool) (xs : List ℕ) → All (λ x. p x ≡ false) xs → count p xs ≡ 0
unfolding count
count-none p [] h = refl
count-none p (x ∷ xs) h = rw (h.0) (count-none p xs h.1)

select-none : (p : ℕ → Bool) (xs : List ℕ) → All (λ x. p x ≡ false) xs → select p xs ≡ []
unfolding select
select-none p [] h = refl
select-none p (x ∷ xs) h = rw (h.0) (select-none p xs h.1)

module _ (n : ℕ) (edge less : ℕ → ℕ → Bool) where
  abbrev s : Kahn
  s = last n edge less

  -- The moves that the loop does not make.
  abbrev pub blocked : List ℕ
  blocked = select (λ x. not (s.visited x)) (range n)

  below : {P : ℕ → Type 0} → ((x : ℕ) → x < n → P x) → All P (range n)
  below {P} f =
      All-mono {P = λ x. (0 ≤ x) × (x < n)} (range n) (λ x h. f x h.1)
        (All-range_from-lt 0 n n (omega arith))

  apart :
      (x : ℕ)
      → x < n
      → let p = eqb_ℤ (s.in_degree x) (pos 0) in
        (true ≡ (p || not (s.visited x))) × ((p && not (s.visited x)) ≡ false)
  apart x k =
      let e = last-zero n edge less x k in
      elim (Bool-cases (s.visited x)) [
        | inl made ↦ rw (sym e ∙ made, made) (refl, refl)
        | inr left ↦ rw (sym e ∙ left, left) (refl, refl)
      ]

  whole : Perm (s.ordered ++ blocked) (range n)
  whole =
      let p = λ (x : ℕ). eqb_ℤ (s.in_degree x) (pos 0) in
      Perm.trans (Perm.append_right blocked (last-ready n edge less)) (
        Perm.trans
          (Perm.symm (
            select-or_perm p (λ x. not (s.visited x)) (λ x. true) (range n)
              (below (λ x k. apart x k))))
          (subst (λ z. Perm z (range n))
            (sym (select-All (λ x. true) (range n) (All-of (λ x. refl) (range n)))) Perm.rfl))

  -- The result in both cases of the source's last test.
  pub order_indices-split : order_indices n edge less ≡ s.ordered ++ sort less blocked
  unfolding order_indices sort
  order_indices-split = elim (Bool-cases (ltb (length s.ordered) n)) [
    | inl short ↦ rw (short) refl
    | inr long ↦
        let empty : length blocked ≡ 0 = omega (
          arith,
          ltb-false→le,
          length-perm whole,
          length-append s.ordered blocked,
          length-range_from 0 n,
        ) in
        rw (long, nil-of_length blocked empty) (sym (append-nil s.ordered))
  ]

  pub order_indices-perm : Perm (order_indices n edge less) (range n)
  order_indices-perm =
      subst (λ z. Perm z (range n)) (sym order_indices-split)
        (Perm.trans (Perm.append_left s.ordered (sort-perm less blocked)) whole)

  module _ (rank : ℕ → ℕ)
      (rises : (y x : ℕ) → y < n → x < n → edge y x ≡ true → rank y < rank x) where
    all_made : (b x : ℕ) → x < n → rank x < b → s.visited x ≡ true
    all_made zero x k h = absurd (omega arith)
    all_made (suc b) x k h =
        let free : waits n edge s.visited x ≡ 0 =
          count-none (λ y. edge y x && not (s.visited y)) (range n)
            (below (λ y l. ground (arith, all_made b y l, rises y x l k))) in
        last-visited n edge less x k ∙ ground (arith, free)

    pub order_indices-Follows : Follows n edge [] (order_indices n edge less)
    unfolding sort
    order_indices-Follows =
        let empty : blocked ≡ [] =
          select-none (λ x. not (s.visited x)) (range n)
            (below (λ x k. ap not (all_made (suc (rank x)) x k (omega arith)))) in
        subst (Follows n edge [])
          (sym
            (order_indices-split ∙ ap (λ z. s.ordered ++ sort less z) empty ∙ append-nil s.ordered))
          (last-Follows n edge less)
