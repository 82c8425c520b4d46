-- ===== src/Org/Loop.antt =====
-- Kahn's loop of org/diff.go: with fuel for one round more than there are moves it ends with an
-- empty queue, and each number below the bound is made or waits.
use mathlib.Core.List.Perm
use mathlib.Core.List.{Perm, append-nil}
use gramophile.Prelude.{
  ℕ, zero, suc, ◌+◌, ◌≤◌, ◌<◌, pos, Bool, true, ◌&&◌, List, [], ◌∷◌, ◌++◌, ◌≡◌, ◌⊎◌, refl, sym, ap,
  ◌∙◌, subst, inl, inr, eqb, eqb_ℤ, length, length-append, select, any, arith, sort, sort-perm,
}
use gramophile.Org.Diff.{visit, kahn, kahn_start, range, count, Kahn}
use gramophile.Org.Counting.{length-perm, length-range_from, any-perm, any-select, any-range_from}
use gramophile.Org.Visit.{IsRound, Follows, waits, visit-IsRound}

pub List-cases {ℓ} :
    {A : Type ℓ} → (xs : List A) → (xs ≡ []) ⊎ ((x : A) × (ys : List A) × (xs ≡ x ∷ ys))
List-cases [] = inl refl
List-cases (x ∷ xs) = inr (x, xs, refl)

length-select : (p : ℕ → Bool) (xs : List ℕ) → length (select p xs) ≤ length xs
unfolding select
length-select p [] = omega arith
length-select p (x ∷ xs) = ground (arith, length-select p xs)

count-congr : (p q : ℕ → Bool) (xs : List ℕ) → ((x : ℕ) → p x ≡ q x) → count p xs ≡ count q xs
unfolding count
count-congr p q [] h = refl
count-congr p q (x ∷ xs) h = rw (h x, count-congr p q xs h)

module _ (n : ℕ) (edge less : ℕ → ℕ → Bool) where
  abbrev pub adj : ℕ → List ℕ
  adj y = select (edge y) (range n)

  -- The made numbers and the queue are at most as many as the moves.
  IsRound-bound : (s : Kahn) → IsRound n edge s → length s.queue + length s.ordered ≤ n
  IsRound-bound s w =
      let p = λ (x : ℕ). eqb_ℤ (s.in_degree x) (pos 0) in
      omega (
        arith,
        length-perm w.ready,
        length-append s.queue s.ordered,
        length-select p (range n),
        length-range_from 0 n,
      )

  visit-grows :
      (qs : List ℕ) (s : Kahn)
      → 0 < length qs
      → Perm qs s.queue
      → IsRound n edge s
      → IsRound n edge (visit adj less qs s)
        × (length (visit adj less qs s).ordered ≡ suc (length s.ordered))
  unfolding visit
  visit-grows [] s h p w = absurd (omega arith)
  visit-grows (c ∷ rest) s h p w =
      (visit-IsRound n edge less c rest s w p, omega (arith, length-append s.ordered (c ∷ [])))

  kahn-empty : (fuel : ℕ) (s : Kahn) → s.queue ≡ [] → kahn adj less (suc fuel) s ≡ s
  unfolding kahn
  kahn-empty fuel s e =
      ap
        (λ (q : List ℕ). elim q [
          | [] ↦ s
          | x ∷ xs ↦ kahn adj less fuel (visit adj less (sort less s.queue) s)
        ])
        e

  kahn-more :
      (fuel : ℕ) (s : Kahn) {x : ℕ} {xs : List ℕ}
      → s.queue ≡ x ∷ xs
      → kahn adj less (suc fuel) s ≡ kahn adj less fuel (visit adj less (sort less s.queue) s)
  unfolding kahn
  kahn-more fuel s e =
      ap
        (λ (q : List ℕ). elim q [
          | [] ↦ s
          | x ∷ xs ↦ kahn adj less fuel (visit adj less (sort less s.queue) s)
        ])
        e

  abbrev pub IsEnd : Kahn → Type 0
  IsEnd s = IsRound n edge s × (s.queue ≡ [])

  pub kahn-IsEnd :
      (fuel : ℕ) (s : Kahn)
      → IsRound n edge s
      → length s.ordered + fuel ≡ suc n
      → IsEnd (kahn adj less fuel s)
  kahn-IsEnd zero s w l = absurd (omega (arith, IsRound-bound s w))
  kahn-IsEnd (suc fuel) s w l = elim (List-cases s.queue) [
    | inl empty ↦ subst IsEnd (sym (kahn-empty fuel s empty)) (w, empty)
    | inr (x, xs, e) ↦
        let sorted = sort-perm less s.queue in
        let more : 0 < length (sort less s.queue) =
          omega (arith, length-perm sorted, ap (λ z. length z) e) in
        let r = visit-grows (sort less s.queue) s more sorted w in
        subst IsEnd (sym (kahn-more fuel s e))
          (kahn-IsEnd fuel (visit adj less (sort less s.queue) s) r.0 (omega (arith, r.1)))
  ]

  abbrev start : List ℕ
  start = select (λ x. eqb_ℤ (pos (count (λ y. edge y x) (range n))) (pos 0)) (range n)

  pub kahn_start-IsRound : IsRound n edge (kahn_start n edge)
  unfolding kahn_start any
  kahn_start-IsRound = record {
    degrees = λ x k.
        ap (λ m. pos m)
          (count-congr (λ y. edge y x) (λ y. edge y x && true) (range n) (λ y. ground arith));
    ready = subst (λ z. Perm z start) (sym (append-nil start)) Perm.rfl;
    marks = λ x. refl;
    follows = tt;
  }

  -- The state after the loop.
  abbrev pub last : Kahn
  last = kahn adj less (suc n) (kahn_start n edge)

  last-IsEnd : IsEnd last
  unfolding kahn_start
  last-IsEnd = kahn-IsEnd (suc n) (kahn_start n edge) kahn_start-IsRound (omega arith)

  pub last-Follows : Follows n edge [] last.ordered
  last-Follows = last-IsEnd.0.follows

  pub last-ready : Perm last.ordered (select (λ x. eqb_ℤ (last.in_degree x) (pos 0)) (range n))
  last-ready =
      subst
        (λ z. Perm (z ++ last.ordered) (select (λ x. eqb_ℤ (last.in_degree x) (pos 0)) (range n)))
        last-IsEnd.1 last-IsEnd.0.ready

  -- What the loop made is what waits for nothing.
  pub last-zero : (x : ℕ) → x < n → last.visited x ≡ eqb_ℤ (last.in_degree x) (pos 0)
  last-zero x k =
      last-IsEnd.0.marks x
      ∙ any-perm (eqb x) last-ready
      ∙ any-select x (λ x. eqb_ℤ (last.in_degree x) (pos 0)) (range n)
      ∙ ap (λ b. b && eqb_ℤ (last.in_degree x) (pos 0))
          (any-range_from x 0 n (omega arith) (omega arith))

  pub last-visited : (x : ℕ) → x < n → last.visited x ≡ eqb (waits n edge last.visited x) 0
  last-visited x k = last-zero x k ∙ ground (arith, last-IsEnd.0.degrees x k)
