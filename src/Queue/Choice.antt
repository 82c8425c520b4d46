-- ===== src/Queue/Choice.antt =====
-- The choice of getNextEntry in queuelogic/logic.go: by priority, then by date.
use gramophile.Prelude.{
  ℕ, ◌≤◌, ◌<◌, Bool, true, false, Option, none, some, List, [], ◌∷◌, Memᴰ, ◌≡◌, ◌≢◌, refl, ◌⊎◌, inl,
  inr, ltb, ltb-false→le, All, All-mono, find, sort, sort-All_inv, mem-sort, sort-IsSorted,
  IsSorted, arith, Bool-cases, Option-cases,
}
use gramophile.Prelude.{ltb-IsWeakOrder}
use gramophile.Queue.Element.{Priority, is_high, is_normal}
use gramophile.Queue.Ops.{choose, has_priority, first_of_list}

abbrev pub rank : Priority → ℕ
rank Priority.priority_high = 2
rank Priority.priority_normal = 1
rank _ = 0

abbrev pub rank_at : (ℕ → Option Priority) → ℕ → ℕ
rank_at m k = elim (m k) [ none ↦ 0 | some p ↦ rank p ]

-- `k` goes before `j`, or is it.
abbrev pub Precedes : (ℕ → Option Priority) → ℕ → ℕ → Type 0
Precedes m k j = (rank_at m j < rank_at m k) ⊎ ((rank_at m j ≡ rank_at m k) × (k ≤ j))

find_first :
    (p : ℕ → Bool) (xs : List ℕ) {k : ℕ}
    → IsSorted ltb xs
    → find p xs ≡ some k
    → (p k ≡ true) × Memᴰ k xs × All (λ j. p j ≡ true → k ≤ j) xs
unfolding find
find_first p [] s h = absurd (cc)
find_first p (x ∷ xs) {k} s h = elim (Bool-cases (p x)) [
  | inl hit ↦
      let e : x ≡ k = ground arith in
      (
        rw e at hit,
        Memᴰ.head (ground arith),
        ((λ q. omega arith), All-mono {P = λ y. ltb y x ≡ false} xs (λ j b q. ground arith) s.0),
      )
  | inr miss ↦
      let r = find_first p xs {k = k} s.1 (ground arith) in
      (r.0, Memᴰ.tail r.1, ((λ q. absurd (cc)), r.2))
]

find-none : (p : ℕ → Bool) (xs : List ℕ) → find p xs ≡ none → All (λ j. p j ≡ false) xs
unfolding find
find-none p [] h = tt
find-none p (x ∷ xs) h = elim (Bool-cases (p x)) [
  | inl hit ↦ absurd (ground arith)
  | inr miss ↦ (miss, find-none p xs (ground arith))
]

All-both : (P Q : ℕ → Type 0) (xs : List ℕ) → All P xs → All Q xs → All (λ j. P j × Q j) xs
All-both P Q [] h k = tt
All-both P Q (x ∷ xs) h k = ((h.0, k.0), All-both P Q xs h.1 k.1)

Precedes-high :
    (m : ℕ → Option Priority) (k j : ℕ)
    → has_priority is_high m k ≡ true
    → (has_priority is_high m j ≡ true → k ≤ j)
    → Precedes m k j
unfolding has_priority
Precedes-high m k j h f = ground arith

Precedes-normal :
    (m : ℕ → Option Priority) (k j : ℕ)
    → has_priority is_normal m k ≡ true
    → (has_priority is_high m j ≡ false) × (has_priority is_normal m j ≡ true → k ≤ j)
    → Precedes m k j
unfolding has_priority
Precedes-normal m k j h f = ground arith

Precedes-low :
    (m : ℕ → Option Priority) (k j : ℕ)
    → (has_priority is_high m k ≡ false) × (has_priority is_normal m k ≡ false)
    → (has_priority is_high m j ≡ false) × (has_priority is_normal m j ≡ false)
    → k ≤ j
    → Precedes m k j
unfolding has_priority
Precedes-low m k j h f l = ground arith

Chooses : (ℕ → Option Priority) → List ℕ → ℕ → Type 0
Chooses m xs k = Memᴰ k xs × All (λ j. Precedes m k j) xs

choose_low :
    (m : ℕ → Option Priority) (xs : List ℕ)
    → IsSorted ltb xs
    → xs ≢ []
    → All (λ j. has_priority is_high m j ≡ false) xs
    → All (λ j. has_priority is_normal m j ≡ false) xs
    → Chooses m xs (first_of_list xs)
unfolding first_of_list Chooses
choose_low m [] s n h l = absurd (n refl)
choose_low m (x ∷ xs) s n h l = (
  Memᴰ.head refl,
  (
    Precedes-low m x x (h.0, l.0) (h.0, l.0) (omega arith),
    All-mono xs (λ j q. Precedes-low m x j (h.0, l.0) q.1 (ltb-false→le j x q.0))
        (All-both (λ j. ltb j x ≡ false) _ xs s.0 (All-both _ _ xs h.1 l.1)),
  ),
)

choose_sorted :
    (m : ℕ → Option Priority) (xs : List ℕ) → IsSorted ltb xs → xs ≢ [] → Chooses m xs (choose xs m)
unfolding choose Chooses
choose_sorted m xs s n = elim (Option-cases (find (has_priority is_high m) xs)) [
  | inr (k, e) ↦
      let r = find_first (has_priority is_high m) xs {k = k} s e in
      rw (e, choose) (r.1, All-mono xs (λ j f. Precedes-high m k j r.0 f) r.2)
  | inl no_high ↦
      let highs = find-none (has_priority is_high m) xs no_high in
      elim (Option-cases (find (has_priority is_normal m) xs)) [
        | inr (k, e) ↦
            let r = find_first (has_priority is_normal m) xs {k = k} s e in
            rw (no_high, choose, e)
              (r.1, All-mono xs (λ j f. Precedes-normal m k j r.0 f) (All-both _ _ xs highs r.2))
        | inl no_normal ↦
            rw (no_high, choose, no_normal)
              (unfold Chooses in
                choose_low m xs s n highs (find-none (has_priority is_normal m) xs no_normal))
      ]
]

sort-ne-nil : (xs : List ℕ) → xs ≢ [] → sort ltb xs ≢ []
sort-ne-nil [] n e = n refl
sort-ne-nil (x ∷ xs) n e = (sort-All_inv ltb (λ j. ⊥) (x ∷ xs) (rw e tt)).0

-- Of the keys in any order.
pub choose-sort :
    (m : ℕ → Option Priority) (xs : List ℕ)
    → xs ≢ []
    → Memᴰ (choose (sort ltb xs) m) xs × All (λ j. Precedes m (choose (sort ltb xs) m) j) xs
unfolding Chooses
choose-sort m xs n =
    let r =
      choose_sorted m (sort ltb xs) (sort-IsSorted ltb ltb-IsWeakOrder xs) (sort-ne-nil xs n) in
    (mem-sort ltb xs r.0, sort-All_inv ltb _ xs r.1)
