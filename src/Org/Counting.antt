-- ===== src/Org/Counting.antt =====
-- Lemmas on counting, selecting and permuting, for the order of moves in org/diff.go.
use mathlib.Core.List.Perm
use mathlib.Core.List.{
  Perm, Permᴰ, Mem, Nodup, Nodup-cons, Nodup-nil, perm_middle, mem-cons_self, mem-cons_of_mem,
  append-nil,
}
use mathlib.Core.Bool.{Bool-set}
use mathlib.Core.Logic.{∥∥₁_elim}
use mathlib.Core.HLevel.{⊥_prop}
use native.Mathlib.Nat.{ℕ_set}
use gramophile.Prelude.{
  ℕ, zero, suc, ◌+◌, ◌≤◌, ◌<◌, Bool, true, false, not, ◌&&◌, ◌||◌, List, [], ◌∷◌, ◌++◌, ◌≡◌, ◌≢◌,
  refl, sym, ap, ◌∙◌, subst, inl, inr, eqb, eqb_iff, if◌then◌else◌, length, select, any, All,
  All-Memᴰ, arith, Bool-cases,
}
use gramophile.Org.Diff.{range_from, range, count}

module _ {ℓ} {A : Type ℓ} where
  pub length-perm : {xs ys : List A} → Perm xs ys → length xs ≡ length ys
  length-perm p = ∥∥₁_elim p (ℕ_set _ _) go
    where
      go : {xs ys : List A} → Permᴰ xs ys → length xs ≡ length ys
      go Permᴰ.nil = refl
      go (Permᴰ.cons e d) = ap suc (go d)
      go (Permᴰ.swap e f) = refl
      go (Permᴰ.trans d d') = go d ∙ go d'

  pub All-of_Mem {κ} :
      {P : A → Type κ}
      → ((x : A) → IsProp (P x))
      → (xs : List A) {x : A} → All P xs
      → Mem x xs
      → P x
  All-of_Mem {P} pP xs {x} h m = ∥∥₁_elim m (pP x) (λ d. All-Memᴰ P xs h d)

  abbrev pub Unique : List A → Type ℓ
  Unique [] = Unit
  Unique (x ∷ xs) = All (λ y. y ≢ x) xs × Unique xs

  -- Two selections that never meet, against the selection by either.
  pub select-or_perm :
      (p q r : A → Bool) (xs : List A)
      → All (λ x. (r x ≡ (p x || q x)) × ((p x && q x) ≡ false)) xs
      → Perm (select r xs) (select p xs ++ select q xs)
  unfolding select
  select-or_perm p q r [] h = Perm.nil
  select-or_perm p q r (x ∷ xs) h = elim (Bool-cases (p x)) [
    | inl left ↦
        let here : r x ≡ true = ground (arith, h.0) in
        let gone : q x ≡ false = ground (arith, h.0) in
        rw (here, select, left, gone) (Perm.cons x (select-or_perm p q r xs h.1))
    | inr right ↦ elim (Bool-cases (q x)) [
      | inl there ↦
          let here : r x ≡ true = ground (arith, h.0) in
          rw (here, select, right, there)
            (Perm.trans (Perm.cons x (select-or_perm p q r xs h.1))
              (Perm.symm (perm_middle (select p xs) (select q xs))))
      | inr gone ↦
          let here : r x ≡ false = ground (arith, h.0) in
          rw (here, select, right, gone) (select-or_perm p q r xs h.1)
    ]
  ]

  pub select-congr :
      (p q : A → Bool) (xs : List A) → All (λ x. p x ≡ q x) xs → select p xs ≡ select q xs
  unfolding select
  select-congr p q [] h = refl
  select-congr p q (x ∷ xs) h = rw (h.0, select-congr p q xs h.1)

  pub select-select :
      (p q : A → Bool) (xs : List A) → select q (select p xs) ≡ select (λ x. p x && q x) xs
  unfolding select
  select-select p q [] = refl
  select-select p q (x ∷ xs) = ground (arith, select-select p q xs)

  pub select-All : (p : A → Bool) (xs : List A) → All (λ x. p x ≡ true) xs → select p xs ≡ xs
  unfolding select
  select-All p [] h = refl
  select-All p (x ∷ xs) h = rw (h.0, select-All p xs h.1)

  pub All-select {κ} :
      (P : A → Type κ) (p : A → Bool) (xs : List A) → All P xs → All P (select p xs)
  unfolding select
  All-select P p [] h = tt
  All-select P p (x ∷ xs) h = elim (Bool-cases (p x)) [
    | inl hit ↦ rw (hit, select) (h.0, All-select P p xs h.1)
    | inr miss ↦ rw (miss, select) (All-select P p xs h.1)
  ]

  -- What is selected passes the test.
  pub All-select_self : (p : A → Bool) (xs : List A) → All (λ x. p x ≡ true) (select p xs)
  unfolding select
  All-select_self p [] = tt
  All-select_self p (x ∷ xs) = elim (Bool-cases (p x)) [
    | inl hit ↦ rw (hit, select) (hit, All-select_self p xs)
    | inr miss ↦ rw (miss, select) (All-select_self p xs)
  ]

module _ {ℓ} {A : Type ℓ} where
  pub Unique-select : (p : A → Bool) (xs : List A) → Unique xs → Unique (select p xs)
  unfolding select
  Unique-select p [] h = tt
  Unique-select p (x ∷ xs) h = elim (Bool-cases (p x)) [
    | inl hit ↦ rw (hit, select) (All-select (λ y. y ≢ x) p xs h.0, Unique-select p xs h.1)
    | inr miss ↦ rw (miss, select) (Unique-select p xs h.1)
  ]

  pub Unique-Nodup : (xs : List A) → Unique xs → Nodup xs
  Unique-Nodup [] h = Nodup-nil
  Unique-Nodup (x ∷ xs) h =
      Nodup-cons.1
        ((λ m. ∥∥₁_elim m ⊥_prop (λ d. All-Memᴰ (λ y. y ≢ x) xs h.0 d refl)), Unique-Nodup xs h.1)

All-weaken :
    (i k j : ℕ) (xs : List ℕ)
    → k ≤ i
    → All (λ x. (i ≤ x) × (x < j)) xs
    → All (λ x. (k ≤ x) × (x < j)) xs
All-weaken i k j [] h a = tt
All-weaken i k j (x ∷ xs) h a = ((omega arith, omega arith), All-weaken i k j xs h a.1)

All-above :
    (i k j : ℕ) (xs : List ℕ) → k < i → All (λ x. (i ≤ x) × (x < j)) xs → All (λ x. x ≢ k) xs
All-above i k j [] h a = tt
All-above i k j (x ∷ xs) h a = (omega arith, All-above i k j xs h a.1)

pub All-range_from-lt : (i n j : ℕ) → i + n ≡ j → All (λ x. (i ≤ x) × (x < j)) (range_from i n)
unfolding range_from
All-range_from-lt i zero j e = tt
All-range_from-lt i (suc n) j e = (
  (omega arith, omega arith),
  All-weaken (suc i) i j (range_from (suc i) n) (omega arith)
      (All-range_from-lt (suc i) n j (omega arith)),
)

pub Unique-range_from : (i n : ℕ) → Unique (range_from i n)
unfolding range_from
Unique-range_from i zero = tt
Unique-range_from i (suc n) = (
  All-above (suc i) i (suc i + n) (range_from (suc i) n) (omega arith)
      (All-range_from-lt (suc i) n (suc i + n) refl),
  Unique-range_from (suc i) n,
)

pub length-range_from : (i n : ℕ) → length (range_from i n) ≡ n
unfolding range_from
length-range_from i zero = refl
length-range_from i (suc n) = ap suc (length-range_from (suc i) n)

pub any-range_from : (x i n : ℕ) → i ≤ x → x < i + n → any (eqb x) (range_from i n) ≡ true
unfolding any range_from
any-range_from x i zero h k = absurd (omega arith)
any-range_from x i (suc n) h k = elim (Bool-cases (eqb x i)) [
  | inl here ↦ ground arith
  | inr later ↦ ground (arith, any-range_from x (suc i) n)
]

-- A number that is not there does not count.
count-same :
    (p q : ℕ → Bool) (c : ℕ) (xs : List ℕ)
    → ((x : ℕ) → q x ≡ (p x && not (eqb c x)))
    → All (λ y. y ≢ c) xs
    → count p xs ≡ count q xs
unfolding count
count-same p q c [] h a = refl
count-same p q c (x ∷ xs) h a = ground (arith, h x, count-same p q c xs h a.1)

-- A number counts once among different ones.
pub count-remove :
    (p q : ℕ → Bool) (c : ℕ) (xs : List ℕ)
    → Unique xs
    → any (eqb c) xs ≡ true
    → ((x : ℕ) → q x ≡ (p x && not (eqb c x)))
    → count p xs ≡ (if p c then suc (count q xs) else count q xs)
unfolding any count
count-remove p q c [] u m h = absurd (cc)
count-remove p q c (x ∷ xs) u m h = elim (Bool-cases (eqb c x)) [
  | inl here ↦ ground (
    arith,
    h x,
    count-same p q c xs h (subst (λ k. All (λ y. y ≢ k) xs) (sym ((eqb_iff c x).0 here)) u.0),
  )
  | inr later ↦ ground (arith, h x, count-remove p q c xs u.1 (ground arith) h)
]

module _ {ℓ} {A : Type ℓ} where
  pub any-append : (p : A → Bool) (xs ys : List A) → any p (xs ++ ys) ≡ (any p xs || any p ys)
  unfolding any
  any-append p [] ys = refl
  any-append p (x ∷ xs) ys = ground (arith, any-append p xs ys)

  pub any-perm : (p : A → Bool) {xs ys : List A} → Perm xs ys → any p xs ≡ any p ys
  unfolding any
  any-perm p m = ∥∥₁_elim m (Bool-set _ _) go
    where
      go : {xs ys : List A} → Permᴰ xs ys → any p xs ≡ any p ys
      go Permᴰ.nil = refl
      go (Permᴰ.cons e d) = rw (e, go d)
      go (Permᴰ.swap e f) = rw (e, f) (ground arith)
      go (Permᴰ.trans d d') = go d ∙ go d'

  pub append-perm : (xs ys : List A) → Perm (xs ++ ys) (ys ++ xs)
  append-perm [] ys = subst (λ z. Perm ys z) (sym (append-nil ys)) Perm.rfl
  append-perm (x ∷ xs) ys =
      Perm.trans (Perm.cons x (append-perm xs ys)) (Perm.symm (perm_middle ys xs))

pub any-select :
    (x : ℕ) (p : ℕ → Bool) (xs : List ℕ) → any (eqb x) (select p xs) ≡ (any (eqb x) xs && p x)
unfolding any select
any-select x p [] = refl
any-select x p (y ∷ ys) = elim (Bool-cases (eqb x y)) [
  | inl here ↦ let e : x ≡ y = ground arith in ground (arith, any-select x p ys, ap p e)
  | inr there ↦ ground (arith, any-select x p ys)
]

pub any-Mem : (x : ℕ) (xs : List ℕ) → any (eqb x) xs ≡ true → Mem x xs
unfolding any
any-Mem x [] h = absurd (cc)
any-Mem x (y ∷ ys) h = elim (Bool-cases (eqb x y)) [
  | inl here ↦ let e : x ≡ y = ground arith in subst (λ z. Mem z (y ∷ ys)) (sym e) mem-cons_self
  | inr there ↦ mem-cons_of_mem y (any-Mem x ys (ground arith))
]

pub All-any {κ} : (P : ℕ → Type κ) (x : ℕ) (xs : List ℕ) → All P xs → any (eqb x) xs ≡ true → P x
unfolding any
All-any P x [] h m = absurd (cc)
All-any P x (y ∷ ys) h m = elim (Bool-cases (eqb x y)) [
  | inl here ↦ let e : x ≡ y = ground arith in subst P (sym e) h.0
  | inr there ↦ All-any P x ys h.1 (ground arith)
]

pub any-range-lt : (x n : ℕ) → any (eqb x) (range n) ≡ true → x < n
any-range-lt x n h =
    (All-any (λ y. (0 ≤ y) × (y < n)) x (range n) (All-range_from-lt 0 n n (omega arith)) h).1
