-- ===== src/Prelude/Sort.antt =====
-- sort.SliceStable: insertion sort by a test `less`. A stable sort's result is determined by the
-- test where that is a strict weak order.
use mathlib.Core.Path.{◌≡◌, refl, ap, ◌∙◌}
use mathlib.Core.Logic.{inl, inr}
use mathlib.Core.Bool.{Bool, true, false}
use mathlib.Core.List.{List, [], ◌∷◌, Perm, Memᴰ}
use mathlib.Core.List.Perm
use gramophile.Prelude.Tests.{if◌then◌else◌, Bool-cases}
use gramophile.Prelude.Lists.{All}

module _ {ℓ} {A : Type ℓ} (less : A → A → Bool) where
  -- Before the first entry that the new one, which came earlier, is not above.
  insert : A → List A → List A
  insert x [] = x ∷ []
  insert x (y ∷ ys) = if less y x then y ∷ insert x ys else x ∷ y ∷ ys

  unfoldable pub sort : List A → List A
  unfolding insert
  sort [] = []
  sort (x ∷ xs) = insert x (sort xs)

  insert-perm : (x : A) (ys : List A) → Perm (insert x ys) (x ∷ ys)
  unfolding insert
  insert-perm x [] = Perm.rfl
  insert-perm x (y ∷ ys) = elim (Bool-cases (less y x)) [
    | inl above ↦
        rw (above, insert) (Perm.trans (Perm.cons y (insert-perm x ys)) (Perm.swap x y ys))
    | inr here ↦ rw (here, insert) Perm.rfl
  ]

  pub sort-perm : (xs : List A) → Perm (sort xs) xs
  unfolding sort
  sort-perm [] = Perm.rfl
  sort-perm (x ∷ xs) = Perm.trans (insert-perm x (sort xs)) (Perm.cons x (sort-perm xs))

  -- Each entry is followed by entries that are not below it.
  abbrev pub IsSorted : List A → Type ℓ
  IsSorted [] = Unit
  IsSorted (x ∷ xs) = All (λ y. less y x ≡ false) xs × IsSorted xs

  insert-All {κ} : (P : A → Type κ) (x : A) (ys : List A) → P x → All P ys → All P (insert x ys)
  unfolding insert
  insert-All P x [] p h = (p, tt)
  insert-All P x (y ∷ ys) p h = elim (Bool-cases (less y x)) [
    | inl above ↦ rw (above, insert) (h.0, insert-All P x ys p h.1)
    | inr here ↦ rw (here, insert) (p, h)
  ]

  pub sort-All {κ} : (P : A → Type κ) (xs : List A) → All P xs → All P (sort xs)
  unfolding sort
  sort-All P [] h = tt
  sort-All P (x ∷ xs) h = insert-All P x (sort xs) h.0 (sort-All P xs h.1)

module _ {ℓ} {A : Type ℓ} (less : A → A → Bool) where
  insert-All_inv {κ} :
      (P : A → Type κ) (x : A) (ys : List A) → All P (insert less x ys) → P x × All P ys
  unfolding insert
  insert-All_inv P x [] h = h
  insert-All_inv P x (y ∷ ys) h = elim (Bool-cases (less y x)) [
    | inl above ↦
        let h' = rw (above, insert) at h in
        let rest = insert-All_inv P x ys h'.1 in (rest.0, (h'.0, rest.1))
    | inr here ↦ rw (here, insert) at h
  ]

  pub sort-All_inv {κ} : (P : A → Type κ) (xs : List A) → All P (sort less xs) → All P xs
  unfolding sort
  sort-All_inv P [] h = tt
  sort-All_inv P (x ∷ xs) h =
      let rest = insert-All_inv P x (sort less xs) h in (rest.0, sort-All_inv P xs rest.1)

  mem_later : {z : A} (x y : A) (ys : List A) → Memᴰ z (x ∷ ys) → Memᴰ z (x ∷ y ∷ ys)
  mem_later x y ys (Memᴰ.head e) = Memᴰ.head e
  mem_later x y ys (Memᴰ.tail m) = Memᴰ.tail (Memᴰ.tail m)

  mem_behind :
      {z : A} (x y : A) (ys zs : List A)
      → (Memᴰ z zs → Memᴰ z (x ∷ ys))
      → Memᴰ z (y ∷ zs)
      → Memᴰ z (x ∷ y ∷ ys)
  mem_behind x y ys zs g (Memᴰ.head e) = Memᴰ.tail (Memᴰ.head e)
  mem_behind x y ys zs g (Memᴰ.tail m) = mem_later x y ys (g m)

  mem-insert : {z : A} (x : A) (ys : List A) → Memᴰ z (insert less x ys) → Memᴰ z (x ∷ ys)
  unfolding insert
  mem-insert x [] m = m
  mem-insert x (y ∷ ys) m = elim (Bool-cases (less y x)) [
    | inl above ↦
        mem_behind x y ys (insert less x ys) (λ n. mem-insert x ys n) (rw (above, insert) at m)
    | inr here ↦ rw (here, insert) at m
  ]

  mem_cons :
      {z x : A} {ys zs : List A} → (Memᴰ z zs → Memᴰ z ys) → Memᴰ z (x ∷ zs) → Memᴰ z (x ∷ ys)
  mem_cons g (Memᴰ.head e) = Memᴰ.head e
  mem_cons g (Memᴰ.tail m) = Memᴰ.tail (g m)

  pub mem-sort : {z : A} (xs : List A) → Memᴰ z (sort less xs) → Memᴰ z xs
  unfolding sort
  mem-sort [] m = m
  mem-sort (x ∷ xs) m = mem_cons (mem-sort xs) (mem-insert x (sort less xs) m)

-- What sort.SliceStable asks of its test.
pub record IsWeakOrder {ℓ} {A : Type ℓ} (less : A → A → Bool) : Type ℓ where
  pub asym : (a b : A) → less a b ≡ true → less b a ≡ false
  pub neg_trans : (a b c : A) → less b a ≡ false → less c b ≡ false → less c a ≡ false

module _ {ℓ} {A : Type ℓ} (less : A → A → Bool) (w : IsWeakOrder less) where
  All-above :
      (x y : A) (ys : List A)
      → less y x ≡ false
      → All (λ z. less z y ≡ false) ys
      → All (λ z. less z x ≡ false) ys
  All-above x y [] e h = tt
  All-above x y (z ∷ ys) e h = (w.neg_trans x y z e h.0, All-above x y ys e h.1)

  insert-IsSorted : (x : A) (ys : List A) → IsSorted less ys → IsSorted less (insert less x ys)
  unfolding insert
  insert-IsSorted x [] h = (tt, tt)
  insert-IsSorted x (y ∷ ys) h = elim (Bool-cases (less y x)) [
    | inl above ↦
        rw (above, insert)
          (
            insert-All less (λ z. less z y ≡ false) x ys (w.asym y x above) h.0,
            insert-IsSorted x ys h.1,
          )
    | inr here ↦ rw (here, insert) ((here, All-above x y ys here h.0), h)
  ]

  pub sort-IsSorted : (xs : List A) → IsSorted less (sort less xs)
  unfolding sort
  sort-IsSorted [] = tt
  sort-IsSorted (x ∷ xs) = insert-IsSorted x (sort less xs) (sort-IsSorted xs)

-- A list in order stays as it is.
module _ {ℓ} {A : Type ℓ} (less : A → A → Bool) where
  insert_first : (x : A) (ys : List A) → All (λ y. less y x ≡ false) ys → insert less x ys ≡ x ∷ ys
  unfolding insert
  insert_first x [] h = refl
  insert_first x (y ∷ ys) h = rw (h.0) refl

  pub sort_sorted : (xs : List A) → IsSorted less xs → sort less xs ≡ xs
  unfolding sort
  sort_sorted [] h = refl
  sort_sorted (x ∷ xs) h = ap (insert less x) (sort_sorted xs h.1) ∙ insert_first x xs h.0
