-- ===== src/Layout/Complete.antt =====
-- The order of the records in org/org.go takes each record once for each folder set it is in.
use mathlib.Core.List.{append_assoc, append-nil, Perm}
use mathlib.Core.List.Perm
use gramophile.Prelude.{
  ℕ, zero, suc, ℤ, pos, negsuc, pos_part, eqb_ℤ, ltb_ℤ, leb_ℤ, ◌⊎◌, ◌+◌, ◌≤◌, ◌<◌, eqb, true, false,
  List, [], ◌∷◌, ◌++◌, ◌≡◌, inl, inr, refl, sym, ap, ◌∙◌, subst, map, select, Bool-cases, arith,
  String, if◌then◌else◌, All, sort-perm,
}
use gramophile.Org.Diff.{range_from}
use gramophile.Org.Counting.{append-perm}
use gramophile.Layout.Types.{Disc, FolderSet, SortingElement}
use gramophile.Layout.Sorting.{
  element, in_folder, at_index, sorted_index, in_order, ordered_records, max_index,
}

middle_swap {ℓ} :
    {A : Type ℓ} (a b c d : List A) → Perm ((a ++ b) ++ (c ++ d)) ((a ++ c) ++ (b ++ d))
middle_swap a b c d =
    subst (λ z. Perm z ((a ++ c) ++ (b ++ d))) (sym (append_assoc a b (c ++ d)))
      (subst (λ z. Perm (a ++ (b ++ (c ++ d))) z) (sym (append_assoc a c (b ++ d)))
        (Perm.append_left a (
          subst (λ z. Perm z (c ++ (b ++ d))) (append_assoc b c d)
            (subst (λ z. Perm ((b ++ c) ++ d) z) (append_assoc c b d)
              (Perm.append_right d (append-perm b c))))))

max_index-bound :
    (m : ℕ) (fs : List FolderSet)
    → (m ≤ max_index m fs) × All (λ f. pos_part f.index < suc (max_index m fs)) fs
unfolding max_index
max_index-bound m [] = (omega arith, tt)
max_index-bound m (f ∷ fs) =
    let rest = max_index-bound (if ltb_ℤ (pos m) f.index then pos_part f.index else m) fs in
    (ground (arith, rest.0), (ground (arith, rest.0), rest.1))

ℤ-cases : (z : ℤ) → ((k : ℕ) × (z ≡ pos k)) ⊎ ((k : ℕ) × (z ≡ negsuc k))
ℤ-cases (pos k) = inl (k, refl)
ℤ-cases (negsuc k) = inr (k, refl)

-- The sets that the loop from index 0 reaches.
unfoldable pub reached : List FolderSet → List FolderSet
reached fs = select (λ (f : FolderSet). leb_ℤ (pos 0) f.index) fs

module _ {W : Type 0} (artist_key label_key : ℕ → String) where
  -- A folder set with each record of its folder, in any order.
  unfoldable pub members : FolderSet → List (Disc W) → List (SortingElement W)
  members f rs = map (element artist_key label_key f) (select (λ r. eqb r.folder_id f.folder) rs)

  unfoldable pub all_members : List FolderSet → List (Disc W) → List (SortingElement W)
  unfolding members
  all_members [] rs = []
  all_members (f ∷ fs) rs = members f rs ++ all_members fs rs

  -- What `in_order` takes, unsorted.
  unfoldable merged : List ℕ → List FolderSet → List (Disc W) → List (SortingElement W)
  unfolding at_index
  merged [] fs rs = []
  merged (i ∷ is) fs rs = at_index artist_key label_key i fs rs ++ merged is fs rs

  in_order-perm :
      (is : List ℕ) (fs : List FolderSet) (rs : List (Disc W))
      → Perm (in_order artist_key label_key is fs rs) (merged is fs rs)
  unfolding in_order merged sorted_index
  in_order-perm [] fs rs = Perm.rfl
  in_order-perm (i ∷ is) fs rs = Perm.append (sort-perm _ _) (in_order-perm is fs rs)

  merged-none : (is : List ℕ) (rs : List (Disc W)) → merged is [] rs ≡ []
  unfolding merged at_index
  merged-none [] rs = refl
  merged-none (i ∷ is) rs = merged-none is rs

  -- One folder set at the front, apart from the others.
  merged-cons :
      (is : List ℕ) (f : FolderSet) (fs : List FolderSet) (rs : List (Disc W))
      → Perm (merged is (f ∷ fs) rs) (merged is (f ∷ []) rs ++ merged is fs rs)
  unfolding merged at_index
  merged-cons [] f fs rs = Perm.rfl
  merged-cons (i ∷ is) f fs rs =
      let a = in_folder artist_key label_key i f rs in
      let b = at_index artist_key label_key i fs rs in
      let alone = append-nil a in
      subst
        (λ z.
          Perm ((a ++ b) ++ merged is (f ∷ fs) rs)
            ((z ++ merged is (f ∷ []) rs) ++ (b ++ merged is fs rs)))
        (sym alone)
        (Perm.trans (Perm.append_left (a ++ b) (merged-cons is f fs rs))
          (middle_swap a b (merged is (f ∷ []) rs) (merged is fs rs)))

  in_folder-other :
      (i : ℕ) (f : FolderSet) (rs : List (Disc W))
      → eqb_ℤ f.index (pos i) ≡ false
      → in_folder artist_key label_key i f rs ≡ []
  unfolding in_folder
  in_folder-other i f [] h = refl
  in_folder-other i f (r ∷ rs) h = elim (Bool-cases (eqb r.folder_id f.folder)) [
    | inl here ↦ rw (here, h) (in_folder-other i f rs h)
    | inr there ↦ rw (there) (in_folder-other i f rs h)
  ]

  in_folder-members :
      (f : FolderSet) (rs : List (Disc W)) (i : ℕ)
      → eqb_ℤ f.index (pos i) ≡ true
      → in_folder artist_key label_key i f rs ≡ members f rs
  unfolding in_folder members select
  in_folder-members f [] i same = refl
  in_folder-members f (r ∷ rs) i same = elim (Bool-cases (eqb r.folder_id f.folder)) [
    | inl here ↦
        rw (here, same)
          (ap (λ z. element artist_key label_key f r ∷ z) (in_folder-members f rs i same))
    | inr there ↦ rw (there) (in_folder-members f rs i same)
  ]

  -- A folder set is taken once, at its index, and not at all if that is negative.
  merged-before :
      (i n k : ℕ) (f : FolderSet) (rs : List (Disc W))
      → f.index ≡ pos k
      → k < i
      → merged (range_from i n) (f ∷ []) rs ≡ []
  unfolding merged range_from at_index
  merged-before i zero k f rs e l = refl
  merged-before i (suc n) k f rs e l =
      ap (λ z. (z ++ []) ++ merged (range_from (suc i) n) (f ∷ []) rs)
        (in_folder-other i f rs (rw (e) (ground (arith, l))))
      ∙ merged-before (suc i) n k f rs e (omega (arith, l))

  merged-negative :
      (i n k : ℕ) (f : FolderSet) (rs : List (Disc W))
      → f.index ≡ negsuc k
      → merged (range_from i n) (f ∷ []) rs ≡ []
  unfolding merged range_from at_index
  merged-negative i zero k f rs e = refl
  merged-negative i (suc n) k f rs e =
      ap (λ z. (z ++ []) ++ merged (range_from (suc i) n) (f ∷ []) rs)
        (in_folder-other i f rs (rw (e) (ground arith)))
      ∙ merged-negative (suc i) n k f rs e

  merged-once :
      (i n k : ℕ) (f : FolderSet) (rs : List (Disc W))
      → f.index ≡ pos k
      → i ≤ k
      → k < i + n
      → merged (range_from i n) (f ∷ []) rs ≡ members f rs
  unfolding merged range_from at_index
  merged-once i zero k f rs e l u = absurd (omega (arith, l, u))
  merged-once i (suc n) k f rs e l u = elim (Bool-cases (eqb k i)) [
    | inl here ↦
        ap (λ z. (in_folder artist_key label_key i f rs ++ []) ++ z)
          (merged-before (suc i) n k f rs e (ground (arith, here)))
        ∙ append-nil _
        ∙ append-nil _
        ∙ in_folder-members f rs i (rw (e) (ground (arith, here)))
    | inr there ↦
        ap (λ z. (z ++ []) ++ merged (range_from (suc i) n) (f ∷ []) rs)
          (in_folder-other i f rs (rw (e) (ground (arith, there))))
        ∙ merged-once (suc i) n k f rs e (ground (arith, there, l)) (omega (arith, u))
  ]

  merged-all :
      (n : ℕ) (fs : List FolderSet) (rs : List (Disc W))
      → All (λ f. pos_part f.index < n) fs
      → Perm (merged (range_from 0 n) fs rs) (all_members (reached fs) rs)
  unfolding all_members reached select
  merged-all n [] rs h = subst (λ z. Perm z []) (sym (merged-none (range_from 0 n) rs)) Perm.rfl
  merged-all n (f ∷ fs) rs h = elim (ℤ-cases f.index) [
    | inl (k, e) ↦
        let bound : k < n = subst (λ z. pos_part z < n) e h.0 in
        let kept : leb_ℤ (pos 0) f.index ≡ true = rw (e) (ground arith) in
        rw (kept) (
          Perm.trans (merged-cons (range_from 0 n) f fs rs) (
            subst
              (λ z.
                Perm (z ++ merged (range_from 0 n) fs rs)
                  (members f rs ++ all_members (reached fs) rs))
              (sym (merged-once 0 n k f rs e (omega arith) (omega (arith, bound))))
              (Perm.append_left (members f rs) (merged-all n fs rs h.1))))
    | inr (k, e) ↦
        let dropped : leb_ℤ (pos 0) f.index ≡ false = rw (e) (ground arith) in
        rw (dropped) (
          Perm.trans (merged-cons (range_from 0 n) f fs rs) (
            subst (λ z. Perm (z ++ merged (range_from 0 n) fs rs) (all_members (reached fs) rs))
              (sym (merged-negative 0 n k f rs e)) (merged-all n fs rs h.1)))
  ]

  -- The order holds, for each folder set whose index is not negative and each record of its folder,
  -- that record with the set's sort and the record's keys, and nothing else.
  pub ordered_records-perm :
      (fs : List FolderSet) (rs : List (Disc W))
      → Perm (ordered_records artist_key label_key fs rs) (all_members (reached fs) rs)
  unfolding ordered_records
  ordered_records-perm fs rs =
      Perm.trans (in_order-perm (range_from 0 (suc (max_index 1 fs))) fs rs)
        (merged-all (suc (max_index 1 fs)) fs rs (max_index-bound 1 fs).1)
