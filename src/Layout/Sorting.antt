-- ===== src/Layout/Sorting.antt =====
-- The order of the records in org/org.go: the folder sets by index, each sorted by its key. The two
-- text keys of a record are handed over by its instance id.
use gramophile.Prelude.{
  ℕ, pos, suc, ltb, ltb_ℤ, eqb, eqb_ℤ, pos_part, String, Bool, true, false, not, ◌&&◌, List, [],
  ◌∷◌, ◌++◌, if◌then◌else◌, ◌==◌, sort, codes, lex_less, less_by, empty_last, ltb-IsWeakOrder,
  lex_less-IsWeakOrder, less_by-IsWeakOrder, empty_last-IsWeakOrder, IsWeakOrder, arith,
}
use gramophile.Org.Diff.{range_from}
use gramophile.Layout.Types.{Disc, Sort, FolderSet, SortingElement}

abbrev pub zero_last : ℕ → ℕ → Bool
zero_last = empty_last (λ v. eqb v 0) ltb

abbrev pub blank_last : String → String → Bool
blank_last = empty_last (λ s. s == "") (less_by codes lex_less)

module _ {W : Type 0} where
  abbrev pub by_addition : SortingElement W → SortingElement W → Bool
  by_addition = less_by (λ e. e.disc.date_added) zero_last

  abbrev pub by_artist : SortingElement W → SortingElement W → Bool
  by_artist = less_by (λ e. e.artist_year) blank_last

  abbrev pub by_label : SortingElement W → SortingElement W → Bool
  by_label = less_by (λ e. e.label_catno) blank_last

  abbrev pub by_release : SortingElement W → SortingElement W → Bool
  by_release = less_by (λ e. e.disc.release_date) zero_last

  -- Equal earliest dates are told apart by the release's own.
  abbrev pub by_earliest : SortingElement W → SortingElement W → Bool
  by_earliest a b =
      let v = a.disc.earliest_release_date in
      let w = b.disc.earliest_release_date in
      if eqb v 0 && not (eqb w 0)
      then false
      else if eqb w 0 && not (eqb v 0)
      then true
      else if eqb v w
      then by_release a b
      else ltb v w

  abbrev pub less_of : Sort → SortingElement W → SortingElement W → Bool
  less_of Sort.addition_date = by_addition
  less_of Sort.artist_year = by_artist
  less_of Sort.label_catno = by_label
  less_of Sort.release_year = by_release
  less_of Sort.earliest_release_year = by_earliest

  pub less_of-IsWeakOrder : (s : Sort) → IsWeakOrder (less_of s)
  less_of-IsWeakOrder Sort.addition_date =
      less_by-IsWeakOrder (λ e. e.disc.date_added) zero_last
        (empty_last-IsWeakOrder (λ v. eqb v 0) ltb ltb-IsWeakOrder)
  less_of-IsWeakOrder Sort.release_year =
      less_by-IsWeakOrder (λ e. e.disc.release_date) zero_last
        (empty_last-IsWeakOrder (λ v. eqb v 0) ltb ltb-IsWeakOrder)
  less_of-IsWeakOrder Sort.artist_year =
      less_by-IsWeakOrder (λ e. e.artist_year) blank_last
        (empty_last-IsWeakOrder (λ s. s == "") (less_by codes lex_less)
          (less_by-IsWeakOrder codes lex_less lex_less-IsWeakOrder))
  less_of-IsWeakOrder Sort.label_catno =
      less_by-IsWeakOrder (λ e. e.label_catno) blank_last
        (empty_last-IsWeakOrder (λ s. s == "") (less_by codes lex_less)
          (less_by-IsWeakOrder codes lex_less lex_less-IsWeakOrder))
  less_of-IsWeakOrder Sort.earliest_release_year = record {
    asym = λ a b h. ground arith;
    neg_trans = λ a b c h k. ground arith;
  }

-- `maxIndex`, from 1; a negative index is below it.
unfoldable pub max_index : ℕ → List FolderSet → ℕ
max_index m [] = m
max_index m (f ∷ fs) = max_index (if ltb_ℤ (pos m) f.index then pos_part f.index else m) fs

module _ {W : Type 0} where
  -- `s` after the two loops: the sort of the last record taken.
  unfoldable pub last_sort : Sort → List (SortingElement W) → Sort
  last_sort s [] = s
  last_sort s (e ∷ es) = last_sort e.sort es

module _ {W : Type 0} (artist_key label_key : ℕ → String) where
  abbrev pub element : FolderSet → Disc W → SortingElement W
  element f r = record {
    disc = r;
    sort = f.sort;
    artist_year = artist_key r.iid;
    label_catno = label_key r.iid;
  }

  -- The records of one folder set at index `i`.
  unfoldable pub in_folder : ℕ → FolderSet → List (Disc W) → List (SortingElement W)
  in_folder i f [] = []
  in_folder i f (r ∷ rs) =
      if eqb r.folder_id f.folder && eqb_ℤ f.index (pos i)
      then element f r ∷ in_folder i f rs
      else in_folder i f rs

  unfoldable pub at_index : ℕ → List FolderSet → List (Disc W) → List (SortingElement W)
  unfolding in_folder
  at_index i [] rs = []
  at_index i (f ∷ fs) rs = in_folder i f rs ++ at_index i fs rs

  unfoldable pub sorted_index : ℕ → List FolderSet → List (Disc W) → List (SortingElement W)
  unfolding at_index last_sort
  sorted_index i fs rs =
      let recs = at_index i fs rs in sort (less_of (last_sort Sort.artist_year recs)) recs

  unfoldable pub in_order : List ℕ → List FolderSet → List (Disc W) → List (SortingElement W)
  unfolding sorted_index
  in_order [] fs rs = []
  in_order (i ∷ is) fs rs = sorted_index i fs rs ++ in_order is fs rs

  -- `for index := 0; index <= maxIndex; index++`
  unfoldable pub ordered_records : List FolderSet → List (Disc W) → List (SortingElement W)
  unfolding in_order max_index
  ordered_records fs rs = in_order (range_from 0 (suc (max_index 1 fs))) fs rs
