-- ===== src/Layout/Keys.antt =====
-- The text keys of a record in org/org.go. `to_lower` is strings.ToLower; `artist_sort` is the answer
-- of the kubebrainz service, `none` where the call fails.
use Prim.Native.Char.{code}
use Prim.Native.String.{◌++◌}
use gramophile.Prelude.{
  ℕ, leb, eqb, String, Bool, ◌&&◌, ◌||◌, Option, none, some, List, [], ◌∷◌, if◌then◌else◌, sort,
  codes, lex_less, less_by, sprint,
}
use gramophile.Layout.Types.{Float, Label, LabelWeight, Disc}

-- strings.HasPrefix, with what follows the prefix.
unfoldable pub strip_prefix : String → String → Option String
strip_prefix String.[] s = some s
strip_prefix (String.◌∷◌ c p) String.[] = none
strip_prefix (String.◌∷◌ c p) (String.◌∷◌ d s) =
    if eqb (code c) (code d) then strip_prefix p s else none

abbrev pub is_alphanumeric : ℕ → Bool
is_alphanumeric c = leb b'0' c && leb c b'9' || leb b'a' c && leb c b'z' || leb b'A' c && leb c b'Z'

-- Without what `[^0-9a-zA-Z]+` matches.
unfoldable pub clean_cat_no : String → String
clean_cat_no String.[] = ""
clean_cat_no (String.◌∷◌ c s) =
    let rest = clean_cat_no s in if is_alphanumeric (code c) then String.◌∷◌ c rest else rest

module _ (artist_sort : String → Option String) where
  -- The last resort: "The Fall" is "Fall, The".
  unfoldable pub basic_artist : String → String
  unfolding strip_prefix
  basic_artist name = elim (strip_prefix "The " name) [ none ↦ name | some rest ↦ rest ++ ", The" ]

  unfoldable pub get_artist_year : {W : Type 0} → Disc W → String
  unfolding basic_artist
  get_artist_year r = elim r.artists [
    | [] ↦ "Various Artists"
    | name ∷ more ↦ elim (artist_sort name) [ some s ↦ s | none ↦ basic_artist name ]
  ]

module _ {W : Type 0} (float : Float W) (to_lower : String → String) where
  -- The inner loop over the weights.
  unfoldable pub weigh : Label → List (LabelWeight W) → Label × W → Label × W
  weigh label [] best = best
  weigh label (w ∷ ws) best =
      weigh label ws
        (if eqb w.label_id label.id && float.gt w.weight best.1 then (label, w.weight) else best)

  unfoldable pub best_of : List (LabelWeight W) → List Label → Label × W → Label × W
  unfolding weigh
  best_of ws [] best = best
  best_of ws (label ∷ labels) best = best_of ws labels (weigh label ws best)

  unfoldable pub get_label : List (LabelWeight W) → Disc W → String
  unfolding best_of
  get_label ws r = elim r.labels [
    | [] ↦ ""
    | first ∷ labels ↦ to_lower (best_of ws labels (first, float.half)).0.name
  ]

  -- getLabelCatno sorts the labels of the release where they are.
  unfoldable pub sort_labels : Disc W → Disc W
  sort_labels r = record r {
    labels = sort (less_by (λ l. codes (to_lower l.name)) lex_less) r.labels;
  }

  unfoldable pub get_label_catno : List (LabelWeight W) → Disc W → String
  unfolding best_of clean_cat_no sort_labels
  get_label_catno ws r = elim (sort_labels r).labels [
    | [] ↦ ""
    | first ∷ labels ↦
        let best = (best_of ws labels (first, float.half)).0 in
        to_lower (sprint (best.name ∷ "-" ∷ clean_cat_no best.catno ∷ []))
  ]
