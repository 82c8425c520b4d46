-- ===== src/Layout/Build.antt =====
-- BuildSnapshot of org/org.go. What it takes from other packages is the record `Env`: float32, the
-- fmt and strings functions, the kubebrainz service, the clock and the hash.
use gramophile.Prelude.{
  ℕ, suc, ◌+◌, ltb, String, Bool, Option, none, some, List, [], ◌∷◌, ◌++◌, map, put_at, sort,
  sprint, show,
}
use gramophile.Status.{Result, ok, err}
use gramophile.Org.Types.{Placement, OrganisationSnapshot}
use gramophile.Layout.Types.{
  Float, LabelWeight, Disc, Space, Sleeve, Organisation, SortingElement, GroupingElement,
}
use gramophile.Layout.Sorting.{ordered_records}
use gramophile.Layout.Keys.{get_artist_year, get_label, get_label_catno, sort_labels}
use gramophile.Layout.Groups.{elements_of, fit_groups, default_width, get_width, multipliers}
use gramophile.Layout.Place.{Round, place_all}

pub record Env (W : Type 0) : Type 0 where
  pub float : Float W
  pub to_lower : String → String
  pub artist_sort : String → Option String
  pub stamp : ℕ → ℕ
  pub now : ℕ
  pub describe : ℕ → W → W → W → String
  pub hash_of : List (Placement W) → String

module _ {W : Type 0} where
  -- getRecords: the loads run at once, and any that fails fails them all. The error is here that of
  -- the first by index.
  unfoldable pub load_all : (ℕ → Result (Disc W)) → List ℕ → Result (List (Disc W))
  load_all load [] = ok []
  load_all load (k ∷ ks) = elim (load k) [
    | err e ↦ err (record e {
      message = sprint ("unable to load record " ∷ show k ∷ " -> " ∷ e.message ∷ []);
    })
    | ok r ↦ elim (load_all load ks) [ err e ↦ err e | ok rs ↦ ok (r ∷ rs) ]
  ]

  unfoldable pub get_records : Result (List ℕ) → (ℕ → Result (Disc W)) → Result (List (Disc W))
  unfolding load_all
  get_records (err e) load =
      err (record e { message = sprint ("Unable to load record ids: " ∷ e.message ∷ []) })
  get_records (ok ids) load = load_all load ids

  -- A map by instance id, where the last entry counts.
  unfoldable pub text_map : (Disc W → String) → List (Disc W) → (ℕ → String) → ℕ → String
  text_map f [] m = m
  text_map f (r ∷ rs) m = text_map f rs (put_at r.iid (f r) m)

  -- `ogMap`: the place of each record in the order, counted from `i`.
  unfoldable pub original_map : ℕ → List (SortingElement W) → (ℕ → ℕ) → ℕ → ℕ
  original_map i [] m = m
  original_map i (e ∷ es) m = original_map (suc i) es (put_at e.disc.iid i m)

  -- `ordMap`: the records of an element by its id.
  unfoldable pub records_of : List (GroupingElement W) → (ℕ → List (Disc W)) → ℕ → List (Disc W)
  records_of [] m = m
  records_of (e ∷ es) m = records_of es (put_at e.id e.records m)

  -- A placement for each record of an element, with the indices from that of the element on.
  unfoldable pub expand_one :
      (Disc W → W) → (ℕ → ℕ) → Placement W → ℕ → List (Disc W) → List (Placement W)
  expand_one width original p ri [] = []
  expand_one width original p ri (r ∷ rs) =
      record {
        iid = r.iid;
        unit = p.unit;
        index = p.index + ri;
        space = p.space;
        width = width r;
        original_index = original r.iid;
        observations = p.observations;
        sort_key = "";
      }
      ∷ expand_one width original p (suc ri) rs

  unfoldable pub expand :
      (Disc W → W) → (ℕ → ℕ) → (ℕ → List (Disc W)) → List (Placement W) → List (Placement W)
  unfolding expand_one
  expand width original records [] = []
  expand width original records (p ∷ ps) =
      expand_one width original p 0 (records p.iid) ++ expand width original records ps

  -- The spill slot at the end of the spaces.
  abbrev pub with_spill : Float W → List (Space W) → List (Space W)
  with_spill float spaces =
      spaces ++ record { name = "Spill"; units = 1; width = float.largest } ∷ []

  abbrev pub index_less : Placement W → Placement W → Bool
  index_less p q = ltb p.index q.index

module _ {W : Type 0} (env : Env W) where
  -- The records in their order, with their sort keys.
  unfoldable pub order_records :
      Organisation W → List (LabelWeight W) → List (Disc W) → List (SortingElement W)
  unfolding text_map
  order_records org weights all =
      ordered_records (text_map (get_artist_year env.artist_sort) all (λ k. ""))
        (text_map (get_label_catno env.float env.to_lower weights) all (λ k. "")) org.foldersets
        (map (sort_labels env.float env.to_lower) all)

  -- The elements to lay out, and the width of a list of records.
  unfoldable pub elements :
      Organisation W
      → List (LabelWeight W)
      → List (Sleeve W)
      → List (SortingElement W)
      → List (GroupingElement W) × (List (Disc W) → W)
  elements org weights sleeves ordered =
      let es =
        elements_of (get_label env.float env.to_lower weights) env.stamp org.grouping ordered in
      let multiplier = multipliers env.float sleeves (λ s. env.float.of_ℕ 0) in
      let missing = default_width env.float org.missing_width_handling es in
      (
        fit_groups env.float multiplier missing org.density (with_spill env.float org.spaces) es,
        get_width env.float multiplier missing org.density,
      )

  -- From the laid out elements to the snapshot; `none` is a panic.
  unfoldable pub snapshot_of :
      (ℕ → ℕ)
      → List (GroupingElement W)
      → (List (Disc W) → W)
      → Round W
      → Option (OrganisationSnapshot W)
  unfolding expand records_of
  snapshot_of original es width (Round.finished s) =
      let ps =
        sort index_less
          (expand (λ r. width (r ∷ [])) original (records_of es (λ k. [])) s.placements) in
      some (record {
        date = env.now;
        placements = map (λ p. some p) ps;
        hash = env.hash_of ps;
        name = "";
      })
  snapshot_of original es width (Round.goes_on s) = none
  snapshot_of original es width Round.out_of_range = none
  snapshot_of original es width Round.out_of_fuel = none

  -- The layout of the records that are loaded.
  unfoldable pub snapshot_records :
      Organisation W
      → List (LabelWeight W)
      → List (Sleeve W)
      → List (Disc W)
      → Option (OrganisationSnapshot W)
  unfolding order_records elements snapshot_of original_map
  snapshot_records org weights sleeves all =
      let ordered = order_records org weights all in
      let original = original_map 0 ordered (λ k. 0) in
      let (es, width) = elements org weights sleeves ordered in
      snapshot_of original es width (
        place_all env.float (λ e. width e.records) env.describe original org.spill
          (with_spill env.float org.spaces) es)

  -- `ids` and `load` are GetRecords and GetRecord of the database for the user.
  unfoldable pub build_snapshot :
      Organisation W
      → List (LabelWeight W)
      → List (Sleeve W)
      → Result (List ℕ)
      → (ℕ → Result (Disc W))
      → Option (Result (OrganisationSnapshot W))
  unfolding get_records snapshot_records
  build_snapshot org weights sleeves ids load = elim (get_records ids load) [
    | err e ↦
        some (err (record e { message = sprint ("unable to load records: " ∷ e.message ∷ []) }))
    | ok all ↦ elim (snapshot_records org weights sleeves all) [
      | none ↦ none
      | some s ↦ some (ok s)
    ]
  ]
