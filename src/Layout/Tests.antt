-- ===== src/Layout/Tests.antt =====
-- Layouts on shelves by org/org.go at concrete records, with widths that are numbers or unbounded.
use gramophile.Prelude.{
  ℕ, pos, negsuc, ◌+◌, String, true, none, some, List, [], ◌∷◌, map, ◌≡◌, refl, All, Perm, any,
  sort, arith,
}
use gramophile.Org.Types.{Placement}
use gramophile.Org.Diff.{range_from}
use gramophile.Layout.Keys.{sort_labels}
use gramophile.Layout.Types.{
  Disc, Sort, Density, GroupingType, GroupSpill, MissingWidthHandling, FolderSet, Space, Spill,
  Organisation, SortingElement, GroupingElement,
}
use gramophile.Layout.Sorting.{ordered_records}
use gramophile.Layout.Groups.{flatten, fit_groups, elements_of, multipliers}
use gramophile.Layout.Place.{Shelf, Round, place_all}
use gramophile.Layout.Build.{Env, snapshot_records, order_records, elements}
use gramophile.Layout.Load.{HasRoom}
use gramophile.Layout.Widths.{Width, widths, widths-laws}
use gramophile.Layout.Placed.{place_all-places, has_element, has_id}
use gramophile.Layout.Sequence.{place_all_in_order, positions, numbers}
use gramophile.Layout.Grouping.{flatten-elements, discs}
use gramophile.Layout.Capacity.{place_all-HasRoom}
use gramophile.Layout.Complete.{ordered_records-perm, all_members, reached}
use gramophile.Layout.Snapshot.{snapshot_records_in_order, record_numbers}

abbrev disc : ℕ → ℕ → ℕ → Disc Width
disc iid folder added = record {
  iid = iid;
  folder_id = folder;
  date_added = added;
  release_date = 0;
  earliest_release_date = 0;
  width = some iid;
  sleeve = "";
  formats = [];
  labels = [];
  artists = "The Fall" ∷ [];
}

abbrev block : ℕ → GroupingElement Width
block iid = record { records = disc iid 1 0 ∷ []; id = iid }

abbrev shelves : List (Space Width)
shelves =
    record { name = "Shelf"; units = 2; width = some 10 }
    ∷ record { name = "Spill"; units = 1; width = none }
    ∷ []

abbrev one_width : GroupingElement Width → Width
one_width e = some e.id

abbrev text : ℕ → Width → Width → Width → String
text k a b c = "fill"

abbrev spills : Spill
spills = record { type = GroupSpill.break_ordering; look_ahead = pos 2 }

abbrev keeps : Spill
keeps = record { type = GroupSpill.no_spill; look_ahead = pos 0 }

abbrev laid : Spill → List (GroupingElement Width) → Round Width
laid spill es = place_all widths one_width text (λ k. 0) spill shelves es

abbrev where_is : Placement Width → ℕ × String × ℕ
where_is p = (p.iid, p.space, p.unit)

abbrev whereabouts : Round Width → List (ℕ × String × ℕ)
whereabouts (Round.finished s) = map where_is s.placements
whereabouts r = []

-- Element 4 fills up the first unit behind block 6.
filled_up :
    whereabouts (laid spills (block 6 ∷ block 9 ∷ block 4 ∷ block 8 ∷ []))
    ≡ (6, "Shelf", 1) ∷ (4, "Shelf", 1) ∷ (9, "Shelf", 2) ∷ (8, "Spill", 1) ∷ []
unfolding place_all
filled_up = refl

-- Element 2, which filled up the first unit, is laid out once more in the second.
placed_twice :
    whereabouts (laid spills (block 6 ∷ block 7 ∷ block 8 ∷ block 2 ∷ []))
    ≡ (6, "Shelf", 1) ∷ (2, "Shelf", 1) ∷ (7, "Shelf", 2) ∷ (2, "Shelf", 2) ∷ (8, "Spill", 1) ∷ []
unfolding place_all
placed_twice = refl

place_all-places_example :
    (s : Shelf Width) × (laid spills (block 6 ∷ block 9 ∷ block 4 ∷ []) ≡ Round.finished s)
    × ((k : ℕ)
        → has_element k (block 6 ∷ block 9 ∷ block 4 ∷ []) ≡ true
        → has_id k s.placements ≡ true)
place_all-places_example =
    place_all-places widths one_width text (λ k. 0) spills shelves
      (block 6 ∷ block 9 ∷ block 4 ∷ []) (omega arith, (refl, refl, λ x. refl))

place_all_in_order_example :
    (s : Shelf Width) × (laid keeps (block 6 ∷ block 9 ∷ block 4 ∷ []) ≡ Round.finished s)
    × (positions s.placements ≡ numbers 0 (block 6 ∷ block 9 ∷ block 4 ∷ []))
unfolding any
place_all_in_order_example =
    place_all_in_order widths one_width text (λ k. 0) keeps refl shelves
      (block 6 ∷ block 9 ∷ block 4 ∷ []) (refl, (refl, (refl, tt)))
      (omega arith, (refl, refl, λ x. refl))

place_all-HasRoom_example :
    (s : Shelf Width) × (laid spills (block 6 ∷ block 9 ∷ block 4 ∷ []) ≡ Round.finished s)
    × All (HasRoom widths s.placements) shelves
place_all-HasRoom_example =
    place_all-HasRoom widths widths-laws one_width text (λ k. 0) shelves ((refl, tt), (tt, tt))
      spills (block 6 ∷ block 9 ∷ block 4 ∷ []) (omega arith, (refl, refl, λ x. refl))
      (refl, (refl, tt))

abbrev first_set : FolderSet
first_set = record { index = pos 1; folder = 1; sort = Sort.addition_date }

abbrev second_set : FolderSet
second_set = record { index = pos 2; folder = 2; sort = Sort.addition_date }

abbrev discs_of_two : List (Disc Width)
discs_of_two = disc 3 2 5 ∷ disc 4 1 7 ∷ disc 5 1 2 ∷ []

abbrev no_keys : ℕ → String
no_keys k = ""

abbrev order_of_two : List (SortingElement Width)
order_of_two = ordered_records no_keys no_keys (second_set ∷ first_set ∷ []) discs_of_two

-- The first set's records come first, by the date they were added.
by_index : map (λ e. e.disc.iid) order_of_two ≡ 5 ∷ 4 ∷ 3 ∷ []
unfolding ordered_records range_from sort
by_index = refl

-- The loop starts at index 0, so a set of negative index is left out.
abbrev lost_set : FolderSet
lost_set = record { index = negsuc 0; folder = 1; sort = Sort.addition_date }

ordered_records-perm_example :
    Perm
      (ordered_records no_keys no_keys (second_set ∷ lost_set ∷ []) discs_of_two)
      (all_members no_keys no_keys (reached (second_set ∷ lost_set ∷ [])) discs_of_two)
ordered_records-perm_example =
    ordered_records-perm no_keys no_keys (second_set ∷ lost_set ∷ []) discs_of_two

abbrev outside : Env Width
outside = record {
  float = widths;
  to_lower = λ s. s;
  artist_sort = λ s. none;
  stamp = λ k. 100 + k;
  now = 7;
  describe = text;
  hash_of = λ ps. "hash";
}

abbrev collection : GroupingType → Organisation Width
collection g = record {
  name = "Main";
  foldersets = second_set ∷ first_set ∷ [];
  spaces = record { name = "Shelf"; units = 2; width = some 10 } ∷ [];
  density = Density.width;
  missing_width_handling = MissingWidthHandling.average;
  grouping = g;
  spill = keeps;
}

flatten-elements_example :
    flatten (elements outside (collection GroupingType.group) [] [] order_of_two).0
    ≡ discs order_of_two
flatten-elements_example =
    flatten-elements outside (collection GroupingType.group) [] [] order_of_two

snapshot_records_in_order_example :
    (ps : List (Placement Width)) × (snapshot_records outside
        (collection GroupingType.no_grouping)
        []
        []
        discs_of_two
      ≡ some (record { date = 7; placements = map (λ p. some p) ps; hash = "hash"; name = "" }))
    × (positions ps
        ≡ record_numbers 1
            (discs (order_records outside (collection GroupingType.no_grouping) [] discs_of_two)))
unfolding elements order_records any fit_groups elements_of ordered_records range_from sort
    sort_labels multipliers
snapshot_records_in_order_example =
    snapshot_records_in_order outside (λ x. refl) (collection GroupingType.no_grouping) [] []
      discs_of_two refl (refl, (refl, (refl, tt)))
