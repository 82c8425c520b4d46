-- ===== src/Config/Tests.antt =====
-- Configurations and records at which the checks of config/ run.
use gramophile.Prelude.{
  ℕ, pos, ◌-ℤ◌, ◌*ℤ◌, int64, String, true, false, none, some, List, [], ◌∷◌, ◌≡◌, refl, Memᴰ, All,
  any,
}
use gramophile.Status.{ok}
use gramophile.Layout.Types.{
  Sort, Density, GroupingType, GroupSpill, MissingWidthHandling, Organisation, GroupingElement,
}
use gramophile.Layout.Place.{Shelf, Round, place_all}
use gramophile.Layout.Build.{with_spill}
use gramophile.Layout.Load.{HasRoom}
use gramophile.Layout.Widths.{Width, widths, widths-laws}
use gramophile.Config.Types.{Filter, UserLevel, GramophileConfig, ConfigUser, ValidationStrategy}
use gramophile.Config.Mandates.{post_process_user, post_process_moving}
use gramophile.Config.Sound.{SoundShelves}
use gramophile.Config.Validate.{validate_config, validate_config-Sound, Mandated}
use gramophile.Config.Room.{validate_config-HasRoom}
use gramophile.Config.Apply.{CleanRecord, passes_filter, apply}

abbrev main : Organisation Width
main = record {
  name = "Main";
  foldersets = record { index = pos 1; folder = 5; sort = Sort.artist_year } ∷ [];
  spaces =
      record { name = "Left"; units = 2; width = some 10 }
      ∷ record { name = "Right"; units = 1; width = some 20 }
      ∷ [];
  density = Density.width;
  missing_width_handling = MissingWidthHandling.average;
  grouping = GroupingType.no_grouping;
  spill = record { type = GroupSpill.break_ordering; look_ahead = pos 2 };
}

abbrev no_filter : Filter
no_filter = record { formats = []; exclude_folder = []; include_folder = [] }

abbrev config : GramophileConfig Width
config = record {
  user_level = UserLevel.beta;
  cleaning = record {
    enabled = true;
    applies_to = no_filter;
    cleaning_gap_in_seconds = pos 0;
    cleaning_gap_in_plays = pos 3;
  };
  listen_enabled = false;
  width_enabled = true;
  arrived_enabled = false;
  weight_enabled = false;
  goal_folder_enabled = false;
  sales_enabled = false;
  handle_price_updates = false;
  update_frequency_seconds = pos 0;
  keep_enabled = false;
  sleeve_enabled = false;
  allowed_sleeves = [];
  wants_by_gramophile = false;
  wants_existing_unknown = false;
  organisations = main ∷ [];
  move_folders = "Shelf" ∷ [];
  moving_enabled = false;
  format_classifier = none;
  create_folders = true;
  validations = ValidationStrategy.listen_to_validate ∷ [];
}

abbrev user : ConfigUser Width
user = record {
  discogs_user_id = 7;
  folders = record { id = 5; name = "Shelf" } ∷ [];
  config = config;
}

-- The user's level takes the cleaning away.
abbrev checked : ConfigUser Width
checked = record user {
  config = record config { cleaning = record config.cleaning { enabled = false } };
}

accepted : validate_config ("Width" ∷ []) user ≡ some (ok (checked, "Listening Pile" ∷ []))
unfolding validate_config any
accepted = refl

validate_config-Sound_example :
    (post_process_moving (post_process_user config) ≡ some checked.config)
    × Mandated ("Width" ∷ []) (post_process_user config)
    × SoundShelves
        (post_process_user config).width_enabled
        user.folders
        (post_process_user config).organisations
validate_config-Sound_example =
    validate_config-Sound ("Width" ∷ []) user checked ("Listening Pile" ∷ []) accepted

abbrev one_width : GroupingElement Width → Width
one_width e = some e.id

abbrev text : ℕ → Width → Width → Width → String
text k a b c = "fill"

abbrev blocks : List (GroupingElement Width)
blocks = record { records = []; id = 6 } ∷ record { records = []; id = 9 } ∷ []

validate_config-HasRoom_example :
    (s : Shelf Width) × (place_all widths one_width text
        (λ k. 0)
        main.spill
        (with_spill widths main.spaces)
        blocks
      ≡ Round.finished s)
    × All (HasRoom widths s.placements) (with_spill widths main.spaces)
unfolding post_process_user
validate_config-HasRoom_example =
    validate_config-HasRoom widths widths-laws (λ x. refl) ("Width" ∷ []) user checked
      ("Listening Pile" ∷ []) accepted main (Memᴰ.head refl) (refl, (refl, tt)) (refl, (refl, tt))
      one_width text (λ k. 0) blocks

abbrev played : List ℕ → CleanRecord
played issues = record {
  folder_id = 5;
  formats = "Vinyl" ∷ [];
  last_clean_time = 0;
  num_plays = pos 9;
  issues = issues;
}

-- The issue is added again with each run.
added_twice : (apply 10 config (apply 10 config (played []))).issues ≡ 0 ∷ 0 ∷ []
unfolding apply any ◌-ℤ◌ ◌*ℤ◌ int64
added_twice = refl

abbrev two_folders : Filter
two_folders = record { formats = []; exclude_folder = 9 ∷ []; include_folder = 5 ∷ 6 ∷ [] }

-- With two folders to include no record passes.
two_included : passes_filter two_folders (played []) ≡ false
unfolding passes_filter any
two_included = refl
