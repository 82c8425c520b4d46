-- ===== src/Config/Types.antt =====
-- What config/ and moving/ read of a user's configuration, proto/config.proto, organisation.proto and
-- moving.proto. A message that is not set reads as an empty one; `Enabled` is true for
-- ENABLED_ENABLED.
use gramophile.Prelude.{ℕ, ℤ, String, Bool, List, Option}
use gramophile.Layout.Types.{Organisation}

pub record Folder : Type 0 where
  pub id : ℕ
  pub name : String

pub record Filter : Type 0 where
  pub formats : List String
  pub exclude_folder : List ℕ
  pub include_folder : List ℕ

pub record CleaningConfig : Type 0 where
  pub enabled : Bool
  pub applies_to : Filter
  pub cleaning_gap_in_seconds : ℤ
  pub cleaning_gap_in_plays : ℤ

-- USER_LEVEL_OMNIPOTENT, USER_LEVEL_BETA and the others.
pub data UserLevel : Type 0 where
  omnipotent beta standard : UserLevel

pub data ValidationStrategy : Type 0 where
  listen_to_validate move_to_validate other_strategy : ValidationStrategy

pub record FormatSelector : Type 0 where
  pub format : String
  pub description : List String
  pub contains : List String
  pub order : ℕ

-- The configuration; `format_classifier` is a message of the moving rules that may not be set.
pub record GramophileConfig (W : Type 0) : Type 0 where
  pub user_level : UserLevel
  pub cleaning : CleaningConfig
  pub listen_enabled : Bool
  pub width_enabled : Bool
  pub arrived_enabled : Bool
  pub weight_enabled : Bool
  pub goal_folder_enabled : Bool
  pub sales_enabled : Bool
  pub handle_price_updates : Bool
  pub update_frequency_seconds : ℤ
  pub keep_enabled : Bool
  pub sleeve_enabled : Bool
  pub allowed_sleeves : List String
  pub wants_by_gramophile : Bool
  pub wants_existing_unknown : Bool
  pub organisations : List (Organisation W)
  pub move_folders : List String
  pub moving_enabled : Bool
  pub format_classifier : Option (List FormatSelector)
  pub create_folders : Bool
  pub validations : List ValidationStrategy

pub record ConfigUser (W : Type 0) : Type 0 where
  pub discogs_user_id : ℕ
  pub folders : List Folder
  pub config : GramophileConfig W
