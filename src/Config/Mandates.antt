-- ===== src/Config/Mandates.antt =====
-- The checks of config/ that ask for a field of the collection, and those of moving/config.go.
use gramophile.Prelude.{
  ℕ, ◌+◌, eqb, ltb_ℤ, eqb_ℤ, pos, String, Bool, true, false, not, ◌&&◌, Option, none, some, List,
  [], ◌∷◌, ◌++◌, ◌==◌, if◌then◌else◌, any, sprint, length,
}
use gramophile.Status.{Err, errorf, Code}
use gramophile.Config.Types.{Folder, UserLevel, FormatSelector, GramophileConfig, ConfigUser}

abbrev pub is_omnipotent : UserLevel → Bool
is_omnipotent UserLevel.omnipotent = true
is_omnipotent _ = false

-- Whether the collection has a field of the name.
abbrev pub has_field : String → List String → Bool
has_field name fields = any (λ f. f == name) fields

-- `Enabled` asks for a field.
unfoldable pub mandate : Bool → String → List String → Option Err
mandate enabled name fields =
    if enabled && not (has_field name fields)
    then some (errorf Code.failed_precondition (sprint ("Add a field called '" ∷ name ∷ "'" ∷ [])))
    else none

-- The first error of two checks.
abbrev pub or_else : Option Err → Option Err → Option Err
or_else none b = b
or_else (some e) b = some e

-- The folder of each move is one of the user's.
unfoldable pub moves_found : List Folder → List String → Option Err
moves_found folders [] = none
moves_found folders (m ∷ ms) =
    if any (λ f. f.name == m) folders
    then moves_found folders ms
    else some (
        errorf Code.invalid_argument
          (sprint ("Could not find " ∷ m ∷ " in organisation config" ∷ [])))

-- The default formats, in their order behind `existing` others.
abbrev pub default_formats : ℕ → List FormatSelector
default_formats existing =
    record {
      format = "12 Inch";
      description = [];
      contains = "12\"" ∷ "LP" ∷ [];
      order = existing + 1;
    }
    ∷ record { format = "7 Inch"; description = []; contains = "7\"" ∷ []; order = existing + 2 }
    ∷ record { format = "10 Inch"; description = []; contains = "10\"" ∷ []; order = existing + 3 }
    ∷ record { format = "CD"; description = "CD" ∷ []; contains = []; order = existing + 4 }
    ∷ record { format = "Digital"; description = "File" ∷ []; contains = []; order = existing + 5 }
    ∷ []

module _ {W : Type 0} where
  unfoldable pub validate_user : ConfigUser W → Option Err
  validate_user u =
      if is_omnipotent u.config.user_level && not (eqb u.discogs_user_id 150295)
      then some (
          errorf Code.failed_precondition "You are not allowed to set the user level to omnipotent")
      else none

  -- setToDefault on "cleaning_config.enabled", for all but the omnipotent.
  unfoldable pub post_process_user : GramophileConfig W → GramophileConfig W
  post_process_user c =
      if is_omnipotent c.user_level
      then c
      else record c { cleaning = record c.cleaning { enabled = false } }

  unfoldable pub validate_cleaning : List String → ConfigUser W → Option Err
  unfolding mandate
  validate_cleaning fields u =
      let c = u.config.cleaning in
      or_else (mandate c.enabled "Cleaned" fields) (
        if ltb_ℤ (pos 0) c.cleaning_gap_in_plays && ltb_ℤ (pos 0) c.cleaning_gap_in_seconds
        then some (errorf Code.unknown "You must set one of plays or seconds, not both")
        else none)

  unfoldable pub validate_listen : List String → ConfigUser W → Option Err
  unfolding mandate
  validate_listen fields u = mandate u.config.listen_enabled "LastListenDate" fields

  unfoldable pub validate_width : List String → ConfigUser W → Option Err
  unfolding mandate
  validate_width fields u = mandate u.config.width_enabled "Width" fields

  unfoldable pub validate_arrived : List String → ConfigUser W → Option Err
  unfolding mandate
  validate_arrived fields u = mandate u.config.arrived_enabled "Arrived" fields

  unfoldable pub validate_weight : List String → ConfigUser W → Option Err
  unfolding mandate
  validate_weight fields u = mandate u.config.weight_enabled "Weight" fields

  unfoldable pub validate_goal_folder : List String → ConfigUser W → Option Err
  unfolding mandate
  validate_goal_folder fields u = mandate u.config.goal_folder_enabled "Goal Folder" fields

  unfoldable pub validate_sales : List String → ConfigUser W → Option Err
  unfolding mandate
  validate_sales fields u = or_else (mandate u.config.sales_enabled "LastSaleUpdate" fields) (
      if u.config.handle_price_updates && eqb_ℤ u.config.update_frequency_seconds (pos 0)
      then some (
          errorf Code.failed_precondition
            "You must set the update frequency field if gramophile is handling price updates")
      else none)

  unfoldable pub validate_keep : List String → ConfigUser W → Option Err
  unfolding mandate
  validate_keep fields u = mandate u.config.keep_enabled "Keep" fields

  unfoldable pub validate_wants : ConfigUser W → Option Err
  validate_wants u =
      if u.config.wants_by_gramophile && u.config.wants_existing_unknown
      then some (errorf Code.failed_precondition "You must set an existing move")
      else none

  unfoldable pub validate_sleeve : List String → ConfigUser W → Option Err
  unfolding mandate
  validate_sleeve fields u = or_else (mandate u.config.sleeve_enabled "Sleeve" fields) (
      if u.config.sleeve_enabled && eqb (length u.config.allowed_sleeves) 0
      then some (errorf Code.failed_precondition "you must set at least one sleeve")
      else none)

  unfoldable pub validate_moving : ConfigUser W → Option Err
  unfolding moves_found
  validate_moving u = moves_found u.folders u.config.move_folders

  -- `none` is a panic: the formats are appended to a message that is not set.
  unfoldable pub post_process_moving : GramophileConfig W → Option (GramophileConfig W)
  post_process_moving c =
      if c.moving_enabled
      then elim c.format_classifier [
        | none ↦ none
        | some formats ↦
            some
              (record c { format_classifier = some (formats ++ default_formats (length formats)) })
      ]
      else some c
