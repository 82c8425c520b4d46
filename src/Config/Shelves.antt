-- ===== src/Config/Shelves.antt =====
-- The checks of the organisations, config/organisation.go and the start of ValidateConfig in
-- config/config.go.
use gramophile.Prelude.{
  ℕ, eqb, String, Bool, true, false, not, ◌&&◌, Option, none, some, List, [], ◌∷◌, ◌==◌,
  if◌then◌else◌, any, sprint, show, put_at, put_text,
}
use gramophile.Status.{Err, Result, ok, err, errorf, Code}
use gramophile.Layout.Types.{Organisation, Space, FolderSet, Density}
use gramophile.Config.Types.{Folder, ConfigUser}

abbrev pub is_width : Density → Bool
is_width Density.width = true
is_width _ = false

-- The folders of the folder sets; `mapped` has the organisation of each folder so far.
unfoldable pub check_folders :
    String → List Folder → List FolderSet → (ℕ → Option String) → Result (ℕ → Option String)
check_folders org folders [] mapped = ok mapped
check_folders org folders (f ∷ fs) mapped =
    let next = check_folders org folders fs (put_at f.folder (some org) mapped) in
    if not (any (λ d. eqb d.id f.folder) folders)
    then err
        (errorf Code.invalid_argument (sprint ("folder " ∷ show f.folder ∷ " does not exist" ∷ [])))
    else elim (mapped f.folder) [
      | some other ↦ err (
          errorf Code.failed_precondition (
            sprint (
              "folder "
              ∷ show f.folder
              ∷ " is mapped to multiple organisations: "
              ∷ other
              ∷ " and "
              ∷ org
              ∷ [])))
      | none ↦ next
    ]

-- ValidateConfig looks first for a folder that one organisation has twice.
unfoldable pub repeats_folder : (ℕ → Bool) → List FolderSet → Option ℕ
repeats_folder seen [] = none
repeats_folder seen (f ∷ fs) =
    if seen f.folder then some f.folder else repeats_folder (put_at f.folder true seen) fs

module _ {W : Type 0} where
  -- The names of the spaces, where `seen` has those before.
  unfoldable pub check_spaces : String → (String → Bool) → List (Space W) → Option Err
  check_spaces org seen [] = none
  check_spaces org seen (sp ∷ sps) =
      if sp.name == ""
      then some (
          errorf Code.invalid_argument
            (sprint ("space name cannot be blank in organisation: " ∷ org ∷ [])))
      else if seen sp.name
      then some (
          errorf Code.invalid_argument
            (sprint ("duplicate space name " ∷ sp.name ∷ " in organisation: " ∷ org ∷ [])))
      else check_spaces org (put_text sp.name true seen) sps

  unfoldable pub check_organisations :
      Bool
      → List Folder
      → List (Organisation W)
      → (String → Bool)
      → (ℕ → Option String)
      → Option Err
  unfolding check_spaces check_folders
  check_organisations width folders [] names mapped = none
  check_organisations width folders (o ∷ os) names mapped =
      if is_width o.density && not width
      then some (errorf Code.failed_precondition (sprint (o.name ∷ " requires width mandate" ∷ [])))
      else if names o.name
      then some
          (errorf Code.already_exists (sprint ("duplicate organisation name: " ∷ o.name ∷ [])))
      else elim (check_spaces o.name (λ s. false) o.spaces) [
        | some e ↦ some e
        | none ↦ elim (check_folders o.name folders o.foldersets mapped) [
          | err e ↦ some e
          | ok mapped' ↦ check_organisations width folders os (put_text o.name true names) mapped'
        ]
      ]

  unfoldable pub validate_organisations : ConfigUser W → Option Err
  unfolding check_organisations
  validate_organisations u =
      check_organisations u.config.width_enabled u.folders u.config.organisations (λ s. false)
        (λ k. none)

  unfoldable pub overlaps : List (Organisation W) → Option Err
  unfolding repeats_folder
  overlaps [] = none
  overlaps (o ∷ os) = elim (repeats_folder (λ k. false) o.foldersets) [
    | some k ↦ some (
        errorf Code.unknown (
          sprint (
            "overlapping folder found in organisation: folder ID "
            ∷ show k
            ∷ " is defined multiple times"
            ∷ [])))
    | none ↦ overlaps os
  ]
