-- ===== src/Layout/Types.antt =====
-- What BuildSnapshot of org/org.go reads: proto/organisation.proto, the fields of a record, and the
-- operations of float32, on a type `W` of widths. Identifiers and dates are not
-- negative.
use gramophile.Prelude.{ℕ, ℤ, String, Bool, List}

-- `largest` is math.MaxFloat32, above which float32 still has +Inf, and `below_zero` is -1.
pub record Float (W : Type 0) : Type 0 where
  pub of_ℕ : ℕ → W
  pub largest : W
  pub below_zero : W
  pub half : W
  pub add : W → W → W
  pub mul : W → W → W
  pub div : W → W → W
  pub gt : W → W → Bool
  pub le : W → W → Bool
  pub is_zero : W → Bool

pub record Label : Type 0 where
  pub id : ℕ
  pub name : String
  pub catno : String

pub record LabelWeight (W : Type 0) : Type 0 where
  pub label_id : ℕ
  pub weight : W

-- A record with its release; `formats` are the quantities of the release's formats.
pub record Disc (W : Type 0) : Type 0 where
  pub iid : ℕ
  pub folder_id : ℕ
  pub date_added : ℕ
  pub release_date : ℕ
  pub earliest_release_date : ℕ
  pub width : W
  pub sleeve : String
  pub formats : List ℕ
  pub labels : List Label
  pub artists : List String

pub data Sort : Type 0 where
  artist_year label_catno release_year earliest_release_year addition_date : Sort

pub data Density : Type 0 where
  count disks width : Density
  unknown : ℕ → Density

pub data GroupingType : Type 0 where
  no_grouping group : GroupingType

pub data GroupSpill : Type 0 where
  no_spill break_ordering : GroupSpill

pub data MissingWidthHandling : Type 0 where
  ignore average : MissingWidthHandling

pub record FolderSet : Type 0 where
  pub index : ℤ
  pub folder : ℕ
  pub sort : Sort

pub record Space (W : Type 0) : Type 0 where
  pub name : String
  pub units : ℕ
  pub width : W

pub record Sleeve (W : Type 0) : Type 0 where
  pub name : String
  pub width_multiplier : W

pub record Spill : Type 0 where
  pub type : GroupSpill
  pub look_ahead : ℤ

pub record Organisation (W : Type 0) : Type 0 where
  pub name : String
  pub foldersets : List FolderSet
  pub spaces : List (Space W)
  pub density : Density
  pub missing_width_handling : MissingWidthHandling
  pub grouping : GroupingType
  pub spill : Spill

pub record SortingElement (W : Type 0) : Type 0 where
  pub disc : Disc W
  pub sort : Sort
  pub artist_year : String
  pub label_catno : String

pub record GroupingElement (W : Type 0) : Type 0 where
  pub records : List (Disc W)
  pub id : ℕ
