-- ===== src/Org/Types.antt =====
-- proto/organisation.proto: placements, snapshots and moves. `W` stands for the widths, which are
-- floating point numbers. Identifiers, units and indices are natural numbers.
use gramophile.Prelude.{ℕ, String, Option, List}

pub record Placement (W : Type 0) : Type 0 where
  pub iid : ℕ
  pub unit : ℕ
  pub index : ℕ
  pub space : String
  pub width : W
  pub original_index : ℕ
  pub observations : String
  pub sort_key : String

pub record OrganisationSnapshot (W : Type 0) : Type 0 where
  pub date : ℕ
  -- A `nil` in the list is `none`.
  pub placements : List (Option (Placement W))
  pub hash : String
  pub name : String

-- `nil` at either end is `none`.
pub record Move (W : Type 0) : Type 0 where
  pub start : Option (Placement W)
  pub end : Option (Placement W)
