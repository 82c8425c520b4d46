-- ===== src/Classify/Types.antt =====
-- The classifiers of proto/classification.proto and what the selectors read of a record.
use gramophile.Prelude.{ℕ, ℤ, String, Bool, List}

pub data Comparator : Type 0 where
  greater_than less_than less_than_or_equals greater_than_or_equals : Comparator
  unknown : ℕ → Comparator

pub data Selector : Type 0 where
  boolean_selector : (name : String) → Selector
  int_selector : (name : String) (threshold : ℤ) (comp : Comparator) → Selector
  date_since_selector : (name duration : String) → Selector
  location_selector : (location : String) → Selector
  no_selector : Selector

pub record ClassificationRule : Type 0 where
  pub rule_name : String
  pub selector : Selector

pub record Classifier : Type 0 where
  pub classifier_name : String
  pub classification : String
  pub priority : ℤ
  pub rules : List ClassificationRule

-- The kinds of the fields that the selectors tell apart.
pub data Kind : Type 0 where
  bool_kind int32_kind int64_kind other_kind : Kind

-- A field of a record: its kind, and whether it is a list of that kind.
pub record Field : Type 0 where
  pub kind : Kind
  pub is_list : Bool

-- A record, by its instance id and the values of its fields by name; a field that
-- is a list has none that the selectors can read.
pub record Fields : Type 0 where
  pub iid : ℕ
  pub flag : String → Bool
  pub number : String → ℤ
