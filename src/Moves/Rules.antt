-- ===== src/Moves/Rules.antt =====
-- applyMove, GetFormat and RunMoves of background/moves.go. The clock is read once, as `now`; `none`
-- is a panic.
use gramophile.Prelude.{
  ℕ, ℤ, String, Bool, true, false, ◌&&◌, ◌||◌, Option, none, some, List, [], ◌∷◌, ◌++◌, ◌==◌,
  if◌then◌else◌, any, map, sprint,
}
use gramophile.Status.{Err, Result, ok, err, errorf, Code, is_already_exists, is_resource_exhausted}
use gramophile.Queue.Element.{QueueElement, Entry, Priority}
use gramophile.Config.Types.{FormatSelector}
use gramophile.Classify.Types.{Classifier, Fields, Field}
use gramophile.Classify.Rules.{Cache, classify}

-- A rule of proto/moving.proto.
pub record RecordMove : Type 0 where
  pub name : String
  pub classification : List String
  pub format : List String
  pub folder : String

pub record Format : Type 0 where
  pub name : String
  pub descriptions : List String

-- A record, by what the classification and the format read.
pub record Item : Type 0 where
  pub fields : Fields
  pub formats : List Format

abbrev pub has_text : String → List String → Bool
has_text s ts = any (λ t. t == s) ts

unfoldable pub apply_move : RecordMove → String → String → String
apply_move m class format =
    if has_text class m.classification && has_text format m.format then m.folder else ""

abbrev pub is_empty : List String → Bool
is_empty [] = true
is_empty (x ∷ xs) = false

unfoldable pub all_descriptions : List Format → List String
all_descriptions [] = []
all_descriptions (f ∷ fs) = f.descriptions ++ all_descriptions fs

-- Whether one of the texts is there, or none is asked for.
abbrev pub asks : List String → List String → Bool
asks wanted there = is_empty wanted || any (λ w. has_text w there) wanted

unfoldable pub get_format : List Format → List FormatSelector → String → String
unfolding all_descriptions
get_format formats [] default_format = default_format
get_format formats (s ∷ ss) default_format =
    let rest = get_format formats ss default_format in
    if asks s.description (all_descriptions formats) && asks s.contains (map (λ f. f.name) formats)
    then s.format
    else rest

module _ (now : ℕ) (token : String) where
  abbrev pub move_task : ℕ → String → String → QueueElement
  move_task iid folder rule = record {
    run_date = now;
    auth = token;
    backoff_in_seconds = 0;
    entry = Entry.move_record iid folder rule;
    refresh_id = 0;
    intention = "From Run Moves";
    force = false;
    priority = Priority.priority_unknown;
    addition_date = 0;
  }

-- EnqueueWithIgnore passes over these errors.
abbrev pub is_ignored : Option Err → Bool
is_ignored none = true
is_ignored (some e) = is_resource_exhausted e.code || is_already_exists e.code

module _ {Q : Type 0} (queue_up : QueueElement → Q → Q × Option Err) (now : ℕ)
    (token : String) where
  unfoldable pub enqueue_moves : ℕ → List RecordMove → String → String → Q → Q × Option Err
  unfolding apply_move
  enqueue_moves iid [] class format q = (q, none)
  enqueue_moves iid (m ∷ ms) class format q =
      let folder = apply_move m class format in
      let r = queue_up (move_task now token iid folder m.name) q in
      let skipped = enqueue_moves iid ms class format q in
      let next = enqueue_moves iid ms class format r.0 in
      if folder == "" then skipped else if is_ignored r.1 then next else r

  module _ (field_of : String → Option Field) (parse_duration parse_int : String → Option ℤ)
      (latest : String → Result (List ℕ)) (get_record : ℕ → Result Item) (moves : List RecordMove)
      (rules : List Classifier) (selectors : List FormatSelector) (default_format : String) where
    -- The classifier's cache is kept from record to record.
    unfoldable pub run_records : List ℕ → Cache → Q → Option (Q × Option Err)
    unfolding enqueue_moves get_format
    run_records [] cache q = some (q, none)
    run_records (iid ∷ iids) cache q = elim (get_record iid) [
      | err e ↦ some (q, some e)
      | ok x ↦
          let classified =
            classify field_of parse_duration parse_int latest now rules x.fields cache in
          elim classified.1 [
            | none ↦ none
            | some class ↦
                let r =
                  enqueue_moves iid moves class (get_format x.formats selectors default_format) q in
                let next = run_records iids classified.0 r.0 in
                elim r.1 [ some e ↦ some r | none ↦ next ]
          ]
    ]

    unfoldable pub run_moves : Result (List ℕ) → Q → Option (Q × Option Err)
    unfolding run_records
    run_moves records q = elim moves [
      | [] ↦ some (q, none)
      | m ∷ ms ↦ elim records [
        | err e ↦
            some
              (q, some (errorf Code.unknown (sprint ("unable to get records: " ∷ e.message ∷ []))))
        | ok iids ↦ run_records iids (λ l. none) q
      ]
    ]
