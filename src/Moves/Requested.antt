-- ===== src/Moves/Requested.antt =====
-- RunMoves of background/moves.go asks for the moves that the rules give, and for no other.
use gramophile.Prelude.{
  ℕ, ℤ, String, true, Option, none, some, List, [], ◌∷◌, ◌++◌, ◌==◌, if◌then◌else◌, ◌≡◌, All, sort,
}
use gramophile.Status.{Err, Result, ok, err}
use gramophile.Queue.Element.{QueueElement}
use gramophile.Config.Types.{FormatSelector}
use gramophile.Classify.Types.{Classifier, Field}
use gramophile.Classify.Rules.{by_priority}
use gramophile.Classify.Cached.{first_of}
use gramophile.Classify.Checks.{AllValid}
use gramophile.Moves.Rules.{RecordMove, Item, apply_move, get_format, move_task, is_ignored}

module _ (now : ℕ) (token : String) where
  -- The tasks for one record of a class and a format: one for each rule that gives a folder.
  unfoldable pub wanted : ℕ → List RecordMove → String → String → List QueueElement
  wanted iid [] class format = []
  wanted iid (m ∷ ms) class format =
      let rest = wanted iid ms class format in
      let folder = apply_move m class format in
      if folder == "" then rest else move_task now token iid folder m.name ∷ rest

  abbrev pub text_of : Option String → String
  text_of none = ""
  text_of (some s) = s

  module _ (field_of : String → Option Field) (parse_duration parse_int : String → Option ℤ)
      (latest : String → Result (List ℕ)) (get_record : ℕ → Result Item) (rules : List Classifier)
      (selectors : List FormatSelector) (default_format : String) where
    -- The tasks for records by the first set of rules, in the order of priority, that holds.
    unfoldable pub requested : List RecordMove → List ℕ → List QueueElement
    unfolding wanted
    requested moves [] = []
    requested moves (iid ∷ iids) = elim (get_record iid) [
      | err e ↦ []
      | ok x ↦
          wanted iid moves
            (text_of (
              first_of field_of parse_duration parse_int latest now (sort by_priority rules)
                x.fields))
            (get_format x.formats selectors default_format)
          ++ requested moves iids
    ]

module _ {Q : Type 0} (queue_up : QueueElement → Q → Q × Option Err) where
  -- The tasks are put into the queue one after the other.
  unfoldable pub submit : List QueueElement → Q → Q
  submit [] q = q
  submit (e ∷ es) q = submit es (queue_up e q).0

  module _ (admits : (e : QueueElement) (q : Q) → is_ignored (queue_up e q).1 ≡ true) (now : ℕ)
      (token : String) where
    module _ (field_of : String → Option Field) (parse_duration parse_int : String → Option ℤ)
        (latest : String → Result (List ℕ)) (get_record : ℕ → Result Item) (rules : List Classifier)
        (selectors : List FormatSelector) (default_format : String) (places : List String)
        (valid : All (AllValid field_of parse_duration parse_int latest now places) rules) where
      abbrev tasks_for : List RecordMove → List ℕ → List QueueElement
      tasks_for =
          requested now token field_of parse_duration parse_int latest get_record rules selectors
            default_format

      abbrev pub IsReadable : ℕ → Type 0
      IsReadable iid = (x : Item) × (get_record iid ≡ ok x)
