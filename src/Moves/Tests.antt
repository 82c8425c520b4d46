-- ===== src/Moves/Tests.antt =====
-- The moves that rules ask for at a concrete record.
use gramophile.Prelude.{
  Bool, ℕ, ℤ, pos, String, false, Option, none, some, List, [], ◌∷◌, ◌≡◌, refl, any, sort,
}
use gramophile.Status.{Err, Result, ok, err, errorf, Code}
use gramophile.Queue.Element.{QueueElement}
use gramophile.Config.Types.{FormatSelector}
use gramophile.Config.Mandates.{default_formats}
use gramophile.Classify.Types.{Comparator, Selector, Classifier, Kind, Field}
use gramophile.Classify.Rules.{classify}
use gramophile.Moves.Rules.{RecordMove, Item, run_moves, get_format, move_task}

abbrev plays : String → Option Field
plays name = some (record { kind = Kind.int32_kind; is_list = false })

-- Whether a field that is there is a list.
abbrev listed : Option Field → Bool
listed o = elim o [ none ↦ false | some f ↦ f.is_list ]

abbrev unread : String → Option ℤ
unread d = none

abbrev nowhere : String → Result (List ℕ)
nowhere l = err (errorf Code.not_found "no snapshot")

abbrev played : Classifier
played = record {
  classifier_name = "played";
  classification = "played";
  priority = pos 1;
  rules =
      record {
        rule_name = "plays";
        selector = Selector.int_selector "num_plays" (pos 0) Comparator.greater_than;
      }
      ∷ [];
}

abbrev single_record : Item
single_record = record {
  fields = record { iid = 4; flag = λ n. false; number = λ n. pos 2 };
  formats = record { name = "7\""; descriptions = "Single" ∷ [] } ∷ [];
}

abbrev stored : ℕ → Result Item
stored iid = ok single_record

abbrev to_singles : RecordMove
to_singles = record {
  name = "singles";
  classification = "played" ∷ [];
  format = "7 Inch" ∷ [];
  folder = "Singles";
}

abbrev at_front : QueueElement → List QueueElement → List QueueElement × Option Err
at_front e q = (e ∷ q, none)

abbrev formats : List FormatSelector
formats = default_formats 0

seven_inch : get_format single_record.formats formats "Other" ≡ "7 Inch"
unfolding get_format any
seven_inch = refl

asked :
    run_moves at_front 9 "token" plays unread unread nowhere stored
      (to_singles ∷ [])
      (played ∷ [])
      formats
      "Other"
      (ok (4 ∷ []))
      []
    ≡ some (move_task 9 "token" 4 "Singles" "singles" ∷ [], none)
unfolding run_moves classify sort any
asked = refl
