-- ===== src/Classify/Tests.antt =====
-- Classifications of a record at concrete rules.
use gramophile.Prelude.{
  ℕ, ℤ, pos, ◌-ℤ◌, ◌*ℤ◌, String, false, Option, none, some, List, [], ◌∷◌, ◌==◌, ◌≡◌, Bool, true,
  sym, ap, ◌∙◌, refl, if◌then◌else◌, IsSorted, Perm, sort, any,
}
use gramophile.Status.{Result, ok, err, errorf, Code}
use gramophile.Classify.Types.{
  Comparator, Selector, ClassificationRule, Classifier, Kind, Field, Fields,
}
use gramophile.Classify.Rules.{Cache, classify, by_priority}
use gramophile.Classify.Cached.{Current, first_of, classify-Current}
use gramophile.Classify.Checks.{classify-answers, validate_rule}

-- A record has the numbers "num_plays" and "last_listen", and a list of numbers "og_ids".
abbrev kinds : String → Option Field
kinds name =
    if name == "num_plays"
    then some (record { kind = Kind.int32_kind; is_list = false })
    else if name == "last_listen"
    then some (record { kind = Kind.int64_kind; is_list = false })
    else if name == "og_ids"
    then some (record { kind = Kind.int64_kind; is_list = true })
    else none

abbrev no_duration : String → Option ℤ
no_duration d = none

abbrev seven : String → Option ℤ
seven d = if d == "7" then some (pos 7) else none

abbrev shelves : String → Result (List ℕ)
shelves l = if l == "Main" then ok (4 ∷ []) else err (errorf Code.not_found "no snapshot")

abbrev rule : Selector → ClassificationRule
rule s = record { rule_name = "rule"; selector = s }

abbrev shelved : Classifier
shelved = record {
  classifier_name = "shelved";
  classification = "on the shelf";
  priority = pos 5;
  rules = rule (Selector.location_selector "Main") ∷ [];
}

abbrev fresh : Classifier
fresh = record {
  classifier_name = "fresh";
  classification = "listened to";
  priority = pos 2;
  rules =
      rule (Selector.date_since_selector "last_listen" "7d")
      ∷ rule (Selector.int_selector "num_plays" (pos 3) Comparator.greater_than)
      ∷ [];
}

abbrev rare : Fields
rare = record { iid = 4; flag = λ n. false; number = λ n. pos 1 }

abbrev empty_cache : Cache
empty_cache l = none

-- A week and a second after the epoch.
abbrev week_on : ℕ
week_on = 604801000000000

by_shelf :
    (classify kinds no_duration seven shelves week_on (shelved ∷ fresh ∷ []) rare empty_cache).1
    ≡ some "on the shelf"
unfolding classify sort ◌-ℤ◌ ◌*ℤ◌ any
by_shelf = refl

classify-Current_example :
    Current kinds no_duration seven shelves week_on
      (classify kinds no_duration seven shelves week_on (shelved ∷ fresh ∷ []) rare empty_cache).0
    × ((classify kinds no_duration seven shelves week_on (shelved ∷ fresh ∷ []) rare empty_cache).1
        ≡ first_of kinds no_duration seven shelves week_on
            (sort by_priority (shelved ∷ fresh ∷ []))
            rare)
    × IsSorted by_priority (sort by_priority (shelved ∷ fresh ∷ []))
    × Perm (sort by_priority (shelved ∷ fresh ∷ [])) (shelved ∷ fresh ∷ [])
classify-Current_example =
    classify-Current kinds no_duration seven shelves week_on (shelved ∷ fresh ∷ []) rare empty_cache
      (λ l ids e. absurd (cc e))

abbrev reads_list : String → Bool
reads_list name = elim (kinds name) [ none ↦ false | some f ↦ f.is_list ]

no_list :
    (name : String)
    → reads_list name ≡ false
    → (f : Field) → kinds name ≡ some f
    → f.is_list ≡ false
no_list name h f known = sym (ap (λ o. elim o [ none ↦ false | some g ↦ g.is_list ]) known) ∙ h

-- ValidateRule looks at the kind alone, and the rule that it accepts makes Classify panic.
abbrev og_rule : Selector
og_rule = Selector.date_since_selector "og_ids" "7d"

classify-answers_example :
    (answer : String) × ((classify kinds no_duration seven shelves week_on
        (shelved ∷ fresh ∷ [])
        rare
        empty_cache).1
      ≡ some answer)
unfolding validate_rule any
classify-answers_example =
    classify-answers kinds no_duration seven shelves week_on ("Main" ∷ []) (shelved ∷ fresh ∷ [])
      rare empty_cache
      (
        ((refl, tt), tt),
        (((refl, no_list "last_listen" refl), ((refl, no_list "num_plays" refl), tt)), tt),
      )
      (λ l ids e. absurd (cc e))

list_accepted : validate_rule kinds no_duration seven [] og_rule ≡ some none
unfolding validate_rule
list_accepted = refl

list_panics :
    (classify kinds no_duration seven shelves week_on
      (record shelved { rules = rule og_rule ∷ [] } ∷ [])
      rare
      empty_cache).1
    ≡ none
unfolding classify sort
list_panics = refl
