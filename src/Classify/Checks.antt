-- ===== src/Classify/Checks.antt =====
-- ValidateRule of classification/classification.go, and that rules that it accepts do not panic. The
-- texts of the parsers' errors are left out. `none` is a panic.
use gramophile.Prelude.{
  ℕ, ℤ, pos, ltb_ℤ, ◌-ℤ◌, ◌*ℤ◌, eqb, int64, String, Bool, true, false, not, ◌&&◌, ◌||◌, Option,
  none, some, List, [], ◌∷◌, if◌then◌else◌, ◌==◌, any, sprint, ◌≡◌, inl, inr, refl, ◌∙◌, Bool-cases,
  Option-cases, All, sort, sort-All,
}
use gramophile.Status.{Err, Result, errorf, Code, Result-cases}
use gramophile.Classify.Types.{Selector, ClassificationRule, Classifier, Kind, Field, Fields}
use gramophile.Classify.Rules.{
  Cache, split_last, span_of, Span, apply_boolean, apply_int, apply_date_since, with_number,
  classify, by_priority, one_day, compare_values, holds_id,
}
use gramophile.Classify.Cached.{Current, holds, all_hold, first_of, classify-Current}

abbrev pub is_kind : Kind → Kind → Bool
is_kind Kind.bool_kind Kind.bool_kind = true
is_kind Kind.int32_kind Kind.int32_kind = true
is_kind Kind.int64_kind Kind.int64_kind = true
is_kind _ _ = false

abbrev pub kind_name : Kind → String
kind_name Kind.bool_kind = "bool"
kind_name Kind.int32_kind = "int32"
kind_name Kind.int64_kind = "int64"
kind_name Kind.other_kind = "other"

module _ (field_of : String → Option Field) (parse_duration parse_int : String → Option ℤ) where
  unfoldable pub validate_selector : String → Kind → Option Err
  validate_selector name kind = elim (field_of name) [
    | none ↦ some (
        errorf Code.not_found
          (sprint ("Boolean field " ∷ name ∷ " not found in record proto" ∷ [])))
    | some f ↦
        if is_kind f.kind kind
        then none
        else some (
            errorf Code.failed_precondition
              (sprint ("Field " ∷ name ∷ " is not a " ∷ kind_name kind ∷ [])))
  ]

  unfoldable pub validate_duration : String → Option (Option Err)
  unfolding split_last
  validate_duration d = elim (parse_duration d) [
    | some du ↦ some none
    | none ↦ elim (split_last d) [
      | none ↦ none
      | some (front, last) ↦
          if not (eqb last b'd' || eqb last b'y')
          then some (some (errorf Code.invalid_argument "Unable to parse duration"))
          else elim (parse_int front) [
            | none ↦ some (some (errorf Code.invalid_argument "unable to parse duration"))
            | some n ↦ some none
          ]
    ]
  ]

  -- `places` has the names of the organisations.
  unfoldable pub validate_location : String → List String → Option Err
  validate_location l places =
      if any (λ o. o == l) places
      then none
      else some (errorf Code.not_found (sprint ("Unable to find location called " ∷ l ∷ [])))

  unfoldable pub validate_rule : List String → Selector → Option (Option Err)
  unfolding validate_selector validate_duration validate_location
  validate_rule places (Selector.boolean_selector name) =
      some (validate_selector name Kind.bool_kind)
  validate_rule places (Selector.int_selector name t comp) =
      some (validate_selector name Kind.int32_kind)
  validate_rule places (Selector.date_since_selector name d) =
      elim (validate_selector name Kind.int64_kind) [
        | none ↦ validate_duration d
        | some e ↦ some (some e)
      ]
  validate_rule places (Selector.location_selector l) = some (validate_location l places)
  validate_rule places Selector.no_selector =
      some (some (errorf Code.not_found "Validator not found"))

module _ (field_of : String → Option Field) (parse_duration parse_int : String → Option ℤ)
    (latest : String → Result (List ℕ)) (now : ℕ) where
  abbrev pub IsValid : List String → Selector → Type 0
  IsValid places s = validate_rule field_of parse_duration parse_int places s ≡ some none

  -- An answer, and no panic.
  abbrev Answers {ℓ} : {A : Type ℓ} → Option A → Type ℓ
  Answers {A = A} o = (a : A) × (o ≡ some a)

  same_kind : (k kind : Kind) → is_kind k kind ≡ true → k ≡ kind
  same_kind Kind.bool_kind Kind.bool_kind h = refl
  same_kind Kind.int32_kind Kind.int32_kind h = refl
  same_kind Kind.int64_kind Kind.int64_kind h = refl
  same_kind Kind.bool_kind Kind.int32_kind h = absurd (cc h)
  same_kind Kind.bool_kind Kind.int64_kind h = absurd (cc h)
  same_kind Kind.int32_kind Kind.bool_kind h = absurd (cc h)
  same_kind Kind.int32_kind Kind.int64_kind h = absurd (cc h)
  same_kind Kind.int64_kind Kind.bool_kind h = absurd (cc h)
  same_kind Kind.int64_kind Kind.int32_kind h = absurd (cc h)
  same_kind Kind.other_kind Kind.other_kind h = refl
  same_kind Kind.other_kind Kind.bool_kind h = absurd (cc h)
  same_kind Kind.other_kind Kind.int32_kind h = absurd (cc h)
  same_kind Kind.other_kind Kind.int64_kind h = absurd (cc h)
  same_kind Kind.bool_kind Kind.other_kind h = absurd (cc h)
  same_kind Kind.int32_kind Kind.other_kind h = absurd (cc h)
  same_kind Kind.int64_kind Kind.other_kind h = absurd (cc h)

  selector_kind :
      (name : String) (kind : Kind)
      → validate_selector field_of parse_duration parse_int name kind ≡ none
      → (f : Field) × (field_of name ≡ some f) × (f.kind ≡ kind)
  unfolding validate_selector
  selector_kind name kind h = elim (Option-cases (field_of name)) [
    | inl missing ↦ absurd (cc (rw (missing, validate_selector) at h))
    | inr (f, known) ↦ elim (Bool-cases (is_kind f.kind kind)) [
      | inl same ↦ (f, known, same_kind f.kind kind same)
      | inr other ↦ absurd (cc (rw (known, other, validate_selector) at h))
    ]
  ]

  span_lasts :
      (d : String)
      → validate_duration field_of parse_duration parse_int d ≡ some none
      → (x : ℤ) × (span_of parse_duration parse_int d ≡ Span.lasts x)
  unfolding validate_duration span_of
  span_lasts d h = elim (Option-cases (parse_duration d)) [
    | inr (du, read) ↦ (du, rw (read, span_of) refl)
    | inl unread ↦ elim (Option-cases (split_last d)) [
      | inl empty ↦ absurd (cc (rw (unread, empty, validate_duration) at h))
      | inr ((front, last), parts) ↦ elim (Bool-cases (not (eqb last b'd' || eqb last b'y'))) [
        | inl unit ↦ absurd (cc (rw (unread, parts, unit, validate_duration) at h))
        | inr long ↦ elim (Option-cases (parse_int front)) [
          | inl bad ↦ absurd (cc (rw (unread, parts, long, bad, validate_duration) at h))
          | inr (n, good) ↦ elim (Bool-cases (eqb last b'd')) [
            | inl days ↦ (int64 (one_day *ℤ n), rw (unread, parts, long, good, days, span_of) refl)
            | inr years ↦ (
              int64 (one_day *ℤ pos 365 *ℤ n),
              rw (unread, parts, long, good, years, span_of) refl,
            )
          ]
        ]
      ]
    ]
  ]

  -- The selector reads no list.
  abbrev pub ReadsNoList : Selector → Type 0
  ReadsNoList (Selector.boolean_selector name) =
      (f : Field) → field_of name ≡ some f → f.is_list ≡ false
  ReadsNoList (Selector.int_selector name t comp) =
      (f : Field) → field_of name ≡ some f → f.is_list ≡ false
  ReadsNoList (Selector.date_since_selector name d) =
      (f : Field) → field_of name ≡ some f → f.is_list ≡ false
  ReadsNoList _ = Unit

  rule-Answers :
      (places : List String) (s : Selector) (r : Fields)
      → IsValid places s
      → ReadsNoList s
      → Answers (holds field_of parse_duration parse_int latest now s r)
  unfolding validate_rule holds apply_boolean apply_int apply_date_since
  rule-Answers places (Selector.boolean_selector name) r h one =
      let (f, known, kind) = selector_kind name Kind.bool_kind (cc h) in
      (r.flag name, rw (known, one f known, kind, apply_boolean) refl)
  rule-Answers places (Selector.int_selector name t comp) r h one =
      let (f, known, kind) = selector_kind name Kind.int32_kind (cc h) in
      (
        compare_values (r.number name) t comp,
        rw (known, one f known, kind, apply_int, with_number) refl,
      )
  rule-Answers places (Selector.date_since_selector name d) r h one =
      elim (Option-cases
        (validate_selector field_of parse_duration parse_int name Kind.int64_kind)) [
          | inr (e, bad) ↦ absurd (cc (rw (bad, validate_rule) at h))
          | inl good ↦
              let (f, known, kind) = selector_kind name Kind.int64_kind good in
              let span = span_lasts d (rw (good, validate_rule) at h) in
              (
                ltb_ℤ span.0 (pos now -ℤ r.number name),
                rw (known, one f known, kind, span.1, apply_date_since, with_number) refl,
              )
        ]
  rule-Answers places (Selector.location_selector l) r h one = elim (Result-cases (latest l)) [
    | inl (ids, found) ↦ (holds_id r.iid ids, rw (found, holds) refl)
    | inr (e, fails) ↦ (false, rw (fails, holds) refl)
  ]
  rule-Answers places Selector.no_selector r h one = (false, refl)

  -- Each rule of the set is accepted, and none reads a list.
  abbrev pub AllValid : List String → Classifier → Type 0
  AllValid places c =
      All (λ (k : ClassificationRule). IsValid places k.selector × ReadsNoList k.selector) c.rules

  all_hold-Answers :
      (places : List String) (cs : List ClassificationRule) (r : Fields)
      → All (λ (k : ClassificationRule). IsValid places k.selector × ReadsNoList k.selector) cs
      → Answers (all_hold field_of parse_duration parse_int latest now cs r)
  unfolding all_hold
  all_hold-Answers places [] r h = (true, refl)
  all_hold-Answers places (c ∷ cs) r h =
      let one = rule-Answers places c.selector r h.0.0 h.0.1 in
      let rest = all_hold-Answers places cs r h.1 in
      (one.0 && rest.0, rw (one.1, rest.1, all_hold) refl)

  first_of-Answers :
      (places : List String) (cs : List Classifier) (r : Fields)
      → All (AllValid places) cs
      → Answers (first_of field_of parse_duration parse_int latest now cs r)
  unfolding first_of
  first_of-Answers places [] r h = ("", refl)
  first_of-Answers places (c ∷ cs) r h =
      let one = all_hold-Answers places c.rules r h.0 in
      elim (Bool-cases one.0) [
        | inl all ↦ (c.classification, rw (one.1, all, first_of) refl)
        | inr fails ↦
            let rest = first_of-Answers places cs r h.1 in
            (rest.0, rw (one.1, fails, first_of) rest.1)
      ]

  -- With rules that ValidateRule accepts, none of which reads a list, Classify does not panic, for any
  -- record and from any cache of what the database answers.
  pub classify-answers :
      (places : List String) (rules : List Classifier) (r : Fields) (cache : Cache)
      → All (AllValid places) rules
      → Current field_of parse_duration parse_int latest now cache
      → (answer : String) × ((classify field_of parse_duration parse_int latest now rules r cache).1
          ≡ some answer)
  classify-answers places rules r cache h current =
      let valid = sort-All by_priority (AllValid places) rules h in
      let answers = first_of-Answers places (sort by_priority rules) r valid in
      (
        answers.0,
        (classify-Current field_of parse_duration parse_int latest now rules r cache current).1
            ∙ answers.1,
      )
