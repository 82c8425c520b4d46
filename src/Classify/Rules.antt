-- ===== src/Classify/Rules.antt =====
-- The selectors and Classify of classification/classification.go. `field_of` is the descriptor of the
-- generated message Record, `parse_duration` and `parse_int` are time.ParseDuration and
-- strconv.ParseInt, `latest` has the instance ids of the latest snapshot of a location, and `now` is
-- the clock, read once. `none` is a panic.
use Prim.Native.Char.{code}
use gramophile.Prelude.{
  ℕ, eqb, int64, ltb_ℤ, leb_ℤ, ℤ, pos, ◌-ℤ◌, ◌*ℤ◌, String, Bool, true, false, not, ◌&&◌, ◌||◌,
  Option, none, some, List, [], ◌∷◌, if◌then◌else◌, any, sort, put_text,
}
use gramophile.Status.{Result, ok, err}
use gramophile.Classify.Types.{
  Comparator, Selector, ClassificationRule, Classifier, Kind, Field, Fields,
}

unfoldable pub compare_values : ℤ → ℤ → Comparator → Bool
compare_values v t Comparator.greater_than = ltb_ℤ t v
compare_values v t Comparator.less_than = ltb_ℤ v t
compare_values v t Comparator.less_than_or_equals = leb_ℤ v t
compare_values v t Comparator.greater_than_or_equals = leb_ℤ t v
compare_values v t (Comparator.unknown n) = false

-- The text without its last character, and the code of that.
unfoldable pub split_last : String → Option (String × ℕ)
split_last String.[] = none
split_last (String.◌∷◌ c s) = elim (split_last s) [
  | none ↦ some ("", code c)
  | some (front, last) ↦ some (String.◌∷◌ c front, last)
]

-- What a duration is read as; a text that is no duration reads as 0.
pub data Span : Type 0 where
  lasts : ℤ → Span
  no_number : Span
  panics : Span

abbrev pub one_day : ℤ
one_day = pos 86400000000000

module _ (parse_duration parse_int : String → Option ℤ) where
  unfoldable pub span_of : String → Span
  unfolding split_last int64
  span_of d = elim (parse_duration d) [
    | some du ↦ Span.lasts du
    | none ↦ elim (split_last d) [
      | none ↦ Span.panics
      | some (front, last) ↦
          if not (eqb last b'd' || eqb last b'y')
          then Span.lasts (pos 0)
          else elim (parse_int front) [
            | none ↦ Span.no_number
            | some n ↦
                if eqb last b'd'
                then Span.lasts (int64 (one_day *ℤ n))
                else Span.lasts (int64 (one_day *ℤ pos 365 *ℤ n))
          ]
    ]
  ]

-- What Bool() and Int() of a value read; they panic at a value of another kind, and at a list.
abbrev pub is_flag : Kind → Bool
is_flag Kind.bool_kind = true
is_flag _ = false

abbrev pub is_number : Kind → Bool
is_number Kind.int32_kind = true
is_number Kind.int64_kind = true
is_number _ = false

-- The instance ids by location, as far as they are looked up.
abbrev pub Cache : Type 0
Cache = String → Option (List ℕ)

abbrev pub holds_id : ℕ → List ℕ → Bool
holds_id iid ids = any (eqb iid) ids

abbrev pub by_priority : Classifier → Classifier → Bool
by_priority a b = ltb_ℤ a.priority b.priority

module _ (field_of : String → Option Field) (parse_duration parse_int : String → Option ℤ)
    (latest : String → Result (List ℕ)) (now : ℕ) where
  unfoldable pub apply_boolean : String → Fields → Option Bool
  apply_boolean name r = elim (field_of name) [
    | none ↦ some false
    | some f ↦ if f.is_list || not (is_flag f.kind) then none else some (r.flag name)
  ]

  -- The value of a field of a kind of integers.
  abbrev pub with_number : String → Fields → (ℤ → Option Bool) → Option Bool
  with_number name r g = elim (field_of name) [
    | none ↦ some false
    | some f ↦
        let read = g (r.number name) in if f.is_list || not (is_number f.kind) then none else read
  ]

  unfoldable pub apply_int : String → ℤ → Comparator → Fields → Option Bool
  unfolding compare_values
  apply_int name threshold comp r = with_number name r (λ v. some (compare_values v threshold comp))

  unfoldable pub apply_date_since : String → String → Fields → Option Bool
  unfolding span_of
  apply_date_since name duration r = with_number name r (λ v.
      elim (span_of parse_duration parse_int duration) [
        | Span.lasts du ↦ some (ltb_ℤ du (pos now -ℤ v))
        | Span.no_number ↦ some false
        | Span.panics ↦ none
      ])

  unfoldable pub apply_location : String → Fields → Cache → Cache × Option Bool
  apply_location l r cache = elim (cache l) [
    | some ids ↦ (cache, some (holds_id r.iid ids))
    | none ↦ elim (latest l) [
      | err e ↦ (cache, some false)
      | ok ids ↦ (put_text l (some ids) cache, some (holds_id r.iid ids))
    ]
  ]

  unfoldable pub apply_rule : Selector → Fields → Cache → Cache × Option Bool
  unfolding apply_boolean apply_int apply_date_since apply_location
  apply_rule (Selector.boolean_selector name) r cache = (cache, apply_boolean name r)
  apply_rule (Selector.int_selector name t comp) r cache = (cache, apply_int name t comp r)
  apply_rule (Selector.date_since_selector name d) r cache = (cache, apply_date_since name d r)
  apply_rule (Selector.location_selector l) r cache = apply_location l r cache
  apply_rule Selector.no_selector r cache = (cache, some false)

  -- Each rule of a set is applied, also after one that fails.
  unfoldable pub apply_rules : List ClassificationRule → Bool → Fields → Cache → Cache × Option Bool
  unfolding apply_rule
  apply_rules [] pass r cache = (cache, some pass)
  apply_rules (c ∷ cs) pass r cache =
      let one = apply_rule c.selector r cache in
      elim one.1 [ none ↦ (one.0, none) | some b ↦ apply_rules cs (pass && b) r one.0 ]

  unfoldable pub classify_by : List Classifier → Fields → Cache → Cache × Option String
  unfolding apply_rules
  classify_by [] r cache = (cache, some "")
  classify_by (c ∷ cs) r cache =
      let one = apply_rules c.rules true r cache in
      let next = classify_by cs r one.0 in
      elim one.1 [
        | none ↦ (one.0, none)
        | some b ↦ if b then (one.0, some c.classification) else next
      ]

  -- CreateClassifier sorts the rules; the cache starts empty.
  unfoldable pub classify : List Classifier → Fields → Cache → Cache × Option String
  unfolding classify_by
  classify rules r cache = classify_by (sort by_priority rules) r cache
