-- ===== src/Classify/Cached.antt =====
-- Classify of classification/classification.go against a description without a cache.
use gramophile.Prelude.{
  ℕ, ℤ, String, Bool, true, false, ◌&&◌, Option, none, some, List, [], ◌∷◌, if◌then◌else◌, ◌==◌,
  ◌≡◌, inl, inr, refl, sym, ap, ◌∙◌, Bool-cases, Option-cases, arith, sort, put_text, eq_iff,
  IsWeakOrder, IsSorted, sort-IsSorted, sort-perm, Perm,
}
use gramophile.Status.{Result, ok, err, Result-cases}
use gramophile.Classify.Types.{Selector, ClassificationRule, Classifier, Field, Fields}
use gramophile.Classify.Rules.{
  Cache, apply_rule, apply_rules, apply_location, classify_by, classify, by_priority, holds_id,
  apply_boolean, apply_int, apply_date_since,
}

by_priority-IsWeakOrder : IsWeakOrder by_priority
by_priority-IsWeakOrder = record {
  asym = λ a b h. ground arith;
  neg_trans = λ a b c h k. ground arith;
}

module _ (field_of : String → Option Field) (parse_duration parse_int : String → Option ℤ)
    (latest : String → Result (List ℕ)) (now : ℕ) where
  -- What is in the cache is what the database answers.
  abbrev pub Current : Cache → Type 0
  Current cache = (l : String) (ids : List ℕ) → cache l ≡ some ids → latest l ≡ ok ids

  -- Whether a rule holds, with the database at hand.
  unfoldable pub holds : Selector → Fields → Option Bool
  holds (Selector.boolean_selector name) r =
      apply_boolean field_of parse_duration parse_int latest now name r
  holds (Selector.int_selector name t comp) r =
      apply_int field_of parse_duration parse_int latest now name t comp r
  holds (Selector.date_since_selector name d) r =
      apply_date_since field_of parse_duration parse_int latest now name d r
  holds (Selector.location_selector l) r = elim (latest l) [
    | err e ↦ some false
    | ok ids ↦ some (holds_id r.iid ids)
  ]
  holds Selector.no_selector r = some false

  -- Whether all rules hold; a panic in any of them is one.
  unfoldable pub all_hold : List ClassificationRule → Fields → Option Bool
  unfolding holds
  all_hold [] r = some true
  all_hold (c ∷ cs) r = elim (holds c.selector r) [
    | none ↦ none
    | some b ↦ elim (all_hold cs r) [ none ↦ none | some rest ↦ some (b && rest) ]
  ]

  Steady : Cache × Option Bool → Option Bool → Type 0
  Steady step answer = Current step.0 × (step.1 ≡ answer)

  put-Current :
      (l : String) (ids : List ℕ) (cache : Cache)
      → Current cache
      → latest l ≡ ok ids
      → Current (put_text l (some ids) cache)
  put-Current l ids cache h found k is e = elim (Bool-cases (l == k)) [
    | inl same ↦
        let q : some ids ≡ some is = rw (same) at e in
        let both : ids ≡ is = cc in
        ap latest (sym ((eq_iff l k).0 same)) ∙ found ∙ ap (λ z. ok z) both
    | inr other ↦ h k is (rw (other) at e)
  ]

  location-Steady :
      (l : String) (r : Fields) (cache : Cache)
      → Current cache
      → Steady
          (apply_location field_of parse_duration parse_int latest now l r cache)
          (holds (Selector.location_selector l) r)
  unfolding apply_location holds Steady
  location-Steady l r cache h = elim (Option-cases (cache l)) [
    | inr (ids, there) ↦ rw (there, h l ids there, apply_location, holds) (h, refl)
    | inl new ↦ elim (Result-cases (latest l)) [
      | inl (ids, found) ↦
          rw (new, found, apply_location, holds) (put-Current l ids cache h found, refl)
      | inr (e, fails) ↦ rw (new, fails, apply_location, holds) (h, refl)
    ]
  ]

  rule-Steady :
      (s : Selector) (r : Fields) (cache : Cache)
      → Current cache
      → Steady (apply_rule field_of parse_duration parse_int latest now s r cache) (holds s r)
  unfolding apply_rule holds Steady
  rule-Steady (Selector.boolean_selector name) r cache h = (h, refl)
  rule-Steady (Selector.int_selector name t comp) r cache h = (h, refl)
  rule-Steady (Selector.date_since_selector name d) r cache h = (h, refl)
  rule-Steady (Selector.location_selector l) r cache h = location-Steady l r cache h
  rule-Steady Selector.no_selector r cache h = (h, refl)

  -- The answer for the rest, after the rules before.
  abbrev joined : Bool → Option Bool → Option Bool
  joined pass none = none
  joined pass (some b) = some (pass && b)

  joined_twice : (a b : Bool) (x : Option Bool) → joined (a && b) x ≡ joined a (joined b x)
  joined_twice a b none = refl
  joined_twice a b (some c) = ground arith

  rules-Steady :
      (cs : List ClassificationRule) (pass : Bool) (r : Fields) (cache : Cache)
      → Current cache
      → Steady
          (apply_rules field_of parse_duration parse_int latest now cs pass r cache)
          (joined pass (all_hold cs r))
  unfolding apply_rules all_hold Steady
  rules-Steady [] pass r cache h = (h, ground arith)
  rules-Steady (c ∷ cs) pass r cache h =
      let one = rule-Steady c.selector r cache h in
      elim (Option-cases (holds c.selector r)) [
        | inl panics ↦
            let same = one.1 ∙ panics in rw (panics, same, apply_rules, all_hold) (one.0, refl)
        | inr (b, known) ↦
            let same = one.1 ∙ known in
            let next =
              (apply_rule field_of parse_duration parse_int latest now c.selector r cache).0 in
            let rest = rules-Steady cs (pass && b) r next one.0 in
            rw (known, same, apply_rules, all_hold)
              (rest.0, rest.1 ∙ joined_twice pass b (all_hold cs r))
      ]

  -- The classification of the first set of rules that all hold; a panic before it is one.
  unfoldable pub first_of : List Classifier → Fields → Option String
  unfolding all_hold
  first_of [] r = some ""
  first_of (c ∷ cs) r = elim (all_hold c.rules r) [
    | none ↦ none
    | some b ↦ if b then some c.classification else first_of cs r
  ]

  classify_by_lem :
      (cs : List Classifier) (r : Fields) (cache : Cache)
      → Current cache
      → Current (classify_by field_of parse_duration parse_int latest now cs r cache).0
        × ((classify_by field_of parse_duration parse_int latest now cs r cache).1 ≡ first_of cs r)
  unfolding classify_by first_of Steady
  classify_by_lem [] r cache h = (h, refl)
  classify_by_lem (c ∷ cs) r cache h =
      let one = rules-Steady c.rules true r cache h in
      elim (Option-cases (all_hold c.rules r)) [
        | inl panics ↦
            let same = one.1 ∙ ap (joined true) panics in
            rw (panics, same, classify_by, first_of) (one.0, refl)
        | inr (b, known) ↦
            let same = one.1 ∙ ap (joined true) known in
            elim (Bool-cases b) [
              | inl all ↦ rw (known, same, all, classify_by, first_of) (one.0, refl)
              | inr fails ↦
                  rw (known, same, fails, classify_by, first_of)
                    (classify_by_lem cs r
                      (apply_rules field_of parse_duration parse_int latest now c.rules true r
                        cache).0
                      one.0)
            ]
      ]

  -- With a cache of what the database answers, Classify answers by the rule sets in the order of
  -- their priorities, the classification of the first whose rules all hold, as if each location were
  -- read from the database, and it leaves a cache of what the database answers.
  pub classify-Current :
      (rules : List Classifier) (r : Fields) (cache : Cache)
      → Current cache
      → Current (classify field_of parse_duration parse_int latest now rules r cache).0
        × ((classify field_of parse_duration parse_int latest now rules r cache).1
            ≡ first_of (sort by_priority rules) r)
        × IsSorted by_priority (sort by_priority rules)
        × Perm (sort by_priority rules) rules
  unfolding classify
  classify-Current rules r cache h =
      let both = classify_by_lem (sort by_priority rules) r cache h in
      (
        both.0,
        both.1,
        sort-IsSorted by_priority by_priority-IsWeakOrder rules,
        sort-perm by_priority rules,
      )
