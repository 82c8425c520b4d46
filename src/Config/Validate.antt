-- ===== src/Config/Validate.antt =====
-- ValidateConfig of config/config.go. `none` is a panic.
use gramophile.Prelude.{
  String, Bool, true, Option, none, some, List, [], ◌∷◌, if◌then◌else◌, ◌≡◌, refl, sym, ap, ◌∙◌,
  subst, inl, inr, ◌++◌, length, Bool-cases, Option-cases, drop,
}
use gramophile.Status.{Err, Result, ok, err, Result-cases}
use gramophile.Config.Types.{ValidationStrategy, GramophileConfig, ConfigUser}
use gramophile.Config.Mandates.{
  mandate, has_field, or_else, validate_user, post_process_user, validate_cleaning, validate_listen,
  validate_width, validate_arrived, validate_weight, validate_goal_folder, validate_sales,
  validate_keep, validate_wants, validate_sleeve, validate_moving, post_process_moving,
  default_formats,
}
use gramophile.Config.Shelves.{validate_organisations, overlaps}
use gramophile.Config.Sound.{SoundShelves, validate_organisations-Sound}

-- A Validator; `none` is a PostProcess that hands its argument back.
pub record Validator (W : Type 0) : Type 0 where
  pub validate : ConfigUser W → Option Err
  pub post_process : Option (GramophileConfig W → Option (GramophileConfig W))

-- The folders of the validations.
unfoldable pub folders_of : List ValidationStrategy → List String
folders_of [] = []
folders_of (ValidationStrategy.listen_to_validate ∷ vs) = "Listening Pile" ∷ folders_of vs
folders_of (ValidationStrategy.move_to_validate ∷ vs) = "Validation Pile" ∷ folders_of vs
folders_of (ValidationStrategy.other_strategy ∷ vs) = folders_of vs

module _ {W : Type 0} where
  abbrev pub checks : (ConfigUser W → Option Err) → Validator W
  checks f = record { validate = f; post_process = none }

  unfoldable pub validators : List String → List (Validator W)
  unfolding validate_user post_process_user validate_cleaning validate_listen validate_width
      validate_arrived validate_weight validate_goal_folder validate_sales validate_keep
      validate_organisations validate_wants validate_moving post_process_moving validate_sleeve
  validators fields =
      record { validate = validate_user; post_process = some (λ c. some (post_process_user c)) }
      ∷ checks (validate_cleaning fields)
      ∷ checks (validate_listen fields)
      ∷ checks (validate_width fields)
      ∷ checks (validate_arrived fields)
      ∷ checks (validate_weight fields)
      ∷ checks (validate_goal_folder fields)
      ∷ checks (validate_sales fields)
      ∷ checks (validate_keep fields)
      ∷ checks validate_organisations
      ∷ checks validate_wants
      ∷ record { validate = validate_moving; post_process = some post_process_moving }
      ∷ checks (validate_sleeve fields)
      ∷ []

  abbrev pub processed : Validator W → ConfigUser W → Option (ConfigUser W)
  processed v u = elim v.post_process [
    | none ↦ some u
    | some f ↦ elim (f u.config) [ none ↦ none | some c ↦ some (record u { config = c }) ]
  ]

  unfoldable pub run_validators : List (Validator W) → ConfigUser W → Option (Result (ConfigUser W))
  run_validators [] u = some (ok u)
  run_validators (v ∷ vs) u = elim (v.validate u) [
    | some e ↦ some (err e)
    | none ↦ elim (processed v u) [ none ↦ none | some u' ↦ run_validators vs u' ]
  ]

  unfoldable pub validate_config :
      List String → ConfigUser W → Option (Result (ConfigUser W × List String))
  unfolding run_validators validators folders_of overlaps
  validate_config fields u = elim (overlaps u.config.organisations) [
    | some e ↦ some (err e)
    | none ↦ elim (run_validators (validators fields) u) [
      | none ↦ none
      | some (err e) ↦ some (err e)
      | some (ok u') ↦
          some (ok (u', if u'.config.create_folders then folders_of u'.config.validations else []))
    ]
  ]

  -- What a run without an error has passed.
  abbrev Passed : List (Validator W) → ConfigUser W → ConfigUser W → Type 0
  Passed [] u u' = u ≡ u'
  Passed (v ∷ vs) u u' =
      (v.validate u ≡ none) × (w : ConfigUser W) × (processed v u ≡ some w) × Passed vs w u'

  run_validators-Passed :
      (vs : List (Validator W)) (u u' : ConfigUser W)
      → run_validators vs u ≡ some (ok u')
      → Passed vs u u'
  unfolding run_validators
  run_validators-Passed [] u u' h = cc
  run_validators-Passed (v ∷ vs) u u' h = elim (Option-cases (v.validate u)) [
    | inr (e, bad) ↦ absurd (cc (rw (bad) at h))
    | inl good ↦ elim (Option-cases (processed v u)) [
      | inl panics ↦ absurd (cc (rw (good, panics) at h))
      | inr (w, goes) ↦ (good, w, goes, run_validators-Passed vs w u' (rw (good, goes) at h))
    ]
  ]

  -- Each field that the configuration asks for is there.
  abbrev pub Mandated : List String → GramophileConfig W → Type 0
  Mandated fields c =
      (c.cleaning.enabled ≡ true → has_field "Cleaned" fields ≡ true)
      × (c.listen_enabled ≡ true → has_field "LastListenDate" fields ≡ true)
      × (c.width_enabled ≡ true → has_field "Width" fields ≡ true)
      × (c.arrived_enabled ≡ true → has_field "Arrived" fields ≡ true)
      × (c.weight_enabled ≡ true → has_field "Weight" fields ≡ true)
      × (c.goal_folder_enabled ≡ true → has_field "Goal Folder" fields ≡ true)
      × (c.sales_enabled ≡ true → has_field "LastSaleUpdate" fields ≡ true)
      × (c.keep_enabled ≡ true → has_field "Keep" fields ≡ true)
      × (c.sleeve_enabled ≡ true → has_field "Sleeve" fields ≡ true)

mandate-field :
    (enabled : Bool) (name : String) (fields : List String)
    → mandate enabled name fields ≡ none
    → enabled ≡ true
    → has_field name fields ≡ true
unfolding mandate
mandate-field enabled name fields h on = elim (Bool-cases (has_field name fields)) [
  | inl there ↦ there
  | inr missing ↦ absurd (cc (rw (on, missing) at h))
]

some_same : {A : Type 0} {a b : A} → some a ≡ some b → a ≡ b
some_same h = cc

accepted_same :
    {A B : Type 0} {a b : A} {x y : B}
    → ◌≡◌ {A = Option (Result (A × B))} (some (ok (a, x))) (some (ok (b, y)))
    → a ≡ b
accepted_same h = cc

or_else-none : (a b : Option Err) → or_else a b ≡ none → a ≡ none
or_else-none none b h = refl
or_else-none (some e) b h = h

module _ {W : Type 0} where
  -- A check that keeps the configuration.
  peel :
      (f : ConfigUser W → Option Err) (vs : List (Validator W)) (u u' : ConfigUser W)
      → Passed (checks f ∷ vs) u u'
      → (f u ≡ none) × Passed vs u u'
  peel f vs u u' p = (p.0, subst (λ w. Passed vs w u') (sym (some_same p.2)) p.3)

  -- The formats of the moving rules are no mandate.
  moving-sleeve :
      (c d : GramophileConfig W)
      → post_process_moving c ≡ some d
      → d.sleeve_enabled ≡ c.sleeve_enabled
  unfolding post_process_moving
  moving-sleeve c d h = elim (Bool-cases c.moving_enabled) [
    | inr off ↦
        let same : post_process_moving c ≡ some c = rw (off, post_process_moving) refl in
        ap (λ z. z.sleeve_enabled) (sym (some_same (sym same ∙ h)))
    | inl on ↦ elim (Option-cases c.format_classifier) [
      | inl unset ↦ absurd (cc (rw (on, unset) at h))
      | inr (formats, set) ↦
          let more = formats ++ default_formats (length formats) in
          let same : post_process_moving c ≡ some (record c { format_classifier = some more }) =
            simp (on, set, post_process_moving) refl in
          ap (λ z. z.sleeve_enabled) (sym (some_same (sym same ∙ h)))
    ]
  ]

  -- The formats are all that the check of the moves changes.
  moving-config :
      (v w : ConfigUser W)
      → processed (record { validate = validate_moving; post_process = some post_process_moving }) v
        ≡ some w
      → post_process_moving v.config ≡ some w.config
  moving-config v w h = elim (Option-cases (post_process_moving v.config)) [
    | inl panics ↦ absurd (cc (rw (panics, processed) at h))
    | inr (c, goes) ↦
        let same : some (record v { config = c }) ≡ some w = rw (goes, processed) at h in
        goes ∙ ap (λ z. some z.config) (some_same same)
  ]

  validators-Sound :
      (fields : List String) (u u' : ConfigUser W)
      → run_validators (validators fields) u ≡ some (ok u')
      → (post_process_moving (post_process_user u.config) ≡ some u'.config)
        × Mandated fields (post_process_user u.config)
        × SoundShelves
            (post_process_user u.config).width_enabled
            u.folders
            (post_process_user u.config).organisations
  unfolding validators validate_cleaning validate_listen validate_width validate_arrived
      validate_weight validate_goal_folder validate_sales validate_keep validate_sleeve
  validators-Sound fields u u' h =
      let p = run_validators-Passed (validators fields) u u' h in
      let v = record u { config = post_process_user u.config } in
      let all = validators fields in
      let start = subst (λ w. Passed (drop 1 all) w u') (sym (some_same p.2)) p.3 in
      let cleaning = peel (validate_cleaning fields) (drop 2 all) v u' start in
      let listen = peel (validate_listen fields) (drop 3 all) v u' cleaning.1 in
      let width = peel (validate_width fields) (drop 4 all) v u' listen.1 in
      let arrived = peel (validate_arrived fields) (drop 5 all) v u' width.1 in
      let weight = peel (validate_weight fields) (drop 6 all) v u' arrived.1 in
      let goal = peel (validate_goal_folder fields) (drop 7 all) v u' weight.1 in
      let sales = peel (validate_sales fields) (drop 8 all) v u' goal.1 in
      let keep = peel (validate_keep fields) (drop 9 all) v u' sales.1 in
      let shelves = peel validate_organisations (drop 10 all) v u' keep.1 in
      let wants = peel validate_wants (drop 11 all) v u' shelves.1 in
      let moving = wants.1 in
      let sleeve = peel (validate_sleeve fields) [] moving.1 u' moving.3 in
      let field = mandate-field in
      let sleeve_there : mandate v.config.sleeve_enabled "Sleeve" fields ≡ none =
        ap (λ b. mandate b "Sleeve" fields)
          (sym (moving-sleeve v.config moving.1.config (moving-config v moving.1 moving.2)))
        ∙ or_else-none _ _ sleeve.0 in
      (
        moving-config v moving.1 moving.2 ∙ ap (λ z. some z.config) sleeve.1,
        (
          field _ "Cleaned" fields (or_else-none _ _ cleaning.0),
          field _ "LastListenDate" fields listen.0,
          field _ "Width" fields width.0,
          field _ "Arrived" fields arrived.0,
          field _ "Weight" fields weight.0,
          field _ "Goal Folder" fields goal.0,
          field _ "LastSaleUpdate" fields (or_else-none _ _ sales.0),
          field _ "Keep" fields keep.0,
          field _ "Sleeve" fields sleeve_there,
        ),
        validate_organisations-Sound v shelves.0,
      )

  -- A configuration that ValidateConfig accepts, as the user's level leaves it, is the stored one
  -- but for the formats of the moving rules; the fields of the cleaning, listening, width,
  -- arrival, weight, goal folder, sales, keep and sleeve mandates that it enables are there; and its
  -- organisations are sound: each density by width has the width mandate, the spaces have names,
  -- which differ in an organisation, and all folder sets are of different folders of the user.
  pub validate_config-Sound :
      (fields : List String) (u u' : ConfigUser W) (added : List String)
      → validate_config fields u ≡ some (ok (u', added))
      → (post_process_moving (post_process_user u.config) ≡ some u'.config)
        × Mandated fields (post_process_user u.config)
        × SoundShelves
            (post_process_user u.config).width_enabled
            u.folders
            (post_process_user u.config).organisations
  unfolding validate_config
  validate_config-Sound fields u u' added h =
      elim (Option-cases (overlaps u.config.organisations)) [
        | inr (e, twice) ↦ absurd (cc (rw (twice, validate_config) at h))
        | inl apart ↦ elim (Option-cases (run_validators (validators fields) u)) [
          | inl panics ↦ absurd (cc (rw (apart, panics, validate_config) at h))
          | inr (r, ran) ↦ elim (Result-cases r) [
            | inr (e, bad) ↦ absurd (cc (rw (apart, ran, bad, validate_config) at h))
            | inl (v, good) ↦
                let all : v ≡ u' = accepted_same (rw (apart, ran, good, validate_config) at h) in
                validators-Sound fields u u' (ran ∙ ap some (good ∙ ap ok all))
          ]
        ]
      ]
