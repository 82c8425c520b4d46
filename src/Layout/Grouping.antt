-- ===== src/Layout/Grouping.antt =====
-- Grouping in org/org.go loses no record, and neither does breaking up what fits on no shelf.
use mathlib.Core.List.{append_assoc, append-nil}
use gramophile.Prelude.{
  ℕ, suc, ◌<◌, true, false, List, [], ◌∷◌, ◌++◌, ◌≡◌, inl, inr, refl, sym, ap, ◌∙◌, map, any,
  Bool-cases, arith, String, ◌==◌, if◌then◌else◌, All,
}
use gramophile.Layout.Types.{
  Float, Disc, Density, GroupingType, Space, Sleeve, LabelWeight, Organisation, SortingElement,
  GroupingElement,
}
use gramophile.Layout.Groups.{
  Grouper, flush, is_nil, single, no_records, group_one, group_all, grouped, numbered, elements_of,
  flatten, fits_somewhere, break_up, fit_groups, is_label_catno,
}
use gramophile.Layout.Build.{Env, elements}
use gramophile.Layout.Placed.{has_element}
use gramophile.Layout.Sequence.{DifferentIds}

module _ {W : Type 0} where
  abbrev pub discs : List (SortingElement W) → List (Disc W)
  discs = map (λ e. e.disc)

  flatten-append :
      (xs ys : List (GroupingElement W)) → flatten (xs ++ ys) ≡ flatten xs ++ flatten ys
  unfolding flatten
  flatten-append [] ys = refl
  flatten-append (x ∷ xs) ys =
      ap (λ z. x.records ++ z) (flatten-append xs ys)
      ∙ sym (append_assoc x.records (flatten xs) (flatten ys))

  is_nil-nil : (rs : List (Disc W)) → is_nil rs ≡ true → rs ≡ []
  is_nil-nil [] h = refl
  is_nil-nil (r ∷ rs) h = absurd (cc h)

  flatten-flush :
      (out : List (GroupingElement W)) (e : GroupingElement W)
      → flatten (flush out e) ≡ flatten out ++ e.records
  unfolding flatten
  flatten-flush out e = elim (Bool-cases (is_nil e.records)) [
    | inl empty ↦
        rw (empty)
          (sym (ap (λ z. flatten out ++ z) (is_nil-nil e.records empty) ∙ append-nil (flatten out)))
    | inr more ↦
        rw (more) (flatten-append out (e ∷ []) ∙ ap (λ z. flatten out ++ z) (append-nil e.records))
  ]

  -- The records that the loop has taken.
  abbrev taken : Grouper W → List (Disc W)
  taken g = flatten g.out ++ g.current.records

  kept-nil : (e : GroupingElement W) → (if is_nil e.records then e else no_records).records ≡ []
  kept-nil e = elim (Bool-cases (is_nil e.records)) [
    | inl empty ↦ rw (empty) (is_nil-nil e.records empty)
    | inr more ↦ rw (more) refl
  ]

  module _ (label_of : Disc W → String) (stamp : ℕ → ℕ) where
    taken-group_one :
        (e : SortingElement W) (g : Grouper W)
        → taken (group_one label_of stamp e g) ≡ taken g ++ e.disc ∷ []
    unfolding group_one flatten
    taken-group_one e g = elim (Bool-cases (is_label_catno e.sort)) [
      | inl labels ↦ elim (Bool-cases (label_of e.disc == g.label)) [
        | inl same ↦
            rw (labels, same) (sym (append_assoc (flatten g.out) g.current.records (e.disc ∷ [])))
        | inr new ↦ rw (labels, new) (ap (λ z. z ++ e.disc ∷ []) (flatten-flush g.out g.current))
      ]
      | inr alone ↦ rw (alone) (
          ap
            (λ z. flatten (flush g.out g.current ++ single label_of stamp g.reads e.disc ∷ []) ++ z)
            (kept-nil g.current)
          ∙ append-nil _
          ∙ flatten-append (flush g.out g.current) (single label_of stamp g.reads e.disc ∷ [])
          ∙ ap (λ z. z ++ e.disc ∷ []) (flatten-flush g.out g.current))
    ]

    taken-group_all :
        (es : List (SortingElement W)) (g : Grouper W)
        → taken (group_all label_of stamp es g) ≡ taken g ++ discs es
    unfolding group_all
    taken-group_all [] g = sym (append-nil (taken g))
    taken-group_all (e ∷ es) g =
        taken-group_all es (group_one label_of stamp e g)
        ∙ ap (λ z. z ++ discs es) (taken-group_one e g)
        ∙ append_assoc (taken g) (e.disc ∷ []) (discs es)

    flatten-numbered :
        (i : ℕ) (es : List (SortingElement W)) → flatten (numbered label_of stamp i es) ≡ discs es
    unfolding numbered flatten
    flatten-numbered i [] = refl
    flatten-numbered i (e ∷ es) = ap (λ z. e.disc ∷ z) (flatten-numbered (suc i) es)

    flatten-elements_of :
        (t : GroupingType) (es : List (SortingElement W))
        → flatten (elements_of label_of stamp t es) ≡ discs es
    unfolding elements_of grouped flatten
    flatten-elements_of GroupingType.group es =
        let start : Grouper W = record { label = ""; current = no_records; out = []; reads = 0 } in
        let g = group_all label_of stamp es start in
        flatten-flush g.out g.current ∙ taken-group_all es start
    flatten-elements_of GroupingType.no_grouping es = flatten-numbered 1 es

    -- The elements that are numbered from `i` have ids from `i` on.
    numbered-other :
        (k i : ℕ) (es : List (SortingElement W))
        → k < i
        → has_element k (numbered label_of stamp i es) ≡ false
    unfolding numbered any
    numbered-other k i [] l = refl
    numbered-other k i (e ∷ es) l = ground (arith, l, numbered-other k (suc i) es (omega arith))

    numbered-Different :
        (i : ℕ) (es : List (SortingElement W)) → DifferentIds (numbered label_of stamp i es)
    unfolding numbered
    numbered-Different i [] = tt
    numbered-Different i (e ∷ es) =
        (numbered-other i (suc i) es (omega arith), numbered-Different (suc i) es)

module _ {W : Type 0} (float : Float W) (multiplier : String → W) (missing : W) (d : Density)
    (spaces : List (Space W)) where
  flatten-break_up : (rs : List (Disc W)) → flatten (break_up float multiplier missing rs) ≡ rs
  unfolding break_up flatten
  flatten-break_up [] = refl
  flatten-break_up (r ∷ rs) = ap (λ z. r ∷ z) (flatten-break_up rs)

  pub flatten-fit_groups :
      (es : List (GroupingElement W))
      → flatten (fit_groups float multiplier missing d spaces es) ≡ flatten es
  unfolding fit_groups flatten
  flatten-fit_groups [] = refl
  flatten-fit_groups (e ∷ es) =
      let rest = ap (λ z. e.records ++ z) (flatten-fit_groups es) in
      elim (Bool-cases (fits_somewhere float multiplier missing d spaces e)) [
        | inl fits ↦ rw (fits) rest
        | inr wide ↦ rw (wide) (
            flatten-append (break_up float multiplier missing e.records) _
            ∙ ap (λ z. z ++ flatten (fit_groups float multiplier missing d spaces es))
                (flatten-break_up e.records)
            ∙ rest)
      ]

  -- Elements that fit stay as they are.
  pub fit_groups_same :
      (es : List (GroupingElement W))
      → All (λ e. fits_somewhere float multiplier missing d spaces e ≡ true) es
      → fit_groups float multiplier missing d spaces es ≡ es
  unfolding fit_groups
  fit_groups_same [] h = refl
  fit_groups_same (e ∷ es) h = rw (h.0) (ap (λ z. e ∷ z) (fit_groups_same es h.1))

-- Whatever the grouping and the shelves, the elements hold the records in their order, none lost and
-- none twice.
pub flatten-elements :
    {W : Type 0} (env : Env W) (org : Organisation W) (weights : List (LabelWeight W))
    (sleeves : List (Sleeve W)) (ordered : List (SortingElement W))
    → flatten (elements env org weights sleeves ordered).0 ≡ discs ordered
unfolding elements
flatten-elements env org weights sleeves ordered =
    flatten-fit_groups env.float _ _ org.density _ _
    ∙ flatten-elements_of _ env.stamp org.grouping ordered
