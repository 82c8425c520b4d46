-- ===== src/Layout/Groups.antt =====
-- Grouping and widths in org/org.go. `stamp k` is the k-th reading of the clock.
use gramophile.Prelude.{
  ℕ, suc, eqb, String, Bool, true, false, not, ◌&&◌, List, [], ◌∷◌, ◌++◌, if◌then◌else◌, ◌==◌,
  length, any, put_text,
}
use gramophile.Layout.Types.{
  Float, Disc, Sort, Density, GroupingType, MissingWidthHandling, Space, Sleeve, SortingElement,
  GroupingElement,
}

abbrev pub is_label_catno : Sort → Bool
is_label_catno Sort.label_catno = true
is_label_catno _ = false

-- The variables of the loop; `reads` counts the readings of the clock.
pub record Grouper (W : Type 0) : Type 0 where
  pub label : String
  pub current : GroupingElement W
  pub out : List (GroupingElement W)
  pub reads : ℕ

module _ {W : Type 0} where
  abbrev pub is_nil : List (Disc W) → Bool
  is_nil [] = true
  is_nil (x ∷ xs) = false

  abbrev pub no_records : GroupingElement W
  no_records = record { records = []; id = 0 }

  -- `if len(currElement.records) > 0 { ordList = append(ordList, currElement) }`
  abbrev pub flush : List (GroupingElement W) → GroupingElement W → List (GroupingElement W)
  flush out e = if is_nil e.records then out else out ++ e ∷ []

  module _ (label_of : Disc W → String) (stamp : ℕ → ℕ) where
    abbrev pub single : ℕ → Disc W → GroupingElement W
    single k r = record { records = r ∷ []; id = stamp k }

    unfoldable pub group_one : SortingElement W → Grouper W → Grouper W
    group_one e g =
        if is_label_catno e.sort
        then if label_of e.disc == g.label
          then record g {
            current = record g.current { records = g.current.records ++ e.disc ∷ [] };
          }
          else record {
            label = label_of e.disc;
            current = single g.reads e.disc;
            out = flush g.out g.current;
            reads = suc g.reads;
          }
        else record g {
          current = if is_nil g.current.records then g.current else no_records;
          out = flush g.out g.current ++ single g.reads e.disc ∷ [];
          reads = suc g.reads;
        }

    unfoldable pub group_all : List (SortingElement W) → Grouper W → Grouper W
    unfolding group_one
    group_all [] g = g
    group_all (e ∷ es) g = group_all es (group_one e g)

    unfoldable pub grouped : List (SortingElement W) → List (GroupingElement W)
    unfolding group_all
    grouped es =
        let g = group_all es (record { label = ""; current = no_records; out = []; reads = 0 }) in
        flush g.out g.current

    -- Without grouping the elements are numbered from `nid`.
    unfoldable pub numbered : ℕ → List (SortingElement W) → List (GroupingElement W)
    numbered nid [] = []
    numbered nid (e ∷ es) = record { records = e.disc ∷ []; id = nid } ∷ numbered (suc nid) es

    unfoldable pub elements_of : GroupingType → List (SortingElement W) → List (GroupingElement W)
    unfolding grouped numbered
    elements_of GroupingType.group es = grouped es
    elements_of GroupingType.no_grouping es = numbered 1 es

  -- The records of elements, in their order.
  unfoldable pub flatten : List (GroupingElement W) → List (Disc W)
  flatten [] = []
  flatten (e ∷ es) = e.records ++ flatten es

module _ {W : Type 0} (float : Float W) where
  open float use {of_ℕ, add, mul, div, gt, le, is_zero, below_zero}

  abbrev pub one_if_zero : W → W
  one_if_zero w = if is_zero w then of_ℕ 1 else w

  -- The sum of the formats' quantities, where 0 counts as 1.
  unfoldable pub add_formats : List ℕ → W → W
  add_formats [] count = count
  add_formats (q ∷ qs) count = add_formats qs (add count (of_ℕ (if eqb q 0 then 1 else q)))

  unfoldable pub count_disks : List (Disc W) → W → W
  unfolding add_formats
  count_disks [] count = count
  count_disks (r ∷ rs) count =
      count_disks rs
        (elim r.formats [ [] ↦ add count (of_ℕ 1) | q ∷ qs ↦ add_formats (q ∷ qs) count ])

  -- The multiplier of a sleeve by name; that of an unknown one is 0.
  unfoldable pub multipliers : List (Sleeve W) → (String → W) → String → W
  multipliers [] m = m
  multipliers (s ∷ ss) m = multipliers ss (put_text s.name s.width_multiplier m)

  module _ (multiplier : String → W) (default_width : W) where
    unfoldable pub add_widths : List (Disc W) → W → W
    add_widths [] twidth = twidth
    add_widths (r ∷ rs) twidth =
        let base = if is_zero r.width then default_width else r.width in
        add_widths rs (add twidth (mul base (one_if_zero (multiplier r.sleeve))))

    unfoldable pub get_width : Density → List (Disc W) → W
    unfolding count_disks add_widths
    get_width Density.count rs = of_ℕ (length rs)
    get_width Density.disks rs = count_disks rs (of_ℕ 0)
    get_width Density.width rs = add_widths rs (of_ℕ 0)
    get_width (Density.unknown d) rs = below_zero

    -- Whether some shelf but the spill takes the element whole.
    unfoldable pub fits_somewhere : Density → List (Space W) → GroupingElement W → Bool
    unfolding get_width
    fits_somewhere d spaces e =
        any (λ s. le (get_width d e.records) s.width && not (s.name == "Spill")) spaces

    -- An element for each record, by its instance id.
    unfoldable pub break_up : List (Disc W) → List (GroupingElement W)
    break_up [] = []
    break_up (r ∷ rs) = record { records = r ∷ []; id = r.iid } ∷ break_up rs

    unfoldable pub fit_groups :
        Density → List (Space W) → List (GroupingElement W) → List (GroupingElement W)
    unfolding fits_somewhere break_up
    fit_groups d spaces [] = []
    fit_groups d spaces (e ∷ es) =
        (if fits_somewhere d spaces e then e ∷ [] else break_up e.records) ++ fit_groups d spaces es

  unfoldable pub sum_widths : List (Disc W) → W × W → W × W
  sum_widths [] acc = acc
  sum_widths (r ∷ rs) (total, count) =
      sum_widths rs (add total r.width, if gt r.width (of_ℕ 0) then add count (of_ℕ 1) else count)

  unfoldable pub default_width : MissingWidthHandling → List (GroupingElement W) → W
  unfolding sum_widths flatten
  default_width MissingWidthHandling.average es =
      let sums = sum_widths (flatten es) (of_ℕ 0, of_ℕ 0) in
      if gt sums.1 (of_ℕ 0) then div sums.0 sums.1 else of_ℕ 1
  default_width MissingWidthHandling.ignore es = of_ℕ 0
