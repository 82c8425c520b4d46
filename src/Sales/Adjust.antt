-- ===== src/Sales/Adjust.antt =====
-- timeReduce and adjustPrice of background/sales.go. `F` stands for float64 with its operations; the
-- clock is read once, as `now`, in nanoseconds.
use gramophile.Prelude.{
  ℕ, suc, ◌-◌, ◌%◌, ltb, ltb_ℤ, leb_ℤ, eqb, eqb_ℤ, ℤ, pos, negsuc, ◌+ℤ◌, ◌-ℤ◌, ◌*ℤ◌, String, Bool,
  true, false, ◌&&◌, Option, none, some, [], ◌∷◌, if◌then◌else◌, sprint, show,
}
use gramophile.Sales.Types.{SaleInfo, value_of}

-- `seconds` and `hours` are of a time.Duration, `trunc` is the conversion to int32.
pub record Real (F : Type 0) : Type 0 where
  pub of_ℤ : ℤ → F
  pub seconds : ℤ → F
  pub hours : ℤ → F
  pub sub : F → F → F
  pub mul : F → F → F
  pub div : F → F → F
  pub floor : F → F
  pub trunc : F → ℤ
  pub lt : F → F → Bool

-- The value of a sum or product in 32 bits.
unfoldable pub int32 : ℤ → ℤ
int32 (pos n) =
    let m = n % 4294967296 in if ltb m 2147483648 then pos m else negsuc (4294967295 - m)
int32 (negsuc n) =
    let m = n % 4294967296 in if ltb m 2147483648 then negsuc m else pos (4294967295 - m)

abbrev pub max : ℤ → ℤ → ℤ
max a b = if ltb_ℤ b a then a else b

pub data LowerBoundStrategy : Type 0 where
  discogs_low static_low : LowerBoundStrategy

pub data ListingStrategy : Type 0 where
  specify high median recommended_mint recommended_vgplus recommended_mint_or_high : ListingStrategy

-- proto/config.proto; an update type is its number there.
pub record SaleConfig : Type 0 where
  pub handle_price_updates : Bool
  pub update_frequency_seconds : ℤ
  pub update_type : ℕ
  pub reduction : ℤ
  pub post_median_time : ℤ
  pub post_median_reduction : ℤ
  pub post_median_reduction_frequency : ℤ
  pub lower_bound_strategy : LowerBoundStrategy
  pub lower_bound : ℤ
  pub post_low_reduction : ℤ
  pub post_low_reduction_frequency_seconds : ℤ
  pub stale_bound : ℤ
  pub time_to_median_days : ℤ
  pub time_to_lower_days : ℤ
  pub time_to_stale_days : ℤ
  pub listing_strategy : ListingStrategy

pub data SaleUpdateType : Type 0 where
  minimal_reduce no_sale_update reduce_to_median then_low then_stale : SaleUpdateType
  unknown : ℕ → SaleUpdateType

unfoldable pub update_type_of : ℕ → SaleUpdateType
update_type_of n =
    if eqb n 1
    then SaleUpdateType.minimal_reduce
    else if eqb n 2
    then SaleUpdateType.reduce_to_median
    else if eqb n 3
    then SaleUpdateType.then_low
    else if eqb n 4
    then SaleUpdateType.then_stale
    else if eqb n 5
    then SaleUpdateType.no_sale_update
    else SaleUpdateType.unknown n

pub data Refusal : Type 0 where
  missing_metadata : Refusal
  because : String → Refusal

-- A price with its motivation, an error, or a panic.
pub data Adjusted : Type 0 where
  price : ℤ → String → Adjusted
  refused : Refusal → Adjusted
  panics : Adjusted

-- `%v` of an integer.
abbrev pub show_ℤ : ℤ → String
show_ℤ (pos n) = show n
show_ℤ (negsuc n) = sprint ("-" ∷ show (suc n) ∷ [])

module _ {F : Type 0} (real : Real F) (now : ℕ) where
  open real use {of_ℤ, seconds, hours, sub, mul, div, floor, trunc, lt}

  -- time.Since(time.Unix(0, t)).Seconds()
  abbrev pub since : ℕ → F
  since t = seconds (pos now -ℤ pos t)

  abbrev pub at_most_one : F → F
  at_most_one p = if lt (of_ℤ (pos 1)) p then of_ℤ (pos 1) else p

  -- The share of a number of days that has passed.
  abbrev pub share : F → ℤ → F
  share passed days = div passed (of_ℤ (int32 (days *ℤ pos 86400)))

  -- From `top` towards `bottom`, by the share `p` of the difference.
  abbrev pub towards : ℤ → ℤ → F → ℤ
  towards top bottom p = int32 (top -ℤ trunc (mul (of_ℤ (int32 (top -ℤ bottom))) (at_most_one p)))

  unfoldable pub time_reduce : SaleInfo → SaleConfig → ℤ × String
  time_reduce s c =
      let on_low = sub (since s.time_at_median) (of_ℤ c.post_median_time) in
      if eqb s.time_at_median 0
      then (
        towards (value_of s.initial_price) (value_of s.median_price)
            (share (since s.listed_date) c.time_to_median_days),
        "Time Reduction To Median",
      )
      else if lt on_low (of_ℤ (pos 0))
      then (value_of s.current_price, "Holding in Post Median State")
      else (
        towards (value_of s.median_price) (value_of s.low_price)
            (share on_low c.time_to_lower_days),
        "Time Reduction to Low",
      )

  -- Whether the price is due to fall towards the stale bound.
  abbrev pub is_stale : SaleInfo → SaleConfig → Bool
  is_stale s c =
      lt (of_ℤ c.time_to_stale_days) (div (hours (pos now -ℤ pos s.time_at_low)) (of_ℤ (pos 24)))
      && lt (of_ℤ c.post_low_reduction_frequency_seconds) (since s.last_price_update)

  -- Whether the price is due to fall below the median.
  abbrev pub is_post_median : SaleInfo → SaleConfig → Bool
  is_post_median s c =
      ltb 0 s.time_at_median
      && ltb_ℤ (pos 0) c.post_median_reduction
      && lt (of_ℤ c.post_median_time) (since s.time_at_median)

  -- The bound that is in force after the median; `none` is a missing low price.
  abbrev pub lower_bound_of : SaleInfo → SaleConfig → Option ℤ
  lower_bound_of s c = elim c.lower_bound_strategy [
    | LowerBoundStrategy.discogs_low ↦
        if eqb_ℤ (value_of s.low_price) (pos 0) then none else some (value_of s.low_price)
    | LowerBoundStrategy.static_low ↦ some c.lower_bound
  ]

  unfoldable pub reduce_post_median : SaleInfo → SaleConfig → Adjusted
  reduce_post_median s c =
      let elapsed = sub (since s.time_at_median) (of_ℤ c.post_median_time) in
      let every = of_ℤ c.post_median_reduction_frequency in
      let cycles = int32 (trunc (floor (div elapsed every)) +ℤ pos 1) in
      let lowered = int32 (value_of s.median_price -ℤ int32 (cycles *ℤ c.post_median_reduction)) in
      if leb_ℤ c.post_median_reduction_frequency (pos 0)
      then Adjusted.refused (
          Refusal.because (
            sprint (
              "post median reduction frequency must be > 0: "
              ∷ show_ℤ c.post_median_reduction_frequency
              ∷ [])))
      else elim (lower_bound_of s c) [
        | none ↦ Adjusted.refused Refusal.missing_metadata
        | some lower ↦
            if ltb_ℤ (pos 0) lower
            then Adjusted.price (max lowered lower)
                (sprint ("reducing post median. LB: " ∷ show_ℤ lower ∷ []))
            else Adjusted.refused
                (Refusal.because (sprint ("Already reached low price for " ∷ show s.sale_id ∷ [])))
      ]

  -- The three types that reduce to the median; `low` and `stale` tell whether they go on.
  unfoldable pub reduce : Bool → Bool → SaleInfo → SaleConfig → Adjusted
  unfolding reduce_post_median time_reduce
  reduce low stale s c =
      if eqb_ℤ (value_of s.median_price) (pos 0)
      then Adjusted.refused Refusal.missing_metadata
      else if ltb_ℤ (pos 0) c.time_to_median_days
      then Adjusted.price (time_reduce s c).0 (time_reduce s c).1
      else if stale && is_stale s c
      then Adjusted.price
          (max (int32 (value_of s.current_price -ℤ c.post_low_reduction)) c.stale_bound)
          "reducing to stale"
      else if low && is_post_median s c
      then reduce_post_median s c
      else Adjusted.price
          (max (int32 (value_of s.current_price -ℤ c.reduction)) (value_of s.median_price))
          "reducing to median"

  -- `name_of` is the generated name of an update type.
  unfoldable pub adjust_price : (ℕ → String) → SaleInfo → SaleConfig → SaleUpdateType → Adjusted
  unfolding reduce
  adjust_price name_of s c SaleUpdateType.minimal_reduce = elim s.current_price [
    | none ↦ Adjusted.panics
    | some p ↦ Adjusted.price (int32 (p.value -ℤ pos 1)) "no adjustment"
  ]
  adjust_price name_of s c SaleUpdateType.no_sale_update =
      Adjusted.price (value_of s.current_price) "no adjustment"
  adjust_price name_of s c SaleUpdateType.reduce_to_median = reduce false false s c
  adjust_price name_of s c SaleUpdateType.then_low = reduce true false s c
  adjust_price name_of s c SaleUpdateType.then_stale = reduce true true s c
  adjust_price name_of s c (SaleUpdateType.unknown n) =
      Adjusted.refused
        (Refusal.because (sprint ("unable to adjust price for " ∷ name_of c.update_type ∷ [])))
