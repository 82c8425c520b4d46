-- ===== src/Sales/Floor.antt =====
-- The bounds of the prices that adjustPrice of background/sales.go gives.
use gramophile.Prelude.{
  ℕ, ◌-◌, ◌≤◌, ◌<◌, eqb, ℤ, pos, ◌-ℤ◌, ◌≤ℤ◌, String, true, false, some, ◌≡◌, ◌≢◌, ◌⊎◌, inl, inr,
  refl, ap, ◌∙◌, Bool-cases, arith,
}
use gramophile.Sales.Types.{SaleInfo, value_of}
use gramophile.Sales.Adjust.{
  Real, SaleConfig, Adjusted, Refusal, int32, SaleUpdateType, time_reduce, lower_bound_of, is_stale,
  is_post_median, towards, at_most_one, share, since,
}

module _ {F : Type 0} (real : Real F) (now : ℕ) where
  -- A price that is not below the bound.
  abbrev pub AtLeast : ℤ → Adjusted → Type 0
  AtLeast b r = (n : ℤ) × (why : String) × (r ≡ Adjusted.price n why) × (b ≤ℤ n)

  abbrev pub IsRefused : Adjusted → Type 0
  IsRefused r = (e : Refusal) × (r ≡ Adjusted.refused e)

  -- After the median: an error, or a price that is at least the bound in force, which is positive.
  abbrev pub Lowered : SaleInfo → SaleConfig → Adjusted → Type 0
  Lowered s c r =
      IsRefused r ⊎ ((b : ℤ) × (lower_bound_of real now s c ≡ some b) × (pos 1 ≤ℤ b) × AtLeast b r)

  -- What the types that go on below the median answer before they are stale.
  abbrev pub LowOrMedian : SaleInfo → SaleConfig → Adjusted → Type 0
  LowOrMedian s c r =
      ((is_post_median real now s c ≡ true) × Lowered s c r)
      ⊎ ((is_post_median real now s c ≡ false) × AtLeast (value_of s.median_price) r)

  -- The bound that a type keeps in each of its phases.
  abbrev pub Bounded : SaleUpdateType → SaleInfo → SaleConfig → Adjusted → Type 0
  Bounded SaleUpdateType.reduce_to_median s c r = AtLeast (value_of s.median_price) r
  Bounded SaleUpdateType.then_low s c r = LowOrMedian s c r
  Bounded SaleUpdateType.then_stale s c r =
      ((is_stale real now s c ≡ true) × AtLeast c.stale_bound r)
      ⊎ ((is_stale real now s c ≡ false) × LowOrMedian s c r)
  Bounded _ s c r = Unit

-- What timeReduce relies on in float64: the product of a difference of prices and a share of one,
-- cut to an integer, is at most the difference.
pub record RealLaws {F : Type 0} (real : Real F) (IsShare : F → Type 0) : Type 0 where
  pub one : IsShare (real.of_ℤ (pos 1))
  pub part :
      (d : ℕ) (p : F)
      → d < 2147483648
      → IsShare p
      → (x : ℕ) × (real.trunc (real.mul (real.of_ℤ (pos d)) p) ≡ pos x) × (x ≤ d)

int32-small : (n : ℕ) → n < 2147483648 → int32 (pos n) ≡ pos n
unfolding int32
int32-small n h = ground (arith, h)

minus_small : (a b : ℕ) → b ≤ a → pos a -ℤ pos b ≡ pos (a - b)
unfolding ◌-ℤ◌
minus_small a b h = ground (arith, h)

module _ {F : Type 0} (real : Real F) (now : ℕ) (IsShare : F → Type 0)
    (laws : RealLaws real IsShare) where
  -- A price between two prices.
  abbrev pub Between : ℕ → ℕ → ℤ → Type 0
  Between a b z = (n : ℕ) × (z ≡ pos n) × (b ≤ n) × (n ≤ a)

  capped :
      (p : F)
      → (real.lt (real.of_ℤ (pos 1)) p ≡ false → IsShare p)
      → IsShare (at_most_one real now p)
  capped p h = elim (Bool-cases (real.lt (real.of_ℤ (pos 1)) p)) [
    | inl more ↦ rw (more) laws.one
    | inr less ↦ rw (less) (h less)
  ]

  towards-Between :
      (a b : ℕ) (p : F)
      → a < 2147483648
      → b ≤ a
      → (real.lt (real.of_ℤ (pos 1)) p ≡ false → IsShare p)
      → Between a b (towards real now (pos a) (pos b) p)
  towards-Between a b p small le h =
      let d = ap int32 (minus_small a b le) ∙ int32-small (a - b) (omega (arith, small)) in
      let part = laws.part (a - b) (at_most_one real now p) (omega (arith, small)) (capped p h) in
      let cut = ap (λ z. real.trunc (real.mul (real.of_ℤ z) (at_most_one real now p))) d ∙ part.1 in
      (
        a - part.0,
        ap (λ z. int32 (pos a -ℤ z)) cut
            ∙ ap int32 (minus_small a part.0 (omega (arith, part.2)))
            ∙ int32-small (a - part.0) (omega (arith, small)),
        omega (arith, part.2, le),
        omega arith,
      )

  -- The share of the time that has passed, where it counts.
  abbrev pub IsTimed : SaleInfo → SaleConfig → Type 0
  IsTimed s c =
      let before = share real now (since real now s.listed_date) c.time_to_median_days in
      let after =
        share real now (real.sub (since real now s.time_at_median) (real.of_ℤ c.post_median_time))
          c.time_to_lower_days in
      (real.lt (real.of_ℤ (pos 1)) before ≡ false → IsShare before)
      × (real.lt (real.of_ℤ (pos 1)) after ≡ false → IsShare after)

  -- The phase of a sale, and the price that it has in it.
  abbrev pub Timed : SaleInfo → SaleConfig → ℕ → ℕ → ℕ → ℤ → Type 0
  Timed s c initial middle low z =
      let on_low = real.sub (since real now s.time_at_median) (real.of_ℤ c.post_median_time) in
      ((s.time_at_median ≡ 0) × Between initial middle z)
      ⊎ ((s.time_at_median ≢ 0)
          × (real.lt on_low (real.of_ℤ (pos 0)) ≡ true)
          × (z ≡ value_of s.current_price))
      ⊎ ((s.time_at_median ≢ 0)
          × (real.lt on_low (real.of_ℤ (pos 0)) ≡ false)
          × Between middle low z)

  -- With an initial price, a median and a low price that do not rise and the shares of time, where
  -- they are not above one, being shares, timeReduce keeps the price between the initial price and
  -- the median while the time at the median is not set; once it is set, at the current price for the
  -- time after the median that the configuration gives, and then between the median and the low
  -- price.
  pub time_reduce-Between :
      (s : SaleInfo) (c : SaleConfig) (initial middle low : ℕ)
      → value_of s.initial_price ≡ pos initial
      → value_of s.median_price ≡ pos middle
      → value_of s.low_price ≡ pos low
      → low ≤ middle
      → middle ≤ initial
      → initial < 2147483648
      → IsTimed s c
      → Timed s c initial middle low (time_reduce real now s c).0
  unfolding time_reduce
  time_reduce-Between s c initial middle low i m l le le' small timed =
      elim (Bool-cases (eqb s.time_at_median 0)) [
        | inl before ↦
            rw (before, i, m)
              (inl (ground arith, towards-Between initial middle _ small le' timed.0))
        | inr after ↦
            let set : s.time_at_median ≢ 0 = ground arith in
            elim (Bool-cases (
              real.lt (real.sub (since real now s.time_at_median) (real.of_ℤ c.post_median_time))
                (real.of_ℤ (pos 0)))) [
                  | inl holds ↦ rw (after, holds) (inr (inl (set, refl, refl)))
                  | inr falls ↦
                      rw (after, falls, m, l)
                        (inr
                          (inr (set, refl, towards-Between middle low _ (omega arith) le timed.1)))
                ]
      ]
