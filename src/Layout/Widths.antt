-- ===== src/Layout/Widths.antt =====
-- Widths for org/org.go that can be computed: numbers, and one above them all.
use gramophile.Prelude.{ℕ, ◌+◌, ltb, eqb, not, Bool, true, false, Option, none, some, ◌≡◌, refl}
use gramophile.Layout.Types.{Float}
use gramophile.Layout.Load.{FloatLaws}

-- `none` is above all numbers.
abbrev pub Width : Type 0
Width = Option ℕ

abbrev plus : Width → Width → Width
plus (some a) (some b) = some (a + b)
plus (some a) none = none
plus none b = none

abbrev above : Width → Width → Bool
above x none = false
above none (some b) = true
above (some a) (some b) = ltb b a

abbrev zero_width : Width → Bool
zero_width none = false
zero_width (some a) = eqb a 0

abbrev pub widths : Float Width
widths = record {
  of_ℕ = λ n. some n;
  largest = none;
  below_zero = some 0;
  half = some 0;
  add = plus;
  mul = λ a b. b;
  div = λ a b. a;
  gt = above;
  le = λ a b. not (above a b);
  is_zero = zero_width;
}

pub widths-laws : FloatLaws widths
widths-laws = record { le→not_gt = λ x y h. go (above x y) h }
  where
    go : (b : Bool) → not b ≡ true → b ≡ false
    go true h = absurd (cc h)
    go false h = refl
