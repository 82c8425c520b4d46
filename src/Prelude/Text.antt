-- ===== src/Prelude/Text.antt =====
-- Text: what fmt.Sprintf("%v", n) prints of a non-negative number, and what
-- strconv.ParseInt(s, 10, 64) reads of its digits.
use Prim.Native.Char.{Char, code}
use Prim.Native.String.{String, ◌++◌}
use Prim.Native.Nat.{ℕ, zero, suc, ◌+◌, ◌-◌, ◌*◌, ◌/◌, ◌%◌, ◌<◌}
use mathlib.Core.Path.{◌≡◌, refl, ap, ◌∙◌}
use mathlib.Core.Bool.{Bool, true, false, ◌&&◌}
use mathlib.Core.List.{List, [], ◌∷◌}
use mathlib.Core.Option.{Option, none, some}
use native.Mathlib.Omega.{arith}
use text.Mathlib.Text.{find?}
use text.Mathlib.TextLemmas.{nil-append, cons-append}
use mathlib.Core.Logic.{inl, inr}
use gramophile.Prelude.Tests.{ltb, leb, if◌then◌else◌, Bool-cases, ltb→lt, ltb-false→le}

-- strings.Contains
unfoldable pub contains : String → String → Bool
contains s t = elim (find? s t) [ none ↦ false | some _ ↦ true ]

-- fmt.Sprintf, by the pieces that it puts together.
abbrev pub sprint : List String → String
sprint [] = ""
sprint (s ∷ ss) = s ++ sprint ss

abbrev digit : ℕ → String
digit zero = "0"
digit (suc zero) = "1"
digit (suc (suc zero)) = "2"
digit (suc (suc (suc zero))) = "3"
digit (suc (suc (suc (suc zero)))) = "4"
digit (suc (suc (suc (suc (suc zero))))) = "5"
digit (suc (suc (suc (suc (suc (suc zero)))))) = "6"
digit (suc (suc (suc (suc (suc (suc (suc zero))))))) = "7"
digit (suc (suc (suc (suc (suc (suc (suc (suc zero)))))))) = "8"
digit _ = "9"

-- The fuel is above the number, which falls with each digit.
show_from : ℕ → ℕ → String
show_from zero n = ""
show_from (suc fuel) n =
    let front = show_from fuel (n / 10) in if ltb n 10 then digit n else front ++ digit (n % 10)

unfoldable pub show : ℕ → String
unfolding show_from
show n = show_from (suc n) n

unfoldable pub value : ℕ → String → ℕ
value acc String.[] = acc
value acc (String.◌∷◌ c s) = value (acc * 10 + (code c - b'0')) s

unfoldable pub all_digits : String → Bool
all_digits String.[] = true
all_digits (String.◌∷◌ c s) = (leb b'0' (code c) && leb (code c) b'9') && all_digits s

is_empty : String → Bool
is_empty String.[] = true
is_empty (String.◌∷◌ c s) = false

unfoldable pub parse : String → Option ℕ
unfolding is_empty value all_digits
parse s = if is_empty s then none else if all_digits s then some (value 0 s) else none

parse-show_sample : parse (show 1790) ≡ some 1790
unfolding parse show
parse-show_sample = refl

value-append : (acc : ℕ) (s t : String) → value acc (s ++ t) ≡ value (value acc s) t
unfolding value
value-append acc String.[] t = rw nil-append
value-append acc (String.◌∷◌ c s) t =
    rw (cons-append c s t) (value-append (acc * 10 + (code c - b'0')) s t)

all_digits-append :
    (s t : String) → all_digits s ≡ true → all_digits t ≡ true → all_digits (s ++ t) ≡ true
unfolding all_digits
all_digits-append String.[] t h k = rw nil-append k
all_digits-append (String.◌∷◌ c s) t h k =
    rw (cons-append c s t) (ground (arith, all_digits-append s t))

digit_cases :
    (P : ℕ → Type 0)
    → P 0 × P 1 × P 2 × P 3 × P 4 × P 5 × P 6 × P 7 × P 8 × P 9
    → (d : ℕ) → d < 10
    → P d
digit_cases P p zero h = p.0
digit_cases P p (suc zero) h = p.1
digit_cases P p (suc (suc zero)) h = p.2
digit_cases P p (suc (suc (suc zero))) h = p.3
digit_cases P p (suc (suc (suc (suc zero)))) h = p.4
digit_cases P p (suc (suc (suc (suc (suc zero))))) h = p.5
digit_cases P p (suc (suc (suc (suc (suc (suc zero)))))) h = p.6
digit_cases P p (suc (suc (suc (suc (suc (suc (suc zero))))))) h = p.7
digit_cases P p (suc (suc (suc (suc (suc (suc (suc (suc zero)))))))) h = p.8
digit_cases P p (suc (suc (suc (suc (suc (suc (suc (suc (suc zero))))))))) h = p.9
digit_cases P p (suc (suc (suc (suc (suc (suc (suc (suc (suc (suc d)))))))))) h =
    absurd (omega arith)

DigitLaws : ℕ → Type 0
DigitLaws d =
    ((acc : ℕ) → value acc (digit d) ≡ acc * 10 + d)
    × (all_digits (digit d) ≡ true)
    × ((s : String) → is_empty (s ++ digit d) ≡ false)

is_empty-append : (s : String) (c : Char) → is_empty (s ++ String.◌∷◌ c String.[]) ≡ false
unfolding is_empty
is_empty-append String.[] c = rw nil-append
is_empty-append (String.◌∷◌ d s) c = rw (cons-append d s)

digit-DigitLaws : (d : ℕ) → d < 10 → DigitLaws d
unfolding DigitLaws value all_digits
digit-DigitLaws d h =
    digit_cases (λ k. DigitLaws k)
      (
        ((λ acc. refl), refl, λ s. is_empty-append s _),
        ((λ acc. refl), refl, λ s. is_empty-append s _),
        ((λ acc. refl), refl, λ s. is_empty-append s _),
        ((λ acc. refl), refl, λ s. is_empty-append s _),
        ((λ acc. refl), refl, λ s. is_empty-append s _),
        ((λ acc. refl), refl, λ s. is_empty-append s _),
        ((λ acc. refl), refl, λ s. is_empty-append s _),
        ((λ acc. refl), refl, λ s. is_empty-append s _),
        ((λ acc. refl), refl, λ s. is_empty-append s _),
        ((λ acc. refl), refl, λ s. is_empty-append s _),
      )
      d h

show_from-Reads :
    (fuel n : ℕ)
    → n < fuel
    → (value 0 (show_from fuel n) ≡ n)
      × (all_digits (show_from fuel n) ≡ true)
      × (is_empty (show_from fuel n) ≡ false)
unfolding show_from DigitLaws
show_from-Reads zero n h = elim h [ ]
show_from-Reads (suc fuel) n h = elim (Bool-cases (ltb n 10)) [
  | inl small ↦
      let d = digit-DigitLaws n (ltb→lt n 10 small) in
      rw (small, show_from) (d.0 0 ∙ omega arith, d.1, rw (← nil-append (digit n)) (d.2 ""))
  | inr large ↦
      let d = digit-DigitLaws (n % 10) (omega arith) in
      let front = show_from-Reads fuel (n / 10) (omega (arith, ltb-false→le n 10 large)) in
      rw (large, show_from)
        (
          value-append 0 (show_from fuel (n / 10)) (digit (n % 10))
              ∙ ap (λ v. value v (digit (n % 10))) front.0
              ∙ d.0 (n / 10)
              ∙ omega arith,
          all_digits-append _ _ front.1 d.1,
          d.2 _,
        )
]

-- Reading a printed number gives the number back.
pub parse-show : (n : ℕ) → parse (show n) ≡ some n
unfolding parse show
parse-show n = let r = show_from-Reads (suc n) n (omega arith) in ground (arith, r)

-- So two numbers that print alike are one.
pub show-injective : (m n : ℕ) → show m ≡ show n → m ≡ n
show-injective m n e = cc (parse-show m, parse-show n, ap parse e)
