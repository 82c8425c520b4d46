-- ===== src/Prelude/Order.antt =====
-- Orders: Go's `<` on texts, keys whose empty value comes last, and the lemmas that make them tests
-- to sort by.
use Prim.Native.Char.{code}
use Prim.Native.String.{String}
use Prim.Native.Nat.{ℕ}
use mathlib.Core.Path.{◌≡◌, refl}
use mathlib.Core.Bool.{Bool, true, false, not, ◌&&◌}
use mathlib.Core.List.{List, [], ◌∷◌}
use native.Mathlib.Omega.{arith}
use gramophile.Prelude.Tests.{ltb, if◌then◌else◌}
use gramophile.Prelude.Sort.{IsWeakOrder}

-- The code points of a text; UTF-8 keeps their order.
abbrev pub codes : String → List ℕ
codes String.[] = []
codes (String.◌∷◌ c s) = code c ∷ codes s

unfoldable pub lex_less : List ℕ → List ℕ → Bool
lex_less xs [] = false
lex_less [] (y ∷ ys) = true
lex_less (x ∷ xs) (y ∷ ys) = if ltb x y then true else if ltb y x then false else lex_less xs ys

lex_less-asym : (xs ys : List ℕ) → lex_less xs ys ≡ true → lex_less ys xs ≡ false
unfolding lex_less
lex_less-asym [] [] h = absurd (cc)
lex_less-asym (x ∷ xs) [] h = absurd (cc)
lex_less-asym [] (y ∷ ys) h = refl
lex_less-asym (x ∷ xs) (y ∷ ys) h = ground (arith, lex_less-asym xs ys)

lex_less-neg_trans :
    (xs ys zs : List ℕ) → lex_less ys xs ≡ false → lex_less zs ys ≡ false → lex_less zs xs ≡ false
unfolding lex_less
lex_less-neg_trans [] [] zs h k = k
lex_less-neg_trans [] (y ∷ ys) [] h k = refl
lex_less-neg_trans [] (y ∷ ys) (z ∷ zs) h k = refl
lex_less-neg_trans (x ∷ xs) [] zs h k = absurd (cc)
lex_less-neg_trans (x ∷ xs) (y ∷ ys) [] h k = absurd (cc)
lex_less-neg_trans (x ∷ xs) (y ∷ ys) (z ∷ zs) h k = ground (arith, lex_less-neg_trans xs ys zs)

pub lex_less-IsWeakOrder : IsWeakOrder lex_less
lex_less-IsWeakOrder = record { asym = lex_less-asym; neg_trans = lex_less-neg_trans }

pub ltb-IsWeakOrder : IsWeakOrder ltb
ltb-IsWeakOrder = record { asym = λ a b h. ground arith; neg_trans = λ a b c h k. ground arith }

module _ {ℓ κ} {A : Type ℓ} {B : Type κ} where
  -- An order of the keys orders what has them.
  abbrev pub less_by : (A → B) → (B → B → Bool) → A → A → Bool
  less_by f less a b = less (f a) (f b)

  pub less_by-IsWeakOrder :
      (f : A → B) (less : B → B → Bool) → IsWeakOrder less → IsWeakOrder (less_by f less)
  less_by-IsWeakOrder f less w = record {
    asym = λ a b. w.asym (f a) (f b);
    neg_trans = λ a b c. w.neg_trans (f a) (f b) (f c);
  }

module _ {ℓ} {A : Type ℓ} (empty : A → Bool) (less : A → A → Bool) where
  -- What is empty comes after what is not.
  abbrev pub empty_last : A → A → Bool
  empty_last a b =
      if empty a && not (empty b)
      then false
      else if empty b && not (empty a)
      then true
      else less a b

  pub empty_last-IsWeakOrder : IsWeakOrder less → IsWeakOrder empty_last
  empty_last-IsWeakOrder w = record {
    asym = λ a b h. ground (arith, w.asym a b);
    neg_trans = λ a b c h k. ground (arith, w.neg_trans a b c);
  }
