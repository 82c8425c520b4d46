-- ===== src/Org/Relax.antt =====
-- The inner loop of Kahn's algorithm in org/diff.go, against what it does to each number.
use gramophile.Prelude.{
  ℕ, suc, ℤ, pos, ◌-ℤ◌, Bool, true, false, List, [], ◌∷◌, ◌++◌, ◌≡◌, ◌≢◌, refl, sym, ap, ◌∙◌, subst,
  inl, inr, eqb, eqb_ℤ, if◌then◌else◌, put_at, select, any, All, All-mono, arith, Bool-cases,
}
use mathlib.Core.List.{append_assoc, append-nil}
use gramophile.Org.Diff.{relax}
use gramophile.Org.Counting.{Unique, select-congr}

pub pos_pred : (k : ℕ) → (pos (suc k) -ℤ pos 1) ≡ pos k
unfolding ◌-ℤ◌
pos_pred k = ground arith

-- A number outside the list keeps its degree.
relax-outside :
    (xs : List ℕ) (deg : ℕ → ℤ) (queue : List ℕ) (x : ℕ)
    → All (λ y. y ≢ x) xs
    → (relax xs deg queue).0 x ≡ deg x
unfolding relax
relax-outside [] deg queue x h = refl
relax-outside (y ∷ ys) deg queue x h =
    let d = deg y -ℤ pos 1 in
    let q = if eqb_ℤ d (pos 0) then queue ++ y ∷ [] else queue in
    relax-outside ys (put_at y d deg) q x h.1 ∙ ground arith

pub relax-degree :
    (xs : List ℕ) (deg : ℕ → ℤ) (queue : List ℕ) (x : ℕ)
    → Unique xs
    → (relax xs deg queue).0 x ≡ (if any (eqb x) xs then deg x -ℤ pos 1 else deg x)
unfolding relax any
relax-degree [] deg queue x u = refl
relax-degree (y ∷ ys) deg queue x u =
    let d = deg y -ℤ pos 1 in
    let q = if eqb_ℤ d (pos 0) then queue ++ y ∷ [] else queue in
    elim (Bool-cases (eqb x y)) [
      | inl here ↦
          let e : y ≡ x = ground arith in
          relax-outside ys (put_at y d deg) q x (subst (λ k. All (λ z. z ≢ k) ys) e u.0)
          ∙ ground (arith, ap deg e)
      | inr there ↦ relax-degree ys (put_at y d deg) q x u.1 ∙ ground arith
    ]

put_at_other : (y x : ℕ) (d : ℤ) (deg : ℕ → ℤ) → x ≢ y → put_at y d deg x ≡ deg x
put_at_other y x d deg h = ground arith

append-push :
    (b : Bool) (queue : List ℕ) (y : ℕ) (zs : List ℕ)
    → (if b then queue ++ y ∷ [] else queue) ++ zs ≡ queue ++ (if b then y ∷ zs else zs)
append-push true queue y zs = append_assoc queue (y ∷ []) zs
append-push false queue y zs = refl

pub relax-queue :
    (xs : List ℕ) (deg : ℕ → ℤ) (queue : List ℕ)
    → Unique xs
    → (relax xs deg queue).1 ≡ queue ++ select (λ x. eqb_ℤ (deg x -ℤ pos 1) (pos 0)) xs
unfolding relax select
relax-queue [] deg queue u = sym (append-nil queue)
relax-queue (y ∷ ys) deg queue u =
    let d = deg y -ℤ pos 1 in
    let q = if eqb_ℤ d (pos 0) then queue ++ y ∷ [] else queue in
    let same =
      select-congr (λ x. eqb_ℤ (put_at y d deg x -ℤ pos 1) (pos 0))
        (λ x. eqb_ℤ (deg x -ℤ pos 1) (pos 0)) ys
        (All-mono {P = λ z. z ≢ y} ys
          (λ x h. ap (λ z. eqb_ℤ (z -ℤ pos 1) (pos 0)) (put_at_other y x d deg h)) u.0) in
    relax-queue ys (put_at y d deg) q u.1
    ∙ ap (λ z. q ++ z) same
    ∙ append-push (eqb_ℤ d (pos 0)) queue y (select (λ x. eqb_ℤ (deg x -ℤ pos 1) (pos 0)) ys)
