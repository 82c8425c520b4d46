-- ===== src/Sales/Updates.antt =====
-- tidyUpdates of background/sales.go, against the price at each moment.
use gramophile.Prelude.{
  ℕ, ◌<◌, ℤ, negsuc, Bool, false, List, [], ◌∷◌, ◌≡◌, ◌≢◌, refl, sym, ap, ◌∙◌, inl, inr, ltb, leb,
  eqb_ℤ, eqb_ℤ_iff, if◌then◌else◌, All, All-mono, Bool-cases, arith, sort, sort-IsSorted, IsSorted,
  IsWeakOrder,
}
use gramophile.Sales.Types.{SaleInfo, PriceUpdate, value_of}

abbrev pub date_less : PriceUpdate → PriceUpdate → Bool
date_less a b = ltb a.date b.date

-- The loop over the sorted updates; `curr_price` is the price before them.
unfoldable pub drop_repeats : ℤ → List PriceUpdate → List PriceUpdate
drop_repeats curr_price [] = []
drop_repeats curr_price (u ∷ us) =
    let rest = drop_repeats (value_of u.set_price) us in
    let same = drop_repeats curr_price us in
    if eqb_ℤ curr_price (value_of u.set_price) then same else u ∷ rest

-- -100, the price that the loop starts at.
abbrev pub no_price : ℤ
no_price = negsuc 99

unfoldable pub tidy_updates : SaleInfo → SaleInfo
unfolding drop_repeats
tidy_updates s = record s { updates = drop_repeats no_price (sort date_less s.updates) }

-- The price at time `t` by updates in the order of their dates, `p` before the first of them.
abbrev pub price_at : ℕ → ℤ → List PriceUpdate → ℤ
price_at t p [] = p
price_at t p (u ∷ us) = if leb u.date t then price_at t (value_of u.set_price) us else p

-- No update sets the price that the one before it has set.
abbrev pub Changes : ℤ → List PriceUpdate → Type 0
Changes p [] = Unit
Changes p (u ∷ us) = (value_of u.set_price ≢ p) × Changes (value_of u.set_price) us

pub date_less-IsWeakOrder : IsWeakOrder date_less
date_less-IsWeakOrder = record {
  asym = λ a b h. ground arith;
  neg_trans = λ a b c h k. ground arith;
}

drop_repeats-Changes : (p : ℤ) (us : List PriceUpdate) → Changes p (drop_repeats p us)
unfolding drop_repeats
drop_repeats-Changes p [] = tt
drop_repeats-Changes p (u ∷ us) = elim (Bool-cases (eqb_ℤ p (value_of u.set_price))) [
  | inl same ↦ rw (same) (drop_repeats-Changes p us)
  | inr new ↦ rw (new) (
    (λ e. absurd (cc (new, (eqb_ℤ_iff p (value_of u.set_price)).1 (sym e)))),
    drop_repeats-Changes (value_of u.set_price) us,
  )
]

drop_repeats-All {κ} :
    (P : PriceUpdate → Type κ) (p : ℤ) (us : List PriceUpdate)
    → All P us
    → All P (drop_repeats p us)
unfolding drop_repeats
drop_repeats-All P p [] h = tt
drop_repeats-All P p (u ∷ us) h = elim (Bool-cases (eqb_ℤ p (value_of u.set_price))) [
  | inl same ↦ rw (same) (drop_repeats-All P p us h.1)
  | inr new ↦ rw (new) (h.0, drop_repeats-All P (value_of u.set_price) us h.1)
]

drop_repeats-IsSorted :
    (p : ℤ) (us : List PriceUpdate) → IsSorted date_less us → IsSorted date_less (drop_repeats p us)
unfolding drop_repeats
drop_repeats-IsSorted p [] h = tt
drop_repeats-IsSorted p (u ∷ us) h = elim (Bool-cases (eqb_ℤ p (value_of u.set_price))) [
  | inl same ↦ rw (same) (drop_repeats-IsSorted p us h.1)
  | inr new ↦
      let v = value_of u.set_price in
      rw (new)
        (drop_repeats-All (λ y. date_less y u ≡ false) v us h.0, drop_repeats-IsSorted v us h.1)
]

-- Before the first date the price is the first one.
price_at-early :
    (t : ℕ) (p : ℤ) (us : List PriceUpdate) → All (λ u. t < u.date) us → price_at t p us ≡ p
price_at-early t p [] h = refl
price_at-early t p (u ∷ us) h = ground (arith, h.0)

price_at-drop_repeats :
    (t : ℕ) (p : ℤ) (us : List PriceUpdate)
    → IsSorted date_less us
    → price_at t p (drop_repeats p us) ≡ price_at t p us
unfolding drop_repeats
price_at-drop_repeats t p [] h = refl
price_at-drop_repeats t p (u ∷ us) h =
    let v = value_of u.set_price in
    elim (Bool-cases (eqb_ℤ p v)) [
      | inl same ↦
          let e : p ≡ v = (eqb_ℤ_iff p v).0 same in
          rw (same) (
            price_at-drop_repeats t p us h.1 ∙ elim (Bool-cases (leb u.date t)) [
              | inl past ↦ rw (past) (ap (λ z. price_at t z us) e)
              | inr later ↦ rw (later) (
                  price_at-early t p us
                    (All-mono {P = λ y. date_less y u ≡ false} us (λ y k. ground arith) h.0))
            ])
      | inr new ↦ rw (new) (elim (Bool-cases (leb u.date t)) [
        | inl past ↦ rw (past) (price_at-drop_repeats t v us h.1)
        | inr later ↦ rw (later) refl
      ])
    ]

-- Tidied updates are in the order of their dates, each sets another price than the one before,
-- and at every moment the price is the one that the sorted updates give.
pub tidy_updates-price_at :
    (s : SaleInfo) (t : ℕ)
    → IsSorted date_less (tidy_updates s).updates
      × Changes no_price (tidy_updates s).updates
      × (price_at t no_price (tidy_updates s).updates
          ≡ price_at t no_price (sort date_less s.updates))
unfolding tidy_updates
tidy_updates-price_at s t =
    let us = sort date_less s.updates in
    let sorted = sort-IsSorted date_less date_less-IsWeakOrder s.updates in
    (
      drop_repeats-IsSorted no_price us sorted,
      drop_repeats-Changes no_price us,
      price_at-drop_repeats t no_price us sorted,
    )
