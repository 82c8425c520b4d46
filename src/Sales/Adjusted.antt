-- ===== src/Sales/Adjusted.antt =====
-- AdjustSales of background/sales.go keeps the stored sales, but for their stamps.
use gramophile.Prelude.{
  ℕ, eqb, ℤ, String, Bool, true, false, not, ◌&&◌, ◌||◌, Option, none, some, List, [], ◌∷◌, ◌==◌,
  ◌≡◌, inl, inr, refl, sym, ap, ◌∙◌, subst, Bool-cases, Option-cases, arith,
}
use gramophile.Status.{Err, Result, ok, err, Result-cases}
use gramophile.Sales.Types.{SaleInfo, is_for_sale}
use gramophile.Sales.Store.{SaleDbLaws}
use gramophile.Sales.Synced.{Keyed, save-Keyed}
use gramophile.Sales.Passes.{Work, SaleIo, SyncUser, enqueue_if_not_exists}
use gramophile.Sales.Adjust.{Real, SaleConfig, SaleUpdateType, Adjusted, adjust_price}
use gramophile.Sales.Adjusting.{
  stamp, stamp_median, stamp_low, stamp_stale, stamps, ask, follow, adjust_sale, turn, adjust_all,
  adjust_sales, type_for, is_due, adjusted,
}

-- The sale with other stamps.
abbrev pub stamped : SaleInfo → ℕ → ℕ → ℕ → SaleInfo
stamped c a b d = record c { time_at_median = a; time_at_low = b; time_at_stale = d }

-- What is read of a sale is what was read before, but for its stamps.
abbrev pub Kept : Result SaleInfo → Result SaleInfo → Type 0
Kept (err e) y = y ≡ err e
Kept (ok c) y = (a : ℕ) × (b : ℕ) × (d : ℕ) × (y ≡ ok (stamped c a b d))

Kept-refl : (x : Result SaleInfo) → Kept x x
Kept-refl (err e) = refl
Kept-refl (ok c) = (c.time_at_median, c.time_at_low, c.time_at_stale, refl)

Kept-same : {x y z : Result SaleInfo} → y ≡ x → z ≡ y → Kept x z
Kept-same {x} {y} {z} e f = subst (Kept x) (sym (f ∙ e)) (Kept-refl x)

Kept-trans : (x y z : Result SaleInfo) → Kept x y → Kept y z → Kept x z
Kept-trans (err e) y z h k = subst (λ r. Kept r z) h k
Kept-trans (ok c) y z h k =
    let k' : Kept (ok (stamped c h.0 h.1 h.2)) z = subst (λ r. Kept r z) h.3 k in
    (k'.0, k'.1, k'.2, k'.3)

module _ {S Q F : Type 0} (io : SaleIo S Q) (laws : SaleDbLaws io.own_sales)
    (saves : (x : SaleInfo) (s : S) → (io.own_sales.save_sale x s).1 ≡ none)
    (user_keeps : (u : SyncUser) (k : ℕ) (s : S)
      → io.own_sales.get_sale k (io.write_user u s).0 ≡ io.own_sales.get_sale k s)
    (real : Real F) (name_of : ℕ → String) (now : ℕ) where
  abbrev get : ℕ → S → Result SaleInfo
  get = io.own_sales.get_sale

  -- From one store to the next.
  abbrev pub Safe : S → S → Type 0
  Safe s s' = Keyed io.own_sales s' × ((k : ℕ) → Kept (get k s) (get k s'))

  Safe-refl : (s : S) → Keyed io.own_sales s → Safe s s
  Safe-refl s h = (h, λ k. Kept-refl (get k s))

  Safe-trans : (s s' s'' : S) → Safe s s' → Safe s' s'' → Safe s s''
  Safe-trans s s' s'' h h' =
      (h'.0, λ k. Kept-trans (get k s) (get k s') (get k s'') (h.1 k) (h'.1 k))

  -- A stamp leaves the sale that it hands on in the store.
  abbrev Stamped : ℕ → S → SaleInfo × S × Bool → Type 0
  Stamped sid s r = Safe s r.1 × (get sid r.1 ≡ ok r.0)

  stamp-Stamped :
      (due : Bool) (sid : ℕ) (c : SaleInfo) (s : S) (a b d : ℕ)
      → Keyed io.own_sales s
      → get sid s ≡ ok c
      → Stamped sid s (stamp io real name_of now due (stamped c a b d) c s)
  unfolding stamp
  stamp-Stamped false sid c s a b d h e = (Safe-refl s h, e)
  stamp-Stamped true sid c s a b d h e =
      let key : c.sale_id ≡ sid = h sid c e in
      let back = laws.get-save (stamped c a b d) s (saves _ s) in
      let there = ap (λ k. get k (io.own_sales.save_sale (stamped c a b d) s).0) (sym key) ∙ back in
      (
        (
          save-Keyed io.own_sales laws now 0 0 (stamped c a b d) s (saves _ s) h,
          λ k. (elim (Bool-cases (eqb k sid)) [
            | inl here ↦
                let same : sid ≡ k = ground arith in
                subst (λ j. Kept (get j s) (get j (io.own_sales.save_sale (stamped c a b d) s).0))
                  same
                  (subst (λ x. Kept x (get sid (io.own_sales.save_sale (stamped c a b d) s).0))
                    (sym e) (a, b, d, there))
            | inr other ↦
                Kept-same refl
                  (laws.get-save_other (stamped c a b d) k s (λ z. ground (arith, z, key, other)))
          ]),
        ),
        there,
      )

  stamps-Safe :
      (bound : ℤ) (t : SaleUpdateType) (n : ℤ) (sid : ℕ) (c : SaleInfo) (s : S)
      → Keyed io.own_sales s
      → get sid s ≡ ok c
      → Safe s (stamps io real name_of now bound t n c s).1
  unfolding stamps stamp_median stamp_low stamp_stale
  stamps-Safe bound t n sid c s h e =
      let a = stamp_median io real name_of now t n c s in
      let b = stamp_low io real name_of now t n a.0 a.1 in
      let f = stamp_stale io real name_of now bound t n b.0 b.1 in
      let one : Stamped sid s a = stamp-Stamped _ sid c s now c.time_at_low c.time_at_stale h e in
      let two : Stamped sid a.1 b =
        stamp-Stamped _ sid a.0 a.1 a.0.time_at_median now a.0.time_at_stale one.0.0 one.1 in
      let three : Stamped sid b.1 f =
        stamp-Stamped _ sid b.0 b.1 b.0.time_at_median b.0.time_at_low now two.0.0 two.1 in
      let both = Safe-trans s a.1 b.1 one.0 two.0 in
      elim (Bool-cases a.2) [
        | inl more ↦ elim (Bool-cases b.2) [
          | inl on ↦ rw (more, on) (Safe-trans s b.1 f.1 both three.0)
          | inr ends ↦ rw (more, ends) both
        ]
        | inr ends ↦ rw (ends) one.0
      ]

  abbrev SafeAfter : S → Option (Work S Q) → Type 0
  SafeAfter s none = Unit
  SafeAfter s (some w) = Safe s w.store

  follow-Safe :
      (config : SaleConfig) (sid : ℕ) (c : SaleInfo) (w : Work S Q)
      → Keyed io.own_sales w.store
      → get sid w.store ≡ ok c
      → (r : Adjusted) → SafeAfter w.store (follow io real name_of now config sid c w r)
  unfolding follow ask
  follow-Safe config sid c w h e (Adjusted.price n why) =
      stamps-Safe w.user.stale_bound (type_for io real name_of now config c) n sid c w.store h e
  follow-Safe config sid c w h e (Adjusted.refused x) = Safe-refl w.store h
  follow-Safe config sid c w h e Adjusted.panics = tt

  adjust_sale-Safe :
      (config : SaleConfig) (sid : ℕ) (c : SaleInfo) (w : Work S Q)
      → Keyed io.own_sales w.store
      → get sid w.store ≡ ok c
      → SafeAfter w.store (adjust_sale io real name_of now config sid c w)
  unfolding adjust_sale ask enqueue_if_not_exists
  adjust_sale-Safe config sid c w h e =
      let t = type_for io real name_of now config c in
      let due = is_for_sale c.sale_state && is_due io real name_of now config c in
      let missing = c.condition == "" || c.sleeve_condition == "" in
      elim (Bool-cases (not due)) [
        | inl skipped ↦ rw (skipped) (Safe-refl w.store h)
        | inr taken ↦ elim (Bool-cases missing) [
          | inl bare ↦ rw (taken, bare) (Safe-refl w.store h)
          | inr whole ↦
              rw (taken, whole)
                (follow-Safe config sid c w h e (adjust_price real now name_of c config t))
        ]
      ]

  abbrev taken : SaleConfig → ℕ → Work S Q → Result SaleInfo → Option (Work S Q)
  taken config sid w r = elim r [
    | err e ↦ some w
    | ok c ↦ adjust_sale io real name_of now config sid c w
  ]

  turn_found :
      (config : SaleConfig) (sid : ℕ) (w : Work S Q) {c : SaleInfo}
      → get sid w.store ≡ ok c
      → turn io real name_of now config sid w ≡ adjust_sale io real name_of now config sid c w
  unfolding turn
  turn_found config sid w h = ap (taken config sid w) h

  turn_fails :
      (config : SaleConfig) (sid : ℕ) (w : Work S Q) {e : Err}
      → get sid w.store ≡ err e
      → turn io real name_of now config sid w ≡ some w
  unfolding turn
  turn_fails config sid w h = ap (taken config sid w) h

  turn-Safe :
      (config : SaleConfig) (sid : ℕ) (w : Work S Q)
      → Keyed io.own_sales w.store
      → SafeAfter w.store (turn io real name_of now config sid w)
  turn-Safe config sid w h = elim (Result-cases (get sid w.store)) [
    | inl (c, found) ↦
        subst (SafeAfter w.store) (sym (turn_found config sid w found))
          (adjust_sale-Safe config sid c w h found)
    | inr (e, fails) ↦
        subst (SafeAfter w.store) (sym (turn_fails config sid w fails)) (Safe-refl w.store h)
  ]

  SafeAfter-trans : (s s' : S) (r : Option (Work S Q)) → Safe s s' → SafeAfter s' r → SafeAfter s r
  SafeAfter-trans s s' none h k = tt
  SafeAfter-trans s s' (some w) h k = Safe-trans s s' w.store h k

  adjust_all-Safe :
      (config : SaleConfig) (sids : List ℕ) (w : Work S Q)
      → Keyed io.own_sales w.store
      → SafeAfter w.store (adjust_all io real name_of now config sids w)
  unfolding adjust_all
  adjust_all-Safe config [] w h = Safe-refl w.store h
  adjust_all-Safe config (sid ∷ sids) w h =
      let first = turn-Safe config sid w h in
      elim (Option-cases (turn io real name_of now config sid w)) [
        | inl panics ↦ rw (panics, adjust_all) tt
        | inr (w', goes) ↦
            let step : Safe w.store w'.store = rw (goes) at first in
            rw (goes, adjust_all)
              (SafeAfter-trans w.store w'.store _ step (adjust_all-Safe config sids w' step.0))
      ]

  first_same :
      {a b : Work S Q} {x y : Option Err}
      → ◌≡◌ {A = Option (Work S Q × Option Err)} (some (a, x)) (some (b, y))
      → a ≡ b
  first_same h = cc

  saved-Kept :
      (w v w' : Work S Q) (e : Option Err)
      → Safe w.store v.store
      → some (adjusted io real name_of now v) ≡ some (w', e)
      → (k : ℕ) → Kept (get k w.store) (get k w'.store)
  saved-Kept w v w' e h same k =
      let user = record v.user { last_sale_adjust = now } in
      subst (Kept (get k w.store))
        (sym (user_keeps user k v.store) ∙ ap (λ z. get k z.store) (first_same same)) (h.1 k)

  -- If no save of a sale fails and the user is saved beside the sales, which are stored under their
  -- ids, then AdjustSales, whatever it answers, leaves each sale as it was but for the times at
  -- which it reached the median, the low and the stale price, and adds and removes none.
  pub adjust_sales-Kept :
      (config : SaleConfig) (w w' : Work S Q) (e : Option Err)
      → Keyed io.own_sales w.store
      → adjust_sales io real name_of now config w ≡ some (w', e)
      → (k : ℕ) → Kept (get k w.store) (get k w'.store)
  unfolding adjust_sales
  adjust_sales-Kept config w w' e h same k = elim (Bool-cases (not config.handle_price_updates)) [
    | inl off ↦ saved-Kept w w w' e (Safe-refl w.store h) (rw (off) at same) k
    | inr on ↦ elim (Result-cases (io.own_sales.get_sales w.store)) [
      | inl (sids, listed) ↦
          let all = adjust_all-Safe config sids w h in
          elim (Option-cases (adjust_all io real name_of now config sids w)) [
            | inl panics ↦ absurd (cc (rw (on, listed, panics) at same))
            | inr (v, goes) ↦
                saved-Kept w v w' e (rw (goes) at all) (rw (on, listed, goes) at same) k
          ]
      | inr (x, fails) ↦
          let q = rw (on, fails) at same in
          Kept-same refl (sym (ap (λ z. get k z.store) (first_same q)))
    ]
  ]
