-- ===== src/Sales/Synced.antt =====
-- What SyncSales of background/sales.go leaves in the store.
use gramophile.Prelude.{
  ℕ, ltb, eqb, Bool, true, false, none, List, [], ◌∷◌, ◌≡◌, ◌≢◌, ◌⊎◌, inl, inr, refl, sym, ap, ◌∙◌,
  subst, All, arith, Bool-cases, Option-cases,
}
use gramophile.Status.{Err, Result, ok, err, is_not_found, Result-cases}
use gramophile.Sales.Types.{SaleInfo, SaleItem, value_of}
use gramophile.Sales.Updates.{tidy_updates}
use gramophile.Sales.Store.{SaleDb, SaleDbLaws}
use gramophile.Sales.Sync.{new_sale, merge, is_old, save_then, sync_sale, sync_items}

-- The stored sale agrees with the listed one and carries the refresh id.
abbrev pub Agrees : ℕ → SaleItem → Result SaleInfo → Type 0
Agrees id i r =
    (x : SaleInfo) × (r ≡ ok x)
    × (x.refresh_id ≡ id)
    × (x.sale_state ≡ i.status)
    × (value_of x.current_price ≡ value_of i.price)

-- The ids of a page are different.
abbrev pub Different : List SaleItem → Type 0
Different [] = Unit
Different (i ∷ is) = All (λ j. j.sale_id ≢ i.sale_id) is × Different is

module _ {S : Type 0} (db : SaleDb S) where
  -- Each sale is stored under its id.
  abbrev pub Keyed : S → Type 0
  Keyed s = (k : ℕ) (x : SaleInfo) → db.get_sale k s ≡ ok x → x.sale_id ≡ k

module _ {S : Type 0} (db : SaleDb S) (laws : SaleDbLaws db) (now id last : ℕ) where
  pub save-Keyed :
      (c : SaleInfo) (s : S)
      → (db.save_sale c s).1 ≡ none
      → Keyed db s
      → Keyed db (db.save_sale c s).0
  save-Keyed c s saved h k x e = elim (Bool-cases (eqb k c.sale_id)) [
    | inl here ↦
        let same : c.sale_id ≡ k = ground arith in
        let both : ok c ≡ ok x =
          sym (laws.get-save c s saved) ∙ ap (λ j. db.get_sale j (db.save_sale c s).0) same ∙ e in
        let eq : c ≡ x = cc in ap (λ z. z.sale_id) (sym eq) ∙ same
    | inr there ↦ h k x (sym (laws.get-save_other c k s (λ z. ground arith)) ∙ e)
  ]

  save_then-Saved :
      (c : SaleInfo) (x : Bool) (s : S) {b : Bool}
      → (save_then db now id last c x s).1 ≡ ok b
      → ((db.save_sale c s).1 ≡ none) × (x ≡ b)
  save_then-Saved c x s {b} h = elim (Option-cases (db.save_sale c s).1) [
    | inl saved ↦ let q : ok x ≡ ok b = rw (saved) at h in (saved, cc)
    | inr (e, failed) ↦ let q : err e ≡ ok b = rw (failed) at h in absurd (cc)
  ]

  -- A turn saves one sale that agrees with the listed one, or fails.
  Turn : SaleItem → S → S × Result Bool → Type 0
  Turn i s r =
      ((e : Err) × (r ≡ (s, err e)))
      ⊎ ((c : SaleInfo) × (x : Bool) × (r ≡ save_then db now id last c x s)
          × (ltb 0 last ≡ false → x ≡ false)
          × (c.sale_id ≡ i.sale_id)
          × Agrees id i (ok c))

  sync_sale-Turn : (i : SaleItem) (s : S) → Keyed db s → Turn i s (sync_sale db now id last i s)
  unfolding Turn sync_sale merge tidy_updates
  sync_sale-Turn i s keyed = elim (Result-cases (db.get_sale i.sale_id s)) [
    | inl (c, found) ↦ inr (
      merge now id i c,
      is_old last (merge now id i c),
      rw (found, sync_sale) refl,
      (λ h. rw (h) refl),
      keyed i.sale_id c found,
      (merge now id i c, refl, refl, refl, refl),
    )
    | inr (e, failed) ↦ elim (Bool-cases (is_not_found e.code)) [
      | inl gone ↦ inr (
        new_sale now id i,
        false,
        rw (failed, sync_sale, gone) refl,
        (λ h. refl),
        refl,
        (new_sale now id i, refl, refl, refl, refl),
      )
      | inr other ↦ inl (e, rw (failed, sync_sale, other) refl)
    ]
  ]

  pub sync_sale-Agrees :
      (i : SaleItem) (s : S) {b : Bool}
      → Keyed db s
      → (sync_sale db now id last i s).1 ≡ ok b
      → Agrees id i (db.get_sale i.sale_id (sync_sale db now id last i s).0)
        × Keyed db (sync_sale db now id last i s).0
        × (ltb 0 last ≡ false → b ≡ false)
  unfolding Turn
  sync_sale-Agrees i s {b} keyed h = elim (sync_sale-Turn i s keyed) [
    | inl (e, r) ↦ let q : err e ≡ ok b = sym (ap (λ z. z.1) r) ∙ h in absurd (cc)
    | inr (c, x, r, early, same, (y, eq, at_id, at_state, at_price)) ↦
        let done = save_then-Saved c x s (sym (ap (λ z. z.1) r) ∙ h) in
        let after : (sync_sale db now id last i s).0 ≡ (db.save_sale c s).0 = ap (λ z. z.0) r in
        let read =
          subst (λ k. db.get_sale k (db.save_sale c s).0 ≡ ok c) same (laws.get-save c s done.0) in
        (
          subst (λ z. Agrees id i (db.get_sale i.sale_id z)) (sym after)
              (y, read ∙ eq, at_id, at_state, at_price),
          subst (Keyed db) (sym after) (save-Keyed c s done.0 keyed),
          (λ l. sym done.1 ∙ early l),
        )
  ]

  pub sync_sale-other :
      (i : SaleItem) (s : S) (k : ℕ)
      → Keyed db s
      → k ≢ i.sale_id
      → db.get_sale k (sync_sale db now id last i s).0 ≡ db.get_sale k s
  unfolding Turn
  sync_sale-other i s k keyed apart = elim (sync_sale-Turn i s keyed) [
    | inl (e, r) ↦ ap (λ z. db.get_sale k z.0) r
    | inr (c, x, r, early, same, agree) ↦
        ap (λ z. db.get_sale k z.0) r ∙ laws.get-save_other c k s (λ z. apart (z ∙ same))
  ]

  -- The three ways on from a sale.
  abbrev pub Next : SaleItem → List SaleItem → S → Type 0
  Next i is s =
      ((e : Err) × (sync_items db now id last (i ∷ is) s
          ≡ ((sync_sale db now id last i s).0, err e)))
      ⊎ (((sync_sale db now id last i s).1 ≡ ok true)
          × (sync_items db now id last (i ∷ is) s ≡ ((sync_sale db now id last i s).0, ok true)))
      ⊎ (((sync_sale db now id last i s).1 ≡ ok false)
          × (sync_items db now id last (i ∷ is) s
              ≡ sync_items db now id last is (sync_sale db now id last i s).0))

  pub sync_items-Next : (i : SaleItem) (is : List SaleItem) (s : S) → Next i is s
  unfolding sync_items
  sync_items-Next i is s = elim (Result-cases (sync_sale db now id last i s).1) [
    | inr (e, failed) ↦ inl (e, rw (failed, sync_items) refl)
    | inl (b, done) ↦ elim (Bool-cases b) [
      | inl stop ↦ let r = done ∙ ap (λ z. ok z) stop in inr (inl (r, rw (r, sync_items) refl))
      | inr more ↦ let r = done ∙ ap (λ z. ok z) more in inr (inr (r, rw (r, sync_items) refl))
    ]
  ]
