-- ===== src/Sales/Page.antt =====
-- A page of SyncSales, background/sales.go.
use gramophile.Prelude.{
  ℕ, ltb, Bool, true, false, List, [], ◌∷◌, ◌≡◌, ◌≢◌, inl, inr, refl, sym, ap, ◌∙◌, subst, All,
  All-mono, arith,
}
use gramophile.Status.{Result, ok, err, Result-cases}
use gramophile.Sales.Types.{SaleItem}
use gramophile.Sales.Store.{SaleDb, SaleDbLaws}
use gramophile.Sales.Sync.{sync_sale, sync_items, sync_sales}
use gramophile.Sales.Synced.{
  Agrees, Different, Keyed, sync_sale-Agrees, sync_sale-other, sync_items-Next,
}

module _ {S : Type 0} (db : SaleDb S) (laws : SaleDbLaws db) (now id last : ℕ) where
  sync_items-other :
      (is : List SaleItem) (s : S) (k : ℕ)
      → Keyed db s
      → All (λ i. k ≢ i.sale_id) is
      → db.get_sale k (sync_items db now id last is s).0 ≡ db.get_sale k s
  unfolding sync_items
  sync_items-other [] s k keyed h = refl
  sync_items-other (i ∷ is) s k keyed h =
      let first = sync_sale-other db laws now id last i s k keyed h.0 in
      elim (sync_items-Next db laws now id last i is s) [
        | inl (e, r) ↦ ap (λ z. db.get_sale k z.0) r ∙ first
        | inr (inl (stop, r)) ↦ ap (λ z. db.get_sale k z.0) r ∙ first
        | inr (inr (more, r)) ↦
            let step = sync_sale-Agrees db laws now id last i s keyed more in
            ap (λ z. db.get_sale k z.0) r
            ∙ sync_items-other is (sync_sale db now id last i s).0 k step.1 h.1
            ∙ first
      ]

  sync_items-Agrees :
      (is : List SaleItem) (s : S)
      → Keyed db s
      → Different is
      → (sync_items db now id last is s).1 ≡ ok false
      → All (λ i. Agrees id i (db.get_sale i.sale_id (sync_items db now id last is s).0)) is
  unfolding sync_items
  sync_items-Agrees [] s keyed d h = tt
  sync_items-Agrees (i ∷ is) s keyed d h = elim (sync_items-Next db laws now id last i is s) [
    | inl (e, r) ↦ let q : err e ≡ ok false = sym (ap (λ z. z.1) r) ∙ h in absurd (cc)
    | inr (inl (stop, r)) ↦ let q : ok true ≡ ok false = sym (ap (λ z. z.1) r) ∙ h in absurd (cc)
    | inr (inr (more, r)) ↦
        let s' = (sync_sale db now id last i s).0 in
        let step = sync_sale-Agrees db laws now id last i s keyed more in
        let stays =
          sync_items-other is s' i.sale_id step.1
            (All-mono {P = λ j. j.sale_id ≢ i.sale_id} is (λ j n e. n (sym e)) d.0) in
        let rest = sync_items-Agrees is s' step.1 d.1 (sym (ap (λ z. z.1) r) ∙ h) in
        subst (λ z. All (λ j. Agrees id j (db.get_sale j.sale_id z.0)) (i ∷ is)) (sym r)
          (subst (Agrees id i) (sym stays) step.0, rest)
  ]

  sync_items_whole :
      (is : List SaleItem) (s : S) {b : Bool}
      → Keyed db s
      → ltb 0 last ≡ false
      → (sync_items db now id last is s).1 ≡ ok b
      → b ≡ false
  unfolding sync_items
  sync_items_whole [] s {b} keyed l h = cc
  sync_items_whole (i ∷ is) s {b} keyed l h = elim (sync_items-Next db laws now id last i is s) [
    | inl (e, r) ↦ let q : err e ≡ ok b = sym (ap (λ z. z.1) r) ∙ h in absurd (cc)
    | inr (inl (stop, r)) ↦
        let no = (sync_sale-Agrees db laws now id last i s keyed stop).2 l in absurd (cc)
    | inr (inr (more, r)) ↦
        let step = sync_sale-Agrees db laws now id last i s keyed more in
        sync_items_whole is (sync_sale db now id last i s).0 step.1 l (sym (ap (λ z. z.1) r) ∙ h)
  ]

  result :
      (is : List SaleItem) (pages : ℕ) (s : S) {p : ℕ} {b : Bool}
      → (sync_sales db now id last (ok (is, pages)) s).1 ≡ ok (p, b)
      → ((sync_items db now id last is s).1 ≡ ok b) × (p ≡ pages)
  unfolding sync_sales
  result is pages s {p} {b} h = elim (Result-cases (sync_items db now id last is s).1) [
    | inl (x, e) ↦
        let q : ◌≡◌ {A = Result (ℕ × Bool)} (ok (pages, x)) (ok (p, b)) = rw (e, sync_sales) at h in
        let r : ◌≡◌ {A = ℕ × Bool} (pages, x) (p, b) = cc in
        (e ∙ ap (λ z. ok z.1) r, sym (ap (λ z. z.0) r))
    | inr (x, e) ↦
        let q : ◌≡◌ {A = Result (ℕ × Bool)} (err x) (ok (p, b)) = rw (e, sync_sales) at h in
        absurd (cc)
  ]

  -- If SyncSales goes through a page whose sales are different without an early end, each sale of
  -- the page is then stored with the refresh id, the state and the price of the shop.
  pub sync_sales-Agrees :
      (is : List SaleItem) (pages p : ℕ) (s : S)
      → Keyed db s
      → Different is
      → (sync_sales db now id last (ok (is, pages)) s).1 ≡ ok (p, false)
      → All
          (λ i.
            Agrees id i (db.get_sale i.sale_id (sync_sales db now id last (ok (is, pages)) s).0))
          is
  unfolding sync_sales
  sync_sales-Agrees is pages p s keyed d h = sync_items-Agrees is s keyed d (result is pages s h).0

  -- Without a last refresh, as a reconciliation calls it, SyncSales never ends a page early, and it
  -- hands on the number of pages.
  pub sync_sales_whole :
      (is : List SaleItem) (pages p : ℕ) (b : Bool) (s : S)
      → Keyed db s
      → last ≡ 0
      → (sync_sales db now id last (ok (is, pages)) s).1 ≡ ok (p, b)
      → (p ≡ pages) × (b ≡ false)
  sync_sales_whole is pages p b s keyed l h =
      let r = result is pages s h in (r.1, sync_items_whole is s keyed (ground arith) r.0)

  -- Whatever it answers, SyncSales leaves the sales that the page does not list.
  pub sync_sales-other :
      (is : List SaleItem) (pages : ℕ) (s : S) (k : ℕ)
      → Keyed db s
      → All (λ i. k ≢ i.sale_id) is
      → db.get_sale k (sync_sales db now id last (ok (is, pages)) s).0 ≡ db.get_sale k s
  unfolding sync_sales
  sync_sales-other is pages s k keyed h = sync_items-other is s k keyed h
