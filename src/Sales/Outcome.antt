-- ===== src/Sales/Outcome.antt =====
-- What a price change of background/sales.go leaves in the store.
use gramophile.Prelude.{
  ℕ, ℤ, eqb_ℤ, eqb_ℤ_iff, String, true, false, ◌||◌, Option, none, some, [], ◌∷◌, sprint, ◌==◌, ◌≡◌,
  ◌⊎◌, inl, inr, refl, sym, ap, ◌∙◌, subst, Bool-cases, Option-cases,
}
use gramophile.Status.{Err, ok, err, is_not_found, is_failed_precondition, error_is, Result-cases}
use gramophile.Sales.Types.{Price, SaleInfo, value_of}
use gramophile.Sales.Store.{SaleDb, SaleDbLaws}
use gramophile.Sales.Synced.{Keyed}
use gramophile.Sales.Passes.{Work, SaleIo}
use gramophile.Sales.Reprice.{with_value, repriced, update_sale_price, process_update_sale}

value_of-with_value : (n : ℤ) (p : Option Price) → value_of (with_value n p) ≡ n
value_of-with_value n none = refl
value_of-with_value n (some p) = refl

-- Sale `sid` is stored with price `n`.
abbrev pub Priced : {S : Type 0} → SaleDb S → ℕ → ℤ → S → Type 0
Priced db sid n s = (x : SaleInfo) × (db.get_sale sid s ≡ ok x) × (value_of x.current_price ≡ n)

module _ {S Q D : Type 0} (io : SaleIo S Q) (laws : SaleDbLaws io.sales)
    (change_price : ℕ → ℕ → String → ℤ → D → D × Option Err) (now : ℕ)
    (saves : (x : SaleInfo) (s : S) → (io.sales.save_sale x s).1 ≡ none) where
  save-Priced :
      (x : SaleInfo) (sid : ℕ) (n : ℤ) (s : S)
      → x.sale_id ≡ sid
      → value_of x.current_price ≡ n
      → Priced io.sales sid n (io.sales.save_sale x s).0
  save-Priced x sid n s e v = (
    x,
    subst (λ k. io.sales.get_sale k (io.sales.save_sale x s).0 ≡ ok x) e
        (laws.get-save x s (saves x s)),
    v,
  )

  -- Why the run of a price change failed: the sale could not be loaded, or the shop refused.
  abbrev pub Because : ℕ → ℕ → String → ℤ → D → Work S Q → Err → Type 0
  Because sid release condition n d w e =
      (x : Err) × (e.code ≡ x.code)
      × ((io.sales.get_sale sid w.store ≡ err x)
          ⊎ ((change_price sid release condition n d).1 ≡ some x))

  -- The sale has the price already, and the shop is not asked, or the shop has taken it.
  abbrev pub Taken : ℕ → ℕ → String → ℤ → D → Work S Q → D → Type 0
  Taken sid release condition n d w d' =
      ((c : SaleInfo) × (io.sales.get_sale sid w.store ≡ ok c)
        × (value_of c.current_price ≡ n)
        × (d' ≡ d))
      ⊎ (((change_price sid release condition n d).1 ≡ none)
          × (d' ≡ (change_price sid release condition n d).0))

  -- The price is stored, or the shop refused since the sale has changed, or an error is answered.
  abbrev pub Updated : ℕ → ℕ → String → ℤ → D → Work S Q → (D × Work S Q) × Option Err → Type 0
  Updated sid release condition n d w r =
      ((r.1 ≡ none) × Priced io.sales sid n r.0.1.store × Taken sid release condition n d w r.0.0)
      ⊎ ((r.1 ≡ none)
          × (r.0.1 ≡ w)
          × (error_is is_failed_precondition (change_price sid release condition n d).1 ≡ true))
      ⊎ ((e : Err) × (r.1 ≡ some e) × (r.0.1 ≡ w) × Because sid release condition n d w e)

  update_sale_price-Updated :
      (sid release : ℕ) (condition : String) (n : ℤ) (motivation : String) (d : D) (w : Work S Q)
      → Keyed io.sales w.store
      → Updated sid release condition n d w
          (update_sale_price io change_price now sid release condition n motivation d w)
  unfolding update_sale_price
  update_sale_price-Updated sid release condition n motivation d w keyed =
      elim (Result-cases (io.sales.get_sale sid w.store)) [
        | inr (e, bad) ↦ inr (
            inr (
              record e { message = sprint ("unable to load sale: " ∷ e.message ∷ []) },
              rw (bad, update_sale_price) refl,
              rw (bad, update_sale_price) refl,
              (e, refl, inl bad),
            ))
        | inl (c, good) ↦ elim (Bool-cases (eqb_ℤ (value_of c.current_price) n)) [
          | inl same ↦ inl (
            rw (good, update_sale_price, same) refl,
            rw (good, update_sale_price, same)
                (save-Priced (record c { last_price_update = now }) sid n w.store (keyed sid c good)
                  ((eqb_ℤ_iff (value_of c.current_price) n).0 same)),
            inl (
              c,
              good,
              (eqb_ℤ_iff (value_of c.current_price) n).0 same,
              rw (good, update_sale_price, same) refl,
            ),
          )
          | inr new ↦ elim (Option-cases (change_price sid release condition n d).1) [
            | inl changed ↦ inl (
              rw (good, update_sale_price, new, changed) (saves _ _),
              rw (good, update_sale_price, new, changed)
                  (save-Priced (repriced now n motivation c) sid n w.store (keyed sid c good)
                    (value_of-with_value n c.current_price)),
              inr (changed, rw (good, update_sale_price, new, changed) refl),
            )
            | inr (e, refused) ↦ elim (Bool-cases (is_failed_precondition e.code)) [
              | inl gone ↦ inr (
                  inl (
                    rw (good, update_sale_price, new, refused, gone) refl,
                    rw (good, update_sale_price, new, refused) refl,
                    rw (refused) gone,
                  ))
              | inr other ↦ inr (
                  inr (
                    record e {
                      message = sprint ("unable to update sale price: " ∷ e.message ∷ []);
                    },
                    rw (good, update_sale_price, new, refused, other) refl,
                    rw (good, update_sale_price, new, refused) refl,
                    (e, refl, inr refused),
                  ))
            ]
          ]
        ]
      ]

  -- What ProcessUpdateSale does with a complete entry.
  abbrev pub Processed : ℕ → ℕ → String → ℤ → D → Work S Q → (D × Work S Q) × Option Err → Type 0
  Processed sid release condition n d w r =
      ((r.1 ≡ none) × Priced io.sales sid n r.0.1.store × Taken sid release condition n d w r.0.0)
      ⊎ ((r.1 ≡ none)
          × (r.0.1 ≡ w)
          × (error_is is_failed_precondition (change_price sid release condition n d).1 ≡ true))
      ⊎ ((r.1 ≡ none)
          × (e : Err) × Because sid release condition n d w e
          × (is_not_found e.code ≡ true)
          × (x : Err) × (io.sales.get_sale sid r.0.1.store ≡ err x))
      ⊎ ((e : Err) × (r.1 ≡ some e)
          × (is_not_found e.code ≡ false)
          × (r.0.1 ≡ w)
          × Because sid release condition n d w e)

  -- If the Discogs client is of the stored user and no save and no delete fails, ProcessUpdateSale on an entry with both conditions ends in one of
  -- four ways. The sale is stored with the new price, which the shop has taken or which the sale had
  -- before; or all is left as it was, since the shop answers that the sale has changed; or the sale
  -- is deleted, since the database or the shop answers that it is not found; or another error of
  -- theirs is answered and all is left as it was.
  pub process_update_sale-Processed :
      (sid release : ℕ) (condition : String) (n : ℤ) (motivation sleeve : String) (d : D)
      (w : Work S Q)
      → io.own_sales ≡ io.sales
      → ((k : ℕ) (s : S) → (io.sales.delete_sale k s).1 ≡ none)
      → Keyed io.sales w.store
      → (condition == "" || sleeve == "") ≡ false
      → Processed sid release condition n d w
          (process_update_sale io change_price now sid n release condition motivation sleeve d w)
  unfolding process_update_sale
  process_update_sale-Processed sid release condition n motivation sleeve d w own deletes keyed
        full =
      let r = update_sale_price io change_price now sid release condition n motivation d w in
      let run =
        process_update_sale io change_price now sid n release condition motivation sleeve d w in
      let cut = io.sales.delete_sale sid r.0.1.store in
      elim (update_sale_price-Updated sid release condition n motivation d w keyed) [
        | inl (fine, priced, taken) ↦
            let same : run ≡ r = rw (full, process_update_sale, fine) refl in
            inl (
              ap (λ z. z.1) same ∙ fine,
              subst (λ z. Priced io.sales sid n z.0.1.store) (sym same) priced,
              subst (λ z. Taken sid release condition n d w z.0.0) (sym same) taken,
            )
        | inr (inl (fine, stays, refused)) ↦
            let same : run ≡ r = rw (full, process_update_sale, fine) refl in
            inr (inl (ap (λ z. z.1) same ∙ fine, ap (λ z. z.0.1) same ∙ stays, refused))
        | inr (inr (e, failed, stays, why)) ↦ elim (Bool-cases (is_not_found e.code)) [
          | inl gone ↦
              let same : run ≡ ((r.0.0, record r.0.1 { store = cut.0 }), cut.1) =
                rw (full, process_update_sale, failed, gone)
                  (ap
                    (λ db. (
                      (r.0.0, record r.0.1 { store = (db.delete_sale sid r.0.1.store).0 }),
                      (db.delete_sale sid r.0.1.store).1,
                    ))
                    own) in
              let lost = laws.get-delete sid r.0.1.store (deletes sid r.0.1.store) in
              inr (
                inr (
                  inl (
                    ap (λ z. z.1) same ∙ deletes sid r.0.1.store,
                    e,
                    why,
                    gone,
                    lost.0,
                    ap (λ z. io.sales.get_sale sid z.0.1.store) same ∙ lost.1,
                  )))
          | inr other ↦
              let same : run ≡ r = rw (full, process_update_sale, failed, other) refl in
              inr (
                inr
                  (inr (e, ap (λ z. z.1) same ∙ failed, other, ap (λ z. z.0.1) same ∙ stays, why)))
        ]
      ]
