-- ===== src/Sales/Clean.antt =====
-- CleanSales of background/cleancollection.go.
use gramophile.Prelude.{
  ℕ, eqb, eqb_iff, Option, none, some, List, [], ◌∷◌, Memᴰ, ◌↔◌, ◌≡◌, ◌≢◌, inl, inr, refl, sym, ap,
  ◌∙◌, Bool-cases, if◌then◌else◌,
}
use gramophile.Status.{Err, ok, err, Result-cases}
use gramophile.Sales.Types.{SaleInfo}
use gramophile.Sales.Store.{SaleDb, SaleDbLaws}

module _ {S : Type 0} (db : SaleDb S) (id : ℕ) where
  -- The error of a delete is dropped.
  unfoldable pub clean_ids : List ℕ → S → S × Option Err
  clean_ids [] s = (s, none)
  clean_ids (k ∷ ks) s = elim (db.get_sale k s) [
    | err e ↦ (s, some e)
    | ok c ↦
        let kept = clean_ids ks s in
        let rest = clean_ids ks (db.delete_sale k s).0 in if eqb c.refresh_id id then kept else rest
  ]

  unfoldable pub clean_sales : S → S × Option Err
  unfolding clean_ids
  clean_sales s = elim (db.get_sales s) [ err e ↦ (s, some e) | ok ids ↦ clean_ids ids s ]

module _ {S : Type 0} (db : SaleDb S) (laws : SaleDbLaws db) (id : ℕ) where
  -- A sale of this refresh stays as it is.
  clean_ids-kept :
      (ks : List ℕ) (s : S) (j : ℕ) {x : SaleInfo}
      → db.get_sale j s ≡ ok x
      → x.refresh_id ≡ id
      → db.get_sale j (clean_ids db id ks s).0 ≡ ok x
  unfolding clean_ids
  clean_ids-kept [] s j {x} h r = h
  clean_ids-kept (k ∷ ks) s j {x} h r = elim (Result-cases (db.get_sale k s)) [
    | inr (e, bad) ↦ rw (bad, clean_ids) h
    | inl (c, good) ↦ elim (Bool-cases (eqb c.refresh_id id)) [
      | inl keep ↦ rw (good, clean_ids, keep) (clean_ids-kept ks s j h r)
      | inr stale ↦
          let apart : j ≢ k = λ e.
            let both : ok c ≡ ok x = sym good ∙ ap (λ z. db.get_sale z s) (sym e) ∙ h in
            let same : c ≡ x = cc in
            absurd (cc (stale, (eqb_iff c.refresh_id id).1 (ap (λ z. z.refresh_id) same ∙ r))) in
          rw (good, clean_ids, stale)
            (clean_ids-kept ks (db.delete_sale k s).0 j (laws.get-delete_other k j s apart ∙ h) r)
    ]
  ]

module _ {S : Type 0} (db : SaleDb S) (laws : SaleDbLaws db) (id : ℕ)
    (deletes : (k : ℕ) (s : S) → (db.delete_sale k s).1 ≡ none) where
  delete_was :
      (k j : ℕ) (s : S) {x : SaleInfo}
      → db.get_sale j (db.delete_sale k s).0 ≡ ok x
      → (j ≢ k) × (db.get_sale j s ≡ ok x)
  delete_was k j s {x} h =
      let apart : j ≢ k = λ e.
        let gone = laws.get-delete k s (deletes k s) in
        let both : ok x ≡ err gone.0 =
          sym h ∙ ap (λ z. db.get_sale z (db.delete_sale k s).0) e ∙ gone.1 in
        absurd (cc) in
      (apart, sym (laws.get-delete_other k j s apart) ∙ h)

  -- What is there after was there before.
  clean_ids_was :
      (ks : List ℕ) (s : S) (j : ℕ) {x : SaleInfo}
      → db.get_sale j (clean_ids db id ks s).0 ≡ ok x
      → db.get_sale j s ≡ ok x
  unfolding clean_ids
  clean_ids_was [] s j h = h
  clean_ids_was (k ∷ ks) s j {x} h = elim (Result-cases (db.get_sale k s)) [
    | inr (e, bad) ↦ rw (bad, clean_ids) at h
    | inl (c, good) ↦ elim (Bool-cases (eqb c.refresh_id id)) [
      | inl keep ↦ clean_ids_was ks s j (rw (good, clean_ids, keep) at h)
      | inr stale ↦
          (delete_was k j s
            (clean_ids_was ks (db.delete_sale k s).0 j (rw (good, clean_ids, stale) at h))).1
    ]
  ]

  clean_ids-fresh :
      (ks : List ℕ) (s : S) (j : ℕ) {x : SaleInfo}
      → Memᴰ j ks
      → (clean_ids db id ks s).1 ≡ none
      → db.get_sale j (clean_ids db id ks s).0 ≡ ok x
      → x.refresh_id ≡ id
  unfolding clean_ids
  clean_ids-fresh [] s j m d h = elim m [ ]
  clean_ids-fresh (k ∷ ks) s j {x} m d h = elim (Result-cases (db.get_sale k s)) [
    | inr (e, bad) ↦ let q : some e ≡ none = rw (bad, clean_ids) at d in absurd (cc)
    | inl (c, good) ↦ elim (Bool-cases (eqb c.refresh_id id)) [
      | inl keep ↦
          let h' : db.get_sale j (clean_ids db id ks s).0 ≡ ok x =
            rw (good, clean_ids, keep) at h in
          elim m [
            | Memᴰ.head e ↦
                let both : ok c ≡ ok x =
                  sym good ∙ ap (λ z. db.get_sale z s) (sym e) ∙ clean_ids_was ks s j h' in
                let same : c ≡ x = cc in
                ap (λ z. z.refresh_id) (sym same) ∙ (eqb_iff c.refresh_id id).0 keep
            | Memᴰ.tail l ↦ clean_ids-fresh ks s j l (rw (good, clean_ids, keep) at d) h'
          ]
      | inr stale ↦
          let h' : db.get_sale j (clean_ids db id ks (db.delete_sale k s).0).0 ≡ ok x =
            rw (good, clean_ids, stale) at h in
          elim m [
            | Memᴰ.head e ↦
                absurd ((delete_was k j s (clean_ids_was ks (db.delete_sale k s).0 j h')).0 e)
            | Memᴰ.tail l ↦
                clean_ids-fresh ks (db.delete_sale k s).0 j l (rw (good, clean_ids, stale) at d) h'
          ]
    ]
  ]

  -- If no delete fails and CleanSales reports no error, a sale that was listed is there afterwards
  -- exactly if it was there before and carries the refresh id.
  pub clean_sales-Pruned :
      (s : S) (ids : List ℕ) (j : ℕ) (x : SaleInfo)
      → db.get_sales s ≡ ok ids
      → Memᴰ j ids
      → (clean_sales db id s).1 ≡ none
      → (db.get_sale j (clean_sales db id s).0 ≡ ok x)
        ↔ ((db.get_sale j s ≡ ok x) × (x.refresh_id ≡ id))
  unfolding clean_sales
  clean_sales-Pruned s ids j x l m d =
      let same : clean_sales db id s ≡ clean_ids db id ids s = rw (l, clean_sales) refl in
      let clear : (clean_ids db id ids s).1 ≡ none = sym (ap (λ z. z.1) same) ∙ d in
      (
        (λ h.
            let h' = sym (ap (λ z. db.get_sale j z.0) same) ∙ h in
            (clean_ids_was ids s j h', clean_ids-fresh ids s j m clear h')),
        (λ h. ap (λ z. db.get_sale j z.0) same ∙ clean_ids-kept db laws id ids s j h.0 h.1),
      )

module _ {S : Type 0} (db : SaleDb S) (laws : SaleDbLaws db) (id : ℕ) where
  pub clean_sales_kept :
      (s : S) (j : ℕ) {x : SaleInfo}
      → db.get_sale j s ≡ ok x
      → x.refresh_id ≡ id
      → db.get_sale j (clean_sales db id s).0 ≡ ok x
  unfolding clean_sales
  clean_sales_kept s j h r = elim (Result-cases (db.get_sales s)) [
    | inr (e, bad) ↦ rw (bad, clean_sales) h
    | inl (ids, good) ↦ rw (good, clean_sales) (clean_ids-kept db laws id ids s j h r)
  ]
