-- ===== src/Sales/Chain.antt =====
-- The last page of a reconciliation, background/sales.go.
use gramophile.Prelude.{
  ℕ, ◌+◌, leb, eqb, true, false, ◌||◌, Option, none, some, List, Memᴰ, ◌≡◌, inl, inr, refl, sym, ap,
  ◌∙◌, subst, All, All-mono,
}
use gramophile.Status.{Err, Result, ok, Result-cases}
use gramophile.Queue.Element.{QueueElement, Entry}
use gramophile.Sales.Types.{SaleInfo, SaleItem}
use gramophile.Sales.Store.{SaleDbLaws}
use gramophile.Sales.Sync.{sync_sales}
use gramophile.Sales.Synced.{Agrees, Different, Keyed}
use gramophile.Sales.Page.{sync_sales-Agrees, sync_sales_whole}
use gramophile.Sales.Clean.{clean_sales, clean_sales_kept, clean_sales-Pruned}
use gramophile.Sales.Passes.{
  SyncUser, Work, SaleIo, pruned_sales, and_then, wrap, sale_task, save_user, enqueue_if_not_exists,
  clean, end_reconcile, sync_page, reconcile_page,
}

pub and_then-none {ℓ} :
    {W : Type ℓ} (r : W × Option Err) (f : W → W × Option Err)
    → (and_then r f).1 ≡ none
    → (r.1 ≡ none) × (and_then r f ≡ f r.0)
and_then-none (w, none) f h = (refl, refl)
and_then-none (w, some e) f h = absurd (cc)

wrap-none : (text : _) (o : Option Err) → wrap text o ≡ none → o ≡ none
wrap-none text none h = refl
wrap-none text (some e) h = absurd (cc)

module _ {S Q : Type 0} (io : SaleIo S Q) (now : ℕ)
    (apart : (u : SyncUser) (s : S) (k : ℕ)
      → io.sales.get_sale k (io.write_user u s).0 ≡ io.sales.get_sale k s)
    (known : eqb io.shop_user 0 ≡ false) where
  -- A pass that ends without an error has pruned the sales and left the others.
  end_reconcile-store :
      (e : QueueElement) (id : ℕ) (w : Work S Q)
      → (end_reconcile io now e id w).1 ≡ none
      → let w' = (end_reconcile io now e id w).0 in
        ((clean_sales io.sales id w.store).1 ≡ none)
        × ((k : ℕ)
            → io.sales.get_sale k w'.store
              ≡ io.sales.get_sale k (clean_sales io.sales id w.store).0)
  unfolding end_reconcile clean save_user enqueue_if_not_exists
  end_reconcile-store e id w h =
      let own : pruned_sales io ≡ io.sales = rw (known) refl in
      let link = λ (w : Work S Q).
        enqueue_if_not_exists io now "unable to enqueue link job: "
          (sale_task (now + 10) e false (Entry.link_sales id)) w in
      let store = λ (w : Work S Q). save_user io now (record w {
        user = record w.user {
          last_sale_reconcile = now;
          last_sale_refresh = now;
          sale_sync_active_time = 0;
        };
      }) in
      let first = and_then-none (clean io now id w) (λ w. and_then (link w) store) h in
      let rest : (and_then (link (clean io now id w).0) store).1 ≡ none =
        sym (ap (λ z. z.1) first.1) ∙ h in
      let second = and_then-none (link (clean io now id w).0) store rest in
      let whole : end_reconcile io now e id w ≡ store (link (clean io now id w).0).0 =
        first.1 ∙ second.1 in
      (
        subst (λ db. (clean_sales db id w.store).1 ≡ none) own
            (wrap-none "unable to clean sales: " _ first.0),
        (λ k.
            subst
              (λ db.
                io.sales.get_sale k (end_reconcile io now e id w).0.store
                ≡ io.sales.get_sale k (clean_sales db id w.store).0)
              own (ap (λ z. io.sales.get_sale k z.0.store) whole ∙ apart _ _ k)),
      )

-- `read_user` reads the user back that a save without an error has written.
abbrev pub ReadsUser : {S Q : Type 0} → SaleIo S Q → (S → Result SyncUser) → Type 0
ReadsUser {S} io read_user =
    (u : SyncUser) (s : S) → (io.write_user u s).1 ≡ none → read_user (io.write_user u s).0 ≡ ok u

module _ {S Q : Type 0} (io : SaleIo S Q) (now : ℕ) (read_user : S → Result SyncUser)
    (reads : ReadsUser io read_user) where
  pub save_user-stored :
      (w : Work S Q)
      → (save_user io now w).1 ≡ none
      → read_user (save_user io now w).0.store ≡ ok w.user
  unfolding save_user
  save_user-stored w h = reads w.user w.store (wrap-none "unable to save user: " _ h)

  -- The user that a pass leaves without an error is the stored one.
  end_reconcile-stored :
      (e : QueueElement) (id : ℕ) (w : Work S Q)
      → (end_reconcile io now e id w).1 ≡ none
      → (u : SyncUser) × (read_user (end_reconcile io now e id w).0.store ≡ ok u)
        × (u.last_sale_reconcile ≡ now)
        × (u.sale_sync_active_time ≡ 0)
  unfolding end_reconcile
  end_reconcile-stored e id w h =
      let link = λ (w : Work S Q).
        enqueue_if_not_exists io now "unable to enqueue link job: "
          (sale_task (now + 10) e false (Entry.link_sales id)) w in
      let ended = λ (w : Work S Q). record w {
        user = record w.user {
          last_sale_reconcile = now;
          last_sale_refresh = now;
          sale_sync_active_time = 0;
        };
      } in
      let first =
        and_then-none (clean io now id w) (λ w. and_then (link w) (λ w. save_user io now (ended w)))
          h in
      let rest : (and_then (link (clean io now id w).0) (λ w. save_user io now (ended w))).1
          ≡ none =
        sym (ap (λ z. z.1) first.1) ∙ h in
      let second =
        and_then-none (link (clean io now id w).0) (λ w. save_user io now (ended w)) rest in
      let last = ended (link (clean io now id w).0).0 in
      (
        last.user,
        ap (λ z. read_user z.0.store) (first.1 ∙ second.1)
            ∙ save_user-stored last (sym (ap (λ z. z.1) second.1) ∙ rest),
        refl,
        refl,
      )

-- A sale that agrees still does where what carries the refresh id is kept.
still :
    (id : ℕ) (i : SaleItem) {before cleaned final : Result SaleInfo}
    → final ≡ cleaned
    → ((x : SaleInfo) → before ≡ ok x → x.refresh_id ≡ id → cleaned ≡ ok x)
    → Agrees id i before
    → Agrees id i final
still id i same kept (x, r, at_id, at_state, at_price) =
    (x, same ∙ kept x r at_id, at_id, at_state, at_price)

module _ {S Q : Type 0} (io : SaleIo S Q) (laws : SaleDbLaws io.sales) (now : ℕ)
    (apart : (u : SyncUser) (s : S) (k : ℕ)
      → io.sales.get_sale k (io.write_user u s).0 ≡ io.sales.get_sale k s)
    (known : eqb io.shop_user 0 ≡ false) where
  -- The last page leaves with an answer only through the end of the pass.
  reconcile_page-end :
      (e : QueueElement) (page id pages : ℕ) (items : List SaleItem) (w : Work S Q)
      → io.list_sales page ≡ ok (items, pages)
      → (eqb pages 0 || leb pages page) ≡ true
      → Keyed io.sales w.store
      → (reconcile_page io now e page id w).1 ≡ none
      → ((sync_page io now page id 0 w).1 ≡ ok (pages, false))
        × (reconcile_page io now e page id w
            ≡ end_reconcile io now e id (sync_page io now page id 0 w).0)
  unfolding reconcile_page sync_page
  reconcile_page-end e page id pages items w listed at_end keyed h =
      elim (Result-cases (sync_page io now page id 0 w).1) [
        | inr (x, failed) ↦ let q : some x ≡ none = rw (failed, reconcile_page) at h in absurd (cc)
        | inl ((p, b), done) ↦
            let synced : (sync_sales io.sales now id 0 (ok (items, pages)) w.store).1 ≡ ok (p, b) =
              sym (ap (λ z. (sync_sales io.sales now id 0 z w.store).1) listed) ∙ done in
            let whole =
              sync_sales_whole io.sales laws now id 0 items pages p b w.store keyed refl synced in
            let done' : (sync_page io now page id 0 w).1 ≡ ok (pages, false) =
              done ∙ ap (λ z. ok (z, b)) whole.0 ∙ ap (λ z. ok (pages, z)) whole.1 in
            (done', rw (done', reconcile_page, at_end) refl)
      ]

  -- If the Discogs client has a user and the last page of a reconciliation, whose sales are different, is handled without an error,
  -- each of its sales is stored with the state and the price of the shop and was not pruned, and
  -- the user that is read from the database says that the reconciliation is done and that no
  -- synchronisation is active, where the database reads back a user that it has saved.
  pub reconcile_page-Agrees :
      (read_user : S → Result SyncUser)
      → ReadsUser io read_user
      → (e : QueueElement) (page id pages : ℕ) (items : List SaleItem) (w : Work S Q)
      → io.list_sales page ≡ ok (items, pages)
      → (eqb pages 0 || leb pages page) ≡ true
      → Keyed io.sales w.store
      → Different items
      → (reconcile_page io now e page id w).1 ≡ none
      → let w' = (reconcile_page io now e page id w).0 in
        All (λ i. Agrees id i (io.sales.get_sale i.sale_id w'.store)) items
        × (u : SyncUser) × (read_user w'.store ≡ ok u)
        × (u.last_sale_reconcile ≡ now)
        × (u.sale_sync_active_time ≡ 0)
  unfolding sync_page
  reconcile_page-Agrees read_user reads e page id pages items w listed at_end keyed different h =
      let ended = reconcile_page-end e page id pages items w listed at_end keyed h in
      let synced = (sync_page io now page id 0 w).0 in
      let after =
        end_reconcile-store io now apart known e id synced (sym (ap (λ z. z.1) ended.1) ∙ h) in
      let page_agrees : All (λ i. Agrees id i (io.sales.get_sale i.sale_id synced.store)) items =
        subst
          (λ z.
            All
              (λ i.
                Agrees id i
                  (io.sales.get_sale i.sale_id (sync_sales io.sales now id 0 z w.store).0))
              items)
          (sym listed)
          (sync_sales-Agrees io.sales laws now id 0 items pages pages w.store keyed different
            (sym (ap (λ z. (sync_sales io.sales now id 0 z w.store).1) listed) ∙ ended.0)) in
      let user =
        end_reconcile-stored io now read_user reads e id synced (sym (ap (λ z. z.1) ended.1) ∙ h) in
      let stored = λ (k : ℕ). ap (λ z. io.sales.get_sale k z.0.store) ended.1 ∙ after.1 k in
      (
        All-mono items
            (λ i a.
              still id i (stored i.sale_id)
                (λ x r q. clean_sales_kept io.sales laws id synced.store i.sale_id r q) a)
            page_agrees,
        user.0,
        ap (λ z. read_user z.0.store) ended.1 ∙ user.1,
        user.2,
        user.3,
      )

  -- If the Discogs client has a user, no delete fails and the last page of a reconciliation is handled without an error, a sale
  -- that was listed before the pruning and is still stored carries the refresh id of the pass.
  pub reconcile_page-Pruned :
      (e : QueueElement) (page id pages : ℕ) (items : List SaleItem) (w : Work S Q) (ids : List ℕ)
      (j : ℕ) (x : SaleInfo)
      → ((k : ℕ) (s : S) → (io.sales.delete_sale k s).1 ≡ none)
      → io.list_sales page ≡ ok (items, pages)
      → (eqb pages 0 || leb pages page) ≡ true
      → Keyed io.sales w.store
      → (reconcile_page io now e page id w).1 ≡ none
      → io.sales.get_sales (sync_page io now page id 0 w).0.store ≡ ok ids
      → Memᴰ j ids
      → io.sales.get_sale j (reconcile_page io now e page id w).0.store ≡ ok x
      → x.refresh_id ≡ id
  reconcile_page-Pruned e page id pages items w ids j x deletes listed at_end keyed h all m found =
      let ended = reconcile_page-end e page id pages items w listed at_end keyed h in
      let synced = (sync_page io now page id 0 w).0 in
      let after =
        end_reconcile-store io now apart known e id synced (sym (ap (λ z. z.1) ended.1) ∙ h) in
      let left = sym (after.1 j) ∙ sym (ap (λ z. io.sales.get_sale j z.0.store) ended.1) ∙ found in
      ((clean_sales-Pruned io.sales laws id deletes synced.store ids j x all m after.0).0 left).1
