-- ===== src/Sales/Passes.antt =====
-- The tasks RefreshSales and ReconcileSales, background/sales.go: each handles one page and either
-- asks for the next page or ends the pass. The clock is read once, as `now`; metrics are left out.
use gramophile.Prelude.{
  ℕ, ℤ, ◌+◌, ◌-◌, ◌*◌, ltb, leb, eqb, String, Bool, false, not, ◌&&◌, ◌||◌, Option, none, some,
  List, [], ◌∷◌, sprint, if◌then◌else◌,
}
use gramophile.Status.{Err, Result, ok, err, errorf, Code, is_already_exists, error_is}
use gramophile.Queue.Element.{QueueElement, Entry, Priority}
use gramophile.Sales.Types.{SaleItem}
use gramophile.Sales.Store.{SaleDb}
use gramophile.Sales.Sync.{sync_sales}
use gramophile.Sales.Clean.{clean_sales}

-- The fields of StoredUser that the tasks read and write; the stale bound is that of its
-- configuration of sales.
pub record SyncUser : Type 0 where
  pub token : String
  pub last_sale_refresh : ℕ
  pub last_sale_reconcile : ℕ
  pub sale_sync_active_time : ℕ
  pub last_sale_adjust : ℕ
  pub stale_bound : ℤ

-- The stored sales, the user and the queue, which `Q` stands for.
pub record Work (S Q : Type 0) : Type 0 where
  pub store : S
  pub user : SyncUser
  pub queue : Q

-- What the tasks call: the database, the Discogs client's ListSales and the queue's Enqueue. `sales`
-- are those of the user of the Discogs client, whose id is `shop_user`, and `own_sales` those of the
-- stored user's Discogs id.
pub record SaleIo (S Q : Type 0) : Type 0 where
  pub shop_user : ℕ
  pub sales : SaleDb S
  pub own_sales : SaleDb S
  pub write_user : SyncUser → S → S × Option Err
  pub list_sales : ℕ → Result (List SaleItem × ℕ)
  pub queue_up : QueueElement → Q → Q × Option Err

-- The sales that are pruned.
abbrev pub pruned_sales : {S Q : Type 0} → SaleIo S Q → SaleDb S
pruned_sales io = if eqb io.shop_user 0 then io.own_sales else io.sales

-- Nanoseconds.
abbrev pub day : ℕ
day = 24 * 3600 * 1000000000

abbrev pub reconcile_cadence : ℕ
reconcile_cadence = 7 * day

-- fmt.Errorf("...: %w", err)
abbrev pub wrap : String → Option Err → Option Err
wrap text none = none
wrap text (some e) = some (record e { message = sprint (text ∷ e.message ∷ []) })

-- `if err != nil { return err }` between two calls.
abbrev pub and_then {ℓ} : {W : Type ℓ} → W × Option Err → (W → W × Option Err) → W × Option Err
and_then (w, some e) f = (w, some e)
and_then (w, none) f = f w

abbrev pub sale_task : ℕ → QueueElement → Bool → Entry → QueueElement
sale_task date e force entry = record {
  run_date = date;
  auth = e.auth;
  backoff_in_seconds = 0;
  entry = entry;
  refresh_id = 0;
  intention = e.intention;
  force = force;
  priority = Priority.priority_unknown;
  addition_date = 0;
}

module _ {S Q : Type 0} (io : SaleIo S Q) (now : ℕ) where
  unfoldable pub save_user : Work S Q → Work S Q × Option Err
  save_user w =
      let r = io.write_user w.user w.store in
      (record w { store = r.0 }, wrap "unable to save user: " r.1)

  -- EnqueueIfNotExists
  unfoldable pub enqueue_if_not_exists : String → QueueElement → Work S Q → Work S Q × Option Err
  enqueue_if_not_exists text e w =
      let r = io.queue_up e w.queue in
      (record w { queue = r.0 }, if error_is is_already_exists r.1 then none else wrap text r.1)

  -- The first page marks the synchronisation as active, unless it is already.
  unfoldable pub begin : Bool → ℕ → Work S Q → Work S Q × Option Err
  begin force page w =
      let active = w.user.sale_sync_active_time in
      if leb page 1 && (force || eqb active 0 || ltb day (now - active))
      then save_user (record w { user = record w.user { sale_sync_active_time = now } })
      else (w, none)

  -- The first page is 1, and it draws a refresh id if it has none.
  abbrev pub page_of : ℕ → ℕ
  page_of page = if eqb page 0 then 1 else page

  abbrev pub refresh_of : ℕ → ℕ → ℕ
  refresh_of page id = if leb page 1 && eqb id 0 then now else id

  unfoldable pub clean : ℕ → Work S Q → Work S Q × Option Err
  clean id w =
      let r = clean_sales (pruned_sales io) id w.store in
      (record w { store = r.0 }, wrap "unable to clean sales: " r.1)

  -- The end of a pass links the sales and records its time; a reconciliation prunes first.
  unfoldable pub end_refresh : QueueElement → ℕ → Work S Q → Work S Q × Option Err
  end_refresh e id w =
      and_then
        (enqueue_if_not_exists "unable to enqueue link job: "
          (sale_task (now + 10) e false (Entry.link_sales id)) w)
        (λ w. save_user (record w {
          user = record w.user { last_sale_refresh = now; sale_sync_active_time = 0 };
        }))

  unfoldable pub end_reconcile : QueueElement → ℕ → Work S Q → Work S Q × Option Err
  end_reconcile e id w = and_then (clean id w) (λ w.
      and_then
        (enqueue_if_not_exists "unable to enqueue link job: "
          (sale_task (now + 10) e false (Entry.link_sales id)) w)
        (λ w. save_user (record w {
          user = record w.user {
            last_sale_reconcile = now;
            last_sale_refresh = now;
            sale_sync_active_time = 0;
          };
        })))

  unfoldable pub next_page : QueueElement → Entry → Work S Q → Work S Q × Option Err
  next_page e entry w =
      enqueue_if_not_exists "unable to enqueue: " (sale_task (now + 1) e e.force entry) w

  -- One page of the shop's list; `last` ends it early.
  unfoldable pub sync_page : ℕ → ℕ → ℕ → Work S Q → Work S Q × Result (ℕ × Bool)
  sync_page page id last w =
      let r = sync_sales io.sales now id last (io.list_sales page) w.store in
      (record w { store = r.0 }, r.1)

  unfoldable pub refresh_page : QueueElement → ℕ → ℕ → Work S Q → Work S Q × Option Err
  refresh_page e page id w =
      let r = sync_page page id (if e.force then 0 else w.user.last_sale_refresh) w in
      elim r.1 [
        | err x ↦ (r.0, some x)
        | ok (pages, early) ↦
            if early || leb pages page
            then end_refresh e id r.0
            else next_page e (Entry.refresh_sales (page + 1) id) r.0
      ]

  unfoldable pub reconcile_page : QueueElement → ℕ → ℕ → Work S Q → Work S Q × Option Err
  reconcile_page e page id w =
      let r = sync_page page id 0 w in
      elim r.1 [
        | err x ↦ (r.0, some x)
        | ok (pages, early) ↦
            if eqb pages 0 || leb pages page
            then end_reconcile e id r.0
            else next_page e (Entry.reconcile_sales (page + 1) id) r.0
      ]

  unfoldable pub process_refresh_sales : QueueElement → ℕ → ℕ → Work S Q → Work S Q × Option Err
  unfolding refresh_page
  process_refresh_sales e page id w =
      let run =
        and_then (begin e.force page w) (refresh_page e (page_of page) (refresh_of page id)) in
      if ltb (now - w.user.last_sale_refresh) day && not e.force then (w, none) else run

  unfoldable pub process_reconcile_sales : QueueElement → Work S Q → Work S Q × Option Err
  unfolding reconcile_page
  process_reconcile_sales e w =
      if ltb (now - w.user.last_sale_reconcile) reconcile_cadence && not e.force
      then (w, none)
      else elim e.entry [
        | Entry.reconcile_sales page id ↦
            and_then (begin e.force page w) (reconcile_page e (page_of page) (refresh_of page id))
        | _ ↦ (w, some (errorf Code.unknown "queue element does not contain ReconcileSales entry"))
      ]
