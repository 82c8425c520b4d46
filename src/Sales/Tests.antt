-- ===== src/Sales/Tests.antt =====
-- Runs of background/sales.go on a store in memory, and its theorems at concrete stores.
use gramophile.Prelude.{
  ℕ, pos, Bool, true, false, Option, none, some, List, [], ◌∷◌, ◌++◌, Memᴰ, ◌↔◌, ◌≡◌, refl, All,
  sort, IsSorted, ℤ, String, eqb, if◌then◌else◌,
}
use gramophile.Status.{Err, Code, errorf, ok, err, Result}
use gramophile.Queue.Element.{QueueElement, Entry, Priority}
use gramophile.Sales.Passes.{
  SyncUser, Work, SaleIo, process_reconcile_sales, reconcile_page, sync_page, begin, save_user,
  end_reconcile, clean, enqueue_if_not_exists,
}
use gramophile.Sales.Reprice.{process_update_sale}
use gramophile.Sales.Outcome.{Processed, process_update_sale-Processed}
use gramophile.Sales.Chain.{reconcile_page-Agrees, reconcile_page-Pruned}
use gramophile.Sales.Types.{SaleInfo, SaleItem, SaleStatus, Price, PriceUpdate}
use gramophile.Sales.Updates.{
  tidy_updates, date_less, Changes, no_price, price_at, tidy_updates-price_at,
}
use gramophile.Sales.Memory.{Table, memory, memory-laws, write_user, read_user}
use gramophile.Sales.Sync.{new_sale, sync_sales, sync_items, sync_sale, merge}
use gramophile.Sales.Synced.{Agrees, Different, Keyed, save-Keyed}
use gramophile.Sales.Page.{sync_sales-Agrees, sync_sales_whole, sync_sales-other}
use gramophile.Sales.Clean.{clean_sales, clean_sales-Pruned}

abbrev price : ℕ → Option Price
price v = some (record { value = pos v; currency = "USD" })

abbrev item : ℕ → ℕ → SaleItem
item k v = record {
  sale_id = k;
  status = SaleStatus.for_sale;
  release_id = 70;
  condition = "Mint (M)";
  sleeve_condition = "";
  price = price v;
  posted = 0;
}

abbrev page : List SaleItem
page = item 1 500 ∷ item 2 300 ∷ []

-- Sale 1 and sale 3 are stored from an earlier refresh.
abbrev none_stored : Table
none_stored = record { ids = []; sales = λ k. none; user = none }

abbrev one_stored : Table
one_stored = (memory.save_sale (new_sale 10 4 (item 3 100)) none_stored).0

abbrev start : Table
start = (memory.save_sale (new_sale 10 4 (item 1 600)) one_stored).0

abbrev done : Table × Result (ℕ × Bool)
done = sync_sales memory 20 5 0 (ok (page, 1)) start

done_runs : done.1 ≡ ok (1, false)
unfolding sync_sales sync_items sync_sale merge tidy_updates
done_runs = refl

start-Keyed : Keyed memory start
start-Keyed = save-Keyed memory memory-laws 10 4 0 (new_sale 10 4 (item 1 600)) one_stored refl (
    save-Keyed memory memory-laws 10 4 0 (new_sale 10 4 (item 3 100)) none_stored refl
      (λ k x e. absurd (cc)))

abbrev update : ℕ → ℕ → PriceUpdate
update d v = record { date = d; set_price = price v; motivation = "" }

abbrev repeated : SaleInfo
repeated = record (new_sale 10 4 (item 1 600)) {
  updates = update 3 500 ∷ update 1 600 ∷ update 2 600 ∷ [];
}

tidy_runs : (tidy_updates repeated).updates ≡ update 1 600 ∷ update 3 500 ∷ []
unfolding tidy_updates sort
tidy_runs = refl

tidy_updates-price_at_example :
    IsSorted date_less (tidy_updates repeated).updates
    × Changes no_price (tidy_updates repeated).updates
    × (price_at 2 no_price (tidy_updates repeated).updates
        ≡ price_at 2 no_price (sort date_less repeated.updates))
tidy_updates-price_at_example = tidy_updates-price_at repeated 2

page-Different : Different page
page-Different = (((λ e. absurd (cc)), tt), (tt, tt))

sync_sales-Agrees_example :
    All
      (λ i.
        Agrees 5 i (memory.get_sale i.sale_id (sync_sales memory 20 5 0 (ok (page, 1)) start).0))
      page
sync_sales-Agrees_example =
    sync_sales-Agrees memory memory-laws 20 5 0 page 1 1 start start-Keyed page-Different done_runs

sync_sales_whole_example : ◌≡◌ {A = ℕ} 1 1 × (false ≡ false)
sync_sales_whole_example =
    sync_sales_whole memory memory-laws 20 5 0 page 1 1 false start start-Keyed refl done_runs

sync_sales-other_example :
    memory.get_sale 3 (sync_sales memory 20 5 0 (ok (page, 1)) start).0 ≡ memory.get_sale 3 start
sync_sales-other_example =
    sync_sales-other memory memory-laws 20 5 0 page 1 start 3 start-Keyed
      ((λ e. absurd (cc)), ((λ e. absurd (cc)), tt))

clean_runs : (clean_sales memory 4 start).1 ≡ none
unfolding clean_sales
clean_runs = refl

clean_sales-Pruned_example :
    (memory.get_sale 3 (clean_sales memory 4 start).0 ≡ ok (new_sale 10 4 (item 3 100)))
    ↔ ((memory.get_sale 3 start ≡ ok (new_sale 10 4 (item 3 100))) × ◌≡◌ {A = ℕ} 4 4)
clean_sales-Pruned_example =
    clean_sales-Pruned memory memory-laws 4 (λ k s. refl) start start.ids 3
      (new_sale 10 4 (item 3 100)) refl (Memᴰ.tail (Memᴰ.head refl)) clean_runs

abbrev plain : SaleIo Table (List QueueElement)
plain = record {
  shop_user = 7;
  sales = memory;
  own_sales = memory;
  write_user = write_user;
  list_sales = λ page_number. ok (page, 1);
  queue_up = λ e q. (q ++ e ∷ [], none);
}

abbrev weekly : QueueElement
weekly = record {
  run_date = 20;
  auth = "token";
  backoff_in_seconds = 0;
  entry = Entry.reconcile_sales 0 0;
  refresh_id = 0;
  intention = "weekly";
  force = true;
  priority = Priority.priority_normal;
  addition_date = 0;
}

abbrev work : Work Table (List QueueElement)
work = record {
  store = start;
  user = record {
    token = "token";
    last_sale_refresh = 12;
    last_sale_reconcile = 12;
    sale_sync_active_time = 0;
    last_sale_adjust = 0;
    stale_bound = pos 100;
  };
  queue = [];
}

weekly_runs : (process_reconcile_sales plain 20 weekly work).1 ≡ none
unfolding process_reconcile_sales begin reconcile_page sync_page sync_sales sync_sale merge
    tidy_updates end_reconcile clean clean_sales enqueue_if_not_exists save_user
weekly_runs = refl

page_runs : (reconcile_page plain 20 weekly 1 20 work).1 ≡ none
unfolding reconcile_page sync_page sync_sales sync_sale merge tidy_updates end_reconcile clean
    clean_sales enqueue_if_not_exists save_user
page_runs = refl

-- Sale 3 is not listed any more.
sale_3_runs :
    (e : Err) × (memory.get_sale 3 (process_reconcile_sales plain 20 weekly work).0.store ≡ err e)
unfolding process_reconcile_sales begin reconcile_page sync_page sync_sales sync_sale merge
    tidy_updates end_reconcile clean clean_sales enqueue_if_not_exists save_user
sale_3_runs = (_, refl)

reconcile_page-Agrees_example :
    let w' = (reconcile_page plain 20 weekly 1 20 work).0 in
    All (λ i. Agrees 20 i (memory.get_sale i.sale_id w'.store)) page
    × (u : SyncUser) × (read_user w'.store ≡ ok u)
    × (u.last_sale_reconcile ≡ 20)
    × (u.sale_sync_active_time ≡ 0)
reconcile_page-Agrees_example =
    reconcile_page-Agrees plain memory-laws 20 (λ u s k. refl) refl read_user (λ u s h. refl) weekly
      1 20 1 page work refl refl start-Keyed page-Different page_runs

abbrev merged : SaleInfo
merged = merge 20 20 (item 1 500) (new_sale 10 4 (item 1 600))

merged_runs : memory.get_sale 1 (reconcile_page plain 20 weekly 1 20 work).0.store ≡ ok merged
unfolding reconcile_page sync_page sync_sales sync_sale merge tidy_updates end_reconcile clean
    clean_sales enqueue_if_not_exists save_user
merged_runs = refl

listed_runs : memory.get_sales (sync_page plain 20 1 20 0 work).0.store ≡ ok (2 ∷ 1 ∷ 1 ∷ 3 ∷ [])
unfolding sync_page sync_sales sync_sale merge tidy_updates
listed_runs = refl

reconcile_page-Pruned_example : merged.refresh_id ≡ 20
reconcile_page-Pruned_example =
    reconcile_page-Pruned plain memory-laws 20 (λ u s k. refl) refl weekly 1 20 1 page work
      (2 ∷ 1 ∷ 1 ∷ 3 ∷ []) 1 merged (λ k s. refl) refl refl start-Keyed page_runs listed_runs
      (Memᴰ.tail (Memᴰ.head refl)) merged_runs

-- The shop takes a price for any sale but sale 9.
abbrev shop : ℕ → ℕ → String → ℤ → List ℕ → List ℕ × Option Err
shop sid release condition n d =
    if eqb sid 9 then (d, some (errorf Code.failed_precondition "sold")) else (sid ∷ d, none)

reprice_runs :
    (process_update_sale plain shop 30 1 (pos 450) 70 "Mint (M)" "sold" "Mint (M)" [] work).1 ≡ none
unfolding process_update_sale
reprice_runs = refl

process_update_sale-Processed_example :
    Processed plain memory-laws shop 30
      (λ x s. refl)
      1
      70
      "Mint (M)"
      (pos 450)
      []
      work
      (process_update_sale plain shop 30 1 (pos 450) 70 "Mint (M)" "sold" "Mint (M)" [] work)
process_update_sale-Processed_example =
    process_update_sale-Processed plain memory-laws shop 30 (λ x s. refl) 1 70 "Mint (M)" (pos 450)
      "sold" "Mint (M)" [] work refl (λ k s. refl) start-Keyed refl
