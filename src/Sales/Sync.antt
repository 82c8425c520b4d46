-- ===== src/Sales/Sync.antt =====
-- SyncSales of background/sales.go. The clock is read once, as `now`.
use gramophile.Prelude.{
  ℕ, ltb, leb, eqb, String, Bool, true, false, not, ◌&&◌, Option, none, some, List, [], ◌∷◌, ◌++◌,
  ◌==◌, sprint, if◌then◌else◌,
}
use gramophile.Status.{Result, ok, err, is_not_found}
use gramophile.Sales.Types.{
  Price, SaleInfo, SaleItem, PriceUpdate, value_of, currency_of, is_for_sale, is_sold,
}
use gramophile.Sales.Updates.{tidy_updates}
use gramophile.Sales.Store.{SaleDb}

abbrev pub price_of : SaleItem → Option Price
price_of i = some (record { value = value_of i.price; currency = currency_of i.price })

-- A sale that is not stored yet.
abbrev pub new_sale : ℕ → ℕ → SaleItem → SaleInfo
new_sale now id i = record {
  sale_id = i.sale_id;
  last_price_update = now;
  sale_state = i.status;
  refresh_id = id;
  release_id = i.release_id;
  current_price = price_of i;
  condition = i.condition;
  listed_date = if eqb i.posted 0 then now else i.posted;
  initial_price = none;
  median_price = none;
  low_price = none;
  updates = [];
  time_at_median = 0;
  time_at_low = 0;
  time_at_stale = 0;
  time_created = now;
  time_refreshed = now;
  sold_date = 0;
  sale_update_override = 0;
  sleeve_condition = i.sleeve_condition;
}

-- `old` if it is set, or else `new`.
abbrev pub fill : String → String → String
fill old new = if old == "" && not (new == "") then new else old

-- A stored sale takes over what the shop lists.
unfoldable pub merge : ℕ → ℕ → SaleItem → SaleInfo → SaleInfo
merge now id i c =
    let update : PriceUpdate = record { date = now; set_price = i.price; motivation = "" } in
    tidy_updates (record c {
      sale_state = i.status;
      refresh_id = id;
      time_refreshed = now;
      updates = c.updates ++ update ∷ [];
      current_price = price_of i;
      condition = fill c.condition i.condition;
      sleeve_condition = fill c.sleeve_condition i.sleeve_condition;
      listed_date = if ltb 0 i.posted then i.posted else c.listed_date;
      sold_date = if is_for_sale c.sale_state && is_sold i.status then now else c.sold_date;
    })

-- The sale was listed before the last refresh.
abbrev pub is_old : ℕ → SaleInfo → Bool
is_old last c =
    ltb 0 last && leb (if eqb c.listed_date 0 then c.time_created else c.listed_date) last

module _ {S : Type 0} (db : SaleDb S) (now id last : ℕ) where
  -- `x` is what is answered after a save that succeeds.
  abbrev pub save_then : SaleInfo → Bool → S → S × Result Bool
  save_then c x s = let r = db.save_sale c s in (r.0, elim r.1 [ none ↦ ok x | some e ↦ err e ])

  -- One turn of the loop; true ends it early.
  unfoldable pub sync_sale : SaleItem → S → S × Result Bool
  sync_sale i s = elim (db.get_sale i.sale_id s) [
    | ok c ↦ save_then (merge now id i c) (is_old last (merge now id i c)) s
    | err e ↦ if is_not_found e.code then save_then (new_sale now id i) false s else (s, err e)
  ]

  unfoldable pub sync_items : List SaleItem → S → S × Result Bool
  sync_items [] s = (s, ok false)
  sync_items (i ∷ is) s = elim (sync_sale i s).1 [
    | err e ↦ ((sync_sale i s).0, err e)
    | ok stop ↦ elim stop [
      | true ↦ ((sync_sale i s).0, ok true)
      | false ↦ sync_items is (sync_sale i s).0
    ]
  ]

  -- `listing` is the answer of ListSales: the sales of the page and the number of pages.
  unfoldable pub sync_sales : Result (List SaleItem × ℕ) → S → S × Result (ℕ × Bool)
  unfolding sync_items
  sync_sales (err e) s =
      (s, err (record e { message = sprint ("unable to list sales: " ∷ e.message ∷ []) }))
  sync_sales (ok (items, pages)) s =
      let r = sync_items items s in (r.0, elim r.1 [ err e ↦ err e | ok stop ↦ ok (pages, stop) ])
