-- ===== src/Sales/Reprice.antt =====
-- UpdateSalePrice and ProcessUpdateSale of background/sales.go. The clock is read once, as `now`.
use gramophile.Prelude.{
  ℕ, ℤ, eqb_ℤ, String, true, ◌||◌, Option, none, some, [], ◌∷◌, ◌++◌, ◌==◌, if◌then◌else◌,
}
use gramophile.Status.{Err, ok, err, is_not_found, is_failed_precondition, error_is}
use gramophile.Queue.Element.{QueueElement, Entry, Priority}
use gramophile.Sales.Types.{Price, SaleInfo, PriceUpdate, value_of}
use gramophile.Sales.Passes.{Work, SaleIo, wrap, enqueue_if_not_exists}

-- The current price with another value.
abbrev pub with_value : ℤ → Option Price → Option Price
with_value n none = some (record { value = n; currency = "" })
with_value n (some p) = some (record p { value = n })

abbrev pub repriced : ℕ → ℤ → String → SaleInfo → SaleInfo
repriced now n motivation c =
    let price = with_value n c.current_price in
    let update : PriceUpdate = record { date = now; set_price = price; motivation = motivation } in
    record c { current_price = price; updates = c.updates ++ update ∷ []; last_price_update = now }

abbrev pub missing_condition : ℕ → String → QueueElement
missing_condition now token = record {
  run_date = now;
  auth = token;
  backoff_in_seconds = 0;
  entry = Entry.refresh_sales 1 0;
  refresh_id = 0;
  intention = "From ProcessUpdateSale (Missing Condition)";
  force = true;
  priority = Priority.priority_unknown;
  addition_date = 0;
}

-- `change_price` is the Discogs client's UpdateSale, on the shop's state `D`.
module _ {S Q D : Type 0} (io : SaleIo S Q) (change_price : ℕ → ℕ → String → ℤ → D → D × Option Err)
    (now : ℕ) where
  unfoldable pub update_sale_price :
      ℕ → ℕ → String → ℤ → String → D → Work S Q → (D × Work S Q) × Option Err
  update_sale_price sid release condition n motivation d w = elim (io.sales.get_sale sid w.store) [
    | err e ↦ ((d, w), wrap "unable to load sale: " (some e))
    | ok c ↦
        let seen = io.sales.save_sale (record c { last_price_update = now }) w.store in
        let shop = change_price sid release condition n d in
        let saved = io.sales.save_sale (repriced now n motivation c) w.store in
        if eqb_ℤ (value_of c.current_price) n
        then ((d, record w { store = seen.0 }), none)
        else elim shop.1 [
          | some e ↦ (
            (shop.0, w),
            if is_failed_precondition e.code
                then none
                else wrap "unable to update sale price: " (some e),
          )
          | none ↦ ((shop.0, record w { store = saved.0 }), saved.1)
        ]
  ]

  -- The fields of the entry, in the order of `Entry.update_sale`.
  unfoldable pub process_update_sale :
      ℕ → ℤ → ℕ → String → String → String → D → Work S Q → (D × Work S Q) × Option Err
  unfolding update_sale_price
  process_update_sale sid n release condition motivation sleeve d w =
      let r = update_sale_price sid release condition n motivation d w in
      let gone = io.own_sales.delete_sale sid r.0.1.store in
      let asked =
        if w.user.token == ""
        then w
        else (enqueue_if_not_exists io now "" (missing_condition now w.user.token) w).0 in
      if condition == "" || sleeve == ""
      then ((d, asked), none)
      else if error_is is_not_found r.1
      then ((r.0.0, record r.0.1 { store = gone.0 }), gone.1)
      else r
