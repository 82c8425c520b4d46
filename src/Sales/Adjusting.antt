-- ===== src/Sales/Adjusting.antt =====
-- AdjustSales of background/sales.go: a new price is asked for each sale that is due. The issues that
-- the task files on GitHub are left out. `none` is a panic.
use gramophile.Prelude.{
  ℕ, ltb_ℤ, eqb, eqb_ℤ, ℤ, pos, ◌-ℤ◌, ◌*ℤ◌, int64, String, Bool, true, false, not, ◌&&◌, ◌||◌,
  Option, none, some, List, [], ◌∷◌, if◌then◌else◌, ◌==◌,
}
use gramophile.Status.{Err, ok, err}
use gramophile.Queue.Element.{QueueElement, Entry, Priority}
use gramophile.Sales.Types.{SaleInfo, value_of, is_for_sale}
use gramophile.Sales.Passes.{Work, SaleIo, wrap, enqueue_if_not_exists}
use gramophile.Sales.Adjust.{
  Real, SaleConfig, SaleUpdateType, Adjusted, adjust_price, update_type_of,
}

-- The update types that reach the median, and those that go on from there.
abbrev pub to_median : SaleUpdateType → Bool
to_median SaleUpdateType.reduce_to_median = true
to_median SaleUpdateType.then_low = true
to_median SaleUpdateType.then_stale = true
to_median _ = false

abbrev pub to_low : SaleUpdateType → Bool
to_low SaleUpdateType.then_low = true
to_low SaleUpdateType.then_stale = true
to_low _ = false

abbrev pub to_stale : SaleUpdateType → Bool
to_stale SaleUpdateType.then_stale = true
to_stale _ = false

module _ {S Q F : Type 0} (io : SaleIo S Q) (real : Real F) (name_of : ℕ → String) (now : ℕ) where
  -- A stamp on the sale that is saved at once, where it is due: the sale, the store, and whether
  -- the task goes on with the sale.
  unfoldable pub stamp : Bool → SaleInfo → SaleInfo → S → SaleInfo × S × Bool
  stamp due stamped c s =
      let r = io.own_sales.save_sale stamped s in
      if due then (stamped, r.0, elim r.1 [ none ↦ true | some e ↦ false ]) else (c, s, true)

  unfoldable pub stamp_median : SaleUpdateType → ℤ → SaleInfo → S → SaleInfo × S × Bool
  unfolding stamp
  stamp_median t n c s =
      stamp (to_median t && eqb_ℤ n (value_of c.median_price) && eqb c.time_at_median 0)
        (record c { time_at_median = now }) c s

  unfoldable pub stamp_low : SaleUpdateType → ℤ → SaleInfo → S → SaleInfo × S × Bool
  unfolding stamp
  stamp_low t n c s =
      stamp (to_low t && eqb_ℤ n (value_of c.low_price) && eqb c.time_at_low 0)
        (record c { time_at_low = now }) c s

  unfoldable pub stamp_stale : ℤ → SaleUpdateType → ℤ → SaleInfo → S → SaleInfo × S × Bool
  unfolding stamp
  stamp_stale bound t n c s =
      stamp (to_stale t && eqb_ℤ n bound && eqb c.time_at_stale 0)
        (record c { time_at_stale = now }) c s

  -- The three stamps, of which one that fails ends the turn.
  unfoldable pub stamps : ℤ → SaleUpdateType → ℤ → SaleInfo → S → SaleInfo × S × Bool
  unfolding stamp_median stamp_low stamp_stale
  stamps bound t n c s =
      let a = stamp_median t n c s in
      let b = stamp_low t n a.0 a.1 in
      if not a.2 then a else if not b.2 then b else stamp_stale bound t n b.0 b.1

  abbrev pub price_task : String → ℕ → ℤ → String → SaleInfo → QueueElement
  price_task token sid n why c = record {
    run_date = now;
    auth = token;
    backoff_in_seconds = 0;
    entry = Entry.update_sale sid n c.release_id c.condition why c.sleeve_condition;
    refresh_id = 0;
    intention = "From Adjust Sales";
    force = false;
    priority = Priority.priority_unknown;
    addition_date = 0;
  }

  abbrev pub refresh_task : String → QueueElement
  refresh_task token = record {
    run_date = now;
    auth = token;
    backoff_in_seconds = 0;
    entry = Entry.refresh_sales 1 0;
    refresh_id = 0;
    intention = "From AdjustSales (Missing Condition)";
    force = true;
    priority = Priority.priority_unknown;
    addition_date = 0;
  }

  -- A sale with its new price: the stamps, and then the task for the shop.
  unfoldable pub ask : SaleUpdateType → ℕ → ℤ → String → SaleInfo → Work S Q → Work S Q
  unfolding stamps
  ask t sid n why c w =
      let r = stamps w.user.stale_bound t n c w.store in
      let queued = io.queue_up (price_task w.user.token sid n why r.0) w.queue in
      record w { store = r.1; queue = if r.2 then queued.0 else w.queue }

  -- The type of the sale's own, where it has one.
  abbrev pub type_for : SaleConfig → SaleInfo → SaleUpdateType
  type_for config c =
      update_type_of
        (if eqb c.sale_update_override 0 then config.update_type else c.sale_update_override)

  -- time.Since(time.Unix(0, sale.GetLastPriceUpdate())) > getUpdateTime(c)
  abbrev pub is_due : SaleConfig → SaleInfo → Bool
  is_due config c =
      ltb_ℤ (int64 (config.update_frequency_seconds *ℤ pos 1000000000))
        (pos now -ℤ pos c.last_price_update)

  -- An error leaves the sale for the next time.
  unfoldable pub follow : SaleConfig → ℕ → SaleInfo → Work S Q → Adjusted → Option (Work S Q)
  unfolding ask
  follow config sid c w (Adjusted.price n why) = some (ask (type_for config c) sid n why c w)
  follow config sid c w (Adjusted.refused e) = some w
  follow config sid c w Adjusted.panics = none

  unfoldable pub adjust_sale : SaleConfig → ℕ → SaleInfo → Work S Q → Option (Work S Q)
  unfolding follow
  adjust_sale config sid c w =
      let asked = enqueue_if_not_exists io now "" (refresh_task w.user.token) w in
      if not (is_for_sale c.sale_state && is_due config c)
      then some w
      else if c.condition == "" || c.sleeve_condition == ""
      then some asked.0
      else follow config sid c w (adjust_price real now name_of c config (type_for config c))

  -- A sale that cannot be read is passed over.
  unfoldable pub turn : SaleConfig → ℕ → Work S Q → Option (Work S Q)
  unfolding adjust_sale
  turn config sid w = elim (io.own_sales.get_sale sid w.store) [
    | err e ↦ some w
    | ok c ↦ adjust_sale config sid c w
  ]

  unfoldable pub adjust_all : SaleConfig → List ℕ → Work S Q → Option (Work S Q)
  unfolding turn
  adjust_all config [] w = some w
  adjust_all config (sid ∷ sids) w = elim (turn config sid w) [
    | none ↦ none
    | some w' ↦ adjust_all config sids w'
  ]

  -- The time of the adjustment is kept with the user.
  abbrev pub adjusted : Work S Q → Work S Q × Option Err
  adjusted w =
      let user = record w.user { last_sale_adjust = now } in
      let r = io.write_user user w.store in (record w { user = user; store = r.0 }, r.1)

  unfoldable pub adjust_sales : SaleConfig → Work S Q → Option (Work S Q × Option Err)
  unfolding adjust_all
  adjust_sales config w =
      if not config.handle_price_updates
      then some (adjusted w)
      else elim (io.own_sales.get_sales w.store) [
        | err e ↦ some (w, wrap "unable to get all sales: " (some e))
        | ok sids ↦ elim (adjust_all config sids w) [ none ↦ none | some w' ↦ some (adjusted w') ]
      ]
