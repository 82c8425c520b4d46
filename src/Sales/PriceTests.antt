-- ===== src/Sales/PriceTests.antt =====
-- Prices by background/sales.go at concrete sales, with whole numbers for float64.
use gramophile.Prelude.{
  ℕ, ◌/◌, ◌≤◌, ltb_ℤ, eqb, ℤ, pos, ◌*ℤ◌, int64, ◌-ℤ◌, if◌then◌else◌, true, Option, none, some, List,
  [], ◌∷◌, ◌≡◌, ◌∙◌, ◌⊎◌, inl, inr, refl, ap, sym, arith, show, Bool-cases,
}
use gramophile.Status.{ok}
use gramophile.Queue.Element.{QueueElement}
use gramophile.Sales.Types.{Price, SaleInfo, SaleStatus}
use gramophile.Sales.Memory.{Table, memory, memory-laws, write_user, found}
use gramophile.Sales.Synced.{Keyed}
use gramophile.Sales.Passes.{Work, SaleIo}
use gramophile.Sales.Adjust.{
  Real, SaleConfig, SaleUpdateType, LowerBoundStrategy, ListingStrategy, Adjusted, adjust_price,
  time_reduce, int32, update_type_of,
}
use gramophile.Sales.Floor.{RealLaws, Timed, time_reduce-Between}
use gramophile.Sales.Adjusting.{adjust_sales, price_task}
use gramophile.Sales.Adjusted.{Kept, adjust_sales-Kept}

abbrev quotient : ℤ → ℤ → ℤ
quotient (pos a) (pos b) = pos (a / b)
quotient a b = pos 0

abbrev whole : Real ℤ
whole = record {
  of_ℤ = λ z. z;
  seconds = λ z. quotient z (pos 1000000000);
  hours = λ z. quotient z (pos 3600000000000);
  sub = λ a b. a -ℤ b;
  mul = λ a b. a *ℤ b;
  div = quotient;
  floor = λ z. z;
  trunc = λ z. z;
  lt = ltb_ℤ;
}

abbrev IsBit : ℤ → Type 0
IsBit z = (z ≡ pos 0) ⊎ (z ≡ pos 1)

times_bit : (d : ℕ) (p : ℤ) → IsBit p → (x : ℕ) × (pos d *ℤ p ≡ pos x) × (x ≤ d)
unfolding ◌*ℤ◌
times_bit d p (inl none_of) = (0, ap (λ z. pos d *ℤ z) none_of ∙ ground arith, omega arith)
times_bit d p (inr all_of) = (d, ap (λ z. pos d *ℤ z) all_of ∙ ground arith, omega arith)

whole-laws : RealLaws whole IsBit
whole-laws = record { one = inr refl; part = λ d p small b. times_bit d p b }

abbrev cents : ℕ → Option Price
cents n = some (record { value = pos n; currency = "USD" })

abbrev listed : ℕ → SaleInfo
listed k = record {
  sale_id = k;
  last_price_update = 0;
  sale_state = SaleStatus.for_sale;
  refresh_id = 0;
  release_id = 9;
  current_price = cents 900;
  condition = "Mint";
  listed_date = 0;
  initial_price = cents 1000;
  median_price = cents 600;
  low_price = cents 200;
  updates = [];
  time_at_median = 0;
  time_at_low = 0;
  time_at_stale = 0;
  time_created = 0;
  time_refreshed = 0;
  sold_date = 0;
  sale_update_override = 0;
  sleeve_condition = "Mint";
}

abbrev rules : ℤ → SaleConfig
rules days = record {
  handle_price_updates = true;
  update_frequency_seconds = pos 60;
  update_type = 2;
  reduction = pos 400;
  post_median_time = pos 100;
  post_median_reduction = pos 50;
  post_median_reduction_frequency = pos 10;
  lower_bound_strategy = LowerBoundStrategy.discogs_low;
  lower_bound = pos 0;
  post_low_reduction = pos 10;
  post_low_reduction_frequency_seconds = pos 10;
  stale_bound = pos 100;
  time_to_median_days = days;
  time_to_lower_days = days;
  time_to_stale_days = pos 1;
  listing_strategy = ListingStrategy.specify;
}

-- Two days after the listing.
abbrev later : ℕ
later = 172800000000000

to_the_median :
    adjust_price whole later show (listed 1) (rules (pos 0)) SaleUpdateType.reduce_to_median
    ≡ Adjusted.price (pos 600) "reducing to median"
unfolding adjust_price ◌-ℤ◌ int32
to_the_median = refl

-- A sale that has not reached the low price counts as stale, since its time there is 0.
stale_before_low :
    adjust_price whole later show (listed 1) (rules (pos 0)) SaleUpdateType.then_stale
    ≡ Adjusted.price (pos 890) "reducing to stale"
unfolding adjust_price ◌-ℤ◌ int32
stale_before_low = refl

time_reduce-Between_example :
    Timed whole later IsBit whole-laws
      (listed 1)
      (rules (pos 7))
      1000
      600
      200
      (time_reduce whole later (listed 1) (rules (pos 7))).0
unfolding ◌-ℤ◌ ◌*ℤ◌ int32
time_reduce-Between_example =
    time_reduce-Between whole later IsBit whole-laws (listed 1) (rules (pos 7)) 1000 600 200 refl
      refl refl (omega arith) (omega arith) (omega arith) (λ h. inl refl, λ h. inl refl)

abbrev io : SaleIo Table (List QueueElement)
io = record {
  shop_user = 7;
  sales = memory;
  own_sales = memory;
  write_user = write_user;
  list_sales = λ page. ok ([], 0);
  queue_up = λ e q. (e ∷ q, none);
}

abbrev stocked : Work Table (List QueueElement)
stocked = record {
  store = record {
    ids = 1 ∷ [];
    sales = λ k. if eqb k 1 then some (listed 1) else none;
    user = none;
  };
  user = record {
    token = "token";
    last_sale_refresh = 0;
    last_sale_reconcile = 0;
    sale_sync_active_time = 0;
    last_sale_adjust = 0;
    stale_bound = pos 100;
  };
  queue = [];
}

-- The price reaches the median, which is stamped, and the new price is asked for.
abbrev after : Work Table (List QueueElement)
after = record {
  store = record (memory.save_sale (record (listed 1) { time_at_median = later }) stocked.store).0 {
    user = some (record stocked.user { last_sale_adjust = later });
  };
  user = record stocked.user { last_sale_adjust = later };
  queue = price_task io whole show later "token" 1 (pos 600) "reducing to median" (listed 1) ∷ [];
}

adjust_runs : adjust_sales io whole show later (rules (pos 0)) stocked ≡ some (after, none)
unfolding adjust_sales adjust_price ◌-ℤ◌ ◌*ℤ◌ int32 int64 update_type_of
adjust_runs = refl

stocked-Keyed : Keyed memory stocked.store
stocked-Keyed k x e = elim (Bool-cases (eqb k 1)) [
  | inl here ↦
      let one : found (some (listed 1)) ≡ ok x = rw (here) at e in
      let same : listed 1 ≡ x = cc in sym (ap (λ z. z.sale_id) same) ∙ ground arith
  | inr other ↦ absurd (cc (rw (other) at e))
]

adjust_sales-Kept_example : Kept (memory.get_sale 1 stocked.store) (memory.get_sale 1 after.store)
adjust_sales-Kept_example =
    adjust_sales-Kept io memory-laws (λ x s. refl) (λ u k s. refl) whole show later (rules (pos 0))
      stocked after none stocked-Keyed adjust_runs 1
