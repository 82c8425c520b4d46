-- ===== src/Sales/Types.antt =====
-- The messages on sales, proto/gramophile.proto, and what the program uses of those of the Discogs
-- client. Dates and identifiers are natural numbers, prices in cents are integers.
use gramophile.Prelude.{ℕ, ℤ, pos, String, Bool, true, false, Option, none, some, List}

pub record Price : Type 0 where
  pub value : ℤ
  pub currency : String

-- GetValue() and GetCurrency(), which read 0 and "" of `nil`.
abbrev pub value_of : Option Price → ℤ
value_of none = pos 0
value_of (some p) = p.value

abbrev pub currency_of : Option Price → String
currency_of none = ""
currency_of (some p) = p.currency

-- The states that the program tells apart; any other one is kept by its number.
pub data SaleStatus : Type 0 where
  for_sale : SaleStatus
  sold : SaleStatus
  other : ℕ → SaleStatus

abbrev pub is_for_sale : SaleStatus → Bool
is_for_sale SaleStatus.for_sale = true
is_for_sale _ = false

abbrev pub is_sold : SaleStatus → Bool
is_sold SaleStatus.sold = true
is_sold _ = false

pub record PriceUpdate : Type 0 where
  pub date : ℕ
  pub set_price : Option Price
  pub motivation : String

pub record SaleInfo : Type 0 where
  pub sale_id : ℕ
  pub last_price_update : ℕ
  pub sale_state : SaleStatus
  pub refresh_id : ℕ
  pub release_id : ℕ
  pub current_price : Option Price
  pub condition : String
  pub listed_date : ℕ
  pub initial_price : Option Price
  pub median_price : Option Price
  pub low_price : Option Price
  pub updates : List PriceUpdate
  pub time_at_median : ℕ
  pub time_at_low : ℕ
  pub time_at_stale : ℕ
  pub time_created : ℕ
  pub time_refreshed : ℕ
  pub sold_date : ℕ
  pub sale_update_override : ℕ
  pub sleeve_condition : String

-- A sale as the shop lists it.
pub record SaleItem : Type 0 where
  pub sale_id : ℕ
  pub status : SaleStatus
  pub release_id : ℕ
  pub condition : String
  pub sleeve_condition : String
  pub price : Option Price
  pub posted : ℕ
