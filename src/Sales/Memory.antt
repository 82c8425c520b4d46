-- ===== src/Sales/Memory.antt =====
-- A store of sales and their user in memory that meets the laws of Sales/Store.
use gramophile.Prelude.{ℕ, Option, none, some, List, ◌∷◌, ◌≡◌, ◌≢◌, ap, put_at, arith}
use gramophile.Status.{Err, Result, ok, err, errorf, Code}
use gramophile.Sales.Types.{SaleInfo}
use gramophile.Sales.Store.{SaleDb, SaleDbLaws}
use gramophile.Sales.Passes.{SyncUser}

pub record Table : Type 0 where
  pub ids : List ℕ
  pub sales : ℕ → Option SaleInfo
  pub user : Option SyncUser

abbrev pub found : Option SaleInfo → Result SaleInfo
found none = err (errorf Code.not_found "no such sale")
found (some x) = ok x

abbrev pub write_user : SyncUser → Table → Table × Option Err
write_user u s = (record s { user = some u }, none)

abbrev pub read_user : Table → Result SyncUser
read_user s = elim s.user [ none ↦ err (errorf Code.not_found "no such user") | some u ↦ ok u ]

abbrev pub memory : SaleDb Table
memory = record {
  get_sales = λ s. ok s.ids;
  get_sale = λ k s. found (s.sales k);
  save_sale = λ x s.
      (record s { ids = x.sale_id ∷ s.ids; sales = put_at x.sale_id (some x) s.sales }, none);
  delete_sale = λ k s. (record s { sales = put_at k none s.sales }, none);
}

found_same :
    (k : ℕ) (x : Option SaleInfo) (m : ℕ → Option SaleInfo) → found (put_at k x m k) ≡ found x
found_same k x m = ap found (here k)
  where
    here : (k : ℕ) → put_at k x m k ≡ x
    here k = ground arith

found_other :
    (k j : ℕ) (x : Option SaleInfo) (m : ℕ → Option SaleInfo)
    → j ≢ k
    → found (put_at k x m j) ≡ found (m j)
found_other k j x m h = ap found there
  where
    there : put_at k x m j ≡ m j
    there = ground arith

pub memory-laws : SaleDbLaws memory
memory-laws = record {
  get-save = λ x s h. found_same x.sale_id (some x) s.sales;
  get-save_other = λ x k s h. found_other x.sale_id k (some x) s.sales h;
  get-delete = λ k s h. (errorf Code.not_found "no such sale", found_same k none s.sales);
  get-delete_other = λ k j s h. found_other k j none s.sales h;
}
