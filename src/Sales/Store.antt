-- ===== src/Sales/Store.antt =====
-- What background/ uses of the sales of one user in db/db.go.
use gramophile.Prelude.{ℕ, Option, none, List, ◌≡◌, ◌≢◌}
use gramophile.Status.{Err, Result, ok, err}
use gramophile.Sales.Types.{SaleInfo}

pub record SaleDb (S : Type 0) : Type 0 where
  pub get_sales : S → Result (List ℕ)
  pub get_sale : ℕ → S → Result SaleInfo
  pub save_sale : SaleInfo → S → S × Option Err
  pub delete_sale : ℕ → S → S × Option Err

-- A save or a delete that succeeds is read back, and other sales stay in any case.
pub record SaleDbLaws {S : Type 0} (db : SaleDb S) : Type 0 where
  pub get-save :
      (x : SaleInfo) (s : S)
      → (db.save_sale x s).1 ≡ none
      → db.get_sale x.sale_id (db.save_sale x s).0 ≡ ok x
  pub get-save_other :
      (x : SaleInfo) (k : ℕ) (s : S)
      → k ≢ x.sale_id
      → db.get_sale k (db.save_sale x s).0 ≡ db.get_sale k s
  pub get-delete :
      (k : ℕ) (s : S)
      → (db.delete_sale k s).1 ≡ none
      → (e : Err) × (db.get_sale k (db.delete_sale k s).0 ≡ err e)
  pub get-delete_other :
      (k j : ℕ) (s : S) → j ≢ k → db.get_sale j (db.delete_sale k s).0 ≡ db.get_sale j s
