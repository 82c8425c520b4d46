-- ===== src/Sales/Refresh.antt =====
-- A page of RefreshSales, background/sales.go: the pass goes on or ends.
use gramophile.Prelude.{ℕ, ◌+◌, ◌≤◌, ◌<◌, Bool, true, false, none, ◌≡◌, ◌⊎◌, if◌then◌else◌}
use gramophile.Status.{Result, ok, is_already_exists, error_is}
use gramophile.Queue.Element.{QueueElement, Entry}
use gramophile.Sales.Passes.{SyncUser, Work, SaleIo, sale_task, sync_page}
use gramophile.Sales.Chain.{ReadsUser}

-- Enqueue took the element, or had one like it.
abbrev pub Queued : {S Q : Type 0} → SaleIo S Q → QueueElement → Q → Q → Type 0
Queued io e q q' =
    (q' ≡ (io.queue_up e q).0)
    × (((io.queue_up e q).1 ≡ none) ⊎ (error_is is_already_exists (io.queue_up e q).1 ≡ true))

-- After a page of a list of `pages`, which ended `early` or not. Before the last page the pass asks for
-- the next one with the same id and leaves the user; at the end it asks for the links, and the stored
-- user says that the refresh is done.
abbrev pub GoesOn :
    {S Q : Type 0}
    → SaleIo S Q
    → (S → Result SyncUser)
    → ℕ
    → QueueElement
    → ℕ
    → ℕ
    → ℕ
    → Bool
    → Work S Q
    → Work S Q
    → Type 0
GoesOn io read_user now e page id pages early w w' =
    ((early ≡ false)
      × (page < pages)
      × Queued io (sale_task (now + 1) e e.force (Entry.refresh_sales (page + 1) id)) w.queue
          w'.queue
      × (w'.user ≡ w.user))
    ⊎ (((early ≡ true) ⊎ (pages ≤ page))
        × Queued io (sale_task (now + 10) e false (Entry.link_sales id)) w.queue w'.queue
        × (u : SyncUser) × (read_user w'.store ≡ ok u)
        × (u.last_sale_refresh ≡ now)
        × (u.sale_sync_active_time ≡ 0))

module _ {S Q : Type 0} (io : SaleIo S Q) (now : ℕ) (read_user : S → Result SyncUser)
    (reads : ReadsUser io read_user) where
  -- The page as the shop gives it, for the pass of the user.
  abbrev pub synced_page : QueueElement → ℕ → ℕ → Work S Q → Work S Q × Result (ℕ × Bool)
  synced_page e page id w =
      sync_page io now page id (if e.force then 0 else w.user.last_sale_refresh) w
