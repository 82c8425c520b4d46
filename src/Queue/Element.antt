-- ===== src/Queue/Element.antt =====
-- proto/gramophile.proto, QueueElement and its entries, and the choices that the queue makes by
-- an element's type: the handler that is registered for it and the key that deduplicates it
-- (background/registry.go and the handlers' GetDeduplicationKey). Dates, pages and identifiers
-- are not negative.
use Prim.Native.String.{◌++◌}
use gramophile.Prelude.{ℕ, ℤ, String, Bool, true, false, eqb, if◌then◌else◌, show}

pub data Priority : Type 0 where
  priority_unknown priority_low priority_high priority_normal : Priority

-- The `oneof entry`; `no_entry` is the unset one. A want is given by its id.
pub data Entry : Type 0 where
  no_entry : Entry
  refresh_user : (auth : String) → Entry
  refresh_collection_entry : (page refresh_id : ℕ) → Entry
  refresh_intents : (instance_id timestamp : ℕ) → Entry
  refresh_updates : Entry
  add_folder_update : (folder_name : String) → Entry
  refresh_sales : (page refresh_id : ℕ) → Entry
  link_sales : (refresh_id : ℕ) → Entry
  refresh_wantlists : Entry
  refresh_wants : Entry
  update_sale :
      (sale_id : ℕ) (new_price : ℤ) (release_id : ℕ)
      (condition motivation sleeve_condition : String)
      → Entry
  move_records : Entry
  move_record : (record_iid : ℕ) (move_folder rule : String) → Entry
  refresh_release : (iid : ℕ) (intention : String) → Entry
  refresh_collection : (intention : String) → Entry
  refresh_earliest_release_dates : (iid master_id : ℕ) → Entry
  refresh_earliest_release_date : (iid other_release : ℕ) (update_digital_wantlist : Bool) → Entry
  sync_wants : (page refresh_id : ℕ) (force : Bool) → Entry
  refresh_want : (want_id : ℕ) (deleted : Bool) → Entry
  add_master_want : (want_id : ℕ) → Entry
  update_master_want : (want_id : ℕ) (deleted : Bool) → Entry
  refresh_state : (iid : ℕ) (force : Bool) → Entry
  fanout_history : (userid update_type : ℕ) → Entry
  record_history : (userid update_type instance_id : ℕ) → Entry
  add_sale : (instance_id release_id : ℕ) → Entry
  delete_record : (iid : ℕ) → Entry
  adjust_sales : Entry
  sync_orders : (page sync_id : ℕ) → Entry
  reconcile_sales : (page refresh_id : ℕ) → Entry

pub record QueueElement : Type 0 where
  pub run_date : ℕ
  pub auth : String
  pub backoff_in_seconds : ℕ
  pub entry : Entry
  pub refresh_id : ℕ
  pub intention : String
  pub force : Bool
  pub priority : Priority
  pub addition_date : ℕ

abbrev pub is_high : Priority → Bool
is_high Priority.priority_high = true
is_high _ = false

abbrev pub is_normal : Priority → Bool
is_normal Priority.priority_normal = true
is_normal _ = false

-- RegisterAllHandlers: three entries have no handler.
unfoldable pub has_handler : Entry → Bool
has_handler Entry.no_entry = false
has_handler Entry.refresh_updates = false
has_handler (Entry.update_master_want _ _) = false
has_handler _ = true

-- The types that Enqueue throttles for each user.
unfoldable pub is_throttlable : Entry → Bool
is_throttlable (Entry.refresh_release _ _) = true
is_throttlable (Entry.refresh_earliest_release_dates _ _) = true
is_throttlable (Entry.refresh_earliest_release_date _ _ _) = true
is_throttlable (Entry.refresh_want _ _) = true
is_throttlable _ = false

-- The empty text stands for an entry that is not deduplicated.
unfoldable pub dedup_key_of : Entry → String → String
dedup_key_of (Entry.refresh_collection_entry page _) auth =
    if eqb page 1 then "RefreshCollectionEntry-" ++ auth else ""
dedup_key_of (Entry.refresh_collection _) auth = "RefreshCollection-" ++ auth
dedup_key_of Entry.refresh_wantlists auth = "RefreshWantlists-" ++ auth
dedup_key_of (Entry.refresh_want id _) auth = "RefreshWant-" ++ auth ++ "-" ++ show id
dedup_key_of (Entry.refresh_sales page _) auth = "RefreshSales-" ++ auth ++ "-" ++ show page
dedup_key_of (Entry.reconcile_sales page _) auth = "ReconcileSales-" ++ auth ++ "-" ++ show page
dedup_key_of (Entry.link_sales _) auth = "LinkSales"
dedup_key_of Entry.adjust_sales auth = "AdjustSales-" ++ auth
dedup_key_of _ auth = ""

-- BackgroundRunner.GetDeduplicationKey; an entry without a handler has no key above either.
unfoldable pub dedup_key : QueueElement → String
unfolding dedup_key_of
dedup_key e = if has_handler e.entry then dedup_key_of e.entry e.auth else ""
