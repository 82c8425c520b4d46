-- ===== src/Queue/Drain.antt =====
-- queuelogic/logic.go: Drain, which deletes the stored elements of one kind and mends the index.
use Prim.Native.String.{slice, len}
use text.Mathlib.Text.{starts_with}
use gramophile.Prelude.{
  put_at, put_text, ℕ, suc, pos, String, Bool, true, false, not, Option, none, some, List, [], ◌∷◌,
  ◌++◌, sprint, eqb, if◌then◌else◌, ◌==◌, any, select, parse, ◌-ℤ◌,
}
use gramophile.Status.{Result, ok, err}
use gramophile.Queue.Element.{Entry, QueueElement, dedup_key}
use gramophile.Queue.Store.{Pstore, queue_prefix}
use gramophile.Queue.State.{Queue, World}
use gramophile.Queue.Ops.{mark_dedup}

pub data DrainType : Type 0 where
  all_types just_release_dates just_wants just_refresh just_sales : DrainType

-- The two switches of Drain on the request's type and the entry's.
unfoldable pub drains : DrainType → Entry → Bool
drains DrainType.all_types _ = true
drains DrainType.just_release_dates (Entry.refresh_earliest_release_date _ _ _) = true
drains DrainType.just_release_dates (Entry.refresh_earliest_release_dates _ _) = true
drains DrainType.just_wants (Entry.refresh_want _ _) = true
drains DrainType.just_refresh (Entry.refresh_collection_entry _ _) = true
drains DrainType.just_sales (Entry.refresh_sales _ _) = true
drains DrainType.just_sales (Entry.reconcile_sales _ _) = true
drains _ _ = false

-- An element that cannot be read goes only with a drain of everything.
unfoldable pub drains_stored : DrainType → Option QueueElement → Bool
unfolding drains
drains_stored t (some e) = drains t e.entry
drains_stored DrainType.all_types none = true
drains_stored _ none = false

unfoldable pub store_key : String → String
store_key key = if starts_with key queue_prefix then key else sprint (queue_prefix ∷ key ∷ [])

-- strings.TrimPrefix
unfoldable pub trim_prefix : String → String → String
trim_prefix key p = if starts_with key p then slice key (len p) (len key) else key

-- What the loop over the keys has done so far.
pub record Drained (S : Type 0) : Type 0 where
  pub store : S
  pub dates : List ℕ
  pub entries : List QueueElement
  pub count : ℕ

module _ {S V : Type 0} (io : Pstore S V) where
  unfoldable pub read_entry : String → S → Result (Option QueueElement)
  read_entry key s = elim (io.read key s) [
    | err x ↦ ok none
    | ok v ↦ let (e, x) = io.unmarshal v in elim x [ none ↦ ok (some e) | some y ↦ err y ]
  ]

  -- The dates and entries that a deleted key adds.
  unfoldable pub note_drained : Option QueueElement → Option ℕ → S → Drained S → Drained S
  note_drained (some e) date s a = record {
    store = s;
    dates = a.dates ++ e.run_date ∷ [];
    entries = a.entries ++ e ∷ [];
    count = suc a.count;
  }
  note_drained none (some d) s a = record a {
    store = s;
    dates = a.dates ++ d ∷ [];
    count = suc a.count;
  }
  note_drained none none s a = record a { store = s; count = suc a.count }

  -- An error of the store's Delete is logged only.
  unfoldable pub drain_key : DrainType → String → Option QueueElement → Drained S → Drained S
  unfolding note_drained drains_stored trim_prefix
  drain_key t key entry a =
      if drains_stored t entry
      then note_drained entry (parse (trim_prefix key queue_prefix)) (io.delete key a.store).0 a
      else a

  -- A stored value that does not decode ends the loop with its error, after what was deleted.
  unfoldable pub drain_keys : DrainType → List String → Drained S → S × Result (Drained S)
  unfolding drain_key read_entry store_key
  drain_keys t [] a = (a.store, ok a)
  drain_keys t (k ∷ ks) a =
      let key = store_key k in
      elim (read_entry key a.store) [
        | err x ↦ (a.store, err x)
        | ok entry ↦ drain_keys t ks (drain_key t key entry a)
      ]

-- Under the lock: the index forgets the drained dates, and each entry gives back its count and
-- its key.
unfoldable pub release_drained : List QueueElement → Queue → Queue
unfolding mark_dedup
release_drained [] q = q
release_drained (e ∷ es) q =
    let counts =
      if e.auth == ""
      then q.user_counts
      else put_text e.auth (q.user_counts e.auth -ℤ pos 1) q.user_counts in
    release_drained es (record q {
      p_map = put_at e.run_date none q.p_map;
      user_counts = counts;
      h_map = mark_dedup (dedup_key e) false q.h_map;
    })

unfoldable pub unlist : List ℕ → Queue → Queue
unlist dates q = record q {
  keys = select (λ k. not (any (eqb k) dates)) q.keys;
  p_map = λ k. if any (eqb k) dates then none else q.p_map k;
}

abbrev pub not_drained : {S : Type 0} → S → Drained S
not_drained s = record { store = s; dates = []; entries = []; count = 0 }

module _ {S V D : Type 0} (io : Pstore S V) where
  unfoldable pub drain : DrainType → World S D → World S D × Result ℕ
  unfolding drain_keys unlist release_drained
  drain t w = elim (io.get_keys queue_prefix w.store) [
    | err x ↦ (w, err x)
    | ok ks ↦
        let (s, r) = drain_keys io t ks (not_drained w.store) in
        elim r [
          | err x ↦ (record w { store = s }, err x)
          | ok a ↦
              let q = release_drained a.entries (unlist a.dates w.queue) in
              (record w { queue = q; store = s }, ok a.count)
        ]
  ]
