-- ===== src/Queue/Admission.antt =====
-- What Enqueue of queuelogic/logic.go does to the queue when it admits an element and when it
-- refuses one.
use gramophile.Prelude.{ℕ, Option, none, ◌≡◌, arith, inl, inr, Bool-cases, Option-cases}
use gramophile.Status.{Err, ok, Result-cases}
use gramophile.Queue.Element.{QueueElement}
use gramophile.Queue.Store.{Pstore, queue_key}
use gramophile.Queue.State.{Queue, World}
use gramophile.Queue.Ops.{
  admit, persist, throttle, deduplicate, validate_entry, enqueue, is_full, is_marked, is_over_limit,
  marked,
}

abbrev pub dated : ℕ → QueueElement → QueueElement
dated now e = record e { addition_date = now }

-- The index without the deduplication keys.
pub record SameIndex (p q : Queue) : Type 0 where
  pub keys : p.keys ≡ q.keys
  pub p_map : p.p_map ≡ q.p_map
  pub user_counts : p.user_counts ≡ q.user_counts

module _ {S V D : Type 0} (io : Pstore S V) (validate : ℕ → QueueElement → D → D × Option Err) where
  -- What an admitted element leaves: the marshalled value is written, and the index has it.
  pub record Persisted (e : QueueElement) (w w' : World S D) : Type 0 where
    pub bytes : V
    pub marshalled : io.marshal e ≡ ok bytes
    pub written : (io.write (queue_key e.run_date) bytes w.store).1 ≡ none
    pub stored : w'.store ≡ (io.write (queue_key e.run_date) bytes w.store).0
    pub admitted : SameIndex w'.queue (admit e w.queue)

  persist-Persisted :
      (e : QueueElement) (w : World S D)
      → (persist io validate e w).1 ≡ none
      → Persisted e w (persist io validate e w).0
  unfolding persist
  persist-Persisted e w h = elim (Result-cases (io.marshal e)) [
    | inl (v, m) ↦ elim (Option-cases (io.write (queue_key e.run_date) v w.store).1) [
      | inl fine ↦ record {
        bytes = v;
        marshalled = m;
        written = fine;
        stored = ground arith;
        admitted = ground arith;
      }
      | inr (x, fails) ↦ absurd (ground arith)
    ]
    | inr (x, m) ↦ absurd (ground arith)
  ]

  throttle-Persisted :
      (e : QueueElement) (w : World S D)
      → (throttle io validate e w).1 ≡ none
      → Persisted e w (throttle io validate e w).0
  unfolding throttle
  throttle-Persisted e w h = elim (Bool-cases (is_over_limit e w.queue)) [
    | inl over ↦ absurd (ground arith)
    | inr under ↦ rw (under, throttle) (persist-Persisted e w (ground arith))
  ]

  -- Marking a key first changes nothing of the rest.
  Persisted-marked :
      (e : QueueElement) (w w' : World S D)
      → Persisted e (record w { queue = marked e w.queue }) w'
      → Persisted e w w'
  unfolding admit
  Persisted-marked e w w' p = record {
    bytes = p.bytes;
    marshalled = p.marshalled;
    written = p.written;
    stored = p.stored;
    admitted = record {
      keys = p.admitted.keys;
      p_map = p.admitted.p_map;
      user_counts = p.admitted.user_counts;
    };
  }

  deduplicate-Persisted :
      (e : QueueElement) (w : World S D)
      → (deduplicate io validate e w).1 ≡ none
      → Persisted e w (deduplicate io validate e w).0
  unfolding deduplicate
  deduplicate-Persisted e w h = elim (Bool-cases (is_marked e w.queue)) [
    | inl there ↦ absurd (ground arith)
    | inr new ↦
        rw (new, deduplicate) (Persisted-marked e w _ (throttle-Persisted e _ (ground arith)))
  ]

  Persisted-database :
      (e : QueueElement) (w w' : World S D) {d : D}
      → Persisted e (record w { database = d }) w'
      → Persisted e w w'
  Persisted-database e w w' p = record {
    bytes = p.bytes;
    marshalled = p.marshalled;
    written = p.written;
    stored = p.stored;
    admitted = p.admitted;
  }

  pub enqueue-Persisted :
      (now : ℕ) (e : QueueElement) (w : World S D)
      → (enqueue io validate now e w).1 ≡ none
      → Persisted (dated now e) w (enqueue io validate now e w).0
  unfolding enqueue
  enqueue-Persisted now e w h = elim (Bool-cases (is_full e w.queue)) [
    | inl full ↦ absurd (ground arith)
    | inr room ↦ elim (Option-cases (validate_entry io validate now (dated now e) w.database).1) [
      | inl fine ↦
          rw (room, enqueue, fine)
            (Persisted-database (dated now e) w _
              (deduplicate-Persisted (dated now e) _ (ground arith)))
      | inr (x, fails) ↦ absurd (ground arith)
    ]
  ]
