-- ===== src/Queue/Contract.antt =====
-- Enqueue of queuelogic/logic.go against the abstract queue: an admitted element goes to the end,
-- and a refused one leaves the index as it was.
use mathlib.Core.List.{map-append}
use gramophile.Prelude.{
  ℕ, ◌+◌, Option, none, List, [], ◌∷◌, ◌++◌, Memᴰ, ◌≡◌, ◌≢◌, All, All-snoc, arith, sym, ap, eq_iff,
  ◌+ℤ◌, ◌∙◌, subst,
}
use gramophile.Status.{Err}
use gramophile.Queue.Element.{QueueElement, Entry}
use gramophile.Queue.Store.{Pstore, PstoreLaws, queue_key, queue_key-injective}
use gramophile.Queue.State.{World}
use gramophile.Queue.Ops.{admit, enqueue, delete}
use gramophile.Queue.Refines.{
  Stored, Refines, priority_at-snoc, count_auth-snoc, Distinct-snoc, others, others-All,
}
use gramophile.Queue.Run.{requeue, backoff_nanos}
use gramophile.Queue.Removal.{delete_changed-Refines}
use gramophile.Queue.Admission.{dated, Persisted, enqueue-Persisted}

module _ {S V : Type 0} (io : Pstore S V) (laws : PstoreLaws io) where
  Stored-write :
      (date : ℕ) (v : V) (s : S) (es : List QueueElement)
      → (io.write (queue_key date) v s).1 ≡ none
      → All (λ f. f.run_date ≢ date) es
      → All (λ e. Stored io s e) es
      → All (λ e. Stored io (io.write (queue_key date) v s).0 e) es
  Stored-write date v s [] ok_write h st = tt
  Stored-write date v s (e ∷ es) ok_write h st =
      let (u, r, d) = st.0 in
      (
        (
          u,
          laws.read-write_ne _ _ v s ok_write
                (λ q. h.0 (sym (queue_key-injective date e.run_date q)))
              ∙ r,
          d,
        ),
        Stored-write date v s es ok_write h.1 st.1,
      )

abbrev pub postponed : ℕ → QueueElement → QueueElement
postponed later e = record e { run_date = later + backoff_nanos }

module _ {S V D : Type 0} (io : Pstore S V) (laws : PstoreLaws io)
    (validate : ℕ → QueueElement → D → D × Option Err) where
  Persisted-Refines :
      (e : QueueElement) (w w' : World S D) (es : List QueueElement)
      → Refines io w es
      → All (λ f. f.run_date ≢ e.run_date) es
      → Persisted io validate e w w'
      → Refines io w' (es ++ e ∷ [])
  unfolding admit ◌+ℤ◌
  Persisted-Refines e w w' es r fresh p = record {
    keys_dates =
        p.admitted.keys
        ∙ ap (λ l. l ++ e.run_date ∷ []) r.keys_dates
        ∙ sym (map-append _ es (e ∷ []));
    distinct = Distinct-snoc es e r.distinct fresh;
    indexed = λ k.
        ap (λ m. m k) p.admitted.p_map ∙ ground (arith, r.indexed k, priority_at-snoc k es e fresh);
    counted = λ a.
        ap (λ m. m a) p.admitted.user_counts
        ∙ ground (arith, r.counted a, r.counted e.auth, count_auth-snoc a es e, eq_iff e.auth a);
    stored =
        All-snoc (λ f. Stored io w'.store f) es e
          (subst (λ s. All (λ f. Stored io s f) es) (sym p.stored)
            (Stored-write io laws e.run_date p.bytes w.store es p.written fresh r.stored))
          (
            p.bytes,
            ap (io.read (queue_key e.run_date)) p.stored
                ∙ laws.read-write_self _ p.bytes w.store p.written,
            laws.unmarshal-marshal e p.bytes p.marshalled,
          );
  }

  -- An element whose date is new and that Enqueue admits goes, with the time of its addition, to
  -- the end of the queue; the elements that were there stay as they are.
  pub enqueue-Refines :
      (now : ℕ) (e : QueueElement) (w : World S D) (es : List QueueElement)
      → Refines io w es
      → All (λ f. f.run_date ≢ e.run_date) es
      → (enqueue io validate now e w).1 ≡ none
      → Refines io (enqueue io validate now e w).0 (es ++ dated now e ∷ [])
  enqueue-Refines now e w es r fresh h =
      Persisted-Refines (dated now e) w _ es r fresh (enqueue-Persisted io validate now e w h)

  -- The element at its new date, with its entry as it was left, is the last one, and nothing else has
  -- changed.
  pub requeue-Refines :
      (later : ℕ) (e : QueueElement) (entry : Entry) (w : World S D) (es : List QueueElement)
      → Refines io w es
      → Memᴰ e es
      → All (λ f. f.run_date ≢ later + backoff_nanos) es
      → let left = record e { entry = entry } in
        (enqueue io validate later (postponed later left) (delete io left w).0).1 ≡ none
        → Refines io
            (requeue io validate later left w)
            (others e.run_date es ++ dated later (postponed later left) ∷ [])
  unfolding requeue
  requeue-Refines later e entry w es r m free h =
      let left = record e { entry = entry } in
      enqueue-Refines later (postponed later left) (delete io left w).0 (others e.run_date es)
        (delete_changed-Refines io laws w es e entry r m)
        (others-All (λ f. f.run_date ≢ later + backoff_nanos) e.run_date es free) h

  -- Enqueue does not look whether the date is taken. Where it is, the element of that date is
  -- overwritten: once the new one is admitted, the old one is no longer in the store.
  pub enqueue_overwrites :
      (now : ℕ) (e f : QueueElement) (w : World S D)
      → f.run_date ≡ e.run_date
      → f ≢ dated now e
      → (enqueue io validate now e w).1 ≡ none
      → ¬ Stored io (enqueue io validate now e w).0.store f
  enqueue_overwrites now e f w same other h (v, r, u) =
      let p = enqueue-Persisted io validate now e w h in
      let stored = laws.read-write_self (queue_key e.run_date) p.bytes w.store p.written in
      let decoded = laws.unmarshal-marshal (dated now e) p.bytes p.marshalled in
      other (
        cc (r, stored, decoded, u, ap queue_key same, ap (io.read (queue_key e.run_date)) p.stored))
