-- ===== src/Queue/Settle.antt =====
-- What Run of queuelogic/logic.go does with an element after its run, against the abstract queue.
use gramophile.Prelude.{
  ℕ, Bool, true, false, ◌||◌, ◌&&◌, ◌⊎◌, refl, Option, none, some, List, [], ◌∷◌, Memᴰ, ◌≡◌, sym,
  ◌∙◌, inl, inr, All, Option-cases, Bool-cases,
}
use gramophile.Status.{
  Err, ok, err, Result-cases, error_is, is_not_found, is_resource_exhausted, is_internal,
}
use gramophile.Queue.Element.{QueueElement, Entry}
use gramophile.Queue.Store.{
  Pstore, PstoreLaws, ReadsDeleted, queue_key, dl_queue_key, dl_queue_key-ne-queue_key,
}
use gramophile.Queue.State.{World}
use gramophile.Queue.Ops.{enqueue, delete}
use gramophile.Queue.Run.{fate_of, says_limit, requeue, bury, settle}
use gramophile.Queue.Refines.{Refines, Stored, others}
use gramophile.Queue.Contract.{postponed}
use gramophile.Queue.Removal.{delete_changed-Refines}

module _ {S V D : Type 0} (io : Pstore S V) (laws : PstoreLaws io)
    (validate : ℕ → QueueElement → D → D × Option Err) (deletes : ReadsDeleted io) where
  Stored-bury :
      (k : ℕ) (v : V) (s : S) (es : List QueueElement)
      → (io.write (dl_queue_key k) v s).1 ≡ none
      → All (λ e. Stored io s e) es
      → All (λ e. Stored io (io.write (dl_queue_key k) v s).0 e) es
  Stored-bury k v s [] h st = tt
  Stored-bury k v s (e ∷ es) h st =
      let (u, r, d) = st.0 in
      (
        (u, laws.read-write_ne _ _ v s h (dl_queue_key-ne-queue_key k e.run_date) ∙ r, d),
        Stored-bury k v s es h st.1,
      )

  -- The element is out of the queue, and out of the store, unless its deletion there has failed.
  abbrev pub Gone : QueueElement → List QueueElement → World S D → World S D → Type 0
  Gone e es w w' =
      Refines io w' (others e.run_date es)
      × (((x : Err) × ((io.delete (queue_key e.run_date) w.store).1 ≡ some x))
          ⊎ ((x : Err) × (io.read (queue_key e.run_date) w'.store ≡ err x)))

  -- The element is deleted and enqueued again for later.
  abbrev pub Requeued : ℕ → QueueElement → List QueueElement → World S D → World S D → Type 0
  Requeued later e es w w' =
      Refines io (delete io e w).0 (others e.run_date es)
      × (w' ≡ (enqueue io validate later (postponed later e) (delete io e w).0).0)

  -- The element is out of the queue and among the dead letters, or it could not be written there and
  -- the index is as it was.
  abbrev pub Buried : QueueElement → List QueueElement → World S D → World S D → Type 0
  Buried e es w w' =
      ((v : V) × (io.marshal e ≡ ok v)
        × (io.read (dl_queue_key e.run_date) w'.store ≡ ok v)
        × Refines io w' (others e.run_date es))
      ⊎ ((w'.queue ≡ w.queue)
          × (((x : Err) × (io.marshal e ≡ err x))
              ⊎ ((v : V) × (x : Err) × ((io.write (dl_queue_key e.run_date) v w.store).1
                    ≡ some x))))

  delete-Gone :
      (w : World S D) (es : List QueueElement) (e : QueueElement) (entry : Entry)
      → Refines io w es
      → Memᴰ e es
      → let left = record e { entry = entry } in Gone left es w (delete io left w).0
  unfolding delete
  delete-Gone w es e entry r m = (
    delete_changed-Refines io laws w es e entry r m,
    elim (Option-cases (io.delete (queue_key e.run_date) w.store).1) [
      | inl done ↦ inr (deletes (queue_key e.run_date) w.store done)
      | inr (x, fails) ↦ inl (x, fails)
    ],
  )

  bury-Buried :
      (w : World S D) (es : List QueueElement) (e : QueueElement) (entry : Entry)
      → Refines io w es
      → Memᴰ e es
      → let left = record e { entry = entry } in Buried left es w (bury io validate left w).0
  unfolding bury delete
  bury-Buried w es e entry r m = elim (Result-cases (io.marshal (record e { entry = entry }))) [
    | inr (x, fails) ↦ rw (fails, bury) (inr (refl, inl (x, refl)))
    | inl (v, bytes) ↦ elim (Option-cases (io.write (dl_queue_key e.run_date) v w.store).1) [
      | inr (x, fails) ↦ rw (bytes, bury, fails) (inr (refl, inr (v, x, fails)))
      | inl fine ↦
          rw (bytes, bury, fine)
            (inl (
              v,
              refl,
              laws.read-delete_ne _ _ _
                    (λ q. dl_queue_key-ne-queue_key e.run_date e.run_date (sym q))
                  ∙ laws.read-write_self _ v w.store fine,
              delete_changed-Refines io laws _ es e entry
                  (record {
                    keys_dates = r.keys_dates;
                    distinct = r.distinct;
                    indexed = r.indexed;
                    counted = r.counted;
                    stored = Stored-bury e.run_date v w.store es fine r.stored;
                  })
                  m,
            ))
    ]
  ]

  -- The run is over: it ended well, or it or the look-up of the user found nothing, or the queue's own
  -- limits refused a follow-up.
  abbrev pub is_over : Option Err → Option Err → Bool
  is_over none u = true
  is_over (some x) u =
      error_is is_not_found u || is_not_found x.code || is_resource_exhausted x.code && says_limit x

  -- What a round leaves of the queue, by the errors of the run and of the look-up of the user.
  abbrev pub Settled :
      ℕ
      → Option Err
      → Option Err
      → QueueElement
      → List QueueElement
      → World S D
      → World S D
      → Type 0
  Settled later x u e es w w' =
      ((is_over x u ≡ true) × Gone e es w w')
      ⊎ ((is_over x u ≡ false)
          × (error_is is_resource_exhausted x ≡ true)
          × (w' ≡ w)
          × Refines io w' es)
      ⊎ ((is_over x u ≡ false)
          × (error_is is_resource_exhausted x ≡ false)
          × (error_is is_internal x ≡ true)
          × Requeued later e es w w')
      ⊎ ((is_over x u ≡ false)
          × (error_is is_resource_exhausted x ≡ false)
          × (error_is is_internal x ≡ false)
          × Buried e es w w')

  pub settle-Settled :
      (later : ℕ) (x u : Option Err) (w : World S D) (es : List QueueElement) (e : QueueElement)
      (entry : Entry)
      → Refines io w es
      → Memᴰ e es
      → let left = record e { entry = entry } in
        Settled later x u left es w (settle io validate later left (fate_of x u) w).0
  unfolding settle fate_of requeue
  settle-Settled later none u w es e entry r m = inl (refl, delete-Gone w es e entry r m)
  settle-Settled later (some x) u w es e entry r m =
      elim (Bool-cases (error_is is_not_found u || is_not_found x.code)) [
        | inl absent ↦ rw (absent, fate_of) (inl (refl, delete-Gone w es e entry r m))
        | inr present ↦ elim (Bool-cases (is_resource_exhausted x.code)) [
          | inl full ↦ elim (Bool-cases (says_limit x)) [
            | inl limit ↦
                rw (present, full, limit, fate_of) (inl (refl, delete-Gone w es e entry r m))
            | inr tokens ↦ rw (present, full, tokens, fate_of) (inr (inl (refl, refl, refl, r)))
          ]
          | inr room ↦ elim (Bool-cases (is_internal x.code)) [
            | inl internal ↦
                rw (present, room, internal, fate_of)
                  (inr (
                    inr (
                      inl (
                        refl,
                        refl,
                        refl,
                        (delete_changed-Refines io laws w es e entry r m, refl),
                      ))))
            | inr other ↦
                rw (present, room, other, fate_of)
                  (inr (inr (inr (refl, refl, refl, bury-Buried w es e entry r m))))
          ]
        ]
      ]
