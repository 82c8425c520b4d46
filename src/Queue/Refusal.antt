-- ===== src/Queue/Refusal.antt =====
-- The refusals of Enqueue in queuelogic/logic.go: what they leave, and the deduplication of
-- elements by their key.
use gramophile.Prelude.{
  ℕ, true, false, Option, none, some, ◌≡◌, ◌≢◌, refl, arith, inl, inr, Bool-cases, Option-cases,
  eq_iff, eq_refl, ◌∙◌,
}
use gramophile.Status.{Code, Err, errorf, Result-cases}
use gramophile.Queue.Element.{QueueElement, dedup_key}
use gramophile.Queue.Store.{Pstore, queue_key}
use gramophile.Queue.State.{Queue, World, err_user_queue_limit}
use gramophile.Queue.Ops.{
  admit, persist, throttle, deduplicate, validate_entry, enqueue, mark_dedup, is_full, is_marked,
  is_over_limit, marked,
}
use gramophile.Queue.Admission.{dated, SameIndex}

-- Two elements with one key are marked alike, whatever the rest of them.
is_marked-marked :
    (e f : QueueElement) (q p : Queue)
    → dedup_key f ≡ dedup_key e
    → dedup_key e ≢ ""
    → p.h_map ≡ (marked e q).h_map
    → is_marked f p ≡ true
unfolding mark_dedup
is_marked-marked e f q p same keyed h =
    rw (h, same) (ground (arith, eq_iff (dedup_key e) "", eq_refl (dedup_key e)))

module _ {S V D : Type 0} (io : Pstore S V) (validate : ℕ → QueueElement → D → D × Option Err) where
  persist_refused :
      (e : QueueElement) (w : World S D) {x : Err}
      → (persist io validate e w).1 ≡ some x
      → (persist io validate e w).0.queue ≡ w.queue
  unfolding persist
  persist_refused e w h = elim (Result-cases (io.marshal e)) [
    | inl (v, m) ↦ elim (Option-cases (io.write (queue_key e.run_date) v w.store).1) [
      | inl fine ↦ absurd (ground arith)
      | inr (x, fails) ↦ ground arith
    ]
    | inr (x, m) ↦ ground arith
  ]

  throttle_refused :
      (e : QueueElement) (w : World S D) {x : Err}
      → (throttle io validate e w).1 ≡ some x
      → (throttle io validate e w).0.queue ≡ w.queue
  unfolding throttle
  throttle_refused e w {x} h = elim (Bool-cases (is_over_limit e w.queue)) [
    | inl over ↦ rw (over, throttle)
    | inr under ↦ rw (under, throttle) (persist_refused e w {x = x} (ground arith))
  ]

  deduplicate_refused :
      (e : QueueElement) (w : World S D) {x : Err}
      → (deduplicate io validate e w).1 ≡ some x
      → SameIndex (deduplicate io validate e w).0.queue w.queue
  unfolding deduplicate
  deduplicate_refused e w {x} h = elim (Bool-cases (is_marked e w.queue)) [
    | inl there ↦ rw (there, deduplicate) (record { keys = refl; p_map = refl; user_counts = refl })
    | inr new ↦
        let same =
          throttle_refused e (record w { queue = marked e w.queue }) {x = x} (ground arith) in
        rw (new, deduplicate, same) (record { keys = refl; p_map = refl; user_counts = refl })
  ]

  -- Whatever the reason for which Enqueue refuses an element, the keys, the priorities and the
  -- counts of the users are those of before.
  pub enqueue_refused :
      (now : ℕ) (e : QueueElement) (w : World S D) (x : Err)
      → (enqueue io validate now e w).1 ≡ some x
      → SameIndex (enqueue io validate now e w).0.queue w.queue
  unfolding enqueue
  enqueue_refused now e w x h = elim (Bool-cases (is_full e w.queue)) [
    | inl full ↦ rw (full, enqueue) (record { keys = refl; p_map = refl; user_counts = refl })
    | inr room ↦ elim (Option-cases (validate_entry io validate now (dated now e) w.database).1) [
      | inl fine ↦
          rw (room, enqueue, fine) (deduplicate_refused (dated now e) _ {x = x} (ground arith))
      | inr (y, fails) ↦
          rw (room, enqueue, fails) (record { keys = refl; p_map = refl; user_counts = refl })
    ]
  ]

  persist-h_map :
      (e : QueueElement) (w : World S D) → (persist io validate e w).0.queue.h_map ≡ w.queue.h_map
  unfolding persist admit
  persist-h_map e w = elim (Result-cases (io.marshal e)) [
    | inl (v, m) ↦ elim (Option-cases (io.write (queue_key e.run_date) v w.store).1) [
      | inl fine ↦ ground arith
      | inr (x, fails) ↦ ground arith
    ]
    | inr (x, m) ↦ ground arith
  ]

  throttle-h_map :
      (e : QueueElement) (w : World S D) → (throttle io validate e w).0.queue.h_map ≡ w.queue.h_map
  unfolding throttle
  throttle-h_map e w = elim (Bool-cases (is_over_limit e w.queue)) [
    | inl over ↦ rw (over, throttle)
    | inr under ↦ rw (under, throttle) (persist-h_map e w)
  ]

  -- Once an element passes the test on its key, the key stays marked, whatever happens to it.
  enqueue_marks :
      (now : ℕ) (e : QueueElement) (w : World S D)
      → is_full e w.queue ≡ false
      → (validate_entry io validate now (dated now e) w.database).1 ≡ none
      → is_marked e w.queue ≡ false
      → (enqueue io validate now e w).0.queue.h_map ≡ (marked e w.queue).h_map
  unfolding enqueue deduplicate dedup_key
  enqueue_marks now e w room fine new =
      rw (room, enqueue, fine, new, deduplicate)
        (throttle-h_map (dated now e) (record w {
          queue = marked (dated now e) w.queue;
          database = (validate_entry io validate now (dated now e) w.database).0;
        }))

  abbrev IsDuplicate : World S D → World S D × Option Err → Type 0
  IsDuplicate w r =
      (r.0.queue ≡ w.queue) × (x : Err) × (r.1 ≡ some x) × (x.code ≡ Code.already_exists)

  -- A valid element whose key is marked, where the queue has room for it.
  enqueue_marked :
      (now : ℕ) (f : QueueElement) (w : World S D)
      → is_full f w.queue ≡ false
      → (validate_entry io validate now (dated now f) w.database).1 ≡ none
      → is_marked f w.queue ≡ true
      → IsDuplicate w (enqueue io validate now f w)
  unfolding enqueue deduplicate dedup_key
  enqueue_marked now f w room fine there =
      rw (room, enqueue, fine, there, deduplicate) (refl, _, refl, refl)

  -- What admits an element passes the three tests.
  enqueue_passes :
      (now : ℕ) (e : QueueElement) (w : World S D)
      → (enqueue io validate now e w).1 ≡ none
      → (is_full e w.queue ≡ false)
        × ((validate_entry io validate now (dated now e) w.database).1 ≡ none)
        × (is_marked e w.queue ≡ false)
  unfolding enqueue deduplicate dedup_key
  enqueue_passes now e w h = elim (Bool-cases (is_full e w.queue)) [
    | inl full ↦ absurd (ground arith)
    | inr room ↦ elim (Option-cases (validate_entry io validate now (dated now e) w.database).1) [
      | inl fine ↦ elim (Bool-cases (is_marked e w.queue)) [
        | inl there ↦ absurd (ground arith)
        | inr new ↦ (room, fine, new)
      ]
      | inr (x, fails) ↦ absurd (ground arith)
    ]
  ]

  enqueue_throttled :
      (now : ℕ) (e : QueueElement) (w : World S D)
      → is_full e w.queue ≡ false
      → (validate_entry io validate now (dated now e) w.database).1 ≡ none
      → is_marked e w.queue ≡ false
      → is_over_limit e w.queue ≡ true
      → (enqueue io validate now e w).1 ≡ some (errorf Code.resource_exhausted err_user_queue_limit)
  unfolding enqueue deduplicate throttle dedup_key
  enqueue_throttled now e w room fine new over =
      rw (room, enqueue, fine, new, deduplicate, over, throttle)

  -- After an element with a key is admitted, an element with the same key is refused as a
  -- duplicate, if the queue has room for it and it is valid; the queue does not change.
  pub enqueue-IsDuplicate :
      (now later : ℕ) (e f : QueueElement) (w : World S D)
      → (enqueue io validate now e w).1 ≡ none
      → dedup_key f ≡ dedup_key e
      → dedup_key e ≢ ""
      → is_full f (enqueue io validate now e w).0.queue ≡ false
      → (validate_entry io validate later
          (dated later f)
          (enqueue io validate now e w).0.database).1
        ≡ none
      → IsDuplicate
          (enqueue io validate now e w).0
          (enqueue io validate later f (enqueue io validate now e w).0)
  enqueue-IsDuplicate now later e f w h same keyed room valid =
      let (room', fine, new) = enqueue_passes now e w h in
      let w' = (enqueue io validate now e w).0 in
      enqueue_marked later f w' room valid
        (is_marked-marked e f w.queue w'.queue same keyed (enqueue_marks now e w room' fine new))

  -- The key is marked before the throttle is applied. An element that the throttle refuses is not
  -- in the queue, and yet every later element with its key is refused as a duplicate, in any queue
  -- with the marks that the refusal left, however few elements it has.
  pub throttled_blocks :
      (now later : ℕ) (e f : QueueElement) (w w' : World S D)
      → is_full e w.queue ≡ false
      → (validate_entry io validate now (dated now e) w.database).1 ≡ none
      → is_marked e w.queue ≡ false
      → is_over_limit e w.queue ≡ true
      → dedup_key e ≢ ""
      → dedup_key f ≡ dedup_key e
      → w'.queue.h_map ≡ (enqueue io validate now e w).0.queue.h_map
      → is_full f w'.queue ≡ false
      → (validate_entry io validate later (dated later f) w'.database).1 ≡ none
      → ((enqueue io validate now e w).1
          ≡ some (errorf Code.resource_exhausted err_user_queue_limit))
        × SameIndex (enqueue io validate now e w).0.queue w.queue
        × IsDuplicate w' (enqueue io validate later f w')
  throttled_blocks now later e f w w' room fine new over keyed same marks room' fine' =
      let refused = enqueue_throttled now e w room fine new over in
      (
        refused,
        enqueue_refused now e w _ refused,
        enqueue_marked later f w' room' fine' (
            is_marked-marked e f w.queue w'.queue same keyed
              (marks ∙ enqueue_marks now e w room fine new)),
      )
