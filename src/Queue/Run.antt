-- ===== src/Queue/Run.antt =====
-- queuelogic/logic.go: one round of the loop in Run, with what it does on each kind of error.
-- The sleeps, the metrics and the GitHub issue are left out; `later` is the clock's second reading.
use gramophile.Prelude.{
  ℕ, Bool, true, false, ◌||◌, ◌+◌, Option, none, some, if◌then◌else◌, contains,
}
use gramophile.Status.{
  Err, Result, ok, err, error_is, is_not_found, is_resource_exhausted, is_internal,
}
use gramophile.Queue.Element.{QueueElement, Entry}
use gramophile.Queue.Store.{Pstore, dl_queue_key}
use gramophile.Queue.State.{World, err_user_queue_limit, err_queue_full}
use gramophile.Queue.Ops.{enqueue, get_next_entry, delete, execute_internal}

-- What becomes of the element that was run.
pub data Fate : Type 0 where
  done waits requeued buried kept : Fate

-- The error's text names one of the queue's own two limits.
unfoldable pub says_limit : Err → Bool
says_limit e = contains e.message err_user_queue_limit || contains e.message err_queue_full

-- The tests of Run on the error of the run, `x`, and that of the look-up of the user, `u`.
unfoldable pub fate_of : Option Err → Option Err → Fate
unfolding says_limit
fate_of none u = Fate.done
fate_of (some x) u =
    if error_is is_not_found u || is_not_found x.code
    then Fate.done
    else if is_resource_exhausted x.code
    then (if says_limit x then Fate.done else Fate.waits)
    else if is_internal x.code
    then Fate.requeued
    else Fate.buried

-- Five minutes, in nanoseconds.
abbrev pub backoff_nanos : ℕ
backoff_nanos = 300_000_000_000

module _ {S V D : Type 0} (io : Pstore S V) (validate : ℕ → QueueElement → D → D × Option Err) where
  -- Delete and enqueue again; an error of Enqueue is ignored.
  unfoldable pub requeue : ℕ → QueueElement → World S D → World S D
  requeue later e w =
      let (w', x) = delete io e w in
      (enqueue io validate later (record e { run_date = later + backoff_nanos }) w').0

  -- Write to the dead letter queue, and delete only if that succeeds.
  unfoldable pub bury : QueueElement → World S D → World S D × Bool
  bury e w = elim (io.marshal e) [
    | err x ↦ (w, false)
    | ok v ↦
        let (s, x) = io.write (dl_queue_key e.run_date) v w.store in
        let moved = record w { store = s } in
        elim x [ none ↦ ((delete io e moved).0, true) | some y ↦ (moved, false) ]
  ]

  unfoldable pub settle : ℕ → QueueElement → Fate → World S D → World S D × Fate
  unfolding requeue bury
  settle later e Fate.done w = ((delete io e w).0, Fate.done)
  settle later e Fate.waits w = (w, Fate.waits)
  settle later e Fate.requeued w = (requeue later e w, Fate.requeued)
  settle later e Fate.kept w = (w, Fate.kept)
  settle later e Fate.buried w =
      let (w', moved) = bury e w in (w', if moved then Fate.buried else Fate.kept)

module _ {S V D U : Type 0} (io : Pstore S V) (validate : ℕ → QueueElement → D → D × Option Err)
    (execute : ℕ → U → QueueElement → World S D → World S D × Option Err × Entry)
    (get_user : QueueElement → D → Result U) where
  -- Without a user nothing is run, and the look-up's error is the run's.
  unfoldable pub run_entry : ℕ → QueueElement → World S D → World S D × Fate × Entry
  run_entry now e w = elim (get_user e w.database) [
    | err u ↦ (w, fate_of (some u) (some u), e.entry)
    | ok u ↦ let (w', x, entry) = execute_internal execute now u e w in (w', fate_of x none, entry)
  ]

  -- What Run does with the answer of getNextEntry; what follows is on the element as it is left.
  unfoldable pub proceed :
      ℕ → ℕ → World S D × Result QueueElement → World S D × Option (QueueElement × Fate)
  unfolding run_entry settle
  proceed now later (w, err x) = (w, none)
  proceed now later (w, ok e) =
      let ran = run_entry now e w in
      let settled = settle io validate later (record e { entry = ran.2 }) ran.1 ran.0 in
      (settled.0, some (e, settled.1))

  -- A round that finds no entry changes at most the index of the queue.
  unfoldable pub run_once : ℕ → ℕ → World S D → World S D × Option (QueueElement × Fate)
  unfolding proceed
  run_once now later w = proceed now later (get_next_entry io w)
