-- ===== src/Queue/Rounds.antt =====
-- One round of the queue's loop in queuelogic/logic.go against the abstract queue.
use mathlib.Core.List.Memᴰ
use gramophile.Prelude.{ℕ, ◌+◌, Option, none, some, List, [], ◌∷◌, ◌++◌, Memᴰ, ◌≡◌, ◌≢◌, ap, All}
use gramophile.Status.{Err, Result, ok, err, Code}
use gramophile.Queue.Element.{QueueElement, Entry}
use gramophile.Queue.Store.{Pstore, PstoreLaws}
use gramophile.Queue.State.{World}
use gramophile.Queue.Ops.{execute_internal, enqueue, delete, get_next_entry}
use gramophile.Queue.Run.{fate_of, backoff_nanos, run_entry, settle, proceed, run_once}
use gramophile.Queue.Refines.{Refines, others}
use gramophile.Queue.Admission.{dated}
use gramophile.Queue.Contract.{postponed, requeue-Refines}
use gramophile.Queue.Next.{GoesBefore, get_next_entry-GoesBefore}

module _ {S V D U : Type 0} (io : Pstore S V) (validate : ℕ → QueueElement → D → D × Option Err)
    (execute : ℕ → U → QueueElement → World S D → World S D × Option Err × Entry)
    (get_user : QueueElement → D → Result U) where
  -- A round on a queue that is not empty runs the entry that goes before all others, and settles it.
  pub run_once-GoesBefore :
      (now later : ℕ) (w : World S D) (es : List QueueElement)
      → Refines io w es
      → es ≢ []
      → (e : QueueElement) × Memᴰ e es
        × All (λ f. GoesBefore e f) es
        × (let ran = run_entry io validate execute get_user now e w in
            let settled = settle io validate later (record e { entry = ran.2 }) ran.1 ran.0 in
            run_once io validate execute get_user now later w ≡ (settled.0, some (e, settled.1)))
  unfolding run_once
  run_once-GoesBefore now later w es r n =
      let (e, m, first, next) = get_next_entry-GoesBefore io w es r n in
      (e, m, first, ap (proceed io validate execute get_user now later) next)

-- What a handler may do to the queue: add elements at its end.
abbrev pub OnlyAdds :
    {S V D U : Type 0}
    → Pstore S V
    → (ℕ → U → QueueElement → World S D → World S D × Option Err × Entry)
    → Type 0
OnlyAdds {S} {V} {D} {U} io execute =
    (now : ℕ) (u : U) (e : QueueElement) (w : World S D) (es : List QueueElement)
    → Refines io w es
    → (new : List QueueElement) × Refines io (execute now u e w).0 (es ++ new)

module _ {S V D U : Type 0} (io : Pstore S V) (laws : PstoreLaws io)
    (validate : ℕ → QueueElement → D → D × Option Err)
    (execute : ℕ → U → QueueElement → World S D → World S D × Option Err × Entry)
    (get_user : QueueElement → D → Result U) (adds : OnlyAdds io execute) where
  abbrev Grown : World S D → List QueueElement → Type 0
  Grown w es = (new : List QueueElement) × Refines io w (es ++ new)

module _ {S V D U : Type 0} (io : Pstore S V) (validate : ℕ → QueueElement → D → D × Option Err)
    (execute : ℕ → U → QueueElement → World S D → World S D × Option Err × Entry)
    (get_user : QueueElement → D → Result U) where
  abbrev pub user_error : QueueElement → World S D → Option Err
  user_error e w = elim (get_user e w.database) [ err u ↦ some u | ok u ↦ none ]

  -- The run of an element: without its user nothing is run, and the look-up's error is the run's.
  abbrev pub answer : ℕ → QueueElement → World S D → World S D × Option Err × Entry
  answer now e w = elim (get_user e w.database) [
    | err u ↦ (w, some u, e.entry)
    | ok u ↦ execute_internal execute now u e w
  ]

  -- An element that meets an internal error is given back to the queue. If it is the next one, its
  -- new date, five minutes on, is free and Enqueue admits it, then it stands at the end of the queue
  -- with its entry as the handler has left it, and nothing else has changed since the run.
  pub run_once-Requeues :
      PstoreLaws io
      → (now later : ℕ) (w w' : World S D) (e : QueueElement) (es : List QueueElement) (u : U)
        (x : Err) (entry : Entry)
      → get_next_entry io w ≡ (w, ok e)
      → get_user e w.database ≡ ok u
      → execute_internal execute now u e w ≡ (w', some x, entry)
      → x.code ≡ Code.internal
      → Refines io w' es
      → Memᴰ e es
      → All (λ f. f.run_date ≢ later + backoff_nanos) es
      → (enqueue io validate later
          (postponed later (record e { entry = entry }))
          (delete io (record e { entry = entry }) w').0).1
        ≡ none
      → Refines io
          (run_once io validate execute get_user now later w).0
          (others e.run_date es ++ dated later (postponed later (record e { entry = entry })) ∷ [])
  unfolding run_once run_entry settle fate_of
  run_once-Requeues laws now later w w' e es u x entry next known ran internal r m free admitted =
      rw (next, known, ran, internal, run_once, run_entry)
        (requeue-Refines io laws validate later e entry w' es r m free admitted)
