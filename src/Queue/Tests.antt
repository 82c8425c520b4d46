-- ===== src/Queue/Tests.antt =====
-- Runs of the queue on the store in memory, and its theorems at concrete queues.
use gramophile.Prelude.{
  ℕ, pos, false, Option, none, some, List, [], ◌∷◌, ◌++◌, Memᴰ, ◌≡◌, ◌≢◌, refl, arith, All, sort,
  select, any, find, contains, show, ◌+ℤ◌, ◌-ℤ◌, eq_iff,
}
use gramophile.Status.{Err, Code, errorf, Result, ok, err}
use gramophile.Queue.Element.{Entry, Priority, QueueElement, has_handler, is_throttlable, dedup_key}
use gramophile.Queue.Store.{queue_key}
use gramophile.Queue.State.{World, empty}
use gramophile.Queue.Ops.{
  enqueue, get_next_entry, delete, execute_internal, choose, has_priority, release, mark_dedup,
  without,
}
use gramophile.Queue.Run.{Fate, fate_of, run_once, requeue}
use gramophile.Queue.Memory.{Table, memory, memory-laws, memory-ReadsDeleted, read, remove}
use gramophile.Queue.Refines.{Refines, Stored, others, priority_at, count_auth}
use gramophile.Queue.Removal.{delete-Removes}
use gramophile.Queue.Admission.{dated, SameIndex}
use gramophile.Queue.Contract.{enqueue-Refines, enqueue_overwrites, postponed}
use gramophile.Queue.Refusal.{enqueue_refused, enqueue-IsDuplicate, throttled_blocks}
use gramophile.Queue.Next.{GoesBefore, get_next_entry-GoesBefore}
use gramophile.Queue.Rounds.{run_once-Requeues, OnlyAdds}
use mathlib.Core.List.{append-nil}

abbrev task : ℕ → Entry → Priority → QueueElement
task date entry priority = record {
  run_date = date;
  auth = "token";
  backoff_in_seconds = 0;
  entry = entry;
  refresh_id = 0;
  intention = "test";
  force = false;
  priority = priority;
  addition_date = 0;
}

abbrev accepts : ℕ → QueueElement → Unit {0} → Unit {0} × Option Err
accepts now e d = (tt, none)

abbrev start : World Table (Unit {0})
start = record { queue = empty; store = []; database = tt }

abbrev link : QueueElement
link = task 7 (Entry.link_sales 1) Priority.priority_normal

abbrev adjust : QueueElement
adjust = task 9 Entry.adjust_sales Priority.priority_high

abbrev one : World Table (Unit {0})
one = (enqueue memory accepts 3 link start).0

abbrev two : World Table (Unit {0})
two = (enqueue memory accepts 4 adjust one).0

queue_code : Unit {0}
unfolding enqueue empty has_handler is_throttlable dedup_key ◌+ℤ◌ ◌-ℤ◌ queue_key show read remove
    get_next_entry delete sort select find any execute_internal run_once requeue contains choose
    has_priority priority_at count_auth others release mark_dedup without fate_of
queue_code = tt

one_runs : (one.queue.keys ≡ 7 ∷ []) × (two.queue.keys ≡ 7 ∷ 9 ∷ [])
unfolding queue_code
one_runs = (refl, refl)

next_runs : (get_next_entry memory two).1 ≡ ok (dated 4 adjust)
unfolding queue_code
next_runs = refl

start-Refines : Refines memory start []
unfolding empty count_auth priority_at
start-Refines = record {
  keys_dates = refl;
  distinct = tt;
  indexed = λ k. refl;
  counted = λ a. refl;
  stored = tt;
}

one-Refines : Refines memory one (dated 3 link ∷ [])
unfolding queue_code
one-Refines = enqueue-Refines memory memory-laws accepts 3 link start [] start-Refines tt refl

enqueue-Refines_example : Refines memory two (dated 3 link ∷ dated 4 adjust ∷ [])
unfolding queue_code
enqueue-Refines_example =
    enqueue-Refines memory memory-laws accepts 4 adjust one (dated 3 link ∷ []) one-Refines
      (omega arith, tt) refl

delete-Removes_example :
    Refines memory
      (delete memory (dated 3 link) two).0
      (others 7 (dated 3 link ∷ dated 4 adjust ∷ []))
    × (x : Err) × (read (queue_key 7) (delete memory (dated 3 link) two).0.store ≡ err x)
unfolding delete
delete-Removes_example =
    delete-Removes memory memory-laws memory-ReadsDeleted two (dated 3 link ∷ dated 4 adjust ∷ [])
      (dated 3 link) enqueue-Refines_example (Memᴰ.head refl) refl

get_next_entry-GoesBefore_example :
    (e : QueueElement) × Memᴰ e (dated 3 link ∷ dated 4 adjust ∷ [])
    × All (λ f. GoesBefore e f) (dated 3 link ∷ dated 4 adjust ∷ [])
    × (get_next_entry memory two ≡ (two, ok e))
get_next_entry-GoesBefore_example =
    get_next_entry-GoesBefore memory two (dated 3 link ∷ dated 4 adjust ∷ [])
      enqueue-Refines_example (λ q. cc)

enqueue_overwrites_example :
    ¬ Stored memory
      (enqueue memory accepts 5 (task 7 Entry.adjust_sales Priority.priority_low) one).0.store
      (dated 3 link)
unfolding queue_code
enqueue_overwrites_example =
    enqueue_overwrites memory memory-laws accepts 5
      (task 7 Entry.adjust_sales Priority.priority_low) (dated 3 link) one refl (λ q. cc) refl

enqueue_refused_example :
    SameIndex
      (enqueue memory accepts 5 (task 8 (Entry.link_sales 2) Priority.priority_low) one).0.queue
      one.queue
unfolding queue_code
enqueue_refused_example =
    enqueue_refused memory accepts 5 (task 8 (Entry.link_sales 2) Priority.priority_low) one _ refl

keyed_link : dedup_key link ≢ ""
unfolding queue_code
keyed_link e = ground (arith, eq_iff "LinkSales" "")

enqueue-IsDuplicate_example :
    (enqueue memory accepts 5 (task 8 (Entry.link_sales 2) Priority.priority_low) one).0.queue
    ≡ one.queue
unfolding queue_code
enqueue-IsDuplicate_example =
    (enqueue-IsDuplicate memory accepts 3 5 link (task 8 (Entry.link_sales 2) Priority.priority_low)
      start refl refl keyed_link refl refl).0

abbrev want : QueueElement
want = task 11 (Entry.refresh_want 5 false) Priority.priority_low

abbrev busy : World Table (Unit {0})
busy = record start { queue = record (start.queue) { user_counts = λ a. pos 200 } }

-- The queue after a restart of the user's count, with the marks that the refusal left.
abbrev idle : World Table (Unit {0})
idle = record start {
  queue = record (start.queue) { h_map = (enqueue memory accepts 3 want busy).0.queue.h_map };
}

keyed_want : dedup_key want ≢ ""
unfolding queue_code
keyed_want e = ground (arith, eq_iff "RefreshWant-token-5" "")

throttled_blocks_example : (enqueue memory accepts 5 want idle).0.queue ≡ idle.queue
unfolding queue_code
throttled_blocks_example =
    (throttled_blocks memory accepts 3 5 want want busy idle refl refl refl refl keyed_want refl
      refl refl refl).2.0

abbrev does_nothing :
    ℕ
    → Unit {0}
    → QueueElement
    → World Table (Unit {0})
    → World Table (Unit {0}) × Option Err × Entry
does_nothing now u e w = (w, none, e.entry)

abbrev anyone : QueueElement → Unit {0} → Result (Unit {0})
anyone e d = ok tt

does_nothing-OnlyAdds : OnlyAdds memory does_nothing
does_nothing-OnlyAdds now u e w es r = ([], rw append-nil r)

-- A handler that adds nothing, changes the entry and fails.
abbrev fails :
    Code
    → ℕ
    → Unit {0}
    → QueueElement
    → World Table (Unit {0})
    → World Table (Unit {0}) × Option Err × Entry
fails code now u e w = (w, some (errorf code "no answer"), Entry.link_sales 5)

run_once-Requeues_example :
    Refines memory (run_once memory accepts (fails Code.internal) anyone 20 50 one).0 (
      others 7 (dated 3 link ∷ [])
      ++ dated 50 (postponed 50 (record (dated 3 link) { entry = Entry.link_sales 5 })) ∷ [])
unfolding queue_code
run_once-Requeues_example =
    run_once-Requeues memory accepts (fails Code.internal) anyone memory-laws 20 50 one one
      (dated 3 link) (dated 3 link ∷ []) tt (errorf Code.internal "no answer") (Entry.link_sales 5)
      refl refl refl refl one-Refines (Memᴰ.head refl) (omega arith, tt) refl

run_once_buries :
    (run_once memory accepts (fails Code.aborted) anyone 20 21 two).1
    ≡ some (dated 4 adjust, Fate.buried)
unfolding queue_code
run_once_buries = refl

run_once_runs :
    (run_once memory accepts does_nothing anyone 20 21 two).1 ≡ some (dated 4 adjust, Fate.done)
unfolding queue_code
run_once_runs = refl
