-- ===== src/Queue/Ops.antt =====
-- queuelogic/logic.go: Enqueue, getNextEntry, delete and ExecuteInternal. The time is an argument
-- of the calls that read the clock. Metrics and logs are left out, and so are the locks: each
-- critical section runs alone in its call.
use gramophile.Prelude.{
  put_at, put_text, ℕ, pos, String, Bool, true, false, not, ◌&&◌, Option, none, some, List, [], ◌∷◌,
  ◌++◌, ltb, eqb, if◌then◌else◌, ◌==◌, length, select, find, sort, show, sprint, ◌+ℤ◌, ◌-ℤ◌, leb_ℤ,
}
use gramophile.Status.{Code, Err, Result, ok, err, errorf, is_not_found}
use gramophile.Queue.Element.{
  Priority, QueueElement, Entry, is_high, is_normal, is_throttlable, has_handler, dedup_key,
}
use gramophile.Queue.Store.{Pstore, queue_key}
use gramophile.Queue.State.{
  Queue, World, max_queue_size, max_user_queue_size, err_user_queue_limit, err_queue_full,
}

-- The priority of a key, where the map has one, passes the test.
unfoldable pub has_priority : (Priority → Bool) → (ℕ → Option Priority) → ℕ → Bool
has_priority p m k = elim (m k) [ none ↦ false | some q ↦ p q ]

-- `h_map` after a key is set or deleted; the empty key stands for none.
unfoldable pub mark_dedup : String → Bool → (String → Bool) → String → Bool
mark_dedup key b h = if key == "" then h else put_text key b h

unfoldable pub first_of_list : List ℕ → ℕ
first_of_list [] = 0
first_of_list (k ∷ ks) = k

-- The choice of getNextEntry among the sorted keys; its `foundKey == -1` is `none`.
unfoldable pub choose : List ℕ → (ℕ → Option Priority) → ℕ
unfolding first_of_list
choose keys m = elim (find (has_priority is_high m) keys) [
  | some k ↦ k
  | none ↦ elim (find (has_priority is_normal m) keys) [ some k ↦ k | none ↦ first_of_list keys ]
]

-- The loops `for key in keys { if key != date { nkeys = append(nkeys, key) } }`.
unfoldable pub without : ℕ → List ℕ → List ℕ
without date keys = select (λ k. not (eqb k date)) keys

unfoldable pub forget : ℕ → Queue → Queue
forget date q = record q { keys = without date q.keys; p_map = put_at date none q.p_map }

-- The in-memory part of `delete`, under the lock.
unfoldable pub release : QueueElement → Queue → Queue
unfolding forget mark_dedup
release e q =
    let f = forget e.run_date q in
    record f {
      user_counts = put_text e.auth (q.user_counts e.auth -ℤ pos 1) q.user_counts;
      h_map = mark_dedup (dedup_key e) false q.h_map;
    }

-- The bookkeeping of Enqueue after a successful write.
unfoldable pub admit : QueueElement → Queue → Queue
admit e q = record q {
  keys = q.keys ++ e.run_date ∷ [];
  p_map = put_at e.run_date (some e.priority) q.p_map;
  user_counts = put_text e.auth (q.user_counts e.auth +ℤ pos 1) q.user_counts;
}

-- The three tests by which Enqueue refuses an element.
abbrev pub is_full : QueueElement → Queue → Bool
is_full e q = ltb max_queue_size (length q.keys) && not (is_high e.priority)

abbrev pub is_marked : QueueElement → Queue → Bool
is_marked e q = not (dedup_key e == "") && q.h_map (dedup_key e)

abbrev pub is_over_limit : QueueElement → Queue → Bool
is_over_limit e q = is_throttlable e.entry && leb_ℤ (pos max_user_queue_size) (q.user_counts e.auth)

abbrev pub marked : QueueElement → Queue → Queue
marked e q = record q { h_map = mark_dedup (dedup_key e) true q.h_map }

module _ {S V D : Type 0} (io : Pstore S V) (validate : ℕ → QueueElement → D → D × Option Err) where
  -- Marshal and write; the queue changes only if both succeed.
  unfoldable pub persist : QueueElement → World S D → World S D × Option Err
  unfolding admit
  persist e w = elim (io.marshal e) [
    | err x ↦ (w, some x)
    | ok v ↦
        let (s, x) = io.write (queue_key e.run_date) v w.store in
        elim x [
          | none ↦ (record w { queue = admit e w.queue; store = s }, none)
          | some y ↦ (record w { store = s }, some y)
        ]
  ]

  -- The throttle for each user, and the write.
  unfoldable pub throttle : QueueElement → World S D → World S D × Option Err
  unfolding persist
  throttle e w =
      if is_over_limit e w.queue
      then (w, some (errorf Code.resource_exhausted err_user_queue_limit))
      else persist e w

  unfoldable pub deduplicate : QueueElement → World S D → World S D × Option Err
  unfolding throttle mark_dedup
  deduplicate e w =
      let key = dedup_key e in
      if is_marked e w.queue
      then (
        w,
        some (errorf Code.already_exists (sprint ("Already have " ∷ key ∷ " in the queue" ∷ []))),
      )
      else throttle e (record w { queue = marked e w.queue })

  -- BackgroundRunner.Validate looks up the handler first.
  unfoldable pub validate_entry : ℕ → QueueElement → D → D × Option Err
  validate_entry now e d =
      if has_handler e.entry
      then validate now e d
      else (d, some (errorf Code.not_found "No handler registered for task type"))

  unfoldable pub enqueue : ℕ → QueueElement → World S D → World S D × Option Err
  unfolding deduplicate validate_entry
  enqueue now e w =
      let dated = record e { addition_date = now } in
      let (d, x) = validate_entry now dated w.database in
      let seen = record w { database = d } in
      if is_full e w.queue
      then (
        w,
        some (
            errorf Code.resource_exhausted
              (sprint (err_queue_full ∷ " (" ∷ show (length w.queue.keys) ∷ ")" ∷ []))),
      )
      else elim x [ some y ↦ (seen, some y) | none ↦ deduplicate dated seen ]

module _ {S V D : Type 0} (io : Pstore S V) where
  -- The end of getNextEntry: the entry of the chosen key. A key that the store lacks is forgotten.
  unfoldable pub fetch : ℕ → World S D → World S D × Result QueueElement
  unfolding forget
  fetch key w = elim (io.read (queue_key key) w.store) [
    | err x ↦
        if is_not_found x.code then (record w { queue = forget key w.queue }, err x) else (w, err x)
    | ok v ↦ let (e, x) = io.unmarshal v in elim x [ none ↦ (w, ok e) | some y ↦ (w, err y) ]
  ]

  unfoldable pub get_next_entry : World S D → World S D × Result QueueElement
  unfolding fetch
  get_next_entry w =
      let q = w.queue in
      elim q.keys [
        | [] ↦ (w, err (errorf Code.not_found "No queue entries"))
        | k ∷ ks ↦ fetch (choose (sort ltb q.keys) q.p_map) w
      ]

  -- `delete`: the error is that of the store.
  unfoldable pub delete : QueueElement → World S D → World S D × Option Err
  unfolding release
  delete e w =
      let (s, x) = io.delete (queue_key e.run_date) w.store in
      (record w { queue = release e w.queue; store = s }, x)

module _ {S D U : Type 0}
    (execute : ℕ → U → QueueElement → World S D → World S D × Option Err × Entry) where
  -- BackgroundRunner.Execute. A handler may change the entry of its element in place, as the tasks
  -- that draw a refresh id do; the third part is the entry as it is left.
  unfoldable pub execute_entry : ℕ → U → QueueElement → World S D → World S D × Option Err × Entry
  execute_entry now u e w =
      if has_handler e.entry
      then execute now u e w
      else (w, some (errorf Code.not_found "No handler registered for task type"), e.entry)

  -- An entry without an intention is dropped. The GitHub issue that reports it is not modelled.
  unfoldable pub execute_internal :
      ℕ → U → QueueElement → World S D → World S D × Option Err × Entry
  unfolding execute_entry mark_dedup
  execute_internal now u e w =
      let (w', x, entry) = execute_entry now u e w in
      let key = dedup_key (record e { entry = entry }) in
      let q = w'.queue in
      if e.intention == "" then (w, none, e.entry) else elim x [
        | some y ↦ (w', some y, entry)
        | none ↦
            (record w' { queue = record q { h_map = mark_dedup key false q.h_map } }, none, entry)
      ]
