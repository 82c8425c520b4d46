-- ===== src/Moves/Record.antt =====
-- MoveRecord of background/moves.go: it has Discogs move a record to a folder, saves the record and
-- asks for the moves to be run again.
use gramophile.Prelude.{
  ℕ, ℤ, pos, negsuc, String, true, false, Option, none, some, List, [], ◌∷◌, ◌==◌, eqb_ℤ, eqb_ℤ_iff,
  ltb_ℤ, refl, if◌then◌else◌, ◌≡◌, ap, subst, ◌∙◌, inl, inr, Bool-cases, sprint, arith,
}
use gramophile.Status.{Err, ok, err, errorf, Code}
use gramophile.Queue.Element.{QueueElement, Entry, Priority}
use gramophile.Moves.Rules.{is_ignored}
use gramophile.Moves.Stored.{
  StoredRecord, Client, ClientLaws, get_record, save_record_with_update, get-save,
}

pub record Folder : Type 0 where
  pub name : String
  pub id : ℤ

-- Where several folders have the name, the last one counts.
unfoldable pub folder_number : List Folder → String → ℤ → ℤ
folder_number [] name n = n
folder_number (f ∷ fs) name n = folder_number fs name (if f.name == name then f.id else n)

-- What the task changes: Discogs, the database and the queue.
pub record World (D S Q : Type 0) : Type 0 where
  pub shop : D
  pub store : S
  pub queue : Q

abbrev pub moved_to : {R : Type 0} → ℤ → StoredRecord R → StoredRecord R
moved_to n x = record { instance_id = x.instance_id; id = x.id; folder_id = n; rest = x.rest }

abbrev pub run_again : ℕ → String → QueueElement
run_again now token = record {
  run_date = now;
  auth = token;
  backoff_in_seconds = 0;
  entry = Entry.move_records;
  refresh_id = 0;
  intention = "From MoveRecord";
  force = false;
  priority = Priority.priority_unknown;
  addition_date = 0;
}

module _ {D S V R Q : Type 0} (user : ℕ) (io : Client S V R)
    (set_folder : ℕ → ℕ → ℤ → ℤ → D → D × Option Err) (queue_up : QueueElement → Q → Q × Option Err)
    (now : ℕ) (token : String) (folders : List Folder) (iid : ℕ) (folder : String) where
  unfoldable pub move_record : World D S Q → World D S Q × Option Err
  unfolding folder_number
  move_record w = elim (get_record user io iid w.store) [
    | err e ↦ (w, some (errorf e.code (sprint ("unable to get record: " ∷ e.message ∷ []))))
    | ok x ↦
        let n = folder_number folders folder (negsuc 0) in
        let set = set_folder x.instance_id x.id x.folder_id n w.shop in
        let saved = save_record_with_update user io (moved_to n x) now w.store in
        let asked = queue_up (run_again now token) w.queue in
        if eqb_ℤ x.folder_id n
        then (w, none)
        else if ltb_ℤ n (pos 0)
        then (w, some (errorf Code.not_found (sprint ("folder " ∷ folder ∷ " was not found" ∷ []))))
        else elim set.1 [
          | some e ↦ (
            record { shop = set.0; store = w.store; queue = w.queue },
            some (errorf e.code (sprint ("unable to move record: " ∷ e.message ∷ []))),
          )
          | none ↦ elim saved.1 [
            | some e ↦ (record { shop = set.0; store = saved.0; queue = w.queue }, some e)
            | none ↦ (
              record { shop = set.0; store = saved.0; queue = asked.0 },
              if is_ignored asked.1 then none else asked.1,
            )
          ]
        ]
  ]

  module _ (laws : ClientLaws user io) where
    move_record_there :
        (w : World D S Q) (x : StoredRecord R)
        → get_record user io iid w.store ≡ ok x
        → eqb_ℤ x.folder_id (folder_number folders folder (negsuc 0)) ≡ true
        → move_record w ≡ (w, none)
    unfolding move_record
    move_record_there w x stored there = rw (stored, there, move_record)

    -- Away from the folder, a run without an error has saved the record.
    move_record_saved :
        (w : World D S Q) (x : StoredRecord R)
        → get_record user io iid w.store ≡ ok x
        → eqb_ℤ x.folder_id (folder_number folders folder (negsuc 0)) ≡ false
        → (move_record w).1 ≡ none
        → let n = folder_number folders folder (negsuc 0) in
          let saved = save_record_with_update user io (moved_to n x) now w.store in
          (saved.1 ≡ none) × ((move_record w).0.store ≡ saved.0)
    unfolding move_record
    move_record_saved w x stored away h = ground (arith, stored, away, h)

    -- If pstore reads back what it has written, the record is stored under its number and MoveRecord
    -- ends without an error, then the record is stored with the number of the folder and the rest of
    -- it as it was, and MoveRecord for the same record and folder then changes nothing, at Discogs,
    -- in the database or in the queue.
    pub move_record-Moved :
        (w : World D S Q) (x : StoredRecord R)
        → get_record user io iid w.store ≡ ok x
        → x.instance_id ≡ iid
        → (move_record w).1 ≡ none
        → (get_record user io iid (move_record w).0.store
            ≡ ok (moved_to (folder_number folders folder (negsuc 0)) x))
          × (move_record (move_record w).0 ≡ ((move_record w).0, none))
    move_record-Moved w x stored key h =
        let n = folder_number folders folder (negsuc 0) in
        elim (Bool-cases (eqb_ℤ x.folder_id n)) [
          | inl there ↦
              let same = move_record_there w x stored there in
              (
                rw (same)
                    (stored ∙ ap (λ k. ok (moved_to k x)) ((eqb_ℤ_iff x.folder_id n).0 there)),
                rw (same) same,
              )
          | inr away ↦
              let saved = move_record_saved w x stored away h in
              let kept =
                ap (λ s. get_record user io iid s) saved.1
                ∙ subst
                    (λ k.
                      get_record user io k
                        (save_record_with_update user io (moved_to n x) now w.store).0
                      ≡ ok (moved_to n x))
                    key (get-save user io laws (moved_to n x) now w.store saved.0) in
              (
                kept,
                move_record_there (move_record w).0 (moved_to n x) kept ((eqb_ℤ_iff n n).1 refl),
              )
        ]
