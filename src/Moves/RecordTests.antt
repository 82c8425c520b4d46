-- ===== src/Moves/RecordTests.antt =====
-- A store of records in memory that meets the laws, and a record that MoveRecord moves.
use gramophile.Prelude.{
  ℕ, ℤ, pos, negsuc, String, Option, none, some, List, [], ◌∷◌, ◌==◌, if◌then◌else◌, ◌≡◌, refl,
  eq_refl, show,
}
use gramophile.Status.{Err, Result, ok, err, errorf, Code}
use gramophile.Queue.Element.{QueueElement}
use gramophile.Moves.Stored.{
  StoredRecord, Client, ClientLaws, get_record, record_key, save_record_with_update,
}
use gramophile.Moves.Record.{
  Folder, World, folder_number, moved_to, move_record, run_again, move_record-Moved,
}

data Value : Type 0 where
  record_value : StoredRecord ℕ → Value
  update_value : ℕ → Value

abbrev Table : Type 0
Table = List (String × Value)

unfoldable read : String → Table → Result Value
read k [] = err (errorf Code.not_found "Could not find key")
read k ((j, v) ∷ t) = if j == k then ok v else read k t

abbrev decode : Value → Result (StoredRecord ℕ)
decode (record_value x) = ok x
decode (update_value date) = err (errorf Code.unknown "not a record")

abbrev memory : Client Table Value ℕ
memory = record {
  read = read;
  write = λ k v t. ((k, v) ∷ t, none);
  marshal = λ x. ok (record_value x);
  unmarshal = decode;
  marshal_update = λ date. ok (update_value date);
  touch = λ t. t;
}

read_self : (k : String) (v : Value) (t : Table) → read k ((k, v) ∷ t) ≡ ok v
unfolding read
read_self k v t = rw (eq_refl k, read)

memory-laws : ClientLaws 7 memory
memory-laws = record {
  read-write = λ k v t h. read_self k v t;
  unmarshal-marshal = λ x v h. cc;
  read-touch = λ iid t. refl;
}

abbrev shelf : StoredRecord ℕ
shelf = record { instance_id = 4; id = 40; folder_id = pos 1; rest = 0 }

abbrev start : World (List ℤ) Table (List QueueElement)
start = record {
  shop = [];
  store = ("gramophile/user/7/release/4", record_value shelf) ∷ [];
  queue = [];
}

abbrev folders : List Folder
folders =
    record { name = "Singles"; id = pos 3 } ∷ record { name = "Twelve Inches"; id = pos 5 } ∷ []

abbrev told : ℕ → ℕ → ℤ → ℤ → List ℤ → List ℤ × Option Err
told iid id old new d = (new ∷ d, none)

abbrev at_front : QueueElement → List QueueElement → List QueueElement × Option Err
at_front e q = (e ∷ q, none)

abbrev after : World (List ℤ) Table (List QueueElement) × Option Err
after = move_record 7 memory told at_front 9 "token" folders 4 "Twelve Inches" start

shop_told : after.0.shop ≡ pos 5 ∷ []
unfolding move_record read get_record record_key show save_record_with_update
shop_told = refl

asked : after.0.queue ≡ run_again 9 "token" ∷ []
unfolding move_record read get_record record_key show save_record_with_update
asked = refl

no_error : after.1 ≡ none
unfolding move_record read get_record record_key show save_record_with_update
no_error = refl

unknown_folder :
    move_record 7 memory told at_front 9 "token" folders 4 "Boxes" start
    ≡ (start, some (errorf Code.not_found "folder Boxes was not found"))
unfolding move_record read get_record record_key show save_record_with_update
unknown_folder = refl

move_record-Moved_example :
    (get_record 7 memory 4 after.0.store
      ≡ ok (moved_to (folder_number folders "Twelve Inches" (negsuc 0)) shelf))
    × (move_record 7 memory told at_front 9 "token" folders 4 "Twelve Inches" after.0
        ≡ (after.0, none))
unfolding move_record read get_record record_key show save_record_with_update
move_record-Moved_example =
    move_record-Moved 7 memory told at_front 9 "token" folders 4 "Twelve Inches" memory-laws start
      shelf refl refl refl
