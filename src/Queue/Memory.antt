-- ===== src/Queue/Memory.antt =====
-- A pstore that keeps its values in a list, with its laws: the parameters of the queue can be met.
-- The tests of the queue run on it.
use gramophile.Prelude.{
  String, not, none, List, [], ◌∷◌, map, ◌≡◌, ◌≢◌, refl, if◌then◌else◌, ◌==◌, select, arith, eq_iff,
  eq_refl,
}
use gramophile.Status.{Code, Result, ok, err, errorf}
use gramophile.Queue.Element.{QueueElement}
use gramophile.Queue.Store.{Pstore, PstoreLaws, ReadsDeleted}

abbrev pub Table : Type 0
Table = List (String × QueueElement)

unfoldable pub read : String → Table → Result QueueElement
read k [] = err (errorf Code.not_found "Could not find key")
read k ((j, e) ∷ t) = if j == k then ok e else read k t

unfoldable pub remove : String → Table → Table
remove k t = select (λ p. not (p.0 == k)) t

instance abbrev pub memory : Pstore Table QueueElement
memory = record {
  read = read;
  write = λ k e t. ((k, e) ∷ t, none);
  delete = λ k t. (remove k t, none);
  get_keys = λ prefix t. ok (map (λ p. p.0) t);
  marshal = ok;
  unmarshal = λ e. (e, none);
}

read_self : (k : String) (e : QueueElement) (t : Table) → read k ((k, e) ∷ t) ≡ ok e
unfolding read
read_self k e t = rw (eq_refl k, read)

read_ne : (k j : String) (e : QueueElement) (t : Table) → k ≢ j → read j ((k, e) ∷ t) ≡ read j t
unfolding read
read_ne k j e t h = ground (arith, eq_iff k j)

read-remove_ne : (k j : String) (t : Table) → k ≢ j → read j (remove k t) ≡ read j t
unfolding read remove select
read-remove_ne k j [] h = refl
read-remove_ne k j ((i, e) ∷ t) h =
    ground (arith, eq_iff i k, eq_iff i j, eq_iff k j, read-remove_ne k j t h)

pub memory-laws : PstoreLaws memory
memory-laws = record {
  read-write_self = λ k e t h. read_self k e t;
  read-write_ne = λ k j e t h n. read_ne k j e t n;
  read-delete_ne = λ k j t n. read-remove_ne k j t n;
  unmarshal-marshal = λ e v h. cc;
}

read-remove_self :
    (k : String) (t : Table)
    → read k (remove k t) ≡ err (errorf Code.not_found "Could not find key")
unfolding read remove select
read-remove_self k [] = refl
read-remove_self k ((j, e) ∷ t) = ground (arith, eq_iff j k, read-remove_self k t)

pub memory-ReadsDeleted : ReadsDeleted memory
memory-ReadsDeleted k t h = (errorf Code.not_found "Could not find key", read-remove_self k t)
