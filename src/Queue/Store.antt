-- ===== src/Queue/Store.antt =====
-- What queuelogic/logic.go uses of pstore (github.com/brotherlogic/pstore), of the protobuf
-- encoding and of the task runner (background.BackgroundRunner): interfaces that the queue takes
-- as parameters. `S` is pstore's state, `V` a stored value, `D` the state of the database.
use Prim.Native.String.{◌++◌}
use text.Mathlib.TextLemmas.{append_cancel_left, cons-append}
use Prim.Native.Char.{code}
use gramophile.Prelude.{
  ℕ, zero, suc, refl, ap, arith, String, Option, none, List, ◌≡◌, ◌≢◌, show, show-injective,
}
use gramophile.Status.{Err, Result, ok, err}
use gramophile.Queue.Element.{QueueElement}

pub record Pstore (S V : Type 0) : Type 0 where
  pub read : String → S → Result V
  pub write : String → V → S → S × Option Err
  pub delete : String → S → S × Option Err
  pub get_keys : String → S → Result (List String)
  pub marshal : QueueElement → Result V
  pub unmarshal : V → QueueElement × Option Err

-- The documented behaviour of a key-value store and of an encoding, for calls that succeed.
pub record PstoreLaws {S V : Type 0} (io : Pstore S V) : Type 0 where
  pub read-write_self :
      (k : String) (v : V) (s : S) → (io.write k v s).1 ≡ none → io.read k (io.write k v s).0 ≡ ok v
  pub read-write_ne :
      (k j : String) (v : V) (s : S)
      → (io.write k v s).1 ≡ none
      → k ≢ j
      → io.read j (io.write k v s).0 ≡ io.read j s
  pub read-delete_ne : (k j : String) (s : S) → k ≢ j → io.read j (io.delete k s).0 ≡ io.read j s
  pub unmarshal-marshal :
      (e : QueueElement) (v : V) → io.marshal e ≡ ok v → io.unmarshal v ≡ (e, none)

-- A value that is deleted without an error is no longer read.
abbrev pub ReadsDeleted : {S V : Type 0} → Pstore S V → Type 0
ReadsDeleted {S} io =
    (k : String) (s : S)
    → (io.delete k s).1 ≡ none
    → (x : Err) × (io.read k (io.delete k s).0 ≡ err x)

-- `fmt.Sprintf("%v%v", QUEUE_PREFIX, date)`
abbrev pub queue_prefix : String
queue_prefix = "gramophile/taskqueue/"

abbrev pub dl_queue_prefix : String
dl_queue_prefix = "gramophile/dlq/"

unfoldable pub queue_key : ℕ → String
queue_key date = queue_prefix ++ show date

unfoldable pub dl_queue_key : ℕ → String
dl_queue_key date = dl_queue_prefix ++ show date

pub queue_key-injective : (a b : ℕ) → queue_key a ≡ queue_key b → a ≡ b
unfolding queue_key
queue_key-injective a b e = show-injective a b (append_cancel_left queue_prefix (show a) (show b) e)

-- The code of the character at a position, or 0 past the end.
code_at : ℕ → String → ℕ
code_at i String.[] = 0
code_at zero (String.◌∷◌ c s) = code c
code_at (suc i) (String.◌∷◌ c s) = code_at i s

code_at-append : (i : ℕ) (s t : String) → code_at i s ≢ 0 → code_at i (s ++ t) ≡ code_at i s
unfolding code_at
code_at-append zero String.[] t h = absurd (h refl)
code_at-append (suc i) String.[] t h = absurd (h refl)
code_at-append zero (String.◌∷◌ c s) t h = rw (cons-append c s t)
code_at-append (suc i) (String.◌∷◌ c s) t h = rw (cons-append c s t) (code_at-append i s t h)

-- The two prefixes differ at their twelfth character.
pub dl_queue_key-ne-queue_key : (a b : ℕ) → dl_queue_key a ≢ queue_key b
unfolding dl_queue_key queue_key code_at
dl_queue_key-ne-queue_key a b e = omega (
  arith,
  ap (code_at 11) e,
  code_at-append 11 dl_queue_prefix (show a) (omega arith),
  code_at-append 11 queue_prefix (show b) (omega arith),
)
