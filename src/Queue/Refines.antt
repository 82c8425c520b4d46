-- ===== src/Queue/Refines.antt =====
-- The queue of queuelogic/logic.go seen as the list of its elements, in the order of arrival: the
-- abstract view, and the relation between it and the index with the store.
use Prim.Native.Nat.{suc}
use gramophile.Prelude.{
  ℕ, pos, String, not, Option, none, some, List, [], ◌∷◌, ◌++◌, map, ◌≡◌, ◌≢◌, refl, eqb,
  if◌then◌else◌, ◌==◌, All, All-snoc, select, arith, inl, inr, Bool-cases, sym,
}
use gramophile.Status.{ok}
use gramophile.Queue.Element.{QueueElement, Priority}
use gramophile.Queue.Store.{Pstore, queue_key}
use gramophile.Queue.State.{World}

abbrev pub dates : List QueueElement → List ℕ
dates = map (λ e. e.run_date)

-- The priority of the element with the date.
unfoldable pub priority_at : ℕ → List QueueElement → Option Priority
priority_at k [] = none
priority_at k (e ∷ es) = if eqb e.run_date k then some e.priority else priority_at k es

-- How many elements a user has in the queue.
unfoldable pub count_auth : String → List QueueElement → ℕ
count_auth a [] = 0
count_auth a (e ∷ es) = if e.auth == a then suc (count_auth a es) else count_auth a es

unfoldable pub others : ℕ → List QueueElement → List QueueElement
others date es = select (λ e. not (eqb e.run_date date)) es

-- No two elements have the same date.
abbrev pub Distinct : List QueueElement → Type 0
Distinct [] = Unit
Distinct (e ∷ es) = All (λ f. f.run_date ≢ e.run_date) es × Distinct es

module _ {S V : Type 0} (io : Pstore S V) where
  -- The store holds the element under its date.
  abbrev pub Stored : S → QueueElement → Type 0
  Stored s e = (v : V) × (io.read (queue_key e.run_date) s ≡ ok v) × (io.unmarshal v ≡ (e, none))

module _ {S V D : Type 0} (io : Pstore S V) where
  pub record Refines (w : World S D) (es : List QueueElement) : Type 0 where
    pub keys_dates : w.queue.keys ≡ dates es
    pub distinct : Distinct es
    pub indexed : (k : ℕ) → w.queue.p_map k ≡ priority_at k es
    pub counted : (a : String) → w.queue.user_counts a ≡ pos (count_auth a es)
    pub stored : All (λ e. Stored io w.store e) es

-- A new element at the end.
pub priority_at-snoc :
    (k : ℕ) (es : List QueueElement) (e : QueueElement)
    → All (λ f. f.run_date ≢ e.run_date) es
    → priority_at k (es ++ e ∷ [])
      ≡ (if eqb e.run_date k then some e.priority else priority_at k es)
unfolding priority_at
priority_at-snoc k [] e h = refl
priority_at-snoc k (f ∷ es) e h = ground (arith, priority_at-snoc k es e h.1)

pub count_auth-snoc :
    (a : String) (es : List QueueElement) (e : QueueElement)
    → count_auth a (es ++ e ∷ []) ≡ (if e.auth == a then suc (count_auth a es) else count_auth a es)
unfolding count_auth
count_auth-snoc a [] e = refl
count_auth-snoc a (f ∷ es) e = ground (arith, count_auth-snoc a es e)

pub Distinct-snoc :
    (es : List QueueElement) (e : QueueElement)
    → Distinct es
    → All (λ f. f.run_date ≢ e.run_date) es
    → Distinct (es ++ e ∷ [])
Distinct-snoc [] e d h = (tt, tt)
Distinct-snoc (f ∷ es) e d h = (
  All-snoc (λ g. g.run_date ≢ f.run_date) es e d.0 (λ q. h.0 (sym q)),
  Distinct-snoc es e d.1 h.1,
)

-- The other elements, without those of one date.
pub others-none :
    (date : ℕ) (es : List QueueElement) → All (λ f. f.run_date ≢ date) es → others date es ≡ es
unfolding others select
others-none date [] h = refl
others-none date (f ∷ es) h = ground (arith, others-none date es h.1, h.0)

pub others-All {κ} :
    (P : QueueElement → Type κ) (date : ℕ) (es : List QueueElement)
    → All P es
    → All P (others date es)
unfolding others select
others-All P date [] h = tt
others-All P date (f ∷ es) h = elim (Bool-cases (eqb f.run_date date)) [
  | inl same ↦ rw (same, select) (others-All P date es h.1)
  | inr other ↦ rw (other, select) (h.0, others-All P date es h.1)
]
