-- ===== src/Queue/Removal.antt =====
-- Lemmas on the abstract queue without one element, and the theorems that Enqueue and `delete` of
-- queuelogic/logic.go do to the abstract queue what they promise.
use Prim.Native.Nat.{suc}
use gramophile.Prelude.{
  ℕ, pos, String, none, List, [], ◌∷◌, Memᴰ, ◌≡◌, ◌≢◌, refl, eqb, if◌then◌else◌, ◌==◌, All,
  All-Memᴰ, select, arith, inl, inr, Bool-cases, sym, ap, eq_iff, ◌-ℤ◌, ◌∙◌, subst,
}
use gramophile.Status.{Err, err}
use gramophile.Queue.Element.{QueueElement, Entry}
use gramophile.Queue.Store.{Pstore, PstoreLaws, ReadsDeleted, queue_key, queue_key-injective}
use gramophile.Queue.State.{Queue, World}
use gramophile.Queue.Ops.{without, release, delete}
use gramophile.Queue.Refines.{
  dates, priority_at, count_auth, others, Distinct, Stored, Refines, others-none, others-All,
}

without-dates :
    (date : ℕ) (es : List QueueElement) → without date (dates es) ≡ dates (others date es)
unfolding without others select
without-dates date [] = refl
without-dates date (e ∷ es) = ground (arith, without-dates date es)

priority_at-others :
    (k date : ℕ) (es : List QueueElement)
    → priority_at k (others date es) ≡ (if eqb date k then none else priority_at k es)
unfolding priority_at others select
priority_at-others k date [] = ground arith
priority_at-others k date (e ∷ es) = ground (arith, priority_at-others k date es)

Distinct-others : (date : ℕ) (es : List QueueElement) → Distinct es → Distinct (others date es)
unfolding others select
Distinct-others date [] d = tt
Distinct-others date (e ∷ es) d = elim (Bool-cases (eqb e.run_date date)) [
  | inl same ↦ rw (same, select) (Distinct-others date es d.1)
  | inr other ↦
      rw (other, select)
        (others-All (λ f. f.run_date ≢ e.run_date) date es d.0, Distinct-others date es d.1)
]

others_self :
    (e : QueueElement) (es : List QueueElement)
    → All (λ f. f.run_date ≢ e.run_date) es
    → others e.run_date (e ∷ es) ≡ es
unfolding others select
others_self e es h = ground (arith, others-none e.run_date es h)

others_other :
    (date : ℕ) (f : QueueElement) (es : List QueueElement)
    → date ≢ f.run_date
    → others date (f ∷ es) ≡ f ∷ others date es
unfolding others select
others_other date f es h = ground arith

-- An element that is there counts once.
abbrev CountsOnce : String → QueueElement → List QueueElement → Type 0
CountsOnce a e es = count_auth a es ≡ (
    if e.auth == a
    then suc (count_auth a (others e.run_date es))
    else count_auth a (others e.run_date es))

count_auth-others :
    (a : String) (e : QueueElement) (es : List QueueElement)
    → Memᴰ e es
    → Distinct es
    → CountsOnce a e es
unfolding count_auth
count_auth-others a e [] m d = elim m [ ]
count_auth-others a e (f ∷ es) (Memᴰ.head p) d =
    subst (λ g. CountsOnce a g (f ∷ es)) (sym p) (rw (others_self f es d.0))
count_auth-others a e (f ∷ es) (Memᴰ.tail m) d =
    rw (others_other e.run_date f es (All-Memᴰ (λ g. g.run_date ≢ f.run_date) es d.0 m))
      (ground (arith, count_auth-others a e es m d.1))

module _ {S V : Type 0} (io : Pstore S V) (laws : PstoreLaws io) where
  Stored-delete :
      (date : ℕ) (s : S) (es : List QueueElement)
      → All (λ e. Stored io s e) es
      → All (λ e. Stored io (io.delete (queue_key date) s).0 e) (others date es)
  unfolding others select
  Stored-delete date s [] h = tt
  Stored-delete date s (e ∷ es) h = elim (Bool-cases (eqb e.run_date date)) [
    | inl same ↦ rw (same, select) (Stored-delete date s es h.1)
    | inr other ↦
        let (v, r, u) = h.0 in
        rw (other, select)
          (
            (
              v,
              laws.read-delete_ne _ _ s
                    (λ q. let q' = queue_key-injective date e.run_date q in ground arith)
                  ∙ r,
              u,
            ),
            Stored-delete date s es h.1,
          )
  ]

release_counts :
    (a : String) (q : Queue) (e : QueueElement) (es : List QueueElement)
    → ((b : String) → q.user_counts b ≡ pos (count_auth b es))
    → Memᴰ e es
    → Distinct es
    → (release e q).user_counts a ≡ pos (count_auth a (others e.run_date es))
unfolding release ◌-ℤ◌
release_counts a q e es c m d = ground (
  arith,
  c a,
  c e.auth,
  count_auth-others a e es m d,
  count_auth-others e.auth e es m d,
  eq_iff e.auth a,
  eq_iff e.auth e.auth,
)

module _ {S V D : Type 0} (io : Pstore S V) (laws : PstoreLaws io) where
  -- The index and the store then stand for the other elements, in the same order.
  pub delete-Refines :
      (w : World S D) (es : List QueueElement) (e : QueueElement)
      → Refines io w es
      → Memᴰ e es
      → Refines io (delete io e w).0 (others e.run_date es)
  unfolding delete release
  delete-Refines w es e r m = record {
    keys_dates = ap (without e.run_date) r.keys_dates ∙ without-dates e.run_date es;
    distinct = Distinct-others e.run_date es r.distinct;
    indexed = λ k. ground (arith, r.indexed k, priority_at-others k e.run_date es);
    counted = λ a. release_counts a w.queue e es r.counted m r.distinct;
    stored = Stored-delete io laws e.run_date w.store es r.stored;
  }

  -- The same for an element whose entry has been changed.
  pub delete_changed-Refines :
      (w : World S D) (es : List QueueElement) (e : QueueElement) (entry : Entry)
      → Refines io w es
      → Memᴰ e es
      → Refines io (delete io (record e { entry = entry }) w).0 (others e.run_date es)
  unfolding delete release
  delete_changed-Refines w es e entry r m =
      let d = delete-Refines w es e r m in
      record {
        keys_dates = d.keys_dates;
        distinct = d.distinct;
        indexed = d.indexed;
        counted = d.counted;
        stored = d.stored;
      }

  -- Where pstore deletes, `delete` of an element of the queue that ends without an error takes it, and
  -- nothing else, out of the queue: the index and the store then stand for the other elements, in the
  -- same order, and the key of the element reads as an error.
  pub delete-Removes :
      ReadsDeleted io
      → (w : World S D) (es : List QueueElement) (e : QueueElement) → Refines io w es
      → Memᴰ e es
      → (delete io e w).1 ≡ none
      → Refines io (delete io e w).0 (others e.run_date es)
        × (x : Err) × (io.read (queue_key e.run_date) (delete io e w).0.store ≡ err x)
  unfolding delete
  delete-Removes deletes w es e r m h =
      let gone = deletes (queue_key e.run_date) w.store h in
      (delete-Refines w es e r m, gone.0, gone.1)
