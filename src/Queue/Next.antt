-- ===== src/Queue/Next.antt =====
-- getNextEntry of queuelogic/logic.go against the abstract queue: which element is next.
use gramophile.Prelude.{
  ℕ, ◌≤◌, ◌<◌, some, List, [], ◌∷◌, Memᴰ, ◌≡◌, ◌≢◌, refl, sym, ap, ◌∙◌, subst, ◌⊎◌, ltb, All,
  All-Memᴰ, All-of_mem, sort, arith,
}
use gramophile.Status.{ok}
use gramophile.Queue.Element.{QueueElement}
use gramophile.Queue.Store.{Pstore}
use gramophile.Queue.State.{World}
use gramophile.Queue.Ops.{choose, fetch, get_next_entry}
use gramophile.Queue.Choice.{rank, Precedes, choose-sort}
use gramophile.Queue.Refines.{dates, priority_at, Distinct, Stored, Refines}

-- A higher priority goes first, and an earlier date among equals.
abbrev pub GoesBefore : QueueElement → QueueElement → Type 0
GoesBefore e f =
    (rank f.priority < rank e.priority)
    ⊎ ((rank e.priority ≡ rank f.priority) × (e.run_date ≤ f.run_date))

abbrev WithDate : ℕ → List QueueElement → Type 0
WithDate k es = (e : QueueElement) × Memᴰ e es × (e.run_date ≡ k)

mem-dates : (k : ℕ) (es : List QueueElement) → Memᴰ k (dates es) → WithDate k es
mem-dates k [] m = elim m [ ]
mem-dates k (e ∷ es) (Memᴰ.head p) = (e, Memᴰ.head refl, sym p)
mem-dates k (e ∷ es) (Memᴰ.tail m) = let (f, n, q) = mem-dates k es m in (f, Memᴰ.tail n, q)

date_mem : {e : QueueElement} (es : List QueueElement) → Memᴰ e es → Memᴰ e.run_date (dates es)
date_mem [] m = elim m [ ]
date_mem (f ∷ es) (Memᴰ.head p) = Memᴰ.head (ap (λ x. x.run_date) p)
date_mem (f ∷ es) (Memᴰ.tail m) = Memᴰ.tail (date_mem es m)

priority_at_mem :
    (e : QueueElement) (es : List QueueElement)
    → Distinct es
    → Memᴰ e es
    → priority_at e.run_date es ≡ some e.priority
unfolding priority_at
priority_at_mem e [] d m = elim m [ ]
priority_at_mem e (f ∷ es) d (Memᴰ.head p) = ground arith
priority_at_mem e (f ∷ es) d (Memᴰ.tail m) =
    ground (arith, priority_at_mem e es d.1 m, All-Memᴰ (λ g. g.run_date ≢ f.run_date) es d.0 m)

module _ {S V D : Type 0} (io : Pstore S V) where
  goes_before :
      (w : World S D) (es : List QueueElement) (e f : QueueElement)
      → Refines io w es
      → Memᴰ e es
      → Memᴰ f es
      → Precedes w.queue.p_map e.run_date f.run_date
      → GoesBefore e f
  goes_before w es e f r m n p = ground (
    arith,
    r.indexed e.run_date,
    r.indexed f.run_date,
    priority_at_mem e es r.distinct m,
    priority_at_mem f es r.distinct n,
  )

  -- Reading the entry of a date that was chosen.
  fetch-Stored :
      (w : World S D) (e : QueueElement) → Stored io w.store e → fetch io e.run_date w ≡ (w, ok e)
  unfolding fetch
  fetch-Stored w e (v, r, u) = rw (r, fetch) (ground arith)

  get_next_entry_cons :
      (w : World S D) {k : ℕ} {ks : List ℕ}
      → w.queue.keys ≡ k ∷ ks
      → get_next_entry io w ≡ fetch io (choose (sort ltb w.queue.keys) w.queue.p_map) w
  unfolding get_next_entry
  get_next_entry_cons w keys = ground arith

  -- Of a queue that is not empty, the next entry is the one with the highest priority, and with
  -- the earliest date among those; the queue stays as it is.
  pub get_next_entry-GoesBefore :
      (w : World S D) (es : List QueueElement)
      → Refines io w es
      → es ≢ []
      → (e : QueueElement) × Memᴰ e es
        × All (λ f. GoesBefore e f) es
        × (get_next_entry io w ≡ (w, ok e))
  get_next_entry-GoesBefore w [] r n = absurd (n refl)
  get_next_entry-GoesBefore w (x ∷ es) r n =
      let best = choose-sort w.queue.p_map w.queue.keys (λ q. cc (r.keys_dates, q)) in
      let k = choose (sort ltb w.queue.keys) w.queue.p_map in
      let (e, m, q) = mem-dates k (x ∷ es) (subst (Memᴰ k) r.keys_dates best.0) in
      (
        e,
        m,
        All-of_mem (x ∷ es) (λ f l. goes_before w (x ∷ es) e f r m l (
            subst (λ j. Precedes w.queue.p_map j f.run_date) (sym q)
              (All-Memᴰ (λ j. Precedes w.queue.p_map k j) w.queue.keys best.1
                (subst (Memᴰ f.run_date) (sym r.keys_dates) (date_mem (x ∷ es) l))))),
        get_next_entry_cons w r.keys_dates
            ∙ ap (λ j. fetch io j w) (sym q)
            ∙ fetch-Stored w e (All-Memᴰ (λ f. Stored io w.store f) (x ∷ es) r.stored m),
      )
