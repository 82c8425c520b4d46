-- ===== src/Org/Visit.antt =====
-- The invariant of Kahn's loop in org/diff.go, and that one round keeps it.
use mathlib.Core.List.Perm
use mathlib.Core.List.{Perm, Nodup-cons, append_assoc, perm_middle}
use gramophile.Prelude.{
  ℕ, suc, ◌≤◌, ◌<◌, ℤ, pos, ◌-ℤ◌, Bool, true, false, not, ◌&&◌, ◌||◌, List, [], ◌∷◌, ◌++◌, ◌≡◌,
  refl, sym, ap, ◌∙◌, subst, inl, inr, eqb, eqb_ℤ, if◌then◌else◌, put_at, select, any, All-mono,
  arith, Bool-cases,
}
use gramophile.Org.Diff.{relax, visit, range, count, Kahn}
use gramophile.Org.Counting.{
  Unique, Unique-select, Unique-range_from, Unique-Nodup, select-select, select-or_perm,
  count-remove, any-append, any-perm, any-select, any-Mem, any-range_from, any-range-lt,
  append-perm, All-range_from-lt,
}
use gramophile.Org.Relax.{pos_pred, relax-degree, relax-queue}

-- All that must go before a number of the list is earlier in it, or in `done`.
abbrev pub Follows : ℕ → (ℕ → ℕ → Bool) → List ℕ → List ℕ → Type 0
Follows n edge done [] = Unit
Follows n edge done (x ∷ xs) =
    ((y : ℕ) → y < n → edge y x ≡ true → any (eqb y) done ≡ true) × Follows n edge (x ∷ done) xs

Follows-snoc :
    (n : ℕ) (edge : ℕ → ℕ → Bool) (done xs : List ℕ) (c : ℕ)
    → Follows n edge done xs
    → ((y : ℕ) → y < n → edge y c ≡ true → (any (eqb y) done || any (eqb y) xs) ≡ true)
    → Follows n edge done (xs ++ c ∷ [])
unfolding any
Follows-snoc n edge done [] c f h = ((λ y k e. ground (arith, h y k e)), tt)
Follows-snoc n edge done (x ∷ xs) c f h =
    (f.0, Follows-snoc n edge (x ∷ done) xs c f.1 (λ y k e. ground (arith, h y k e)))

-- The moves before `x` that are not made.
abbrev pub waits : ℕ → (ℕ → ℕ → Bool) → (ℕ → Bool) → ℕ → ℕ
waits n edge visited x = count (λ y. edge y x && not (visited y)) (range n)

pub record IsRound (n : ℕ) (edge : ℕ → ℕ → Bool) (s : Kahn) : Type 0 where
  pub degrees : (x : ℕ) → x < n → s.in_degree x ≡ pos (waits n edge s.visited x)
  pub ready : Perm (s.queue ++ s.ordered) (select (λ x. eqb_ℤ (s.in_degree x) (pos 0)) (range n))
  pub marks : (x : ℕ) → s.visited x ≡ any (eqb x) s.ordered
  pub follows : Follows n edge [] s.ordered

-- Nothing that is counted zero times is there.
pub count-zero :
    (p : ℕ → Bool) (xs : List ℕ) (y : ℕ) → count p xs ≡ 0 → any (eqb y) xs ≡ true → p y ≡ false
unfolding count any
count-zero p [] y h m = absurd (cc)
count-zero p (x ∷ xs) y h m = elim (Bool-cases (eqb y x)) [
  | inl here ↦ let e : y ≡ x = ground arith in ground (arith, ap p e)
  | inr there ↦ elim (Bool-cases (p x)) [
    | inl hit ↦ absurd (ground arith)
    | inr miss ↦ count-zero p xs y (ground arith) (ground arith)
  ]
]

-- The pushed and the made numbers, shuffled.
shuffle :
    (c : ℕ) (rest new made : List ℕ)
    → Perm ((rest ++ new) ++ (made ++ c ∷ [])) (((c ∷ rest) ++ made) ++ new)
shuffle c rest new made =
    let behind = Perm.trans (append-perm new (made ++ c ∷ [])) (
      subst (λ z. Perm z (c ∷ (made ++ new))) (sym (append_assoc made (c ∷ []) new))
        (perm_middle made new)) in
    subst (λ z. Perm z ((c ∷ (rest ++ made)) ++ new)) (sym (append_assoc rest new (made ++ c ∷ [])))
      (Perm.trans (Perm.append_left rest behind) (
        subst (λ z. Perm (rest ++ c ∷ (made ++ new)) (c ∷ z)) (sym (append_assoc rest made new))
          (perm_middle rest (made ++ new))))

-- A degree after a round is 0 if it was, or if it was 1 and fell.
zero-step :
    (b : Bool) (d d' : ℤ) (k : ℕ)
    → d' ≡ (if b then d -ℤ pos 1 else d)
    → d ≡ pos (if b then suc k else k)
    → let p = eqb_ℤ d (pos 0) in
      let q = b && eqb_ℤ (d -ℤ pos 1) (pos 0) in (eqb_ℤ d' (pos 0) ≡ (p || q)) × ((p && q) ≡ false)
zero-step true d d' k e h = rw (e, h) (ground arith, ground arith)
zero-step false d d' k e h = rw (e) (ground arith, ground arith)

module _ (n : ℕ) (edge less : ℕ → ℕ → Bool) (c : ℕ) (rest : List ℕ) (s : Kahn) where
  abbrev next : List ℕ
  next = select (edge c) (range n)

  Unique-next : Unique next
  Unique-next = Unique-select (edge c) (range n) (Unique-range_from 0 n)

  abbrev pub is_ready : ℕ → Bool
  is_ready x = eqb_ℤ (s.in_degree x) (pos 0)

  queue-ready :
      IsRound n edge s
      → Perm (c ∷ rest) s.queue
      → Perm ((c ∷ rest) ++ s.ordered) (select is_ready (range n))
  queue-ready w p = Perm.trans (Perm.append_right s.ordered p) w.ready

  not_made : IsRound n edge s → Perm (c ∷ rest) s.queue → s.visited c ≡ false
  unfolding any
  not_made w p =
      let different = Perm.nodup (Perm.symm (queue-ready w p)) (
        Unique-Nodup (select is_ready (range n))
          (Unique-select is_ready (range n) (Unique-range_from 0 n))) in
      elim (Bool-cases (s.visited c)) [
        | inl made ↦
            let there : any (eqb c) (rest ++ s.ordered) ≡ true =
              any-append (eqb c) rest s.ordered ∙ ground (arith, w.marks c) in
            absurd ((Nodup-cons.0 different).0 (any-Mem c (rest ++ s.ordered) there))
        | inr new ↦ new
      ]

  -- The first of the queue is below `n`, waits for none and is not made yet.
  front :
      IsRound n edge s
      → Perm (c ∷ rest) s.queue
      → (c < n) × (waits n edge s.visited c ≡ 0) × (s.visited c ≡ false)
  unfolding any
  front w p =
      let first : any (eqb c) ((c ∷ rest) ++ s.ordered) ≡ true = ground arith in
      let both : (any (eqb c) (range n) && is_ready c) ≡ true =
        sym (any-select c is_ready (range n)) ∙ sym (any-perm (eqb c) (queue-ready w p)) ∙ first in
      let below : c < n = any-range-lt c n (ground arith) in
      (below, ground (arith, w.degrees c below), not_made w p)

  -- One round lowers by one the number of moves that a next move waits for.
  waits-step :
      (w : IsRound n edge s)
      → Perm (c ∷ rest) s.queue
      → (x : ℕ)
      → waits n edge s.visited x ≡ (
          if edge c x
          then suc (waits n edge (put_at c true s.visited) x)
          else waits n edge (put_at c true s.visited) x)
  waits-step w p x =
      let f = front w p in
      count-remove (λ y. edge y x && not (s.visited y))
        (λ y. edge y x && not (put_at c true s.visited y)) c (range n) (Unique-range_from 0 n)
        (any-range_from c 0 n (omega arith) (omega arith)) (λ y. ground arith)
      ∙ ground (arith, f.2)

  abbrev after : Kahn
  after = visit (λ y. select (edge y) (range n)) less (c ∷ rest) s

  -- Go decrements the degrees of the next moves only.
  after-degree :
      (x : ℕ)
      → x < n
      → after.in_degree x ≡ (if edge c x then s.in_degree x -ℤ pos 1 else s.in_degree x)
  unfolding visit relax
  after-degree x k =
      relax-degree next s.in_degree rest x Unique-next
      ∙ ap (λ b. if b then s.in_degree x -ℤ pos 1 else s.in_degree x)
          (any-select x (edge c) (range n)
            ∙ ap (λ b. b && edge c x) (any-range_from x 0 n (omega arith) (omega arith)))

  after-waits :
      (w : IsRound n edge s)
      → Perm (c ∷ rest) s.queue
      → (x : ℕ) → x < n
      → after.in_degree x ≡ pos (waits n edge (put_at c true s.visited) x)
  after-waits w p x k =
      let many = ap (λ m. pos m) (waits-step w p x) in
      let left = waits n edge (put_at c true s.visited) x in
      elim (Bool-cases (edge c x)) [
        | inl next ↦
            after-degree x k
            ∙ rw (next) (ap (λ z. z -ℤ pos 1) (w.degrees x k ∙ many ∙ rw (next) refl))
            ∙ pos_pred left
        | inr other ↦ after-degree x k ∙ rw (other) (w.degrees x k ∙ many ∙ rw (other) refl)
      ]

  -- A number is ready after the round if it was, or if it waited for this one only.
  ready-step :
      (w : IsRound n edge s)
      → Perm (c ∷ rest) s.queue
      → (x : ℕ) → x < n
      → let p = is_ready x in
        let q = edge c x && eqb_ℤ (s.in_degree x -ℤ pos 1) (pos 0) in
        (eqb_ℤ (after.in_degree x) (pos 0) ≡ (p || q)) × ((p && q) ≡ false)
  ready-step w p x k =
      zero-step (edge c x) (s.in_degree x) (after.in_degree x)
        (waits n edge (put_at c true s.visited) x) (after-degree x k)
        (w.degrees x k ∙ ap (λ m. pos m) (waits-step w p x))

  after-ready :
      IsRound n edge s
      → Perm (c ∷ rest) s.queue
      → Perm
          (after.queue ++ after.ordered)
          (select (λ x. eqb_ℤ (after.in_degree x) (pos 0)) (range n))
  unfolding visit
  after-ready w p =
      let lowered = λ (x : ℕ). eqb_ℤ (s.in_degree x -ℤ pos 1) (pos 0) in
      let new = select (λ x. edge c x && lowered x) (range n) in
      let pushed : after.queue ≡ rest ++ new =
        relax-queue next s.in_degree rest Unique-next
        ∙ ap (λ z. rest ++ z) (select-select (edge c) lowered (range n)) in
      subst
        (λ z.
          Perm (z ++ (s.ordered ++ c ∷ []))
            (select (λ x. eqb_ℤ (after.in_degree x) (pos 0)) (range n)))
        (sym pushed)
        (Perm.trans (shuffle c rest new s.ordered) (
          Perm.trans (Perm.append_right new (queue-ready w p)) (
            Perm.symm (
              select-or_perm is_ready (λ x. edge c x && lowered x)
                (λ x. eqb_ℤ (after.in_degree x) (pos 0)) (range n)
                (All-mono {P = λ x. (0 ≤ x) × (x < n)} (range n) (λ x h. ready-step w p x h.1)
                  (All-range_from-lt 0 n n (omega arith)))))))

  pub visit-IsRound : IsRound n edge s → Perm (c ∷ rest) s.queue → IsRound n edge after
  unfolding visit any
  visit-IsRound w p = record {
    degrees = after-waits w p;
    ready = after-ready w p;
    marks = λ x. ground (arith, w.marks x) ∙ sym (any-append (eqb x) s.ordered (c ∷ []));
    follows = Follows-snoc n edge [] s.ordered c w.follows (λ y k e.
        sym (w.marks y)
        ∙ ground (
          arith,
          count-zero (λ y. edge y c && not (s.visited y)) (range n) y (front w p).1
              (any-range_from y 0 n (omega arith) (omega arith)),
        ));
  }
