-- ===== src/Layout/Snapshot.antt =====
-- The snapshot of org/org.go without a spill: the records one after the other, numbered from 1.
use gramophile.Prelude.{
  ℕ, suc, ◌+◌, ◌≤◌, eqb, ltb, Bool, true, false, some, List, [], ◌∷◌, ◌++◌, ◌≡◌, inl, inr, refl,
  sym, ap, ◌∙◌, subst, length, map, any, Bool-cases, arith, put_at, All, IsSorted, sort_sorted,
}
use gramophile.Org.Types.{Placement}
use gramophile.Layout.Types.{
  Float, Space, Disc, GroupSpill, Spill, Sleeve, LabelWeight, Organisation, SortingElement,
  GroupingElement,
}
use gramophile.Layout.Groups.{flatten}
use gramophile.Layout.Place.{place_all}
use gramophile.Layout.Build.{
  Env, records_of, expand_one, expand, index_less, snapshot_of, with_spill, order_records, elements,
  original_map, snapshot_records,
}
use gramophile.Layout.Total.{HasSpill}
use gramophile.Layout.Placed.{has_element}
use gramophile.Layout.Grouping.{discs, flatten-elements}
use gramophile.Layout.Sequence.{
  positions, numbers, DifferentIds, positions-append, place_all_in_order,
}

abbrev lower : ℕ × ℕ → ℕ × ℕ → Bool
lower a b = ltb a.1 b.1

module _ {W : Type 0} where
  -- The records of elements by the position that each has.
  unfoldable pub record_numbers : ℕ → List (Disc W) → List (ℕ × ℕ)
  record_numbers i [] = []
  record_numbers i (r ∷ rs) = (r.iid, i) ∷ record_numbers (suc i) rs

  record_numbers-append :
      (i : ℕ) (rs qs : List (Disc W))
      → record_numbers i (rs ++ qs) ≡ record_numbers i rs ++ record_numbers (i + length rs) qs
  unfolding record_numbers
  record_numbers-append i [] qs = ap (λ (n : ℕ). record_numbers n qs) (omega arith)
  record_numbers-append i (r ∷ rs) qs =
      ap (λ z. (r.iid, i) ∷ z)
        (record_numbers-append (suc i) rs qs
          ∙ ap (λ (n : ℕ). record_numbers (suc i) rs ++ record_numbers n qs) (omega arith))

  -- What the placements expand to, by their positions.
  unfoldable expanded : (ℕ → List (Disc W)) → List (ℕ × ℕ) → List (ℕ × ℕ)
  unfolding record_numbers
  expanded m [] = []
  expanded m ((k, i) ∷ ks) = record_numbers i (m k) ++ expanded m ks

  positions-expand_one :
      (width : Disc W → W) (original : ℕ → ℕ) (p : Placement W) (ri : ℕ) (rs : List (Disc W))
      → positions (expand_one width original p ri rs) ≡ record_numbers (p.index + ri) rs
  unfolding expand_one positions record_numbers
  positions-expand_one width original p ri [] = refl
  positions-expand_one width original p ri (r ∷ rs) =
      ap (λ z. (r.iid, p.index + ri) ∷ z)
        (positions-expand_one width original p (suc ri) rs
          ∙ ap (λ (n : ℕ). record_numbers n rs) (omega arith))

  positions-expand :
      (width : Disc W → W) (original : ℕ → ℕ) (m : ℕ → List (Disc W)) (ps : List (Placement W))
      → positions (expand width original m ps) ≡ expanded m (positions ps)
  unfolding expand positions expanded
  positions-expand width original m [] = refl
  positions-expand width original m (p ∷ ps) =
      positions-append (expand_one width original p 0 (m p.iid)) _
      ∙ ap (λ z. z ++ positions (expand width original m ps))
          (positions-expand_one width original p 0 (m p.iid)
            ∙ ap (λ (n : ℕ). record_numbers n (m p.iid)) (omega arith))
      ∙ ap (λ z. record_numbers p.index (m p.iid) ++ z) (positions-expand width original m ps)

  -- The map by id has each element's records.
  Holds : (ℕ → List (Disc W)) → List (GroupingElement W) → Type 0
  Holds m [] = Unit
  Holds m (e ∷ es) = (m e.id ≡ e.records) × Holds m es

  records_of-other :
      (es : List (GroupingElement W)) (m : ℕ → List (Disc W)) (k : ℕ)
      → has_element k es ≡ false
      → records_of es m k ≡ m k
  unfolding records_of any
  records_of-other [] m k h = refl
  records_of-other (e ∷ es) m k h = elim (Bool-cases (eqb e.id k)) [
    | inl this ↦ absurd (ground (arith, h, this))
    | inr other ↦
        records_of-other es (put_at e.id e.records m) k (ground (arith, h)) ∙ rw (other) refl
  ]

  records_of-Holds :
      (es : List (GroupingElement W)) (m : ℕ → List (Disc W))
      → DifferentIds es
      → Holds (records_of es m) es
  unfolding records_of Holds
  records_of-Holds [] m d = tt
  records_of-Holds (e ∷ es) m d =
      let same : eqb e.id e.id ≡ true = ground arith in
      (
        records_of-other es (put_at e.id e.records m) e.id d.0 ∙ rw (same) refl,
        records_of-Holds es (put_at e.id e.records m) d.1,
      )

  expanded-numbers :
      (m : ℕ → List (Disc W)) (i : ℕ) (es : List (GroupingElement W))
      → Holds m es
      → expanded m (numbers i es) ≡ record_numbers (suc i) (flatten es)
  unfolding Holds expanded numbers flatten record_numbers
  expanded-numbers m i [] h = refl
  expanded-numbers m i (e ∷ es) h =
      ap (λ z. record_numbers (i + 1) z ++ expanded m (numbers (i + length e.records) es)) h.0
      ∙ ap (λ z. record_numbers (i + 1) e.records ++ z)
          (expanded-numbers m (i + length e.records) es h.1)
      ∙ ap
          (λ (n : ℕ).
            record_numbers n e.records ++ record_numbers (suc (i + length e.records)) (flatten es))
          (omega arith)
      ∙ ap (λ (n : ℕ). record_numbers (suc i) e.records ++ record_numbers n (flatten es))
          (omega arith)
      ∙ sym (record_numbers-append (suc i) e.records (flatten es))

  All-record_numbers :
      (i j : ℕ) (rs : List (Disc W)) → i ≤ j → All (λ a. ltb a.1 i ≡ false) (record_numbers j rs)
  unfolding record_numbers
  All-record_numbers i j [] le = tt
  All-record_numbers i j (r ∷ rs) le = (ground arith, All-record_numbers i (suc j) rs (omega arith))

  record_numbers-IsSorted : (j : ℕ) (rs : List (Disc W)) → IsSorted lower (record_numbers j rs)
  unfolding record_numbers
  record_numbers-IsSorted j [] = tt
  record_numbers-IsSorted j (r ∷ rs) =
      (All-record_numbers j (suc j) rs (omega arith), record_numbers-IsSorted (suc j) rs)

  All-positions :
      (i : ℕ) (ps : List (Placement W))
      → All (λ a. ltb a.1 i ≡ false) (positions ps)
      → All (λ q. ltb q.index i ≡ false) ps
  unfolding positions
  All-positions i [] h = tt
  All-positions i (p ∷ ps) h = (h.0, All-positions i ps h.1)

  IsSorted-positions :
      (ps : List (Placement W)) → IsSorted lower (positions ps) → IsSorted index_less ps
  unfolding positions
  IsSorted-positions [] h = tt
  IsSorted-positions (p ∷ ps) h = (All-positions p.index ps h.0, IsSorted-positions ps h.1)

module _ {W : Type 0} (env : Env W) (original : ℕ → ℕ) (spill : Spill)
    (keeps : spill.type ≡ GroupSpill.no_spill) where
  -- Without a spill the elements of different ids give a snapshot, for any widths, and its
  -- placements are the records of the elements in their order, numbered from 1.
  pub snapshot_of_in_order :
      (spaces : List (Space W)) (es : List (GroupingElement W)) (width : List (Disc W) → W)
      → DifferentIds es
      → HasSpill env.float spaces 1
      → (ps : List (Placement W)) × (snapshot_of env original es width
            (place_all env.float (λ e. width e.records) env.describe original spill spaces es)
          ≡ some (record {
            date = env.now;
            placements = map (λ p. some p) ps;
            hash = env.hash_of ps;
            name = "";
          }))
        × (positions ps ≡ record_numbers 1 (flatten es))
  unfolding snapshot_of
  snapshot_of_in_order spaces es width different spilled =
      let n =
        place_all_in_order env.float (λ e. width e.records) env.describe original spill keeps spaces
          es different spilled in
      let m = records_of es (λ k. []) in
      let out = expand (λ r. width (r ∷ [])) original m (n.0).placements in
      let numbered =
        positions-expand (λ r. width (r ∷ [])) original m (n.0).placements
        ∙ ap (expanded m) n.2
        ∙ expanded-numbers m 0 es (records_of-Holds es (λ k. []) different) in
      let sorted =
        IsSorted-positions out
          (subst (IsSorted lower) (sym numbered) (record_numbers-IsSorted 1 (flatten es))) in
      (
        out,
        ap (snapshot_of env original es width) n.1
            ∙ ap
                (λ ps. some (record {
                  date = env.now;
                  placements = map (λ p. some p) ps;
                  hash = env.hash_of ps;
                  name = "";
                }))
                (sort_sorted index_less out sorted),
        numbered,
      )

module _ {W : Type 0} (float : Float W)
    (never_above : (x : W) → float.gt x float.largest ≡ false) where
  -- The spill slot behind the spaces is never full.
  pub HasSpill-with_spill : (spaces : List (Space W)) → HasSpill float (with_spill float spaces) 1
  HasSpill-with_spill [] = (refl, refl, never_above)
  HasSpill-with_spill (sp ∷ []) = (omega arith, HasSpill-with_spill [])
  HasSpill-with_spill (sp ∷ sq ∷ sps) = (omega arith, HasSpill-with_spill (sq ∷ sps))

module _ {W : Type 0} (env : Env W)
    (never_above : (x : W) → env.float.gt x env.float.largest ≡ false) (org : Organisation W)
    (weights : List (LabelWeight W)) (sleeves : List (Sleeve W)) (all : List (Disc W)) where
  abbrev in_their_order : List (SortingElement W)
  in_their_order = order_records env org weights all

  abbrev laid_out : List (GroupingElement W)
  laid_out = (elements env org weights sleeves in_their_order).0

  -- For an organisation without a spill, when no width is above that of the spill slot and no two
  -- elements to lay out have the same id, the snapshot of loaded records has no panic, and its
  -- placements are the ordered records, one each, at the positions from 1 on.
  pub snapshot_records_in_order :
      (org.spill.type ≡ GroupSpill.no_spill)
      → DifferentIds laid_out
      → (ps : List (Placement W)) × (snapshot_records env org weights sleeves all
          ≡ some (record {
            date = env.now;
            placements = map (λ p. some p) ps;
            hash = env.hash_of ps;
            name = "";
          }))
        × (positions ps ≡ record_numbers 1 (discs in_their_order))
  unfolding snapshot_records
  snapshot_records_in_order keeps different =
      let n =
        snapshot_of_in_order env (original_map 0 in_their_order (λ k. 0)) org.spill keeps
          (with_spill env.float org.spaces) laid_out
          (elements env org weights sleeves in_their_order).1 different
          (HasSpill-with_spill env.float never_above org.spaces) in
      (
        n.0,
        n.1,
        n.2 ∙ ap (record_numbers 1) (flatten-elements env org weights sleeves in_their_order),
      )
