-- ===== src/Layout/Load.antt =====
-- What lies on each unit of a space, while the layout loop of org/org.go fills it.
use mathlib.Core.List.{append_assoc}
use gramophile.Prelude.{
  ℕ, suc, ◌≤◌, eqb, Bool, true, false, ◌&&◌, List, [], ◌∷◌, ◌++◌, ◌≡◌, ◌≢◌, inl, inr, refl, sym, ap,
  ◌∙◌, subst, Bool-cases, arith, String, ◌==◌, eq_iff, eq_refl, if◌then◌else◌, All, All-append_inv,
  All-snoc,
}
use gramophile.Org.Types.{Placement}
use gramophile.Layout.Types.{Float, Space}

-- What the loop relies on in the comparisons of float32: they exclude each other, and nothing laid
-- out is as wide as no width.
pub record FloatLaws {W : Type 0} (float : Float W) : Type 0 where
  pub le→not_gt : (x y : W) → float.le x y ≡ true → float.gt x y ≡ false

module _ {W : Type 0} where
  -- No two spaces have the same name.
  abbrev pub DifferentNames : List (Space W) → Type 0
  DifferentNames [] = Unit
  DifferentNames (sp ∷ sps) =
      All (λ (q : Space W). (sp.name == q.name) ≡ false) sps × DifferentNames sps

module _ {W : Type 0} (float : Float W) where
  abbrev is_at : String → ℕ → Placement W → Bool
  is_at name u p = p.space == name && eqb p.unit u

  -- The widths on unit `u` of a space, added in the order of the placements to `w`.
  unfoldable pub load : String → ℕ → W → List (Placement W) → W
  load name u w [] = w
  load name u w (p ∷ ps) =
      load name u (if p.space == name && eqb p.unit u then float.add w p.width else w) ps

  -- What lies on unit `u` of a space.
  abbrev pub lies_on : String → ℕ → List (Placement W) → W
  lies_on name u ps = load name u (float.of_ℕ 0) ps

  load-append :
      (name : String) (u : ℕ) (w : W) (ps : List (Placement W)) (p : Placement W)
      → load name u w (ps ++ p ∷ [])
        ≡ (if is_at name u p then float.add (load name u w ps) p.width else load name u w ps)
  unfolding load
  load-append name u w [] p = refl
  load-append name u w (q ∷ ps) p =
      load-append name u (if is_at name u q then float.add w q.width else w) ps p

  -- No unit of the space is above its width.
  abbrev pub HasRoom : List (Placement W) → Space W → Type 0
  HasRoom ps sp = (u : ℕ) → float.gt (lies_on sp.name u ps) sp.width ≡ false

  -- The space is empty from unit `u` on.
  abbrev pub IsEmptyFrom : ℕ → List (Placement W) → Space W → Type 0
  IsEmptyFrom u ps sp = (v : ℕ) → u ≤ v → lies_on sp.name v ps ≡ float.of_ℕ 0

  -- The space in use has `used` on its unit and nothing behind it, and so have the later ones.
  abbrev pub Front : List (Placement W) → ℕ → W → List (Space W) → Type 0
  Front ps u used [] = Unit
  Front ps u used (sp ∷ sps) =
      (lies_on sp.name u ps ≡ used) × IsEmptyFrom (suc u) ps sp × All (IsEmptyFrom 0 ps) sps

  name-sym : (a b : String) → (a == b) ≡ false → (b == a) ≡ false
  name-sym a b h = elim (Bool-cases (b == a)) [
    | inl same ↦
        let e : (a == b) ≡ true = (eq_iff a b).1 (sym ((eq_iff b a).0 same)) in absurd (cc (h, e))
    | inr other ↦ other
  ]

  -- The spaces but `sp` have other names.
  Others : Space W → List (Space W) → Type 0
  Others sp = All (λ (q : Space W). (sp.name == q.name) ≡ false)

  Different-Others :
      (past : List (Space W)) (sp : Space W) (sps : List (Space W))
      → DifferentNames (past ++ sp ∷ sps)
      → Others sp past × Others sp sps
  unfolding Others
  Different-Others [] sp sps d = (tt, d.0)
  Different-Others (q ∷ past) sp sps d =
      let rest = Different-Others past sp sps d.1 in
      let here = (All-append_inv _ past (sp ∷ sps) d.0).1 in
      ((name-sym q.name sp.name here.0, rest.0), rest.1)

  module _ (sp : Space W) (ps : List (Placement W)) (p : Placement W)
      (space : p.space ≡ sp.name) where
    load-there :
        lies_on sp.name p.unit (ps ++ p ∷ []) ≡ float.add (lies_on sp.name p.unit ps) p.width
    load-there =
        let there : is_at sp.name p.unit p ≡ true = rw (space, eq_refl sp.name) (ground arith) in
        load-append sp.name p.unit _ ps p ∙ rw (there) refl

    load-unit : (u : ℕ) → p.unit ≢ u → lies_on sp.name u (ps ++ p ∷ []) ≡ lies_on sp.name u ps
    load-unit u other =
        let there : is_at sp.name u p ≡ false = ground (arith, other) in
        load-append sp.name u _ ps p ∙ rw (there) refl

    load-space :
        (q : Space W) (u : ℕ)
        → (sp.name == q.name) ≡ false
        → lies_on q.name u (ps ++ p ∷ []) ≡ lies_on q.name u ps
    load-space q u other =
        let there : is_at q.name u p ≡ false = rw (space, other) refl in
        load-append q.name u _ ps p ∙ rw (there) refl

    HasRoom-Others :
        (qs : List (Space W)) → Others sp qs → All (HasRoom ps) qs → All (HasRoom (ps ++ p ∷ [])) qs
    unfolding Others
    HasRoom-Others [] o h = tt
    HasRoom-Others (q ∷ qs) o h =
        (λ u. ap (λ w. float.gt w q.width) (load-space q u o.0) ∙ h.0 u, HasRoom-Others qs o.1 h.1)

    IsEmpty-Others :
        (qs : List (Space W))
        → Others sp qs
        → All (IsEmptyFrom 0 ps) qs
        → All (IsEmptyFrom 0 (ps ++ p ∷ [])) qs
    unfolding Others
    IsEmpty-Others [] o h = tt
    IsEmpty-Others (q ∷ qs) o h = (λ v le. load-space q v o.0 ∙ h.0 v le, IsEmpty-Others qs o.1 h.1)

  -- Each space has room, those that are past and those from the space in use on.
  unfoldable pub Fits : List (Space W) → List (Space W) → List (Placement W) → ℕ → W → Type 0
  Fits spaces sps ps u used =
      (past : List (Space W)) × (spaces ≡ past ++ sps)
      × All (HasRoom ps) past
      × All (HasRoom ps) sps
      × Front ps u used sps

  pub Fits-place :
      (spaces : List (Space W)) (sp : Space W) (sps : List (Space W)) (ps : List (Placement W))
      (used : W) (p : Placement W)
      → DifferentNames spaces
      → Fits spaces (sp ∷ sps) ps p.unit used
      → p.space ≡ sp.name
      → float.gt (float.add used p.width) sp.width ≡ false
      → Fits spaces (sp ∷ sps) (ps ++ p ∷ []) p.unit (float.add used p.width)
  unfolding Fits
  Fits-place spaces sp sps ps used p d h space room =
      let others = Different-Others h.0 sp sps (subst DifferentNames h.1 d) in
      let there = load-there sp ps p space ∙ ap (λ w. float.add w p.width) h.4.0 in
      (
        h.0,
        h.1,
        HasRoom-Others sp ps p space h.0 others.0 h.2,
        (
          λ u. (elim (Bool-cases (eqb p.unit u)) [
            | inl same ↦
                let here : p.unit ≡ u = ground arith in
                subst (λ (v : ℕ). float.gt (lies_on sp.name v (ps ++ p ∷ [])) sp.width ≡ false) here
                  (ap (λ w. float.gt w sp.width) there ∙ room)
            | inr other ↦
                ap (λ w. float.gt w sp.width)
                  (load-unit sp ps p space u (λ e. ground (arith, e, other)))
                ∙ h.3.0 u
          ]),
          HasRoom-Others sp ps p space sps others.1 h.3.1,
        ),
        (
          there,
          λ v le. load-unit sp ps p space v (λ e. omega (arith, e, le)) ∙ h.4.1 v le,
          IsEmpty-Others sp ps p space sps others.1 h.4.2,
        ),
      )

  pub Fits-unit :
      (spaces : List (Space W)) (sp : Space W) (sps : List (Space W)) (ps : List (Placement W))
      (u : ℕ) (used : W)
      → Fits spaces (sp ∷ sps) ps u used
      → Fits spaces (sp ∷ sps) ps (suc u) (float.of_ℕ 0)
  unfolding Fits
  Fits-unit spaces sp sps ps u used h =
      (h.0, h.1, h.2, h.3, (h.4.1 (suc u) (omega arith), λ v le. h.4.1 v (omega arith), h.4.2))

  pub Front-next :
      (ps : List (Placement W)) (sps : List (Space W))
      → All (IsEmptyFrom 0 ps) sps
      → Front ps 1 (float.of_ℕ 0) sps
  Front-next ps [] h = tt
  Front-next ps (sp ∷ sps) h = (h.0 1 (omega arith), λ v le. h.0 v (omega arith), h.1)

  pub Fits-space :
      (spaces : List (Space W)) (sp : Space W) (sps : List (Space W)) (ps : List (Placement W))
      (u : ℕ) (used : W)
      → Fits spaces (sp ∷ sps) ps u used
      → Fits spaces sps ps 1 (float.of_ℕ 0)
  unfolding Fits
  Fits-space spaces sp sps ps u used h = (
    h.0 ++ sp ∷ [],
    h.1 ∙ sym (append_assoc h.0 (sp ∷ []) sps),
    All-snoc (HasRoom ps) h.0 sp h.2 h.3.0,
    h.3.1,
    Front-next ps sps h.4.2,
  )
