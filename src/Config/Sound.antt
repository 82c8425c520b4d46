-- ===== src/Config/Sound.antt =====
-- What the checks of the organisations ensure, config/organisation.go.
use gramophile.Prelude.{
  ℕ, eqb, String, Bool, true, false, not, ◌&&◌, Option, none, some, List, [], ◌∷◌, ◌++◌, ◌==◌, any,
  put_at, put_text, ◌≡◌, sym, inl, inr, Bool-cases, Option-cases, All, All-append, All-mono, arith,
  subst,
}
use gramophile.Status.{ok, Result-cases}
use gramophile.Layout.Types.{Organisation, Space, FolderSet}
use gramophile.Layout.Load.{DifferentNames}
use gramophile.Config.Shelves.{
  is_width, check_spaces, check_folders, check_organisations, validate_organisations,
}
use gramophile.Config.Types.{Folder, ConfigUser}

module _ {W : Type 0} where
  -- No name is blank, and none is seen or comes twice.
  abbrev pub GoodNames : (String → Bool) → List (Space W) → Type 0
  GoodNames seen sps =
      All (λ (sp : Space W). ((sp.name == "") ≡ false) × (seen sp.name ≡ false)) sps
      × DifferentNames sps

  name_free :
      (name : String) (seen : String → Bool) (sps : List (Space W))
      → All
          (λ (sp : Space W). ((sp.name == "") ≡ false) × (put_text name true seen sp.name ≡ false))
          sps
      → All (λ (sp : Space W). (name == sp.name) ≡ false) sps
        × All (λ (sp : Space W). ((sp.name == "") ≡ false) × (seen sp.name ≡ false)) sps
  name_free name seen [] h = (tt, tt)
  name_free name seen (sp ∷ sps) h =
      let rest = name_free name seen sps h.1 in
      elim (Bool-cases (name == sp.name)) [
        | inl same ↦ absurd (cc (rw (same) at h.0.1))
        | inr other ↦ ((other, rest.0), ((h.0.0, rw (other) at h.0.1), rest.1))
      ]

  check_spaces-GoodNames :
      (org : String) (seen : String → Bool) (sps : List (Space W))
      → check_spaces org seen sps ≡ none
      → GoodNames seen sps
  unfolding check_spaces
  check_spaces-GoodNames org seen [] h = (tt, tt)
  check_spaces-GoodNames org seen (sp ∷ sps) h = elim (Bool-cases (sp.name == "")) [
    | inl blank ↦ absurd (cc (rw (blank) at h))
    | inr named ↦ elim (Bool-cases (seen sp.name)) [
      | inl twice ↦ absurd (cc (rw (named, twice) at h))
      | inr new ↦
          let rest =
            check_spaces-GoodNames org (put_text sp.name true seen) sps (rw (named, new) at h) in
          let free = name_free sp.name seen sps rest.0 in (((named, new), free.1), (free.0, rest.1))
    ]
  ]

ok_same : {A : Type 0} {a b : A} → ok a ≡ ok b → a ≡ b
ok_same h = cc

-- No two folder sets are of the same folder.
abbrev pub DifferentFolders : List FolderSet → Type 0
DifferentFolders [] = Unit
DifferentFolders (f ∷ fs) =
    All (λ (g : FolderSet). eqb f.folder g.folder ≡ false) fs × DifferentFolders fs

abbrev pub IsFolder : List Folder → FolderSet → Type 0
IsFolder folders f = any (λ d. eqb d.id f.folder) folders ≡ true

abbrev Free : (ℕ → Option String) → List FolderSet → Type 0
Free mapped = All (λ (f : FolderSet). mapped f.folder ≡ none)

-- What is free with a folder mapped is another folder.
folder-Free :
    (k : ℕ) (org : String) (mapped : ℕ → Option String) (fs : List FolderSet)
    → Free (put_at k (some org) mapped) fs
    → All (λ (g : FolderSet). eqb k g.folder ≡ false) fs × Free mapped fs
folder-Free k org mapped [] h = (tt, tt)
folder-Free k org mapped (f ∷ fs) h =
    let rest = folder-Free k org mapped fs h.1 in
    elim (Bool-cases (eqb k f.folder)) [
      | inl same ↦ absurd (cc (rw (same) at h.0))
      | inr other ↦ ((other, rest.0), (rw (other) at h.0, rest.1))
    ]

-- The folder sets that are accepted are of different folders that were free, and what is free
-- behind them was free before and is none of theirs.
Accepted : List Folder → (ℕ → Option String) → (ℕ → Option String) → List FolderSet → Type 0
Accepted folders mapped mapped' fs =
    All (IsFolder folders) fs
    × DifferentFolders fs
    × Free mapped fs
    × ((gs : List FolderSet)
        → Free mapped' gs
        → Free mapped gs × All (λ f. All (λ (g : FolderSet). eqb f.folder g.folder ≡ false) gs) fs)

check_folders-Accepted :
    (org : String) (folders : List Folder) (fs : List FolderSet)
    (mapped mapped' : ℕ → Option String)
    → check_folders org folders fs mapped ≡ ok mapped'
    → Accepted folders mapped mapped' fs
unfolding check_folders Accepted
check_folders-Accepted org folders [] mapped mapped' h =
    let same : mapped ≡ mapped' = ok_same h in
    (tt, tt, tt, λ gs free. (subst (λ m. Free m gs) (sym same) free, tt))
check_folders-Accepted org folders (f ∷ fs) mapped mapped' h =
    elim (Bool-cases (not (any (λ d. eqb d.id f.folder) folders))) [
      | inl missing ↦ absurd (cc (rw (missing) at h))
      | inr there ↦ elim (Option-cases (mapped f.folder)) [
        | inr (other, taken) ↦ absurd (cc (rw (there, taken) at h))
        | inl free ↦
            let rest =
              check_folders-Accepted org folders fs (put_at f.folder (some org) mapped) mapped'
                (rw (there, free) at h) in
            let apart = folder-Free f.folder org mapped fs rest.2 in
            (
              (ground (arith, there), rest.0),
              (apart.0, rest.1),
              (free, apart.1),
              λ gs g.
                  (let later = rest.3 gs g in
                    let both = folder-Free f.folder org mapped gs later.0 in
                    (both.1, (both.0, later.1))),
            )
      ]
    ]

different_append :
    (fs gs : List FolderSet)
    → DifferentFolders fs
    → DifferentFolders gs
    → All (λ f. All (λ (g : FolderSet). eqb f.folder g.folder ≡ false) gs) fs
    → DifferentFolders (fs ++ gs)
different_append [] gs h k a = k
different_append (f ∷ fs) gs h k a = (All-append _ fs gs h.0 a.0, different_append fs gs h.1 k a.1)

unfoldable pub all_sets : {W : Type 0} → List (Organisation W) → List FolderSet
all_sets [] = []
all_sets (o ∷ os) = o.foldersets ++ all_sets os

module _ {W : Type 0} where
  -- What the layout relies on in one organisation.
  abbrev pub IsSoundFor : Bool → Organisation W → Type 0
  IsSoundFor width o =
      (is_width o.density ≡ true → width ≡ true)
      × All (λ (sp : Space W). (sp.name == "") ≡ false) o.spaces
      × DifferentNames o.spaces

  -- The organisations are sound, and each folder set is of a folder of its own, which exists.
  unfoldable pub SoundShelves : Bool → List Folder → List (Organisation W) → Type 0
  SoundShelves width folders os =
      All (IsSoundFor width) os
      × All (IsFolder folders) (all_sets os)
      × DifferentFolders (all_sets os)

  check_organisations-Sound :
      (width : Bool) (folders : List Folder) (os : List (Organisation W)) (names : String → Bool)
      (mapped : ℕ → Option String)
      → check_organisations width folders os names mapped ≡ none
      → SoundShelves width folders os × Free mapped (all_sets os)
  unfolding check_organisations SoundShelves all_sets Accepted
  check_organisations-Sound width folders [] names mapped h = ((tt, tt, tt), tt)
  check_organisations-Sound width folders (o ∷ os) names mapped h =
      elim (Bool-cases (is_width o.density && not width)) [
        | inl bare ↦ absurd (cc (rw (bare) at h))
        | inr wide ↦ elim (Bool-cases (names o.name)) [
          | inl twice ↦ absurd (cc (rw (wide, twice) at h))
          | inr new ↦ elim (Option-cases (check_spaces o.name (λ s. false) o.spaces)) [
            | inr (e, bad) ↦ absurd (cc (rw (wide, new, bad) at h))
            | inl spaces ↦ elim (Result-cases (check_folders o.name folders o.foldersets mapped)) [
              | inr (e, bad) ↦ absurd (cc (rw (wide, new, spaces, bad) at h))
              | inl (mapped', sets) ↦
                  let rest =
                    check_organisations-Sound width folders os (put_text o.name true names) mapped'
                      (rw (wide, new, spaces, sets) at h) in
                  let good = check_spaces-GoodNames o.name (λ s. false) o.spaces spaces in
                  let here =
                    check_folders-Accepted o.name folders o.foldersets mapped mapped' sets in
                  let later = here.3 (all_sets os) rest.1 in
                  (
                    (
                      (
                        (
                          λ w. ground (arith, wide, w),
                          All-mono o.spaces (λ sp p. p.0) good.0,
                          good.1,
                        ),
                        rest.0.0,
                      ),
                      All-append _ o.foldersets (all_sets os) here.0 rest.0.1,
                      different_append o.foldersets (all_sets os) here.1 rest.0.2 later.1,
                    ),
                    All-append _ o.foldersets (all_sets os) here.2 later.0,
                  )
            ]
          ]
        ]
      ]

  pub validate_organisations-Sound :
      (u : ConfigUser W)
      → validate_organisations u ≡ none
      → SoundShelves u.config.width_enabled u.folders u.config.organisations
  unfolding validate_organisations
  validate_organisations-Sound u h =
      (check_organisations-Sound u.config.width_enabled u.folders u.config.organisations
        (λ s. false) (λ k. none) h).0
