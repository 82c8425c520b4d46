-- ===== src/Config/Apply.antt =====
-- setIssue, Filter and Apply of config/config.go: the issues of a record. An issue is its number;
-- NEEDS_CLEAN is 0.
use gramophile.Prelude.{
  ℕ, ℤ, pos, ◌-ℤ◌, ◌*ℤ◌, int64, eqb, ltb_ℤ, String, Bool, false, not, ◌&&◌, ◌||◌, List, [], ◌∷◌,
  ◌++◌, ◌==◌, if◌then◌else◌, any, select, length,
}
use gramophile.Config.Types.{Filter, CleaningConfig, GramophileConfig}

pub record CleanRecord : Type 0 where
  pub folder_id : ℕ
  pub formats : List String
  pub last_clean_time : ℕ
  pub num_plays : ℤ
  pub issues : List ℕ

-- `newIssues`, and `found`, which is set by another issue.
abbrev pub others : ℕ → List ℕ → List ℕ
others issue issues = select (λ e. not (eqb e issue)) issues

unfoldable pub set_issue : ℕ → Bool → CleanRecord → CleanRecord
set_issue issue set r =
    let found = any (λ e. not (eqb e issue)) r.issues in
    let added = if set && not found then record r { issues = r.issues ++ issue ∷ [] } else r in
    if not set then record added { issues = others issue r.issues } else added

-- The loops over the formats of the record and those of the filter.
unfoldable pub matches : List String → List String → Bool
matches filter [] = false
matches filter (f ∷ fs) = any (λ m. m == f) filter || matches filter fs

unfoldable pub passes_filter : Filter → CleanRecord → Bool
unfolding matches
passes_filter f r =
    if any (λ k. eqb r.folder_id k) f.exclude_folder
    then false
    else if any (λ k. not (eqb r.folder_id k)) f.include_folder
    then false
    else matches f.formats r.formats || eqb (length f.formats) 0

-- Whether the record is due for a clean, by time and by plays.
unfoldable pub needs_clean : ℕ → CleaningConfig → CleanRecord → Bool
needs_clean now c r =
    ltb_ℤ (pos 0) c.cleaning_gap_in_seconds
      && ltb_ℤ (int64 (c.cleaning_gap_in_seconds *ℤ pos 1000000000))
          (pos now -ℤ pos r.last_clean_time)
    || ltb_ℤ (pos 0) c.cleaning_gap_in_plays && ltb_ℤ c.cleaning_gap_in_plays r.num_plays

unfoldable pub apply : {W : Type 0} → ℕ → GramophileConfig W → CleanRecord → CleanRecord
unfolding set_issue passes_filter needs_clean
apply now c r =
    if c.cleaning.enabled
    then set_issue 0 (passes_filter c.cleaning.applies_to r && needs_clean now c.cleaning r) r
    else r
