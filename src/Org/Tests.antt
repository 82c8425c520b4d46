-- ===== src/Org/Tests.antt =====
-- Runs of org/diff.go on small snapshots.
use mathlib.Core.List.{Perm}
use gramophile.Prelude.{
  ℕ, ◌-◌, ◌<◌, true, Option, none, some, List, [], ◌∷◌, ◌≡◌, refl, All, select, arith, sort, ◌-ℤ◌,
}
use gramophile.Org.Types.{Placement, OrganisationSnapshot, Move}
use gramophile.Org.Diff.{
  compute_slot_moves, order_slot_moves, vacates, start_unit, range_from, count,
}
use gramophile.Org.Changes.{first_of, last_of, change, moves_record, compute_slot_moves-record}
use gramophile.Org.Order.{Vacated, order_slot_moves-perm, order_slot_moves-Vacated}
use gramophile.Org.Cycles.{Parts, order_slot_moves-Parts}

abbrev place : ℕ → ℕ → Placement ℕ
place iid unit = record {
  iid = iid;
  unit = unit;
  index = 1;
  space = "shelf";
  width = 1;
  original_index = 0;
  observations = "";
  sort_key = "";
}

abbrev step : ℕ → ℕ → ℕ → Move ℕ
step iid from to = record { start = some (place iid from); end = some (place iid to) }

abbrev snapshot : List (Option (Placement ℕ)) → OrganisationSnapshot ℕ
snapshot ps = record { date = 0; placements = ps; hash = ""; name = "main" }

-- Record 7 goes where record 8 is, and record 8 goes to a free slot.
abbrev chain : List (Move ℕ)
chain = step 7 1 2 ∷ step 8 2 3 ∷ []

-- Records 7 and 8 swap, and record 9 goes where record 8 is.
abbrev swap : List (Move ℕ)
swap = step 7 2 1 ∷ step 8 1 2 ∷ step 9 5 1 ∷ []

chain_run : order_slot_moves chain ≡ step 8 2 3 ∷ step 7 1 2 ∷ []
unfolding order_slot_moves select range_from count sort ◌-ℤ◌
chain_run = refl

swap_run : order_slot_moves swap ≡ step 8 1 2 ∷ step 7 2 1 ∷ step 9 5 1 ∷ []
unfolding order_slot_moves select range_from count sort ◌-ℤ◌
swap_run = refl

abbrev before : OrganisationSnapshot ℕ
before = snapshot (some (place 7 1) ∷ none ∷ some (place 8 2) ∷ some (place 7 4) ∷ [])

abbrev after : OrganisationSnapshot ℕ
after = snapshot (some (place 7 2) ∷ some (place 8 2) ∷ [])

before_run : compute_slot_moves (some before) (some after) ≡ step 7 1 2 ∷ []
unfolding compute_slot_moves
before_run = refl

abbrev rank : Move ℕ → ℕ
rank m = 9 - start_unit m

chain-rises : All (λ a. All (λ b. vacates a b ≡ true → rank a < rank b) chain) chain
chain-rises = (
  ((λ v. absurd (cc)), ((λ v. absurd (cc)), tt)),
  (((λ v. omega arith), ((λ v. absurd (cc)), tt)), tt),
)

order_slot_moves-perm_example : Perm (order_slot_moves swap) swap
order_slot_moves-perm_example = order_slot_moves-perm swap

order_slot_moves-Vacated_example : Vacated chain [] (order_slot_moves chain)
order_slot_moves-Vacated_example = order_slot_moves-Vacated chain rank chain-rises

order_slot_moves-Parts_example : Parts swap (order_slot_moves swap)
order_slot_moves-Parts_example = order_slot_moves-Parts swap

compute_slot_moves-record_example :
    select (moves_record 7) (compute_slot_moves (some before) (some after))
    ≡ change (first_of 7 before.placements) (last_of 7 after.placements none)
compute_slot_moves-record_example = compute_slot_moves-record before after 7
