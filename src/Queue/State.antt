-- ===== src/Queue/State.antt =====
-- queuelogic/logic.go, `type Queue struct`: the in-memory view of the stored queue. A Go map is a
-- function with the value that a missing key reads as.
use gramophile.Prelude.{ℕ, ℤ, pos, String, Bool, false, Option, none, List, []}
use gramophile.Queue.Element.{Priority}

pub record Queue : Type 0 where
  pub keys : List ℕ
  pub p_map : ℕ → Option Priority
  pub user_counts : String → ℤ
  pub h_map : String → Bool

-- The queue with the services that its operations act on.
pub record World (S D : Type 0) : Type 0 where
  pub queue : Queue
  pub store : S
  pub database : D

unfoldable pub empty : Queue
empty = record { keys = []; p_map = λ k. none; user_counts = λ a. pos 0; h_map = λ k. false }

abbrev pub max_user_queue_size : ℕ
max_user_queue_size = 200

abbrev pub max_queue_size : ℕ
max_queue_size = 100000

abbrev pub err_user_queue_limit : String
err_user_queue_limit = "User queue limit reached"

abbrev pub err_queue_full : String
err_queue_full = "Queue is full"
