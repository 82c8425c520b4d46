-- ===== src/Status.antt =====
-- gRPC status codes and errors as values: `status.Errorf(code, message)`, and a call's
-- `(value, error)`. Wrapping an error with %w keeps its code.
use gramophile.Prelude.{String, Bool, true, false, Option, none, some, ◌≡◌, refl, ◌⊎◌, inl, inr}

pub data Code : Type 0 where
  canceled unknown invalid_argument deadline_exceeded not_found already_exists : Code
  permission_denied resource_exhausted failed_precondition aborted out_of_range : Code
  unimplemented internal unavailable data_loss unauthenticated : Code

pub record Err : Type 0 where
  pub code : Code
  pub message : String

pub data Result {ℓ} (A : Type ℓ) : Type ℓ where
  ok : A → Result A
  err : Err → Result A

abbrev pub errorf : Code → String → Err
errorf c m = record { code = c; message = m }

abbrev pub is_not_found : Code → Bool
is_not_found Code.not_found = true
is_not_found _ = false

abbrev pub is_already_exists : Code → Bool
is_already_exists Code.already_exists = true
is_already_exists _ = false

abbrev pub is_resource_exhausted : Code → Bool
is_resource_exhausted Code.resource_exhausted = true
is_resource_exhausted _ = false

abbrev pub is_internal : Code → Bool
is_internal Code.internal = true
is_internal _ = false

abbrev pub is_failed_precondition : Code → Bool
is_failed_precondition Code.failed_precondition = true
is_failed_precondition _ = false

-- `status.Code(err) == c` for a call's error, where `nil` has the code OK.
abbrev pub error_is : (Code → Bool) → Option Err → Bool
error_is p none = false
error_is p (some e) = p e.code

pub Result-cases {ℓ} :
    {A : Type ℓ} (r : Result A) → ((a : A) × (r ≡ ok a)) ⊎ ((e : Err) × (r ≡ err e))
Result-cases (ok a) = inl (a, refl)
Result-cases (err e) = inr (e, refl)
