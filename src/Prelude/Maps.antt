-- ===== src/Prelude/Maps.antt =====
-- Go maps as functions: a missing key reads as the value that the start map gives it.
use Prim.Native.Nat.{ℕ}
use Prim.Native.String.{String}
use text.Mathlib.Text.{◌==◌}
use gramophile.Prelude.Tests.{eqb, if◌then◌else◌}

-- `m[k] = v`, over numbers and over texts.
abbrev pub put_at {ℓ} : {V : Type ℓ} → ℕ → V → (ℕ → V) → ℕ → V
put_at k v m j = if eqb k j then v else m j

abbrev pub put_text {ℓ} : {V : Type ℓ} → String → V → (String → V) → String → V
put_text k v m j = if k == j then v else m j
