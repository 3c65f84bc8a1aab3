-- ===== src/Base/Maps.antt =====
-- Maps as functions of a numeric key.
use Prim.Native.Nat.{ℕ}
use code_collaborator.Base.Tests.{◌==◌, if◌then◌else◌}
use mathlib.Core.Bool.{◌&&◌}

abbrev pub update {ℓ} : {A : Type ℓ} → (ℕ → A) → ℕ → A → ℕ → A
update f key value other = if key == other then value else f other

-- The key is a pair.
abbrev pub update_pair {ℓ} : {A : Type ℓ} → (ℕ → ℕ → A) → ℕ → ℕ → A → ℕ → ℕ → A
update_pair f first second value i j = if first == i && second == j then value else f i j
