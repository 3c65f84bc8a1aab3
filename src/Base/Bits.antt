-- ===== src/Base/Bits.antt =====
-- Masks as arithmetic. `x & (2 ** k - 1)` is the remainder by `2 ** k`.
use Prim.Native.Nat.{ℕ, zero, suc, ◌+◌, ◌%◌, ◌^◌, ◌<◌, bit_or}
use mathlib.Core.Path.{◌≡◌, refl}
use mathlib.Core.Bool.{Bool, true, ◌&&◌}
use native.Mathlib.Omega.{arith}
use code_collaborator.Base.Tests.{◌==◌, ==_iff}

abbrev pub low_bits : ℕ → ℕ → ℕ
low_bits x k = x % 2 ^ k

-- A test holds of every number below a bound.
holds_below : ℕ → (ℕ → Bool) → Bool
holds_below zero p = true
holds_below (suc n) p = p n && holds_below n p

holds_below_sound : (n : ℕ) (p : ℕ → Bool) (x : ℕ) → holds_below n p ≡ true → x < n → p x ≡ true
unfolding holds_below
holds_below_sound zero p x h lt = absurd (omega arith)
holds_below_sound (suc n) p x h lt = ground (arith, holds_below_sound n p x)

continuation_table : holds_below 128 (λ x. bit_or x 0x80 == x + 128) ≡ true
unfolding holds_below
continuation_table = refl

pub bit_or_continuation : (x : ℕ) → x < 128 → bit_or x 0x80 ≡ x + 128
bit_or_continuation x h = (==_iff _ _).0 (holds_below_sound 128 _ x continuation_table h)
