-- ===== src/Lib0/VarUint.antt =====
-- `encode_var_uint` and `decode_var_uint` of protocol.py: the groups of seven bits that are written,
-- and what is read back.
use code_collaborator.Base.{
  ℕ, zero, suc, ◌+◌, ◌*◌, ◌/◌, ◌%◌, ◌^◌, ◌≤◌, ◌<◌, ◌≡◌, ap, arith, [], ◌∷◌, ◌++◌, append_assoc,
  length, All, ltb, ltb-false, if◌then◌else◌, ok,
}
use code_collaborator.Base.Bits.{bit_or_continuation}
use code_collaborator.Lib0.{Bytes, max_safe_integer, encode_loop, encode_var_uint, decode_loop}
use mathlib.Core.WellFounded.{Acc}
use native.Mathlib.Nat.{div-add-mod}

-- The groups of seven bits of a value below `128 ^ (k + 1)`, lowest first.
unfoldable pub groups : ℕ → ℕ → Bytes
groups zero v = v ∷ []
groups (suc k) v =
    let higher = groups k (v / 128) in if ltb v 128 then v ∷ [] else (v % 128 + 128) ∷ higher

encode_loop-groups :
    (k : ℕ) (encoded : Bytes) (v : ℕ) (w : Acc ◌<◌ v)
    → v < 128 ^ suc k
    → encode_loop encoded v w ≡ encoded ++ groups k v
unfolding encode_loop groups
encode_loop-groups zero encoded v (Acc.intro _ below) h = ground arith
encode_loop-groups (suc k) encoded v (Acc.intro _ below) h =
    let group : Bytes = (v % 128 + 128) ∷ [] in
    grind (
      arith,
      bit_or_continuation (v % 128),
      λ (w : Acc ◌<◌ (v / 128)). encode_loop-groups k (encoded ++ group) (v / 128) w (omega arith),
      append_assoc encoded group (groups k (v / 128)),
    )

-- A safe value is written as its groups.
pub encode_var_uint-groups : (v : ℕ) → v ≤ max_safe_integer → encode_var_uint v ≡ ok (groups 7 v)
unfolding encode_var_uint
encode_var_uint-groups v h =
    rw (ltb-false max_safe_integer v h) (ap ok (encode_loop-groups 7 [] v _ (omega arith)))

pub length-groups : (k v : ℕ) → (1 ≤ length (groups k v)) × (length (groups k v) ≤ k + 1)
unfolding groups
length-groups zero v = omega arith
length-groups (suc k) v = ground (arith, length-groups k (v / 128))

-- Every element is a byte.
pub groups-bytes : (k v : ℕ) → v < 128 ^ suc k → All (λ b. b < 256) (groups k v)
unfolding groups
groups-bytes zero v h = omega arith
groups-bytes (suc k) v h = ground (arith, groups-bytes k (v / 128) (omega arith))

-- What is left of `v` under a multiplier, split into its lowest group and the rest.
split_group : (v m : ℕ) → v * m ≡ v % 128 * m + v / 128 * (m * 128)
split_group v m = omega (arith, ap (λ (t : ℕ). t * m) (div-add-mod v 128))

pub decode_loop-groups :
    (k v value multiplier offset read : ℕ) (rest : Bytes)
    → v < 128 ^ suc k
    → value + v * multiplier ≤ max_safe_integer
    → read + k < 8
    → decode_loop (groups k v ++ rest) offset value multiplier read
      ≡ ok (value + v * multiplier, offset + length (groups k v))
unfolding decode_loop groups
decode_loop-groups zero v value multiplier offset read rest hv safe hr = ground arith
decode_loop-groups (suc k) v value multiplier offset read rest hv safe hr = ground (
  arith,
  split_group v multiplier,
  decode_loop-groups k (v / 128) (value + v % 128 * multiplier) (multiplier * 128) (offset + 1)
      (read + 1) rest (omega arith),
)

-- Only a safe value is encoded.
pub encode_var_uint-safe :
    (v : ℕ) {bytes : Bytes} → encode_var_uint v ≡ ok bytes → v ≤ max_safe_integer
unfolding encode_var_uint
encode_var_uint-safe v e = ground arith
