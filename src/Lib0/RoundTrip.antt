-- ===== src/Lib0/RoundTrip.antt =====
-- The varUint codec of protocol.py as a whole: what is encoded, and that decoding inverts it.
use code_collaborator.Base.{ℕ, ◌+◌, ◌≤◌, ◌<◌, ◌≡◌, arith, ◌++◌, length, All, ok, err, sym, subst}
use code_collaborator.Lib0.{
  Bytes, max_safe_integer, encode_var_uint, decode_var_uint, encode_var_bytes, decode_var_bytes,
  unsafe_value,
}
use code_collaborator.Lib0.VarUint.{groups, encode_var_uint-groups, length-groups, groups-bytes}
use code_collaborator.Lib0.Reading.{
  At-prefix, decode_var_uint-At, decode_var_bytes-At, var_bytes, encode_var_uint-eq_ok,
  encode_var_bytes-eq_ok,
}

-- `decode_var_uint` reads the integer that `encode_var_uint` wrote, wherever in a frame it stands and
-- whatever is before and after it, and returns the offset right behind it.
pub decode_var_uint-encode_var_uint :
    (v : ℕ) (before after : Bytes) {bytes : Bytes}
    → encode_var_uint v ≡ ok bytes
    → decode_var_uint (before ++ (bytes ++ after)) (length before)
      ≡ ok (v, length before + length bytes)
decode_var_uint-encode_var_uint v before after {bytes} e =
    let (safe, same) = encode_var_uint-eq_ok v e in
    subst
      (λ b.
        decode_var_uint (before ++ (b ++ after)) (length before) ≡ ok (v, length before + length b))
      (sym same)
      (decode_var_uint-At _ (length before) v after safe (At-prefix before (groups 7 v ++ after)))

-- The same for a length-prefixed byte string.
pub decode_var_bytes-encode_var_bytes :
    (value before after : Bytes) {bytes : Bytes}
    → encode_var_bytes value ≡ ok bytes
    → decode_var_bytes (before ++ (bytes ++ after)) (length before)
      ≡ ok (value, length before + length bytes)
decode_var_bytes-encode_var_bytes value before after {bytes} e =
    let (safe, same) = encode_var_bytes-eq_ok value e in
    subst
      (λ b.
        decode_var_bytes (before ++ (b ++ after)) (length before)
        ≡ ok (value, length before + length b))
      (sym same)
      (decode_var_bytes-At _ (length before) value after safe
        (At-prefix before (var_bytes value ++ after)))

-- An integer is encoded exactly when it is JavaScript-safe: in 1 to 8 elements, each a byte. Any other
-- is refused.
pub encode_var_uint_shape :
    (v : ℕ)
    → (v ≤ max_safe_integer
        → (bytes : Bytes) × (encode_var_uint v ≡ ok bytes)
          × (1 ≤ length bytes)
          × (length bytes ≤ 8)
          × All (λ b. b < 256) bytes)
      × (max_safe_integer < v → encode_var_uint v ≡ err unsafe_value)
unfolding encode_var_uint
encode_var_uint_shape v = (
  λ safe. (
    groups 7 v,
    encode_var_uint-groups v safe,
    (length-groups 7 v).0,
    omega (arith, (length-groups 7 v).1),
    groups-bytes 7 v (omega arith),
  ),
  λ unsafe. ground arith,
)
