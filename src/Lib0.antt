-- ===== src/Lib0.antt =====
-- backend/app/collaboration/protocol.py, the lib0 layer: variable-length integers, length-prefixed
-- byte strings, and the errors of the module. A byte string is a list of numbers below 256, and a
-- non-negative Python int is a natural number.
pub mod VarUint
pub mod Reading
pub mod Bounds
pub mod RoundTrip
use code_collaborator.Base.{
  ℕ, zero, suc, ◌+◌, ◌-◌, ◌*◌, ◌/◌, ◌^◌, ◌<◌, arith, not, List, [], ◌∷◌, ◌++◌, length, take, drop,
  ltb, ◌==◌, if◌then◌else◌, Result, ok, err, ◌>>=◌, ◌>>◌, raise_if,
}
use code_collaborator.Base.Bits.{low_bits}
use Prim.Native.Nat.{bit_or}
use mathlib.Core.Logic.{dite}
use mathlib.Core.WellFounded.{Acc}
use native.Mathlib.Decide.{dec_lt}

abbrev pub Bytes : Type 0
Bytes = List ℕ

-- `(1 << 53) - 1`
abbrev pub max_safe_integer : ℕ
max_safe_integer = 2 ^ 53 - 1

-- Each `raise` of the module. The first two are the `ValueError`s of the encoders; the others are
-- `ProtocolError`s.
pub data ProtocolError : Type 0 where
  unsafe_value : ProtocolError
  unknown_subtype : ℕ → ProtocolError
  offset_outside too_many_bytes unsafe_integer truncated : ProtocolError
  payload_exceeds not_utf8 trailing_bytes too_many_entries not_json : ProtocolError
  empty_frame frame_too_large : ProtocolError
  unknown_sync unknown_auth unknown_type : ℕ → ProtocolError

abbrev pub Parse : Type 0 → Type 0
Parse A = Result ProtocolError A

-- The loop of `encode_var_uint`: `while value > 0x7F`, `value //= 128`.
unfoldable pub encode_loop : Bytes → (value : ℕ) → Acc ◌<◌ value → Bytes
encode_loop encoded value (Acc.intro _ below) =
    dite (dec_lt 0x7f value)
      (λ more.
        encode_loop (encoded ++ (bit_or (low_bits value 7) 0x80 ∷ [])) (value / 128)
          (below (value / 128) (omega arith)))
      (λ _. encoded ++ (value ∷ []))

unfoldable pub Acc-lt : (bound n : ℕ) → n < bound → Acc ◌<◌ n
Acc-lt zero n h = elim h [ ]
Acc-lt (suc bound) n h = Acc.intro n (λ m hm. Acc-lt bound m (omega arith))

unfoldable pub encode_var_uint : ℕ → Parse Bytes
encode_var_uint value =
    raise_if (ltb max_safe_integer value) unsafe_value
    >> ok (encode_loop [] value (Acc-lt (suc value) value (omega arith)))

-- The loop of `decode_var_uint` over the bytes of the frame from `offset` on.
unfoldable pub decode_loop : Bytes → (offset value multiplier bytes_read : ℕ) → Parse (ℕ × ℕ)
decode_loop [] offset value multiplier bytes_read = err truncated
decode_loop (byte ∷ bytes) offset value multiplier bytes_read =
    let read = bytes_read + 1 in
    let total = value + low_bits byte 7 * multiplier in
    let more = decode_loop bytes (offset + 1) total (multiplier * 128) read in
    if ltb 8 read
    then err too_many_bytes
    else if ltb max_safe_integer total
    then err unsafe_integer
    else if ltb byte 0x80
    then ok (total, offset + 1)
    else more

unfoldable pub decode_var_uint : Bytes → ℕ → Parse (ℕ × ℕ)
decode_var_uint bytes offset =
    raise_if (ltb (length bytes) offset) offset_outside
    >> decode_loop (drop offset bytes) offset 0 1 0

unfoldable pub encode_var_bytes : Bytes → Parse Bytes
encode_var_bytes value = do prefix ← encode_var_uint (length value); ok (prefix ++ value)

-- `data[offset:end]`
abbrev slice : Bytes → ℕ → ℕ → Bytes
slice bytes start end = take (end - start) (drop start bytes)

unfoldable pub decode_var_bytes : Bytes → ℕ → Parse (Bytes × ℕ)
decode_var_bytes bytes offset = do
  (size, start) ← decode_var_uint bytes offset
  raise_if (ltb (length bytes) (start + size)) payload_exceeds
  ok (slice bytes start (start + size), start + size)

-- `_ensure_finished`
unfoldable pub ensure_finished : Bytes → ℕ → Parse (Unit {0})
ensure_finished bytes offset = raise_if (not (offset == length bytes)) trailing_bytes
