-- ===== src/Lib0/Reading.antt =====
-- Reading at an offset of a frame (protocol.py): the decoders against what stands at the offset, and
-- what any successful read implies.
use code_collaborator.Base.{
  ℕ, ◌+◌, ◌≤◌, ◌≡◌, refl, ap, ap₂, subst, sym, append-nil, ◌∙◌, arith, [], ◌++◌, append_assoc,
  length, ltb-false, ok, drop, take, drop-add, length-append, drop-length-append, >>=-eq-ok,
  take-length-append,
}
use code_collaborator.Lib0.{
  Bytes, max_safe_integer, encode_var_uint, decode_var_uint, encode_var_bytes, decode_var_bytes,
  ensure_finished, slice,
}
use code_collaborator.Lib0.VarUint.{
  groups, encode_var_uint-groups, encode_var_uint-safe, decode_loop-groups,
}

-- `rest` is what the bytes hold from the offset on.
abbrev pub At : Bytes → ℕ → Bytes → Type 0
At bytes offset rest = (length bytes ≡ offset + length rest) × (drop offset bytes ≡ rest)

pub At-start : (bytes : Bytes) → At bytes 0 bytes
At-start bytes = (omega arith, refl)

pub At-prefix : (xs rest : Bytes) → At (xs ++ rest) (length xs) rest
At-prefix xs rest = (length-append xs rest, drop-length-append xs rest)

pub At-skip :
    (bytes xs rest : Bytes) (offset : ℕ)
    → At bytes offset (xs ++ rest)
    → At bytes (offset + length xs) rest
At-skip bytes xs rest offset at = (
  omega (arith, at.0, length-append xs rest),
  drop-add offset (length xs) bytes ∙ ap (drop (length xs)) at.1 ∙ drop-length-append xs rest,
)

-- A value that was written as its groups is read back from any place of a frame.
pub decode_var_uint-At :
    (bytes : Bytes) (offset v : ℕ) (rest : Bytes)
    → v ≤ max_safe_integer
    → At bytes offset (groups 7 v ++ rest)
    → decode_var_uint bytes offset ≡ ok (v, offset + length (groups 7 v))
unfolding decode_var_uint
decode_var_uint-At bytes offset v rest hv at =
    rw (ltb-false (length bytes) offset (omega (arith, at.0)), at.1)
      (decode_loop-groups 7 v 0 1 offset 0 rest (omega arith) (omega arith) (omega arith)
        ∙ ap (λ (n : ℕ). ok (n, offset + length (groups 7 v))) (omega arith))

-- The bytes that `encode_var_bytes` writes.
unfoldable pub var_bytes : Bytes → Bytes
var_bytes value = groups 7 (length value) ++ value

pub encode_var_bytes-var_bytes :
    (value : Bytes)
    → length value ≤ max_safe_integer
    → encode_var_bytes value ≡ ok (var_bytes value)
unfolding encode_var_bytes var_bytes
encode_var_bytes-var_bytes value h = rw (encode_var_uint-groups (length value) h)

-- What stands at the end of the bytes, with nothing after it.
pub At-last : (bytes xs : Bytes) (offset : ℕ) → At bytes offset xs → At bytes offset (xs ++ [])
At-last bytes xs offset at = subst (At bytes offset) (sym (append-nil xs)) at

pub At-end : (bytes xs : Bytes) (offset : ℕ) → At bytes offset xs → At bytes (offset + length xs) []
At-end bytes xs offset at = At-skip bytes xs [] offset (At-last bytes xs offset at)

pub At-assoc :
    (bytes xs ys zs : Bytes) (offset : ℕ)
    → At bytes offset ((xs ++ ys) ++ zs)
    → At bytes offset (xs ++ (ys ++ zs))
At-assoc bytes xs ys zs offset at = subst (At bytes offset) (append_assoc xs ys zs) at

slice-At :
    (bytes value rest : Bytes) (start : ℕ)
    → At bytes start (value ++ rest)
    → slice bytes start (start + length value) ≡ value
slice-At bytes value rest start at = ap₂ take (omega arith) at.1 ∙ take-length-append value rest

decode_var_bytes_step :
    (bytes : Bytes) (offset start : ℕ) (value rest : Bytes)
    → decode_var_uint bytes offset ≡ ok (length value, start)
    → At bytes start (value ++ rest)
    → decode_var_bytes bytes offset ≡ ok (value, start + length value)
unfolding decode_var_bytes
decode_var_bytes_step bytes offset start value rest read at =
    let fits : start + length value ≤ length bytes =
      omega (arith, at.0, length-append value rest) in
    rw (read, ltb-false (length bytes) (start + length value) fits)
      (ap (λ v. ok (v, start + length value)) (slice-At bytes value rest start at))

-- A byte string that was written with its length is read back from any place of a frame.
pub decode_var_bytes-At :
    (bytes : Bytes) (offset : ℕ) (value rest : Bytes)
    → length value ≤ max_safe_integer
    → At bytes offset (var_bytes value ++ rest)
    → decode_var_bytes bytes offset ≡ ok (value, offset + length (var_bytes value))
unfolding var_bytes
decode_var_bytes-At bytes offset value rest h at =
    let prefix = groups 7 (length value) in
    let whole = At-assoc bytes prefix value rest offset at in
    decode_var_bytes_step bytes offset (offset + length prefix) value rest
      (decode_var_uint-At bytes offset (length value) (value ++ rest) h whole)
      (At-skip bytes prefix (value ++ rest) offset whole)
    ∙ ap (λ n. ok (value, n)) (omega (arith, length-append prefix value))

pub ensure_finished-At_end :
    (bytes : Bytes) (offset : ℕ) → At bytes offset [] → ensure_finished bytes offset ≡ ok tt
unfolding ensure_finished
ensure_finished-At_end bytes offset at = ground (arith, at.0)

-- What a successful encoding says of its input and of the bytes written.
pub encode_var_uint-eq_ok :
    (v : ℕ) {bytes : Bytes}
    → encode_var_uint v ≡ ok bytes
    → (v ≤ max_safe_integer) × (bytes ≡ groups 7 v)
encode_var_uint-eq_ok v e =
    let safe = encode_var_uint-safe v e in (safe, cc (encode_var_uint-groups v safe))

pub encode_var_bytes-eq_ok :
    (value : Bytes) {bytes : Bytes}
    → encode_var_bytes value ≡ ok bytes
    → (length value ≤ max_safe_integer) × (bytes ≡ var_bytes value)
unfolding encode_var_bytes
encode_var_bytes-eq_ok value e =
    let (prefix, read, _) = >>=-eq-ok (encode_var_uint (length value)) _ e in
    let (safe, _) = encode_var_uint-eq_ok (length value) read in
    (safe, cc (encode_var_bytes-var_bytes value safe, e))
