-- ===== src/Lib0/Bounds.antt =====
-- What any successful read of protocol.py implies, well formed or not, and that a read does not look
-- past what it takes.
use code_collaborator.Base.{
  ℕ, zero, suc, ◌+◌, ◌-◌, ◌*◌, ◌%◌, ◌≤◌, ◌<◌, ◌≡◌, refl, ap, sym, ◌∙◌, arith, [], ◌∷◌, ◌++◌, length,
  ltb, ltb-false, ok, drop, take, length-append, length-drop, length-take, >>=-eq-ok,
  raise_if-eq-ok, raise_if,
}
use code_collaborator.Lib0.{
  Bytes, max_safe_integer, decode_loop, decode_var_uint, decode_var_bytes, slice,
}

decode_loop_bounds :
    (bytes : Bytes) (offset value multiplier read : ℕ) {v next : ℕ}
    → decode_loop bytes offset value multiplier read ≡ ok (v, next)
    → (v ≤ max_safe_integer)
      × (offset < next)
      × (next + read ≤ offset + 8)
      × (next ≤ offset + length bytes)
unfolding decode_loop
decode_loop_bounds [] offset value multiplier read e = cc
decode_loop_bounds (b ∷ bytes) offset value multiplier read {v} {next} e = ground (
  arith,
  decode_loop_bounds bytes (offset + 1) (value + b % 128 * multiplier) (multiplier * 128) (read + 1)
      {v = v} {next = next},
)

-- A decoded integer is JavaScript-safe; it takes 1 to 8 bytes, all inside the frame.
pub decode_var_uint_bounds :
    (bytes : Bytes) (offset : ℕ) {v next : ℕ}
    → decode_var_uint bytes offset ≡ ok (v, next)
    → (v ≤ max_safe_integer) × (offset < next) × (next ≤ offset + 8) × (next ≤ length bytes)
unfolding decode_var_uint
decode_var_uint_bounds bytes offset e =
    let (_, inside, read) = >>=-eq-ok (raise_if (ltb (length bytes) offset) _) _ e in
    let starts = raise_if-eq-ok _ _ inside in
    let (safe, later, short, fits) = decode_loop_bounds (drop offset bytes) offset 0 1 0 read in
    let offset_in : offset ≤ length bytes = ground arith in
    (safe, later, omega arith, omega (arith, length-drop offset bytes))

pub decode_var_bytes_bounds :
    (bytes : Bytes) (offset : ℕ) {value : Bytes} {next : ℕ}
    → decode_var_bytes bytes offset ≡ ok (value, next)
    → (offset + length value < next) × (next ≤ length bytes)
unfolding decode_var_bytes
decode_var_bytes_bounds bytes offset {value} {next} e =
    let ((size, start), read, e1) = >>=-eq-ok (decode_var_uint bytes offset) _ e in
    let (_, inside, e2) = >>=-eq-ok (raise_if (ltb (length bytes) (start + size)) _) _ e1 in
    let (safe, later, short, fits) = decode_var_uint_bounds bytes offset read in
    let fits_end : start + size ≤ length bytes = ground (arith, raise_if-eq-ok _ _ inside) in
    let value_is : slice bytes start (start + size) ≡ value = cc e2 in
    let next_is : start + size ≡ next = cc e2 in
    let measured : length value ≡ size =
      ap length (sym value_is)
      ∙ omega
          (arith, length-take (start + size - start) (drop start bytes), length-drop start bytes) in
    omega arith

drop-append_le : (n : ℕ) (xs ys : Bytes) → n ≤ length xs → drop n (xs ++ ys) ≡ drop n xs ++ ys
drop-append_le zero xs ys h = refl
drop-append_le (suc n) [] ys h = absurd (omega arith)
drop-append_le (suc n) (x ∷ xs) ys h = drop-append_le n xs ys (omega arith)

take-append_le : (n : ℕ) (xs ys : Bytes) → n ≤ length xs → take n (xs ++ ys) ≡ take n xs
take-append_le zero xs ys h = refl
take-append_le (suc n) [] ys h = absurd (omega arith)
take-append_le (suc n) (x ∷ xs) ys h = ap (λ t. x ∷ t) (take-append_le n xs ys (omega arith))

decode_loop-append :
    (bytes more : Bytes) (offset value multiplier read : ℕ) {r : ℕ × ℕ}
    → decode_loop bytes offset value multiplier read ≡ ok r
    → decode_loop (bytes ++ more) offset value multiplier read ≡ ok r
unfolding decode_loop
decode_loop-append [] more offset value multiplier read e = cc
decode_loop-append (b ∷ bytes) more offset value multiplier read {r} e = ground (
  arith,
  decode_loop-append bytes more (offset + 1) (value + b % 128 * multiplier) (multiplier * 128)
      (read + 1) {r = r},
)

-- Bytes added behind the frame do not change a read that succeeded.
pub decode_var_uint-append :
    (bytes more : Bytes) (offset : ℕ) {r : ℕ × ℕ}
    → decode_var_uint bytes offset ≡ ok r
    → decode_var_uint (bytes ++ more) offset ≡ ok r
unfolding decode_var_uint
decode_var_uint-append bytes more offset e =
    let (_, inside, read) = >>=-eq-ok (raise_if (ltb (length bytes) offset) _) _ e in
    let offset_in : offset ≤ length bytes = ground (arith, raise_if-eq-ok _ _ inside) in
    let fits : offset ≤ length (bytes ++ more) = omega (arith, length-append bytes more) in
    rw (ltb-false (length (bytes ++ more)) offset fits, drop-append_le offset bytes more offset_in)
      (decode_loop-append (drop offset bytes) more offset 0 1 0 read)

pub decode_var_bytes-append :
    (bytes more : Bytes) (offset : ℕ) {r : Bytes × ℕ}
    → decode_var_bytes bytes offset ≡ ok r
    → decode_var_bytes (bytes ++ more) offset ≡ ok r
unfolding decode_var_bytes
decode_var_bytes-append bytes more offset {r} e =
    let ((size, start), read, e1) = >>=-eq-ok (decode_var_uint bytes offset) _ e in
    let (_, inside, e2) = >>=-eq-ok (raise_if (ltb (length bytes) (start + size)) _) _ e1 in
    let fits_end : start + size ≤ length bytes = ground (arith, raise_if-eq-ok _ _ inside) in
    let fits : start + size ≤ length (bytes ++ more) = omega (arith, length-append bytes more) in
    let room : start + size - start ≤ length (drop start bytes) =
      omega (arith, length-drop start bytes) in
    rw
      (
        decode_var_uint-append bytes more offset read,
        ltb-false (length (bytes ++ more)) (start + size) fits,
        drop-append_le start bytes more (omega arith),
        take-append_le (start + size - start) (drop start bytes) more room,
      )
      e2
