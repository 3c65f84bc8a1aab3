-- ===== src/Worker/Output/Accepted.antt =====
-- The limits of backend/app/execution/worker.py on output that is not decoded.
use code_collaborator.Base.{
  ℕ, zero, suc, ◌+◌, ◌-◌, ◌≡◌, refl, ◌∙◌, ap, sym, ap₂, subst, arith, Bool, true, false, ◌&&◌, not,
  List, [], ◌∷◌, ◌++◌, append_assoc, append-nil, length, take, ltb, length-append, length-take,
  Bool-cases, inl, inr, if◌then◌else◌,
}
use code_collaborator.Lib0.{Bytes}
use code_collaborator.Worker.Output.{
  Stream, stdout, stderr, same_stream, Published, printed, notice, Emission, printed_if_any,
  notice_if, emit, emit_all, input_of, published_of, notices_of,
}

-- Output that is not decoded.
abbrev pub raw : Bytes → Bytes
raw bytes = bytes

published_of-append :
    (s : Stream) (xs ys : List (Published Bytes))
    → published_of s (xs ++ ys) ≡ published_of s xs ++ published_of s ys
published_of-append s [] ys = refl
published_of-append s (printed stream bytes ∷ xs) ys = elim (Bool-cases (same_stream stream s)) [
  | inl e ↦ rw e (
      ap (λ (l : Bytes). bytes ++ l) (published_of-append s xs ys)
      ∙ sym (append_assoc bytes (published_of s xs) (published_of s ys)))
  | inr e ↦ rw e (published_of-append s xs ys)
]
published_of-append s (notice stream ∷ xs) ys = published_of-append s xs ys

notices_of-append :
    (s : Stream) (xs ys : List (Published Bytes))
    → notices_of s (xs ++ ys) ≡ notices_of s xs + notices_of s ys
notices_of-append s [] ys = omega arith
notices_of-append s (printed stream bytes ∷ xs) ys = notices_of-append s xs ys
notices_of-append s (notice stream ∷ xs) ys = ground (arith, notices_of-append s xs ys)

published_of-printed :
    (s stream : Stream) (bytes : Bytes)
    → published_of s (printed_if_any raw stream bytes)
      ≡ (if same_stream stream s then bytes else [])
published_of-printed s stream [] = ground arith
published_of-printed s stream (b ∷ bs) = elim (Bool-cases (same_stream stream s)) [
  | inl e ↦ rw e (append-nil (b ∷ bs))
  | inr e ↦ rw e refl
]

published_of-notice : (s stream : Stream) (c : Bool) → published_of s (notice_if c stream) ≡ []
published_of-notice s stream true = refl
published_of-notice s stream false = refl

notices_of-printed :
    (s stream : Stream) (bytes : Bytes) → notices_of s (printed_if_any raw stream bytes) ≡ 0
notices_of-printed s stream [] = refl
notices_of-printed s stream (b ∷ bs) = refl

notices_of-notice :
    (s stream : Stream) (c : Bool)
    → notices_of {Text = Bytes} s (notice_if c stream)
      ≡ (if same_stream stream s && c then 1 else 0)
notices_of-notice s stream true = ground arith
notices_of-notice s stream false = ground arith

take-nil : (n : ℕ) → take {A = ℕ} n [] ≡ []
take-nil zero = refl
take-nil (suc n) = refl

suc_less : (n : ℕ) (xs : Bytes) (x : ℕ) → n - length xs ≡ suc n - length (x ∷ xs)
suc_less n xs x = omega arith

pub take-append : (n : ℕ) (xs ys : Bytes) → take n (xs ++ ys) ≡ take n xs ++ take (n - length xs) ys
take-append n [] ys =
    let e : n ≡ n - 0 = omega arith in rw (take-nil n) (ap (λ (k : ℕ). take k ys) e)
take-append zero (x ∷ xs) ys =
    let e : 0 ≡ 0 - length (x ∷ xs) = omega arith in ap (λ (k : ℕ). take k ys) e
take-append (suc n) (x ∷ xs) ys =
    ap (λ (l : Bytes). x ∷ l) (take-append n xs ys)
    ∙ ap (λ (k : ℕ). (x ∷ take n xs) ++ take k ys) (suc_less n xs x)

-- The emission of a stream after a chunk of it, as a bound for the rest.
left_over :
    (limit emitted : ℕ) (chunk : Bytes)
    → limit - (emitted + length (take (limit - emitted) chunk)) ≡ (limit - emitted) - length chunk
left_over limit emitted chunk = ground (arith, length-take (limit - emitted) chunk)

emit-published :
    (limit : ℕ) (stream s : Stream) (chunk : Bytes) (e : Emission)
    → published_of s (emit raw limit stream chunk e).0
      ≡ (if same_stream stream s then take (limit - e.emitted stream) chunk else [])
unfolding emit
emit-published limit stream s chunk e =
    let accepted = take (limit - e.emitted stream) chunk in
    published_of-append s (printed_if_any raw stream accepted) _
    ∙ ap (λ (l : Bytes). published_of s (printed_if_any raw stream accepted) ++ l)
        (published_of-notice s stream _)
    ∙ append-nil (published_of s (printed_if_any raw stream accepted))
    ∙ published_of-printed s stream accepted

emit-notices :
    (limit : ℕ) (stream s : Stream) (chunk : Bytes) (e : Emission)
    → notices_of s (emit raw limit stream chunk e).0 ≡ (
        if same_stream stream s
          && (ltb (limit - e.emitted stream) (length chunk) && not (e.truncated stream))
        then 1
        else 0)
unfolding emit
emit-notices limit stream s chunk e =
    let accepted = take (limit - e.emitted stream) chunk in
    let told = ltb (limit - e.emitted stream) (length chunk) && not (e.truncated stream) in
    let a = notices_of-append s (printed_if_any raw stream accepted) (notice_if told stream) in
    let b = notices_of-printed s stream accepted in
    let c = notices_of-notice s stream told in omega arith

same_stream_refl : (s : Stream) → same_stream s s ≡ true
same_stream_refl stdout = refl
same_stream_refl stderr = refl

same_stream→≡ : (a b : Stream) → same_stream a b ≡ true → a ≡ b
same_stream→≡ stdout stdout e = refl
same_stream→≡ stdout stderr e = cc
same_stream→≡ stderr stdout e = cc
same_stream→≡ stderr stderr e = refl

told-once :
    (left : ℕ) (told : Bool) (chunk rest : Bytes)
    → (if ltb left (length chunk) && not told then 1 else 0)
        + (if not (if ltb left (length chunk) then true else told)
              && ltb (left - length chunk) (length rest)
            then 1
            else 0)
      ≡ (if not told && ltb left (length (chunk ++ rest)) then 1 else 0)
told-once left told chunk rest = ground (arith, length-append chunk rest)

-- The emission after one round.
abbrev pub after : ℕ → Stream → Bytes → Emission → Emission
after limit stream chunk e = (emit raw limit stream chunk e).1

published-split :
    (limit : ℕ) (stream s : Stream) (chunk rest : Bytes) (e : Emission)
    → (if same_stream stream s then take (limit - e.emitted stream) chunk else [])
        ++ take (limit - (after limit stream chunk e).emitted s) rest
      ≡ take (limit - e.emitted s) (if same_stream stream s then chunk ++ rest else rest)
unfolding emit
published-split limit stream s chunk rest e = elim (Bool-cases (same_stream stream s)) [
  | inr other ↦ rw other refl
  | inl same ↦
      subst
        (λ (x : Stream).
          (if same_stream stream x then take (limit - e.emitted stream) chunk else [])
            ++ take (limit - (after limit stream chunk e).emitted x) rest
          ≡ take (limit - e.emitted x) (if same_stream stream x then chunk ++ rest else rest))
        (same_stream→≡ stream s same)
        (rw (same_stream_refl stream, left_over limit (e.emitted stream) chunk)
          (sym (take-append (limit - e.emitted stream) chunk rest)))
]

pub emit_all-published :
    (limit : ℕ) (s : Stream) (chunks : List (Stream × Bytes)) (e : Emission)
    → published_of s (emit_all raw limit chunks e) ≡ take (limit - e.emitted s) (input_of s chunks)
unfolding emit_all
emit_all-published limit s [] e = sym (take-nil (limit - e.emitted s))
emit_all-published limit s ((stream, chunk) ∷ chunks) e =
    let events = (emit raw limit stream chunk e).0 in
    let next = after limit stream chunk e in
    published_of-append s events (emit_all raw limit chunks next)
    ∙ ap₂ (λ (a b : Bytes). a ++ b) (emit-published limit stream s chunk e)
        (emit_all-published limit s chunks next)
    ∙ published-split limit stream s chunk (input_of s chunks) e

notices-split :
    (limit : ℕ) (stream s : Stream) (chunk rest : Bytes) (e : Emission)
    → (if same_stream stream s
            && (ltb (limit - e.emitted stream) (length chunk) && not (e.truncated stream))
          then 1
          else 0)
        + (if not ((after limit stream chunk e).truncated s)
              && ltb (limit - (after limit stream chunk e).emitted s) (length rest)
            then 1
            else 0)
      ≡ (if not (e.truncated s)
            && ltb
                (limit - e.emitted s)
                (length (if same_stream stream s then chunk ++ rest else rest))
          then 1
          else 0)
unfolding emit
notices-split limit stream s chunk rest e = elim (Bool-cases (same_stream stream s)) [
  | inr other ↦ rw other (omega arith)
  | inl same ↦
      subst
        (λ (x : Stream).
          (if same_stream stream x
                && (ltb (limit - e.emitted stream) (length chunk) && not (e.truncated stream))
              then 1
              else 0)
            + (if not ((after limit stream chunk e).truncated x)
                  && ltb (limit - (after limit stream chunk e).emitted x) (length rest)
                then 1
                else 0)
          ≡ (if not (e.truncated x)
                && ltb (limit - e.emitted x)
                    (length (if same_stream stream x then chunk ++ rest else rest))
              then 1
              else 0))
        (same_stream→≡ stream s same)
        (rw (same_stream_refl stream, left_over limit (e.emitted stream) chunk)
          (told-once (limit - e.emitted stream) (e.truncated stream) chunk rest))
]

pub emit_all-notices :
    (limit : ℕ) (s : Stream) (chunks : List (Stream × Bytes)) (e : Emission)
    → notices_of s (emit_all raw limit chunks e) ≡ (
        if not (e.truncated s) && ltb (limit - e.emitted s) (length (input_of s chunks))
        then 1
        else 0)
unfolding emit_all
emit_all-notices limit s [] e = ground arith
emit_all-notices limit s ((stream, chunk) ∷ chunks) e =
    let events = (emit raw limit stream chunk e).0 in
    let next = after limit stream chunk e in
    notices_of-append s events (emit_all raw limit chunks next)
    ∙ ap₂ (λ (a b : ℕ). a + b) (emit-notices limit stream s chunk e)
        (emit_all-notices limit s chunks next)
    ∙ notices-split limit stream s chunk (input_of s chunks) e
