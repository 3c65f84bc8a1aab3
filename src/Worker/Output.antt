-- ===== src/Worker/Output.antt =====
-- backend/app/execution/worker.py: the limits on what a container prints, in the live stream
-- (`_stream_output`) and in the stored result (`_bounded`). `limit` is
-- `settings.execution_output_limit_bytes`.
pub mod Accepted
pub mod Limits
use code_collaborator.Base.{
  ℕ, zero, suc, ◌+◌, ◌-◌, ◌≤◌, ◌≡◌, refl, ◌∙◌, ap, sym, arith, Bool, true, false, ◌&&◌, not, List,
  [], ◌∷◌, ◌++◌, append_assoc, append-nil, length, take, ltb, ◌==◌, length-append, length-take,
  Bool-cases, inl, inr, if◌then◌else◌,
}
use code_collaborator.Lib0.{Bytes}

-- `b"\n[output truncated]\n"`
abbrev pub suffix : Bytes
suffix =
    10 ∷ 91 ∷ 111 ∷ 117 ∷ 116 ∷ 112 ∷ 117 ∷ 116 ∷ 32 ∷ 116 ∷ 114 ∷ 117 ∷ 110 ∷ 99 ∷ 97 ∷ 116 ∷ 101
    ∷ 100 ∷ 93 ∷ 10 ∷ []

-- `_bounded`, before its result is decoded.
unfoldable pub bounded : ℕ → Bytes → Bytes
bounded limit bytes =
    if ltb limit (length bytes) then take (limit - length suffix) bytes ++ suffix else bytes

pub data Stream : Type 0 where
  stdout stderr : Stream

abbrev pub same_stream : Stream → Stream → Bool
same_stream stdout stdout = true
same_stream stdout stderr = false
same_stream stderr stdout = false
same_stream stderr stderr = true

-- What `_publish_output` is called with: the text of a piece of output, or the notice.
pub data Published (Text : Type 0) : Type 0 where
  printed : Stream → Text → Published Text
  notice : Stream → Published Text

-- `emitted` and `truncated`
pub record Emission : Type 0 where
  pub emitted : Stream → ℕ
  pub truncated : Stream → Bool

abbrev pub notice_if : {Text : Type 0} → Bool → Stream → List (Published Text)
notice_if true stream = notice stream ∷ []
notice_if false stream = []

-- `decode` is `bytes.decode(errors="replace")`.
module _ {Text : Type 0} (decode : Bytes → Text) where
  abbrev pub printed_if_any : Stream → Bytes → List (Published Text)
  printed_if_any stream [] = []
  printed_if_any stream (b ∷ bs) = printed stream (decode (b ∷ bs)) ∷ []

  -- One round of the loop.
  unfoldable pub emit : ℕ → Stream → Bytes → Emission → List (Published Text) × Emission
  emit limit stream chunk e =
      let remaining = limit - e.emitted stream in
      let accepted = take remaining chunk in
      let cut = ltb remaining (length chunk) in
      (
        printed_if_any stream accepted ++ notice_if (cut && not (e.truncated stream)) stream,
        record {
          emitted =
              λ s. if same_stream stream s then e.emitted s + length accepted else e.emitted s;
          truncated = λ s. if same_stream stream s && cut then true else e.truncated s;
        },
      )

  unfoldable pub emit_all : ℕ → List (Stream × Bytes) → Emission → List (Published Text)
  emit_all limit [] e = []
  emit_all limit ((stream, chunk) ∷ chunks) e =
      let (events, e') = emit limit stream chunk e in events ++ emit_all limit chunks e'

  -- `_stream_output`, on the chunks that the producer puts into its queue.
  unfoldable pub stream_output : ℕ → List (Stream × Bytes) → List (Published Text)
  stream_output limit chunks =
      emit_all limit chunks (record { emitted = λ _. 0; truncated = λ _. false })

-- All bytes that the container printed to a stream, the texts that were published of it, and the bytes
-- where these are not decoded.
abbrev pub input_of : Stream → List (Stream × Bytes) → Bytes
input_of s [] = []
input_of s ((stream, chunk) ∷ chunks) =
    let rest = input_of s chunks in if same_stream stream s then chunk ++ rest else rest

abbrev pub texts_of : {Text : Type 0} → Stream → List (Published Text) → List Text
texts_of s [] = []
texts_of s (printed stream text ∷ events) =
    let rest = texts_of s events in if same_stream stream s then text ∷ rest else rest
texts_of s (notice stream ∷ events) = texts_of s events

abbrev pub joined : List Bytes → Bytes
joined [] = []
joined (piece ∷ pieces) = piece ++ joined pieces

abbrev pub published_of : Stream → List (Published Bytes) → Bytes
published_of s [] = []
published_of s (printed stream bytes ∷ events) =
    let rest = published_of s events in if same_stream stream s then bytes ++ rest else rest
published_of s (notice stream ∷ events) = published_of s events

abbrev pub notices_of : {Text : Type 0} → Stream → List (Published Text) → ℕ
notices_of s [] = 0
notices_of s (printed stream bytes ∷ events) = notices_of s events
notices_of s (notice stream ∷ events) =
    let rest = notices_of s events in if same_stream stream s then rest + 1 else rest
