-- ===== src/Protocol/Stream/Chunks.antt =====
-- However the network cuts a stream of requests, the decoder finds the same requests.
use mq_project.Prelude.{
  ℕ, zero, suc, ◌+◌, ◌≤◌, ◌<◌, ◌≡◌, ◌∙◌, ap, inl, inr, refl, sym, arith, none, some, length, List,
  ◌++◌, [], ◌∷◌, append_assoc, append-nil, length-append, take_all, drop_all, false,
}
use mathlib.Core.List.{flatten}
use mq_project.Bytes.{Bytes, All}
use mq_project.Protocol.Codec.{Request, ok, IsRequest, request_frame}
use mq_project.Protocol.Codec.RoundTrip.{decode_request-Reads, request_frame-Reads}
use mq_project.Protocol.Stream.{
  Pushed, kept, rejected, faulted, stuck, cut_frame, sized_frame, next_frame, drain, buffer_limit,
  push, over_limit,
}
use mq_project.Protocol.Stream.Frames.{
  next_frame_cases, next_frame_takes, next_frame-append_some, next_frame-append_fail,
}
use mq_project.Protocol.Stream.Loop.{Ends, drain_fuel, push-Ends}

-- One call after the other, until one of them fails.
unfoldable pub push_all : Bytes → List Bytes → List Request → Pushed
push_all buffer [] requests = kept requests buffer
push_all buffer (chunk ∷ chunks) requests = elim (push buffer chunk requests) [
  | kept requests' buffer' ↦ push_all buffer' chunks requests'
  | p ↦ p
]

-- What is left after some bytes, and then gets more of them.
abbrev resume : Bytes → Pushed → Pushed
resume more (kept requests left) = drain (suc (length (left ++ more))) (left ++ more) requests
resume more p = p

drain-append :
    (f g : ℕ) (buffer more : Bytes) (before : List Request)
    → length buffer < f
    → length (buffer ++ more) < g
    → drain g (buffer ++ more) before ≡ resume more (drain f buffer before)
unfolding drain
drain-append zero g buffer more before h k = absurd (omega arith)
drain-append (suc f) zero buffer more before h k = absurd (omega arith)
drain-append (suc f) (suc g) buffer more before h k = elim (next_frame_cases buffer) [
  | inl e ↦
      rw (e, drain)
        (drain_fuel (suc g) (suc (length (buffer ++ more))) (buffer ++ more) before k (omega arith))
  | inr (inl (r, left, e)) ↦
      let shorter = next_frame_takes buffer r left e in
      rw (e, drain)
        (rw (next_frame-append_some buffer more r left e, drain)
          (drain-append f g left more (before ++ r ∷ []) (omega arith)
            (omega (arith, length-append left more, length-append buffer more))))
  | inr (inr (x, e)) ↦ rw (e, drain) (rw (next_frame-append_fail buffer more x e, drain))
]

-- The limit leaves a call alone that stays within it.
within_limit :
    (buffer bytes : Bytes)
    → length buffer + length bytes ≤ buffer_limit
    → over_limit buffer bytes ≡ false
within_limit buffer bytes h = ground arith

push-drain :
    (buffer bytes : Bytes) (before : List Request)
    → length buffer + length bytes ≤ buffer_limit
    → push buffer bytes before ≡ drain (suc (length (buffer ++ bytes))) (buffer ++ bytes) before
unfolding push
push-drain buffer bytes before h = rw (within_limit buffer bytes h)

-- Two calls do what one call with both chunks does.
push-append :
    (buffer x y : Bytes) (before : List Request)
    → length buffer + length x + length y ≤ buffer_limit
    → push buffer (x ++ y) before ≡ resume y (push buffer x before)
push-append buffer x y before h =
    rw
      (
        push-drain buffer (x ++ y) before (omega (arith, length-append x y)),
        push-drain buffer x before (omega arith),
        ← append_assoc buffer x y,
      )
      (drain-append (suc (length (buffer ++ x))) (suc (length (buffer ++ x ++ y))) (buffer ++ x) y
        before (omega arith) (omega arith))

-- `Push` in any number of calls keeps the same requests and bytes, or fails alike, as `Push` of the
-- whole in one call, as long as the whole fits the buffer.
pub push_all-flatten :
    (chunks : List Bytes) (buffer : Bytes) (before : List Request)
    → next_frame buffer ≡ ok none
    → length buffer + length (flatten chunks) ≤ buffer_limit
    → push_all buffer chunks before ≡ push buffer (flatten chunks) before
unfolding push_all flatten drain
push_all-flatten [] buffer before w h =
    sym (rw (push-drain buffer [] before (omega arith), append-nil) (rw (w, drain)))
push_all-flatten (chunk ∷ chunks) buffer before w h =
    split (push buffer chunk before) refl (push-Ends buffer chunk before) (push_all-flatten chunks)
  where
    rest : Bytes
    rest = flatten chunks

    split :
        (p : Pushed)
        → push buffer chunk before ≡ p
        → Ends (length buffer + length chunk) before p
        → ((b : Bytes) (rs : List Request)
            → next_frame b ≡ ok none
            → length b + length rest ≤ buffer_limit
            → push_all b chunks rs ≡ push b rest rs)
        → push_all buffer (chunk ∷ chunks) before ≡ push buffer (chunk ++ rest) before
    split (kept requests left) e (got, w', l) ih =
        let room : length buffer + length chunk + length rest ≤ buffer_limit =
          omega (arith, length-append chunk rest) in
        rw (e, push_all)
          (rw (push-append buffer chunk rest before room, e)
            (ih left requests w' (omega arith) ∙ push-drain left rest requests (omega arith)))
    split (rejected requests x) e v ih =
        rw (e, push_all)
          (rw (push-append buffer chunk rest before (omega (arith, length-append chunk rest)), e))
    split faulted e v ih = absurd v
    split stuck e v ih = absurd v

-- The bytes that a client sends for some requests.
abbrev pub stream_of : List Request → Bytes
stream_of [] = []
stream_of (r ∷ rs) = request_frame r ++ stream_of rs

-- A whole frame is cut off, whatever follows it.
pub next_frame-request_frame :
    (r : Request) (rest : Bytes)
    → IsRequest r
    → next_frame (request_frame r ++ rest) ≡ ok (some (r, rest))
unfolding next_frame sized_frame cut_frame
next_frame-request_frame r rest v = next_frame-append_some (request_frame r) rest r [] alone
  where
    alone : next_frame (request_frame r) ≡ ok (some (r, []))
    alone =
        let f = request_frame-Reads r v in
        ground (
          arith,
          v.topic_fits,
          take_all (16 + length r.topic + 4 + length r.payload) (request_frame r),
          drop_all (16 + length r.topic + 4 + length r.payload) (request_frame r),
          decode_request-Reads (request_frame r) r f,
          f.long,
          f.magic_read,
          f.topic_length_read,
          f.total,
          f.payload_length_read,
          f.payload_fits,
        )

drain-stream_of :
    (fuel : ℕ) (rs before : List Request)
    → All IsRequest rs
    → length (stream_of rs) < fuel
    → drain fuel (stream_of rs) before ≡ kept (before ++ rs) []
unfolding drain next_frame
drain-stream_of zero rs before v h = absurd (omega arith)
drain-stream_of (suc fuel) [] before v h = ap (λ q. kept q []) (sym (append-nil before))
drain-stream_of (suc fuel) (r ∷ rs) before v h =
    let e = next_frame-request_frame r (stream_of rs) v.0 in
    let shorter = next_frame_takes (request_frame r ++ stream_of rs) r (stream_of rs) e in
    rw (e, drain)
      (drain-stream_of fuel rs (before ++ r ∷ []) v.1 (omega arith)
        ∙ ap (λ q. kept q []) (append_assoc before (r ∷ []) rs))

-- Requests that are sent as their frames come out of the decoder, all and in order, however the
-- stream is cut into calls, and leave its buffer empty. The stream has to fit the buffer as a whole.
pub push_all-stream_of :
    (rs : List Request) (chunks : List Bytes)
    → All IsRequest rs
    → flatten chunks ≡ stream_of rs
    → length (stream_of rs) ≤ buffer_limit
    → push_all [] chunks [] ≡ kept rs []
unfolding next_frame
push_all-stream_of rs chunks v e h =
    push_all-flatten chunks [] [] refl (rw e (omega arith))
    ∙ ap (λ b. push [] b []) e
    ∙ push-drain [] (stream_of rs) [] (omega arith)
    ∙ drain-stream_of (suc (length (stream_of rs))) rs [] v (omega arith)
