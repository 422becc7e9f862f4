-- ===== src/Protocol/Stream/Loop.antt =====
-- The loop of the stream decoder ends, safely, on any bytes.
use mq_project.Prelude.{
  ℕ, zero, suc, ◌+◌, ◌≤◌, ◌<◌, ◌≡◌, ◌∙◌, inl, inr, sym, Bool-cases, arith, none, length, List, ◌++◌,
  [], ◌∷◌, append_assoc, append-nil, length-append,
}
use mq_project.Bytes.{Bytes}
use mq_project.Protocol.Codec.{Request, ok}
use mq_project.Protocol.Stream.{
  Pushed, kept, rejected, faulted, stuck, next_frame, drain, push, over_limit,
}
use mq_project.Protocol.Stream.Frames.{next_frame_cases, next_frame_takes}

-- The two ways that a call ends, with the requests behind those that were there before.
abbrev pub Ends : ℕ → List Request → Pushed → Type 0
Ends n before (kept requests left) =
    ((got : List Request) × (requests ≡ before ++ got))
    × (next_frame left ≡ ok none)
    × (length left ≤ n)
Ends n before (rejected requests x) = (got : List Request) × (requests ≡ before ++ got)
Ends n before faulted = ⊥
Ends n before stuck = ⊥

Ends-mono :
    (m n : ℕ) (before : List Request) (r : Request) (p : Pushed)
    → m ≤ n
    → Ends m (before ++ r ∷ []) p
    → Ends n before p
Ends-mono m n before r (kept requests left) h ((got, e), w, l) =
    ((r ∷ got, e ∙ append_assoc before (r ∷ []) got), w, omega arith)
Ends-mono m n before r (rejected requests x) h (got, e) =
    (r ∷ got, e ∙ append_assoc before (r ∷ []) got)
Ends-mono m n before r faulted h v = v
Ends-mono m n before r stuck h v = v

-- Enough fuel: more than the bytes in the buffer.
pub drain-Ends :
    (fuel : ℕ) (buffer : Bytes) (before : List Request)
    → length buffer < fuel
    → Ends (length buffer) before (drain fuel buffer before)
unfolding drain
drain-Ends zero buffer before h = absurd (omega arith)
drain-Ends (suc fuel) buffer before h = elim (next_frame_cases buffer) [
  | inl e ↦ rw (e, drain) (([], sym (append-nil before)), e, omega arith)
  | inr (inl (r, left, e)) ↦
      let shorter = next_frame_takes buffer r left e in
      rw (e, drain)
        (Ends-mono (length left) (length buffer) before r _ (omega arith)
          (drain-Ends fuel left (before ++ r ∷ []) (omega arith)))
  | inr (inr (x, e)) ↦ rw (e, drain) ([], sym (append-nil before))
]

-- Fuel beyond that changes nothing.
pub drain_fuel :
    (f g : ℕ) (buffer : Bytes) (before : List Request)
    → length buffer < f
    → length buffer < g
    → drain f buffer before ≡ drain g buffer before
unfolding drain
drain_fuel zero g buffer before h k = absurd (omega arith)
drain_fuel (suc f) zero buffer before h k = absurd (omega arith)
drain_fuel (suc f) (suc g) buffer before h k = elim (next_frame_cases buffer) [
  | inl e ↦ rw (e, drain)
  | inr (inl (r, left, e)) ↦
      let shorter = next_frame_takes buffer r left e in
      rw (e, drain) (drain_fuel f g left (before ++ r ∷ []) (omega arith) (omega arith))
  | inr (inr (x, e)) ↦ rw (e, drain)
]

-- `Push` returns for any bytes: it reads inside its buffer, ends its loop, keeps the requests that
-- it was handed at the front, and keeps back only what is no whole frame yet.
pub push-Ends :
    (buffer bytes : Bytes) (before : List Request)
    → Ends (length buffer + length bytes) before (push buffer bytes before)
unfolding push
push-Ends buffer bytes before = elim (Bool-cases (over_limit buffer bytes)) [
  | inl over ↦ rw over ([], sym (append-nil before))
  | inr fits ↦
      rw (fits, ← length-append buffer bytes)
        (drain-Ends (suc (length (buffer ++ bytes))) (buffer ++ bytes) before (omega arith))
]
