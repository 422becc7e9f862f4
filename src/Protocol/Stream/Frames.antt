-- ===== src/Protocol/Stream/Frames.antt =====
-- One round of the stream decoder: how it depends on the bytes that follow, and that it is safe.
use mq_project.Prelude.{
  ℕ, ◌+◌, ◌≤◌, ◌<◌, ◌≡◌, ◌≢◌, ◌⊎◌, inl, inr, refl, arith, Option, none, some, length, ltb, true,
  Bool-cases, ltb→le, ◌++◌, take, length-append, take-append_le, drop-append_le, length-drop,
}
use mq_project.Bytes.{Bytes, All, IsByte}
use mq_project.Bytes.Laws.{
  get16_within, get32_within, get16-append_le, get16_bound, get32-append_le,
}
use mq_project.Protocol.Codec.{Request, Error, Outcome, ok, fail, fault}
use mq_project.Protocol.Codec.Safety.{decode_request-ne-fault}
use mq_project.Protocol.Stream.{cut_frame, sized_frame, next_frame, buffer_limit}

-- A long enough buffer, or one for which a round only waits.
long_or_short : (xs : Bytes) (n : ℕ) → (ltb (length xs) n ≡ true) ⊎ (n ≤ length xs)
long_or_short xs n = elim (Bool-cases (ltb (length xs) n)) [
  | inl short ↦ inl short
  | inr long ↦ inr (ltb→le (length xs) n long)
]

module _ (buffer more : Bytes) where
  sized_frame-append_some :
      (plo : ℕ) (r : Request) (left : Bytes)
      → sized_frame buffer plo ≡ ok (some (r, left))
      → sized_frame (buffer ++ more) plo ≡ ok (some (r, left ++ more))
  unfolding sized_frame cut_frame
  sized_frame-append_some plo r left e = elim (long_or_short buffer (plo + 4)) [
    | inl short ↦ ground arith
    | inr long ↦
        let (n, d) = get32_within buffer plo long in
        ground (
          arith,
          length-append buffer more,
          get32-append_le buffer more plo long,
          take-append_le (plo + 4 + n) buffer more,
          drop-append_le (plo + 4 + n) buffer more,
        )
  ]

  sized_frame-append_fail :
      (plo : ℕ) (x : Option Error)
      → sized_frame buffer plo ≡ fail x
      → sized_frame (buffer ++ more) plo ≡ fail x
  unfolding sized_frame cut_frame
  sized_frame-append_fail plo x e = elim (long_or_short buffer (plo + 4)) [
    | inl short ↦ ground arith
    | inr long ↦
        let (n, d) = get32_within buffer plo long in
        ground (
          arith,
          length-append buffer more,
          get32-append_le buffer more plo long,
          take-append_le (plo + 4 + n) buffer more,
        )
  ]

  -- A round decides a frame from its own bytes: what follows it joins the rest.
  pub next_frame-append_some :
      (r : Request) (left : Bytes)
      → next_frame buffer ≡ ok (some (r, left))
      → next_frame (buffer ++ more) ≡ ok (some (r, left ++ more))
  unfolding next_frame
  next_frame-append_some r left e = elim (long_or_short buffer 20) [
    | inl short ↦ ground arith
    | inr long ↦
        let (m, d0) = get16_within buffer 0 (omega arith) in
        let (n, d14) = get16_within buffer 14 (omega arith) in
        ground (
          arith,
          length-append buffer more,
          get16-append_le buffer more 0 (omega arith),
          get16-append_le buffer more 14 (omega arith),
          sized_frame-append_some (16 + n) r left,
        )
  ]

  -- More bytes do not mend a broken frame.
  pub next_frame-append_fail :
      (x : Option Error) → next_frame buffer ≡ fail x → next_frame (buffer ++ more) ≡ fail x
  unfolding next_frame
  next_frame-append_fail x e = elim (long_or_short buffer 20) [
    | inl short ↦ ground arith
    | inr long ↦
        let (m, d0) = get16_within buffer 0 (omega arith) in
        let (n, d14) = get16_within buffer 14 (omega arith) in
        ground (
          arith,
          length-append buffer more,
          get16-append_le buffer more 0 (omega arith),
          get16-append_le buffer more 14 (omega arith),
          sized_frame-append_fail (16 + n) x,
        )
  ]

sized_frame-ne-fault : (buffer : Bytes) (plo : ℕ) → sized_frame buffer plo ≢ fault
unfolding sized_frame cut_frame
sized_frame-ne-fault buffer plo e = elim (long_or_short buffer (plo + 4)) [
  | inl short ↦ ground arith
  | inr long ↦
      let (n, d) = get32_within buffer plo long in
      ground (arith, decode_request-ne-fault (take (plo + 4 + n) buffer))
]

-- No bytes make a round read past the buffer.
pub next_frame-ne-fault : (buffer : Bytes) → next_frame buffer ≢ fault
unfolding next_frame
next_frame-ne-fault buffer e = elim (long_or_short buffer 20) [
  | inl short ↦ ground arith
  | inr long ↦
      let (m, d0) = get16_within buffer 0 (omega arith) in
      let (n, d14) = get16_within buffer 14 (omega arith) in
      ground (arith, sized_frame-ne-fault buffer (16 + n))
]

sized_frame_takes :
    (buffer : Bytes) (plo : ℕ) (r : Request) (left : Bytes)
    → sized_frame buffer plo ≡ ok (some (r, left))
    → length left + plo + 4 ≤ length buffer
unfolding sized_frame cut_frame
sized_frame_takes buffer plo r left e = elim (long_or_short buffer (plo + 4)) [
  | inl short ↦ ground arith
  | inr long ↦
      let (n, d) = get32_within buffer plo long in ground (arith, length-drop (plo + 4 + n) buffer)
]

-- A request takes at least the 20 bytes of an empty frame off the buffer.
pub next_frame_takes :
    (buffer : Bytes) (r : Request) (left : Bytes)
    → next_frame buffer ≡ ok (some (r, left))
    → length left + 20 ≤ length buffer
unfolding next_frame
next_frame_takes buffer r left e = elim (long_or_short buffer 20) [
  | inl short ↦ ground arith
  | inr long ↦
      let (m, d0) = get16_within buffer 0 (omega arith) in
      let (n, d14) = get16_within buffer 14 (omega arith) in
      ground (arith, sized_frame_takes buffer (16 + n) r left)
]

-- A buffer that waits holds less than the longest frame.
sized_frame_waits :
    (buffer : Bytes) (plo : ℕ)
    → plo + 4 ≤ 65555
    → sized_frame buffer plo ≡ ok none
    → length buffer < buffer_limit
unfolding sized_frame cut_frame
sized_frame_waits buffer plo h e = elim (long_or_short buffer (plo + 4)) [
  | inl short ↦ ground arith
  | inr long ↦ let (n, d) = get32_within buffer plo long in ground arith
]

pub next_frame_waits :
    (buffer : Bytes)
    → All IsByte buffer
    → next_frame buffer ≡ ok none
    → length buffer < buffer_limit
unfolding next_frame
next_frame_waits buffer v e = elim (long_or_short buffer 20) [
  | inl short ↦ ground arith
  | inr long ↦
      let (m, d0) = get16_within buffer 0 (omega arith) in
      let (n, d14) = get16_within buffer 14 (omega arith) in
      ground (arith, sized_frame_waits buffer (16 + n), get16_bound buffer 14 n v d14)
]

-- The three ways that a round goes.
pub next_frame_cases :
    (buffer : Bytes)
    → (next_frame buffer ≡ ok none)
      ⊎ ((r : Request) × (left : Bytes) × (next_frame buffer ≡ ok (some (r, left))))
      ⊎ ((x : Option Error) × (next_frame buffer ≡ fail x))
next_frame_cases buffer = split (next_frame buffer) (next_frame-ne-fault buffer)
  where
    split :
        (o : Outcome (Option (Request × Bytes)))
        → o ≢ fault
        → (o ≡ ok none)
          ⊎ ((r : Request) × (left : Bytes) × (o ≡ ok (some (r, left))))
          ⊎ ((x : Option Error) × (o ≡ fail x))
    split (ok none) h = inl refl
    split (ok (some (r, left))) h = inr (inl (r, left, refl))
    split (fail x) h = inr (inr (x, refl))
    split fault h = absurd (h refl)
