-- ===== src/Protocol/Stream.antt =====
-- `RequestStreamDecoder::Push` of src/protocol/protocol_codec.cc: frames cut out of a byte stream.
pub mod Frames
pub mod Loop
pub mod Chunks
use mq_project.Prelude.{
  ℕ, zero, suc, ◌+◌, ◌-◌, Option, none, some, List, [], ◌∷◌, ◌++◌, length, take, drop, Bool, ltb,
  leb, ◌==◌, ◌||◌, if◌then◌else◌,
}
use mq_project.Bytes.{Bytes, get16, get32}
use mq_project.Protocol.Codec.{
  Request, Error, Outcome, ok, fail, fault, ◌>>=◌, ◌>>◌, read, check, magic, max_payload_bytes,
  decode_request, stream_exceeds_limit, invalid_stream_header, invalid_stream_payload_length,
}

-- The buffer never holds more than this.
abbrev pub buffer_limit : ℕ
buffer_limit = max_payload_bytes + 65555

-- The last part of a round: `frame_size` is known.
unfoldable pub cut_frame : Bytes → ℕ → Outcome (Option (Request × Bytes))
cut_frame buffer frame_size = if ltb (length buffer) frame_size then ok none else do
  request ← decode_request (take frame_size buffer)
  ok (some (request, drop frame_size buffer))

-- The middle part: the length of the topic is known.
unfoldable pub sized_frame : Bytes → ℕ → Outcome (Option (Request × Bytes))
sized_frame buffer payload_length_offset =
    if ltb (length buffer) (payload_length_offset + 4) then ok none else do
      payload_len ← read (get32 buffer payload_length_offset)
      check (leb payload_len max_payload_bytes) (some invalid_stream_payload_length)
      check (leb payload_len (buffer_limit - (payload_length_offset + 4)))
          (some invalid_stream_payload_length)
      cut_frame buffer (payload_length_offset + 4 + payload_len)

-- One round of the loop: `none` where it waits for more bytes, else a request and the buffer
-- behind its frame.
unfoldable pub next_frame : Bytes → Outcome (Option (Request × Bytes))
next_frame buffer = if ltb (length buffer) 20 then ok none else do
  m ← read (get16 buffer 0)
  check (m == magic) (some invalid_stream_header)
  topic_len ← read (get16 buffer 14)
  sized_frame buffer (16 + topic_len)

-- What a call leaves: `true` with the requests so far and the bytes kept, or `false` with the
-- requests so far and an empty buffer. `stuck` is a loop that runs out of fuel.
pub data Pushed : Type 0 where
  kept : List Request → Bytes → Pushed
  rejected : List Request → Option Error → Pushed
  faulted stuck : Pushed

-- The loop. Each round that goes on takes at least 20 bytes off the buffer.
pub drain : ℕ → Bytes → List Request → Pushed
drain zero buffer requests = stuck
drain (suc fuel) buffer requests = elim (next_frame buffer) [
  | ok next ↦ elim next [
    | none ↦ kept requests buffer
    | some (request, left) ↦ drain fuel left (requests ++ request ∷ [])
  ]
  | fail e ↦ rejected requests e
  | fault ↦ faulted
]

-- The first check of `Push`.
abbrev pub over_limit : Bytes → Bytes → Bool
over_limit buffer bytes =
    ltb buffer_limit (length bytes) || ltb (buffer_limit - length bytes) (length buffer)

unfoldable pub push : Bytes → Bytes → List Request → Pushed
unfolding drain
push buffer bytes requests =
    if over_limit buffer bytes
    then rejected requests (some stream_exceeds_limit)
    else drain (suc (length (buffer ++ bytes))) (buffer ++ bytes) requests
