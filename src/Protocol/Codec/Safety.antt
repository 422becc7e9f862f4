-- ===== src/Protocol/Codec/Safety.antt =====
-- The decoders on any bytes, well formed or not.
use mq_project.Prelude.{
  ◌+◌, ◌≤◌, ◌≢◌, inl, inr, arith, length, ltb, Bool-cases, ltb→le, get_elem?-some,
}
use mq_project.Bytes.{Bytes}
use mq_project.Bytes.Laws.{get16_within, get32_within, get64_within}
use mq_project.Protocol.Codec.{fault, decode_request, decode_response}

-- No input, however cut or forged, makes `DecodeRequest` read past the end of the frame.
pub decode_request-ne-fault : (frame : Bytes) → decode_request frame ≢ fault
unfolding decode_request
decode_request-ne-fault frame e = elim (Bool-cases (ltb (length frame) 20)) [
  | inl short ↦ ground arith
  | inr long ↦
      let h : 20 ≤ length frame = ltb→le (length frame) 20 long in
      let (tl, e14) = get16_within frame 14 (omega arith) in
      let (m, e0) = get16_within frame 0 (omega arith) in
      let (v, e2) = get_elem?-some frame 2 (omega arith) in
      let (c, e3) = get_elem?-some frame 3 (omega arith) in
      let (i, e4) = get64_within frame 4 (omega arith) in
      let (g, e12) = get16_within frame 12 (omega arith) in
      ground (arith, get32_within frame (16 + tl))
]

-- Nor does `DecodeResponse`.
pub decode_response-ne-fault : (frame : Bytes) → decode_response frame ≢ fault
unfolding decode_response
decode_response-ne-fault frame e = elim (Bool-cases (ltb (length frame) 18)) [
  | inl short ↦ ground arith
  | inr long ↦
      let h : 18 ≤ length frame = ltb→le (length frame) 18 long in
      let (n, e14) = get32_within frame 14 (omega arith) in
      let (m, e0) = get16_within frame 0 (omega arith) in
      let (v, e2) = get_elem?-some frame 2 (omega arith) in
      let (c, e3) = get_elem?-some frame 3 (omega arith) in
      let (i, e4) = get64_within frame 4 (omega arith) in
      let (g, e12) = get16_within frame 12 (omega arith) in ground arith
]
