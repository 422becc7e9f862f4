-- ===== src/Protocol/Codec/RoundTrip.antt =====
-- What an encoder writes, the decoder reads back.
use mq_project.Prelude.{
  ◌+◌, ◌≤◌, ◌≡◌, refl, ap, ◌∙◌, some, [], ◌++◌, length, take, drop, get_elem?, arith, length-append,
  append_assoc, take-append_left, drop-append_left,
}
use mq_project.Bytes.{Bytes, be_bytes, get16, get32, get64}
use mq_project.Bytes.Laws.{get16-append, get32-append, get64-append}
use mq_project.Protocol.Codec.{
  Request, Response, ok, encode_request, encode_response, decode_request, decode_response,
  request_header, request_frame, response_frame, IsRequest, IsResponse, max_payload_bytes, magic,
}

pub encode_request-IsRequest : (r : Request) → IsRequest r → encode_request r ≡ ok (request_frame r)
unfolding encode_request
encode_request-IsRequest r v = ground arith

-- The reads that `decode_request` makes of a frame, and what it then returns.
pub record Reads (frame : Bytes) (r : Request) : Type 0 where
  pub long : 20 ≤ length frame
  pub magic_read : get16 frame 0 ≡ some magic
  pub version_read : get_elem? frame 2 ≡ some r.version
  pub command_read : get_elem? frame 3 ≡ some r.command
  pub id_read : get64 frame 4 ≡ some r.request_id
  pub flags_read : get16 frame 12 ≡ some r.flags
  pub topic_length_read : get16 frame 14 ≡ some (length r.topic)
  pub total : length frame ≡ 16 + length r.topic + 4 + length r.payload
  pub payload_length_read : get32 frame (16 + length r.topic) ≡ some (length r.payload)
  pub payload_fits : length r.payload ≤ max_payload_bytes
  pub topic_read : take (length r.topic) (drop 16 frame) ≡ r.topic
  pub payload_read : drop (16 + length r.topic + 4) frame ≡ r.payload

pub decode_request-Reads :
    (frame : Bytes) (r : Request) → Reads frame r → decode_request frame ≡ ok r
unfolding decode_request
decode_request-Reads frame r v = ground arith

-- Everything before the payload's length, before the payload, and after the topic.
module _ (r : Request) (v : IsRequest r) where
  abbrev named : Bytes
  named = request_header r ++ r.topic

  abbrev sized : Bytes
  sized = named ++ be_bytes 4 (length r.payload)

  length-sized : 16 + length r.topic + 4 ≡ length sized
  length-sized = omega (arith, length-append r.topic (be_bytes 4 (length r.payload)))

  payload_length_at : get32 (request_frame r) (16 + length r.topic) ≡ some (length r.payload)
  payload_length_at =
      let e : 16 + length r.topic ≡ length named = omega arith in
      ap (get32 (request_frame r)) e
      ∙ ap (λ f. get32 f (length named))
          (append_assoc named (be_bytes 4 (length r.payload)) r.payload)
      ∙ get32-append named (length r.payload) r.payload (omega (arith, v.payload_fits))

  pub request_frame-Reads : Reads (request_frame r) r
  request_frame-Reads =
      let frame : Bytes = request_frame r in
      let tail : Bytes = be_bytes 4 (length r.payload) ++ r.payload in
      let total : length frame ≡ 16 + length r.topic + 4 + length r.payload =
        omega (arith, length-append sized r.payload, length-sized) in
      record {
        long = omega arith;
        magic_read = get16-append [] magic (drop 2 frame) (omega arith);
        version_read = refl;
        command_read = refl;
        id_read = get64-append (take 4 frame) r.request_id (drop 12 frame) v.id_fits;
        flags_read = get16-append (take 12 frame) r.flags (drop 14 frame) v.flags_fit;
        topic_length_read =
            get16-append (take 14 frame) (length r.topic) (drop 16 frame) (omega arith);
        total = total;
        payload_length_read = payload_length_at;
        payload_fits = v.payload_fits;
        topic_read = rw append_assoc (take-append_left r.topic tail);
        payload_read = rw length-sized (drop-append_left sized r.payload);
      }

pub decode-request_frame : (r : Request) → IsRequest r → decode_request (request_frame r) ≡ ok r
decode-request_frame r v = decode_request-Reads (request_frame r) r (request_frame-Reads r v)

-- A request within the limits of the format is encoded, and its frame decodes to that request.
pub decode-encode_request :
    (r : Request)
    → IsRequest r
    → (frame : Bytes) × (encode_request r ≡ ok frame) × (decode_request frame ≡ ok r)
decode-encode_request r v =
    (request_frame r, encode_request-IsRequest r v, decode-request_frame r v)

pub encode_response-IsResponse :
    (r : Response) → IsResponse r → encode_response r ≡ ok (response_frame r)
unfolding encode_response
encode_response-IsResponse r v = ground arith

pub record ReadsResponse (frame : Bytes) (r : Response) : Type 0 where
  pub magic_read : get16 frame 0 ≡ some magic
  pub version_read : get_elem? frame 2 ≡ some r.version
  pub status_read : get_elem? frame 3 ≡ some r.status
  pub id_read : get64 frame 4 ≡ some r.request_id
  pub flags_read : get16 frame 12 ≡ some r.flags
  pub payload_length_read : get32 frame 14 ≡ some (length r.payload)
  pub total : length frame ≡ 18 + length r.payload
  pub payload_fits : length r.payload ≤ max_payload_bytes
  pub payload_read : drop 18 frame ≡ r.payload

pub decode_response-ReadsResponse :
    (frame : Bytes) (r : Response) → ReadsResponse frame r → decode_response frame ≡ ok r
unfolding decode_response
decode_response-ReadsResponse frame r v = ground arith

pub response_frame-ReadsResponse :
    (r : Response) → IsResponse r → ReadsResponse (response_frame r) r
response_frame-ReadsResponse r v =
    let frame : Bytes = response_frame r in
    record {
      magic_read = get16-append [] magic (drop 2 frame) (omega arith);
      version_read = refl;
      status_read = refl;
      id_read = get64-append (take 4 frame) r.request_id (drop 12 frame) v.id_fits;
      flags_read = get16-append (take 12 frame) r.flags (drop 14 frame) v.flags_fit;
      payload_length_read =
          get32-append (take 14 frame) (length r.payload) r.payload (omega (arith, v.payload_fits));
      total = omega arith;
      payload_fits = v.payload_fits;
      payload_read = refl;
    }

-- A response within the limits of the format is encoded, and its frame decodes to that response.
pub decode-encode_response :
    (r : Response)
    → IsResponse r
    → (frame : Bytes) × (encode_response r ≡ ok frame) × (decode_response frame ≡ ok r)
decode-encode_response r v = (
  response_frame r,
  encode_response-IsResponse r v,
  decode_response-ReadsResponse (response_frame r) r (response_frame-ReadsResponse r v),
)
