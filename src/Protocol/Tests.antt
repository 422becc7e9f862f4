-- ===== src/Protocol/Tests.antt =====
-- The protocol's theorems at concrete frames.
use mq_project.Prelude.{◌≡◌, ◌≢◌, refl, arith, List, [], ◌∷◌}
use mathlib.Core.List.{flatten}
use mq_project.Bytes.{Bytes}
use mq_project.Protocol.Codec.{
  Request, Response, ok, fault, encode_request, decode_request, IsRequest, IsResponse,
}
use mq_project.Protocol.Codec.RoundTrip.{decode-encode_request}
use mq_project.Protocol.Codec.Safety.{decode_request-ne-fault}
use mq_project.Protocol.Stream.{kept, push, next_frame}
use mq_project.Protocol.Stream.Loop.{Ends, push-Ends}
use mq_project.Protocol.Stream.Chunks.{push_all, push_all-flatten, push_all-stream_of, stream_of}

-- A produce request to the topic `t`.
abbrev produce : Request
produce = record {
  version = 1;
  command = 1;
  request_id = 258;
  flags = 2;
  topic = 0x74 ∷ [];
  payload = 7 ∷ 8 ∷ [];
}

abbrev heartbeat : Request
heartbeat = record { version = 1; command = 3; request_id = 9; flags = 0; topic = []; payload = [] }

abbrev reply : Response
reply = record { version = 1; status = 0; request_id = 258; flags = 0; payload = 5 ∷ [] }

produce-IsRequest : IsRequest produce
produce-IsRequest = ground arith

heartbeat-IsRequest : IsRequest heartbeat
heartbeat-IsRequest = ground arith

reply-IsResponse : IsResponse reply
reply-IsResponse = ground arith

decode-encode_request_example :
    (frame : Bytes) × (encode_request produce ≡ ok frame) × (decode_request frame ≡ ok produce)
decode-encode_request_example = decode-encode_request produce produce-IsRequest

abbrev cut : List Bytes
cut =
    (0x4D ∷ 0x51 ∷ 1 ∷ 1 ∷ [])
    ∷ (0 ∷ 0 ∷ 0 ∷ 0 ∷ 0 ∷ 0 ∷ 1 ∷ 2 ∷ 0 ∷ 2 ∷ 0 ∷ 1 ∷ 0x74 ∷ 0 ∷ 0 ∷ [])
    ∷ (0 ∷ 2 ∷ 7 ∷ 8 ∷ 0x4D ∷ [])
    ∷ (0x51 ∷ 1 ∷ 3 ∷ 0 ∷ 0 ∷ 0 ∷ 0 ∷ 0 ∷ 0 ∷ 0 ∷ 9 ∷ 0 ∷ 0 ∷ 0 ∷ 0 ∷ 0 ∷ 0 ∷ 0 ∷ 0 ∷ [])
    ∷ []

abbrev both : List Request
both = produce ∷ heartbeat ∷ []

cut-stream : flatten cut ≡ stream_of both
unfolding flatten
cut-stream = refl

push_all-stream_of_example : push_all [] cut [] ≡ kept both []
push_all-stream_of_example =
    push_all-stream_of both cut (produce-IsRequest, (heartbeat-IsRequest, tt)) cut-stream
      (omega arith)

push_all-flatten_example : push_all [] cut [] ≡ push [] (flatten cut) []
unfolding next_frame flatten
push_all-flatten_example = push_all-flatten cut [] [] refl (omega arith)

abbrev produced : Bytes
produced = 1 ∷ 1 ∷ 0 ∷ 0 ∷ 0 ∷ 0 ∷ 0 ∷ 0 ∷ 1 ∷ 2 ∷ 0 ∷ 2 ∷ 0 ∷ 1 ∷ 0x74 ∷ 0 ∷ 0 ∷ 0 ∷ 2 ∷ 7 ∷ 8 ∷ []

push-Ends_example : Ends 23 (heartbeat ∷ []) (push (0x4D ∷ 0x51 ∷ []) (produced) (heartbeat ∷ []))
push-Ends_example = push-Ends (0x4D ∷ 0x51 ∷ []) produced (heartbeat ∷ [])

decode_request-ne-fault_example : decode_request (0x4D ∷ 0x51 ∷ []) ≢ fault
decode_request-ne-fault_example = decode_request-ne-fault (0x4D ∷ 0x51 ∷ [])
