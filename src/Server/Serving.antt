-- ===== src/Server/Serving.antt =====
-- A broker behind the connection of a `ReplicationClient`: the frame is decoded, handled and answered, as
-- by the handler that src/server/main.cc gives to the server of src/network/tcp_server.cc, over sockets that lose nothing.
pub mod Vote
pub mod Entries
pub mod Append
pub mod Tests
use mq_project.Prelude.{
  ℕ, ◌+◌, ◌%◌, ◌^◌, ◌<◌, ◌≤◌, ◌≡◌, refl, ap, sym, ◌∙◌, arith, Bool, true, false, not, Option, none,
  some, List, [], ◌∷◌, length, take, take_all, ltb, leb, ◌==◌, ==_iff, le→ltb, length-append,
  drop-append_left,
}
use mq_project.Bytes.{Bytes, be_bytes, get32}
use mq_project.Bytes.Laws.{get32-append}
use mq_project.Protocol.Status
use mq_project.Protocol.Codec
use mq_project.Protocol.Codec.{
  Request, Response, IsRequest, IsResponse, encode_request, decode_request, encode_response,
  decode_response, request_frame, response_frame, max_payload_bytes,
}
use mq_project.Protocol.Codec.RoundTrip.{
  encode_request-IsRequest, request_frame-Reads, decode_request-Reads, encode_response-IsResponse,
  response_frame-ReadsResponse, decode_response-ReadsResponse,
}
use mq_project.Server.Broker.{Broker}
use mq_project.Server.Broker.Access.{admitted, admit}
use mq_project.Server.Broker.Dispatch.{
  Context, count_request, count_command, dispatch, answer, handle_admitted, handle,
}
use mq_project.Server.Broker.Reply.{make_response}
use mq_project.Server.ReplicationClient.{
  Network, connected, answered, call, ReplicationClient, Called, call_request, receive, accept,
  exchange,
}
use mq_project.Server.ReplicationClient.Entering.{
  Trusts, is_call, length-authenticate, admit-call_request,
}

abbrev encoded : Option Response → Option Bytes
encoded none = none
encoded (some response) = elim (encode_response response) [
  | Codec.ok frame ↦ some frame
  | Codec.fail e ↦ none
  | Codec.fault ↦ none
]

-- What comes back for a frame.
pub serve : Context → Broker → Bytes → Option Bytes
serve x b frame = elim (decode_request frame) [
  | Codec.ok request ↦ encoded (handle x request b).0
  | Codec.fail e ↦ none
  | Codec.fault ↦ none
]

receive-response_frame :
    (r : Response) → IsResponse r → receive (response_frame r) ≡ some (response_frame r)
unfolding receive
receive-response_frame r v =
    let frame : Bytes = response_frame r in
    let reads = response_frame-ReadsResponse r v in
    rw (le→ltb (length frame) 18 (omega (arith, reads.total))) (
      rw reads.payload_length_read (
        rw (le→ltb max_payload_bytes (length r.payload) v.payload_fits) (
          rw (le→ltb (length frame) (18 + length r.payload) (omega (arith, reads.total)))
            (ap some (take_all (18 + length r.payload) frame (omega (arith, reads.total)))))))

-- A request that is answered comes back as it was answered.
pub exchange-serve :
    (x : Context) (b : Broker) (request : Request) (response : Response) (c : ReplicationClient)
    → IsRequest request
    → IsResponse response
    → (handle x request b).0 ≡ some response
    → exchange (serve x b) request c ≡ accept request.request_id c (Codec.ok response)
unfolding exchange serve
exchange-serve x b request response c v w h =
    rw (encode_request-IsRequest request v, exchange)
      (rw
        (
          decode_request-Reads (request_frame request) request (request_frame-Reads request v),
          serve,
        )
        (rw h (
          rw (encode_response-IsResponse response w) (
            rw (receive-response_frame response w) (
              rw
                (decode_response-ReadsResponse (response_frame response) response
                  (response_frame-ReadsResponse response w))
                refl)))))

-- A call gets to its handler.
pub handle-call_request :
    (x : Context) (command : ℕ) (topic payload : Bytes) (term : Bool) (b : Broker)
    (c : ReplicationClient)
    → Trusts b c
    → is_call command term ≡ true
    → let r = call_request command topic payload term c in
      handle x r b
      ≡ answer
          (record r { payload = payload })
          (dispatch x (record r { payload = payload }) (count_command r (count_request b)))
unfolding handle handle_admitted
handle-call_request x command topic payload term b c v h =
    rw
      (admit-call_request command topic payload (count_request b) c
        (record {
          opened = v.opened;
          configured = v.configured;
          same_token = v.same_token;
          some_token = v.some_token;
          token_fits = v.token_fits;
        })
        term h)
      refl

abbrev pub after_call : ReplicationClient → ReplicationClient
after_call c = record c { request_id = (c.request_id + 1) % 2 ^ 64; error = none }

call_request-IsRequest :
    (command : ℕ) (topic payload : Bytes) (term : Bool) (b : Broker) (c : ReplicationClient)
    → Trusts b c
    → c.request_id < 2 ^ 64
    → length topic ≤ 65535
    → 2 + length c.auth_token + length payload ≤ max_payload_bytes
    → IsRequest (call_request command topic payload term c)
unfolding call_request
call_request-IsRequest command topic payload true b c v i t p = record {
  current = refl;
  id_fits = i;
  flags_fit = omega arith;
  topic_fits = t;
  payload_fits = omega (arith, p, length-authenticate c.auth_token payload v.token_fits);
}
call_request-IsRequest command topic payload false b c v i t p = record {
  current = refl;
  id_fits = i;
  flags_fit = omega arith;
  topic_fits = t;
  payload_fits = omega (arith, p, length-authenticate c.auth_token payload v.token_fits);
}

-- A call that the other broker answers with success ends with its answer.
pub call-serve :
    (network : Network) (x : Context) (command : ℕ) (topic payload result : Bytes) (term : Bool)
    (b : Broker) (c : ReplicationClient)
    → network c.host c.port c.timeout_ms ≡ connected (serve x b)
    → Trusts b c
    → c.request_id < 2 ^ 64
    → length topic ≤ 65535
    → 2 + length c.auth_token + length payload ≤ max_payload_bytes
    → length result ≤ max_payload_bytes
    → let r = call_request command topic payload term c in
      (handle x r b).0 ≡ some (make_response r Status.ok result)
      → call network command topic payload term c ≡ (answered result, after_call c)
unfolding call accept call_request
call-serve network x command topic payload result term b c link v id t p q h =
    let r = call_request command topic payload term c in
    let response = make_response r Status.ok result in
    let w : IsResponse response = record {
      current = refl;
      id_fits = id;
      flags_fit = omega arith;
      payload_fits = q;
    } in
    rw v.some_token (
      rw (le→ltb 65535 (length c.auth_token) v.token_fits) (
        rw (link, call)
          (rw
            (exchange-serve x b r response (record c { request_id = (c.request_id + 1) % 2 ^ 64 })
              (call_request-IsRequest command topic payload term b c v id t p) w h)
            (rw ((==_iff c.request_id c.request_id).1 refl) refl))))
