-- ===== src/Client/Call/Tests.antt =====
-- Runs of `MqProducer::Impl::Call`, src/client/mq_client.cc, and the theorems at concrete inputs.
use mq_project.Prelude.{
  ℕ, zero, suc, ◌^◌, ◌<◌, ◌≡◌, refl, subst, sym, ap, ◌∙◌, arith, true, false, Option, none, some,
  List, [], ◌∷◌, ◌==◌, get_elem?, if◌then◌else◌,
}
use mq_project.Bytes.{Bytes, get16, get32, get64}
use mq_project.Protocol.Status
use mq_project.Protocol.Codec
use mq_project.Protocol.Codec.{
  Request, Response, response_frame, request_frame, IsRequest, IsResponse, decode_request,
  encode_request, decode_response,
}
use mq_project.Protocol.Codec.RoundTrip.{decode-request_frame}
use mq_project.Client.Call.{World, Caller, returned, call, rounds, authenticated, connect_host}
use mq_project.Client.Call.Answers.{IsAnswer, call-IsAnswer}
use mq_project.Client.Call.Failover.{Cluster, with_id, repeat, call-leader, connect_host-endpoints}

abbrev topic_list : Request
topic_list = record {
  version = 1;
  command = 5;
  request_id = 0;
  flags = 0;
  topic = 0x61 ∷ [];
  payload = [];
}

-- The broker at port 1 leads.
abbrev answer_of : ℕ → ℕ → Response
answer_of i id = record {
  version = 1;
  status = if i == 1 then Status.ok else Status.not_leader;
  request_id = id;
  flags = 0;
  payload = [];
}

abbrev reply : ℕ → Codec.Outcome Request → Option Bytes
reply port Codec.fault = none
reply port (Codec.fail e) = none
reply port (Codec.ok r) = some (response_frame (answer_of port r.request_id))

abbrev brokers : World
brokers = record {
  reaches = λ host port. true;
  exchange = λ host port frame. reply port (decode_request frame);
}

abbrev two : List (Bytes × ℕ)
two = (0x68 ∷ [], 0) ∷ (0x68 ∷ [], 1) ∷ []

abbrev caller : Caller
caller = record {
  is_open = false;
  host = [];
  port = 0;
  endpoints = two;
  endpoint_index = 0;
  request_id = 1;
  backoff = 100;
  error = none;
  auth_token = 0x74 ∷ [];
}

abbrev after : Caller
after = record caller {
  is_open = true;
  host = 0x68 ∷ [];
  port = 1;
  endpoint_index = 1;
  request_id = 3;
}

run : call (repeat 2 brokers) topic_list caller ≡ (returned (answer_of 1 2), after)
unfolding call rounds encode_request decode_request get16 get32 get64 decode_response
run = refl

call-IsAnswer_example : IsAnswer (answer_of 1 2) after
call-IsAnswer_example = call-IsAnswer (repeat 2 brokers) topic_list caller (answer_of 1 2) after run

port_of : Option (Bytes × ℕ) → ℕ
port_of none = 0
port_of (some (host, port)) = port

IsSome : Option (Bytes × ℕ) → Type 0
IsSome none = ⊥
IsSome (some e) = Unit

sendable : (id : ℕ) → id < 2 ^ 64 → IsRequest (with_id (authenticated topic_list caller) id)
unfolding authenticated
sendable id fits = record {
  current = refl;
  id_fits = fits;
  flags_fit = omega arith;
  topic_fits = omega arith;
  payload_fits = omega arith;
}

ports : (i : ℕ) (host : Bytes) (port : ℕ) → get_elem? two i ≡ some (host, port) → i ≡ port
unfolding port_of IsSome
ports zero host port at = ap port_of at
ports (suc zero) host port at = ap port_of at
ports (suc (suc i)) host port at = absurd (subst IsSome (sym at) tt)

follows : (i id : ℕ) → (i ≡ 1 → ⊥) → (answer_of i id).status ≡ Status.not_leader
follows i id other = ground arith

cluster : Cluster brokers (authenticated topic_list caller) two 1 answer_of
cluster = record {
  several = omega arith;
  within = omega arith;
  reached = λ host port. refl;
  sendable = sendable;
  responds = λ i id host port fits at.
      ap (reply port)
        (decode-request_frame (with_id (authenticated topic_list caller) id) (sendable id fits))
      ∙ ap (λ j. some (response_frame (answer_of j id))) (sym (ports i host port at));
  decodable = λ i id fits. record {
    current = refl;
    id_fits = fits;
    flags_fit = omega arith;
    payload_fits = omega arith;
  };
  same_id = λ i id. refl;
  leads = λ id. refl;
  follows = λ i id other. follows i id other;
}

call-leader_example :
    (id : ℕ) × (c' : Caller) × (call (repeat 2 brokers) topic_list caller
      ≡ (returned (answer_of 1 id), c'))
call-leader_example =
    call-leader brokers topic_list 1 answer_of caller cluster (omega arith) refl (omega arith)
      (omega arith)

connect_host-endpoints_example :
    (connect_host brokers (0x69 ∷ []) 7 (record caller { endpoints = (0x68 ∷ [], 5) ∷ [] })).0
      ≡ true
    × (connect_host brokers
        (0x69 ∷ [])
        7
        (record caller { endpoints = (0x68 ∷ [], 5) ∷ [] })).1.host
      ≡ 0x68 ∷ []
    × (connect_host brokers
        (0x69 ∷ [])
        7
        (record caller { endpoints = (0x68 ∷ [], 5) ∷ [] })).1.port
      ≡ 5
connect_host-endpoints_example =
    connect_host-endpoints brokers (0x69 ∷ []) 7 (record caller { endpoints = (0x68 ∷ [], 5) ∷ [] })
      (0x68 ∷ []) 5 refl refl refl
