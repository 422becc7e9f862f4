-- ===== src/Server/ReplicationClient.antt =====
-- `ReplicationClient` of src/server/replication_client.cc: what a broker asks of another one. The resolver
-- and the socket of each call are the parameter `network`.
pub mod Fetch
pub mod Append
pub mod Ballot
pub mod Entering
use mq_project.Prelude.{
  ℕ, zero, suc, ◌+◌, ◌/◌, ◌%◌, ◌^◌, Bool, true, false, not, ◌&&◌, ◌||◌, Option, none, some, List,
  [], ◌∷◌, ◌++◌, length, take, ltb, ◌==◌, if◌then◌else◌,
}
use mq_project.Bytes.{Bytes, put16, put32, put64, get32, get64}
use mq_project.Protocol.Command
use mq_project.Protocol.Status
use mq_project.Protocol.Flag
use mq_project.Protocol.Codec
use mq_project.Protocol.Codec.{
  Request, Response, current_version, max_payload_bytes, encode_request, decode_response,
}
use mq_project.Core.Storage.{Message}
use mq_project.Client.{read_message}
use mq_project.Server.Replication.{is_nil}

-- The texts of `error_`; the codec's are passed on.
pub data Error : Type 0 where
  no_token socket_failed resolve_failed connect_failed response_failed request_rejected : Error
  invalid_fetch_count invalid_fetch_response invalid_node_id invalid_vote_response : Error
  of_codec : Codec.Error → Error

-- `error` is `none` for the empty text.
pub record ReplicationClient : Type 0 where
  pub host : Bytes
  pub port : ℕ
  pub timeout_ms : ℕ
  pub auth_token : Bytes
  pub request_id : ℕ
  pub error : Option Error

-- The constructor.
unfoldable pub create : Bytes → ℕ → ℕ → Bytes → ReplicationClient
create host port timeout_ms auth_token = record {
  host = host;
  port = port;
  timeout_ms = if timeout_ms == 0 then 1000 else timeout_ms;
  auth_token = auth_token;
  request_id = 1;
  error = none;
}

-- How far a connection gets. One that is made sends a frame and yields the bytes that come back until it
-- ends, or fails to send (`none`).
pub data Connection : Type 0 where
  no_socket unresolved unconnected : Connection
  connected : (Bytes → Option Bytes) → Connection

-- From the host, the port and the timeout.
abbrev pub Network : Type 0
Network = Bytes → ℕ → ℕ → Connection

-- `answered` is `true` with the payload of the response, `refused` is `false`; `faulted` is a read out of
-- bounds.
pub data Called : Type 0 where
  answered : Bytes → Called
  refused : Called
  faulted : Called

-- The token in front of the payload.
abbrev pub authenticate : Bytes → Bytes → Bytes
authenticate auth_token payload = put16 [] (length auth_token % 2 ^ 16) ++ auth_token ++ payload

unfoldable pub call_request : ℕ → Bytes → Bytes → Bool → ReplicationClient → Request
call_request command topic payload term_payload c = record {
  version = current_version;
  command = command;
  request_id = c.request_id;
  flags = if term_payload then Flag.replication + Flag.replication_term else Flag.replication;
  topic = topic;
  payload = authenticate c.auth_token payload;
}

-- The frame of the response among the bytes that come back, if it is whole.
unfoldable pub receive : Bytes → Option Bytes
receive received = if ltb (length received) 18 then none else elim (get32 received 14) [
  | none ↦ none
  | some payload_size ↦
      if ltb max_payload_bytes payload_size || ltb (length received) (18 + payload_size)
      then none
      else some (take (18 + payload_size) received)
]

abbrev pub or_failed : Option Error → Option Error
or_failed none = some response_failed
or_failed (some e) = some e

abbrev pub or_kept : Option Error → Option Codec.Error → Option Error
or_kept kept none = kept
or_kept kept (some e) = some (of_codec e)

-- The checks of a decoded response.
unfoldable pub accept : ℕ → ReplicationClient → Codec.Outcome Response → Called × ReplicationClient
accept request_id c Codec.fault = (faulted, c)
accept request_id c (Codec.fail e) = (refused, record c { error = or_failed (or_kept c.error e) })
accept request_id c (Codec.ok response) =
    if not (response.request_id == request_id)
    then (refused, record c { error = or_failed c.error })
    else (if not (response.status == Status.ok)
        then (refused, record c { error = some request_rejected })
        else (answered response.payload, record c { error = none }))

-- What follows the connection; `c` has counted the request already.
unfoldable pub exchange :
    (Bytes → Option Bytes) → Request → ReplicationClient → Called × ReplicationClient
unfolding receive accept
exchange send request c = elim (encode_request request) [
  | Codec.fault ↦ (faulted, c)
  | Codec.fail e ↦ (refused, record c { error = or_failed c.error })
  | Codec.ok frame ↦ elim (send frame) [
    | none ↦ (refused, record c { error = or_failed c.error })
    | some received ↦ elim (receive received) [
      | none ↦ (refused, record c { error = or_failed c.error })
      | some full ↦ accept request.request_id c (decode_response full)
    ]
  ]
]

unfoldable pub call :
    Network → ℕ → Bytes → Bytes → Bool → ReplicationClient → Called × ReplicationClient
unfolding call_request exchange
call network command topic payload term_payload c =
    if is_nil c.auth_token || ltb 65535 (length c.auth_token)
    then (refused, record c { error = some no_token })
    else elim (network c.host c.port c.timeout_ms) [
      | no_socket ↦ (refused, record c { error = some socket_failed })
      | unresolved ↦ (refused, record c { error = some resolve_failed })
      | unconnected ↦ (refused, record c { error = some connect_failed })
      | connected send ↦
          exchange send (call_request command topic payload term_payload c)
            (record c { request_id = (c.request_id + 1) % 2 ^ 64 })
    ]

-- The result of an operation: `none` is a read out of bounds.
abbrev pub is_answered : Called → Option Bool
is_answered (answered payload) = some true
is_answered refused = some false
is_answered faulted = none

abbrev pub is_success : Called → Bool
is_success (answered payload) = true
is_success refused = false
is_success faulted = false

-- What is in the string for the response after `Call`, which assigns it just before it returns true; `before`
-- is what was in it.
abbrev pub response_of : Bytes → Called → Bytes
response_of before (answered payload) = payload
response_of before refused = before
response_of before faulted = before
