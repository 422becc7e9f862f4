-- ===== src/Client/Call.antt =====
-- `MqProducer::Impl` of src/client/mq_client.cc without TLS: the endpoints, the connection, and a request
-- that is sent until it is answered. The other end of the sockets is a parameter.
pub mod Answers
pub mod Failover
mod Tests
use mq_project.Prelude.{
  ℕ, zero, suc, ◌+◌, ◌*◌, ◌%◌, ◌^◌, Bool, true, false, not, ◌&&◌, Option, none, some, List, [], ◌∷◌,
  ◌++◌, length, take, ltb, ◌==◌, get_elem?, bit_or, if◌then◌else◌,
}
use mq_project.Bytes.{Bytes, put16, get32}
use mq_project.Protocol.Flag
use mq_project.Protocol.Status
use mq_project.Protocol.Codec
use mq_project.Protocol.Codec.{
  Request, Response, current_version, max_payload_bytes, encode_request, decode_response,
}
use mq_project.Client.Producer.{is_nothing}

-- The texts of `error` that this code sets; the codec's are passed on.
pub data Error : Type 0 where
  token_too_long timed_out payload_too_large id_mismatch : Error
  of_codec : Codec.Error → Error

-- `error` is `none` for the empty text. An open socket leads to `host` and `port`.
pub record Caller : Type 0 where
  pub is_open : Bool
  pub host : Bytes
  pub port : ℕ
  pub endpoints : List (Bytes × ℕ)
  pub endpoint_index : ℕ
  pub request_id : ℕ
  pub backoff : ℕ
  pub error : Option Error
  pub auth_token : Bytes

-- The other end during one attempt: whether a host and port can be connected to, and which bytes come back
-- for a frame that is sent there until no more come (`none` if it cannot be sent).
pub record World : Type 0 where
  pub reaches : Bytes → ℕ → Bool
  pub exchange : Bytes → ℕ → Bytes → Option Bytes

abbrev pub close : Caller → Caller
close c = record c { is_open = false }

abbrev pub next_endpoint : Caller → ℕ
next_endpoint c = (c.endpoint_index + 1) % length c.endpoints

-- The loop over the endpoints: `count` are left, after `attempt`.
pub try_endpoints : World → ℕ → ℕ → Caller → Bool × Caller
try_endpoints w attempt zero c = (false, record c { endpoint_index = next_endpoint c })
try_endpoints w attempt (suc count) c =
    let index = (c.endpoint_index + attempt) % length c.endpoints in
    elim (get_elem? c.endpoints index) [
      | none ↦ (false, c)
      | some (host, port) ↦
          let c' = record c { host = host; port = port } in
          let rest = try_endpoints w (attempt + 1) count c' in
          if w.reaches host port
          then (true, record c' { is_open = true; endpoint_index = index })
          else rest
    ]

-- The host that was given is the only endpoint if there is none.
abbrev pub own_endpoint : Caller → List (Bytes × ℕ)
own_endpoint c = if is_nothing c.host then [] else (c.host, c.port) ∷ []

abbrev pub is_empty : List (Bytes × ℕ) → Bool
is_empty [] = true
is_empty (e ∷ es) = false

unfoldable pub connect : World → Caller → Bool × Caller
unfolding try_endpoints
connect w c =
    if c.is_open
    then (true, c)
    else (let c' = record c {
      endpoints = if is_empty c.endpoints then own_endpoint c else c.endpoints;
    } in
        if is_empty c'.endpoints then (false, c') else try_endpoints w 0 (length c'.endpoints) c')

-- `MqProducer::connect` with one host, and with several.
unfoldable pub connect_host : World → Bytes → ℕ → Caller → Bool × Caller
unfolding connect
connect_host w host port c = connect w (record c { host = host; port = port; is_open = false })

unfoldable pub connect_endpoints : World → List (Bytes × ℕ) → Caller → Bool × Caller
unfolding connect
connect_endpoints w endpoints c =
    if is_empty endpoints
    then (false, c)
    else connect w (record c { endpoints = endpoints; endpoint_index = 0; is_open = false })

-- The token in front of the payload.
unfoldable pub authenticated : Request → Caller → Request
authenticated r c = if is_nothing c.auth_token then r else record r {
  payload = put16 [] (length c.auth_token % 2 ^ 16) ++ c.auth_token ++ r.payload;
  flags = bit_or r.flags Flag.authentication;
}

-- What one attempt comes to: `again` is the next round of the loop, `faulted` a read out of bounds.
pub data Attempt : Type 0 where
  again faulted : Attempt
  answered : Response → Attempt

pub data Received : Type 0 where
  cut too_large : Received
  whole : Bytes → Received

-- The frame of the response among the bytes that come back.
unfoldable pub receive : Bytes → Received
receive received = if ltb (length received) 18 then cut else elim (get32 received 14) [
  | none ↦ cut
  | some payload_size ↦
      if ltb max_payload_bytes payload_size
      then too_large
      else (if ltb (length received) (18 + payload_size)
          then cut
          else whole (take (18 + payload_size) received))
]

abbrev pub or_kept : Option Error → Option Codec.Error → Option Error
or_kept kept none = kept
or_kept kept (some e) = some (of_codec e)

-- The checks of a decoded response to the request of this id.
unfoldable pub accept : ℕ → Codec.Outcome Response → Caller → Attempt × Caller
accept request_id Codec.fault c = (faulted, c)
accept request_id (Codec.fail e) c = (again, close (record c { error = or_kept c.error e }))
accept request_id (Codec.ok response) c =
    if not (response.request_id == request_id)
    then (again, close (record c { error = some id_mismatch }))
    else (if response.status == Status.not_leader && ltb 1 (length c.endpoints)
        then (again, close (record c { endpoint_index = next_endpoint c }))
        else (answered response, record c { backoff = 100 }))

unfoldable pub respond : ℕ → Received → Caller → Attempt × Caller
unfolding accept
respond request_id cut c = (again, close c)
respond request_id too_large c = (again, close (record c { error = some payload_too_large }))
respond request_id (whole frame) c = accept request_id (decode_response frame) c

unfoldable pub sent : ℕ → Option Bytes → Caller → Attempt × Caller
unfolding receive respond
sent request_id none c = (again, close c)
sent request_id (some received) c = respond request_id (receive received) c

unfoldable pub send_frame : World → ℕ → Codec.Outcome Bytes → Caller → Attempt × Caller
unfolding sent
send_frame w request_id Codec.fault c = (faulted, c)
send_frame w request_id (Codec.fail e) c = (again, close c)
send_frame w request_id (Codec.ok frame) c = sent request_id (w.exchange c.host c.port frame) c

-- A request over the connection that `c` has; the id is counted.
unfoldable pub send : World → Request → Caller → Attempt × Caller
unfolding send_frame
send w r c =
    send_frame w c.request_id (encode_request (record r { request_id = c.request_id }))
      (record c { request_id = (c.request_id + 1) % 2 ^ 64 })

-- The wait doubles up to 30 seconds.
unfoldable pub back_off : Caller → Caller
back_off c = record c { backoff = if ltb (c.backoff * 2) 30000 then c.backoff * 2 else 30000 }

unfoldable pub after_connect : World → Request → Bool × Caller → Attempt × Caller
unfolding send back_off
after_connect w r (true, c) = send w r c
after_connect w r (false, c) = (again, back_off c)

unfoldable pub one_round : World → Request → Caller → Attempt × Caller
unfolding connect after_connect
one_round w r c = after_connect w r (connect w c)

-- The result of `Call`: `none` is `false`.
pub data Called : Type 0 where
  refused faulted : Called
  returned : Response → Called

abbrev pub after_round : (Caller → Called × Caller) → Attempt × Caller → Called × Caller
after_round rest (again, c) = rest c
after_round rest (faulted, c) = (faulted, c)
after_round rest (answered response, c) = (returned response, c)

-- The rounds of the loop that begin before the deadline.
pub rounds : List World → Request → Caller → Called × Caller
unfolding one_round
rounds [] r c = (refused, record c { error = some timed_out })
rounds (w ∷ ws) r c = after_round (rounds ws r) (one_round w r c)

abbrev pub is_some : Option Bytes → Bool
is_some none = false
is_some (some received) = true

unfoldable pub call : List World → Request → Caller → Called × Caller
unfolding authenticated
call ws r c =
    if not (is_nothing c.auth_token) && ltb 65535 (length c.auth_token)
    then (refused, record c { error = some token_too_long })
    else rounds ws (authenticated r c) c

abbrev pub is_sent : Codec.Outcome Bytes → Bytes → ℕ → World → Bool
is_sent (Codec.ok frame) host port w = is_some (w.exchange host port frame)
is_sent (Codec.fail e) host port w = false
is_sent Codec.fault host port w = false

unfoldable pub send_only : World → Request → Bool × Caller → Bool × Caller
send_only w r (false, c) = (false, c)
send_only w r (true, c) = (
  is_sent (encode_request (record r { request_id = c.request_id })) c.host c.port w,
  close (record c { request_id = (c.request_id + 1) % 2 ^ 64 }),
)

-- `SendWithoutResponse`.
unfoldable pub send_without_response : World → Request → Caller → Bool × Caller
unfolding authenticated connect send_only
send_without_response w r c =
    if not (is_nothing c.auth_token) && ltb 65535 (length c.auth_token)
    then (false, record c { error = some token_too_long })
    else send_only w (authenticated r c) (connect w c)
