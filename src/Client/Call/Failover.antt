-- ===== src/Client/Call/Failover.antt =====
-- How `Call` of src/client/mq_client.cc finds the broker that leads.
use mq_project.Prelude.{
  ℕ, zero, suc, ◌+◌, ◌-◌, ◌%◌, ◌^◌, ◌≤◌, ◌<◌, ◌≡◌, refl, sym, ap, ◌∙◌, ◌⊎◌, inl, inr, if◌then◌else◌,
  le→ltb, lt→ltb, arith, Bool, true, false, not, ◌&&◌, some, List, [], ◌∷◌, length, ltb, ◌==◌,
  ==_iff, get_elem?, take_all,
}
use native.Mathlib.Nat.{mod-eq_of_lt, mod-add-mod, add-mod-mod, add-mod_right, mod-lt}
use mq_project.Bytes.{Bytes}
use mq_project.Protocol.Status
use mq_project.Protocol.Codec
use mq_project.Protocol.Codec.{
  Request, Response, response_frame, request_frame, IsRequest, IsResponse, decode_response,
  encode_request, max_payload_bytes,
}
use mq_project.Protocol.Codec.RoundTrip.{
  response_frame-ReadsResponse, decode_response-ReadsResponse, encode_request-IsRequest,
}
use mq_project.Client.Call.{
  World, Caller, again, answered, Called, whole, returned, receive, accept, respond, sent,
  send_frame, send, after_connect, one_round, after_round, rounds, connect_host, call,
  authenticated, connect, try_endpoints, close, next_endpoint, is_empty,
}
use mq_project.Client.Producer.{is_nothing}

abbrev pub with_id : Request → ℕ → Request
with_id r id = record r { request_id = id }

-- All the brokers can be reached, and each one answers this request, whatever its id: the one at `leader`
-- by something else than `kNotLeader`, the others by that.
pub record Cluster (w : World) (r : Request) (endpoints : List (Bytes × ℕ)) (leader : ℕ)
    (answer : ℕ → ℕ → Response) : Type 0 where
  pub several : 2 ≤ length endpoints
  pub within : leader < length endpoints
  pub reached : (host : Bytes) (port : ℕ) → w.reaches host port ≡ true
  pub sendable : (id : ℕ) → id < 2 ^ 64 → IsRequest (with_id r id)
  pub responds :
      (i id : ℕ) (host : Bytes) (port : ℕ)
      → id < 2 ^ 64
      → get_elem? endpoints i ≡ some (host, port)
      → w.exchange host port (request_frame (with_id r id)) ≡ some (response_frame (answer i id))
  pub decodable : (i id : ℕ) → id < 2 ^ 64 → IsResponse (answer i id)
  pub same_id : (i id : ℕ) → (answer i id).request_id ≡ id
  pub leads : (id : ℕ) → ((answer leader id).status == Status.not_leader) ≡ false
  pub follows : (i id : ℕ) → (i ≡ leader → ⊥) → (answer i id).status ≡ Status.not_leader

receive-response_frame :
    (r : Response) → IsResponse r → receive (response_frame r) ≡ whole (response_frame r)
unfolding receive
receive-response_frame r v =
    let frame : Bytes = response_frame r in
    let reads = response_frame-ReadsResponse r v in
    rw (le→ltb (length frame) 18 (omega (arith, reads.total))) (
      rw reads.payload_length_read (
        rw (le→ltb max_payload_bytes (length r.payload) v.payload_fits) (
          rw (le→ltb (length frame) (18 + length r.payload) (omega (arith, reads.total)))
            (ap whole (take_all (18 + length r.payload) frame (omega (arith, reads.total)))))))

-- The state with its connection to the endpoint `i`.
abbrev opened : Bytes → ℕ → ℕ → Caller → Caller
opened host port i c = record c { is_open = true; host = host; port = port; endpoint_index = i }

abbrev counted : Caller → Caller
counted c = record c { request_id = (c.request_id + 1) % 2 ^ 64 }

not_empty : (es : List (Bytes × ℕ)) (n : ℕ) → length es ≡ suc n → is_empty es ≡ false
not_empty [] n e = absurd (omega (arith, e))
not_empty (e ∷ es) n size = refl

first_index : (i n : ℕ) → i < n → (i + 0) % n ≡ i
first_index i n bound = ap (λ j. j % n) (omega arith) ∙ mod-eq_of_lt bound

try_endpoints-reached :
    (w : World) (n : ℕ) (c : Caller) (host : Bytes) (port : ℕ)
    → c.endpoint_index < length c.endpoints
    → get_elem? c.endpoints c.endpoint_index ≡ some (host, port)
    → w.reaches host port ≡ true
    → try_endpoints w 0 (suc n) c ≡ (true, opened host port c.endpoint_index c)
unfolding try_endpoints
try_endpoints-reached w n c host port bound at reaches =
    rw (first_index c.endpoint_index (length c.endpoints) bound, try_endpoints)
      (rw at (rw reaches (rw (first_index c.endpoint_index (length c.endpoints) bound) refl)))

connect-closed :
    (w : World) (c : Caller) (n : ℕ)
    → c.is_open ≡ false
    → length c.endpoints ≡ suc n
    → connect w c ≡ try_endpoints w 0 (suc n) c
unfolding connect
connect-closed w c n closed size =
    rw closed (rw (not_empty c.endpoints n size) (rw (not_empty c.endpoints n size) (rw size refl)))

connect-reached :
    (w : World) (c : Caller) (host : Bytes) (port n : ℕ)
    → c.is_open ≡ false
    → length c.endpoints ≡ suc n
    → c.endpoint_index < length c.endpoints
    → get_elem? c.endpoints c.endpoint_index ≡ some (host, port)
    → w.reaches host port ≡ true
    → connect w c ≡ (true, opened host port c.endpoint_index c)
connect-reached w c host port n closed size bound at reaches =
    connect-closed w c n closed size ∙ try_endpoints-reached w n c host port bound at reaches

-- A request that is answered comes to the checks of the response.
send-answered :
    (w : World) (r : Request) (c : Caller) (response : Response)
    → IsRequest (with_id r c.request_id)
    → IsResponse response
    → w.exchange c.host c.port (request_frame (with_id r c.request_id))
      ≡ some (response_frame response)
    → send w r c ≡ accept c.request_id (Codec.ok response) (counted c)
unfolding send send_frame sent respond
send-answered w r c response v a e =
    ap (λ encoded. send_frame w c.request_id encoded (counted c))
      (encode_request-IsRequest (with_id r c.request_id) v)
    ∙ ap (λ received. sent c.request_id received (counted c)) e
    ∙ ap (λ received. respond c.request_id received (counted c)) (receive-response_frame response a)
    ∙ ap (λ decoded. accept c.request_id decoded (counted c))
        (decode_response-ReadsResponse (response_frame response) response
          (response_frame-ReadsResponse response a))

accept-not_leader :
    (response : Response) (c : Caller)
    → response.status ≡ Status.not_leader
    → 2 ≤ length c.endpoints
    → accept response.request_id (Codec.ok response) c
      ≡ (again, close (record c { endpoint_index = next_endpoint c }))
unfolding accept
accept-not_leader response c e several =
    rw ((==_iff response.request_id response.request_id).1 refl) (
      rw ((==_iff response.status Status.not_leader).1 e)
        (rw (lt→ltb 1 (length c.endpoints) several) refl))

accept-leader :
    (response : Response) (c : Caller)
    → (response.status == Status.not_leader) ≡ false
    → accept response.request_id (Codec.ok response) c
      ≡ (answered response, record c { backoff = 100 })
unfolding accept
accept-leader response c e =
    rw ((==_iff response.request_id response.request_id).1 refl) (rw e refl)

-- The state after a broker has sent the client on.
abbrev moved : Bytes → ℕ → Caller → Caller
moved host port c = record c {
  is_open = false;
  host = host;
  port = port;
  endpoint_index = next_endpoint c;
  request_id = (c.request_id + 1) % 2 ^ 64;
}

-- A request to the broker at the endpoint that is tried first.
module _ (w : World) (r : Request) (leader : ℕ) (answer : ℕ → ℕ → Response) (c : Caller)
    (cluster : Cluster w r c.endpoints leader answer) (closed : c.is_open ≡ false)
    (bound : c.endpoint_index < length c.endpoints) (id_fits : c.request_id < 2 ^ 64) where
  asked :
      (host : Bytes) (port : ℕ)
      → get_elem? c.endpoints c.endpoint_index ≡ some (host, port)
      → one_round w r c
        ≡ accept c.request_id
            (Codec.ok (answer c.endpoint_index c.request_id))
            (counted (opened host port c.endpoint_index c))
  unfolding one_round after_connect
  asked host port at =
      ap (after_connect w r) (
        connect-reached w c host port (length c.endpoints - 1) closed
          (omega (arith, cluster.several)) bound at (cluster.reached host port))
      ∙ send-answered w r (opened host port c.endpoint_index c)
          (answer c.endpoint_index c.request_id) (cluster.sendable c.request_id id_fits)
          (cluster.decodable c.endpoint_index c.request_id id_fits)
          (cluster.responds c.endpoint_index c.request_id host port id_fits at)

  -- The other brokers send the client on to the next endpoint.
  redirected :
      (host : Bytes) (port : ℕ)
      → get_elem? c.endpoints c.endpoint_index ≡ some (host, port)
      → (c.endpoint_index ≡ leader → ⊥)
      → one_round w r c ≡ (again, moved host port c)
  redirected host port at other =
      asked host port at
      ∙ ap
          (λ id.
            accept id (Codec.ok (answer c.endpoint_index c.request_id))
              (counted (opened host port c.endpoint_index c)))
          (sym (cluster.same_id c.endpoint_index c.request_id))
      ∙ accept-not_leader (answer c.endpoint_index c.request_id)
          (counted (opened host port c.endpoint_index c))
          (cluster.follows c.endpoint_index c.request_id other) cluster.several

  led :
      (host : Bytes) (port : ℕ)
      → get_elem? c.endpoints c.endpoint_index ≡ some (host, port)
      → c.endpoint_index ≡ leader
      → (c' : Caller) × (one_round w r c ≡ (answered (answer leader c.request_id), c'))
  led host port at here = (
    record (counted (opened host port c.endpoint_index c)) { backoff = 100 },
    asked host port at
        ∙ ap
            (λ i.
              accept c.request_id (Codec.ok (answer i c.request_id))
                (counted (opened host port c.endpoint_index c)))
            here
        ∙ ap
            (λ id.
              accept id (Codec.ok (answer leader c.request_id))
                (counted (opened host port c.endpoint_index c)))
            (sym (cluster.same_id leader c.request_id))
        ∙ accept-leader (answer leader c.request_id) (counted (opened host port c.endpoint_index c))
            (cluster.leads c.request_id),
  )

abbrev pub repeat : ℕ → World → List World
repeat zero w = []
repeat (suc n) w = w ∷ repeat n w

same : (a b : ℕ) → (a ≡ b) ⊎ (a ≡ b → ⊥)
same a b =
    elim (a == b) as (λ t. (a == b) ≡ t → (a ≡ b) ⊎ (a ≡ b → ⊥)) [
      | true ↦ λ e. inl ((==_iff a b).0 e)
      | false ↦ λ e. inr (λ p. ground arith)
    ]
      refl

endpoint_at :
    (es : List (Bytes × ℕ)) (i : ℕ)
    → i < length es
    → (host : Bytes) × (port : ℕ) × (get_elem? es i ≡ some (host, port))
endpoint_at [] i less = absurd (omega arith)
endpoint_at ((host, port) ∷ es) zero less = (host, port, refl)
endpoint_at (e ∷ es) (suc i) less = endpoint_at es i (omega arith)

-- The run of the loop ends with what the leader answers.
abbrev Found : List World → Request → ℕ → (ℕ → ℕ → Response) → Caller → Type 0
Found ws r leader answer c =
    (id : ℕ) × (c' : Caller) × (rounds ws r c ≡ (returned (answer leader id), c'))

Found-here :
    (k : ℕ) (w : World) (r : Request) (leader : ℕ) (answer : ℕ → ℕ → Response) (c : Caller)
    → Cluster w r c.endpoints leader answer
    → c.is_open ≡ false
    → c.endpoint_index < length c.endpoints
    → c.request_id < 2 ^ 64
    → c.endpoint_index ≡ leader
    → Found (repeat (suc k) w) r leader answer c
unfolding rounds
Found-here k w r leader answer c cluster closed bound fits here =
    let (host, port, at) = endpoint_at c.endpoints c.endpoint_index bound in
    let (c', e) = led w r leader answer c cluster closed bound fits host port at here in
    (c.request_id, c', ap (after_round (rounds (repeat k w) r)) e)

next_distance : (i d n : ℕ) → (i + suc d) % n ≡ ((i + 1) % n + d) % n
next_distance i d n = ap (λ j. j % n) (omega arith) ∙ sym (mod-add-mod (i + 1) n d)

rounds-leader :
    (k d : ℕ) (w : World) (r : Request) (leader : ℕ) (answer : ℕ → ℕ → Response) (c : Caller)
    → d < k
    → Cluster w r c.endpoints leader answer
    → c.is_open ≡ false
    → c.endpoint_index < length c.endpoints
    → c.request_id < 2 ^ 64
    → (c.endpoint_index + d) % length c.endpoints ≡ leader
    → Found (repeat k w) r leader answer c
unfolding rounds
rounds-leader zero d w r leader answer c less cluster closed bound fits to = absurd (omega arith)
rounds-leader (suc k) zero w r leader answer c less cluster closed bound fits to =
    Found-here k w r leader answer c cluster closed bound fits
      (sym (first_index c.endpoint_index (length c.endpoints) bound) ∙ to)
rounds-leader (suc k) (suc d) w r leader answer c less cluster closed bound fits to =
    let (host, port, at) = endpoint_at c.endpoints c.endpoint_index bound in
    elim (same c.endpoint_index leader) [
      | inl here ↦ Found-here k w r leader answer c cluster closed bound fits here
      | inr other ↦
          let (id, c', e) =
            rounds-leader k d w r leader answer (moved host port c) (omega arith) cluster refl
              (mod-lt (c.endpoint_index + 1) (omega arith))
              (mod-lt (c.request_id + 1) (omega arith))
              (sym (next_distance c.endpoint_index d (length c.endpoints)) ∙ to) in
          (
            id,
            c',
            ap (after_round (rounds (repeat k w) r))
                  (redirected w r leader answer c cluster closed bound fits host port at other)
                ∙ e,
          )
    ]

to_leader : (i leader n : ℕ) → i < n → leader < n → (i + (leader + n - i) % n) % n ≡ leader
to_leader i leader n bound within =
    add-mod-mod i (leader + n - i) n
    ∙ ap (λ j. j % n) (omega arith)
    ∙ add-mod_right leader n
    ∙ mod-eq_of_lt within

token_passes :
    (none_given : Bool) (n : ℕ) (x y : Called × Caller)
    → n ≤ 65535
    → (if not none_given && ltb 65535 n then x else y) ≡ y
token_passes true n x y short = refl
token_passes false n x y short = rw (le→ltb 65535 n short) refl

-- A call begins without a connection, with an endpoint index in range, an id below 2^64 and a token of at
-- most 65535 bytes. There are two endpoints or more, all can be reached, and every broker answers the
-- request by a well-formed response with the id it was sent: the one at `leader` by another status than
-- `kNotLeader`, the others by `kNotLeader`. If as many attempts begin before the deadline as there are
-- endpoints, the call returns the answer of the leader.
pub call-leader :
    (w : World) (r : Request) (leader : ℕ) (answer : ℕ → ℕ → Response) (c : Caller)
    → Cluster w (authenticated r c) c.endpoints leader answer
    → length c.auth_token ≤ 65535
    → c.is_open ≡ false
    → c.endpoint_index < length c.endpoints
    → c.request_id < 2 ^ 64
    → (id : ℕ) × (c' : Caller) × (call (repeat (length c.endpoints) w) r c
        ≡ (returned (answer leader id), c'))
unfolding call
call-leader w r leader answer c cluster short closed bound fits =
    let n = length c.endpoints in
    let d = (leader + n - c.endpoint_index) % n in
    let (id, c', e) =
      rounds-leader n d w (authenticated r c) leader answer c (mod-lt _ (omega arith)) cluster
        closed bound fits (to_leader c.endpoint_index leader n bound cluster.within) in
    (id, c', token_passes (is_nothing c.auth_token) (length c.auth_token) _ _ short ∙ e)

-- A client that has one endpoint keeps it: `connect` with another host ends at the endpoint it had, if that
-- can be reached.
pub connect_host-endpoints :
    (w : World) (host : Bytes) (port : ℕ) (c : Caller) (known : Bytes) (known_port : ℕ)
    → c.endpoints ≡ (known, known_port) ∷ []
    → c.endpoint_index ≡ 0
    → w.reaches known known_port ≡ true
    → (connect_host w host port c).0 ≡ true
      × (connect_host w host port c).1.host ≡ known
      × (connect_host w host port c).1.port ≡ known_port
unfolding connect_host
connect_host-endpoints w host port c known known_port one first reaches =
    let e =
      connect-reached w (record c { host = host; port = port; is_open = false }) known known_port 0
        refl (ap length one) (rw first (rw one (omega arith))) (rw first (rw one refl)) reaches in
    (ap (λ p. p.0) e, ap (λ p. p.1.host) e, ap (λ p. p.1.port) e)
