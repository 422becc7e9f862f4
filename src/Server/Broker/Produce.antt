-- ===== src/Server/Broker/Produce.antt =====
-- `HandleProduce` and `Replicate` of src/server/broker.cc.
pub mod Retry
use mq_project.Prelude.{
  ℕ, zero, suc, ◌+◌, ◌-◌, ◌*◌, ◌%◌, ◌^◌, Bool, true, false, not, ◌&&◌, ◌||◌, Option, none, some,
  List, [], ◌∷◌, ◌++◌, length, ltb, leb, ◌==◌, if◌then◌else◌, bit_and,
}
use mq_project.Bytes.{Bytes, put32, put64, get16, get32, get64}
use mq_project.Dict.{Dict, find, insert}
use mq_project.Protocol.Status
use mq_project.Protocol.Flag
use mq_project.Protocol.Codec.{Request, Response}
use mq_project.Core.Storage.{Message}
use mq_project.Core.Storage.Partition.{System}
use mq_project.Core.Storage.Engine
use mq_project.Core.Storage.Engine.{Outcome, done, failed, faulted}
use mq_project.Server.Replication.{can_serve_writes, is_leader}
use mq_project.Server.Replication.Log.{observe_heartbeat, advance_commit, record_local_offset}
use mq_project.Server.Broker.{Broker, ReplicationPeer, IdempotencyEntry, has_flag}
use mq_project.Server.Broker.Reply
use mq_project.Server.Broker.Reply.{
  Reply, reply, Parsed, parsed, stopped, broken, ◌>>=◌, ◌>>◌, read, stop_if, advance, or_stop,
  substr, route, make_response,
}
use mq_project.Server.Broker.Groups.{to_string, partition_key}
use mq_project.Server.Broker.Quota.{allow_topic_bytes}

-- What surrounds one request: the steady clock at its start and at its end, the system clock in
-- milliseconds, what the file system does, whether the token bucket of the rate limit has a token, and
-- which peers take a message.
pub record Moment : Type 0 where
  pub now : ℕ
  pub done_at : ℕ
  pub timestamp : ℕ
  pub opens : Bool
  pub system : System
  pub has_tokens : Bool
  pub takes : ReplicationPeer → Bool

unfoldable pub idempotency_key : Bytes → ℕ → ℕ → Bytes
idempotency_key topic producer_id sequence =
    topic ++ (0x1F ∷ (to_string producer_id ++ (0x3A ∷ to_string sequence)))

-- The loop that erases what is out of date.
unfoldable pub expire_cache : ℕ → Dict IdempotencyEntry → Dict IdempotencyEntry
expire_cache now [] = []
expire_cache now ((key, entry) ∷ cache) =
    if leb entry.expires_at now
    then expire_cache now cache
    else (key, entry) ∷ expire_cache now cache

abbrev pub five_minutes : ℕ
five_minutes = 5 * 60 * 1000000000

-- The checks before the payload is read.
unfoldable pub is_leading : Moment → Request → Broker → Bool
unfolding has_flag
is_leading m r b =
    has_flag r.flags Flag.replication
    || (is_leader b.coordinator.role && can_serve_writes m.now b.coordinator)

unfoldable pub is_limited : Moment → Bool → Request → Bool
unfolding has_flag
is_limited m enforce_rate_limit r =
    enforce_rate_limit && not (has_flag r.flags Flag.replication) && not m.has_tokens

-- The producer and the sequence number at the front of the payload.
unfoldable pub parse_metadata : Bytes → Parsed (ℕ × ℕ)
unfolding advance
parse_metadata payload = do
  position ← or_stop (advance payload 0 16)
  producer_id ← read (get64 payload 0)
  sequence ← read (get64 payload 8)
  parsed (producer_id, sequence)

-- The partition that is asked for, the key and the value, from a position on.
unfoldable pub parse_record : ℕ → Bytes → Parsed (ℕ × Bytes × Bytes)
unfolding advance
parse_record position payload = do
  stop_if (ltb (length payload) (position + 4)) Status.bad_request
  requested ← read (get32 payload position)
  second ← or_stop (advance payload position 4)
  third ← or_stop (advance payload second 2)
  key_length ← read (get16 payload (third - 2))
  fourth ← or_stop (advance payload third key_length)
  fifth ← or_stop (advance payload fourth 4)
  value_length ← read (get32 payload (fifth - 4))
  end ← or_stop (advance payload fifth value_length)
  stop_if (not (end == length payload)) Status.bad_request
  parsed (requested, substr payload third key_length, substr payload fifth value_length)

-- The loop of `Replicate` over the peers, with the acknowledgements so far.
pub send_to : Moment → Bytes → ℕ → List ReplicationPeer → ℕ → Broker → ℕ × Broker
send_to m partition offset [] acknowledgements b = (acknowledgements, b)
send_to m partition offset (peer ∷ peers) acknowledgements b =
    let observed = record b {
      coordinator = observe_heartbeat partition peer.node_id offset m.now b.coordinator;
    } in
    let taken = send_to m partition offset peers (acknowledgements + 1) observed in
    let missed = send_to m partition offset peers acknowledgements b in
    if m.takes peer then taken else missed

abbrev pub has_no_peers : List ReplicationPeer → Bool
has_no_peers [] = true
has_no_peers (p ∷ ps) = false

unfoldable pub replicate : Moment → Bytes → ℕ → Broker → Bool × Broker
unfolding send_to
replicate m partition offset b =
    if has_no_peers b.peers || leb b.replication_quorum 1
    then (false, b)
    else (let (acknowledgements, sent) = send_to m partition offset b.peers 1 b in
        if ltb acknowledgements b.replication_quorum
        then (false, sent)
        else (let (advanced, c) = advance_commit partition offset m.now sent.coordinator in
            (advanced, record sent { coordinator = c })))

-- What follows the append.
unfoldable pub acknowledge : Moment → Request → ℕ → Outcome Message × Broker → Reply × Broker
unfolding partition_key replicate
acknowledge m r partition (faulted, b) = (Reply.faulted, b)
acknowledge m r partition (failed e, b) = (reply Status.storage_error [], b)
acknowledge m r partition (done message, b) =
    let key = partition_key r.topic partition in
    let noted = record b { coordinator = record_local_offset key message.offset b.coordinator } in
    let answer = reply Status.ok (put64 (put32 [] partition) message.offset) in
    let (replicated, after) = replicate m key message.offset noted in
    if bit_and r.flags Flag.ack_mask == Flag.ack_all
    then (if replicated then (answer, after) else (reply Status.storage_error [], after))
    else (answer, noted)

unfoldable pub store : Moment → Request → ℕ → Bytes → Bytes → Broker → Reply × Broker
unfolding acknowledge
store m r partition key value b =
    let (result, engine) =
      Engine.append m.opens m.system m.timestamp r.topic partition key value b.storage in
    acknowledge m r partition (result, record b { storage = engine })

-- From the routing on.
unfoldable pub publish : Moment → Bool → Request → Broker → (ℕ × Bytes × Bytes) → Reply × Broker
unfolding has_flag route store
publish m enforce_topic_quota r b (requested, key, value) =
    Reply.proceed (route Status.bad_request r.topic requested key b.queues) b λ partition.
      (let (allowed, charged) = allow_topic_bytes m.now r.topic (length key + length value) b in
        if enforce_topic_quota && not (has_flag r.flags Flag.replication)
        then (if allowed
            then store m r partition key value charged
            else (reply Status.quota_exceeded [], charged))
        else store m r partition key value b)

-- An answer that is not a failure is kept.
unfoldable pub remember : Moment → Bytes → Request → Reply × Broker → Reply × Broker
remember m key r (Reply.faulted, b) = (Reply.faulted, b)
remember m key r (reply status payload, b) =
    if status == Status.ok
    then (
      reply status payload,
      record b {
        idempotency_cache =
            insert key
              (record {
                response = make_response r status payload;
                expires_at = m.done_at + five_minutes;
              })
              b.idempotency_cache;
      },
    )
    else (reply status payload, b)

-- A producer with a number gets the answer of an earlier attempt, if there is one.
unfoldable pub produce_once : Moment → Bool → Request → Broker → (ℕ × ℕ) → Reply × Broker
unfolding idempotency_key expire_cache parse_record publish remember
produce_once m enforce_topic_quota r b (producer_id, sequence) =
    let key = idempotency_key r.topic producer_id sequence in
    let b' = record b { idempotency_cache = expire_cache m.now b.idempotency_cache } in
    elim (find key b'.idempotency_cache) [
      | some entry ↦ (reply entry.response.status entry.response.payload, b')
      | none ↦
          remember m key r
            (Reply.proceed (parse_record 16 r.payload) b' (publish m enforce_topic_quota r b'))
    ]

unfoldable pub handle_produce : Moment → Bool → Bool → Request → Broker → Reply × Broker
unfolding is_leading is_limited parse_metadata produce_once parse_record publish
handle_produce m enforce_rate_limit enforce_topic_quota r b =
    if not (is_leading m r b)
    then (reply Status.not_leader [], b)
    else (if is_limited m enforce_rate_limit r
        then (reply Status.rate_limited [], b)
        else (if has_flag r.flags Flag.producer_metadata
            then Reply.proceed (parse_metadata r.payload) b (produce_once m enforce_topic_quota r b)
            else Reply.proceed (parse_record 0 r.payload) b (publish m enforce_topic_quota r b)))
