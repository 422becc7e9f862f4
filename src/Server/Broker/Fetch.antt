-- ===== src/Server/Broker/Fetch.antt =====
-- What is read: `HandleFetch` and `HandleReplicaFetch` of src/server/broker.cc.
pub mod Wire
pub mod Delivery
pub mod Asked
pub mod Consuming
pub mod Pieces
pub mod CatchUp
use mq_project.Prelude.{
  ℕ, zero, suc, ◌+◌, ◌-◌, ◌%◌, ◌^◌, max, Bool, true, false, not, ◌&&◌, ◌||◌, Option, none, some,
  List, [], ◌∷◌, ◌++◌, length, drop, ltb, ◌==◌, if◌then◌else◌,
}
use mq_project.Bytes.{Bytes, put16, put32, put64, get16, get32, get64}
use mq_project.Protocol.Status
use mq_project.Protocol.Flag
use mq_project.Protocol.Codec.{Request, max_payload_bytes}
use mq_project.Core.Stores.{ConsumerOffset}
use mq_project.Core.Storage.{Message}
use mq_project.Core.Storage.Partition.{
  Error, invalid_message, cannot_create_segment, write_failed, fsync_failed, offset_gap,
  invalid_topic, invalid_offset, cannot_open, cannot_remove,
}
use mq_project.Core.Storage.Engine
use mq_project.Core.Storage.Engine.{Outcome, done, failed, faulted, StorageEngine}
use mq_project.Server.Replication.{is_nil}
use mq_project.Server.Broker.{Broker, has_flag}
use mq_project.Server.Broker.Reply
use mq_project.Server.Broker.Reply.{
  Reply, reply, Parsed, parsed, ◌>>=◌, ◌>>◌, read, stop_if, substr, route,
}
use mq_project.Server.Broker.Offsets.{find_offset}

abbrev pub record_size : Message → ℕ
record_size m = 8 + 8 + 2 + length m.key + 4 + length m.value

abbrev pub put_message : Bytes → Message → Bytes
put_message payload m =
    put32 (put16 (put64 (put64 payload m.offset) m.timestamp_ms) (length m.key % 2 ^ 16) ++ m.key)
      (length m.value % 2 ^ 32)
    ++ m.value

-- The loop over the messages until one does not fit: the payload and how many it has taken.
pub put_messages : Bytes → List Message → Bytes × ℕ
put_messages payload [] = (payload, 0)
put_messages payload (m ∷ ms) =
    let (all, count) = put_messages (put_message payload m) ms in
    if ltb (max_payload_bytes - 4) (record_size m)
      || ltb (max_payload_bytes - 4 - record_size m) (length payload)
    then (payload, 0)
    else (all, count + 1)

-- The payload of the answer, whose first four bytes are set in the end.
unfoldable pub messages_payload : List Message → Bytes
unfolding put_messages
messages_payload ms =
    let (payload, count) = put_messages (put32 [] 0) ms in put32 [] count ++ drop 4 payload

-- The offset, the limit and the group, which is empty where none is given.
unfoldable pub parse_range : Bytes → Parsed (ℕ × ℕ × Bytes)
parse_range payload =
    if length payload == 16
    then (do
      offset ← read (get64 payload 4)
      max_bytes ← read (get32 payload 12)
      parsed (offset, max_bytes, []))
    else (do
      stop_if (ltb (length payload) 18) Status.bad_request
      group_size ← read (get16 payload 4)
      stop_if (group_size == 0 || not (length payload == 18 + group_size)) Status.bad_request
      offset ← read (get64 payload (6 + group_size))
      max_bytes ← read (get32 payload (14 + group_size))
      parsed (offset, max_bytes, substr payload 6 group_size))

-- The partition that is routed to, and the range.
unfoldable pub parse_fetch : Request → Broker → Parsed (ℕ × ℕ × ℕ × Bytes)
unfolding parse_range route
parse_fetch r b = do
  stop_if (ltb (length r.payload) 16) Status.bad_request
  partition ← read (get32 r.payload 0)
  (offset, max_bytes, group) ← parse_range r.payload
  stop_if (max_bytes == 0) Status.bad_request
  resolved ← route Status.invalid_offset r.topic partition [] b.queues
  parsed (resolved, offset, max_bytes, group)

abbrev pub later : ℕ → Option ConsumerOffset → ℕ
later offset none = offset
later offset (some item) = max offset item.offset

-- Where reading starts: not before what the group has committed.
unfoldable pub start_offset : Bytes → Bytes → ℕ → ℕ → Broker → ℕ
start_offset group topic partition offset b =
    if is_nil group
    then offset
    else later offset (find_offset group topic partition b.consumer_offsets)

abbrev pub read_status : Option Error → ℕ
read_status (some invalid_offset) = Status.invalid_offset
read_status (some invalid_message) = Status.storage_error
read_status (some cannot_create_segment) = Status.storage_error
read_status (some write_failed) = Status.storage_error
read_status (some fsync_failed) = Status.storage_error
read_status (some offset_gap) = Status.storage_error
read_status (some invalid_topic) = Status.storage_error
read_status (some cannot_open) = Status.storage_error
read_status (some cannot_remove) = Status.storage_error
read_status none = Status.storage_error

abbrev pub read_reply : Outcome (List Message) → Reply
read_reply (done ms) = reply Status.ok (messages_payload ms)
read_reply (failed e) = reply (read_status e) []
read_reply faulted = Reply.faulted

-- The call of `Read`, and the answer.
unfoldable pub answer_read : Bool → ℕ → Bytes → ℕ → ℕ → ℕ → Broker → Reply × Broker
answer_read opens clock topic partition offset max_bytes b =
    let (result, engine) = Engine.read opens clock topic partition offset max_bytes b.storage in
    (read_reply result, record b { storage = engine })

unfoldable pub handle_fetch : Bool → ℕ → Request → Broker → Reply × Broker
unfolding parse_fetch start_offset answer_read
handle_fetch opens clock r b =
    Reply.proceed (parse_fetch r b) b λ (partition, offset, max_bytes, group).
      answer_read opens clock r.topic partition (start_offset group r.topic partition offset b)
        max_bytes b

unfoldable pub parse_replica_fetch : Request → Broker → Parsed (ℕ × ℕ × ℕ)
unfolding has_flag route
parse_replica_fetch r b = do
  stop_if (not (has_flag r.flags Flag.replication) || not (length r.payload == 16))
      Status.bad_request
  partition ← read (get32 r.payload 0)
  offset ← read (get64 r.payload 4)
  max_bytes ← read (get32 r.payload 12)
  stop_if (max_bytes == 0) Status.bad_request
  resolved ← route Status.invalid_offset r.topic partition [] b.queues
  parsed (resolved, offset, max_bytes)

unfoldable pub handle_replica_fetch : Bool → ℕ → Request → Broker → Reply × Broker
unfolding parse_replica_fetch answer_read
handle_replica_fetch opens clock r b =
    Reply.proceed (parse_replica_fetch r b) b
      λ (partition, offset, max_bytes). answer_read opens clock r.topic partition offset max_bytes b
