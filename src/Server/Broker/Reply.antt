-- ===== src/Server/Broker/Reply.antt =====
-- What the handlers of src/server/broker.cc share: how they read a payload, and their answers.
use mq_project.Prelude.{
  ℕ, ◌+◌, ◌-◌, Bool, ◌||◌, Option, none, some, [], length, take, drop, ltb, if◌then◌else◌,
}
use mq_project.Bytes.{Bytes}
use mq_project.Protocol.Status
use mq_project.Protocol.Codec.{Request, Response, current_version}
use mq_project.Core.Queues.{
  Topics, Error, unknown_topic, invalid_topic_metadata, topic_exists, partition_out_of_range,
  Resolved, partition, refused, resolve_partition,
}
use mq_project.Server.Broker.{Broker}

-- The status and the payload of a response, or a read out of bounds.
pub data Reply : Type 0 where
  reply : ℕ → Bytes → Reply
  faulted : Reply

-- What a handler has read, or the status with which it returns, or a read out of bounds.
pub data Parsed (A : Type 0) : Type 0 where
  parsed : A → Parsed A
  stopped : ℕ → Parsed A
  broken : Parsed A

infixl 5 ◌>>=◌ ◌>>◌
abbrev pub ◌>>=◌ : {A B : Type 0} → Parsed A → (A → Parsed B) → Parsed B
parsed a >>= f = f a
stopped s >>= f = stopped s
broken >>= f = broken

abbrev pub ◌>>◌ : {B : Type 0} → Parsed (Unit {0}) → Parsed B → Parsed B
m >> k = m >>= λ _. k

abbrev pub read : {A : Type 0} → Option A → Parsed A
read none = broken
read (some a) = parsed a

-- An early return.
abbrev pub stop_if : Bool → ℕ → Parsed (Unit {0})
stop_if c status = if c then stopped status else parsed tt

-- `Take`: the position behind `count` bytes, if there are so many.
unfoldable pub advance : Bytes → ℕ → ℕ → Option ℕ
advance input position count =
    if ltb (length input) position || ltb (length input - position) count
    then none
    else some (position + count)

abbrev pub or_stop : {A : Type 0} → Option A → Parsed A
or_stop none = stopped Status.bad_request
or_stop (some a) = parsed a

abbrev pub substr : Bytes → ℕ → ℕ → Bytes
substr input position count = take count (drop position input)

abbrev pub route_status : ℕ → Error → ℕ
route_status other unknown_topic = Status.unknown_topic
route_status other invalid_topic_metadata = other
route_status other topic_exists = other
route_status other partition_out_of_range = other

abbrev pub or_route : ℕ → Resolved → Parsed ℕ
or_route other (partition p) = parsed p
or_route other (refused e) = stopped (route_status other e)

-- The call of `ResolvePartition`; `other` is the status for any error but an unknown topic.
unfoldable pub route : ℕ → Bytes → ℕ → Bytes → Topics → Parsed ℕ
route other topic requested key queues =
    or_route other (resolve_partition topic requested key queues)

-- What a handler does once the payload is read.
abbrev pub proceed : {A : Type 0} → Parsed A → Broker → (A → Reply × Broker) → Reply × Broker
proceed (parsed a) b f = f a
proceed (stopped status) b f = (reply status [], b)
proceed broken b f = (faulted, b)

-- `MakeResponse`.
abbrev pub make_response : Request → ℕ → Bytes → Response
make_response r status payload = record {
  version = current_version;
  status = status;
  request_id = r.request_id;
  flags = 0;
  payload = payload;
}
