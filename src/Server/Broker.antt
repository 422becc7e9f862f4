-- ===== src/Server/Broker.antt =====
-- `Broker` of src/server/broker.cc: its state.
-- The mutexes make each request a step of its own. A read past the end of a payload is a fault.
pub mod Access
pub mod Reply
pub mod Offsets
pub mod Quota
pub mod Groups
pub mod Produce
pub mod TopicAdmin
pub mod Fetch
pub mod Entries
pub mod Replicas
pub mod Batch
pub mod Metrics
pub mod Opening
pub mod Dispatch
pub mod Tests
pub mod ClientTests
use mq_project.Prelude.{
  ℕ, ◌+◌, ◌-◌, ◌^◌, Bool, true, false, not, ◌&&◌, ◌||◌, Option, none, some, List, [], ◌∷◌, length,
  take, drop, ltb, ◌==◌, if◌then◌else◌, bit_and, bit_or, bit_xor,
}
use mq_project.Bytes.{Byte, Bytes, get16}
use mq_project.Bytes.Equality.{bytes_eq}
use mq_project.Dict.{Dict}
use mq_project.Protocol.Command
use mq_project.Protocol.Status
use mq_project.Protocol.Flag
use mq_project.Protocol.Codec.{Request, Response, current_version}
use mq_project.Core.Queues.{Topics}
use mq_project.Core.Groups.{Coordinator}
use mq_project.Core.Stores.{Disk, ConsumerOffset}
use mq_project.Core.Storage.Engine.{StorageEngine}
use mq_project.Server.Replication.{Replication, is_nil}

pub record ClientAuthorization : Type 0 where
  pub allow_admin : Bool
  pub allow_produce : Bool
  pub allow_consume : Bool
  pub produce_topics : List Bytes
  pub consume_topics : List Bytes

pub record ReplicationPeer : Type 0 where
  pub node_id : Bytes
  pub host : Bytes
  pub port : ℕ
  pub leader : Bool

pub record IdempotencyEntry : Type 0 where
  pub response : Response
  pub expires_at : ℕ

pub record TopicQuotaWindow : Type 0 where
  pub bytes : ℕ
  pub start : ℕ

-- `metadata_file` and `offset_file` are what the two stores keep on the disk.
pub record Broker : Type 0 where
  pub storage : StorageEngine
  pub metadata_file : Disk
  pub offset_file : Disk
  pub groups : Coordinator
  pub consumer_offsets : List ConsumerOffset
  pub queues : Topics
  pub opened : Bool
  pub idempotency_cache : Dict IdempotencyEntry
  pub node_id : Bytes
  pub peers : List ReplicationPeer
  pub replication_auth_token : Bytes
  pub client_auth_token : Bytes
  pub client_authorization : ClientAuthorization
  pub replication_configured : Bool
  pub replication_quorum : ℕ
  pub coordinator : Replication
  pub request_count : ℕ
  pub produce_count : ℕ
  pub fetch_count : ℕ
  pub error_count : ℕ
  pub topic_produce_quota : ℕ
  pub topic_quota_windows : Dict TopicQuotaWindow

-- `(flags & flag) != 0`.
unfoldable pub has_flag : ℕ → ℕ → Bool
has_flag flags flag = not (bit_and flags flag == 0)
