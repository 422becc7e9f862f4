-- ===== src/Server/ReplicationLoop.antt =====
-- `ReplicationLoop` of src/server/broker.cc: one round of the thread that keeps the brokers together.
pub mod Pull
pub mod Campaign
pub mod Lead
pub mod Round
pub mod Idle
use mq_project.Prelude.{ℕ, ◌+◌, Bool, Option, none, some, List, [], ◌∷◌, ◌++◌}
use mq_project.Bytes.{Bytes}
use mq_project.Dict.{Dict}
use mq_project.Server.Broker.{Broker, ReplicationPeer}
use mq_project.Server.Broker.Groups.{to_string}
use mq_project.Server.Broker.Replicas.{Surroundings}
use mq_project.Server.ReplicationClient
use mq_project.Server.ReplicationClient.{ReplicationClient, Network}

-- What the thread uses: the broker, `replication_offsets_` and its own two variables.
pub record LoopState : Type 0 where
  pub broker : Broker
  pub replication_offsets : Dict ℕ
  pub last_election : ℕ
  pub election_timeout : ℕ

-- What surrounds a round: the other brokers, the file system for the messages of each partition, the clock
-- for new segments, and the next random timeout. No two calls of a round send the same frame.
pub record Environment : Type 0 where
  pub network : Network
  pub storing : Bytes → ℕ → Surroundings
  pub now : ℕ
  pub opens : Bool
  pub clock : ℕ
  pub next_timeout : ℕ

-- The client of a peer.
unfoldable pub client_of : ReplicationPeer → LoopState → ReplicationClient
client_of peer s = ReplicationClient.create peer.host peer.port 1000 s.broker.replication_auth_token

-- `topic.name + ":" + std::to_string(partition)`.
unfoldable pub offset_key : Bytes → ℕ → Bytes
offset_key topic partition = topic ++ (0x3A ∷ to_string partition)

abbrev pub or_zero : Option ℕ → ℕ
or_zero none = 0
or_zero (some n) = n
