-- ===== src/Server/Broker/Opening.antt =====
-- How a broker is set up and opened: `ConfigureReplication`, `ConfigureClientAuth` and `Open` of
-- src/server/broker.cc, and `Open` of src/core/storage/storage_engine.cc, whose cleaner thread makes the
-- steps `cleanup_expired_segments`.
use mq_project.Prelude.{
  ℕ, ◌+◌, Bool, true, false, none, some, List, [], ◌∷◌, length, ◌==◌, if◌then◌else◌,
}
use mq_project.Bytes.{Bytes}
use mq_project.Core.Queues.{TopicMetadata, replace_topics, list_topics}
use mq_project.Core.Groups.{Coordinator, set_partitions}
use mq_project.Core.Stores.{load_topics, load_offsets}
use mq_project.Core.Storage.Engine.{StorageEngine}
use mq_project.Server.Replication
use mq_project.Server.Replication.{Replication, leader, follower, register_replica}
use mq_project.Server.Broker.{Broker, ReplicationPeer, ClientAuthorization}

pub register_all : List ReplicationPeer → Replication → Replication
register_all [] c = c
register_all (peer ∷ peers) c = register_all peers (register_replica peer.node_id c)

abbrev pub ten_seconds : ℕ
ten_seconds = 10000000000

-- `state_file` is what the state file holds; `is_follower` is `follower_`.
unfoldable pub configure_replication :
    Bytes → List ReplicationPeer → ℕ → Bool → Bytes → Bytes → Broker → Broker
unfolding register_all
configure_replication node_id peers quorum is_follower auth_token state_file b = record b {
  node_id = node_id;
  peers = peers;
  replication_quorum = if quorum == 0 then length peers + 1 else quorum;
  replication_auth_token = auth_token;
  replication_configured = true;
  coordinator = register_all peers (
      Replication.start node_id (if is_follower then follower else leader) ten_seconds true
        state_file);
}

unfoldable pub configure_client_auth : Bytes → ClientAuthorization → Broker → Broker
configure_client_auth auth_token authorization b = record b {
  client_auth_token = auth_token;
  client_authorization = authorization;
}

-- `creates` says whether the directory can be created.
unfoldable pub open_storage : Bool → StorageEngine → Bool × StorageEngine
open_storage creates e =
    if e.opened
    then (true, e)
    else (if creates then (true, record e { opened = true }) else (false, e))

pub set_all_partitions : List TopicMetadata → Coordinator → Coordinator
set_all_partitions [] c = c
set_all_partitions (t ∷ ts) c = set_all_partitions ts (set_partitions t.name t.partition_count c)

-- The loading of the offsets, once the topics are there.
unfoldable pub open_offsets : Broker → Bool × Broker
open_offsets b =
    let (error, items) = load_offsets b.offset_file in
    elim error [
      | none ↦ (true, record b { consumer_offsets = items; opened = true })
      | some e ↦ (false, record b { consumer_offsets = items })
    ]

-- The loading of the topics.
unfoldable pub open_topics : Broker → Bool × Broker
unfolding set_all_partitions open_offsets
open_topics b =
    let (unreadable, loaded) = load_topics b.metadata_file in
    let (illegal, queues) = replace_topics loaded b.queues in
    elim unreadable [
      | some e ↦ (false, b)
      | none ↦ elim illegal [
        | some e ↦ (false, record b { queues = queues })
        | none ↦ open_offsets (record b {
          queues = queues;
          groups = set_all_partitions (list_topics queues) b.groups;
        })
      ]
    ]

-- `Open`.
unfoldable pub open_broker : Bool → Broker → Bool × Broker
unfolding open_storage open_topics
open_broker creates b =
    if b.opened
    then (true, b)
    else (let (ready, engine) = open_storage creates b.storage in
        if ready
        then open_topics (record b { storage = engine })
        else (false, record b { storage = engine }))
