-- ===== src/Server/ReplicationLoop/Pull.antt =====
-- A follower's part of the round: it fetches from the leader what it does not have.
use mq_project.Prelude.{
  ℕ, zero, suc, ◌+◌, ◌*◌, ◌%◌, ◌^◌, Bool, true, false, not, ◌&&◌, Option, none, some, List, [], ◌∷◌,
  ◌==◌, if◌then◌else◌,
}
use mq_project.Bytes.{Bytes}
use mq_project.Dict.{find, insert}
use mq_project.Protocol.Status
use mq_project.Core.Queues.{TopicMetadata, list_topics}
use mq_project.Core.Storage.{Message}
use mq_project.Core.Storage.Engine
use mq_project.Core.Storage.Engine.{Outcome, done, failed, faulted, StorageEngine}
use mq_project.Server.Replication.{Role, leader, follower, candidate}
use mq_project.Server.Broker.{ReplicationPeer}
use mq_project.Server.Broker.Replicas.{append_entries, last_offset, is_none_left}
use mq_project.Server.ReplicationClient.{ReplicationClient}
use mq_project.Server.ReplicationClient.Fetch.{fetch}
use mq_project.Server.ReplicationClient.Append
use mq_project.Server.ReplicationLoop.{LoopState, Environment, client_of, offset_key, or_zero}

abbrev pub is_follower : Role → Bool
is_follower leader = false
is_follower follower = true
is_follower candidate = false

-- Whether the leader was seen, the client and the state; `none` is undefined behaviour of the storage.
abbrev pub Pulled : Type 0
Pulled = Option (Bool × ReplicationClient × LoopState)

abbrev pub set_storage : StorageEngine → LoopState → LoopState
set_storage e s = record s { broker = record s.broker { storage = e } }

-- Where to fetch from: the place that is noted, or the end of the log.
unfoldable pub pull_offset : Environment → Bytes → ℕ → LoopState → Outcome ℕ × LoopState
unfolding offset_key
pull_offset e topic partition s =
    let noted = or_zero (find (offset_key topic partition) s.replication_offsets) in
    let (next, engine) = Engine.next_offset e.opens e.clock topic partition s.broker.storage in
    if noted == 0 then (next, set_storage engine s) else (done noted, s)

-- What follows a fetch: the messages are stored, and the leader is told.
unfoldable pub store_pulled :
    Environment → Bytes → ℕ → List Message → ReplicationClient → LoopState → Pulled
unfolding offset_key
store_pulled e topic partition messages client s =
    let (status, engine) =
      append_entries (e.storing topic partition) topic partition 0 messages s.broker.storage in
    let stored = set_storage engine s in
    let next = (last_offset messages + 1) % 2 ^ 64 in
    let (told, after) =
      Append.heartbeat e.network topic partition s.broker.node_id next 0 0 client in
    elim status [
      | none ↦ none
      | some applied ↦
          if applied == Status.ok && not (is_none_left messages)
          then some (
            true,
            after,
            record stored {
              replication_offsets =
                  insert (offset_key topic partition) next stored.replication_offsets;
            },
          )
          else some (true, client, stored)
    ]

-- One partition; `seen` tells whether the leader has been seen before.
unfoldable pub pull_partition :
    Environment → Bytes → ℕ → (Bool × ReplicationClient × LoopState) → Pulled
unfolding pull_offset store_pulled
pull_partition e topic partition (seen, client, s) =
    let (offset, located) = pull_offset e topic partition s in
    elim offset [
      | faulted ↦ none
      | failed x ↦ some (seen, client, located)
      | done from ↦
          let (messages, after) = fetch e.network topic partition from (1024 * 1024) client in
          elim messages [
            | none ↦ some (seen, after, located)
            | some ms ↦ store_pulled e topic partition ms after located
          ]
    ]

-- The loops over the partitions, the topics and the peers.
pub pull_partitions : Environment → Bytes → ℕ → ℕ → (Bool × ReplicationClient × LoopState) → Pulled
pull_partitions e topic partition zero x = some x
pull_partitions e topic partition (suc n) x = elim (pull_partition e topic partition x) [
  | none ↦ none
  | some y ↦ pull_partitions e topic (partition + 1) n y
]

pub pull_topics : Environment → List TopicMetadata → (Bool × ReplicationClient × LoopState) → Pulled
pull_topics e [] x = some x
pull_topics e (t ∷ ts) x = elim (pull_partitions e t.name 0 t.partition_count x) [
  | none ↦ none
  | some y ↦ pull_topics e ts y
]

-- Whether a leader was seen, and the state.
pub pull_peers : Environment → List ReplicationPeer → Bool → LoopState → Option (Bool × LoopState)
pull_peers e [] seen s = some (seen, s)
pull_peers e (peer ∷ peers) seen s =
    let skipped = pull_peers e peers seen s in
    elim (is_follower s.broker.coordinator.role && peer.leader) [
      | false ↦ skipped
      | true ↦ elim (pull_topics e (list_topics s.broker.queues) (seen, client_of peer s, s)) [
        | none ↦ none
        | some (seen_now, client, after) ↦ pull_peers e peers seen_now after
      ]
    ]
