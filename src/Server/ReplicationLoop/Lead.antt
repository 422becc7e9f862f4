-- ===== src/Server/ReplicationLoop/Lead.antt =====
-- The leader's part of the round: heartbeats, and messages for those that answer them.
use mq_project.Prelude.{
  ℕ, zero, suc, ◌+◌, ◌-◌, ◌*◌, ◌/◌, ◌%◌, ◌^◌, Bool, false, Option, none, some, List, [], ◌∷◌, ◌++◌,
  length, leb, ◌==◌, if◌then◌else◌,
}
use mq_project.Bytes.{Bytes}
use mq_project.Dict.{find, has, insert}
use mq_project.Core.Queues.{TopicMetadata, list_topics}
use mq_project.Core.Storage.{Message}
use mq_project.Core.Storage.Engine
use mq_project.Core.Storage.Engine.{Outcome, done, failed, faulted}
use mq_project.Server.Replication.Election.{last_log_term, observe_heartbeat_round}
use mq_project.Server.Replication.Log.{partition_commit_index, observe_heartbeat}
use mq_project.Server.Broker.{ReplicationPeer}
use mq_project.Server.Broker.Groups.{partition_key}
use mq_project.Server.Broker.Replicas.{last_offset}
use mq_project.Server.ReplicationClient.{ReplicationClient}
use mq_project.Server.ReplicationClient.Append
use mq_project.Server.ReplicationLoop.{LoopState, Environment, client_of, or_zero}

-- The heartbeats that were answered so far, the client and the state.
abbrev pub Led : Type 0
Led = ℕ × ReplicationClient × LoopState

abbrev pub follower_key : ReplicationPeer → Bytes → Bytes
follower_key peer key = peer.node_id ++ (0x3A ∷ key)

-- `replication_offsets_[key]`, which makes an entry.
unfoldable pub touch : Bytes → LoopState → LoopState
touch key s =
    if has key s.replication_offsets
    then s
    else record s { replication_offsets = insert key 0 s.replication_offsets }

abbrev pub previous : List Message → ℕ
previous [] = 0
previous (m ∷ ms) = if m.offset == 0 then 0 else m.offset - 1

abbrev pub is_taken : Option Bool → Bool
is_taken none = false
is_taken (some taken) = taken

-- The messages that the follower lacks are sent.
unfoldable pub send_pending :
    Environment
    → ReplicationPeer
    → Bytes
    → ℕ
    → List Message
    → ℕ
    → ReplicationClient
    → LoopState
    → Led
send_pending e peer topic partition [] responses client s = (responses, client, s)
send_pending e peer topic partition (m ∷ ms) responses client s =
    let c = s.broker.coordinator in
    let key = partition_key topic partition in
    let (result, after) =
      Append.append e.network topic partition (m ∷ ms) c.current_term (partition_commit_index key c)
        s.broker.node_id (previous (m ∷ ms)) (last_log_term c) client in
    if is_taken result.0
    then (
      responses,
      after,
      record s {
        replication_offsets =
            insert (follower_key peer key) ((last_offset (m ∷ ms) + 1) % 2 ^ 64)
              s.replication_offsets;
      },
    )
    else (responses, after, s)

-- A heartbeat was answered.
unfoldable pub catch_up :
    Environment → ReplicationPeer → Bytes → ℕ → ℕ → ReplicationClient → LoopState → Option Led
unfolding touch send_pending
catch_up e peer topic partition responses client s =
    let key = partition_key topic partition in
    let c = s.broker.coordinator in
    let observed = observe_heartbeat key peer.node_id (partition_commit_index key c) e.now c in
    let heard =
      touch (follower_key peer key)
        (record s { broker = record s.broker { coordinator = observed } }) in
    let from = or_zero (find (follower_key peer key) heard.replication_offsets) in
    let (result, engine) =
      Engine.read e.opens e.clock topic partition from (1024 * 1024) heard.broker.storage in
    let loaded = record heard { broker = record heard.broker { storage = engine } } in
    elim result [
      | faulted ↦ none
      | failed x ↦ some (responses + 1, client, loaded)
      | done pending ↦
          some (send_pending e peer topic partition pending (responses + 1) client loaded)
    ]

unfoldable pub lead_partition : Environment → ReplicationPeer → Bytes → ℕ → Led → Option Led
unfolding catch_up
lead_partition e peer topic partition (responses, client, s) =
    let c = s.broker.coordinator in
    let commit = partition_commit_index (partition_key topic partition) c in
    let (result, after) =
      Append.heartbeat e.network topic partition s.broker.node_id commit c.current_term commit
        client in
    if is_taken result
    then catch_up e peer topic partition responses after s
    else some (responses, after, s)

-- The loops over the partitions, the topics and the peers.
pub lead_partitions : Environment → ReplicationPeer → Bytes → ℕ → ℕ → Led → Option Led
lead_partitions e peer topic partition zero x = some x
lead_partitions e peer topic partition (suc n) x = elim (lead_partition e peer topic partition x) [
  | none ↦ none
  | some y ↦ lead_partitions e peer topic (partition + 1) n y
]

unfoldable pub lead_topics : Environment → ReplicationPeer → List TopicMetadata → Led → Option Led
lead_topics e peer [] x = some x
lead_topics e peer (t ∷ ts) x = elim (lead_partitions e peer t.name 0 t.partition_count x) [
  | none ↦ none
  | some y ↦ lead_topics e peer ts y
]

unfoldable pub lead_peers :
    Environment → List ReplicationPeer → ℕ → LoopState → Option (ℕ × LoopState)
lead_peers e [] responses s = some (responses, s)
lead_peers e (peer ∷ peers) responses s =
    elim (lead_topics e peer (list_topics s.broker.queues) (responses, client_of peer s, s)) [
      | none ↦ none
      | some (more, client, after) ↦ lead_peers e peers more after
    ]

-- The heartbeats that make a round complete.
abbrev pub responses_needed : List ReplicationPeer → ℕ
responses_needed peers = (length peers + 2) / 2 + 1

unfoldable pub close_round : ℕ × LoopState → LoopState
close_round (responses, s) = record s {
  broker = record s.broker {
    coordinator =
        (observe_heartbeat_round (leb (responses_needed s.broker.peers) responses)
          s.broker.coordinator).1;
  };
}

unfoldable pub lead : Environment → LoopState → Option LoopState
unfolding lead_peers close_round
lead e s = elim (lead_peers e s.broker.peers 1 s) [
  | none ↦ none
  | some counted ↦ some (close_round counted)
]
