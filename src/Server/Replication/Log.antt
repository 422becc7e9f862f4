-- ===== src/Server/Replication/Log.antt =====
-- The log side of `ReplicationCoordinator`, src/server/replication.cc: what the brokers have of each
-- partition, and what is committed.
use mq_project.Prelude.{
  ℕ, suc, ◌+◌, ◌%◌, ◌^◌, Bool, true, false, not, ◌&&◌, ◌||◌, Option, none, some, [], ◌∷◌, ltb, leb,
  ◌==◌, if◌then◌else◌,
}
use mq_project.Bytes.{Bytes}
use mq_project.Bytes.Equality.{bytes_eq}
use mq_project.Dict.{Dict, find, has, insert}
use mq_project.Server.Replication.{
  Replication, PartitionState, ReplicaProgress, Replicas, leader, follower, persist, majority, max,
  min, is_nil, is_leader, no_progress, no_state, or_else, is_healthy,
}

unfoldable pub state_of : Bytes → Replication → PartitionState
state_of partition c = or_else (find partition c.partition_states) no_state

unfoldable pub replicas_of : Bytes → Replication → Replicas
replicas_of partition c = or_else (find partition c.partition_replicas) []

unfoldable pub partition_commit_index : Bytes → Replication → ℕ
unfolding state_of
partition_commit_index partition c = (state_of partition c).commit_index

-- The update of one entry of progress by a heartbeat.
unfoldable pub refresh : Bytes → ℕ → ℕ → ℕ → ReplicaProgress → ReplicaProgress
refresh node_id replicated_offset now term r = record {
  node_id = node_id;
  replicated_offset = max r.replicated_offset replicated_offset;
  last_heartbeat = now;
  healthy = true;
  term = term;
}

-- `partition_replicas_[partition][node_id] = r`.
unfoldable pub put_progress : Bytes → Bytes → ReplicaProgress → Replication → Replication
unfolding replicas_of
put_progress partition node_id r c = record c {
  partition_replicas =
      insert partition (insert node_id r (replicas_of partition c)) c.partition_replicas;
}

unfoldable pub observe_heartbeat : Bytes → Bytes → ℕ → ℕ → Replication → Replication
unfolding refresh put_progress
observe_heartbeat partition node_id replicated_offset now c =
    if is_nil node_id || bytes_eq node_id c.node_id then c else elim (find node_id c.replicas) [
      | none ↦ c
      | some r ↦
          let own = or_else (find node_id (replicas_of partition c)) no_progress in
          put_progress partition node_id (refresh node_id replicated_offset now c.current_term own)
            (record c {
              replicas =
                  insert node_id (refresh node_id replicated_offset now c.current_term r)
                    c.replicas;
            })
    ]

-- The branch `term > current_term_` of `ObserveAppend`.
unfoldable pub enter_term : ℕ → Replication → Replication
unfolding persist
enter_term term c =
    if ltb c.current_term term
    then persist (record c { current_term = term; voted_for = [] })
    else c

-- What `ObserveAppend` notes of the leader's commit.
unfoldable pub follow_commit : Bytes → ℕ → ℕ → Replication → Replication
unfolding persist state_of
follow_commit partition replicated_offset leader_commit c =
    let state = state_of partition c in
    let commit = min (max state.commit_index leader_commit) replicated_offset in
    persist (record c {
      partition_states =
          insert partition (record state { commit_index = commit }) c.partition_states;
      commit_index = max c.commit_index commit;
      last_applied = max c.last_applied commit;
    })

unfoldable pub follow_leader : Bytes → ℕ → Bytes → ℕ → ℕ → Replication → Replication
unfolding put_progress
follow_leader partition term leader_id replicated_offset now c =
    if bytes_eq leader_id c.node_id
    then c
    else (let r = or_else (find leader_id c.replicas) no_progress in
        let r' : ReplicaProgress = record {
          node_id = leader_id;
          replicated_offset = r.replicated_offset;
          last_heartbeat = now;
          healthy = true;
          term = term;
        } in
        put_progress partition leader_id (record r' { replicated_offset = replicated_offset })
          (record c { replicas = insert leader_id r' c.replicas }))

unfoldable pub observe_append : Bytes → ℕ → Bytes → ℕ → ℕ → ℕ → Replication → Bool × Replication
unfolding enter_term follow_commit follow_leader
observe_append partition term leader_id replicated_offset leader_commit now c =
    if ltb term c.current_term
      || is_nil leader_id
      || (not (bytes_eq leader_id c.node_id) && not (has leader_id c.replicas))
    then (false, c)
    else (let entered = enter_term term c in
        let led = record entered {
          leader_id = leader_id;
          role = if bytes_eq leader_id entered.node_id then leader else follower;
        } in
        let committed = follow_commit partition replicated_offset leader_commit led in
        (true, follow_leader partition term leader_id replicated_offset now committed))

-- The loop that counts the healthy brokers that have the partition up to `offset`.
unfoldable pub count_replicated : ℕ → ℕ → ℕ → Replicas → ℕ
count_replicated timeout now offset [] = 0
count_replicated timeout now offset ((id, r) ∷ rs) =
    let rest = count_replicated timeout now offset rs in
    if is_healthy timeout r now && leb offset r.replicated_offset then suc rest else rest

unfoldable pub acknowledgements : Bytes → ℕ → ℕ → Replication → ℕ
unfolding count_replicated replicas_of
acknowledgements partition offset now c =
    count_replicated c.heartbeat_timeout now offset (replicas_of partition c)

-- `partition_states_[partition]` makes an entry where there is none, on every way out but the first.
unfoldable pub advance_commit : Bytes → ℕ → ℕ → Replication → Bool × Replication
unfolding acknowledgements majority persist state_of
advance_commit partition offset now c =
    let state = state_of partition c in
    let c' = record c { partition_states = insert partition state c.partition_states } in
    let commit = max state.commit_index offset in
    if not (is_leader c.role)
    then (false, c)
    else (if ltb state.local_offset offset || not (state.last_log_term == c.current_term)
        then (false, c')
        else (if ltb (1 + acknowledgements partition offset now c) (majority c)
            then (false, c')
            else (
              true,
              persist (record c {
                partition_states =
                    insert partition (record state { commit_index = commit; last_applied = commit })
                      c.partition_states;
                commit_index = max c.commit_index commit;
                last_applied = max c.last_applied commit;
              }),
            )))

unfoldable pub record_local_offset : Bytes → ℕ → Replication → Replication
unfolding state_of
record_local_offset partition offset c =
    let state = state_of partition c in
    record c {
      partition_states =
          insert partition
            (record state {
              local_offset = max state.local_offset offset;
              last_log_term = c.current_term;
            })
            c.partition_states;
    }

pub max_commit : Dict PartitionState → ℕ → ℕ
max_commit [] result = result
max_commit ((partition, state) ∷ rest) result = max_commit rest (max result state.commit_index)

-- `commitIndex()`, without a partition.
unfoldable pub highest_commit_index : Replication → ℕ
unfolding max_commit
highest_commit_index c = max_commit c.partition_states 0

unfoldable pub log_matches : Bytes → ℕ → ℕ → Replication → Bool
unfolding state_of
log_matches partition prev_log_index prev_log_term c =
    let state = state_of partition c in
    prev_log_index == 0
    || (prev_log_index == state.local_offset && prev_log_term == state.last_log_term)

unfoldable pub next_log_index : Bytes → Replication → ℕ
next_log_index partition c = elim (find partition c.partition_states) [
  | none ↦ 0
  | some state ↦ (state.local_offset + 1) % 2 ^ 64
]

abbrev pub has_offset : ℕ → Option PartitionState → ℕ
has_offset offset none = 0
has_offset offset (some state) = if leb offset state.local_offset then 1 else 0

unfoldable pub is_quorum_replicated : Bytes → ℕ → ℕ → ℕ → Replication → Bool
unfolding acknowledgements
is_quorum_replicated partition offset count now c =
    if count == 0
    then false
    else leb count (
        has_offset offset (find partition c.partition_states)
        + acknowledgements partition offset now c)
