-- ===== src/Server/Replication/Quorum.antt =====
-- What is committed in a partition is on a majority of the brokers, and the commit index of a broker
-- grows.
use mq_project.Prelude.{
  ℕ, suc, ◌+◌, ◌*◌, ◌≤◌, ◌<◌, ◌≡◌, ◌⊎◌, [], ◌∷◌, length, ◌&&◌, leb, inl, inr, refl, ap, not, ◌||◌,
  ltb, ◌==◌, true, some, arith, Bool-cases,
}
use mq_project.Bytes.{Bytes}
use mq_project.Dict.{find, insert}
use mq_project.Dict.Laws.{find-insert_self}
use mq_project.Server.Replication.{
  Replication, Replicas, ReplicaProgress, is_healthy, PartitionState, no_state, or_else, leader,
  persist, max, majority, is_leader,
}
use mq_project.Server.Replication.Log.{
  advance_commit, acknowledgements, count_replicated, replicas_of, state_of, partition_commit_index,
}

module _ (p : Bytes) (offset now : ℕ) (c : Replication) where
  -- The state after an advance, but for the file.
  abbrev advanced_state : Replication
  advanced_state =
      let state = state_of p c in
      let commit = max state.commit_index offset in
      record c {
        partition_states =
            insert p (record state { commit_index = commit; last_applied = commit })
              c.partition_states;
        commit_index = max c.commit_index commit;
        last_applied = max c.last_applied commit;
      }

  advance_commit-true :
      (advance_commit p offset now c).0 ≡ true
      → (c.role ≡ leader)
        × (offset ≤ (state_of p c).local_offset)
        × ((state_of p c).last_log_term ≡ c.current_term)
        × (majority c ≤ 1 + acknowledgements p offset now c)
        × ((advance_commit p offset now c).1 ≡ persist advanced_state)
  unfolding advance_commit
  advance_commit-true h =
      let late =
        ltb (state_of p c).local_offset offset
        || not ((state_of p c).last_log_term == c.current_term) in
      let few = ltb (1 + acknowledgements p offset now c) (majority c) in
      elim (Bool-cases (is_leader c.role)) [
        | inr e ↦ absurd (ground (arith, e, h))
        | inl e ↦ elim (Bool-cases late) [
          | inl l ↦ absurd (ground (arith, e, l, h))
          | inr l ↦ elim (Bool-cases few) [
            | inl f ↦ absurd (ground (arith, e, l, f, h))
            | inr f ↦ rw (e, advance_commit) (rw l (rw f (ground (arith, e, l, f))))
          ]
        ]
      ]

  kept_states : (persist advanced_state).partition_states ≡ advanced_state.partition_states
  unfolding persist
  kept_states = elim (Bool-cases c.has_state_path) [ inl e ↦ rw e | inr e ↦ rw e ]

  abbrev advanced_partition : PartitionState
  advanced_partition =
      let commit = max (state_of p c).commit_index offset in
      record (state_of p c) { commit_index = commit; last_applied = commit }

  find-advanced : find p (persist advanced_state).partition_states ≡ some advanced_partition
  find-advanced = rw kept_states (find-insert_self p advanced_partition c.partition_states)

  commit_after :
      partition_commit_index p (persist advanced_state) ≡ max (state_of p c).commit_index offset
  unfolding partition_commit_index state_of
  commit_after = ap (λ o. (or_else o no_state).commit_index) find-advanced

  commit_before : partition_commit_index p c ≡ (state_of p c).commit_index
  unfolding partition_commit_index
  commit_before = refl

-- What another broker has reported: it has the partition up to `offset`, and it is healthy and was heard
-- of within the timeout.
pub record Holds (timeout now offset : ℕ) (r : ReplicaProgress) : Type 0 where
  pub reaches : offset ≤ r.replicated_offset
  pub alive : r.healthy ≡ true
  pub recent : now ≤ r.last_heartbeat + timeout

abbrev pub AllHold : ℕ → ℕ → ℕ → Replicas → Type 0
AllHold timeout now offset [] = Unit
AllHold timeout now offset ((id, r) ∷ rs) =
    Holds timeout now offset r × AllHold timeout now offset rs

-- Some of the entries of a map.
pub data SomeOf : Replicas → Replicas → Type 0 where
  ends : SomeOf [] []
  keeps :
      (id : Bytes) (r : ReplicaProgress) (rs ss : Replicas)
      → SomeOf rs ss
      → SomeOf ((id, r) ∷ rs) ((id, r) ∷ ss)
  skips :
      (id : Bytes) (r : ReplicaProgress) (rs ss : Replicas)
      → SomeOf rs ss
      → SomeOf rs ((id, r) ∷ ss)

healthy-Holds :
    (timeout now offset : ℕ) (r : ReplicaProgress)
    → is_healthy timeout r now && leb offset r.replicated_offset ≡ true
    → Holds timeout now offset r
unfolding is_healthy
healthy-Holds timeout now offset r h = record {
  reaches = ground (arith, h);
  alive = ground (arith, h);
  recent = ground (arith, h);
}

count_replicated-Holds :
    (timeout now offset : ℕ) (rs : Replicas)
    → (holders : Replicas) × SomeOf holders rs
      × AllHold timeout now offset holders
      × (length holders ≡ count_replicated timeout now offset rs)
unfolding count_replicated
count_replicated-Holds timeout now offset [] = ([], ends, tt, refl)
count_replicated-Holds timeout now offset ((id, r) ∷ rs) =
    let (holders, part, hold, e) = count_replicated-Holds timeout now offset rs in
    elim (Bool-cases (is_healthy timeout r now && leb offset r.replicated_offset)) [
      | inl good ↦ (
        (id, r) ∷ holders,
        keeps id r holders rs part,
        (healthy-Holds timeout now offset r good, hold),
        rw (good, count_replicated) (ap suc e),
      )
      | inr bad ↦ (holders, skips id r holders rs part, hold, rw (bad, count_replicated) e)
    ]

over_half : (c : Replication) (n : ℕ) → majority c ≤ 1 + n → length c.replicas + 1 < 2 * (1 + n)
unfolding majority
over_half c n h = omega (arith, h)

-- When `AdvanceCommit` commits a partition up to `offset`, this broker is the leader and has the partition
-- up to there, and its last entry is of the current term. Among the brokers whose progress in the partition
-- is known there are some that have it up to `offset`, are healthy and were heard of within the timeout,
-- and together with this one they are more than half of it and all its replicas. The commit index of the
-- partition is then the larger of what it was and `offset`.
pub advance_commit-quorum :
    (p : Bytes) (offset now : ℕ) (c : Replication)
    → (advance_commit p offset now c).0 ≡ true
    → let after = (advance_commit p offset now c).1 in
      (c.role ≡ leader)
      × (offset ≤ (state_of p c).local_offset)
      × ((state_of p c).last_log_term ≡ c.current_term)
      × ((holders : Replicas) × SomeOf holders (replicas_of p c)
          × AllHold c.heartbeat_timeout now offset holders
          × (length c.replicas + 1 < 2 * (1 + length holders)))
      × (offset ≤ partition_commit_index p after)
      × (partition_commit_index p c ≤ partition_commit_index p after)
      × ((partition_commit_index p after ≡ offset)
          ⊎ (partition_commit_index p after ≡ partition_commit_index p c))
unfolding acknowledgements
advance_commit-quorum p offset now c h =
    let (leads, reaches, current, enough, e) = advance_commit-true p offset now c h in
    let (holders, part, hold, n) =
      count_replicated-Holds c.heartbeat_timeout now offset (replicas_of p c) in
    let index = commit_after p offset now c in
    let before = commit_before p offset now c in
    rw e (
      leads,
      reaches,
      current,
      (holders, part, hold, over_half c (length holders) (omega (arith, enough, n))),
      ground (arith, index),
      ground (arith, index, before),
      ground (arith, index, before),
    )
