-- ===== src/Server/Tests.antt =====
-- The theorems on replication at concrete brokers.
use mq_project.Prelude.{◌+◌, ◌*◌, ◌≤◌, ◌<◌, ◌≡◌, ◌⊎◌, length, refl, arith, true, some, [], ◌∷◌}
use mq_project.Bytes.{Bytes}
use mq_project.Bytes.Equality.{bytes_eq}
use mq_project.Dict.{find, insert, has}
use mq_project.Server.Replication.{
  unwritten, Replication, leader, follower, start, load_state, persist, state_bytes, read_state,
  le_bytes, register_replica, Replicas,
}
use mq_project.Server.Replication.Election.{
  request_vote, grant_vote, adopt_term, is_member, is_behind, last_log_index, last_log_term,
}
use mq_project.Server.Replication.Log.{
  advance_commit, partition_commit_index, replicas_of, state_of, record_local_offset,
}
use mq_project.Server.Replication.StateFile.{IsSavable, saved, read_state-state_bytes}
use mq_project.Server.Replication.Step.{perform, registered, restarted, recorded}
use mq_project.Server.Replication.Votes.{here, after, one_vote_per_term}
use mq_project.Server.Replication.Quorum.{SomeOf, AllHold, advance_commit-quorum}

abbrev node : Bytes
node = 0x6E ∷ []

abbrev other : Bytes
other = 0x61 ∷ []

-- A follower that knows one other broker.
abbrev knows_other : Replication
knows_other = perform (registered other) (start node follower 10 true [])

-- It grants its vote, restarts, and is asked again.
abbrev asked_again : Replication
asked_again =
    perform (registered other)
      (perform (restarted follower) (request_vote 5 other 0 0 knows_other).1)

granted : (request_vote 5 other 0 0 knows_other).0 ≡ true
unfolding perform start load_state register_replica request_vote grant_vote adopt_term persist
    read_state is_member is_behind last_log_index last_log_term state_bytes find has insert bytes_eq
    le_bytes
granted = refl

granted_again : (request_vote 5 other 0 0 asked_again).0 ≡ true
unfolding perform start load_state register_replica request_vote grant_vote adopt_term persist
    read_state is_member is_behind last_log_index last_log_term state_bytes find has insert bytes_eq
    le_bytes
granted_again = refl

one_vote_per_term_example : other ≡ other
one_vote_per_term_example =
    one_vote_per_term node follower 10 knows_other asked_again 5 other other 0 0 0 0 (omega arith)
      (omega arith) (ground arith) (after (registered other) _ here tt) (omega arith) (omega arith)
      granted (after (registered other) _ (after (restarted follower) _ here (ground arith)) tt)
      granted_again

knows_other-IsSavable : IsSavable knows_other
unfolding perform start load_state register_replica read_state
knows_other-IsSavable = ground arith

read_state-state_bytes_example : read_state (state_bytes knows_other) ≡ some (saved knows_other)
read_state-state_bytes_example = read_state-state_bytes knows_other knows_other-IsSavable

-- A broker alone, with entries up to 7.
-- It grants its vote while the state file cannot be written.
abbrev unwriting : Replication
unwriting = record knows_other { state_write = unwritten }

abbrev alone : Replication
alone = perform (recorded other 7) (start node leader 10 true [])

advance_commit-quorum_example :
    let after = (advance_commit other 6 0 alone).1 in
    (alone.role ≡ leader)
    × (6 ≤ (state_of other alone).local_offset)
    × ((state_of other alone).last_log_term ≡ alone.current_term)
    × ((holders : Replicas) × SomeOf holders (replicas_of other alone)
        × AllHold 10 0 6 holders
        × (length alone.replicas + 1 < 2 * (1 + length holders)))
    × (6 ≤ partition_commit_index other after)
    × (partition_commit_index other alone ≤ partition_commit_index other after)
    × ((partition_commit_index other after ≡ 6)
        ⊎ (partition_commit_index other after ≡ partition_commit_index other alone))
unfolding advance_commit perform start load_state record_local_offset read_state find insert
    bytes_eq
advance_commit-quorum_example = advance_commit-quorum other 6 0 alone refl
