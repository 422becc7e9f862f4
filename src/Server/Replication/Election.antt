-- ===== src/Server/Replication/Election.antt =====
-- Elections of `ReplicationCoordinator`, src/server/replication.cc: asking for votes, granting and
-- counting them, and the leader's stepping down.
use mq_project.Prelude.{
  ℕ, ◌+◌, ◌%◌, ◌^◌, Bool, true, false, not, ◌&&◌, ◌||◌, List, [], ◌∷◌, length, ltb, leb, ◌==◌,
  if◌then◌else◌,
}
use mq_project.Bytes.{Bytes}
use mq_project.Bytes.Equality.{bytes_eq}
use mq_project.Dict.{Dict, has}
use mq_project.Server.Replication.{
  ReplicaProgress, is_healthy, Replication, PartitionState, leader, follower, candidate, persist,
  majority, max, is_nil, is_leader, is_candidate,
}

pub contains : Bytes → List Bytes → Bool
contains id [] = false
contains id (x ∷ xs) = bytes_eq x id || contains id xs

-- `std::unordered_set<std::string>::insert`.
unfoldable pub add : Bytes → List Bytes → List Bytes
unfolding contains
add id ids = if contains id ids then ids else id ∷ ids

-- `id` is this node or one of its replicas.
unfoldable pub is_member : Bytes → Replication → Bool
is_member id c = bytes_eq id c.node_id || has id c.replicas

-- The loops for the last entry of the log over all partitions.
pub max_offset : Dict PartitionState → ℕ → ℕ
max_offset [] result = result
max_offset ((partition, state) ∷ rest) result = max_offset rest (max result state.local_offset)

pub max_term : Dict PartitionState → ℕ → ℕ
max_term [] result = result
max_term ((partition, state) ∷ rest) result = max_term rest (max result state.last_log_term)

unfoldable pub last_log_index : Replication → ℕ
unfolding max_offset
last_log_index c = max_offset c.partition_states c.local_offset

unfoldable pub last_log_term : Replication → ℕ
unfolding max_term
last_log_term c = max_term c.partition_states 0

-- The result is the state's new term and this node.
unfoldable pub begin_election : Replication → (ℕ × Bytes) × Replication
unfolding persist
begin_election c =
    let term = (c.current_term + 1) % 2 ^ 64 in
    let c' = record c {
      current_term = term;
      role = candidate;
      leader_id = [];
      voted_for = c.node_id;
      votes = c.node_id ∷ [];
    } in
    ((term, c.node_id), persist c')

unfoldable pub begin_pre_vote : Replication → ℕ × Bytes
begin_pre_vote c = ((c.current_term + 1) % 2 ^ 64, c.node_id)

unfoldable pub observe_pre_vote : ℕ → Bytes → Bool → Replication → Bool × Replication
unfolding add is_member majority
observe_pre_vote term voter_id granted c =
    if not (term == (c.current_term + 1) % 2 ^ 64)
      || not granted
      || is_nil voter_id
      || not (is_member voter_id c)
    then (false, c)
    else (let pre_votes = add voter_id c.pre_votes in
        (leb (majority c) (length pre_votes), record c { pre_votes = pre_votes }))

-- The candidate's log ends before this node's.
unfoldable pub is_behind : ℕ → ℕ → Replication → Bool
unfolding last_log_index last_log_term
is_behind index term c =
    ltb term (last_log_term c) || (term == last_log_term c && ltb index (last_log_index c))

-- The branch `term > current_term_`.
unfoldable pub adopt_term : ℕ → Replication → Replication
adopt_term term c =
    if ltb c.current_term term
    then record c { current_term = term; voted_for = []; role = follower; leader_id = [] }
    else c

unfoldable pub grant_vote : Bytes → Replication → Bool × Replication
unfolding persist
grant_vote candidate_id c =
    if not (is_nil c.voted_for) && not (bytes_eq c.voted_for candidate_id)
    then (false, c)
    else (true, persist (record c { voted_for = candidate_id }))

unfoldable pub request_vote : ℕ → Bytes → ℕ → ℕ → Replication → Bool × Replication
unfolding is_behind is_member adopt_term grant_vote
request_vote term candidate_id candidate_last_log_index candidate_last_log_term c =
    if is_nil candidate_id || ltb term c.current_term || not (is_member candidate_id c)
    then (false, c)
    else (if is_behind candidate_last_log_index candidate_last_log_term c
        then (false, c)
        else grant_vote candidate_id (adopt_term term c))

unfoldable pub request_pre_vote : ℕ → Bytes → ℕ → ℕ → Replication → Bool
unfolding last_log_index last_log_term is_member
request_pre_vote term candidate_id candidate_last_log_index candidate_last_log_term c =
    if is_nil candidate_id || ltb term c.current_term || not (is_member candidate_id c)
    then false
    else (ltb (last_log_term c) candidate_last_log_term
        || (candidate_last_log_term == last_log_term c
            && leb (last_log_index c) candidate_last_log_index))

unfoldable pub count_vote : Bytes → Replication → Bool × Replication
unfolding add majority persist
count_vote voter_id c =
    let votes = add voter_id c.votes in
    if leb (majority c) (length votes)
    then (
      true,
      persist
          (record c { votes = votes; role = leader; leader_id = c.node_id; voted_for = c.node_id }),
    )
    else (false, record c { votes = votes })

unfoldable pub observe_vote : ℕ → Bytes → Bool → Replication → Bool × Replication
unfolding is_member count_vote
observe_vote term voter_id granted c =
    if not (term == c.current_term) || not (is_candidate c.role) || not granted || is_nil voter_id
    then (false, c)
    else (if is_member voter_id c then count_vote voter_id c else (false, c))

unfoldable pub observe_heartbeat_round : Bool → Replication → Bool × Replication
observe_heartbeat_round majority_responded c =
    let missed = c.missed_heartbeat_rounds + 1 in
    if not (is_leader c.role)
    then (false, c)
    else (if majority_responded
        then (true, record c { missed_heartbeat_rounds = 0 })
        else (if ltb missed 3 then (true, record c { missed_heartbeat_rounds = missed }) else (
          false,
          record c {
            missed_heartbeat_rounds = missed;
            role = follower;
            leader_id = [];
            votes = [];
          },
        )))

-- The empty name is none.
unfoldable pub elect_leader : ℕ → Replication → Bytes
elect_leader now c =
    let own : ReplicaProgress = record {
      node_id = c.node_id;
      replicated_offset = 0;
      last_heartbeat = now;
      healthy = true;
      term = c.current_term;
    } in
    if is_leader c.role
    then c.node_id
    else (if is_healthy c.heartbeat_timeout own now then c.node_id else [])
