-- ===== src/Server/ReplicationClient/Ballot.antt =====
-- `Vote` and `PreVote` of src/server/replication_client.cc.
use mq_project.Prelude.{
  ℕ, ◌%◌, ◌^◌, Bool, true, false, not, ◌||◌, Option, none, some, [], ◌∷◌, ◌++◌, length, ltb, ◌==◌,
  if◌then◌else◌,
}
use mq_project.Bytes.{Bytes, put16, put64}
use mq_project.Protocol.Command
use mq_project.Server.Replication.{is_nil}
use mq_project.Server.ReplicationClient.{
  Error, invalid_vote_response, ReplicationClient, Network, Called, answered, refused, faulted,
  call,
}

unfoldable pub vote_payload : ℕ → Bytes → ℕ → ℕ → Bytes
vote_payload term candidate_id last_log_index last_log_term =
    put64
      (put64 (put16 (put64 [] term) (length candidate_id % 2 ^ 16) ++ candidate_id) last_log_index)
      last_log_term

-- A response has one byte, which tells whether the vote is granted.
abbrev pub granted_by : Bytes → Option Bool
granted_by [] = none
granted_by (byte ∷ []) = some (not (byte == 0))
granted_by (byte ∷ other ∷ more) = none

abbrev pub is_none_granted : Option Bool → Bool
is_none_granted none = true
is_none_granted (some granted) = false

-- `e` is the error of a response that has another size. `some granted` is `true` with the output `granted`, `none` is `false`.
abbrev pub take_vote : Option Error → Called × ReplicationClient → Option Bool × ReplicationClient
take_vote e (refused, c) = (none, c)
take_vote e (faulted, c) = (none, c)
take_vote e (answered response, c) = (
  granted_by response,
  if is_none_granted (granted_by response) then record c { error = e } else c,
)

unfoldable pub vote :
    Network → ℕ → Bytes → ℕ → ℕ → ReplicationClient → Option Bool × ReplicationClient
unfolding vote_payload call
vote network term candidate_id last_log_index last_log_term c =
    if is_nil candidate_id || ltb 65535 (length candidate_id)
    then (none, c)
    else take_vote (some invalid_vote_response) (
        call network Command.replica_vote candidate_id
          (vote_payload term candidate_id last_log_index last_log_term) false c)

unfoldable pub pre_vote :
    Network → ℕ → Bytes → ℕ → ℕ → ReplicationClient → Option Bool × ReplicationClient
unfolding vote_payload call
pre_vote network term candidate_id last_log_index last_log_term c =
    if is_nil candidate_id || ltb 65535 (length candidate_id)
    then (none, c)
    else take_vote none (
        call network Command.replica_vote candidate_id
          (vote_payload term candidate_id last_log_index last_log_term) true c)
