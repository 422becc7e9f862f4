-- ===== src/Server/ReplicationLoop/Campaign.antt =====
-- The part of the round for an election: whoever has not seen a leader for too long asks for votes.
use mq_project.Prelude.{Bool, true, false, ◌||◌, Option, none, some, List, [], ◌∷◌, if◌then◌else◌}
use mq_project.Server.Replication.Election.{
  last_log_index, last_log_term, begin_election, begin_pre_vote, observe_pre_vote, observe_vote,
}
use mq_project.Server.Broker.{ReplicationPeer}
use mq_project.Server.ReplicationClient.Ballot.{vote, pre_vote}
use mq_project.Server.ReplicationLoop.{LoopState, Environment, client_of}
use mq_project.Prelude.{ℕ}

abbrev pub is_granted : Option Bool → Bool
is_granted none = false
is_granted (some granted) = granted

-- The loop that asks for votes ahead of the election.
pub ask_pre_votes : Environment → ℕ → List ReplicationPeer → Bool → LoopState → Bool × LoopState
ask_pre_votes e term [] majority s = (majority, s)
ask_pre_votes e term (peer ∷ peers) majority s =
    let c = s.broker.coordinator in
    let (granted, client) =
      pre_vote e.network term s.broker.node_id (last_log_index c) (last_log_term c)
        (client_of peer s) in
    let (reached, observed) = observe_pre_vote term peer.node_id true c in
    let skipped = ask_pre_votes e term peers majority s in
    let counted =
      ask_pre_votes e term peers (reached || majority)
        (record s { broker = record s.broker { coordinator = observed } }) in
    if peer.leader then skipped else (if is_granted granted then counted else skipped)

-- The loop that asks for votes.
pub ask_votes : Environment → ℕ → List ReplicationPeer → LoopState → LoopState
ask_votes e term [] s = s
ask_votes e term (peer ∷ peers) s =
    let c = s.broker.coordinator in
    let (granted, client) =
      vote e.network term s.broker.node_id (last_log_index c) (last_log_term c)
        (client_of peer s) in
    let skipped = ask_votes e term peers s in
    let counted = ask_votes e term peers (record s {
      broker = record s.broker { coordinator = (observe_vote term peer.node_id true c).1 };
    }) in
    if peer.leader then skipped else (if is_granted granted then counted else skipped)

-- The election, of which the first vote is this node's.
unfoldable pub run_election : Environment → LoopState → LoopState
unfolding ask_votes
run_election e s =
    let (election, begun) = begin_election s.broker.coordinator in
    let own = (observe_vote election.0 s.broker.node_id true begun).1 in
    ask_votes e election.0 s.broker.peers
      (record s { broker = record s.broker { coordinator = own } })

unfoldable pub campaign : Environment → LoopState → LoopState
unfolding ask_pre_votes run_election
campaign e s =
    let term = (begin_pre_vote s.broker.coordinator).0 in
    let (alone, observed) = observe_pre_vote term s.broker.node_id true s.broker.coordinator in
    let (majority, asked) =
      ask_pre_votes e term s.broker.peers alone
        (record s { broker = record s.broker { coordinator = observed } }) in
    if majority then run_election e asked else asked
