-- ===== src/Server/ReplicationLoop/Round.antt =====
-- A whole round.
use mq_project.Prelude.{◌-◌, Bool, false, Option, none, some, List, [], ◌∷◌, leb, if◌then◌else◌}
use mq_project.Server.Replication.{is_leader}
use mq_project.Server.ReplicationLoop.{LoopState, Environment}
use mq_project.Server.ReplicationLoop.Pull.{pull_peers}
use mq_project.Server.ReplicationLoop.Campaign.{campaign}
use mq_project.Server.ReplicationLoop.Lead.{lead}

abbrev pub reset_timer : Environment → LoopState → LoopState
reset_timer e s = record s { last_election = e.now; election_timeout = e.next_timeout }

-- Whether the time for an election has come.
unfoldable pub watch : Environment → Bool × LoopState → LoopState
watch e (leader_seen, s) =
    if leader_seen
    then reset_timer e s
    else (if leb s.election_timeout (e.now - s.last_election)
        then reset_timer e (campaign e s)
        else s)

unfoldable pub follow_round : Environment → LoopState → Option LoopState
unfolding watch
follow_round e s = elim (pull_peers e s.broker.peers false s) [
  | none ↦ none
  | some seen ↦ some (watch e seen)
]

-- One round of the `while`; `none` is undefined behaviour of the storage.
unfoldable pub round : Environment → LoopState → Option LoopState
unfolding follow_round
round e s = if is_leader s.broker.coordinator.role then lead e s else follow_round e s

-- The rounds until the thread is stopped.
unfoldable pub rounds : List Environment → LoopState → Option LoopState
rounds [] s = some s
rounds (e ∷ es) s = elim (round e s) [ none ↦ none | some after ↦ rounds es after ]
