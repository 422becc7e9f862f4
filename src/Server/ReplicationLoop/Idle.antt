-- ===== src/Server/ReplicationLoop/Idle.antt =====
-- A leader of brokers without topics.
use mq_project.Prelude.{
  ℕ, ◌+◌, ◌≡◌, ◌≢◌, ◌<◌, ◌≤◌, lt→ltb, le→ltb, refl, ap, ◌∙◌, arith, true, false, some, List, [],
  ◌∷◌, leb,
}
use mq_project.Core.Queues.{list_topics}
use mq_project.Server.Replication.{follower, Replication, is_leader}
use mq_project.Server.Replication.Election.{observe_heartbeat_round}
use mq_project.Server.Broker.{ReplicationPeer}
use mq_project.Server.ReplicationLoop.{LoopState, Environment}
use mq_project.Server.ReplicationLoop.Lead.{
  lead_topics, lead_peers, responses_needed, close_round, lead,
}
use mq_project.Server.ReplicationLoop.Round.{round, rounds}

-- No heartbeat is sent.
lead_peers_idle :
    (e : Environment) (peers : List ReplicationPeer) (responses : ℕ) (s : LoopState)
    → list_topics s.broker.queues ≡ []
    → lead_peers e peers responses s ≡ some (responses, s)
unfolding lead_peers lead_topics
lead_peers_idle e [] responses s h = refl
lead_peers_idle e (peer ∷ peers) responses s h =
    rw (h, lead_peers) (lead_peers_idle e peers responses s h)

missed : LoopState → LoopState
missed s = record s {
  broker = record s.broker { coordinator = (observe_heartbeat_round false s.broker.coordinator).1 };
}

lead_idle :
    (e : Environment) (s : LoopState)
    → list_topics s.broker.queues ≡ []
    → s.broker.peers ≢ []
    → lead e s ≡ some (missed s)
unfolding lead close_round missed
lead_idle e s h n =
    let few : leb (responses_needed s.broker.peers) 1 ≡ false = several s.broker.peers n in
    rw (lead_peers_idle e s.broker.peers 1 s h, lead) (rw few refl)
  where
    several : (peers : List ReplicationPeer) → peers ≢ [] → leb (responses_needed peers) 1 ≡ false
    several [] n = absurd (n refl)
    several (p ∷ peers) n = ground arith

round_idle :
    (e : Environment) (s : LoopState)
    → is_leader s.broker.coordinator.role ≡ true
    → list_topics s.broker.queues ≡ []
    → s.broker.peers ≢ []
    → round e s ≡ some (missed s)
unfolding round
round_idle e s l h n = rw l (lead_idle e s h n)

missed_early :
    (c : Replication)
    → is_leader c.role ≡ true
    → c.missed_heartbeat_rounds < 2
    → (observe_heartbeat_round false c).1
      ≡ record c { missed_heartbeat_rounds = c.missed_heartbeat_rounds + 1 }
unfolding observe_heartbeat_round
missed_early c l few =
    rw l (rw (lt→ltb (c.missed_heartbeat_rounds + 1) 3 (omega (arith, few))) refl)

missed_late :
    (c : Replication)
    → is_leader c.role ≡ true
    → 2 ≤ c.missed_heartbeat_rounds
    → (observe_heartbeat_round false c).1.role ≡ follower
unfolding observe_heartbeat_round
missed_late c l many =
    rw l (rw (le→ltb (c.missed_heartbeat_rounds + 1) 3 (omega (arith, many))) refl)

-- A leader with peers and without topics, which has missed no round yet, is a follower after three rounds, whatever its peers answer:
-- it sends them nothing that they could answer.
pub rounds-idle :
    (e f g : Environment) (s : LoopState)
    → is_leader s.broker.coordinator.role ≡ true
    → s.broker.coordinator.missed_heartbeat_rounds ≡ 0
    → list_topics s.broker.queues ≡ []
    → s.broker.peers ≢ []
    → (t : LoopState) × (rounds (e ∷ f ∷ g ∷ []) s ≡ some t)
      × (t.broker.coordinator.role ≡ follower)
unfolding rounds missed
rounds-idle e f g s l z h n =
    let c = s.broker.coordinator in
    let one : (observe_heartbeat_round false c).1 ≡ record c { missed_heartbeat_rounds = 1 } =
      missed_early c l (omega (arith, z))
      ∙ ap (λ n. record c { missed_heartbeat_rounds = n }) {x = c.missed_heartbeat_rounds + 1}
          {y = 1} (omega (arith, z)) in
    let c1 = record c { missed_heartbeat_rounds = 1 } in
    let c2 = record c { missed_heartbeat_rounds = 2 } in
    let s1 = record s { broker = record s.broker { coordinator = c1 } } in
    let s2 = record s { broker = record s.broker { coordinator = c2 } } in
    let first : round e s ≡ some s1 =
      round_idle e s l h n
      ∙ ap (λ k. some (record s { broker = record s.broker { coordinator = k } })) one in
    let second : round f s1 ≡ some s2 =
      round_idle f s1 l h n
      ∙ ap (λ k. some (record s { broker = record s.broker { coordinator = k } }))
          (missed_early c1 l (omega arith)) in
    let third : round g s2 ≡ some (missed s2) = round_idle g s2 l h n in
    (
      missed s2,
      rw (first, rounds) (rw (second, rounds) (rw (third, rounds) refl)),
      missed_late c2 l (omega arith),
    )
