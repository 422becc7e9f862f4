-- ===== src/Server/Replication/Carry.antt =====
-- Each operation of a broker carries its vote on: within a term it changes only from none to one, and
-- the state file has it.
use mq_project.Prelude.{
  ℕ, ◌+◌, ◌%◌, ◌^◌, ◌≤◌, ◌<◌, ◌≡◌, ◌≢◌, ◌⊎◌, inl, inr, refl, sym, ◌∙◌, not, ◌&&◌, ◌||◌, ◌==◌, leb,
  ltb, Bool, false, [], ◌∷◌, length, arith, Bool-cases, Option-cases, if◌then◌else◌, ltb→lt,
}
use mq_project.Bytes.{Bytes}
use mq_project.Bytes.Equality.{bytes_eq, bytes_eq_iff}
use mq_project.Dict.{find, insert}
use mq_project.Server.Replication.{
  Replication, Role, leader, follower, candidate, start, load_state, set_leader, register_replica,
  remove_replica, is_leader, is_candidate, is_nil, majority, max,
}
use mq_project.Server.Replication.Election.{
  begin_election, observe_pre_vote, request_vote, observe_vote, count_vote, grant_vote, adopt_term,
  is_member, is_behind, observe_heartbeat_round, add,
}
use mq_project.Server.Replication.Log.{
  observe_heartbeat, advance_commit, record_local_offset, put_progress, acknowledgements, state_of,
}
use mq_project.Server.Replication.Step.{
  IsSound, IsDurable, Carries, persist-Carries, same-Carries, Quiet, Quiet-Carries, perform,
  restarted,
}

module _ (c : Replication) (v : IsSound c) (w : IsDurable c) where
  quiet : (d : Replication) → Quiet c d → Carries c d
  quiet d q = Quiet-Carries c d q v w

  pub set_leader-Carries : (id : Bytes) → Carries c (set_leader id c)
  unfolding set_leader
  set_leader-Carries id =
      persist-Carries c
        (record c {
          leader_id = id;
          role = if bytes_eq id c.node_id then leader else follower;
          votes = [];
        })
        (ground (arith, v, Bool-cases (bytes_eq id c.node_id))) (inr (refl, inl refl))

  pub register_replica-Carries : (id : Bytes) → Carries c (register_replica id c)
  unfolding register_replica
  register_replica-Carries id = quiet (register_replica id c) (ground arith)

  pub remove_replica-Carries : (id : Bytes) → Carries c (remove_replica id c)
  unfolding remove_replica
  remove_replica-Carries id = quiet (remove_replica id c) (ground arith)

  pub observe_heartbeat-Carries :
      (p id : Bytes) (offset now : ℕ) → Carries c (observe_heartbeat p id offset now c)
  unfolding observe_heartbeat put_progress
  observe_heartbeat-Carries p id offset now =
      quiet (observe_heartbeat p id offset now c)
        (ground (arith, Option-cases (find id c.replicas)))

  pub observe_pre_vote-Carries :
      (term : ℕ) (id : Bytes) (granted : Bool) → Carries c (observe_pre_vote term id granted c).1
  unfolding observe_pre_vote
  observe_pre_vote-Carries term id granted =
      quiet (observe_pre_vote term id granted c).1 (ground arith)

  pub observe_heartbeat_round-Carries : (b : Bool) → Carries c (observe_heartbeat_round b c).1
  unfolding observe_heartbeat_round
  observe_heartbeat_round-Carries b = quiet (observe_heartbeat_round b c).1 (ground arith)

  pub record_local_offset-Carries :
      (p : Bytes) (offset : ℕ) → Carries c (record_local_offset p offset c)
  unfolding record_local_offset
  record_local_offset-Carries p offset = quiet (record_local_offset p offset c) (ground arith)

  pub begin_election-Carries : c.current_term + 1 < 2 ^ 64 → Carries c (begin_election c).1
  unfolding begin_election
  begin_election-Carries h =
      persist-Carries c
        (record c {
          current_term = (c.current_term + 1) % 2 ^ 64;
          role = candidate;
          leader_id = [];
          voted_for = c.node_id;
          votes = c.node_id ∷ [];
        })
        (ground (arith, v)) (inl (omega arith))

  pub restart-Carries : (role : Role) → role ≢ candidate → Carries c (perform (restarted role) c)
  unfolding perform start load_state
  restart-Carries role h =
      rw (v.kept, load_state)
        (elim w [
          | inl (e, t, o) ↦
              rw (e, load_state)
                (record {
                  sound = ground (arith, v);
                  durable = inl (e, refl, refl);
                  moved = inr (sym t, inl (sym o));
                })
          | inr (s, e, t, o) ↦
              rw (e, load_state)
                (record {
                  sound = ground (arith, v);
                  durable = inr (s, e, refl, refl);
                  moved = inr (t, inl o);
                })
        ])

  pub advance_commit-Carries :
      (p : Bytes) (offset now : ℕ) → Carries c (advance_commit p offset now c).1
  unfolding advance_commit
  advance_commit-Carries p offset now =
      let state = state_of p c in
      let commit = max state.commit_index offset in
      let late = ltb state.local_offset offset || not (state.last_log_term == c.current_term) in
      let few = ltb (1 + acknowledgements p offset now c) (majority c) in
      let quiet_end : Carries c
          (record c { partition_states = insert p state c.partition_states }) =
        quiet (record c { partition_states = insert p state c.partition_states }) (ground arith) in
      elim (Bool-cases (is_leader c.role)) [
        | inr e ↦ rw (e, advance_commit) (same-Carries c v w)
        | inl e ↦ elim (Bool-cases late) [
          | inl l ↦ rw (e, advance_commit) (rw l quiet_end)
          | inr l ↦ elim (Bool-cases few) [
            | inl f ↦ rw (e, advance_commit) (rw l (rw f quiet_end))
            | inr f ↦
                rw (e, advance_commit)
                  (rw l (
                    rw f (
                      persist-Carries c
                        (record c {
                          partition_states =
                              insert p
                                (record state { commit_index = commit; last_applied = commit })
                                c.partition_states;
                          commit_index = max c.commit_index commit;
                          last_applied = max c.last_applied commit;
                        })
                        (ground (arith, v)) (inr (refl, inl refl)))))
          ]
        ]
      ]

  count_vote-Carries : (id : Bytes) → c.role ≡ candidate → Carries c (count_vote id c).1
  unfolding count_vote
  count_vote-Carries id e = elim (Bool-cases (leb (majority c) (length (add id c.votes)))) [
    | inl m ↦
        rw (m, count_vote)
          (persist-Carries c
            (record c {
              votes = add id c.votes;
              role = leader;
              leader_id = c.node_id;
              voted_for = c.node_id;
            })
            (ground (arith, v)) (inr (refl, inl (sym (v.own_vote e)))))
    | inr m ↦ rw (m, count_vote) (quiet (record c { votes = add id c.votes }) (ground arith))
  ]

  pub observe_vote-Carries :
      (term : ℕ) (id : Bytes) (granted : Bool) → Carries c (observe_vote term id granted c).1
  unfolding observe_vote
  observe_vote-Carries term id granted =
      let refused =
        not (term == c.current_term) || not (is_candidate c.role) || not granted || is_nil id in
      let standing : refused ≡ false → c.role ≡ candidate = λ r. ground (arith, r) in
      elim (Bool-cases refused) [
        | inl r ↦ rw (r, observe_vote) (same-Carries c v w)
        | inr r ↦ elim (Bool-cases (is_member id c)) [
          | inl m ↦ rw (r, observe_vote) (rw m (count_vote-Carries id (standing r)))
          | inr m ↦ rw (r, observe_vote) (rw m (same-Carries c v w))
        ]
      ]

  -- A vote within the term.
  grant_vote-Carries : (id : Bytes) → length id ≤ 4096 → Carries c (grant_vote id c).1
  unfolding grant_vote
  grant_vote-Carries id l =
      let other = not (is_nil c.voted_for) && not (bytes_eq c.voted_for id) in
      let free : other ≡ false → (c.voted_for ≡ []) ⊎ (id ≡ c.voted_for) =
        λ o. ground (arith, o, bytes_eq_iff c.voted_for id) in
      let named = v.named in
      let own = v.own_vote in
      let voted_own : other ≡ false → c.role ≡ candidate → id ≡ c.node_id = λ o e. elim (free o) [
        | inl n ↦ absurd (ground (arith, n, own e, named))
        | inr f ↦ f ∙ own e
      ] in
      elim (Bool-cases other) [
        | inl o ↦ rw (o, grant_vote) (same-Carries c v w)
        | inr o ↦
            rw (o, grant_vote)
              (persist-Carries c (record c { voted_for = id })
                (record {
                  named = v.named;
                  named_briefly = v.named_briefly;
                  kept = v.kept;
                  writes = v.writes;
                  term_fits = v.term_fits;
                  vote_fits = l;
                  own_vote = voted_own o;
                })
                (inr (refl, elim (free o) [ inl n ↦ inr n | inr f ↦ inl f ])))
      ]

  -- A vote in a later term, or in this one.
  adopted-Carries :
      (term : ℕ) (id : Bytes)
      → term < 2 ^ 64
      → length id ≤ 4096
      → Carries c (grant_vote id (adopt_term term c)).1
  unfolding adopt_term grant_vote
  adopted-Carries term id h l = elim (Bool-cases (ltb c.current_term term)) [
    | inl later ↦
        rw (later, adopt_term)
          (persist-Carries c
            (record c { current_term = term; voted_for = id; role = follower; leader_id = [] })
            (ground (arith, v)) (inl (ltb→lt c.current_term term later)))
    | inr same ↦ rw (same, adopt_term) (grant_vote-Carries id l)
  ]

  pub request_vote-Carries :
      (term : ℕ) (id : Bytes) (i t : ℕ)
      → term < 2 ^ 64
      → length id ≤ 4096
      → Carries c (request_vote term id i t c).1
  unfolding request_vote
  request_vote-Carries term id i t h l =
      let refused = is_nil id || ltb term c.current_term || not (is_member id c) in
      elim (Bool-cases refused) [
        | inl r ↦ rw (r, request_vote) (same-Carries c v w)
        | inr r ↦ elim (Bool-cases (is_behind i t c)) [
          | inl b ↦ rw (r, request_vote) (rw b (same-Carries c v w))
          | inr b ↦ rw (r, request_vote) (rw b (adopted-Carries term id h l))
        ]
      ]
