-- ===== src/Server/Replication/Follow.antt =====
-- `ObserveAppend` carries the vote of a broker on.
use mq_project.Prelude.{
  ℕ, ◌^◌, ◌<◌, inl, inr, refl, ◌∙◌, not, ◌&&◌, ◌||◌, ltb, arith, Bool-cases, if◌then◌else◌, ltb→lt,
}
use mq_project.Bytes.{Bytes}
use mq_project.Bytes.Equality.{bytes_eq}
use mq_project.Dict.{has, insert}
use mq_project.Server.Replication.{Replication, leader, follower, persist, is_nil, max, min}
use mq_project.Server.Replication.Log.{
  observe_append, enter_term, follow_commit, follow_leader, put_progress, state_of,
}
use mq_project.Server.Replication.Step.{
  IsSound, IsDurable, Moved, Carries, persist-Carries, same-Carries, Quiet, Quiet-Carries,
}

after-Quiet : (c d e : Replication) → Carries c d → Quiet d e → Carries c e
after-Quiet c d e k q =
    let k' = Quiet-Carries d e q k.sound k.durable in
    record {
      sound = k'.sound;
      durable = k'.durable;
      moved = elim k.moved [
        | inl later ↦ inl (omega (arith, q.same_term))
        | inr (t, inl o) ↦ inr (q.same_term ∙ t, inl (q.same_vote ∙ o))
        | inr (t, inr n) ↦ inr (q.same_term ∙ t, inr n)
      ];
    }

follow_commit-Carries :
    (p : Bytes) (offset commit : ℕ) (c d : Replication)
    → IsSound d
    → Moved c d
    → Carries c (follow_commit p offset commit d)
unfolding follow_commit
follow_commit-Carries p offset commit c d v m =
    let state = state_of p d in
    let index = min (max state.commit_index commit) offset in
    persist-Carries c
      (record d {
        partition_states = insert p (record state { commit_index = index }) d.partition_states;
        commit_index = max d.commit_index index;
        last_applied = max d.last_applied index;
      })
      (record {
        named = v.named;
        named_briefly = v.named_briefly;
        kept = v.kept;
        writes = v.writes;
        term_fits = v.term_fits;
        vote_fits = v.vote_fits;
        own_vote = v.own_vote;
      })
      m

follow_leader-Quiet :
    (p : Bytes) (term : ℕ) (id : Bytes) (offset now : ℕ) (d : Replication)
    → Quiet d (follow_leader p term id offset now d)
unfolding follow_leader put_progress
follow_leader-Quiet p term id offset now d = ground arith

module _ (c : Replication) (v : IsSound c) (term : ℕ) (h : term < 2 ^ 64) where
  -- The leader is noted in the term that is entered.
  abbrev following : Bytes → Replication
  following id = record (enter_term term c) {
    leader_id = id;
    role = if bytes_eq id (enter_term term c).node_id then leader else follower;
  }

  following-IsSound : (id : Bytes) → IsSound (following id)
  unfolding enter_term persist
  following-IsSound id = elim (Bool-cases (ltb c.current_term term)) [
    | inl later ↦ rw (later, v.kept) (ground (arith, v, Bool-cases (bytes_eq id c.node_id)))
    | inr same ↦ rw same (ground (arith, v, Bool-cases (bytes_eq id c.node_id)))
  ]

  following-Moved : (id : Bytes) → Moved c (following id)
  unfolding enter_term persist
  following-Moved id = elim (Bool-cases (ltb c.current_term term)) [
    | inl later ↦ rw (later, v.kept) (inl (ltb→lt c.current_term term later))
    | inr same ↦ rw same (inr (refl, inl refl))
  ]

  pub observe_append-Carries :
      (p id : Bytes) (offset commit now : ℕ)
      → IsDurable c
      → Carries c (observe_append p term id offset commit now c).1
  unfolding observe_append
  observe_append-Carries p id offset commit now w =
      let refused =
        ltb term c.current_term
        || is_nil id
        || (not (bytes_eq id c.node_id) && not (has id c.replicas)) in
      let committed : Carries c (follow_commit p offset commit (following id)) =
        follow_commit-Carries p offset commit c (following id) (following-IsSound id)
          (following-Moved id) in
      elim (Bool-cases refused) [
        | inl r ↦ rw (r, observe_append) (same-Carries c v w)
        | inr r ↦
            rw (r, observe_append)
              (after-Quiet c (follow_commit p offset commit (following id))
                (follow_leader p term id offset now (follow_commit p offset commit (following id)))
                committed (follow_leader-Quiet p term id offset now _))
      ]
