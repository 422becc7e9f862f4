-- ===== src/Server/Replication/Step.antt =====
-- A broker's replication state through its operations and through restarts of its process.
use mq_project.Prelude.{
  ℕ, ◌+◌, ◌^◌, ◌≤◌, ◌<◌, ◌≡◌, ◌≢◌, ◌⊎◌, inl, inr, refl, Bool, true, false, none, some, [], length,
  arith, sym, ◌∙◌, if◌then◌else◌,
}
use mq_project.Bytes.{Bytes}
use mq_project.Server.Replication.{
  Replication, Role, candidate, Saved, StateWrite, written, persist, read_state, start, state_bytes,
  set_leader, register_replica, remove_replica,
}
use mq_project.Server.Replication.Election.{
  begin_election, observe_pre_vote, request_vote, observe_vote, observe_heartbeat_round,
}
use mq_project.Server.Replication.Log.{
  observe_heartbeat, observe_append, advance_commit, record_local_offset,
}
use mq_project.Server.Replication.StateFile.{read_vote}

pub data Operation : Type 0 where
  led registered removed : Bytes → Operation
  heard : Bytes → Bytes → ℕ → ℕ → Operation
  appended : Bytes → ℕ → Bytes → ℕ → ℕ → ℕ → Operation
  elected : Operation
  pre_voted : ℕ → Bytes → Bool → Operation
  asked : ℕ → Bytes → ℕ → ℕ → Operation
  voted : ℕ → Bytes → Bool → Operation
  round : Bool → Operation
  advanced : Bytes → ℕ → ℕ → Operation
  recorded : Bytes → ℕ → Operation
  restarted : Role → Operation
  file_system : StateWrite → Operation

unfoldable pub perform : Operation → Replication → Replication
perform (led id) c = set_leader id c
perform (registered id) c = register_replica id c
perform (removed id) c = remove_replica id c
perform (heard partition id offset now) c = observe_heartbeat partition id offset now c
perform (appended partition term id offset commit now) c =
    (observe_append partition term id offset commit now c).1
perform elected c = (begin_election c).1
perform (pre_voted term id granted) c = (observe_pre_vote term id granted c).1
perform (asked term id i t) c = (request_vote term id i t c).1
perform (voted term id granted) c = (observe_vote term id granted c).1
perform (round responded) c = (observe_heartbeat_round responded c).1
perform (advanced partition offset now) c = (advance_commit partition offset now c).1
perform (recorded partition offset) c = record_local_offset partition offset c
perform (restarted role) c =
    record (start c.node_id role c.heartbeat_timeout c.has_state_path c.state_file) {
      state_write = c.state_write;
    }
perform (file_system state_write) c = record c { state_write = state_write }

-- The ranges of the arguments: terms are words, names have at most 4096 bytes, the term does not
-- wrap, a process starts as a leader or as a follower, and the file system writes the state file.
abbrev pub InRange : Operation → Replication → Type 0
InRange (appended partition term id offset commit now) c = term < 2 ^ 64
InRange elected c = c.current_term + 1 < 2 ^ 64
InRange (asked term id i t) c = (term < 2 ^ 64) × (length id ≤ 4096)
InRange (restarted role) c = role ≢ candidate
InRange (file_system state_write) c = state_write ≡ written
InRange o c = Unit

pub record IsSound (c : Replication) : Type 0 where
  pub named : 1 ≤ length c.node_id
  pub named_briefly : length c.node_id ≤ 4096
  pub kept : c.has_state_path ≡ true
  pub writes : c.state_write ≡ written
  pub term_fits : c.current_term < 2 ^ 64
  pub vote_fits : length c.voted_for ≤ 4096
  pub own_vote : c.role ≡ candidate → c.voted_for ≡ c.node_id

-- The file has the term and the vote.
abbrev pub IsDurable : Replication → Type 0
IsDurable c =
    ((read_state c.state_file ≡ none) × (c.current_term ≡ 0) × (c.voted_for ≡ []))
    ⊎ ((s : Saved) × (read_state c.state_file ≡ some s)
        × (s.term ≡ c.current_term)
        × (s.voted ≡ c.voted_for))

-- How the term and the vote move: to a later term, or within the term from no vote to one.
abbrev pub Moved : Replication → Replication → Type 0
Moved c d =
    (c.current_term < d.current_term)
    ⊎ ((d.current_term ≡ c.current_term) × ((d.voted_for ≡ c.voted_for) ⊎ (c.voted_for ≡ [])))

pub record Carries (c d : Replication) : Type 0 where
  pub sound : IsSound d
  pub durable : IsDurable d
  pub moved : Moved c d

pub persist-Carries : (c d : Replication) → IsSound d → Moved c d → Carries c (persist d)
unfolding persist state_bytes
persist-Carries c d v m =
    rw (v.kept, persist)
      (rw v.writes (record {
        sound = ground (arith, v);
        durable = inr (read_vote d v.term_fits v.vote_fits);
        moved = m;
      }))

pub same-Carries : (c : Replication) → IsSound c → IsDurable c → Carries c c
same-Carries c v d = record { sound = v; durable = d; moved = inr (refl, inl refl) }

-- Neither the term nor the vote nor the file is touched.
pub record Quiet (c d : Replication) : Type 0 where
  pub same_node : d.node_id ≡ c.node_id
  pub same_path : d.has_state_path ≡ c.has_state_path
  pub same_term : d.current_term ≡ c.current_term
  pub same_vote : d.voted_for ≡ c.voted_for
  pub same_write : d.state_write ≡ c.state_write
  pub same_file : d.state_file ≡ c.state_file
  pub same_role : d.role ≡ candidate → c.role ≡ candidate

pub Quiet-Carries : (c d : Replication) → Quiet c d → IsSound c → IsDurable c → Carries c d
Quiet-Carries c d q v w = record {
  sound = ground (arith, q, v);
  durable = elim w [
    | inl (e, t, o) ↦ inl (rw q.same_file e, q.same_term ∙ t, q.same_vote ∙ o)
    | inr (s, e, t, o) ↦ inr (s, rw q.same_file e, t ∙ sym q.same_term, o ∙ sym q.same_vote)
  ];
  moved = inr (q.same_term, inl q.same_vote);
}

-- By the branches of a test.
pub if-Quiet :
    (b : Bool) (c x y : Replication) → Quiet c x → Quiet c y → Quiet c (if b then x else y)
if-Quiet true c x y h k = h
if-Quiet false c x y h k = k

pub if-Quiet_pair :
    (b : Bool) (c : Replication) (x y : Bool × Replication)
    → Quiet c x.1
    → Quiet c y.1
    → Quiet c (if b then x else y).1
if-Quiet_pair true c x y h k = h
if-Quiet_pair false c x y h k = k

pub Quiet-refl : (c : Replication) → Quiet c c
Quiet-refl c = record {
  same_node = refl;
  same_path = refl;
  same_term = refl;
  same_vote = refl;
  same_write = refl;
  same_file = refl;
  same_role = λ h. h;
}
