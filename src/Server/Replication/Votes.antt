-- ===== src/Server/Replication/Votes.antt =====
-- A broker votes for one candidate in a term, also across restarts of its process.
use mq_project.Prelude.{
  ℕ, ◌^◌, ◌≤◌, ◌<◌, ◌≡◌, ◌≢◌, ◌⊎◌, inl, inr, refl, ◌∙◌, true, [], length, arith,
}
use mq_project.Bytes.{Bytes}
use mq_project.Bytes.Equality.{bytes_eq_iff}
use mq_project.Server.Replication.{
  Replication, Role, candidate, persist, read_state, load_state, start, le_read,
}
use mq_project.Server.Replication.Election.{request_vote, grant_vote, adopt_term}
use mq_project.Server.Replication.Step.{
  Operation, led, registered, removed, heard, appended, elected, pre_voted, asked, voted, round,
  advanced, recorded, restarted, file_system, perform, InRange, IsSound, IsDurable, Moved, Carries,
  Quiet-Carries,
}
use mq_project.Server.Replication.Follow.{observe_append-Carries}
use mq_project.Server.Replication.Carry.{
  set_leader-Carries, register_replica-Carries, remove_replica-Carries, observe_heartbeat-Carries,
  observe_pre_vote-Carries, observe_heartbeat_round-Carries, record_local_offset-Carries,
  begin_election-Carries, restart-Carries, advance_commit-Carries, observe_vote-Carries,
  request_vote-Carries,
}

perform-Carries :
    (o : Operation) (c : Replication)
    → IsSound c
    → IsDurable c
    → InRange o c
    → Carries c (perform o c)
unfolding perform
perform-Carries (led id) c v w h = set_leader-Carries c v w id
perform-Carries (registered id) c v w h = register_replica-Carries c v w id
perform-Carries (removed id) c v w h = remove_replica-Carries c v w id
perform-Carries (heard p id offset now) c v w h = observe_heartbeat-Carries c v w p id offset now
perform-Carries (appended p term id offset commit now) c v w h =
    observe_append-Carries c v term h p id offset commit now w
perform-Carries elected c v w h = begin_election-Carries c v w h
perform-Carries (pre_voted term id granted) c v w h = observe_pre_vote-Carries c v w term id granted
perform-Carries (asked term id i t) c v w h = request_vote-Carries c v w term id i t h.0 h.1
perform-Carries (voted term id granted) c v w h = observe_vote-Carries c v w term id granted
perform-Carries (round responded) c v w h = observe_heartbeat_round-Carries c v w responded
perform-Carries (advanced p offset now) c v w h = advance_commit-Carries c v w p offset now
perform-Carries (recorded p offset) c v w h = record_local_offset-Carries c v w p offset
perform-Carries (restarted role) c v w h = restart-Carries c v w role h
perform-Carries (file_system x) c v w h =
    Quiet-Carries c (record c { state_write = x }) (ground (arith, h, v)) v w

-- What operations can make of a state.
pub data Runs (c : Replication) : Replication → Type 0 where
  here : Runs c c
  after : (o : Operation) (d : Replication) → Runs c d → InRange o d → Runs c (perform o d)

-- The vote of the term `t` is for `a`, or the term is over.
abbrev Settled : ℕ → Bytes → Replication → Type 0
Settled t a c = ((c.current_term ≡ t) × (c.voted_for ≡ a)) ⊎ (t < c.current_term)

Moved-Settled :
    (t : ℕ) (a : Bytes) (c d : Replication)
    → 1 ≤ length a
    → Moved c d
    → Settled t a c
    → Settled t a d
Moved-Settled t a c d n (inl later) s = inr (ground (arith, s))
Moved-Settled t a c d n (inr (e, inl o)) (inl (f, g)) = inl (e ∙ f, o ∙ g)
Moved-Settled t a c d n (inr (e, inl o)) (inr l) = inr (omega arith)
Moved-Settled t a c d n (inr (e, inr o)) (inl (f, g)) = absurd (ground (arith, n, o, g))
Moved-Settled t a c d n (inr (e, inr o)) (inr l) = inr (omega arith)

module _ (c : Replication) (v : IsSound c) (w : IsDurable c) where
  Runs-IsSound : (d : Replication) → Runs c d → IsSound d × IsDurable d
  Runs-IsSound _ here = (v, w)
  Runs-IsSound _ (after o d r h) =
      let (x, y) = Runs-IsSound d r in let k = perform-Carries o d x y h in (k.sound, k.durable)

  Runs-Settled :
      (t : ℕ) (a : Bytes) (d : Replication)
      → 1 ≤ length a
      → Settled t a c
      → Runs c d
      → Settled t a d
  Runs-Settled t a _ n s here = s
  Runs-Settled t a _ n s (after o d r h) =
      let (x, y) = Runs-IsSound d r in
      Moved-Settled t a d (perform o d) n (perform-Carries o d x y h).moved
        (Runs-Settled t a d n s r)

-- What a granted vote says of the state before it, and of the state after it.
grant_vote_lem :
    (c : Replication) (a : Bytes)
    → (grant_vote a c).0 ≡ true
    → ((c.voted_for ≡ []) ⊎ (c.voted_for ≡ a))
      × ((grant_vote a c).1.voted_for ≡ a)
      × ((grant_vote a c).1.current_term ≡ c.current_term)
unfolding grant_vote persist
grant_vote_lem c a h = ground (arith, bytes_eq_iff c.voted_for a)

request_vote_lem :
    (t : ℕ) (a : Bytes) (i j : ℕ) (c : Replication)
    → (request_vote t a i j c).0 ≡ true
    → (1 ≤ length a)
      × ((c.current_term < t) ⊎ ((c.current_term ≡ t) × ((c.voted_for ≡ []) ⊎ (c.voted_for ≡ a))))
      × ((request_vote t a i j c).1.voted_for ≡ a)
      × ((request_vote t a i j c).1.current_term ≡ t)
unfolding request_vote adopt_term
request_vote_lem t a i j c h = ground (arith, grant_vote_lem (adopt_term t c) a)

start-IsSound :
    (id : Bytes) (role : Role) (timeout : ℕ)
    → 1 ≤ length id
    → length id ≤ 4096
    → role ≢ candidate
    → IsSound (start id role timeout true []) × IsDurable (start id role timeout true [])
unfolding start load_state read_state le_read
start-IsSound id role timeout n l r = (ground (arith, n, l, r), inl (refl, refl, refl))

-- A broker has a name of 1 to 4096 bytes, keeps a state file, which is missing at first and can be written
-- whenever it is, and starts and restarts as a leader or a follower. It runs any operations and restarts, as
-- long as terms fit 64 bits, its own does not wrap, and candidates have names of at most 4096 bytes. When it grants its
-- vote to `a` in a term, and later to `b` in the same term, then `a` is `b`.
pub one_vote_per_term :
    (id : Bytes) (role : Role) (timeout : ℕ) (c d : Replication) (t : ℕ) (a b : Bytes) (i j k l : ℕ)
    → 1 ≤ length id
    → length id ≤ 4096
    → role ≢ candidate
    → Runs (start id role timeout true []) c
    → t < 2 ^ 64
    → length a ≤ 4096
    → (request_vote t a i j c).0 ≡ true
    → Runs (request_vote t a i j c).1 d
    → (request_vote t b k l d).0 ≡ true
    → a ≡ b
one_vote_per_term id role timeout c d t a b i j k l n m r run h s granted later again =
    let (v, w) = start-IsSound id role timeout n m r in
    let (x, y) = Runs-IsSound (start id role timeout true []) v w c run in
    let first = request_vote_lem t a i j c granted in
    let second = request_vote_lem t b k l d again in
    let carried = request_vote-Carries c x y t a i j h s in
    let settled =
      Runs-Settled (request_vote t a i j c).1 carried.sound carried.durable t a d first.0
        (inl (first.3, first.2)) later in
    elim settled [
      | inl (e, f) ↦ ground (arith, f, first, second)
      | inr over ↦ absurd (ground (arith, over, second))
    ]
