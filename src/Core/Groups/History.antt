-- ===== src/Core/Groups/History.antt =====
-- A coordinator through any sequence of its operations, from its construction on.
use mathlib.Core.List.Perm
use mathlib.Core.List.{Nodup, Nodup-cons, Nodup-nil, Perm, flatten}
use mq_project.Prelude.{
  ℕ, ◌≤◌, ◌≡◌, inl, inr, refl, true, none, some, List, [], ◌∷◌, map, length, arith, Option-cases,
  Bool-cases,
}
use mq_project.Bytes.{Bytes}
use mq_project.Dict.{Dict, find, has, insert, erase, keys, is_some}
use mq_project.Dict.Laws.{Distinct, insert-Distinct, erase-Distinct, Each, insert-Each, find-Each}
use mq_project.Core.Groups.{
  Members, Coordinator, plan, rebalance, members_or_none, is_empty, join, heartbeat, leave, staying,
  expire_loop, expire, rebalance_all, set_partitions, set_subscriptions, sort_ids, assignment,
}
use mq_project.Core.Groups.Sorting.{has-key}
use mq_project.Core.Groups.Fresh
use mq_project.Core.Groups.Cover.{assignment-perm}
use mq_project.Core.Groups.Planned.{plan-Nodup}

pub data Operation : Type 0 where
  joined : Bytes → Bytes → List Bytes → ℕ → Operation
  heard : Bytes → Bytes → ℕ → Operation
  left : Bytes → Bytes → Operation
  expired : ℕ → Operation
  partitioned : Bytes → ℕ → Operation
  subscribed : Bytes → Bytes → List Bytes → Operation

unfoldable pub perform : Operation → Coordinator → Coordinator
perform (joined group id topics now) c = (join group id topics now c).1
perform (heard group id now) c = (heartbeat group id now c).1
perform (left group id) c = (leave group id c).1
perform (expired now) c = (expire now c).1
perform (partitioned topic n) c = set_partitions topic n c
perform (subscribed group id topics) c = (set_subscriptions group id topics c).1

-- A coordinator that the operations can lead to.
pub data Reachable (timeout : ℕ) : Coordinator → Type 0 where
  start :
      Reachable timeout
        (record { member_timeout = timeout; members = []; assignments = []; partitions = [] })
  step : (o : Operation) (c : Coordinator) → Reachable timeout c → Reachable timeout (perform o c)

-- No member is twice in a group.
abbrev AllDistinct : Coordinator → Type 0
AllDistinct c = Each Distinct c.members

rebalance-AllDistinct :
    (group : Bytes) (c : Coordinator) → AllDistinct c → AllDistinct (rebalance group c)
unfolding rebalance
rebalance-AllDistinct group c v = elim (Option-cases (find group c.members)) [
  | inl e ↦ rw (e, rebalance) v
  | inr (ms, e) ↦ rw (e, rebalance) v
]

update-AllDistinct :
    (group : Bytes) (ms : Members) (c : Coordinator)
    → Distinct ms
    → AllDistinct c
    → AllDistinct (rebalance group (record c { members = insert group ms c.members }))
update-AllDistinct group ms c d v =
    rebalance-AllDistinct group _ (insert-Each Distinct group ms c.members d v)

found-Distinct :
    (group : Bytes) (c : Coordinator)
    → AllDistinct c
    → Distinct (members_or_none (find group c.members))
found-Distinct group c v = elim (Option-cases (find group c.members)) [
  | inl e ↦ rw e tt
  | inr (ms, e) ↦ rw e (find-Each Distinct group ms c.members v e)
]

find-staying :
    (now timeout : ℕ) (id : Bytes) (ms : Members)
    → find id ms ≡ none
    → find id (staying now timeout ms) ≡ none
unfolding staying find
find-staying now timeout id [] h = refl
find-staying now timeout id ((k, m) ∷ ms) h = ground (arith, h, find-staying now timeout id ms)

staying-Distinct :
    (now timeout : ℕ) (ms : Members) → Distinct ms → Distinct (staying now timeout ms)
unfolding staying
staying-Distinct now timeout [] v = tt
staying-Distinct now timeout ((k, m) ∷ ms) v =
    ground (arith, find-staying now timeout k ms v.0, staying-Distinct now timeout ms v.1)

expire_loop-AllDistinct :
    (now : ℕ) (groups : Dict Members) (c : Coordinator)
    → Each Distinct groups
    → AllDistinct c
    → AllDistinct (expire_loop now groups c).1
unfolding expire_loop
expire_loop-AllDistinct now [] c w v = v
expire_loop-AllDistinct now ((group, ms) ∷ groups) c w v =
    expire_loop-AllDistinct now groups _ w.1 (
      update-AllDistinct group (staying now c.member_timeout ms) c
        (staying-Distinct now c.member_timeout ms w.0) v)

rebalance_all-AllDistinct :
    (gs : List Bytes) (c : Coordinator) → AllDistinct c → AllDistinct (rebalance_all gs c)
unfolding rebalance_all
rebalance_all-AllDistinct [] c v = v
rebalance_all-AllDistinct (g ∷ gs) c v =
    rebalance_all-AllDistinct gs (rebalance g c) (rebalance-AllDistinct g c v)

join-AllDistinct :
    (group id : Bytes) (topics : List Bytes) (now : ℕ) (c : Coordinator)
    → AllDistinct c
    → AllDistinct (join group id topics now c).1
unfolding join is_empty
join-AllDistinct [] id topics now c v = v
join-AllDistinct (b ∷ group) [] topics now c v = v
join-AllDistinct (b ∷ group) (d ∷ id) topics now c v =
    update-AllDistinct (b ∷ group) _ c (insert-Distinct _ _ _ (found-Distinct (b ∷ group) c v)) v

leave-AllDistinct :
    (group id : Bytes) (c : Coordinator) → AllDistinct c → AllDistinct (leave group id c).1
unfolding leave
leave-AllDistinct group id c v = elim (Option-cases (find group c.members)) [
  | inl e ↦ rw (e, leave) v
  | inr (ms, e) ↦ elim (Bool-cases (has id ms)) [
    | inl d ↦
        rw (e, leave)
          (rw d (
            update-AllDistinct group (erase id ms) c
              (erase-Distinct id ms (find-Each Distinct group ms c.members v e)) v))
    | inr d ↦ rw (e, leave) (rw d v)
  ]
]

set_subscriptions-AllDistinct :
    (group id : Bytes) (topics : List Bytes) (c : Coordinator)
    → AllDistinct c
    → AllDistinct (set_subscriptions group id topics c).1
unfolding set_subscriptions
set_subscriptions-AllDistinct group id topics c v = elim (Option-cases (find group c.members)) [
  | inl e ↦ rw (e, set_subscriptions) v
  | inr (ms, e) ↦ elim (Option-cases (find id ms)) [
    | inl d ↦ rw (e, set_subscriptions) (rw (d, set_subscriptions) v)
    | inr (m, d) ↦
        rw (e, set_subscriptions)
          (rw (d, set_subscriptions)
            (update-AllDistinct group _ c
              (insert-Distinct id _ ms (find-Each Distinct group ms c.members v e)) v))
  ]
]

heartbeat-AllDistinct :
    (group id : Bytes) (now : ℕ) (c : Coordinator)
    → AllDistinct c
    → AllDistinct (heartbeat group id now c).1
unfolding heartbeat
heartbeat-AllDistinct group id now c v = elim (Option-cases (find group c.members)) [
  | inl e ↦ rw (e, heartbeat) v
  | inr (ms, e) ↦ elim (Option-cases (find id ms)) [
    | inl d ↦ rw (e, heartbeat) (rw (d, heartbeat) v)
    | inr (m, d) ↦
        rw (e, heartbeat)
          (rw (d, heartbeat)
            (insert-Each Distinct group _ c.members
              (insert-Distinct id _ ms (find-Each Distinct group ms c.members v e)) v))
  ]
]

perform-AllDistinct : (o : Operation) (c : Coordinator) → AllDistinct c → AllDistinct (perform o c)
unfolding perform expire set_partitions
perform-AllDistinct (joined group id topics now) c v = join-AllDistinct group id topics now c v
perform-AllDistinct (heard group id now) c v = heartbeat-AllDistinct group id now c v
perform-AllDistinct (left group id) c v = leave-AllDistinct group id c v
perform-AllDistinct (expired now) c v = expire_loop-AllDistinct now c.members c v v
perform-AllDistinct (partitioned topic n) c v = rebalance_all-AllDistinct (keys c.members) _ v
perform-AllDistinct (subscribed group id topics) c v =
    set_subscriptions-AllDistinct group id topics c v

perform-IsFresh : (o : Operation) (c : Coordinator) → Fresh.IsFresh c → Fresh.IsFresh (perform o c)
unfolding perform
perform-IsFresh (joined group id topics now) c v = Fresh.join-IsFresh group id topics now c v
perform-IsFresh (heard group id now) c v = Fresh.heartbeat-IsFresh group id now c v
perform-IsFresh (left group id) c v = Fresh.leave-IsFresh group id c v
perform-IsFresh (expired now) c v = Fresh.expire-IsFresh now c v
perform-IsFresh (partitioned topic n) c v = Fresh.set_partitions-IsFresh topic n c
perform-IsFresh (subscribed group id topics) c v =
    Fresh.set_subscriptions-IsFresh group id topics c v

module _ (timeout : ℕ) where
  Reachable-IsFresh : (c : Coordinator) → Reachable timeout c → Fresh.IsFresh c
  unfolding find
  Reachable-IsFresh _ start = λ g ms h. ground (arith, h)
  Reachable-IsFresh _ (step o c r) = perform-IsFresh o c (Reachable-IsFresh c r)

  Reachable-AllDistinct : (c : Coordinator) → Reachable timeout c → AllDistinct c
  Reachable-AllDistinct _ start = tt
  Reachable-AllDistinct _ (step o c r) = perform-AllDistinct o c (Reachable-AllDistinct c r)

Distinct-Nodup : (ms : Members) → Distinct ms → Nodup (keys ms)
unfolding has
Distinct-Nodup [] v = Nodup-nil
Distinct-Nodup ((k, m) ∷ ms) v = Nodup-cons.1 (
  (λ h. let e : is_some (find k ms) ≡ true = has-key k ms h in ground (arith, e, v)),
  Distinct-Nodup ms v.1,
)

-- After any operations, what `Assignment` returns for the members of a group that has some is,
-- put together, the plan of the group for its members and the partitions as they are now: no
-- planned partition is without a reader. No partition of a topic is in it twice, so that none has two
-- readers.
pub Reachable-assignment :
    (timeout : ℕ) (c : Coordinator) (group : Bytes) (ms : Members)
    → Reachable timeout c
    → find group c.members ≡ some ms
    → 1 ≤ length (keys ms)
    → Perm (flatten (map (λ id. assignment group id c) (sort_ids (keys ms)))) (plan c.partitions ms)
      × Nodup (flatten (map (λ id. assignment group id c) (sort_ids (keys ms))))
Reachable-assignment timeout c group ms r e h =
    let together =
      assignment-perm c group ms (plan c.partitions ms) e (Reachable-IsFresh timeout c r group ms e)
        (Distinct-Nodup ms
          (find-Each Distinct group ms c.members (Reachable-AllDistinct timeout c r) e))
        h in
    (together, Perm.nodup (Perm.symm together) (plan-Nodup c.partitions ms))
