-- ===== src/Core/Groups/Fresh.antt =====
-- After each operation every group has the plan of its members and of the partitions as they are.
use mq_project.Prelude.{
  ℕ, ◌≡◌, inl, inr, refl, Bool, true, false, ◌||◌, some, List, [], ◌∷◌, arith, Bool-cases,
  Option-cases,
}
use mq_project.Bytes.{Bytes}
use mq_project.Bytes.Equality.{bytes_eq, bytes_eq_iff}
use mq_project.Dict.{Dict, find, has, insert, erase, keys}
use mq_project.Dict.Laws.{find-insert}
use mq_project.Core.Groups.{
  Member, Members, Coordinator, is_empty, subscribed_topics, set_insert_all, plan, rebalance, join,
  heartbeat, leave, staying, expire_loop, expire, rebalance_all, set_partitions, set_subscriptions,
}

abbrev pub FreshAt : Coordinator → Bytes → Members → Type 0
FreshAt c g ms = find g c.members ≡ some ms → find g c.assignments ≡ some (plan c.partitions ms)

-- Every group holds the current plan, but for one at most.
abbrev FreshBut : Bytes → Coordinator → Type 0
FreshBut group c = (g : Bytes) (ms : Members) → bytes_eq group g ≡ false → FreshAt c g ms

abbrev pub IsFresh : Coordinator → Type 0
IsFresh c = (g : Bytes) (ms : Members) → FreshAt c g ms

rebalance-IsFresh :
    (group : Bytes) (c : Coordinator) → FreshBut group c → IsFresh (rebalance group c)
unfolding rebalance
rebalance-IsFresh group c v g ms = elim (Option-cases (find group c.members)) [
  | inl e ↦ ground (arith, bytes_eq_iff group g, v g ms)
  | inr (own, e) ↦ ground (
    arith,
    bytes_eq_iff group g,
    find-insert group g (plan c.partitions own) c.assignments,
    v g ms,
  )
]

-- A group's members are replaced, and the group is planned anew.
update-IsFresh :
    (group : Bytes) (ms : Members) (c : Coordinator)
    → IsFresh c
    → IsFresh (rebalance group (record c { members = insert group ms c.members }))
update-IsFresh group ms c v =
    rebalance-IsFresh group _
      λ g own other. ground (arith, find-insert group g ms c.members, v g own)

pub join-IsFresh :
    (group id : Bytes) (topics : List Bytes) (now : ℕ) (c : Coordinator)
    → IsFresh c
    → IsFresh (join group id topics now c).1
unfolding join is_empty
join-IsFresh [] id topics now c v = v
join-IsFresh (b ∷ group) [] topics now c v = v
join-IsFresh (b ∷ group) (d ∷ id) topics now c v = update-IsFresh (b ∷ group) _ c v

pub leave-IsFresh : (group id : Bytes) (c : Coordinator) → IsFresh c → IsFresh (leave group id c).1
unfolding leave
leave-IsFresh group id c v = elim (Option-cases (find group c.members)) [
  | inl e ↦ rw (e, leave) v
  | inr (ms, e) ↦ elim (Bool-cases (has id ms)) [
    | inl d ↦ rw (e, leave) (rw d (update-IsFresh group (erase id ms) c v))
    | inr d ↦ rw (e, leave) (rw d v)
  ]
]

pub set_subscriptions-IsFresh :
    (group id : Bytes) (topics : List Bytes) (c : Coordinator)
    → IsFresh c
    → IsFresh (set_subscriptions group id topics c).1
unfolding set_subscriptions
set_subscriptions-IsFresh group id topics c v = elim (Option-cases (find group c.members)) [
  | inl e ↦ rw (e, set_subscriptions) v
  | inr (ms, e) ↦ elim (Option-cases (find id ms)) [
    | inl d ↦ rw (e, set_subscriptions) (rw (d, set_subscriptions) v)
    | inr (m, d) ↦
        rw (e, set_subscriptions) (rw (d, set_subscriptions) (update-IsFresh group _ c v))
  ]
]

expire_loop-IsFresh :
    (now : ℕ) (groups : List (Bytes × Members)) (c : Coordinator)
    → IsFresh c
    → IsFresh (expire_loop now groups c).1
unfolding expire_loop
expire_loop-IsFresh now [] c v = v
expire_loop-IsFresh now ((group, ms) ∷ groups) c v =
    expire_loop-IsFresh now groups _ (update-IsFresh group (staying now c.member_timeout ms) c v)

pub expire-IsFresh : (now : ℕ) (c : Coordinator) → IsFresh c → IsFresh (expire now c).1
unfolding expire
expire-IsFresh now c v = expire_loop-IsFresh now c.members c v

-- The groups still to be planned.
pending : Bytes → List Bytes → Bool
pending g [] = false
pending g (k ∷ ks) = bytes_eq k g || pending g ks

abbrev FreshOr : List Bytes → Coordinator → Type 0
FreshOr gs c = (g : Bytes) (ms : Members) → pending g gs ≡ false → FreshAt c g ms

rebalance_all-IsFresh :
    (gs : List Bytes) (c : Coordinator) → FreshOr gs c → IsFresh (rebalance_all gs c)
unfolding rebalance_all pending rebalance
rebalance_all-IsFresh [] c v = λ g ms. v g ms refl
rebalance_all-IsFresh (k ∷ gs) c v = rebalance_all-IsFresh gs (rebalance k c) λ g ms p.
    elim (Option-cases (find k c.members)) [
      | inl e ↦ ground (arith, bytes_eq_iff k g, v g ms)
      | inr (own, e) ↦
          ground
            (arith, bytes_eq_iff k g, find-insert k g (plan c.partitions own) c.assignments, v g ms)
    ]

find-pending :
    (g : Bytes) (groups : Dict Members) (ms : Members)
    → find g groups ≡ some ms
    → pending g (keys groups) ≡ true
unfolding find pending
find-pending g [] ms h = ground (arith, h)
find-pending g ((k, own) ∷ groups) ms h = ground (arith, find-pending g groups ms)

pub set_partitions-IsFresh :
    (topic : Bytes) (n : ℕ) (c : Coordinator) → IsFresh (set_partitions topic n c)
unfolding set_partitions
set_partitions-IsFresh topic n c =
    rebalance_all-IsFresh (keys c.members) _
      λ g ms p h. ground (arith, find-pending g c.members ms h)

-- A heartbeat changes no subscription.
subscribed_topics-insert :
    (id : Bytes) (m : Member) (now : ℕ) (ms : Members) (set : List Bytes)
    → find id ms ≡ some m
    → subscribed_topics (insert id (record m { last_heartbeat = now }) ms) set
      ≡ subscribed_topics ms set
unfolding find insert subscribed_topics
subscribed_topics-insert id m now [] set h = ground (arith, h)
subscribed_topics-insert id m now ((k, x) ∷ ms) set h = elim (Bool-cases (bytes_eq k id)) [
  | inl e ↦ ground (arith, e, h)
  | inr e ↦ ground (arith, e, subscribed_topics-insert id m now ms (set_insert_all x.topics set))
]

plan-insert :
    (id : Bytes) (m : Member) (now : ℕ) (ms : Members) (partitions : Dict ℕ)
    → find id ms ≡ some m
    → plan partitions (insert id (record m { last_heartbeat = now }) ms) ≡ plan partitions ms
unfolding plan find insert
plan-insert id m now [] partitions h = ground (arith, h)
plan-insert id m now ((k, x) ∷ ms) partitions h = elim (Bool-cases (bytes_eq k id)) [
  | inl e ↦ ground (arith, e, h)
  | inr e ↦ ground (arith, e, subscribed_topics-insert id m now ms (set_insert_all x.topics []))
]

pub heartbeat-IsFresh :
    (group id : Bytes) (now : ℕ) (c : Coordinator)
    → IsFresh c
    → IsFresh (heartbeat group id now c).1
unfolding heartbeat
heartbeat-IsFresh group id now c v = elim (Option-cases (find group c.members)) [
  | inl e ↦ rw (e, heartbeat) v
  | inr (ms, e) ↦ elim (Option-cases (find id ms)) [
    | inl d ↦ rw (e, heartbeat) (rw (d, heartbeat) v)
    | inr (m, d) ↦
        rw (e, heartbeat)
          (rw (d, heartbeat)
            λ g ms' h. ground (
              arith,
              find-insert group g (insert id (record m { last_heartbeat = now }) ms) c.members,
              plan-insert id m now ms c.partitions d,
              v g ms,
              v g ms',
              bytes_eq_iff group g,
            ))
  ]
]
