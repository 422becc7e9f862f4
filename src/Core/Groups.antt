-- ===== src/Core/Groups.antt =====
-- `ConsumerGroupCoordinator` of src/core/consumer_group_coordinator.cc: who is in a consumer group,
-- and which partitions each member reads. A point in time is a number of clock ticks; the lock
-- makes each operation a function of the coordinator.
pub mod Sorting
pub mod Shares
pub mod Fresh
pub mod Cover
pub mod Planned
pub mod History
use mq_project.Prelude.{
  ℕ, zero, suc, ◌+◌, ◌-◌, ◌≤◌, ◌<◌, ◌≡◌, Bool, true, false, not, ◌&&◌, ◌||◌, Option, none, some,
  List, [], ◌∷◌, ◌++◌, map, length, get_elem?, ltb, leb, ◌==◌, if◌then◌else◌,
}
use mq_project.Bytes.{Byte, Bytes}
use mq_project.Bytes.Equality.{bytes_eq, bytes_lt}
use mq_project.Dict.{Dict, find, has, insert, erase, keys}

pub record GroupAssignment : Type 0 where
  pub topic : Bytes
  pub partition : ℕ

pub record Member : Type 0 where
  pub last_heartbeat : ℕ
  pub topics : List Bytes

abbrev pub Members : Type 0
Members = Dict Member

pub record Coordinator : Type 0 where
  pub member_timeout : ℕ
  pub members : Dict Members
  pub assignments : Dict (List GroupAssignment)
  pub partitions : Dict ℕ

-- `std::sort` of the member ids.
pub place_id : Bytes → List Bytes → List Bytes
place_id id [] = id ∷ []
place_id id (x ∷ xs) = if bytes_lt x id then x ∷ place_id id xs else id ∷ x ∷ xs

pub sort_ids : List Bytes → List Bytes
unfolding place_id
sort_ids [] = []
sort_ids (x ∷ xs) = place_id x (sort_ids xs)

-- `std::set<std::string>::insert`.
pub set_insert : Bytes → List Bytes → List Bytes
set_insert x [] = x ∷ []
set_insert x (y ∷ ys) =
    if bytes_lt x y then x ∷ y ∷ ys else (if bytes_lt y x then y ∷ set_insert x ys else y ∷ ys)

pub set_insert_all : List Bytes → List Bytes → List Bytes
unfolding set_insert
set_insert_all [] set = set
set_insert_all (x ∷ xs) set = set_insert_all xs (set_insert x set)

pub subscribed_topics : Members → List Bytes → List Bytes
unfolding set_insert_all
subscribed_topics [] set = set
subscribed_topics ((id, m) ∷ ms) set = subscribed_topics ms (set_insert_all m.topics set)

abbrev pub count_or_zero : Option ℕ → ℕ
count_or_zero none = 0
count_or_zero (some n) = n

-- The loop over the partitions from number `p` on, `n` of them left.
abbrev pub topic_partitions : Bytes → ℕ → ℕ → List GroupAssignment
topic_partitions topic p zero = []
topic_partitions topic p (suc n) =
    record { topic = topic; partition = p } ∷ topic_partitions topic (p + 1) n

pub collect_partitions : Dict ℕ → List Bytes → List GroupAssignment
collect_partitions partitions [] = []
collect_partitions partitions (t ∷ ts) =
    topic_partitions t 0 (count_or_zero (find t partitions)) ++ collect_partitions partitions ts

-- The comparison, and `std::sort` by it.
pub assignment_lt : GroupAssignment → GroupAssignment → Bool
assignment_lt l r =
    if bytes_eq l.topic r.topic then ltb l.partition r.partition else bytes_lt l.topic r.topic

pub place_assignment : GroupAssignment → List GroupAssignment → List GroupAssignment
unfolding assignment_lt
place_assignment a [] = a ∷ []
place_assignment a (x ∷ xs) = if assignment_lt x a then x ∷ place_assignment a xs else a ∷ x ∷ xs

pub sort_assignments : List GroupAssignment → List GroupAssignment
unfolding place_assignment
sort_assignments [] = []
sort_assignments (x ∷ xs) = place_assignment x (sort_assignments xs)

-- What `RebalanceLocked` computes for the members of a group.
pub plan : Dict ℕ → Members → List GroupAssignment
unfolding sort_assignments collect_partitions subscribed_topics
plan partitions [] = []
plan partitions (m ∷ ms) =
    sort_assignments (collect_partitions partitions (subscribed_topics (m ∷ ms) []))

unfoldable pub rebalance : Bytes → Coordinator → Coordinator
unfolding plan
rebalance group c = elim (find group c.members) [
  | none ↦ c
  | some ms ↦ record c { assignments = insert group (plan c.partitions ms) c.assignments }
]

abbrev pub members_or_none : Option Members → Members
members_or_none none = []
members_or_none (some ms) = ms

unfoldable pub is_empty : Bytes → Bool
is_empty [] = true
is_empty (b ∷ bs) = false

unfoldable pub join : Bytes → Bytes → List Bytes → ℕ → Coordinator → Bool × Coordinator
unfolding is_empty rebalance
join group member_id topics now c =
    let member : Member = record { last_heartbeat = now; topics = topics } in
    let group_members = insert member_id member (members_or_none (find group c.members)) in
    if is_empty group || is_empty member_id
    then (false, c)
    else (true, rebalance group (record c { members = insert group group_members c.members }))

unfoldable pub heartbeat : Bytes → Bytes → ℕ → Coordinator → Bool × Coordinator
heartbeat group member_id now c = elim (find group c.members) [
  | none ↦ (false, c)
  | some ms ↦ elim (find member_id ms) [
    | none ↦ (false, c)
    | some m ↦
        let ms' = insert member_id (record m { last_heartbeat = now }) ms in
        (true, record c { members = insert group ms' c.members })
  ]
]

unfoldable pub leave : Bytes → Bytes → Coordinator → Bool × Coordinator
unfolding rebalance
leave group member_id c = elim (find group c.members) [
  | none ↦ (false, c)
  | some ms ↦
      if has member_id ms
      then (
        true,
        rebalance group (record c { members = insert group (erase member_id ms) c.members }),
      )
      else (false, c)
]

-- Members of a group that time out at `now`, and those that stay.
pub timed_out : ℕ → ℕ → Members → List Bytes
timed_out now timeout [] = []
timed_out now timeout ((id, m) ∷ ms) =
    if ltb timeout (now - m.last_heartbeat)
    then id ∷ timed_out now timeout ms
    else timed_out now timeout ms

pub staying : ℕ → ℕ → Members → Members
staying now timeout [] = []
staying now timeout ((id, m) ∷ ms) =
    if ltb timeout (now - m.last_heartbeat)
    then staying now timeout ms
    else (id, m) ∷ staying now timeout ms

-- The loop of `Expire` over the groups. A member is reported as `group`, the separator 0x1F, and
-- its id; `now - last_heartbeat` is negative for a heartbeat from the future, which does not
-- exceed the timeout.
pub expire_loop : ℕ → List (Bytes × Members) → Coordinator → List Bytes × Coordinator
unfolding timed_out staying rebalance
expire_loop now [] c = ([], c)
expire_loop now ((group, ms) ∷ groups) c =
    let c' =
      rebalance group
        (record c { members = insert group (staying now c.member_timeout ms) c.members }) in
    let (expired, after) = expire_loop now groups c' in
    (map (λ id. group ++ (0x1F ∷ id)) (timed_out now c.member_timeout ms) ++ expired, after)

unfoldable pub expire : ℕ → Coordinator → List Bytes × Coordinator
unfolding expire_loop
expire now c = expire_loop now c.members c

unfoldable pub rebalance_all : List Bytes → Coordinator → Coordinator
unfolding rebalance
rebalance_all [] c = c
rebalance_all (g ∷ gs) c = rebalance_all gs (rebalance g c)

unfoldable pub set_partitions : Bytes → ℕ → Coordinator → Coordinator
unfolding rebalance_all
set_partitions topic partition_count c =
    rebalance_all (keys c.members)
      (record c { partitions = insert topic partition_count c.partitions })

unfoldable pub set_subscriptions : Bytes → Bytes → List Bytes → Coordinator → Bool × Coordinator
unfolding rebalance
set_subscriptions group member_id topics c = elim (find group c.members) [
  | none ↦ (false, c)
  | some ms ↦ elim (find member_id ms) [
    | none ↦ (false, c)
    | some m ↦
        let ms' = insert member_id (record m { topics = topics }) ms in
        (true, rebalance group (record c { members = insert group ms' c.members }))
  ]
]

-- `std::find` in the sorted ids.
pub index_of : Bytes → List Bytes → Option ℕ
index_of id [] = none
index_of id (x ∷ xs) =
    if bytes_eq x id
    then some 0
    else (elim (index_of id xs) [ none ↦ none | some i ↦ some (suc i) ])

-- `for (index = start; index < size; index += step)`: with `step` at least 1, the size bounds the
-- rounds.
pub stride : ℕ → ℕ → ℕ → List GroupAssignment → List GroupAssignment
stride zero index step all = []
stride (suc fuel) index step all = elim (get_elem? all index) [
  | none ↦ []
  | some a ↦ a ∷ stride fuel (index + step) step all
]

-- The entries of member number `index` among `n`.
pub deal : ℕ → ℕ → List GroupAssignment → List GroupAssignment
unfolding stride
deal n index all = stride (length all) index n all

-- `none` is `false`.
unfoldable pub sync : Bytes → Bytes → Coordinator → Option (List GroupAssignment)
unfolding sort_ids index_of deal
sync group member_id c = elim (find group c.members) [
  | none ↦ none
  | some ms ↦
      if has member_id ms
      then elim (find group c.assignments) [
        | none ↦ some []
        | some all ↦ elim (index_of member_id (sort_ids (keys ms))) [
          | none ↦ none
          | some index ↦ some (deal (length (sort_ids (keys ms))) index all)
        ]
      ]
      else none
]

unfoldable pub assignment : Bytes → Bytes → Coordinator → List GroupAssignment
unfolding sort_ids index_of deal
assignment group member_id c = elim (find group c.members) [
  | none ↦ []
  | some ms ↦
      if has member_id ms
      then elim (find group c.assignments) [
        | none ↦ []
        | some all ↦ elim (index_of member_id (sort_ids (keys ms))) [
          | none ↦ []
          | some index ↦ deal (length (sort_ids (keys ms))) index all
        ]
      ]
      else []
]
