-- ===== src/Core/Tests.antt =====
-- The theorems on topics and groups at concrete names, tables and members.
use mathlib.Core.List.{Nodup, Perm, flatten}
use mq_project.Prelude.{
  ◌+◌, length, take, ◌++◌, ℕ, ◌≡◌, ◌↔◌, refl, arith, true, none, some, List, [], ◌∷◌, map,
}
use mq_project.Bytes.{Bytes, All}
use mq_project.Bytes.Equality.{bytes_eq}
use mq_project.Dict.{find, insert, keys}
use mq_project.Core.Topic.{is_valid_topic_name, is_valid_utf8}
use mq_project.Core.Topic.Utf8.{IsScalar, encode_all}
use mq_project.Core.Topic.Encoding.{is_valid_utf8_iff}
use mq_project.Core.Topic.Names.{IsTopicName, is_valid_topic_name_iff}
use mq_project.Core.Queues.{TopicMetadata, Topics}
use mq_project.Core.Queues.Table.{AllLegal}
use mq_project.Core.Stores.{
  Disk, ConsumerOffset, save_offsets, load_offsets, save_topics, load_topics,
}
use mq_project.Core.Stores.Offsets.{load-save_offsets}
use mq_project.Core.Stores.Metadata.{load-save_topics}
use mq_project.Core.Storage.{Message, record_bytes, body_bytes, recover}
use mq_project.Core.Storage.Crash.{log_bytes, recover-cut}
use mq_project.Core.Groups.{
  Members, Coordinator, plan, sort_ids, join, assignment, is_empty, rebalance, set_partitions,
}
use mq_project.Core.Groups.History.{joined, partitioned, perform, start, step, Reachable-assignment}

-- `café`
abbrev cafe : Bytes
cafe = 0x63 ∷ 0x61 ∷ 0x66 ∷ 0xC3 ∷ 0xA9 ∷ []

is_valid_utf8_iff_example :
    (is_valid_utf8 cafe ≡ true) ↔ ((cs : List ℕ) × All IsScalar cs × (cafe ≡ encode_all cs))
is_valid_utf8_iff_example = is_valid_utf8_iff cafe (ground arith)

is_valid_topic_name_iff_example : (is_valid_topic_name cafe ≡ true) ↔ IsTopicName cafe
is_valid_topic_name_iff_example = is_valid_topic_name_iff cafe (ground arith)

abbrev coffee : TopicMetadata
coffee = record { name = cafe; partition_count = 3 }

abbrev orders : TopicMetadata
orders = record { name = 0x6F ∷ []; partition_count = 2 }

abbrev two_topics : Topics
two_topics = (0x6F ∷ [], orders) ∷ (cafe, coffee) ∷ []

two_topics-AllLegal : AllLegal two_topics
unfolding is_valid_topic_name
two_topics-AllLegal = (
  record { named = refl; some_partitions = omega arith; few_partitions = omega arith },
  (record { named = refl; some_partitions = omega arith; few_partitions = omega arith }, tt),
)

abbrev two_members : Members
two_members =
    (0x78 ∷ [], record { last_heartbeat = 5; topics = cafe ∷ [] })
    ∷ (0x77 ∷ [], record { last_heartbeat = 6; topics = cafe ∷ [] })
    ∷ []

-- Members `x` and `w` of the group `g` read `café`, of three partitions.
abbrev joined_twice : Coordinator
joined_twice = perform (partitioned cafe 3) (
    perform (joined (0x67 ∷ []) (0x77 ∷ []) (cafe ∷ []) 6) (
      perform (joined (0x67 ∷ []) (0x78 ∷ []) (cafe ∷ []) 5)
        (record { member_timeout = 30; members = []; assignments = []; partitions = [] })))

Reachable-assignment_example :
    Perm
      (flatten (map (λ id. assignment (0x67 ∷ []) id joined_twice) (sort_ids (keys two_members))))
      (plan joined_twice.partitions two_members)
    × Nodup
        (flatten (map (λ id. assignment (0x67 ∷ []) id joined_twice) (sort_ids (keys two_members))))
unfolding perform join is_empty rebalance set_partitions find insert bytes_eq
Reachable-assignment_example =
    Reachable-assignment 30 joined_twice (0x67 ∷ []) two_members
      (step (partitioned cafe 3) _ (
        step (joined (0x67 ∷ []) (0x77 ∷ []) (cafe ∷ []) 6) _
          (step (joined (0x67 ∷ []) (0x78 ∷ []) (cafe ∷ []) 5) _ start)))
      refl (omega arith)

abbrev read_up_to : ConsumerOffset
read_up_to = record { group = 0x67 ∷ []; topic = cafe; partition = 2; offset = 70000 }

load-save_offsets_example :
    let (error, after) = save_offsets true (read_up_to ∷ []) none in
    (error ≡ none) × (load_offsets after ≡ (none, read_up_to ∷ []))
load-save_offsets_example = load-save_offsets (read_up_to ∷ []) none (omega arith) (ground arith)

cafe_named : is_valid_topic_name cafe ≡ true
unfolding is_valid_topic_name
cafe_named = refl

load-save_topics_example :
    let (error, after) = save_topics true (coffee ∷ []) none in
    (error ≡ none) × (load_topics after ≡ (none, coffee ∷ []))
load-save_topics_example = load-save_topics (coffee ∷ []) none (omega arith) (
  record {
    named = cafe_named;
    some_partitions = omega arith;
    partitions_fit = omega arith;
    name_fits = omega arith;
  },
  tt,
)

-- A file that ends in the middle of a topic.
abbrev cut_file : Disk
cut_file = some (0x4D ∷ 0x51 ∷ 0x54 ∷ 0x4D ∷ 0 ∷ 0 ∷ 0 ∷ 1 ∷ 0 ∷ 0 ∷ 0 ∷ 1 ∷ 0 ∷ 9 ∷ 0x61 ∷ [])

abbrev first_message : Message
first_message = record {
  offset = 0;
  timestamp_ms = 1700000000000;
  key = 1 ∷ [];
  value = 2 ∷ 3 ∷ [];
}

abbrev cut_message : Message
cut_message = record { offset = 1; timestamp_ms = 1700000000001; key = []; value = 4 ∷ [] }

-- Ten bytes of the second record reached the file.
recover-cut_example :
    recover 0 (log_bytes (first_message ∷ []) ++ take 10 (record_bytes cut_message))
    ≡ some (record {
      messages = first_message ∷ [];
      valid_bytes = length (log_bytes (first_message ∷ []));
      next_offset = 0 + 1;
    })
unfolding record_bytes body_bytes
recover-cut_example =
    recover-cut 0 10 (first_message ∷ []) cut_message (refl, ground arith, tt) (omega arith)
      (ground arith) (omega arith)
