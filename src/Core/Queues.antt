-- ===== src/Core/Queues.antt =====
-- `QueueManager` of src/core/queue_manager.cc: the table of topics, and which partition a message
-- goes to. Its lock makes each operation atomic, so that an operation is a function of the table.
pub mod Table
pub mod Routing
use mq_project.Prelude.{
  ℕ, ◌+◌, ◌-◌, ◌*◌, ◌%◌, ◌^◌, ◌≤◌, ◌<◌, ◌≡◌, Bool, true, false, not, ◌&&◌, ◌||◌, Option, none, some,
  List, [], ◌∷◌, map, ltb, leb, ◌==◌, if◌then◌else◌, bit_xor,
}
use mq_project.Bytes.{Byte, Bytes}
use mq_project.Bytes.Equality.{bytes_lt}
use mq_project.Dict.{Dict, find, has, insert, erase, values}
use mq_project.Core.Topic.{is_valid_topic_name}

pub record TopicMetadata : Type 0 where
  pub name : Bytes
  pub partition_count : ℕ

abbrev pub Topics : Type 0
Topics = Dict TopicMetadata

pub data Error : Type 0 where
  invalid_topic_metadata topic_exists unknown_topic partition_out_of_range : Error

abbrev pub max_partitions : ℕ
max_partitions = 1024

-- The largest `uint32_t`.
abbrev pub auto_partition : ℕ
auto_partition = 2 ^ 32 - 1

-- FNV-1a over 64 bits.
pub hash_loop : ℕ → Bytes → ℕ
hash_loop hash [] = hash
hash_loop hash (byte ∷ key) = hash_loop (bit_xor hash byte * 1099511628211 % 2 ^ 64) key

unfoldable pub hash_key : Bytes → ℕ
unfolding hash_loop
hash_key key = hash_loop 14695981039346656037 key

-- What makes metadata acceptable.
unfoldable pub is_valid_metadata : TopicMetadata → Bool
is_valid_metadata t =
    is_valid_topic_name t.name
    && not (t.partition_count == 0)
    && leb t.partition_count max_partitions

-- `none` is `true`; an error is `false` with its text.
unfoldable pub create_topic : Bytes → ℕ → Topics → Option Error × Topics
create_topic name partition_count topics =
    let metadata : TopicMetadata = record { name = name; partition_count = partition_count } in
    if is_valid_metadata metadata
    then (if has name topics
        then (some topic_exists, topics)
        else (none, insert name metadata topics))
    else (some invalid_topic_metadata, topics)

unfoldable pub delete_topic : Bytes → Topics → Option Error × Topics
delete_topic name topics =
    if has name topics then (none, erase name topics) else (some unknown_topic, topics)

-- The loop of `ReplaceTopics`, over a table of its own.
pub collect_topics : Topics → List TopicMetadata → Option Topics
collect_topics replacement [] = some replacement
collect_topics replacement (t ∷ ts) =
    let rest = collect_topics (insert t.name t replacement) ts in
    if is_valid_metadata t && not (has t.name replacement) then rest else none

unfoldable pub replace_topics : List TopicMetadata → Topics → Option Error × Topics
unfolding collect_topics
replace_topics list topics = elim (collect_topics [] list) [
  | none ↦ (some invalid_topic_metadata, topics)
  | some replacement ↦ (none, replacement)
]

abbrev pub get_topic : Bytes → Topics → Option TopicMetadata
get_topic = find

-- `std::sort` by name.
pub place : TopicMetadata → List TopicMetadata → List TopicMetadata
place t [] = t ∷ []
place t (u ∷ us) = if bytes_lt u.name t.name then u ∷ place t us else t ∷ u ∷ us

pub sort_by_name : List TopicMetadata → List TopicMetadata
unfolding place
sort_by_name [] = []
sort_by_name (t ∷ ts) = place t (sort_by_name ts)

unfoldable pub list_topics : Topics → List TopicMetadata
unfolding sort_by_name
list_topics topics = sort_by_name (values topics)

pub data Resolved : Type 0 where
  partition : ℕ → Resolved
  refused : Error → Resolved

unfoldable pub resolve_partition : Bytes → ℕ → Bytes → Topics → Resolved
unfolding hash_key
resolve_partition topic requested key topics = elim (find topic topics) [
  | none ↦ refused unknown_topic
  | some t ↦
      if requested == auto_partition
      then partition (hash_key key % t.partition_count)
      else (if leb t.partition_count requested
          then refused partition_out_of_range
          else partition requested)
]
