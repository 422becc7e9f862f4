-- ===== src/Core/Storage/Tests.antt =====
-- The theorems on partitions and their engine at concrete logs.
use mq_project.Prelude.{
  ℕ, ◌+◌, ◌-◌, ◌≤◌, ◌<◌, ◌≡◌, ◌⊎◌, ◌++◌, drop, refl, arith, true, none, some, List, [], ◌∷◌, map,
}
use mq_project.Bytes.{Bytes}
use mq_project.Bytes.Equality.{bytes_eq}
use mq_project.Core.Topic.{is_valid_topic_name}
use mq_project.Core.Storage.{Message}
use mq_project.Core.Storage.Partition.{
  interval, StorageConfig, System, Segment, Partition, segments, empty_segment, append_record,
  write_record, open_partition, files_of, cleanup_partition, invalid_offset,
}
use mq_project.Core.Storage.Partition.Chain.{IsLog, empty_segment-Holds, append_record-IsLog}
use mq_project.Core.Storage.Partition.Restart.{open_partition-files_of, open_partition_gap, emptied}
use mq_project.Core.Storage.Partition.Retention.{cleanup_partition_lem, AreDue, Ends}
use mq_project.Core.Storage.Engine.{
  StorageEngine, Outcome, done, failed, append, read, next_offset, is_storable, get_partition,
  append_found, append_to, messages_of, read_partition, find_partition,
}
use mq_project.Core.Storage.Engine.Reads.{read_partition_lem, Parts}
use mq_project.Core.Storage.Engine.Appends.{append-read}

abbrev topic : Bytes
topic = 0x74 ∷ []

abbrev config : StorageConfig
config = record {
  segment_size_bytes = 64;
  index_interval = 2;
  fsync_policy = interval;
  fsync_interval_ms = 50;
  retention_ms = 1000;
  retention_bytes = 0;
}

abbrev system : System
system = record { creates = true; written = none; syncs = true; clock = 7 }

abbrev pub sent : ℕ → Message
sent offset = record { offset = offset; timestamp_ms = 5; key = 0x6B ∷ []; value = 0x76 ∷ [] }

-- A partition whose one segment is empty and begins at `base`.
abbrev fresh : ℕ → Partition
fresh base = record {
  topic = topic;
  number = 0;
  older = [];
  active = empty_segment base;
  next_offset = base;
  last_sync = 0;
}

fresh-IsLog : (base : ℕ) → IsLog config.index_interval base (fresh base)
fresh-IsLog base = record {
  start = base;
  older_chain = refl;
  active_holds = empty_segment-Holds config.index_interval base base;
  ends = omega arith;
}

abbrev pub grown : ℕ → Partition
grown base = (append_record config system (sent base) (fresh base)).1

append_record-IsLog_example : IsLog config.index_interval 3 (grown 3)
append_record-IsLog_example =
    append_record-IsLog config system (sent 3) 3 (fresh 3) refl (fresh-IsLog 3) refl (omega arith)
      (record {
        offset_fits = omega arith;
        timestamp_fits = omega arith;
        key_fits = omega arith;
        value_fits = omega arith;
      })

pub grown-IsLog : (base : ℕ) → base < 100 → IsLog config.index_interval base (grown base)
grown-IsLog base h =
    append_record-IsLog config system (sent base) base (fresh base) refl (fresh-IsLog base) refl
      (omega (arith, h))
      (record {
        offset_fits = omega (arith, h);
        timestamp_fits = omega arith;
        key_fits = omega arith;
        value_fits = omega arith;
      })

open_partition-files_of_example :
    open_partition 2 (grown 0).topic (grown 0).number 9 (files_of (segments (grown 0)))
    ≡ some (record (grown 0) { last_sync = 9 })
unfolding append_record write_record
open_partition-files_of_example =
    open_partition-files_of 2 9 (grown 0) (grown-IsLog 0 (omega arith)) (omega arith)

open_partition_gap_example :
    open_partition 2 (grown 3).topic (grown 3).number 9 (files_of (segments (grown 3)))
    ≡ some (record (grown 3) {
      older = map emptied (grown 3).older;
      active = emptied (grown 3).active;
      next_offset = 0;
      last_sync = 9;
    })
open_partition_gap_example =
    open_partition_gap 2 9 3 (grown 3) (grown-IsLog 3 (omega arith)) (omega arith)

cleanup_partition_lem_example :
    let (all_gone, after) = cleanup_partition (λ s. true) config 5000 (grown 3) in
    (gone : List Segment) × (first : ℕ) × (segments (grown 3) ≡ gone ++ segments after)
    × (3 ≤ first)
    × IsLog 2 first after
    × (after.next_offset ≡ (grown 3).next_offset)
    × AreDue config 5000 after.active gone after.older
    × Ends (λ s. true) config 5000 after.active all_gone after.older
cleanup_partition_lem_example =
    cleanup_partition_lem (λ s. true) config 5000 2 3 (grown 3) (grown-IsLog 3 (omega arith))

read_partition_lem_example :
    ((3 ≤ (grown 3).next_offset)
      × (got : List Message) × (read_partition 3 100 (grown 3) ≡ done got)
      × Parts 100 0 (drop (3 - 3) (messages_of (segments (grown 3)))) got)
    ⊎ (((grown 3).next_offset < 3)
        × (read_partition 3 100 (grown 3) ≡ failed (some invalid_offset)))
read_partition_lem_example = read_partition_lem 2 3 3 100 (grown 3) (grown-IsLog 3 (omega arith))

abbrev engine : StorageEngine
engine = record { config = config; opened = true; partitions = fresh 3 ∷ []; closed = [] }

abbrev after_append : Outcome Message × StorageEngine
after_append = append true system 5 topic 0 (0x6B ∷ []) (0x76 ∷ []) engine

append-read_example :
    (((sent 3).key ≡ 0x6B ∷ [])
      × ((sent 3).value ≡ 0x76 ∷ [])
      × ((sent 3).timestamp_ms ≡ 5)
      × ((sent 3).offset ≡ (fresh 3).next_offset))
    × ((read true 9 topic 0 3 100 after_append.1).0 ≡ done (sent 3 ∷ []))
    × ((next_offset true 9 topic 0 after_append.1).0 ≡ done (3 + 1))
unfolding append is_storable get_partition append_found append_to append_record write_record
    find_partition bytes_eq is_valid_topic_name
append-read_example =
    append-read true true system 5 0 2 3 100 9 topic (0x6B ∷ []) (0x76 ∷ []) engine after_append.1
      (fresh 3) (sent 3) refl (fresh-IsLog 3) (omega arith) refl (omega arith)
