-- ===== src/Core/Storage/Partition.antt =====
-- One partition of `StorageEngine`, src/core/storage/storage_engine.cc: its segments, how a record is
-- added to the newest of them, how the oldest are given up, and how all of them are read back after a
-- restart. A segment holds what its `.log` and its `.index` file hold. What the operating system does
-- is an argument. The directory holds no other files than these.
pub mod Chain
pub mod Restart
pub mod Retention
use mq_project.Prelude.{
  ℕ, zero, suc, ◌+◌, ◌-◌, ◌%◌, ◌^◌, Bool, true, false, not, ◌&&◌, ◌||◌, Option, none, some, List,
  [], ◌∷◌, ◌++◌, length, take, ltb, leb, ◌==◌, if◌then◌else◌,
}
use mq_project.Bytes.{Bytes, put64}
use mq_project.Core.Storage.{
  Message, record_bytes, record_header_size, body_bytes, Recovered, recover,
}

pub data FsyncPolicy : Type 0 where
  per_message per_batch interval : FsyncPolicy

pub record StorageConfig : Type 0 where
  pub segment_size_bytes : ℕ
  pub index_interval : ℕ
  pub fsync_policy : FsyncPolicy
  pub fsync_interval_ms : ℕ
  pub retention_ms : ℕ
  pub retention_bytes : ℕ

pub data Error : Type 0 where
  invalid_message cannot_create_segment write_failed fsync_failed offset_gap : Error
  invalid_topic invalid_offset cannot_open cannot_remove : Error

pub record Segment : Type 0 where
  pub number : ℕ
  pub file : Bytes
  pub index : Bytes
  pub messages : List Message
  pub size : ℕ
  pub last_timestamp_ms : ℕ

-- `segments` is `older` and then `active`, its back.
pub record Partition : Type 0 where
  pub topic : Bytes
  pub number : ℕ
  pub older : List Segment
  pub active : Segment
  pub next_offset : ℕ
  pub last_sync : ℕ

abbrev pub segments : Partition → List Segment
segments p = p.older ++ p.active ∷ []

-- What the system does during one append: whether a segment can be created, how much of the record
-- reaches the file (`none` is all of it, without an error), whether the syncs succeed, and the clock.
pub record System : Type 0 where
  pub creates : Bool
  pub written : Option ℕ
  pub syncs : Bool
  pub clock : ℕ

unfoldable pub index_entry : ℕ → ℕ → ℕ → Bytes
index_entry every offset position =
    if offset % every == 0 then put64 (put64 [] offset) position else []

abbrev pub empty_segment : ℕ → Segment
empty_segment number = record {
  number = number;
  file = [];
  index = [];
  messages = [];
  size = 0;
  last_timestamp_ms = 0;
}

unfoldable pub needs_roll : StorageConfig → ℕ → Segment → Bool
needs_roll config record_size active =
    not (active.size == 0) && ltb config.segment_size_bytes (active.size + record_size)

unfoldable pub roll : Partition → Partition
roll p = record p { older = segments p; active = empty_segment ((p.active.number + 1) % 2 ^ 64) }

unfoldable pub is_synced : StorageConfig → ℕ → Bool
is_synced config elapsed = elim config.fsync_policy [
  | per_message ↦ true
  | per_batch ↦ true
  | interval ↦ leb config.fsync_interval_ms elapsed
]

-- The newest segment with one more message in its file, its index and its memory.
unfoldable pub extend : StorageConfig → Message → Segment → Segment
unfolding index_entry
extend config m s = record s {
  file = s.file ++ record_bytes m;
  index = s.index ++ index_entry config.index_interval m.offset s.size;
  messages = s.messages ++ m ∷ [];
  size = s.size + length (record_bytes m);
  last_timestamp_ms = m.timestamp_ms;
}

-- The rest of `Append` and of `AppendReplica` once the newest segment is there.
unfoldable pub write_record :
    StorageConfig → System → Message → Partition → Option Error × Partition
unfolding extend is_synced
write_record config system m p = elim system.written [
  | some n ↦ (
    some write_failed,
    record p { active = record p.active { file = p.active.file ++ take n (record_bytes m) } },
  )
  | none ↦
      let p' = record p {
        active = extend config m p.active;
        next_offset = (p.next_offset + 1) % 2 ^ 64;
      } in
      if is_synced config (system.clock - p.last_sync)
      then (if system.syncs
          then (none, record p' { last_sync = system.clock })
          else (some fsync_failed, p'))
      else (none, p')
]

unfoldable pub append_record :
    StorageConfig → System → Message → Partition → Option Error × Partition
unfolding needs_roll roll write_record
append_record config system m p =
    if needs_roll config (length (record_bytes m)) p.active
    then (if system.creates
        then write_record config system m (roll p)
        else (some cannot_create_segment, p))
    else write_record config system m p

-- The index that `Recover` writes anew, from `position` on.
pub rebuild_index : ℕ → ℕ → List Message → Bytes
unfolding index_entry
rebuild_index every position [] = []
rebuild_index every position (m ∷ ms) =
    index_entry every m.offset position
    ++ rebuild_index every (position + length (record_bytes m)) ms

pub last_timestamp : List Message → ℕ
last_timestamp [] = 0
last_timestamp (m ∷ []) = m.timestamp_ms
last_timestamp (m ∷ n ∷ ms) = last_timestamp (n ∷ ms)

-- A segment out of its number and its file, which is cut behind the last whole record.
unfoldable pub recovered_segment : ℕ → ℕ → Bytes → Recovered → Segment
unfolding rebuild_index last_timestamp
recovered_segment every number file r = record {
  number = number;
  file = take r.valid_bytes file;
  index = rebuild_index every 0 r.messages;
  messages = r.messages;
  size = r.valid_bytes;
  last_timestamp_ms = last_timestamp r.messages;
}

-- The loop of `Recover` over the files in their order, from the offset `next` on.
pub recover_files : ℕ → ℕ → List (ℕ × Bytes) → Option (List Segment × ℕ)
unfolding recovered_segment
recover_files every next [] = some ([], next)
recover_files every next ((number, file) ∷ files) = elim (recover next file) [
  | none ↦ none
  | some r ↦ elim (recover_files every r.next_offset files) [
    | none ↦ none
    | some (segments, end) ↦ some (recovered_segment every number file r ∷ segments, end)
  ]
]

-- The segments in memory, of which there is at least one.
unfoldable pub with_segments : Partition → Segment → List Segment → Partition
with_segments p s [] = record p { older = []; active = s }
with_segments p s (t ∷ ts) =
    let rest = with_segments p t ts in record rest { older = s ∷ rest.older }

-- A directory without files gets a first one.
abbrev pub or_first : List (ℕ × Bytes) → List (ℕ × Bytes)
or_first [] = (0, []) ∷ []
or_first (f ∷ fs) = f ∷ fs

-- `GetPartition` of a partition that is not in memory: `none` is a fault.
unfoldable pub open_partition : ℕ → Bytes → ℕ → ℕ → List (ℕ × Bytes) → Option Partition
unfolding recover_files with_segments
open_partition every topic number now files = elim (recover_files every 0 (or_first files)) [
  | none ↦ none
  | some ([], end) ↦ none
  | some (s ∷ ss, end) ↦ some (
      with_segments
        (record {
          topic = topic;
          number = number;
          older = [];
          active = s;
          next_offset = end;
          last_sync = now;
        })
        s ss)
]

-- The files that a partition leaves on the disk.
abbrev pub files_of : List Segment → List (ℕ × Bytes)
files_of [] = []
files_of (s ∷ ss) = (s.number, s.file) ∷ files_of ss

-- `now - last_timestamp_ms` of a signed time stamp, kept as 64 bits, and the clock `now`.
abbrev pub age : ℕ → ℕ → ℕ
age now timestamp = if ltb timestamp (2 ^ 63) then now - timestamp else now + (2 ^ 64 - timestamp)

unfoldable pub is_expired : StorageConfig → ℕ → Segment → Bool
is_expired config now oldest =
    not (config.retention_ms == 0)
    && not (oldest.last_timestamp_ms == 0)
    && leb config.retention_ms (age now oldest.last_timestamp_ms)

unfoldable pub is_oversized : StorageConfig → ℕ → Bool
is_oversized config total = not (config.retention_bytes == 0) && ltb config.retention_bytes total

pub total_size : List Segment → ℕ
total_size [] = 0
total_size (s ∷ ss) = s.size + total_size ss

-- The loop over the oldest segments, which are all but the active one: what is left of them.
-- `removes` says whether the two files of a segment can be removed; where they cannot, the loop ends with
-- `false`. (It has closed the file of that segment, which is not part of this state.)
pub drop_oldest : (Segment → Bool) → StorageConfig → ℕ → ℕ → List Segment → Bool × List Segment
unfolding is_expired is_oversized
drop_oldest removes config now total [] = (true, [])
drop_oldest removes config now total (s ∷ ss) =
    let rest = drop_oldest removes config now (total - s.size) ss in
    if is_expired config now s || is_oversized config total
    then (if removes s then rest else (false, s ∷ ss))
    else (true, s ∷ ss)

unfoldable pub cleanup_partition :
    (Segment → Bool) → StorageConfig → ℕ → Partition → Bool × Partition
unfolding drop_oldest total_size
cleanup_partition removes config now p =
    let (all_gone, older) = drop_oldest removes config now (total_size (segments p)) p.older in
    (all_gone, record p { older = older })
