-- ===== src/Core/Storage/Engine.antt =====
-- `StorageEngine` of src/core/storage/storage_engine.cc: its partitions, which it opens when they are
-- first asked for. Operations are taken one after the other.
pub mod Reads
pub mod Appends
pub mod Replicated
use mq_project.Prelude.{
  ℕ, zero, suc, ◌+◌, ◌-◌, ◌%◌, Bool, true, false, not, ◌&&◌, ◌||◌, Option, none, some, List, [],
  ◌∷◌, ◌++◌, length, ltb, ◌==◌, if◌then◌else◌,
}
use mq_project.Bytes.{Bytes}
use mq_project.Bytes.Equality.{bytes_eq}
use mq_project.Core.Topic.{is_valid_topic_name}
use mq_project.Core.Storage.{Message, max_message_bytes}
use mq_project.Core.Storage.Partition.{
  StorageConfig, Segment, Partition, System, Error, invalid_message, offset_gap, invalid_topic,
  invalid_offset, cannot_open, cannot_remove, segments, append_record, open_partition,
  cleanup_partition,
}

-- The directory of a partition that is not in memory, with its `.log` files in order.
pub record Directory : Type 0 where
  pub topic : Bytes
  pub number : ℕ
  pub files : List (ℕ × Bytes)

pub record StorageEngine : Type 0 where
  pub config : StorageConfig
  pub opened : Bool
  pub partitions : List Partition
  pub closed : List Directory

-- `true` with the output, `false` with the text in `error`, or undefined behaviour.
pub data Outcome (A : Type 0) : Type 0 where
  done : A → Outcome A
  failed : Option Error → Outcome A
  faulted : Outcome A

abbrev pub is_named : Bytes → ℕ → Bytes → ℕ → Bool
is_named topic number t n = bytes_eq t topic && n == number

unfoldable pub find_partition : Bytes → ℕ → List Partition → Option Partition
find_partition topic number [] = none
find_partition topic number (p ∷ ps) =
    if is_named topic number p.topic p.number then some p else find_partition topic number ps

-- The first partition of that name, changed.
pub put_partition : Bytes → ℕ → Partition → List Partition → List Partition
put_partition topic number q [] = []
put_partition topic number q (p ∷ ps) =
    if is_named topic number p.topic p.number then q ∷ ps else p ∷ put_partition topic number q ps

pub files_in : Bytes → ℕ → List Directory → List (ℕ × Bytes)
files_in topic number [] = []
files_in topic number (d ∷ ds) =
    if is_named topic number d.topic d.number then d.files else files_in topic number ds

pub close_directory : Bytes → ℕ → List Directory → List Directory
close_directory topic number [] = []
close_directory topic number (d ∷ ds) =
    if is_named topic number d.topic d.number then ds else d ∷ close_directory topic number ds

-- `opens` says whether directories can be created and files opened and cut; `clock` is the time.
unfoldable pub get_partition :
    Bool → ℕ → Bytes → ℕ → StorageEngine → Outcome Partition × StorageEngine
unfolding find_partition files_in close_directory
get_partition opens clock topic number e = elim (find_partition topic number e.partitions) [
  | some p ↦ (done p, e)
  | none ↦
      if opens
      then elim (open_partition e.config.index_interval topic number clock
          (files_in topic number e.closed)) [
            | none ↦ (faulted, e)
            | some p ↦ (
              done p,
              record e {
                partitions = e.partitions ++ p ∷ [];
                closed = close_directory topic number e.closed;
              },
            )
          ]
      else (failed (some cannot_open), e)
]

abbrev pub is_empty : Bytes → Bool
is_empty [] = true
is_empty (b ∷ bs) = false

unfoldable pub is_storable : Bytes → Bytes → Bytes → Bool
is_storable topic key value =
    is_valid_topic_name topic
    && not (ltb 65535 (length key))
    && not (is_empty value)
    && not (ltb max_message_bytes (length value))

-- The record is added to the partition, and the message is the output.
unfoldable pub append_to :
    System → Message → Partition → StorageEngine → Outcome Message × StorageEngine
unfolding put_partition
append_to system m p e =
    let (error, p') = append_record e.config system m p in
    let e' = record e { partitions = put_partition p.topic p.number p' e.partitions } in
    elim error [ none ↦ (done m, e') | some x ↦ (failed (some x), e') ]

unfoldable pub append_found :
    System → ℕ → Bytes → Bytes → Outcome Partition × StorageEngine → Outcome Message × StorageEngine
unfolding append_to
append_found system timestamp key value (done p, e) =
    append_to system
      (record { offset = p.next_offset; timestamp_ms = timestamp; key = key; value = value }) p e
append_found system timestamp key value (failed x, e) = (failed x, e)
append_found system timestamp key value (faulted, e) = (faulted, e)

-- `timestamp` is the system's clock in milliseconds.
unfoldable pub append :
    Bool → System → ℕ → Bytes → ℕ → Bytes → Bytes → StorageEngine → Outcome Message × StorageEngine
unfolding is_storable get_partition append_found
append opens system timestamp topic number key value e =
    if is_storable topic key value
    then (if e.opened || opens
        then append_found system timestamp key value
            (get_partition opens system.clock topic number (record e { opened = true }))
        else (failed (some cannot_open), e))
    else (failed (some invalid_message), e)

unfoldable pub replicate_found :
    System → Message → Outcome Partition × StorageEngine → Outcome Message × StorageEngine
unfolding append_to
replicate_found system m (done p, e) =
    if m.offset == p.next_offset then append_to system m p e else (failed (some offset_gap), e)
replicate_found system m (failed x, e) = (failed x, e)
replicate_found system m (faulted, e) = (faulted, e)

unfoldable pub append_replica :
    Bool → System → Bytes → ℕ → Message → StorageEngine → Outcome Message × StorageEngine
unfolding is_storable get_partition replicate_found
append_replica opens system topic number m e =
    if is_storable topic m.key m.value
    then (if e.opened || opens
        then replicate_found system m
            (get_partition opens system.clock topic number (record e { opened = true }))
        else (failed (some cannot_open), e))
    else (failed (some invalid_message), e)

pub without_topic : Bytes → List Partition → List Partition
without_topic topic [] = []
without_topic topic (p ∷ ps) =
    if bytes_eq p.topic topic then without_topic topic ps else p ∷ without_topic topic ps

pub without_directories : Bytes → List Directory → List Directory
without_directories topic [] = []
without_directories topic (d ∷ ds) =
    if bytes_eq d.topic topic
    then without_directories topic ds
    else d ∷ without_directories topic ds

-- The removal of the directories succeeds.
unfoldable pub delete_topic : Bytes → StorageEngine → Option Error × StorageEngine
unfolding without_topic without_directories
delete_topic topic e =
    if is_valid_topic_name topic
    then (
      none,
      record e {
        partitions = without_topic topic e.partitions;
        closed = without_directories topic e.closed;
      },
    )
    else (some invalid_topic, e)

abbrev pub messages_of : List Segment → List Message
messages_of [] = []
messages_of (s ∷ ss) = s.messages ++ messages_of ss

abbrev pub message_size : Message → ℕ
message_size m = length m.key + length m.value

-- The loops of `Read` over the messages that are left, with the bytes so far; `any` says whether there
-- are messages in the output.
pub read_messages : ℕ → ℕ → ℕ → Bool → List Message → List Message
read_messages start max_bytes bytes any [] = []
read_messages start max_bytes bytes any (m ∷ ms) =
    let skipped = read_messages start max_bytes bytes any ms in
    let further = read_messages start max_bytes (bytes + message_size m) true ms in
    if ltb m.offset start
    then skipped
    else (if (any && ltb max_bytes (bytes + message_size m)) || ltb max_bytes (message_size m)
        then []
        else m ∷ further)

unfoldable pub read_partition : ℕ → ℕ → Partition → Outcome (List Message)
unfolding read_messages
read_partition start max_bytes p =
    if ltb p.next_offset start
    then failed (some invalid_offset)
    else done (read_messages start max_bytes 0 false (messages_of (segments p)))

unfoldable pub read_found :
    ℕ → ℕ → Outcome Partition × StorageEngine → Outcome (List Message) × StorageEngine
unfolding read_partition
read_found start max_bytes (done p, e) = (read_partition start max_bytes p, e)
read_found start max_bytes (failed x, e) = (failed x, e)
read_found start max_bytes (faulted, e) = (faulted, e)

unfoldable pub read :
    Bool → ℕ → Bytes → ℕ → ℕ → ℕ → StorageEngine → Outcome (List Message) × StorageEngine
unfolding get_partition read_found
read opens clock topic number start max_bytes e =
    if not (is_valid_topic_name topic) || max_bytes == 0
    then (failed none, e)
    else read_found start max_bytes (get_partition opens clock topic number e)

unfoldable pub next_offset_found : Outcome Partition × StorageEngine → Outcome ℕ × StorageEngine
next_offset_found (done p, e) = (done p.next_offset, e)
next_offset_found (failed x, e) = (failed x, e)
next_offset_found (faulted, e) = (faulted, e)

unfoldable pub next_offset : Bool → ℕ → Bytes → ℕ → StorageEngine → Outcome ℕ × StorageEngine
unfolding get_partition next_offset_found
next_offset opens clock topic number e =
    if is_valid_topic_name topic
    then next_offset_found (get_partition opens clock topic number e)
    else (failed none, e)

-- The first file that cannot be removed ends the loop.
pub cleanup_all : (Segment → Bool) → StorageConfig → ℕ → List Partition → Bool × List Partition
cleanup_all removes config now [] = (true, [])
cleanup_all removes config now (p ∷ ps) =
    let (all_gone, q) = cleanup_partition removes config now p in
    let (rest_done, rest) = cleanup_all removes config now ps in
    if all_gone then (rest_done, q ∷ rest) else (false, q ∷ ps)

unfoldable pub cleanup_expired_segments :
    (Segment → Bool) → ℕ → StorageEngine → Bool × StorageEngine
unfolding cleanup_all
cleanup_expired_segments removes now e =
    let (all_gone, partitions) = cleanup_all removes e.config now e.partitions in
    (all_gone, record e { partitions = partitions })
