-- ===== src/Core/Stores.antt =====
-- `ConsumerOffsetStore` and `TopicMetadataStore`, src/core/consumer_offset_store.cc and
-- src/core/topic_metadata_store.cc: lists kept in a file. A disk is what the file holds, `none` where
-- there is no file; whether the calls on the file system succeed is an argument. The new contents go
-- to a temporary file, which is renamed over the file at the end.
pub mod Offsets
pub mod Metadata
use mq_project.Prelude.{
  ℕ, zero, suc, ◌+◌, ◌-◌, ◌*◌, ◌/◌, ◌%◌, ◌^◌, ◌≤◌, ◌<◌, ◌≡◌, Bool, true, false, not, ◌&&◌, ◌||◌,
  Option, none, some, List, [], ◌∷◌, ◌++◌, length, ltb, ◌==◌, if◌then◌else◌,
}
use mq_project.Bytes.{
  Bytes, put16, put32, put64, stream_get16, stream_get32, stream_get64, stream_read,
}
use mq_project.Bytes.Equality.{bytes_eq}
use mq_project.Core.Topic.{is_valid_topic_name}
use mq_project.Core.Queues.{TopicMetadata}

abbrev pub Disk : Type 0
Disk = Option Bytes

pub data Error : Type 0 where
  too_many name_too_long invalid truncated file_system : Error

-- The first failure in a chain of reads.
infixl 5 ◌>>=◌
abbrev pub ◌>>=◌ {ℓ κ} : {A : Type ℓ} {B : Type κ} → Option A → (A → Option B) → Option B
none >>= f = none
some a >>= f = f a

-- What a loop of reads leaves: the list with what it has read, and the error, if it stops at one.
abbrev pub Loaded : Type 0 → Type 0
Loaded A = Option Error × List A

-- The head of both files: four letters, a version and the number of entries, `none` where they are
-- not as expected.
unfoldable pub read_head : Bytes → ℕ → Bytes → Option (ℕ × Bytes)
read_head magic limit file = do
  (letters, a) ← stream_read 4 file
  (version, b) ← (if bytes_eq letters magic then stream_get32 a else none)
  (count, c) ← (if version == 1 then stream_get32 b else none)
  (if ltb limit count then none else some (count, c))

-- `MQCO` and `MQTM`.
abbrev pub offset_magic : Bytes
offset_magic = 0x4D ∷ 0x51 ∷ 0x43 ∷ 0x4F ∷ []

abbrev pub metadata_magic : Bytes
metadata_magic = 0x4D ∷ 0x51 ∷ 0x54 ∷ 0x4D ∷ []

pub record ConsumerOffset : Type 0 where
  pub group : Bytes
  pub topic : Bytes
  pub partition : ℕ
  pub offset : ℕ

abbrev pub max_offsets : ℕ
max_offsets = 100000

unfoldable pub offset_bytes : ConsumerOffset → Bytes
offset_bytes item =
    put64
      (put32 (put16 (put16 [] (length item.group) ++ item.group) (length item.topic) ++ item.topic)
        item.partition)
      item.offset

pub offsets_bytes : List ConsumerOffset → Bytes
unfolding offset_bytes
offsets_bytes [] = []
offsets_bytes (item ∷ items) = offset_bytes item ++ offsets_bytes items

pub names_fit : List ConsumerOffset → Bool
names_fit [] = true
names_fit (item ∷ items) =
    if ltb 65535 (length item.group) || ltb 65535 (length item.topic)
    then false
    else names_fit items

-- `none` is `true`.
unfoldable pub save_offsets : Bool → List ConsumerOffset → Disk → Option Error × Disk
unfolding offsets_bytes names_fit
save_offsets works offsets disk =
    if ltb max_offsets (length offsets)
    then (some too_many, disk)
    else (if works
        then (if names_fit offsets
            then (
              none,
              some (put32 (put32 offset_magic 1) (length offsets) ++ offsets_bytes offsets),
            )
            else (some name_too_long, disk))
        else (some file_system, disk))

unfoldable pub read_offset : Bytes → Option (ConsumerOffset × Bytes)
read_offset file = do
  (group_size, a) ← stream_get16 file
  (group, b) ← stream_read group_size a
  (topic_size, c) ← stream_get16 b
  (topic, d) ← stream_read topic_size c
  (partition, e) ← stream_get32 d
  (offset, f) ← stream_get64 e
  some (record { group = group; topic = topic; partition = partition; offset = offset }, f)

pub read_offsets : ℕ → Bytes → Loaded ConsumerOffset
unfolding read_offset
read_offsets zero file = (none, [])
read_offsets (suc n) file = elim (read_offset file) [
  | none ↦ (some truncated, [])
  | some (item, rest) ↦ let (error, items) = read_offsets n rest in (error, item ∷ items)
]

-- A missing file is an empty list.
unfoldable pub load_offsets : Disk → Loaded ConsumerOffset
unfolding read_head read_offsets
load_offsets none = (none, [])
load_offsets (some file) = elim (read_head offset_magic max_offsets file) [
  | none ↦ (some invalid, [])
  | some (count, rest) ↦ read_offsets count rest
]

abbrev pub max_topics : ℕ
max_topics = 1024

unfoldable pub metadata_bytes : TopicMetadata → Bytes
metadata_bytes t = put32 (put16 [] (length t.name) ++ t.name) t.partition_count

pub metadata_list_bytes : List TopicMetadata → Bytes
unfolding metadata_bytes
metadata_list_bytes [] = []
metadata_list_bytes (t ∷ ts) = metadata_bytes t ++ metadata_list_bytes ts

unfoldable pub is_stored : TopicMetadata → Bool
is_stored t = is_valid_topic_name t.name && not (t.partition_count == 0)

pub are_stored : List TopicMetadata → Bool
unfolding is_stored
are_stored [] = true
are_stored (t ∷ ts) =
    if is_stored t && not (ltb 65535 (length t.name)) then are_stored ts else false

unfoldable pub save_topics : Bool → List TopicMetadata → Disk → Option Error × Disk
unfolding are_stored metadata_list_bytes
save_topics works topics disk =
    if ltb max_topics (length topics)
    then (some too_many, disk)
    else (if are_stored topics
        then (if works
            then (
              none,
              some (put32 (put32 metadata_magic 1) (length topics) ++ metadata_list_bytes topics),
            )
            else (some file_system, disk))
        else (some invalid, disk))

unfoldable pub read_metadata : Bytes → Option (TopicMetadata × Bytes)
read_metadata file = do
  (name_length, a) ← stream_get16 file
  (name, b) ← stream_read name_length a
  (partition_count, c) ← stream_get32 b
  some (record { name = name; partition_count = partition_count }, c)

pub read_topics : ℕ → Bytes → Loaded TopicMetadata
unfolding read_metadata is_stored
read_topics zero file = (none, [])
read_topics (suc n) file = elim (read_metadata file) [
  | none ↦ (some truncated, [])
  | some (t, rest) ↦
      let (error, ts) = read_topics n rest in
      if is_stored t then (error, t ∷ ts) else (some invalid, [])
]

unfoldable pub load_topics : Disk → Loaded TopicMetadata
unfolding read_head read_topics
load_topics none = (none, [])
load_topics (some file) = elim (read_head metadata_magic max_topics file) [
  | none ↦ (some invalid, [])
  | some (count, rest) ↦ read_topics count rest
]
