-- ===== src/Core/Stores/Metadata.antt =====
-- Topic metadata through its file.
use mq_project.Prelude.{
  ℕ, zero, suc, ◌^◌, ◌≤◌, ◌<◌, ◌≡◌, inl, inr, refl, true, none, some, List, [], ◌∷◌, ◌++◌, length,
  arith, Bool-cases, Option-cases, append_assoc, le→ltb,
}
use mq_project.Bytes.{Bytes, All, be_bytes, put16, put32, stream_get16, stream_get32, stream_read}
use mq_project.Bytes.Laws.{stream_get16-put16, stream_get32-be_bytes, stream_read-append}
use mq_project.Core.Topic.{is_valid_topic_name}
use mq_project.Core.Queues.{TopicMetadata}
use mq_project.Core.Stores.{
  Disk, metadata_magic, max_topics, metadata_bytes, metadata_list_bytes, is_stored, are_stored,
  save_topics, read_metadata, read_topics, load_topics, read_head,
}
use mq_project.Core.Stores.Offsets.{read_head_by}

-- A legal name, which the format can hold, and a number of partitions of 32 bits, not zero.
pub record IsStored (t : TopicMetadata) : Type 0 where
  pub named : is_valid_topic_name t.name ≡ true
  pub some_partitions : 1 ≤ t.partition_count
  pub partitions_fit : t.partition_count < 2 ^ 32
  pub name_fits : length t.name ≤ 65535

is_stored_of : (t : TopicMetadata) → IsStored t → is_stored t ≡ true
unfolding is_stored
is_stored_of t v = ground (arith, v)

are_stored_of : (ts : List TopicMetadata) → All IsStored ts → are_stored ts ≡ true
unfolding are_stored
are_stored_of [] v = refl
are_stored_of (t ∷ ts) (v, w) =
    rw (is_stored_of t v) (rw (le→ltb 65535 (length t.name) v.name_fits) (are_stored_of ts w))

metadata_bytes_parts :
    (t : TopicMetadata) (rest : Bytes)
    → metadata_bytes t ++ rest
      ≡ put16 [] (length t.name) ++ (t.name ++ (be_bytes 4 t.partition_count ++ rest))
unfolding metadata_bytes
metadata_bytes_parts t rest = simp (append_assoc)

read_metadata_by :
    (file a b c name : Bytes) (count : ℕ)
    → stream_get16 file ≡ some (length name, a)
    → stream_read (length name) a ≡ some (name, b)
    → stream_get32 b ≡ some (count, c)
    → read_metadata file ≡ some (record { name = name; partition_count = count }, c)
unfolding read_metadata
read_metadata_by file a b c name count m n o = rw m (rw n (rw o))

read_metadata-metadata_bytes :
    (t : TopicMetadata) (rest : Bytes)
    → IsStored t
    → read_metadata (metadata_bytes t ++ rest) ≡ some (t, rest)
read_metadata-metadata_bytes t rest v = rw (metadata_bytes_parts t rest) (
    read_metadata_by _ _ _ rest t.name t.partition_count
      (stream_get16-put16 (length t.name) _ (omega (arith, v.name_fits)))
      (stream_read-append t.name _) (stream_get32-be_bytes t.partition_count rest v.partitions_fit))

read_topics-metadata_list_bytes :
    (ts : List TopicMetadata)
    → All IsStored ts
    → read_topics (length ts) (metadata_list_bytes ts) ≡ (none, ts)
unfolding read_topics metadata_list_bytes
read_topics-metadata_list_bytes [] v = refl
read_topics-metadata_list_bytes (t ∷ ts) v =
    rw (read_metadata-metadata_bytes t (metadata_list_bytes ts) v.0, read_topics)
      (rw (is_stored_of t v.0) (rw (read_topics-metadata_list_bytes ts v.1)))

-- At most 1024 topics with legal names and between 1 and 2 ^ 32 - 1 partitions are saved when the
-- file system works, and `Load` then returns them all, in order.
pub load-save_topics :
    (ts : List TopicMetadata) (disk : Disk)
    → length ts ≤ max_topics
    → All IsStored ts
    → let (error, after) = save_topics true ts disk in
      (error ≡ none) × (load_topics after ≡ (none, ts))
unfolding save_topics load_topics
load-save_topics ts disk h v =
    let head =
      read_head_by metadata_magic max_topics
        (put32 (put32 metadata_magic 1) (length ts) ++ metadata_list_bytes ts) _ _
        (metadata_list_bytes ts) (length ts) (stream_read-append metadata_magic _)
        (stream_get32-be_bytes 1 _ (omega arith))
        (stream_get32-be_bytes (length ts) (metadata_list_bytes ts) (omega arith)) h in
    rw (le→ltb max_topics (length ts) h) (
      rw (are_stored_of ts v) (refl, rw (head, load_topics) (read_topics-metadata_list_bytes ts v)))

-- What a topic that is loaded has.
abbrev pub IsUsable : TopicMetadata → Type 0
IsUsable t = (is_valid_topic_name t.name ≡ true) × (1 ≤ t.partition_count)

read_topics-IsUsable : (n : ℕ) (file : Bytes) → All IsUsable (read_topics n file).1
unfolding read_topics is_stored
read_topics-IsUsable zero file = tt
read_topics-IsUsable (suc n) file = elim (Option-cases (read_metadata file)) [
  | inl e ↦ rw (e, read_topics) tt
  | inr ((t, rest), e) ↦
      let others = read_topics-IsUsable n rest in
      rw (e, read_topics)
        (elim (Bool-cases (is_stored t)) [
          | inl s ↦ rw s (ground (arith, s), others)
          | inr s ↦ rw s tt
        ])
]

-- Whatever the file holds, damaged or forged, `Load` hands out only topics with a legal name and at
-- least one partition, also when it fails half way.
pub load_topics-IsUsable : (disk : Disk) → All IsUsable (load_topics disk).1
unfolding load_topics
load_topics-IsUsable none = tt
load_topics-IsUsable (some file) = elim (Option-cases (read_head metadata_magic max_topics file)) [
  | inl e ↦ rw (e, load_topics) tt
  | inr ((count, rest), e) ↦ rw (e, load_topics) (read_topics-IsUsable count rest)
]
