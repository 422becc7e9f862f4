-- ===== src/Core/Stores/Offsets.antt =====
-- Consumer offsets through their file.
use mq_project.Prelude.{
  ℕ, ◌^◌, ◌≤◌, ◌<◌, ◌≡◌, ◌≢◌, refl, Bool, true, none, some, List, [], ◌∷◌, ◌++◌, length, arith,
  append_assoc, le→ltb,
}
use mq_project.Bytes.{
  Bytes, All, be_bytes, put16, put32, stream_get16, stream_get32, stream_get64, stream_read,
}
use mq_project.Bytes.Equality.{bytes_eq_refl}
use mq_project.Bytes.Laws.{
  stream_get16-put16, stream_get32-be_bytes, stream_get64-be_bytes, stream_read-append,
}
use mq_project.Core.Stores.{
  Disk, read_head, offset_magic, ConsumerOffset, max_offsets, offset_bytes, offsets_bytes,
  names_fit, save_offsets, read_offset, read_offsets, load_offsets,
}

-- `read_head` by its reads.
pub read_head_by :
    (magic : Bytes) (limit : ℕ) (file a b c : Bytes) (count : ℕ)
    → stream_read 4 file ≡ some (magic, a)
    → stream_get32 a ≡ some (1, b)
    → stream_get32 b ≡ some (count, c)
    → count ≤ limit
    → read_head magic limit file ≡ some (count, c)
unfolding read_head
read_head_by magic limit file a b c count m v n h =
    rw m (rw (bytes_eq_refl magic) (rw v (rw n (rw (le→ltb limit count h)))))

-- The ranges of the fields.
pub record IsOffset (item : ConsumerOffset) : Type 0 where
  pub group_fits : length item.group ≤ 65535
  pub topic_fits : length item.topic ≤ 65535
  pub partition_fits : item.partition < 2 ^ 32
  pub offset_fits : item.offset < 2 ^ 64

read_offset_by :
    (file a b c d e f group topic : Bytes) (partition offset : ℕ)
    → stream_get16 file ≡ some (length group, a)
    → stream_read (length group) a ≡ some (group, b)
    → stream_get16 b ≡ some (length topic, c)
    → stream_read (length topic) c ≡ some (topic, d)
    → stream_get32 d ≡ some (partition, e)
    → stream_get64 e ≡ some (offset, f)
    → read_offset file
      ≡ some (record { group = group; topic = topic; partition = partition; offset = offset }, f)
unfolding read_offset
read_offset_by file a b c d e f group topic partition offset m n o p q r =
    rw m (rw n (rw o (rw p (rw q (rw r)))))

offset_bytes_parts :
    (item : ConsumerOffset) (rest : Bytes)
    → offset_bytes item ++ rest
      ≡ put16 [] (length item.group)
        ++ (item.group
            ++ (put16 [] (length item.topic)
                ++ (item.topic ++ (be_bytes 4 item.partition ++ (be_bytes 8 item.offset ++ rest)))))
unfolding offset_bytes
offset_bytes_parts item rest = simp (append_assoc)

read_offset-offset_bytes :
    (item : ConsumerOffset) (rest : Bytes)
    → IsOffset item
    → read_offset (offset_bytes item ++ rest) ≡ some (item, rest)
read_offset-offset_bytes item rest v = rw (offset_bytes_parts item rest) (
    read_offset_by _ _ _ _ _ _ rest item.group item.topic item.partition item.offset
      (stream_get16-put16 (length item.group) _ (omega (arith, v.group_fits)))
      (stream_read-append item.group _)
      (stream_get16-put16 (length item.topic) _ (omega (arith, v.topic_fits)))
      (stream_read-append item.topic _) (stream_get32-be_bytes item.partition _ v.partition_fits)
      (stream_get64-be_bytes item.offset rest v.offset_fits))

read_offsets-offsets_bytes :
    (items : List ConsumerOffset)
    → All IsOffset items
    → read_offsets (length items) (offsets_bytes items) ≡ (none, items)
unfolding read_offsets offsets_bytes
read_offsets-offsets_bytes [] v = refl
read_offsets-offsets_bytes (item ∷ items) v =
    rw (read_offset-offset_bytes item (offsets_bytes items) v.0, read_offsets)
      (rw (read_offsets-offsets_bytes items v.1))

fitting_names : (items : List ConsumerOffset) → All IsOffset items → names_fit items ≡ true
unfolding names_fit
fitting_names [] v = refl
fitting_names (item ∷ items) (v, w) = ground (arith, v, fitting_names items w)

-- At most 100000 consumer offsets, with names of at most 65535 bytes, partitions of 32 bits and
-- offsets of 64 bits, are saved when the file system works, and `Load` then returns them all, in order.
pub load-save_offsets :
    (items : List ConsumerOffset) (disk : Disk)
    → length items ≤ max_offsets
    → All IsOffset items
    → let (error, after) = save_offsets true items disk in
      (error ≡ none) × (load_offsets after ≡ (none, items))
unfolding save_offsets load_offsets
load-save_offsets items disk h v =
    let head =
      read_head_by offset_magic max_offsets
        (put32 (put32 offset_magic 1) (length items) ++ offsets_bytes items) _ _
        (offsets_bytes items) (length items) (stream_read-append offset_magic _)
        (stream_get32-be_bytes 1 _ (omega arith))
        (stream_get32-be_bytes (length items) (offsets_bytes items) (omega arith)) h in
    rw (le→ltb max_offsets (length items) h) (
      rw (fitting_names items v)
        (refl, rw (head, load_offsets) (read_offsets-offsets_bytes items v)))

-- A `Save` that fails leaves the file as it was, whatever makes it fail.
pub save_offsets_fails :
    (works : Bool) (items : List ConsumerOffset) (disk : Disk)
    → (save_offsets works items disk).0 ≢ none
    → (save_offsets works items disk).1 ≡ disk
unfolding save_offsets
save_offsets_fails works items disk h = ground (arith, h)
