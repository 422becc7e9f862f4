-- ===== src/Server/Broker/Offsets.antt =====
-- The offsets that consumer groups commit: `HandleCommitOffset` and `HandleOffsetFetch` of
-- src/server/broker.cc.
pub mod Committed
use mq_project.Prelude.{
  ℕ, ◌+◌, ◌-◌, Bool, true, false, not, ◌&&◌, ◌||◌, Option, none, some, List, [], ◌∷◌, length, ltb,
  ◌==◌, if◌then◌else◌,
}
use mq_project.Bytes.{Bytes, put64, get16, get32, get64}
use mq_project.Bytes.Equality.{bytes_eq}
use mq_project.Protocol.Status
use mq_project.Protocol.Codec.{Request}
use mq_project.Core.Stores.{ConsumerOffset, save_offsets}
use mq_project.Server.Replication.{is_nil}
use mq_project.Server.Broker.{Broker}
use mq_project.Server.Broker.Reply.{
  Reply, reply, Parsed, parsed, ◌>>=◌, ◌>>◌, read, stop_if, advance, or_stop, substr, route,
  proceed,
}

abbrev pub is_item : Bytes → Bytes → ℕ → ConsumerOffset → Bool
is_item group topic partition item =
    bytes_eq item.group group && bytes_eq item.topic topic && item.partition == partition

-- The first item of a group, a topic and a partition.
unfoldable pub find_offset : Bytes → Bytes → ℕ → List ConsumerOffset → Option ConsumerOffset
find_offset group topic partition [] = none
find_offset group topic partition (item ∷ items) =
    if is_item group topic partition item
    then some item
    else find_offset group topic partition items

-- That item with a new offset, at its place or at the end.
unfoldable pub put_offset : Bytes → Bytes → ℕ → ℕ → List ConsumerOffset → List ConsumerOffset
put_offset group topic partition offset [] =
    record { group = group; topic = topic; partition = partition; offset = offset } ∷ []
put_offset group topic partition offset (item ∷ items) =
    if is_item group topic partition item
    then record item { offset = offset } ∷ items
    else item ∷ put_offset group topic partition offset items

-- The group, the partition that is routed to, and the offset.
unfoldable pub parse_commit : Request → Broker → Parsed (Bytes × ℕ × ℕ)
unfolding advance route
parse_commit r b = do
  start ← or_stop (advance r.payload 0 2)
  group_size ← read (get16 r.payload 0)
  first ← or_stop (advance r.payload start group_size)
  second ← or_stop (advance r.payload first 4)
  third ← or_stop (advance r.payload second 8)
  stop_if (not (third == length r.payload)) Status.bad_request
  partition ← read (get32 r.payload (start + group_size))
  offset ← read (get64 r.payload (start + group_size + 4))
  stop_if (group_size == 0 || is_nil r.topic) Status.bad_request
  resolved ← route Status.invalid_offset r.topic partition [] b.queues
  parsed (substr r.payload start group_size, resolved, offset)

abbrev pub saved_status : {A : Type 0} → Option A → ℕ
saved_status none = Status.ok
saved_status (some e) = Status.storage_error

-- `works` says whether the file can be written.
unfoldable pub commit : Bool → Bytes → Bytes → ℕ → ℕ → Broker → Reply × Broker
unfolding put_offset
commit works group topic partition offset b =
    let offsets = put_offset group topic partition offset b.consumer_offsets in
    let (error, file) = save_offsets works offsets b.offset_file in
    (reply (saved_status error) [], record b { consumer_offsets = offsets; offset_file = file })

unfoldable pub handle_commit_offset : Bool → Request → Broker → Reply × Broker
unfolding parse_commit commit
handle_commit_offset works r b =
    proceed (parse_commit r b) b
      λ (group, partition, offset). commit works group r.topic partition offset b

unfoldable pub parse_offset_fetch : Request → Broker → Parsed (Bytes × ℕ)
unfolding route
parse_offset_fetch r b = do
  stop_if (is_nil r.topic || ltb (length r.payload) 6) Status.bad_request
  group_size ← read (get16 r.payload 0)
  stop_if (group_size == 0 || not (length r.payload == 6 + group_size)) Status.bad_request
  partition ← read (get32 r.payload (2 + group_size))
  resolved ← route Status.invalid_offset r.topic partition [] b.queues
  parsed (substr r.payload 2 group_size, resolved)

abbrev pub offset_or_zero : Option ConsumerOffset → ℕ
offset_or_zero none = 0
offset_or_zero (some item) = item.offset

unfoldable pub handle_offset_fetch : Request → Broker → Reply × Broker
unfolding parse_offset_fetch find_offset
handle_offset_fetch r b = proceed (parse_offset_fetch r b) b λ (group, partition). (
  reply Status.ok
      (put64 [] (offset_or_zero (find_offset group r.topic partition b.consumer_offsets))),
  b,
)
