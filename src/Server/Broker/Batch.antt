-- ===== src/Server/Broker/Batch.antt =====
-- `HandleProduceBatch` of src/server/broker.cc.
pub mod Pairs
pub mod Split
use mq_project.Prelude.{
  ℕ, zero, suc, ◌+◌, ◌-◌, ◌^◌, Bool, true, false, not, ◌||◌, Option, none, some, List, [], ◌∷◌,
  ◌++◌, length, ltb, ◌==◌, if◌then◌else◌, bit_and, bit_or,
}
use mq_project.Bytes.{Bytes, put16, put32, put64, get16, get32, get64}
use mq_project.Dict.{Dict, find}
use mq_project.Protocol.Command
use mq_project.Protocol.Status
use mq_project.Protocol.Flag
use mq_project.Protocol.Codec.{Request}
use mq_project.Server.Broker.{Broker, IdempotencyEntry, has_flag}
use mq_project.Server.Broker.Reply
use mq_project.Server.Broker.Reply.{
  Reply, reply, Parsed, parsed, ◌>>=◌, ◌>>◌, read, stop_if, advance, or_stop, substr,
}
use mq_project.Server.Broker.Quota.{allow_topic_bytes}
use mq_project.Server.Broker.Produce.{
  Moment, idempotency_key, expire_cache, is_leading, is_limited, handle_produce,
}

-- The producer, the number of the first message and the count.
pub record BatchHead : Type 0 where
  pub producer_id : ℕ
  pub first_sequence : ℕ
  pub count : ℕ

unfoldable pub parse_batch_head : Bytes → Parsed BatchHead
unfolding advance
parse_batch_head payload = do
  position ← or_stop (advance payload 0 20)
  producer_id ← read (get64 payload 0)
  first_sequence ← read (get64 payload 8)
  count ← read (get32 payload 16)
  stop_if (count == 0 || ltb 10000 count || ltb (2 ^ 64 - 1 - count + 1) first_sequence)
      Status.bad_request
  parsed (record { producer_id = producer_id; first_sequence = first_sequence; count = count })

-- The answers that are kept for `count` messages from `sequence` on.
pub cached_results : Bytes → ℕ → ℕ → ℕ → Dict IdempotencyEntry → List (Option IdempotencyEntry)
cached_results topic producer_id sequence zero cache = []
cached_results topic producer_id sequence (suc n) cache =
    find (idempotency_key topic producer_id sequence) cache
    ∷ cached_results topic producer_id (sequence + 1) n cache

-- A message of the batch: the payload of its kept answer, or the request that stores it.
pub data Item : Type 0 where
  cached : Bytes → Item
  pending : Request → Item

unfoldable pub single_payload : ℕ → ℕ → Bytes → Bytes → Bytes
single_payload producer_id sequence key value =
    put32 (put16 (put32 (put64 (put64 [] producer_id) sequence) 0xFFFFFFFF) (length key) ++ key)
      (length value)
    ++ value

unfoldable pub single : Request → ℕ → ℕ → Bytes → Bytes → Request
unfolding single_payload
single r producer_id sequence key value = record r {
  command = Command.produce;
  flags = bit_or (bit_and r.flags (2 ^ 16 - 1 - Flag.producer_metadata)) Flag.producer_metadata;
  payload = single_payload producer_id sequence key value;
}

-- The key and the value of one message, and the position behind them.
unfoldable pub parse_pair : Bytes → ℕ → Parsed (Bytes × Bytes × ℕ)
unfolding advance
parse_pair payload position = do
  second ← or_stop (advance payload position 2)
  key_size ← read (get16 payload (second - 2))
  third ← or_stop (advance payload second key_size)
  fourth ← or_stop (advance payload third 4)
  value_size ← read (get32 payload (fourth - 4))
  end ← or_stop (advance payload fourth value_size)
  parsed (substr payload second key_size, substr payload fourth value_size, end)

abbrev pub has_size : ℕ → IdempotencyEntry → Bool
has_size n entry = length entry.response.payload == n

-- The loop over the messages: they, the position behind them, and the bytes of those that are new.
unfoldable pub parse_items :
    Request → ℕ → ℕ → List (Option IdempotencyEntry) → ℕ → ℕ → Parsed (List Item × ℕ × ℕ)
unfolding parse_pair single
parse_items r producer_id sequence [] position new_bytes = parsed ([], position, new_bytes)
parse_items r producer_id sequence (some entry ∷ results) position new_bytes = do
  (key, value, next) ← parse_pair r.payload position
  stop_if (not (has_size 12 entry)) Status.internal_error
  (items, end, total) ← parse_items r producer_id (sequence + 1) results next new_bytes
  parsed (cached entry.response.payload ∷ items, end, total)
parse_items r producer_id sequence (none ∷ results) position new_bytes = do
  (key, value, next) ← parse_pair r.payload position
  stop_if (ltb (2 ^ 64 - 1 - (length key + length value)) new_bytes) Status.bad_request
  (items, end, total) ←
      parse_items r producer_id (sequence + 1) results next
        (new_bytes + (length key + length value))
  parsed (pending (single r producer_id sequence key value) ∷ items, end, total)

-- The items and the bytes of the new ones.
unfoldable pub parse_batch : Request → BatchHead → Dict IdempotencyEntry → Parsed (List Item × ℕ)
unfolding cached_results parse_items
parse_batch r head cache = do
  (items, end, total) ←
      parse_items r head.producer_id head.first_sequence
        (cached_results r.topic head.producer_id head.first_sequence head.count cache) 20 0
  stop_if (not (end == length r.payload)) Status.bad_request
  parsed (items, total)

abbrev pub prefix : Bytes → Reply × Broker → Reply × Broker
prefix first (Reply.faulted, b) = (Reply.faulted, b)
prefix first (reply status payload, b) =
    (reply status (if status == Status.ok then first ++ payload else payload), b)

-- The loop that stores the items, number `index` first.
pub produce_items : (ℕ → Moment) → ℕ → List Item → Broker → Reply × Broker
produce_items moments index [] b = (reply Status.ok [], b)
produce_items moments index (cached payload ∷ items) b =
    prefix payload (produce_items moments (index + 1) items b)
produce_items moments index (pending r ∷ items) b =
    let (first, after) = handle_produce (moments index) false false r b in
    let rest = produce_items moments (index + 1) items after in
    elim first [
      | Reply.faulted ↦ (Reply.faulted, after)
      | reply status payload ↦
          if status == Status.ok then prefix payload rest else (reply status [], after)
    ]

-- What follows the parsing: the quota, and the storing.
unfoldable pub produce_batch :
    Moment → (ℕ → Moment) → Request → ℕ → Broker → (List Item × ℕ) → Reply × Broker
unfolding has_flag produce_items
produce_batch m moments r count b (items, new_bytes) =
    let (allowed, charged) = allow_topic_bytes m.now r.topic new_bytes b in
    if has_flag r.flags Flag.replication
    then prefix (put32 [] count) (produce_items moments 0 items b)
    else (if allowed
        then prefix (put32 [] count) (produce_items moments 0 items charged)
        else (reply Status.quota_exceeded [], charged))

-- The cache without what is out of date, and the messages.
unfoldable pub batch_once : Moment → (ℕ → Moment) → Request → Broker → BatchHead → Reply × Broker
unfolding expire_cache parse_batch produce_batch
batch_once m moments r b head =
    let b' = record b { idempotency_cache = expire_cache m.now b.idempotency_cache } in
    Reply.proceed (parse_batch r head b'.idempotency_cache) b'
      (produce_batch m moments r head.count b')

-- `moments` are those of the single messages.
unfoldable pub handle_produce_batch : Moment → (ℕ → Moment) → Request → Broker → Reply × Broker
unfolding is_leading is_limited parse_batch_head batch_once
handle_produce_batch m moments r b =
    if not (is_leading m r b)
    then (reply Status.not_leader [], b)
    else (if is_limited m true r
        then (reply Status.rate_limited [], b)
        else (if not (has_flag r.flags Flag.producer_metadata)
            then (reply Status.not_supported [], b)
            else Reply.proceed (parse_batch_head r.payload) b (batch_once m moments r b)))
