-- ===== src/Client/Producer.antt =====
-- `MqProducer` of src/client/mq_client.cc: what it sends and how it reads the answers.
use mq_project.Prelude.{
  ℕ, zero, suc, ◌+◌, ◌*◌, ◌%◌, ◌^◌, Bool, true, false, not, ◌&&◌, ◌==◌, Option, none, some, List,
  [], ◌∷◌, ◌++◌, length, take, drop, ltb, if◌then◌else◌,
}
use mq_project.Bytes.{Bytes, put16, put32, put64, get16, get32, get64}
use mq_project.Protocol.Flag
use mq_project.Client.{◌>>=◌}

pub record ProducerMessage : Type 0 where
  pub key : Bytes
  pub value : Bytes

-- Where a message was stored.
pub record ProduceResult : Type 0 where
  pub partition : ℕ
  pub offset : ℕ

pub record TopicInfo : Type 0 where
  pub name : Bytes
  pub partitions : ℕ

pub data AckMode : Type 0 where
  ack_zero ack_one ack_all : AckMode

-- `kFlagProducerMetadata | ack`.
unfoldable pub produce_flags : AckMode → ℕ
produce_flags ack_zero = Flag.producer_metadata + Flag.ack_zero
produce_flags ack_one = Flag.producer_metadata + Flag.ack_one
produce_flags ack_all = Flag.producer_metadata + Flag.ack_all

abbrev pub is_nothing : Bytes → Bool
is_nothing [] = true
is_nothing (b ∷ bs) = false

-- The limits on a message.
unfoldable pub is_producible : ProducerMessage → Bool
is_producible m =
    not (ltb 65535 (length m.key))
    && not (is_nothing m.value)
    && not (ltb (1024 * 1024) (length m.value))

abbrev pub put_pair : Bytes → ProducerMessage → Bytes
put_pair payload m =
    put32 (put16 payload (length m.key % 2 ^ 16) ++ m.key) (length m.value % 2 ^ 32) ++ m.value

-- What `produce` sends.
unfoldable pub produce_payload : ℕ → ℕ → ProducerMessage → Bytes
produce_payload producer_id sequence m =
    put_pair (put32 (put64 (put64 [] producer_id) sequence) 0xFFFFFFFF) m

-- What `produce` reads of an answer, if it has the right size.
unfoldable pub read_produce_result : Bytes → Option ProduceResult
read_produce_result payload = if not (length payload == 12) then none else (do
  partition ← get32 payload 0
  offset ← get64 payload 4
  some (record { partition = partition; offset = offset }))

unfoldable pub put_pairs : Bytes → List ProducerMessage → Bytes
put_pairs payload [] = payload
put_pairs payload (m ∷ ms) = put_pairs (put_pair payload m) ms

-- What `produceBatch` sends.
unfoldable pub batch_payload : ℕ → ℕ → List ProducerMessage → Bytes
unfolding put_pairs
batch_payload producer_id sequence ms =
    put_pairs (put32 (put64 (put64 [] producer_id) sequence) (length ms % 2 ^ 32)) ms

-- The loop over the results of a batch.
unfoldable pub read_results : ℕ → ℕ → Bytes → Option (List ProduceResult)
read_results zero pos payload = some []
read_results (suc n) pos payload = if ltb (length payload) (pos + 12) then none else (do
  partition ← get32 payload pos
  offset ← get64 payload (pos + 4)
  results ← read_results n (pos + 12) payload
  some (record { partition = partition; offset = offset } ∷ results))

-- What `produceBatch` makes of the payload of an answer with `kOk` to `count` messages.
unfoldable pub read_batch_results : ℕ → Bytes → Option (List ProduceResult)
unfolding read_results
read_batch_results count payload = if ltb (length payload) 4 then none else (do
  stored ← get32 payload 0
  (if stored == count then read_results count 4 payload else none))

-- The loop of `listTopics`, and the position behind the topics.
unfoldable pub read_topic_list : ℕ → ℕ → Bytes → Option (List TopicInfo × ℕ)
read_topic_list zero position payload = some ([], position)
read_topic_list (suc n) position payload = if ltb (length payload) (position + 2) then none else (do
  name_size ← get16 payload position
  (if ltb (length payload) (position + 2 + name_size + 4) then none else (do
    partitions ← get32 payload (position + 2 + name_size)
    (topics, end) ← read_topic_list n (position + 2 + name_size + 4) payload
    some (
      record { name = take name_size (drop (position + 2) payload); partitions = partitions }
          ∷ topics,
      end,
    ))))

-- What `listTopics` makes of the payload of an answer with `kOk`.
unfoldable pub read_topics_answer : Bytes → Option (List TopicInfo)
unfolding read_topic_list
read_topics_answer payload = if ltb (length payload) 4 then none else (do
  count ← get32 payload 0
  (if ltb 100000 count then none else (do
    (topics, end) ← read_topic_list count 4 payload
    (if end == length payload then some topics else none))))
