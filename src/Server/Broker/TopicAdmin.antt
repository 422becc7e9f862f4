-- ===== src/Server/Broker/TopicAdmin.antt =====
-- The topics: `HandleCreateTopic`, `HandleDeleteTopic` and `HandleListTopic` of src/server/broker.cc.
pub mod Creation
pub mod Listing
use mq_project.Prelude.{
  ℕ, ◌+◌, ◌%◌, ◌^◌, Bool, true, false, not, ◌&&◌, ◌||◌, Option, none, some, List, [], ◌∷◌, ◌++◌,
  length, ◌==◌, if◌then◌else◌,
}
use mq_project.Bytes.{Bytes, put16, put32, get32}
use mq_project.Bytes.Equality.{bytes_eq}
use mq_project.Dict.{Dict}
use mq_project.Protocol.Status
use mq_project.Protocol.Codec.{Request}
use mq_project.Core.Queues.{
  TopicMetadata, Error, invalid_topic_metadata, topic_exists, unknown_topic, partition_out_of_range,
  create_topic, delete_topic, get_topic, list_topics,
}
use mq_project.Core.Groups.{set_partitions}
use mq_project.Core.Stores.{ConsumerOffset, save_topics, save_offsets}
use mq_project.Core.Storage.Engine
use mq_project.Server.Replication.{is_nil}
use mq_project.Server.Broker.{Broker, IdempotencyEntry}
use mq_project.Server.Broker.Reply.{
  Reply, reply, Parsed, parsed, ◌>>=◌, ◌>>◌, read, stop_if, proceed,
}

abbrev pub creation_status : Error → ℕ
creation_status topic_exists = Status.topic_exists
creation_status invalid_topic_metadata = Status.bad_request
creation_status unknown_topic = Status.bad_request
creation_status partition_out_of_range = Status.bad_request

unfoldable pub parse_count : Bytes → Parsed ℕ
parse_count payload = do
  stop_if (not (length payload == 4)) Status.bad_request
  read (get32 payload 0)

-- The new table of topics is saved, or given up again.
unfoldable pub save_new : Bool → Bytes → Broker → Reply × Broker
save_new works topic b =
    let (error, file) = save_topics works (list_topics b.queues) b.metadata_file in
    elim error [
      | none ↦ (reply Status.ok [], record b { metadata_file = file })
      | some e ↦ (
        reply Status.storage_error [],
        record b { metadata_file = file; queues = (delete_topic topic b.queues).1 },
      )
    ]

unfoldable pub create : Bool → Bytes → Broker → ℕ → Reply × Broker
unfolding save_new
create works topic b count =
    let (error, queues) = create_topic topic count b.queues in
    elim error [
      | some e ↦ (reply (creation_status e) [], b)
      | none ↦
          save_new works topic
            (record b { queues = queues; groups = set_partitions topic count b.groups })
    ]

-- `works` says whether the file can be written.
unfoldable pub handle_create_topic : Bool → Request → Broker → Reply × Broker
unfolding parse_count create
handle_create_topic works r b = proceed (parse_count r.payload) b (create works r.topic b)

-- Which files can be written: the topics, the topics again, and the offsets.
pub record Writes : Type 0 where
  pub topics : Bool
  pub topics_again : Bool
  pub offsets : Bool

pub starts_with : Bytes → Bytes → Bool
starts_with [] text = true
starts_with (x ∷ prefix) [] = false
starts_with (x ∷ prefix) (y ∷ text) = if x == y then starts_with prefix text else false

pub without_prefix : Bytes → Dict IdempotencyEntry → Dict IdempotencyEntry
unfolding starts_with
without_prefix prefix [] = []
without_prefix prefix ((key, entry) ∷ cache) =
    if starts_with prefix key
    then without_prefix prefix cache
    else (key, entry) ∷ without_prefix prefix cache

pub without_offsets : Bytes → List ConsumerOffset → List ConsumerOffset
without_offsets topic [] = []
without_offsets topic (item ∷ items) =
    if bytes_eq item.topic topic
    then without_offsets topic items
    else item ∷ without_offsets topic items

-- The end of a removal: cached answers and offsets of the topic go.
unfoldable pub clean_up : Writes → Bytes → Broker → Reply × Broker
unfolding without_prefix without_offsets
clean_up w topic b =
    let offsets = without_offsets topic b.consumer_offsets in
    (
      reply Status.ok [],
      record b {
        idempotency_cache = without_prefix (topic ++ (0x1F ∷ [])) b.idempotency_cache;
        consumer_offsets = offsets;
        offset_file = (save_offsets w.offsets offsets b.offset_file).1;
      },
    )

-- The topic is put back where a file cannot be written or the messages cannot be removed.
unfoldable pub delete_found : Writes → TopicMetadata → Bytes → Broker → Reply × Broker
unfolding clean_up
delete_found w found topic b =
    let (error, file) = save_topics w.topics (list_topics b.queues) b.metadata_file in
    let restored = (create_topic found.name found.partition_count b.queues).1 in
    let (failure, engine) = Engine.delete_topic topic b.storage in
    elim error [
      | some e ↦
          (reply Status.storage_error [], record b { metadata_file = file; queues = restored })
      | none ↦ elim failure [
        | none ↦ clean_up w topic (record b { metadata_file = file; storage = engine })
        | some e ↦ (
          reply Status.storage_error [],
          record b {
            storage = engine;
            queues = restored;
            metadata_file = (save_topics w.topics_again (list_topics restored) file).1;
          },
        )
      ]
    ]

unfoldable pub handle_delete_topic : Writes → Request → Broker → Reply × Broker
unfolding delete_found
handle_delete_topic w r b =
    if not (is_nil r.payload)
    then (reply Status.bad_request [], b)
    else (let (error, queues) = delete_topic r.topic b.queues in
        elim (get_topic r.topic b.queues) [
          | none ↦ (reply Status.unknown_topic [], b)
          | some found ↦ elim error [
            | some e ↦ (reply Status.unknown_topic [], b)
            | none ↦ delete_found w found r.topic (record b { queues = queues })
          ]
        ])

unfoldable pub put_topic_list : Bytes → List TopicMetadata → Bytes
put_topic_list payload [] = payload
put_topic_list payload (t ∷ topics) =
    put_topic_list (put32 (put16 payload (length t.name % 2 ^ 16) ++ t.name) t.partition_count)
      topics

unfoldable pub handle_list_topic : Request → Broker → Reply × Broker
unfolding put_topic_list
handle_list_topic r b =
    if not (is_nil r.topic) || not (is_nil r.payload)
    then (reply Status.bad_request [], b)
    else (let topics = list_topics b.queues in
        (reply Status.ok (put_topic_list (put32 [] (length topics % 2 ^ 32)) topics), b))
