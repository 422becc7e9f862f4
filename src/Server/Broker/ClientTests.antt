-- ===== src/Server/Broker/ClientTests.antt =====
-- The theorems on what a client gets from a broker, at concrete requests.
use mq_project.Prelude.{ℕ, ◌≡◌, refl, arith, some, List, [], ◌∷◌, map}
use mq_project.Bytes.{Bytes}
use mq_project.Bytes.Equality.{bytes_eq}
use mq_project.Dict.{find, has}
use mq_project.Protocol.Command
use mq_project.Protocol.Status
use mq_project.Protocol.Codec.{Request, current_version}
use mq_project.Core.Queues.{list_topics}
use mq_project.Core.Storage.Tests.{grown}
use mq_project.Client.Producer.{
  ProducerMessage, ack_one, produce_flags, batch_payload, read_topics_answer,
}
use mq_project.Server.Broker.Reply.{reply, parsed}
use mq_project.Client.Polling.{Consumer}
use mq_project.Server.Broker.Batch.{BatchHead, parse_batch_head, parse_batch}
use mq_project.Server.Broker.Batch.Split.{singles, bytes_of, parse_batch-batch_payload}
use mq_project.Server.Broker.TopicAdmin.{handle_list_topic}
use mq_project.Server.Broker.TopicAdmin.Listing.{info_of, read-handle_list_topic}
use mq_project.Core.Groups.{GroupAssignment, sync}
use mq_project.Client.Membership.{sync_payload, read_sync_answer}
use mq_project.Server.Broker.{Broker}
use mq_project.Server.Broker.Groups.{handle_sync_group}
use mq_project.Server.Broker.Groups.Synced.{read-handle_sync_group}
use mq_project.Server.Broker.Tests.{broker}

abbrev topic : Bytes
topic = 0x74 ∷ []

abbrev request : ℕ → ℕ → Bytes → Bytes → Request
request command flags name payload = record {
  version = current_version;
  command = command;
  request_id = 7;
  flags = flags;
  topic = name;
  payload = payload;
}

abbrev messages : List ProducerMessage
messages = record { key = 0x6B ∷ []; value = 1 ∷ 2 ∷ [] } ∷ record { key = []; value = 3 ∷ [] } ∷ []

abbrev batch : Request
batch = request Command.produce_batch (produce_flags ack_one) topic (batch_payload 5 9 messages)

parse_batch-batch_payload_example :
    (head : BatchHead) × (parse_batch_head batch.payload ≡ parsed head)
    × (parse_batch batch head [] ≡ parsed (singles batch 5 9 messages, bytes_of messages))
unfolding find
parse_batch-batch_payload_example =
    parse_batch-batch_payload 5 9 ack_one messages batch [] (omega arith) (omega arith)
      (omega arith) (omega arith)
      (
        record { key_fits = omega arith; value_fits = omega arith },
        (record { key_fits = omega arith; value_fits = omega arith }, tt),
      )
      refl refl (refl, (refl, tt))

read-handle_list_topic_example :
    (payload : Bytes) × (handle_list_topic (request Command.list_topic 0 [] []) broker
      ≡ (reply Status.ok payload, broker))
    × (read_topics_answer payload ≡ some (map info_of (list_topics broker.queues)))
unfolding list_topics
read-handle_list_topic_example =
    read-handle_list_topic (request Command.list_topic 0 [] []) broker refl refl
      (record { name_fits = omega arith; count_fits = omega arith }, tt) (omega arith)

-- A consumer of the group `g` of a partition that is open.
abbrev consumer : Consumer
consumer = record {
  topic = topic;
  group = 0x67 ∷ [];
  partition = 0;
  next_offset = 3;
  pending_messages = [];
}

abbrev opened : Broker
opened = record broker { storage = record broker.storage { partitions = grown 3 ∷ [] } }

abbrev both : List GroupAssignment
both = record { topic = topic; partition = 0 } ∷ record { topic = topic; partition = 1 } ∷ []

-- The broker with a group `g` that has the member `m` and both partitions of the topic.
abbrev grouped : Broker
grouped = record broker {
  groups = record {
    member_timeout = 10;
    members =
        (0x67 ∷ [], (0x6D ∷ [], record { last_heartbeat = 1; topics = topic ∷ [] }) ∷ []) ∷ [];
    assignments = (0x67 ∷ [], both) ∷ [];
    partitions = (topic, 2) ∷ [];
  };
}

synced : sync (0x67 ∷ []) (0x6D ∷ []) grouped.groups ≡ some both
unfolding sync find bytes_eq has
synced = refl

read-handle_sync_group_example :
    (payload : Bytes) × (handle_sync_group
        (request Command.sync_group 0 [] (sync_payload (0x67 ∷ []) (0x6D ∷ [])))
        grouped
      ≡ (reply Status.ok payload, grouped))
    × (read_sync_answer payload ≡ some both)
read-handle_sync_group_example =
    read-handle_sync_group (request Command.sync_group 0 [] (sync_payload (0x67 ∷ []) (0x6D ∷ [])))
      grouped (0x67 ∷ []) (0x6D ∷ []) both refl (omega arith) (omega arith) (omega arith)
      (omega arith) synced
      (
        record { name_fits = omega arith; count_fits = omega arith },
        (record { name_fits = omega arith; count_fits = omega arith }, tt),
      )
      (omega arith)
