-- ===== src/Server/Broker/Tests.antt =====
-- The theorems on the broker at concrete requests.
use mq_project.Prelude.{
  List, ℕ, ◌+◌, ◌-◌, ◌*◌, ◌≤◌, ◌≡◌, refl, ap, arith, true, false, none, some, [], ◌∷◌, ◌++◌,
}
use mq_project.Bytes.{Bytes, get16, get32, get64, stream_read}
use mq_project.Bytes.Equality.{bytes_eq}
use mq_project.Dict.{find, insert, has}
use mq_project.Protocol.Command
use mq_project.Protocol.Status
use mq_project.Protocol.Flag
use mq_project.Protocol.Codec.{max_payload_bytes, Request, current_version}
use mq_project.Core.Topic.{is_valid_topic_name}
use mq_project.Core.Queues.{resolve_partition, hash_key}
use mq_project.Core.Storage.{recover, read_record}
use mq_project.Core.Storage.Engine
use mq_project.Core.Storage.Engine.{find_partition}
use mq_project.Core.Storage.Partition.{
  interval, append_record, write_record, open_partition, with_segments, recovered_segment,
}
use mq_project.Client.{commit_payload, offset_fetch_payload, read_group_offset, join_payload}
use mq_project.Server.Replication.{leader, start, load_state, can_serve_writes}
use mq_project.Server.Replication.Log.{record_local_offset}
use mq_project.Server.Broker.{Broker, has_flag}
use mq_project.Server.Broker.Reply.{reply, parsed, advance, route}
use mq_project.Server.Broker.Offsets.{handle_commit_offset, handle_offset_fetch}
use mq_project.Server.Broker.Offsets.Committed.{commit-read_group_offset}
use mq_project.Server.Broker.Quota.{allow_topic_bytes, spend, turn}
use mq_project.Server.Broker.Quota.Window.{run, run-Within_second}
use mq_project.Server.Broker.Groups.{to_string, partition_key, handle_join_group}
use mq_project.Server.Broker.Produce.{
  Moment, is_leading, is_limited, parse_metadata, parse_record, expire_cache, idempotency_key,
  produce_once, publish, store, acknowledge, remember, replicate, handle_produce,
}
use mq_project.Server.Broker.Produce.Retry.{handle_produce_again}
use mq_project.Server.Broker.TopicAdmin.{handle_create_topic}
use mq_project.Server.Broker.TopicAdmin.Creation.{Ends, handle_create_topic-load_topics}
use mq_project.Core.Storage.{Message}
use mq_project.Server.Broker.Fetch.{messages_payload}
use mq_project.Server.Broker.Fetch.Delivery.{
  Overflows, Polls, total_bytes, poll_messages-messages_payload,
}
use mq_project.Server.Broker.Groups.Mismatch.{join_payload_refused}

abbrev topic : Bytes
topic = 0x74 ∷ []

abbrev group : Bytes
group = 0x67 ∷ []

-- A broker with one topic of two partitions, whose clients must know the token `a`.
abbrev pub broker : Broker
broker = record {
  storage = record {
    config = record {
      segment_size_bytes = 1024;
      index_interval = 1000;
      fsync_policy = interval;
      fsync_interval_ms = 5;
      retention_ms = 0;
      retention_bytes = 0;
    };
    opened = true;
    partitions = [];
    closed = [];
  };
  metadata_file = none;
  offset_file = none;
  groups = record { member_timeout = 10; members = []; assignments = []; partitions = [] };
  consumer_offsets = [];
  queues = (topic, record { name = topic; partition_count = 2 }) ∷ [];
  opened = true;
  idempotency_cache = [];
  node_id = 0x6E ∷ [];
  peers = [];
  replication_auth_token = [];
  client_auth_token = 0x61 ∷ [];
  client_authorization = record {
    allow_admin = false;
    allow_produce = true;
    allow_consume = true;
    produce_topics = topic ∷ [];
    consume_topics = [];
  };
  replication_configured = false;
  replication_quorum = 1;
  coordinator = start (0x6E ∷ []) leader 10 false [];
  request_count = 0;
  produce_count = 0;
  fetch_count = 0;
  error_count = 0;
  topic_produce_quota = 100;
  topic_quota_windows = [];
}

abbrev request : ℕ → ℕ → Bytes → Request
request command flags payload = record {
  version = current_version;
  command = command;
  request_id = 7;
  flags = flags;
  topic = topic;
  payload = payload;
}

commit-read_group_offset_example :
    let after =
      (handle_commit_offset false
        (request Command.commit_offset 0 (commit_payload group 1 42))
        broker).1 in
    (answer : Bytes) × (handle_offset_fetch
        (request Command.offset_fetch 0 (offset_fetch_payload group 1))
        after
      ≡ (reply Status.ok answer, after))
    × (read_group_offset answer ≡ some 42)
unfolding resolve_partition find bytes_eq
commit-read_group_offset_example =
    commit-read_group_offset false group 1 42 1
      (request Command.commit_offset 0 (commit_payload group 1 42))
      (request Command.offset_fetch 0 (offset_fetch_payload group 1)) broker
      (record { named = refl; some_group = ground arith; group_fits = omega arith }) (omega arith)
      (omega arith) refl refl refl refl

run-Within_second_example :
    (run topic ((5, 60) ∷ (6, 60) ∷ (900000000, 40) ∷ []) broker).0 ≤ 2 * 100
unfolding find
run-Within_second_example =
    run-Within_second topic 5 ((5, 60) ∷ (6, 60) ∷ (900000000, 40) ∷ []) broker (omega arith)
      (omega arith) (omega arith) (ground arith)

abbrev beat : Request
beat = request Command.heartbeat 0 (0 ∷ 1 ∷ 0x67 ∷ 0 ∷ 1 ∷ 0x6D ∷ [])

abbrev ask : Request
ask = request Command.join_group 0 (join_payload group (0x6D ∷ 0x31 ∷ []) (topic ∷ []))

join_payload_refused_example :
    handle_join_group 3 ask broker ≡ (reply Status.bad_request [], broker)
join_payload_refused_example =
    join_payload_refused 3 0x6D 0x31 group [] (topic ∷ []) ask broker (omega arith) (omega arith)
      (omega arith) (omega arith) (omega arith) ((omega arith, omega arith), tt) (omega arith) refl

abbrev moment : ℕ → Moment
moment now = record {
  now = now;
  done_at = now;
  timestamp = 1700000000000;
  opens = true;
  system = record { creates = true; written = none; syncs = true; clock = now };
  has_tokens = true;
  takes = λ peer. false;
}

-- Producer 1, message 2, any partition, no key and one byte.
abbrev produced : Bytes
produced =
    0 ∷ 0 ∷ 0 ∷ 0 ∷ 0 ∷ 0 ∷ 0 ∷ 1 ∷ 0 ∷ 0 ∷ 0 ∷ 0 ∷ 0 ∷ 0 ∷ 0 ∷ 2 ∷ 0 ∷ 0 ∷ 0 ∷ 1 ∷ 0 ∷ 0 ∷ 0 ∷ 0
    ∷ 0 ∷ 1 ∷ 9 ∷ []

abbrev produce_request : Request
produce_request = request Command.produce (1 + Flag.producer_metadata) produced

abbrev stored : Broker
stored = (handle_produce (moment 5) true true produce_request broker).1

produced_read : parse_metadata produced ≡ parsed (1, 2)
unfolding parse_metadata advance get64
produced_read = refl

produced_stored :
    (handle_produce (moment 5) true true produce_request broker).0
    ≡ reply Status.ok (0 ∷ 0 ∷ 0 ∷ 1 ∷ 0 ∷ 0 ∷ 0 ∷ 0 ∷ 0 ∷ 0 ∷ 0 ∷ 0 ∷ [])
unfolding handle_produce is_leading is_limited has_flag parse_metadata advance produce_once
    idempotency_key to_string expire_cache parse_record publish route resolve_partition hash_key
    allow_topic_bytes spend turn store Engine.append Engine.is_storable Engine.get_partition
    Engine.append_found Engine.append_to find_partition open_partition recover read_record
    acknowledge partition_key replicate remember record_local_offset start load_state
    can_serve_writes find insert has bytes_eq get16 get32 get64 is_valid_topic_name append_record
    write_record stream_read with_segments recovered_segment
produced_stored = refl

still_leading : is_leading (moment 9) produce_request stored ≡ true
unfolding handle_produce is_leading is_limited has_flag parse_metadata advance produce_once
    idempotency_key to_string expire_cache parse_record publish route resolve_partition hash_key
    allow_topic_bytes spend turn store Engine.append Engine.is_storable Engine.get_partition
    Engine.append_found Engine.append_to find_partition open_partition recover read_record
    acknowledge partition_key replicate remember record_local_offset start load_state
    can_serve_writes find insert has bytes_eq get16 get32 get64 is_valid_topic_name append_record
    write_record stream_read with_segments recovered_segment
still_leading = refl

handle_produce_again_example :
    handle_produce (moment 9) true true (record produce_request { request_id = 8 }) stored ≡ (
      reply Status.ok (0 ∷ 0 ∷ 0 ∷ 1 ∷ 0 ∷ 0 ∷ 0 ∷ 0 ∷ 0 ∷ 0 ∷ 0 ∷ 0 ∷ []),
      record stored { idempotency_cache = expire_cache 9 stored.idempotency_cache },
    )
unfolding find has_flag is_leading is_limited parse_metadata
handle_produce_again_example =
    handle_produce_again (moment 5) (moment 9) true true true true 1 2 _ produce_request
      (record produce_request { request_id = 8 }) broker stored stored refl produced_read refl
      (ap (λ a. (a, stored)) produced_stored) refl refl refl refl (omega arith) still_leading refl

topic_named : is_valid_topic_name topic ≡ true
unfolding is_valid_topic_name
topic_named = refl

abbrev create_request : Request
create_request = record (request Command.create_topic 0 (0 ∷ 0 ∷ 0 ∷ 3 ∷ [])) { topic = group }

handle_create_topic-load_topics_example :
    Ends broker (handle_create_topic true create_request broker)
handle_create_topic-load_topics_example =
    handle_create_topic-load_topics true create_request broker (
      record { named = topic_named; some_partitions = omega arith; few_partitions = omega arith },
      tt,
    )

abbrev delivered : List Message
delivered =
    record { offset = 3; timestamp_ms = 5; key = []; value = 9 ∷ [] }
    ∷ record { offset = 4; timestamp_ms = 6; key = 0x6B ∷ []; value = 8 ∷ 7 ∷ [] }
    ∷ []

poll_messages-messages_payload_example :
    (got : List Message) × (rest : List Message) × (delivered ≡ got ++ rest)
    × Polls (messages_payload delivered) got
    × (4 + total_bytes got ≤ max_payload_bytes - 4)
    × Overflows (4 + total_bytes got) rest
poll_messages-messages_payload_example = poll_messages-messages_payload delivered (
  record {
    offset_fits = omega arith;
    timestamp_fits = omega arith;
    key_fits = omega arith;
    value_fits = omega arith;
  },
  (
    record {
      offset_fits = omega arith;
      timestamp_fits = omega arith;
      key_fits = omega arith;
      value_fits = omega arith;
    },
    tt,
  ),
)
