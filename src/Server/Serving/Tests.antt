-- ===== src/Server/Serving/Tests.antt =====
-- The theorems on the brokers' talk at concrete requests.
use mq_project.Prelude.{
  ℕ, ◌+◌, ◌≡◌, ◌≢◌, ◌⊎◌, refl, ap, arith, true, false, not, none, some, [], ◌∷◌, if◌then◌else◌,
}
use mq_project.Bytes.{Bytes, get16, get32, get64}
use mq_project.Bytes.Equality.{bytes_eq}
use mq_project.Dict.{find, has, insert}
use mq_project.Protocol.Command
use mq_project.Protocol.Status
use mq_project.Protocol.Flag
use mq_project.Protocol.Codec.{Request, current_version}
use mq_project.Core.Storage.{Message}
use mq_project.Core.Storage.Partition.{System, Partition, interval, append_record, write_record}
use mq_project.Core.Storage.Engine
use mq_project.Core.Storage.Engine.{
  find_partition, messages_of, get_partition, is_storable, replicate_found, append_to,
}
use mq_project.Core.Topic.{is_valid_topic_name}
use mq_project.Core.Queues.{resolve_partition, list_topics}
use mq_project.Server.Replication.{leader, follower, start, load_state, register_replica}
use mq_project.Server.Replication.Log.{log_matches, observe_append}
use mq_project.Server.Replication.Election.{request_vote}
use mq_project.Server.Broker.{Broker, has_flag}
use mq_project.Server.Broker.Reply.{Reply, reply, parsed, route, make_response}
use mq_project.Server.Broker.Access.Gate.{IsAdmissible}
use mq_project.Server.Broker.Produce.{Moment}
use mq_project.Server.Broker.Entries.{Head, parse_append}
use mq_project.Server.Broker.Replicas.{Surroundings, handle_replica_append}
use mq_project.Server.Broker.Replicas.Followed.{Extends, handle_replica_append-Extends}
use mq_project.Server.Broker.Dispatch.{
  Context, count_request, count_error, count_command, dispatch, answer, handle,
}
use mq_project.Server.Broker.Dispatch.Refusals.{handle-IsAdmissible}
use mq_project.Server.ReplicationClient.{
  ReplicationClient, Network, connected, call_request, create,
}
use mq_project.Server.ReplicationClient.Append.{append_payload}
use mq_project.Server.ReplicationClient.Ballot.{vote_payload, vote}
use mq_project.Server.ReplicationLoop.{LoopState, Environment}
use mq_project.Server.ReplicationLoop.Round.{rounds}
use mq_project.Server.ReplicationLoop.Idle.{rounds-idle}
use mq_project.Server.Serving.{serve, after_call}
use mq_project.Server.Serving.Vote.{vote-request_vote}
use mq_project.Server.Serving.Append.{parse-append_payload}

abbrev topic : Bytes
topic = 0x74 ∷ []

abbrev node : Bytes
node = 0x6E ∷ []

abbrev other : Bytes
other = 0x6F ∷ []

abbrev token : Bytes
token = 0x61 ∷ []

-- A follower with the topic, whose partition is in memory and empty.
abbrev partition : Partition
partition = record {
  topic = topic;
  number = 0;
  older = [];
  active = record {
    number = 0;
    file = [];
    index = [];
    messages = [];
    size = 0;
    last_timestamp_ms = 0;
  };
  next_offset = 0;
  last_sync = 0;
}

abbrev broker : Broker
broker = record {
  storage = record {
    config = record {
      segment_size_bytes = 1024;
      index_interval = 1000;
      fsync_policy = interval;
      fsync_interval_ms = 5;
      retention_ms = 0;
      retention_bytes = 0;
    };
    opened = true;
    partitions = partition ∷ [];
    closed = [];
  };
  metadata_file = none;
  offset_file = none;
  groups = record { member_timeout = 10; members = []; assignments = []; partitions = [] };
  consumer_offsets = [];
  queues = (topic, record { name = topic; partition_count = 1 }) ∷ [];
  opened = true;
  idempotency_cache = [];
  node_id = node;
  peers = record { node_id = other; host = []; port = 1; leader = true } ∷ [];
  replication_auth_token = token;
  client_auth_token = [];
  client_authorization = record {
    allow_admin = false;
    allow_produce = true;
    allow_consume = true;
    produce_topics = [];
    consume_topics = [];
  };
  replication_configured = true;
  replication_quorum = 2;
  coordinator = register_replica other (start node follower 10 false []);
  request_count = 0;
  produce_count = 0;
  fetch_count = 0;
  error_count = 0;
  topic_produce_quota = 0;
  topic_quota_windows = [];
}

abbrev system : System
system = record { clock = 0; creates = true; written = none; syncs = true }

abbrev surroundings : Surroundings
surroundings = record { now = 3; opens = true; systems = λ i. system }

abbrev moment : Moment
moment = record {
  now = 3;
  done_at = 4;
  timestamp = 5;
  opens = true;
  system = system;
  has_tokens = true;
  takes = λ p. true;
}

abbrev context : Context
context = record {
  moment = moment;
  clock = 3;
  moments = λ i. moment;
  surroundings = surroundings;
  saves_topics = true;
  saves_offsets = true;
  writes = record { topics = true; topics_again = true; offsets = true };
  flushes = true;
}

abbrev network : Network
network host port timeout = connected (serve context broker)

abbrev client : ReplicationClient
client = create [] 1 1000 token

vote-request_vote_example :
    let (granted, after) = request_vote 1 other 4 0 broker.coordinator in
    (vote network 1 other 4 0 client ≡ (some granted, after_call client))
    × ((handle context
          (call_request Command.replica_vote other (vote_payload 1 other 4 0) false client)
          broker).1.coordinator
        ≡ after)
unfolding create
vote-request_vote_example =
    vote-request_vote network context 1 other 4 0 broker client refl
      (record {
        opened = refl;
        configured = refl;
        same_token = refl;
        some_token = refl;
        token_fits = omega arith;
      })
      (omega arith) (omega arith) refl (omega arith) (omega arith) (omega arith)

abbrev sent : Message
sent = record { offset = 0; timestamp_ms = 9; key = 0x6B ∷ []; value = 0x76 ∷ [] }

abbrev request : Request
request = record {
  version = current_version;
  command = Command.replica_append;
  request_id = 1;
  flags = Flag.replication + Flag.replication_term;
  topic = topic;
  payload = append_payload 0 (sent ∷ []) 1 0 other 0 0;
}

abbrev head : Head
head = record {
  term = 1;
  commit = 0;
  leader_id = other;
  prev_log_index = 0;
  prev_log_term = 0;
  position = 18 + 1 + 16;
}

parse-append_payload_example : parse_append request broker ≡ parsed (head, 0, sent ∷ [])
unfolding has_flag route resolve_partition find bytes_eq
parse-append_payload_example =
    parse-append_payload 1 0 0 0 0 0 other (sent ∷ []) request broker
      (record {
        term_fits = omega arith;
        commit_fits = omega arith;
        prev_index_fits = omega arith;
        prev_term_fits = omega arith;
        partition_fits = omega arith;
        some_leader = omega arith;
        leader_fits = omega arith;
        some_messages = omega arith;
        messages_fit = omega arith;
        legal = (
          record {
            offset_fits = omega arith;
            timestamp_fits = omega arith;
            key_fits = omega arith;
            value_fits = omega arith;
          },
          tt,
        );
      })
      refl refl refl refl

abbrev after_append : Reply × Broker
after_append = handle_replica_append surroundings request broker

stored : after_append.0 ≡ reply Status.ok []
unfolding handle_replica_append parse_append append_payload find_partition bytes_eq has_flag get32
    get64 get16 route resolve_partition find has start load_state register_replica log_matches
    observe_append get_partition is_valid_topic_name append_record write_record Engine.next_offset
    insert Engine.append_replica
stored = refl

handle_replica_append-Extends_example : Extends topic 0 (sent ∷ []) partition after_append.1
unfolding find_partition bytes_eq
handle_replica_append-Extends_example =
    handle_replica_append-Extends surroundings request head 0 (sent ∷ []) broker after_append.1
      partition parse-append_payload_example refl (ap (λ a. (a, after_append.1)) stored)

handle-IsAdmissible_example :
    ((n : Request) × (broker.opened ≡ true)
      × IsAdmissible broker request n
      × (handle context request broker
          ≡ answer n (dispatch context n (count_command request (count_request broker)))))
    ⊎ ((status : ℕ) × (payload : Bytes) × (status ≢ Status.ok)
        × (handle context request broker ≡ (
          some (make_response request status payload),
          if not broker.opened then count_error (count_request broker) else count_request broker,
        )))
unfolding append_payload
handle-IsAdmissible_example = handle-IsAdmissible context request broker (ground arith)

abbrev idle : LoopState
idle = record {
  broker = record broker { queues = []; coordinator = start node leader 10 false [] };
  replication_offsets = [];
  last_election = 0;
  election_timeout = 150;
}

abbrev environment : Environment
environment = record {
  network = network;
  storing = λ t p. surroundings;
  now = 250;
  opens = true;
  clock = 9;
  next_timeout = 200;
}

rounds-idle_example :
    (t : LoopState) × (rounds (environment ∷ environment ∷ environment ∷ []) idle ≡ some t)
    × (t.broker.coordinator.role ≡ follower)
unfolding start load_state list_topics
rounds-idle_example =
    rounds-idle environment environment environment idle refl refl refl (ground arith)
