-- ===== src/Lib.antt =====
-- A message queue broker in C++: the parts of it that decide what clients and other brokers see. Every
-- path is from the repository's root.
--
-- The parts and the files that model them:
-- - Bytes, Dict, Prelude: what the parts share. A byte is a number less than 256, a string is a list
--   of bytes; Bytes has the big-endian `Put` and `Get` functions over strings and over streams, Dict
--   is `std::unordered_map` with string keys as an association list. Numbers are natural numbers,
--   and where the code computes in 32 or 64 bits the wrap-around is written out.
-- - Protocol/Codec: `ProtocolCodec` of src/protocol/protocol_codec.cc, with the frames of
--   include/mq/protocol/commands.h. A read past the end of a frame is a value, `fault`.
-- - Protocol/Stream: `RequestStreamDecoder::Push`, which cuts a byte stream into frames and hands
--   them to the codec. Its buffer is passed along.
-- - Core/Topic: `IsValidTopicName` of src/core/topic.cc.
-- - Core/Queues: `QueueManager` of src/core/queue_manager.cc, the table of topics, which asks
--   Core/Topic for the names.
-- - Core/Stores: `ConsumerOffsetStore` and `TopicMetadataStore`, src/core/consumer_offset_store.cc
--   and src/core/topic_metadata_store.cc. The file is a list of bytes or missing, and an argument
--   says whether the calls on the file system succeed.
-- - Core/Groups: `ConsumerGroupCoordinator` of src/core/consumer_group_coordinator.cc.
--   Core/Groups/History runs any sequence of its operations.
-- - Core/Storage: `StorageEngine` of src/core/storage/storage_engine.cc. Core/Storage has the records
--   of the write-ahead log and the scan of one segment, Partition the segments of one partition with
--   their files, their recovery and their removal, Engine the partitions by name with `Append`,
--   `AppendReplica`, `Read`, `NextOffset` and `DeleteTopic`.
-- - Core/Memory: `MemoryPool` and the size classes of `SlabAllocator`, src/core/memory_pool.cc and
--   src/core/slab_allocator.cc, with places in a pool as distances from its start.
-- - Network/Buffer: `Buffer` of src/network/buffer.cc, which a connection fills from its socket.
-- - Server/Replication: `ReplicationCoordinator` of src/server/replication.cc. Server/Replication has
--   its state, its start and the state file; Election has terms and votes; Log has the progress of
--   the partitions. Server/Replication/Step runs its operations and restarts of the process.
-- - Client: the payloads that `MqConsumer` (Client) and `MqProducer` (Client/Producer) of
--   src/client/mq_client.cc send to the broker, and what they read of its answers; Client/Membership is
--   the part of a member of a group that asks for its partitions, Client/Polling `poll` with its state. Client/Call has the
--   connection to one of several endpoints and the call that is repeated until it is answered, which both
--   share; a parameter, `World`, stands for the sockets during one attempt, and the list of them for the
--   attempts that begin before the deadline.
-- - Server/Broker: `Broker` of src/server/broker.cc, over the components above. Server/Broker has its
--   state, Opening how it is set up and opened. Dispatch is `Handle`: Access has its checks, and
--   Offsets, Groups, Quota, Produce, Batch, TopicAdmin, Metrics, Fetch and Replicas have the handlers;
--   Reply is what they share, and Entries reads what a leader sends. Protocol/Command, Status and Flag
--   are the constants.
-- - Server/ReplicationClient: `ReplicationClient` of src/server/replication_client.cc, with `Call` in the
--   module itself. A parameter, `Network`, stands for the resolver and the sockets: it takes a frame and
--   yields the bytes that come back.
-- - Server/ReplicationLoop: the rounds of `ReplicationLoop` of src/server/broker.cc, which use that client:
--   Pull is a follower's part, Campaign the election, Lead the leader's part.
-- - Server/Serving: a broker behind the connection of a replication client, from frame to frame.
--
-- The mutex of each class makes every operation a function from a state to a state; an operation that
-- fails returns its error as a value. Clocks hand in the time as an argument.
--
-- Fuel: the loop of `Push` takes at least 20 bytes off its buffer in each round, the UTF-8 loop at
-- least one byte, the scan of a segment at least 30 bytes, so that the length of the input, and one
-- round more to see its end, is enough; the stride of an assignment takes at least one entry; the
-- loops over size classes double from 16 to 4096 in at most 8 rounds;
-- a number of 64 bits has at most 20 digits.
--
-- Not modelled: sockets, TLS and its errors, threads, logging and the command line, which are calls of the operating
-- system; starting and stopping the thread of the
-- replication. The token bucket of the rate limit computes in floating point: whether it has a token is
-- an argument, as are the random timeouts of elections.
pub mod Prelude
pub mod Bytes
pub mod Dict
pub mod Protocol
pub mod Core
pub mod Network
pub mod Client
pub mod Server
