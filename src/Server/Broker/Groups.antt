-- ===== src/Server/Broker/Groups.antt =====
-- The requests of consumer groups and heartbeats: `HandleJoinGroup`, `HandleSyncGroup` and
-- `HandleHeartbeat` of src/server/broker.cc.
pub mod Heartbeats
pub mod Synced
pub mod TopicLoop
pub mod Mismatch
use mq_project.Prelude.{
  ℕ, zero, suc, ◌+◌, ◌-◌, ◌*◌, ◌/◌, ◌%◌, ◌^◌, Bool, true, false, not, ◌&&◌, ◌||◌, Option, none,
  some, List, [], ◌∷◌, ◌++◌, length, ltb, leb, ◌==◌, if◌then◌else◌,
}
use mq_project.Bytes.{Bytes, put16, put32, put64, get16, get32, get64}
use mq_project.Protocol.Status
use mq_project.Protocol.Flag
use mq_project.Protocol.Codec.{Request}
use mq_project.Core.Groups.{GroupAssignment, Coordinator, join, sync, heartbeat, expire}
use mq_project.Server.Replication.{Replication, is_nil}
use mq_project.Server.Replication.Log.{observe_append, observe_heartbeat}
use mq_project.Server.Broker.{Broker, has_flag}
use mq_project.Server.Broker.Reply.{
  Reply, reply, Parsed, parsed, ◌>>=◌, ◌>>◌, read, stop_if, substr, proceed,
}

-- `std::to_string`: the digits in front of `digits`; `fuel` bounds their number.
pub decimal_loop : ℕ → ℕ → Bytes → Bytes
decimal_loop zero n digits = digits
decimal_loop (suc fuel) n digits =
    let more = decimal_loop fuel (n / 10) ((0x30 + n % 10) ∷ digits) in
    if n / 10 == 0 then (0x30 + n % 10) ∷ digits else more

unfoldable pub to_string : ℕ → Bytes
unfolding decimal_loop
to_string n = decimal_loop 20 n []

unfoldable pub partition_key : Bytes → ℕ → Bytes
unfolding to_string
partition_key topic partition = topic ++ (0x1F ∷ to_string partition)

-- The topics of a request to join, and the position behind them.
unfoldable pub parse_topics : ℕ → Bytes → ℕ → Parsed (List Bytes × ℕ)
parse_topics zero payload position = parsed ([], position)
parse_topics (suc n) payload position = do
  stop_if (ltb (length payload) (position + 2)) Status.bad_request
  size ← read (get16 payload position)
  stop_if (size == 0 || ltb (length payload) (position + 2 + size)) Status.bad_request
  (topics, end) ← parse_topics n payload (position + 2 + size)
  parsed (substr payload (position + 2) size ∷ topics, end)

-- The group, the member and its topics.
unfoldable pub parse_join : Bytes → Parsed (Bytes × Bytes × List Bytes)
unfolding parse_topics
parse_join payload = do
  stop_if (ltb (length payload) 6) Status.bad_request
  group_size ← read (get16 payload 0)
  stop_if (ltb (length payload) (2 + group_size + 4)) Status.bad_request
  member_size ← read (get16 payload (2 + group_size))
  topic_count ← read (get16 payload (4 + group_size))
  stop_if
      (group_size == 0 || member_size == 0 || ltb (length payload) (6 + group_size + member_size))
      Status.bad_request
  (topics, end) ← parse_topics topic_count payload (6 + group_size + member_size)
  stop_if (not (end == length payload)) Status.bad_request
  parsed (substr payload 2 group_size, substr payload (4 + group_size) member_size, topics)

unfoldable pub join_group : ℕ → Bytes → Bytes → List Bytes → Broker → Reply × Broker
join_group now group member topics b =
    let (joined, groups) = join group member topics now b.groups in
    if joined
    then (
      reply Status.ok (put16 [] (length member % 2 ^ 16) ++ member),
      record b { groups = groups },
    )
    else (reply Status.bad_request [], record b { groups = groups })

-- `now` is the steady clock.
unfoldable pub handle_join_group : ℕ → Request → Broker → Reply × Broker
unfolding parse_join join_group
handle_join_group now r b =
    proceed (parse_join r.payload) b λ (group, member, topics). join_group now group member topics b

unfoldable pub parse_sync : Bytes → Parsed (Bytes × Bytes)
parse_sync payload = do
  stop_if (ltb (length payload) 4) Status.bad_request
  group_size ← read (get16 payload 0)
  stop_if (ltb (length payload) (2 + group_size + 2)) Status.bad_request
  member_size ← read (get16 payload (2 + group_size))
  stop_if
      (group_size == 0 || member_size == 0 || not (4 + group_size + member_size == length payload))
      Status.bad_request
  parsed (substr payload 2 group_size, substr payload (4 + group_size) member_size)

pub put_assignments : Bytes → List GroupAssignment → Bytes
put_assignments payload [] = payload
put_assignments payload (a ∷ all) =
    put_assignments (put32 (put16 payload (length a.topic % 2 ^ 16) ++ a.topic) a.partition) all

abbrev pub assignments_payload : List GroupAssignment → Bytes
assignments_payload all = put_assignments (put32 [] (length all % 2 ^ 32)) all

abbrev pub sync_reply : Option (List GroupAssignment) → Reply
sync_reply none = reply Status.invalid_offset []
sync_reply (some all) = reply Status.ok (assignments_payload all)

unfoldable pub handle_sync_group : Request → Broker → Reply × Broker
unfolding parse_sync
handle_sync_group r b =
    proceed (parse_sync r.payload) b λ (group, member). (sync_reply (sync group member b.groups), b)

-- The node, the partition, its offset, and the term with the commit index where they are there.
unfoldable pub parse_progress : Request → Parsed (Bytes × ℕ × ℕ × Option (ℕ × ℕ))
parse_progress r = do
  stop_if (is_nil r.topic || ltb (length r.payload) 14) Status.bad_request
  node_size ← read (get16 r.payload 0)
  stop_if
      (node_size == 0
        || (not (14 + node_size == length r.payload) && not (30 + node_size == length r.payload)))
      Status.bad_request
  partition ← read (get32 r.payload (2 + node_size))
  offset ← read (get64 r.payload (6 + node_size))
  (if length r.payload == 30 + node_size
      then (do
        term ← read (get64 r.payload (14 + node_size))
        commit ← read (get64 r.payload (22 + node_size))
        parsed (substr r.payload 2 node_size, partition, offset, some (term, commit)))
      else parsed (substr r.payload 2 node_size, partition, offset, none))

unfoldable pub note_progress : ℕ → Bytes → ℕ → ℕ → Option (ℕ × ℕ) → Bytes → Broker → Reply × Broker
unfolding partition_key
note_progress now node_id partition offset none topic b = (
  reply Status.ok (put64 [] offset),
  record b {
    coordinator =
        observe_heartbeat (partition_key topic partition) node_id offset now b.coordinator;
  },
)
note_progress now node_id partition offset (some (term, commit)) topic b =
    let (fresh, c) =
      observe_append (partition_key topic partition) term node_id offset commit now b.coordinator in
    if fresh
    then (reply Status.ok (put64 [] offset), record b { coordinator = c })
    else (reply Status.storage_error [], record b { coordinator = c })

unfoldable pub parse_group_heartbeat : Bytes → Parsed (Bytes × Bytes)
parse_group_heartbeat payload = do
  group_size ← read (get16 payload 0)
  stop_if (not (length payload == 4 + group_size)) Status.bad_request
  member_size ← read (get16 payload (2 + group_size))
  stop_if
      (group_size == 0 || member_size == 0 || not (length payload == 4 + group_size + member_size))
      Status.bad_request
  parsed (substr payload 2 group_size, substr payload (4 + group_size) member_size)

unfoldable pub group_heartbeat : ℕ → Bytes → Bytes → Broker → Reply × Broker
group_heartbeat now group member b =
    let (known, groups) = heartbeat group member now b.groups in
    if known
    then (reply Status.ok [], record b { groups = groups })
    else (reply Status.invalid_offset [], record b { groups = groups })

-- `flushes` says whether the files of the storage engine can be flushed.
unfoldable pub handle_heartbeat : ℕ → Bool → Request → Broker → Reply × Broker
unfolding has_flag parse_progress note_progress parse_group_heartbeat group_heartbeat
handle_heartbeat now flushes r b =
    let b' = record b { groups = (expire now b.groups).1 } in
    if has_flag r.flags Flag.replication
    then proceed (parse_progress r) b' (λ (node_id, partition, offset, term).
      note_progress now node_id partition offset term r.topic b')
    else (if leb 4 (length r.payload)
        then proceed (parse_group_heartbeat r.payload) b'
            (λ (group, member). group_heartbeat now group member b')
        else (if not (is_nil r.payload)
            then (reply Status.bad_request [], b')
            else (reply (if flushes then Status.ok else Status.storage_error) [], b')))
