-- ===== src/Server/Broker/Replicas.antt =====
-- What other brokers send: `HandleReplicaAppend` and `HandleReplicaVote` of src/server/broker.cc.
pub mod Stored
pub mod Followed
use mq_project.Prelude.{
  ℕ, ◌+◌, ◌-◌, ◌^◌, Bool, true, false, not, ◌&&◌, ◌||◌, Option, none, some, List, [], ◌∷◌, length,
  ltb, ◌==◌, if◌then◌else◌,
}
use mq_project.Bytes.{Bytes, put64, get16, get64}
use mq_project.Protocol.Status
use mq_project.Protocol.Flag
use mq_project.Protocol.Codec.{Request}
use mq_project.Core.Storage.{Message}
use mq_project.Core.Storage.Partition.{
  System, Error, invalid_message, cannot_create_segment, write_failed, fsync_failed, offset_gap,
  invalid_topic, invalid_offset, cannot_open, cannot_remove,
}
use mq_project.Core.Storage.Engine
use mq_project.Core.Storage.Engine.{Outcome, done, failed, faulted, StorageEngine}
use mq_project.Server.Replication.Election.{request_vote, request_pre_vote}
use mq_project.Server.Replication.Log.{
  observe_append, log_matches, next_log_index, record_local_offset,
}
use mq_project.Server.Broker.{Broker, has_flag}
use mq_project.Server.Broker.Reply
use mq_project.Server.Broker.Reply.{
  Reply, reply, Parsed, parsed, ◌>>=◌, ◌>>◌, read, stop_if, substr, route,
}
use mq_project.Server.Broker.Groups.{partition_key}
use mq_project.Server.Broker.Entries.{Head, parse_append}

abbrev pub is_none_left : List Message → Bool
is_none_left [] = true
is_none_left (n ∷ ns) = false

-- Offsets one after the other, from `expected` on; the largest has no next one.
pub is_gapless : ℕ → List Message → Bool
is_gapless expected [] = true
is_gapless expected (m ∷ ms) =
    m.offset == expected
    && (is_none_left ms || (not (m.offset == 2 ^ 64 - 1) && is_gapless (m.offset + 1) ms))

pub last_offset : List Message → ℕ
last_offset [] = 0
last_offset (m ∷ []) = m.offset
last_offset (m ∷ n ∷ ms) = last_offset (n ∷ ms)

abbrev pub append_status : Option Error → ℕ
append_status (some offset_gap) = Status.invalid_offset
append_status (some invalid_message) = Status.storage_error
append_status (some cannot_create_segment) = Status.storage_error
append_status (some write_failed) = Status.storage_error
append_status (some fsync_failed) = Status.storage_error
append_status (some invalid_topic) = Status.storage_error
append_status (some invalid_offset) = Status.storage_error
append_status (some cannot_open) = Status.storage_error
append_status (some cannot_remove) = Status.storage_error
append_status none = Status.storage_error

-- What surrounds the request: the clock, whether files can be opened, and what the file system does with
-- each of the entries.
pub record Surroundings : Type 0 where
  pub now : ℕ
  pub opens : Bool
  pub systems : ℕ → System

-- The loop that writes the entries, number `index` first; the status is that of the answer.
pub append_entries :
    Surroundings → Bytes → ℕ → ℕ → List Message → StorageEngine → Option ℕ × StorageEngine
append_entries e topic partition index [] storage = (some Status.ok, storage)
append_entries e topic partition index (m ∷ ms) storage =
    let (result, after) =
      Engine.append_replica e.opens (e.systems index) topic partition m storage in
    let rest = append_entries e topic partition (index + 1) ms after in
    elim result [
      | done n ↦ rest
      | failed x ↦ (some (append_status x), after)
      | faulted ↦ (none, after)
    ]

-- The entries are written, and the last of them is noted.
unfoldable pub write_entries : Surroundings → Bytes → ℕ → List Message → Broker → Reply × Broker
unfolding append_entries last_offset
write_entries e topic partition messages b =
    let (status, storage) = append_entries e topic partition 0 messages b.storage in
    let written = record b { storage = storage } in
    elim status [
      | none ↦ (Reply.faulted, written)
      | some s ↦
          if s == Status.ok
          then (
            reply Status.ok [],
            record written {
              coordinator =
                  record_local_offset (partition_key topic partition) (last_offset messages)
                    b.coordinator;
            },
          )
          else (reply s [], written)
    ]

-- The leader is followed, in a request with a term.
unfoldable pub follow : Surroundings → Request → Head → ℕ → List Message → Broker → Reply × Broker
unfolding has_flag last_offset write_entries
follow e r head partition messages b =
    let (followed, c) =
      observe_append (partition_key r.topic partition) head.term head.leader_id
        (last_offset messages) head.commit e.now b.coordinator in
    if has_flag r.flags Flag.replication_term
    then (if followed
        then write_entries e r.topic partition messages (record b { coordinator = c })
        else (reply Status.storage_error [], record b { coordinator = c }))
    else write_entries e r.topic partition messages b

-- Whether the entries are the next ones.
unfoldable pub continue_log :
    Surroundings → Request → Head → ℕ → List Message → Outcome ℕ × Broker → Reply × Broker
unfolding is_gapless follow
continue_log e r head partition messages (faulted, b) = (Reply.faulted, b)
continue_log e r head partition messages (failed x, b) = (reply Status.invalid_offset [], b)
continue_log e r head partition messages (done expected, b) =
    if is_gapless expected messages
    then follow e r head partition messages b
    else (reply Status.invalid_offset [], b)

unfoldable pub append_checked :
    Surroundings → Request → Broker → (Head × ℕ × List Message) → Reply × Broker
unfolding has_flag continue_log
append_checked e r b (head, partition, messages) =
    let key = partition_key r.topic partition in
    let (expected, storage) = Engine.next_offset e.opens e.now r.topic partition b.storage in
    if has_flag r.flags Flag.replication_term
      && not (log_matches key head.prev_log_index head.prev_log_term b.coordinator)
    then (reply Status.invalid_offset (put64 [] (next_log_index key b.coordinator)), b)
    else continue_log e r head partition messages (expected, record b { storage = storage })

unfoldable pub handle_replica_append : Surroundings → Request → Broker → Reply × Broker
unfolding parse_append append_checked
handle_replica_append e r b = Reply.proceed (parse_append r b) b (append_checked e r b)

-- The term, the candidate, and its last index and term.
unfoldable pub parse_vote : Request → Parsed (ℕ × Bytes × ℕ × ℕ)
unfolding has_flag
parse_vote r = do
  stop_if (not (has_flag r.flags Flag.replication) || ltb (length r.payload) 10) Status.bad_request
  term ← read (get64 r.payload 0)
  size ← read (get16 r.payload 8)
  stop_if (size == 0 || not (length r.payload == 26 + size)) Status.bad_request
  last_log_index ← read (get64 r.payload (10 + size))
  last_log_term ← read (get64 r.payload (18 + size))
  parsed (term, substr r.payload 10 size, last_log_index, last_log_term)

abbrev pub granted_payload : Bool → Bytes
granted_payload granted = (if granted then 1 else 0) ∷ []

unfoldable pub handle_replica_vote : Request → Broker → Reply × Broker
unfolding has_flag parse_vote
handle_replica_vote r b =
    Reply.proceed (parse_vote r) b λ (term, candidate, last_log_index, last_log_term).
      (let (granted, c) = request_vote term candidate last_log_index last_log_term b.coordinator in
        if has_flag r.flags Flag.replication_term
        then (
          reply Status.ok (
              granted_payload
                (request_pre_vote term candidate last_log_index last_log_term b.coordinator)),
          b,
        )
        else (reply Status.ok (granted_payload granted), record b { coordinator = c }))
