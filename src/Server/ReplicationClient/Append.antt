-- ===== src/Server/ReplicationClient/Append.antt =====
-- `Append` and `Heartbeat` of src/server/replication_client.cc.
use mq_project.Prelude.{
  ℕ, ◌%◌, ◌^◌, Bool, true, false, not, ◌&&◌, ◌||◌, Option, none, some, List, [], ◌∷◌, ◌++◌, length,
  ltb, ◌==◌, if◌then◌else◌,
}
use mq_project.Bytes.{Bytes, put16, put32, put64, get64}
use mq_project.Protocol.Command
use mq_project.Core.Storage.{Message}
use mq_project.Server.Replication.{is_nil}
use mq_project.Server.ReplicationClient.{
  invalid_node_id, ReplicationClient, Network, Called, is_success, is_answered, response_of, call,
}

-- The loop of `Append` over the messages.
unfoldable pub put_entries : Bytes → List Message → Bytes
put_entries payload [] = payload
put_entries payload (m ∷ ms) =
    put_entries
      (put32
          (put16 (put64 (put64 payload m.offset) m.timestamp_ms) (length m.key % 2 ^ 16) ++ m.key)
          (length m.value % 2 ^ 32)
        ++ m.value)
      ms

-- What stands before the messages.
unfoldable pub append_head : ℕ → ℕ → Bytes → ℕ → ℕ → Bytes
append_head term commit_index leader_id prev_log_index prev_log_term =
    put64
      (put64 (put16 (put64 (put64 [] term) commit_index) (length leader_id % 2 ^ 16) ++ leader_id)
        prev_log_index)
      prev_log_term

unfoldable pub append_payload : ℕ → List Message → ℕ → ℕ → Bytes → ℕ → ℕ → Bytes
unfolding put_entries append_head
append_payload partition messages term commit_index leader_id prev_log_index prev_log_term =
    put_entries
      (put32
        (put32 (append_head term commit_index leader_id prev_log_index prev_log_term) partition)
        (length messages % 2 ^ 32))
      messages

abbrev pub has_no_messages : List Message → Bool
has_no_messages [] = true
has_no_messages (m ∷ ms) = false

-- What `Append` writes to `next_log_index`, if anything; the string for the response is empty before the call.
unfoldable pub reported_index : Called → Option ℕ
reported_index called =
    if not (is_success called) && length (response_of [] called) == 8
    then get64 (response_of [] called) 0
    else none

-- The result, and what it writes to `next_log_index`.
unfoldable pub append :
    Network
    → Bytes
    → ℕ
    → List Message
    → ℕ
    → ℕ
    → Bytes
    → ℕ
    → ℕ
    → ReplicationClient
    → (Option Bool × Option ℕ) × ReplicationClient
unfolding append_payload call reported_index
append network topic partition messages term commit_index leader_id prev_log_index prev_log_term c =
    if has_no_messages messages || is_nil leader_id || ltb 65535 (length leader_id)
    then ((some false, none), c)
    else (let (called, after) =
          call network Command.replica_append topic
            (append_payload partition messages term commit_index leader_id prev_log_index
              prev_log_term)
            true c in
        ((is_answered called, reported_index called), after))

unfoldable pub heartbeat_payload : ℕ → Bytes → ℕ → ℕ → ℕ → Bytes
heartbeat_payload partition node_id replicated_offset term commit_index =
    let plain =
      put64 (put32 (put16 [] (length node_id % 2 ^ 16) ++ node_id) partition) replicated_offset in
    if term == 0 then plain else put64 (put64 plain term) commit_index

-- A heartbeat with a term is that of a leader.
unfoldable pub heartbeat :
    Network → Bytes → ℕ → Bytes → ℕ → ℕ → ℕ → ReplicationClient → Option Bool × ReplicationClient
unfolding heartbeat_payload call
heartbeat network topic partition node_id replicated_offset term commit_index c =
    if is_nil node_id || ltb 65535 (length node_id)
    then (some false, record c { error = some invalid_node_id })
    else (let (called, after) =
          call network Command.heartbeat topic
            (heartbeat_payload partition node_id replicated_offset term commit_index)
            (not (term == 0)) c in
        (is_answered called, after))
