-- ===== src/Server/Broker/Entries.antt =====
-- The payload of `HandleReplicaAppend`, src/server/broker.cc.
use mq_project.Prelude.{
  ℕ, zero, suc, ◌+◌, not, ◌&&◌, ◌||◌, List, [], ◌∷◌, length, ltb, leb, ◌==◌, if◌then◌else◌,
}
use mq_project.Bytes.{Bytes, get16, get32, get64}
use mq_project.Protocol.Status
use mq_project.Protocol.Flag
use mq_project.Protocol.Codec.{Request}
use mq_project.Core.Storage.{Message}
use mq_project.Server.Broker.{Broker, has_flag}
use mq_project.Server.Broker.Reply.{Parsed, parsed, ◌>>=◌, ◌>>◌, read, stop_if, substr, route}

-- What stands before the entries: the leader's term, commit index and id, the entry before them with its
-- term, and the position behind all that.
pub record Head : Type 0 where
  pub term : ℕ
  pub commit : ℕ
  pub leader_id : Bytes
  pub prev_log_index : ℕ
  pub prev_log_term : ℕ
  pub position : ℕ

-- The number of entries that the payload would have behind a previous entry.
unfoldable pub candidate_count : Bytes → ℕ → Parsed ℕ
candidate_count payload leader_size =
    if leb (38 + leader_size) (length payload)
    then read (get32 payload (18 + leader_size + 20))
    else parsed 0

unfoldable pub parse_head : Bytes → Parsed Head
unfolding candidate_count
parse_head payload = do
  stop_if (ltb (length payload) 26) Status.bad_request
  term ← read (get64 payload 0)
  commit ← read (get64 payload 8)
  leader_size ← read (get16 payload 16)
  stop_if (leader_size == 0 || ltb (length payload) (26 + leader_size)) Status.bad_request
  count ← candidate_count payload leader_size
  (if ltb 0 count && leb count 10000
      then (do
        prev_log_index ← read (get64 payload (18 + leader_size))
        prev_log_term ← read (get64 payload (18 + leader_size + 8))
        parsed (record {
          term = term;
          commit = commit;
          leader_id = substr payload 18 leader_size;
          prev_log_index = prev_log_index;
          prev_log_term = prev_log_term;
          position = 18 + leader_size + 16;
        }))
      else parsed (record {
        term = term;
        commit = commit;
        leader_id = substr payload 18 leader_size;
        prev_log_index = 0;
        prev_log_term = 0;
        position = 18 + leader_size;
      }))

abbrev pub no_head : Head
no_head = record {
  term = 0;
  commit = 0;
  leader_id = [];
  prev_log_index = 0;
  prev_log_term = 0;
  position = 0;
}

-- The loop over the entries, and the position behind them.
unfoldable pub parse_entries : ℕ → Bytes → ℕ → Parsed (List Message × ℕ)
parse_entries zero payload position = parsed ([], position)
parse_entries (suc n) payload position = do
  stop_if (ltb (length payload) (position + 18)) Status.bad_request
  offset ← read (get64 payload position)
  timestamp_ms ← read (get64 payload (position + 8))
  key_size ← read (get16 payload (position + 16))
  stop_if (ltb (length payload) (position + 18 + key_size + 4)) Status.bad_request
  value_size ← read (get32 payload (position + 18 + key_size))
  stop_if (ltb (length payload) (position + 18 + key_size + 4 + value_size)) Status.bad_request
  (messages, end) ← parse_entries n payload (position + 18 + key_size + 4 + value_size)
  parsed (
    record {
      offset = offset;
      timestamp_ms = timestamp_ms;
      key = substr payload (position + 18) key_size;
      value = substr payload (position + 18 + key_size + 4) value_size;
    }
        ∷ messages,
    end,
  )

-- The head, the partition that is routed to, and the entries.
unfoldable pub parse_append : Request → Broker → Parsed (Head × ℕ × List Message)
unfolding has_flag parse_head parse_entries route
parse_append r b = do
  stop_if (not (has_flag r.flags Flag.replication) || ltb (length r.payload) 8) Status.bad_request
  head ← (if has_flag r.flags Flag.replication_term then parse_head r.payload else parsed no_head)
  stop_if (ltb (length r.payload) (head.position + 8)) Status.bad_request
  partition ← read (get32 r.payload head.position)
  count ← read (get32 r.payload (head.position + 4))
  stop_if (count == 0 || ltb 10000 count) Status.bad_request
  resolved ← route Status.invalid_offset r.topic partition [] b.queues
  (messages, end) ← parse_entries count r.payload (head.position + 8)
  stop_if (not (end == length r.payload)) Status.bad_request
  parsed (head, resolved, messages)
