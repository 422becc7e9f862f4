-- ===== src/Client.antt =====
-- The requests of `MqConsumer` and how it reads the answers, src/client/mq_client.cc: the payloads only,
-- without the sockets. A response is handed on if its status is `kOk`.
pub mod Producer
pub mod Call
pub mod Membership
pub mod Polling
use mq_project.Prelude.{
  ℕ, zero, suc, ◌+◌, ◌^◌, ◌%◌, ◌||◌, ◌==◌, Option, none, some, List, [], ◌∷◌, ◌++◌, length, take,
  drop, ltb, if◌then◌else◌,
}
use mq_project.Bytes.{Bytes, put16, put32, put64, get16, get32, get64}
use mq_project.Core.Storage.{Message}

-- What `commit` sends.
abbrev pub commit_payload : Bytes → ℕ → ℕ → Bytes
commit_payload group partition offset =
    put64 (put32 (put16 [] (length group % 2 ^ 16) ++ group) partition) offset

-- What `fetchGroupOffsets` sends, and how it reads the answer.
abbrev pub offset_fetch_payload : Bytes → ℕ → Bytes
offset_fetch_payload group partition = put32 (put16 [] (length group % 2 ^ 16) ++ group) partition

unfoldable pub read_group_offset : Bytes → Option ℕ
read_group_offset payload = if length payload == 8 then get64 payload 0 else none

unfoldable pub put_topics : Bytes → List Bytes → Bytes
put_topics payload [] = payload
put_topics payload (topic ∷ topics) = put_topics (put16 payload (length topic) ++ topic) topics

-- What `joinGroup` sends; no topic is empty or longer than 65535 bytes.
unfoldable pub join_payload : Bytes → Bytes → List Bytes → Bytes
unfolding put_topics
join_payload group member_id topics =
    put_topics
      (put16
        (put16 (put16 [] (length group % 2 ^ 16) ++ group) (length member_id % 2 ^ 16) ++ member_id)
        (length topics % 2 ^ 16))
      topics

-- Reads in a chain.
infixl 5 ◌>>=◌
abbrev pub ◌>>=◌ {ℓ κ} : {A : Type ℓ} {B : Type κ} → Option A → (A → Option B) → Option B
none >>= f = none
some a >>= f = f a

-- The key and the value of a message, from a position on.
unfoldable pub read_rest : Bytes → ℕ → ℕ → ℕ → ℕ → Option (Message × ℕ)
read_rest payload pos offset timestamp_ms key_size =
    if ltb (length payload) (pos + key_size + 4) then none else (do
      value_size ← get32 payload (pos + key_size)
      (if ltb (length payload) (pos + key_size + 4 + value_size)
          then none
          else some (
            record {
              offset = offset;
              timestamp_ms = timestamp_ms;
              key = take key_size (drop pos payload);
              value = take value_size (drop (pos + key_size + 4) payload);
            },
            pos + key_size + 4 + value_size,
          )))

-- One message of an answer to `poll`, and the position behind it.
unfoldable pub read_message : Bytes → ℕ → Option (Message × ℕ)
unfolding read_rest
read_message payload pos = if ltb (length payload) (pos + 18) then none else (do
  offset ← get64 payload pos
  timestamp_ms ← get64 payload (pos + 8)
  key_size ← get16 payload (pos + 16)
  read_rest payload (pos + 18) offset timestamp_ms key_size)

-- The loop of `poll` over the messages.
unfoldable pub read_messages : ℕ → Bytes → ℕ → Option (List Message × ℕ)
unfolding read_message
read_messages zero payload pos = some ([], pos)
read_messages (suc n) payload pos = do
  (m, next) ← read_message payload pos
  (ms, end) ← read_messages n payload next
  some (m ∷ ms, end)

-- The messages of an answer to `poll`; `none` where it refuses them or there are none.
unfoldable pub poll_messages : Bytes → Option (List Message)
unfolding read_messages
poll_messages payload = if ltb (length payload) 4 then none else (do
  count ← get32 payload 0
  (if count == 0 || ltb 100000 count then none else (do
    (ms, end) ← read_messages count payload 4
    (if end == length payload then some ms else none))))
