-- ===== src/Client/Membership.antt =====
-- `MqConsumer::syncGroup` of src/client/mq_client.cc: what it sends and how it reads the answer.
use mq_project.Prelude.{
  ℕ, zero, suc, ◌+◌, ◌%◌, ◌^◌, ◌==◌, Option, none, some, List, [], ◌∷◌, ◌++◌, length, take, drop,
  ltb, if◌then◌else◌,
}
use mq_project.Bytes.{Bytes, put16, get16, get32}
use mq_project.Core.Groups.{GroupAssignment}
use mq_project.Client.{◌>>=◌}

abbrev pub sync_payload : Bytes → Bytes → Bytes
sync_payload group member_id =
    put16 (put16 [] (length group % 2 ^ 16) ++ group) (length member_id % 2 ^ 16) ++ member_id

-- The loop over the assignments, and the position behind them.
unfoldable pub read_assignments : ℕ → ℕ → Bytes → Option (List GroupAssignment × ℕ)
read_assignments zero position payload = some ([], position)
read_assignments (suc n) position payload =
    if ltb (length payload) (position + 2) then none else (do
      size ← get16 payload position
      (if ltb (length payload) (position + 2 + size + 4) then none else (do
        partition ← get32 payload (position + 2 + size)
        (assignments, end) ← read_assignments n (position + 2 + size + 4) payload
        some (
          record { topic = take size (drop (position + 2) payload); partition = partition }
              ∷ assignments,
          end,
        ))))

-- What becomes of the payload of an answer with `kOk`.
unfoldable pub read_sync_answer : Bytes → Option (List GroupAssignment)
unfolding read_assignments
read_sync_answer payload = if ltb (length payload) 4 then none else (do
  count ← get32 payload 0
  (assignments, end) ← read_assignments count 4 payload
  (if end == length payload then some assignments else none))
