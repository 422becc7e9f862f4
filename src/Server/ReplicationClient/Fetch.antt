-- ===== src/Server/ReplicationClient/Fetch.antt =====
-- `Fetch` of src/server/replication_client.cc.
use mq_project.Prelude.{
  ℕ, zero, suc, ◌+◌, ◌/◌, false, Option, none, some, List, [], ◌∷◌, length, ltb, ◌==◌,
  if◌then◌else◌,
}
use mq_project.Bytes.{Bytes, put32, put64, get32}
use mq_project.Protocol.Command
use mq_project.Protocol.Codec.{max_payload_bytes}
use mq_project.Core.Storage.{Message}
use mq_project.Client.{read_message}
use mq_project.Server.ReplicationClient.{
  invalid_fetch_count, invalid_fetch_response, ReplicationClient, Network, Called, answered,
  refused, faulted, call,
}

unfoldable pub fetch_payload : ℕ → ℕ → ℕ → Bytes
fetch_payload partition offset max_bytes = put32 (put64 (put32 [] partition) offset) max_bytes

-- How far the loop of `Fetch` gets: `scanned` has the position behind the messages.
pub data Scan : Type 0 where
  scanned : List Message → ℕ → Scan
  cut_short : Scan
  malformed : Scan

abbrev pub prepend : Message → Scan → Scan
prepend m (scanned ms end) = scanned (m ∷ ms) end
prepend m cut_short = cut_short
prepend m malformed = malformed

-- A message is read as in `poll` of the client.
unfoldable pub scan_messages : ℕ → Bytes → ℕ → Scan
scan_messages zero response position = scanned [] position
scan_messages (suc n) response position =
    if ltb (length response) (position + 18)
    then cut_short
    else elim (read_message response position) [
      | none ↦ malformed
      | some (m, next) ↦ prepend m (scan_messages n response next)
    ]

abbrev pub take_scan : Bytes → ReplicationClient → Scan → Option (List Message) × ReplicationClient
take_scan response c (scanned ms end) = (if end == length response then some ms else none, c)
take_scan response c cut_short = (none, record c { error = some invalid_fetch_response })
take_scan response c malformed = (none, c)

-- The messages of a response, or `none`.
unfoldable pub fetched_messages :
    Bytes → ReplicationClient → Option (List Message) × ReplicationClient
unfolding scan_messages
fetched_messages response c =
    if ltb (length response) 4 then (none, c) else elim (get32 response 0) [
      | none ↦ (none, c)
      | some count ↦
          if ltb (max_payload_bytes / 18) count
          then (none, record c { error = some invalid_fetch_count })
          else take_scan response c (scan_messages count response 4)
    ]

abbrev pub take_messages : Called × ReplicationClient → Option (List Message) × ReplicationClient
take_messages (answered response, c) = fetched_messages response c
take_messages (refused, c) = (none, c)
take_messages (faulted, c) = (none, c)

unfoldable pub fetch :
    Network → Bytes → ℕ → ℕ → ℕ → ReplicationClient → Option (List Message) × ReplicationClient
unfolding fetch_payload call fetched_messages
fetch network topic partition offset max_bytes c =
    if max_bytes == 0
    then (none, c)
    else take_messages (
        call network Command.replica_fetch topic (fetch_payload partition offset max_bytes) false c)
