-- ===== src/Server/Broker/Fetch/Consuming.antt =====
-- `poll` of the client against `HandleFetch` of the broker.
use mq_project.Prelude.{
  ℕ, zero, suc, ◌^◌, ◌≤◌, ◌<◌, ◌≡◌, refl, arith, Bool, true, false, Option, none, some, List, [],
  ◌∷◌, ◌++◌, length, le→ltb, if◌then◌else◌,
}
use mq_project.Bytes.{Bytes}
use mq_project.Protocol.Codec.{Request, Response}
use mq_project.Core.Topic.{is_valid_topic_name}
use mq_project.Core.Queues
use mq_project.Core.Queues.{resolve_partition}
use mq_project.Core.Stores.{ConsumerOffset}
use mq_project.Core.Storage.{Message}
use mq_project.Core.Storage.Partition.{Partition}
use mq_project.Core.Storage.Partition.Chain.{IsLog}
use mq_project.Core.Storage.Engine
use mq_project.Core.Storage.Engine.{
  done, failed, faulted, messages_of, message_size, read_partition, find_partition, get_partition,
  read_found,
}
use mq_project.Client.Polling.{
  Consumer, fetch_request, fetch_payload, fetch_limit, take_response, take_pending,
}
use mq_project.Server.Replication.{is_nil}
use mq_project.Server.Broker.{Broker}
use mq_project.Server.Broker.Reply.{Reply, reply, make_response, route}
use mq_project.Server.Broker.Offsets.{find_offset}
use mq_project.Server.Broker.Fetch.{
  handle_fetch, parse_fetch, start_offset, later, answer_read, read_reply,
}
use mq_project.Server.Broker.Fetch.Asked.{partition_read, length-payload, parse-fetch_payload}

abbrev pub response_to : Request → Reply → Option Response
response_to r (reply status payload) = some (make_response r status payload)
response_to r Reply.faulted = none

-- One `poll` of a consumer over a connection that loses nothing, where `HandleFetch` answers: the message, if
-- there is one.
unfoldable pub poll : Bool → ℕ → Consumer → Broker → (Option Message × Consumer) × Broker
unfolding take_pending take_response handle_fetch
poll opens clock c b = elim (take_pending c) [
  | some taken ↦ (taken, b)
  | none ↦
      let (answer, after) = handle_fetch opens clock (fetch_request c) b in
      (take_response (response_to (fetch_request c) answer) c, after)
]

abbrev pub received : Option Message → List Message
received none = []
received (some m) = m ∷ []

-- The messages of so many polls.
unfoldable pub polls : ℕ → Bool → ℕ → Consumer → Broker → List Message
unfolding poll
polls zero opens clock c b = []
polls (suc n) opens clock c b =
    let ((m, c'), b') = poll opens clock c b in received m ++ polls n opens clock c' b'

-- The broker has the partition of a consumer open.
pub record Serves (b : Broker) (topic group : Bytes) (asked number every base : ℕ) (p : Partition)
    : Type 0 where
  pub some_group : 1 ≤ length group
  pub group_fits : length group < 2 ^ 16
  pub partition_fits : asked < 2 ^ 32
  pub named : is_valid_topic_name topic ≡ true
  pub routed : resolve_partition topic asked [] b.queues ≡ Queues.partition number
  pub found : find_partition topic number b.storage.partitions ≡ some p
  pub log : IsLog every base p
  pub next_fits : p.next_offset < 2 ^ 64

pub handle_fetch-read :
    (opens : Bool) (clock number every base : ℕ) (p : Partition) (c : Consumer) (b : Broker)
    → Serves b c.topic c.group c.partition number every base p
    → c.next_offset < 2 ^ 64
    → handle_fetch opens clock (fetch_request c) b ≡ (
      read_reply
          (read_partition (start_offset c.group c.topic number c.next_offset b) fetch_limit p),
      b,
    )
unfolding handle_fetch parse_fetch route answer_read Engine.read get_partition read_found
handle_fetch-read opens clock number every base p c b s fits =
    rw
      (le→ltb (length (fetch_payload c)) 16
        (omega (arith, length-payload c s.some_group s.group_fits s.partition_fits fits)))
      (rw (partition_read c s.some_group s.group_fits s.partition_fits fits) (
        rw (parse-fetch_payload c s.some_group s.group_fits s.partition_fits fits)
          (rw s.routed (rw s.named (rw (s.found, get_partition) refl)))))

-- What a group has committed; 0 where it has committed nothing.
abbrev pub committed : Bytes → Bytes → ℕ → Broker → ℕ
committed group topic number b = start_offset group topic number 0 b

pub later_same :
    (ungrouped : Bool) (item : Option ConsumerOffset) (k : ℕ)
    → (if ungrouped then 0 else later 0 item) ≤ k
    → (if ungrouped then k else later k item) ≡ k
later_same true item k h = refl
later_same false none k h = refl
later_same false (some item) k h = omega (arith, h)

pub later_grows :
    (ungrouped : Bool) (item : Option ConsumerOffset) (k : ℕ)
    → (if ungrouped then 0 else later 0 item) ≤ (if ungrouped then k else later k item)
later_grows true item k = omega arith
later_grows false none k = omega arith
later_grows false (some item) k = omega arith

module _ (group topic : Bytes) (number : ℕ) (b : Broker) where
  pub start_offset_lem :
      (k : ℕ) → committed group topic number b ≤ k → start_offset group topic number k b ≡ k
  unfolding start_offset
  start_offset_lem k h =
      later_same (is_nil group) (find_offset group topic number b.consumer_offsets) k h

  pub committed-start_offset :
      (k : ℕ) → committed group topic number b ≤ start_offset group topic number k b
  unfolding start_offset
  committed-start_offset k =
      later_grows (is_nil group) (find_offset group topic number b.consumer_offsets) k
