-- ===== src/Server/Broker/Fetch/CatchUp.antt =====
-- A consumer of a group that polls again and again.
use mq_project.Prelude.{ℕ, ◌+◌, ◌%◌, ◌^◌, ◌≡◌, refl, Bool, some, List, ◌∷◌}
use mq_project.Bytes.{Bytes}
use mq_project.Core.Storage.{Message}
use mq_project.Core.Storage.Partition.{Partition, segments}
use mq_project.Core.Storage.Engine.{messages_of}
use mq_project.Client.Polling.{Consumer, take_first, take_pending}
use mq_project.Server.Broker.{Broker}
use mq_project.Server.Broker.Fetch.Consuming.{poll, Serves}

module _ (opens : Bool) (clock : ℕ) (topic group : Bytes) (asked number every base : ℕ)
    (p : Partition) (b : Broker) (s : Serves b topic group asked number every base p) where
  abbrev consumer : ℕ → List Message → Consumer
  consumer next pending = record {
    topic = topic;
    group = group;
    partition = asked;
    next_offset = next;
    pending_messages = pending;
  }

  abbrev all : List Message
  all = messages_of (segments p)

  poll-kept :
      (next : ℕ) (m : Message) (ms : List Message)
      → poll opens clock (consumer next (m ∷ ms)) b
        ≡ ((some m, consumer ((m.offset + 1) % 2 ^ 64) ms), b)
  unfolding poll take_pending take_first
  poll-kept next m ms = refl
