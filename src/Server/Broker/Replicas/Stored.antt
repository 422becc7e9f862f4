-- ===== src/Server/Broker/Replicas/Stored.antt =====
-- What a follower has stored when it answers an append with `kOk`.
use mq_project.Prelude.{
  ℕ, ◌+◌, ◌%◌, ◌^◌, ◌≡◌, ◌≢◌, refl, ap, sym, ◌∙◌, arith, Option, none, some, List, [], ◌∷◌, ◌++◌,
  append_assoc, append-nil, subst,
}
use mq_project.Bytes.{Bytes}
use mq_project.Protocol.Status
use mq_project.Core.Storage.{Message}
use mq_project.Core.Storage.Partition.{
  Partition, segments, Error, invalid_message, cannot_create_segment, write_failed, fsync_failed,
  offset_gap, invalid_topic, invalid_offset, cannot_open, cannot_remove,
}
use mq_project.Core.Storage.Engine
use mq_project.Core.Storage.Engine.{
  Outcome, done, failed, faulted, StorageEngine, find_partition, messages_of,
}
use mq_project.Core.Storage.Engine.Replicated.{append_replica-Adds}
use mq_project.Server.Broker.Replicas.{Surroundings, append_status, append_entries}

append_status-ne-ok : (x : Option Error) → append_status x ≢ Status.ok
append_status-ne-ok none = ground arith
append_status-ne-ok (some invalid_message) = ground arith
append_status-ne-ok (some cannot_create_segment) = ground arith
append_status-ne-ok (some write_failed) = ground arith
append_status-ne-ok (some fsync_failed) = ground arith
append_status-ne-ok (some offset_gap) = ground arith
append_status-ne-ok (some invalid_topic) = ground arith
append_status-ne-ok (some invalid_offset) = ground arith
append_status-ne-ok (some cannot_open) = ground arith
append_status-ne-ok (some cannot_remove) = ground arith

-- Offsets one after the other, from `next` on, as 64 bits.
abbrev pub Numbered : ℕ → List Message → Type 0
Numbered next [] = Unit
Numbered next (m ∷ ms) = (m.offset ≡ next) × Numbered ((next + 1) % 2 ^ 64) ms

-- By the result of one append.
continued :
    (o : Outcome Message) (after end : StorageEngine) (rest : Option ℕ × StorageEngine)
    → Path
        (Option ℕ × StorageEngine)
        (elim o [
          | done n ↦ rest
          | failed x ↦ (some (append_status x), after)
          | faulted ↦ (none, after)
        ])
        (some Status.ok, end)
    → (n : Message) × (o ≡ done n) × (rest ≡ (some Status.ok, end))
continued (done n) after end rest h = (n, refl, h)
continued (failed x) after end rest h = absurd (append_status-ne-ok x (ground (arith, h)))
continued faulted after end rest h = absurd (ground (arith, h))

-- The partition of a follower that has answered an append with success, for a partition that was in memory, holds the
-- messages that it held, and behind them those of the request in their order, which bear the next offsets.
pub append_entries-ok :
    (e : Surroundings) (topic : Bytes) (partition index : ℕ) (messages : List Message)
    (storage after : StorageEngine) (p : Partition)
    → find_partition topic partition storage.partitions ≡ some p
    → append_entries e topic partition index messages storage ≡ (some Status.ok, after)
    → Numbered p.next_offset messages
      × (q : Partition) × (find_partition topic partition after.partitions ≡ some q)
      × (messages_of (segments q) ≡ messages_of (segments p) ++ messages)
unfolding append_entries
append_entries-ok e topic partition index [] storage after p f h = (
  tt,
  p,
  ap (λ x. find_partition topic partition x.1.partitions) (sym h) ∙ f,
  sym (append-nil (messages_of (segments p))),
)
append_entries-ok e topic partition index (m ∷ ms) storage after p f h =
    let step = Engine.append_replica e.opens (e.systems index) topic partition m storage in
    let (n, taken, rest) =
      continued step.0 step.1 after (append_entries e topic partition (index + 1) ms step.1) h in
    let (q, found, a, next) =
      append_replica-Adds e.opens (e.systems index) partition topic m n storage step.1 p f
        (ap (λ o. (o, step.1)) taken) in
    let (numbered, r, last, all) =
      append_entries-ok e topic partition (index + 1) ms step.1 after q found rest in
    (
      (next, subst (λ k. Numbered k ms) a.counted numbered),
      r,
      last,
      all ∙ ap (λ xs. xs ++ ms) a.added ∙ append_assoc (messages_of (segments p)) (m ∷ []) ms,
    )
