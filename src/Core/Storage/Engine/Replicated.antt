-- ===== src/Core/Storage/Engine/Replicated.antt =====
-- What `AppendReplica` makes of a partition that is in memory.
use mq_project.Prelude.{
  ℕ, ◌≡◌, inl, inr, refl, ap, sym, ◌∙◌, arith, Bool, true, ◌||◌, ◌==◌, ==_iff, some, Bool-cases,
}
use mq_project.Bytes.{Bytes}
use mq_project.Core.Storage.{Message}
use mq_project.Core.Storage.Partition.{System, Partition, append_record, offset_gap}
use mq_project.Core.Storage.Engine.{
  StorageEngine, done, failed, find_partition, put_partition, get_partition, is_storable, append_to,
  replicate_found, append_replica,
}
use mq_project.Core.Storage.Engine.Appends.{
  Adds, append_record-Adds, find_partition_named, find-put_partition, append_to_lem,
}

replica-append_to :
    (opens : Bool) (system : System) (number : ℕ) (topic : Bytes) (m n : Message)
    (e after : StorageEngine) (p : Partition)
    → find_partition topic number e.partitions ≡ some p
    → append_replica opens system topic number m e ≡ (done n, after)
    → (m.offset ≡ p.next_offset)
      × (append_to system m p (record e { opened = true }) ≡ (done n, after))
unfolding append_replica get_partition replicate_found
replica-append_to opens system number topic m n e after p f h =
    elim (Bool-cases (is_storable topic m.key m.value)) [
      | inr bad ↦ absurd (ground (arith, h, bad))
      | inl good ↦ elim (Bool-cases (e.opened || opens)) [
        | inr shut ↦ absurd (ground (arith, h, good, shut))
        | inl usable ↦ elim (Bool-cases (m.offset == p.next_offset)) [
          | inr gap ↦
              let run : append_replica opens system topic number m e
                  ≡ (failed (some offset_gap), record e { opened = true }) =
                rw good (rw usable (rw (f, get_partition) (rw gap refl))) in
              absurd (ground (arith, sym run ∙ h))
          | inl next ↦
              let run : append_replica opens system topic number m e
                  ≡ append_to system m p (record e { opened = true }) =
                rw good (rw usable (rw (f, get_partition) (rw next refl))) in
              ((==_iff m.offset p.next_offset).0 next, sym run ∙ h)
        ]
      ]
    ]

-- A message that is taken has the next offset, and stands at the end of the partition.
pub append_replica-Adds :
    (opens : Bool) (system : System) (number : ℕ) (topic : Bytes) (m n : Message)
    (e after : StorageEngine) (p : Partition)
    → find_partition topic number e.partitions ≡ some p
    → append_replica opens system topic number m e ≡ (done n, after)
    → (q : Partition) × (find_partition topic number after.partitions ≡ some q)
      × Adds m p q
      × (m.offset ≡ p.next_offset)
append_replica-Adds opens system number topic m n e after p f h =
    let (o, t) = replica-append_to opens system number topic m n e after p f h in
    let (none_yet, same, put) = append_to_lem system m n p (record e { opened = true }) after t in
    let (named, numbered) = find_partition_named topic number p e.partitions f in
    let q = (append_record e.config system m p).1 in
    let a = append_record-Adds e.config system m p none_yet in
    let placed : after.partitions ≡ put_partition topic number q e.partitions =
      put
      ∙ ap (λ x. put_partition x p.number q e.partitions) named
      ∙ ap (λ x. put_partition topic x q e.partitions) numbered in
    (
      q,
      ap (find_partition topic number) placed
          ∙ find-put_partition topic number p q e.partitions f (a.same_topic ∙ named)
              (a.same_number ∙ numbered),
      a,
      o,
    )
