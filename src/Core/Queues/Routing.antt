-- ===== src/Core/Queues/Routing.antt =====
-- Where `ResolvePartition` sends a message.
use native.Mathlib.Nat.{mod-lt}
use mq_project.Prelude.{ℕ, ◌%◌, ◌≤◌, ◌<◌, ◌≡◌, ◌≢◌, some, arith}
use mq_project.Bytes.{Bytes}
use mq_project.Dict.{find}
use mq_project.Dict.Laws.{find-Each}
use mq_project.Core.Queues.{
  TopicMetadata, Topics, Resolved, partition, refused, partition_out_of_range, resolve_partition,
  auto_partition, hash_key,
}
use mq_project.Core.Queues.Table.{IsLegal, AllLegal}

abbrev pub Resolves : TopicMetadata → ℕ → Resolved → Type 0
Resolves t requested (partition p) =
    (p < t.partition_count) × (requested ≢ auto_partition → p ≡ requested)
Resolves t requested (refused e) =
    (e ≡ partition_out_of_range) × (requested ≢ auto_partition) × (t.partition_count ≤ requested)

-- For a topic of the table a message goes to one of its partitions: to the one that is asked for,
-- or to one that is chosen for it; the request is refused only where it names a partition that
-- the topic lacks.
pub resolve_partition-Resolves :
    (topic : Bytes) (requested : ℕ) (key : Bytes) (topics : Topics) (t : TopicMetadata)
    → AllLegal topics
    → find topic topics ≡ some t
    → Resolves t requested (resolve_partition topic requested key topics)
unfolding resolve_partition
resolve_partition-Resolves topic requested key topics t v e =
    let legal = find-Each IsLegal topic t topics v e in
    let below : hash_key key % t.partition_count < t.partition_count =
      mod-lt _ (legal.some_partitions) in
    ground arith
