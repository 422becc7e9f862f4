-- ===== src/Server/Broker/Replicas/Followed.antt =====
-- What a follower has stored when it answers a request for an append with `kOk`.
use mq_project.Prelude.{
  ℕ, ◌≡◌, ◌≢◌, ◌⊎◌, inl, inr, refl, ap, sym, ◌∙◌, arith, Bool, true, false, not, ◌&&◌, Option, none,
  some, List, [], ◌++◌, ◌==◌, ==_iff, Bool-cases, if◌then◌else◌,
}
use mq_project.Bytes.{Bytes, put64}
use mq_project.Protocol.Status
use mq_project.Protocol.Flag
use mq_project.Protocol.Codec.{Request}
use mq_project.Core.Topic.{is_valid_topic_name}
use mq_project.Core.Storage.{Message}
use mq_project.Core.Storage.Partition.{Partition, segments}
use mq_project.Core.Storage.Engine.{
  Outcome, done, failed, faulted, StorageEngine, find_partition, messages_of, get_partition,
  next_offset, next_offset_found,
}
use mq_project.Server.Replication.Log.{observe_append, log_matches, next_log_index}
use mq_project.Server.Broker.{Broker, has_flag}
use mq_project.Server.Broker.Reply.{Reply, reply, parsed}
use mq_project.Server.Broker.Groups.{partition_key}
use mq_project.Server.Broker.Entries.{Head, parse_append}
use mq_project.Server.Broker.Replicas.{
  Surroundings, last_offset, is_gapless, append_entries, write_entries, follow, continue_log,
  append_checked, handle_replica_append,
}
use mq_project.Server.Broker.Replicas.Stored.{Numbered, append_entries-ok}

-- The messages stand behind those that were there.
abbrev pub Extends : Bytes → ℕ → List Message → Partition → Broker → Type 0
Extends topic partition messages p b =
    Numbered p.next_offset messages
    × (q : Partition) × (find_partition topic partition b.storage.partitions ≡ some q)
    × (messages_of (segments q) ≡ messages_of (segments p) ++ messages)

abbrev well : Broker → Reply × Broker
well b = (reply Status.ok [], b)

is_well :
    (c : Bool) (s : ℕ) (finished unfinished after : Broker)
    → (c ≡ true → s ≡ Status.ok)
    → (s ≡ Status.ok → c ≡ true)
    → Path (Reply × Broker) (if c then well finished else (reply s [], unfinished)) (well after)
    → (s ≡ Status.ok) × (finished ≡ after)
is_well true s finished unfinished after f g h = (f refl, ap (λ y. y.1) h)
is_well false s finished unfinished after f g h = absurd (ground (arith, g (ground (arith, h))))

-- By the status of the loop.
written :
    (x : Option ℕ) (unfinished finished after : Broker)
    → Path
        (Reply × Broker)
        (elim x [
          | none ↦ (Reply.faulted, unfinished)
          | some s ↦ if s == Status.ok then well finished else (reply s [], unfinished)
        ])
        (well after)
    → (x ≡ some Status.ok) × (finished ≡ after)
written none unfinished finished after h = absurd (ground (arith, h))
written (some s) unfinished finished after h =
    let (good, same) =
      is_well (s == Status.ok) s finished unfinished after (==_iff s Status.ok).0
        (==_iff s Status.ok).1 h in
    (ap some good, same)

write_entries-Extends :
    (e : Surroundings) (topic : Bytes) (partition : ℕ) (messages : List Message) (b after : Broker)
    (p : Partition)
    → find_partition topic partition b.storage.partitions ≡ some p
    → write_entries e topic partition messages b ≡ well after
    → Extends topic partition messages p after
unfolding write_entries
write_entries-Extends e topic partition messages b after p f h =
    let run = append_entries e topic partition 0 messages b.storage in
    let (ok, same) = written run.0 (record b { storage = run.1 }) _ after h in
    let (numbered, q, found, all) =
      append_entries-ok e topic partition 0 messages b.storage run.1 p f
        (ap (λ x. (x, run.1)) ok) in
    (
      numbered,
      q,
      ap (λ c. find_partition topic partition c.storage.partitions) (sym same) ∙ found,
      all,
    )

-- By the tests whether the request has a term, and whether its leader is followed.
followed :
    (term accepted : Bool) (x y : Reply × Broker) (c after : Broker)
    → Path
        (Reply × Broker)
        (if term then (if accepted then x else (reply Status.storage_error [], c)) else y)
        (well after)
    → (x ≡ well after) ⊎ (y ≡ well after)
followed true true x y c after h = inl h
followed true false x y c after h = absurd (ground (arith, h))
followed false accepted x y c after h = inr h

follow-Extends :
    (e : Surroundings) (r : Request) (head : Head) (partition : ℕ) (messages : List Message)
    (b after : Broker) (p : Partition)
    → find_partition r.topic partition b.storage.partitions ≡ some p
    → follow e r head partition messages b ≡ well after
    → Extends r.topic partition messages p after
unfolding follow
follow-Extends e r head partition messages b after p f h =
    let key = partition_key r.topic partition in
    let (accepted, c) =
      observe_append key head.term head.leader_id (last_offset messages) head.commit e.now
        b.coordinator in
    let heard = record b { coordinator = c } in
    elim (followed (has_flag r.flags Flag.replication_term) accepted
      (write_entries e r.topic partition messages heard)
      (write_entries e r.topic partition messages b) heard after h) [
        | inl x ↦ write_entries-Extends e r.topic partition messages heard after p f x
        | inr y ↦ write_entries-Extends e r.topic partition messages b after p f y
      ]

refused :
    (c : Bool) (s : ℕ) (payload : Bytes) (b after : Broker) (x : Reply × Broker)
    → s ≢ Status.ok
    → Path (Reply × Broker) (if c then (reply s payload, b) else x) (well after)
    → x ≡ well after
refused true s payload b after x n h = absurd (n (ground (arith, h)))
refused false s payload b after x n h = h

gapless :
    (c : Bool) (b after : Broker) (x : Reply × Broker)
    → Path (Reply × Broker) (if c then x else (reply Status.invalid_offset [], b)) (well after)
    → x ≡ well after
gapless true b after x h = h
gapless false b after x h = absurd (ground (arith, h))

continue_log-Extends :
    (e : Surroundings) (r : Request) (head : Head) (partition : ℕ) (messages : List Message)
    (o : Outcome ℕ) (b after : Broker) (p : Partition)
    → find_partition r.topic partition b.storage.partitions ≡ some p
    → continue_log e r head partition messages (o, b) ≡ well after
    → Extends r.topic partition messages p after
unfolding continue_log
continue_log-Extends e r head partition messages faulted b after p f h = absurd (ground (arith, h))
continue_log-Extends e r head partition messages (failed x) b after p f h =
    absurd (ground (arith, h))
continue_log-Extends e r head partition messages (done expected) b after p f h =
    follow-Extends e r head partition messages b after p f
      (gapless (is_gapless expected messages) b after (follow e r head partition messages b) h)

next_offset-keeps :
    (opens : Bool) (clock number : ℕ) (topic : Bytes) (storage : StorageEngine) (p : Partition)
    → find_partition topic number storage.partitions ≡ some p
    → (next_offset opens clock topic number storage).1 ≡ storage
unfolding next_offset next_offset_found get_partition
next_offset-keeps opens clock number topic storage p f =
    elim (Bool-cases (is_valid_topic_name topic)) [
      | inr bad ↦ rw bad refl
      | inl good ↦ rw good (rw (f, get_partition) refl)
    ]

-- A follower that answers a request for an append with `kOk`, where the partition is in memory, has put the
-- messages of the request behind those that the partition held, in their order, and they bear the next
-- offsets.
pub handle_replica_append-Extends :
    (e : Surroundings) (r : Request) (head : Head) (partition : ℕ) (messages : List Message)
    (b after : Broker) (p : Partition)
    → parse_append r b ≡ parsed (head, partition, messages)
    → find_partition r.topic partition b.storage.partitions ≡ some p
    → handle_replica_append e r b ≡ (reply Status.ok [], after)
    → Extends r.topic partition messages p after
unfolding handle_replica_append append_checked
handle_replica_append-Extends e r head partition messages b after p read f h =
    let key = partition_key r.topic partition in
    let expected = next_offset e.opens e.now r.topic partition b.storage in
    let same = next_offset-keeps e.opens e.now partition r.topic b.storage p f in
    let run : handle_replica_append e r b ≡ append_checked e r b (head, partition, messages) =
      rw read refl in
    continue_log-Extends e r head partition messages expected.0 (record b { storage = expected.1 })
      after p (ap (λ s. find_partition r.topic partition s.partitions) same ∙ f)
      (refused
        (has_flag r.flags Flag.replication_term
          && not (log_matches key head.prev_log_index head.prev_log_term b.coordinator))
        Status.invalid_offset (put64 [] (next_log_index key b.coordinator)) b after
        (continue_log e r head partition messages (expected.0, record b { storage = expected.1 }))
        (ground arith) (sym run ∙ h))
