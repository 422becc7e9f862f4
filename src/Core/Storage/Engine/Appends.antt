-- ===== src/Core/Storage/Engine/Appends.antt =====
-- A message that `Append` has stored is there for `Read` and `NextOffset`.
use mq_project.Prelude.{
  ℕ, ◌+◌, ◌-◌, ◌%◌, ◌^◌, ◌≤◌, ◌<◌, ◌≡◌, ◌≢◌, inl, inr, refl, ap, sym, ◌∙◌, Bool, true, false, ◌||◌,
  ◌==◌, Option, none, some, List, [], ◌∷◌, ◌++◌, length, arith, Bool-cases, Option-cases,
  append_assoc, append-nil, if◌then◌else◌, le→ltb, lt→ltb, subst,
}
use mq_project.Bytes.{Bytes}
use mq_project.Bytes.Equality.{bytes_eq_iff}
use mq_project.Core.Topic.{is_valid_topic_name}
use mq_project.Core.Storage.{Message, record_bytes}
use mq_project.Core.Storage.Partition.{
  StorageConfig, System, Segment, Partition, segments, empty_segment, Error, needs_roll, roll,
  extend, is_synced, write_record, append_record,
}
use mq_project.Core.Storage.Partition.Chain.{IsLog, IsLog-Chain}
use mq_project.Core.Storage.Engine.{
  StorageEngine, Outcome, done, failed, find_partition, put_partition, get_partition, is_storable,
  append_to, append_found, append, is_empty, messages_of, message_size, read_messages,
  read_partition, read_found, read, next_offset, next_offset_found,
}
use mq_project.Core.Storage.Crash.{Follows}
use mq_project.Core.Storage.Engine.Reads.{Chain-Follows}

messages_of-append :
    (ss ts : List Segment) → messages_of (ss ++ ts) ≡ messages_of ss ++ messages_of ts
messages_of-append [] ts = refl
messages_of-append (s ∷ ss) ts =
    ap (λ ms. s.messages ++ ms) (messages_of-append ss ts)
    ∙ sym (append_assoc s.messages (messages_of ss) (messages_of ts))

-- What a successful append makes of a partition.
pub record Adds (m : Message) (p q : Partition) : Type 0 where
  pub same_topic : q.topic ≡ p.topic
  pub same_number : q.number ≡ p.number
  pub added : messages_of (segments q) ≡ messages_of (segments p) ++ m ∷ []
  pub counted : q.next_offset ≡ (p.next_offset + 1) % 2 ^ 64

write_record-Adds :
    (config : StorageConfig) (system : System) (m : Message) (p : Partition)
    → (write_record config system m p).0 ≡ none
    → Adds m p (write_record config system m p).1
unfolding write_record extend
write_record-Adds config system m p h =
    let more : messages_of (p.older ++ extend config m p.active ∷ [])
        ≡ messages_of (segments p) ++ m ∷ [] =
      messages_of-append p.older (extend config m p.active ∷ [])
      ∙ ap (λ ms. messages_of p.older ++ ms)
          (append_assoc p.active.messages (m ∷ []) []
            ∙ ap (λ ms. ms ++ m ∷ []) (sym (append-nil p.active.messages)))
      ∙ sym (append_assoc (messages_of p.older) (p.active.messages ++ []) (m ∷ []))
      ∙ ap (λ ms. ms ++ m ∷ []) (sym (messages_of-append p.older (p.active ∷ []))) in
    elim (Option-cases system.written) [
      | inr (n, w) ↦ absurd (ground (arith, w, h))
      | inl w ↦ elim (Bool-cases (is_synced config (system.clock - p.last_sync))) [
        | inr later ↦
            rw (w, write_record)
              (rw later
                (record { same_topic = refl; same_number = refl; added = more; counted = refl }))
        | inl now ↦ elim (Bool-cases system.syncs) [
          | inl good ↦
              rw (w, write_record)
                (rw now (
                  rw good (record {
                    same_topic = refl;
                    same_number = refl;
                    added = more;
                    counted = refl;
                  })))
          | inr bad ↦ absurd (ground (arith, w, now, bad, h))
        ]
      ]
    ]

-- By the branches of the tests whether to roll and whether the new segment can be created.
branches :
    (m : Message) (p : Partition) (rolls creates : Bool) (x y z : Option Error × Partition)
    → (x.0 ≡ none → Adds m p x.1)
    → (y.0 ≢ none)
    → (z.0 ≡ none → Adds m p z.1)
    → (if rolls then (if creates then x else y) else z).0 ≡ none
    → Adds m p (if rolls then (if creates then x else y) else z).1
branches m p true true x y z f g h e = f e
branches m p true false x y z f g h e = absurd (g e)
branches m p false creates x y z f g h e = h e

rolled-Adds : (m : Message) (p q : Partition) → Adds m (roll p) q → Adds m p q
unfolding roll
rolled-Adds m p q a = record {
  same_topic = a.same_topic;
  same_number = a.same_number;
  added =
      a.added
      ∙ ap (λ ms. ms ++ m ∷ [])
          (messages_of-append (segments p) (empty_segment ((p.active.number + 1) % 2 ^ 64) ∷ [])
            ∙ append-nil (messages_of (segments p)));
  counted = a.counted;
}

pub append_record-Adds :
    (config : StorageConfig) (system : System) (m : Message) (p : Partition)
    → (append_record config system m p).0 ≡ none
    → Adds m p (append_record config system m p).1
unfolding append_record
append_record-Adds config system m p h =
    branches m p (needs_roll config (length (record_bytes m)) p.active) system.creates _ _ _
      (λ e. rolled-Adds m p _ (write_record-Adds config system m (roll p) e))
      (λ e. ground (arith, e)) (write_record-Adds config system m p) h

pub find_partition_named :
    (topic : Bytes) (number : ℕ) (p : Partition) (ps : List Partition)
    → find_partition topic number ps ≡ some p
    → (p.topic ≡ topic) × (p.number ≡ number)
unfolding find_partition
find_partition_named topic number p [] h = absurd (ground (arith, h))
find_partition_named topic number p (r ∷ ps) h =
    ground (arith, h, find_partition_named topic number p ps, bytes_eq_iff r.topic topic)

pub find-put_partition :
    (topic : Bytes) (number : ℕ) (p q : Partition) (ps : List Partition)
    → find_partition topic number ps ≡ some p
    → q.topic ≡ topic
    → q.number ≡ number
    → find_partition topic number (put_partition topic number q ps) ≡ some q
unfolding find_partition put_partition
find-put_partition topic number p q [] h t n = absurd (ground (arith, h))
find-put_partition topic number p q (r ∷ ps) h t n = ground (
  arith,
  h,
  find-put_partition topic number p q ps,
  bytes_eq_iff r.topic topic,
  bytes_eq_iff q.topic topic,
)

read_last :
    (max_bytes next : ℕ) (ms : List Message) (m : Message)
    → Follows next ms
    → m.offset ≡ next + length ms
    → message_size m ≤ max_bytes
    → read_messages m.offset max_bytes 0 false (ms ++ m ∷ []) ≡ m ∷ []
unfolding read_messages
read_last max_bytes next [] m f o k =
    rw (le→ltb m.offset m.offset (omega arith)) (rw (le→ltb max_bytes (message_size m) k) refl)
read_last max_bytes next (n ∷ ms) m (a, b, f) o k =
    rw (lt→ltb n.offset m.offset (omega (arith, a, o)))
      (read_last max_bytes (next + 1) ms m f (omega (arith, o)) k)

-- A message just added is read alone at its offset.
read_added :
    (every base max_bytes : ℕ) (m : Message) (p q : Partition)
    → IsLog every base p
    → Adds m p q
    → m.offset ≡ p.next_offset
    → p.next_offset + 1 < 2 ^ 64
    → message_size m ≤ max_bytes
    → read_partition m.offset max_bytes q ≡ done (m ∷ [])
unfolding read_partition
read_added every base max_bytes m p q v a o l k =
    let (f, e) = Chain-Follows every base p.next_offset (segments p) (IsLog-Chain every base p v) in
    rw (le→ltb q.next_offset m.offset (omega (arith, o, l, a.counted)))
      (rw a.added (ap done (read_last max_bytes base (messages_of (segments p)) m f (o ∙ e) k)))

-- By the branches of the test for an error.
stored :
    (x : Option Error) (m n : Message) (e after : StorageEngine)
    → Path
        (Outcome Message × StorageEngine)
        (elim x [ none ↦ (done m, e) | some y ↦ (failed (some y), e) ])
        (done n, after)
    → (x ≡ none) × (m ≡ n) × (e ≡ after)
stored none m n e after h = (refl, ground (arith, h), ground (arith, h))
stored (some y) m n e after h = absurd (ground (arith, h))

pub append_to_lem :
    (system : System) (m n : Message) (p : Partition) (e after : StorageEngine)
    → append_to system m p e ≡ (done n, after)
    → ((append_record e.config system m p).0 ≡ none)
      × (m ≡ n)
      × (after.partitions
          ≡ put_partition p.topic p.number (append_record e.config system m p).1 e.partitions)
unfolding append_to
append_to_lem system m n p e after h =
    let (x, y, z) = stored (append_record e.config system m p).0 m n _ after h in
    (x, y, ap (λ a. a.partitions) (sym z))

append-append_to :
    (opens : Bool) (system : System) (timestamp number : ℕ) (topic key value : Bytes)
    (e after : StorageEngine) (p : Partition) (m : Message)
    → find_partition topic number e.partitions ≡ some p
    → append opens system timestamp topic number key value e ≡ (done m, after)
    → (is_storable topic key value ≡ true)
      × (append_to system
            (record { offset = p.next_offset; timestamp_ms = timestamp; key = key; value = value })
            p
            (record e { opened = true })
          ≡ (done m, after))
unfolding append get_partition append_found
append-append_to opens system timestamp number topic key value e after p m f h =
    elim (Bool-cases (is_storable topic key value)) [
      | inr bad ↦ absurd (ground (arith, h, bad))
      | inl good ↦ elim (Bool-cases (e.opened || opens)) [
        | inr shut ↦ absurd (ground (arith, h, good, shut))
        | inl usable ↦
            let run : append opens system timestamp topic number key value e
                ≡ append_to system
                    (record {
                      offset = p.next_offset;
                      timestamp_ms = timestamp;
                      key = key;
                      value = value;
                    })
                    p (record e { opened = true }) =
              rw good (rw usable (rw (f, get_partition) refl)) in
            (good, sym run ∙ h)
      ]
    ]

nonempty : (value : Bytes) → is_empty value ≡ false → 0 < length value
nonempty [] h = absurd (ground (arith, h))
nonempty (b ∷ bs) h = omega arith

append-Adds :
    (opens : Bool) (system : System) (timestamp number : ℕ) (topic key value : Bytes)
    (e after : StorageEngine) (p : Partition) (m : Message)
    → find_partition topic number e.partitions ≡ some p
    → append opens system timestamp topic number key value e ≡ (done m, after)
    → (q : Partition) × (find_partition topic number after.partitions ≡ some q)
      × Adds m p q
      × (m.offset ≡ p.next_offset)
      × (is_valid_topic_name topic ≡ true)
      × (0 < message_size m)
      × (record { offset = p.next_offset; timestamp_ms = timestamp; key = key; value = value } ≡ m)
unfolding is_storable
append-Adds opens system timestamp number topic key value e after p m f h =
    let (good, t) =
      append-append_to opens system timestamp number topic key value e after p m f h in
    let n : Message = record {
      offset = p.next_offset;
      timestamp_ms = timestamp;
      key = key;
      value = value;
    } in
    let (none_yet, same, put) = append_to_lem system n m p (record e { opened = true }) after t in
    let (named, numbered) = find_partition_named topic number p e.partitions f in
    let q = (append_record e.config system n p).1 in
    let a = append_record-Adds e.config system n p none_yet in
    let placed : after.partitions ≡ put_partition topic number q e.partitions =
      put
      ∙ ap (λ x. put_partition x p.number q e.partitions) named
      ∙ ap (λ x. put_partition topic x q e.partitions) numbered in
    (
      q,
      ap (find_partition topic number) placed
          ∙ find-put_partition topic number p q e.partitions f (a.same_topic ∙ named)
              (a.same_number ∙ numbered),
      subst (λ k. Adds k p q) same a,
      ap (λ k. k.offset) (sym same),
      ground (arith, good),
      omega (arith, ap message_size same, nonempty value (ground (arith, good))),
      same,
    )

-- A partition is in memory with its messages numbered in order over its segments (`IsLog`), and its next
-- offset is short of the 64-bit limit. The message of a successful append has the key, the value and the
-- timestamp that were given, and the next offset of the partition. Reading at that offset returns just this
-- message, if the limit leaves room for it, and the next offset is then the one behind it.
pub append-read :
    (opens again : Bool) (system : System) (timestamp number every base max_bytes clock : ℕ)
    (topic key value : Bytes) (e after : StorageEngine) (p : Partition) (m : Message)
    → find_partition topic number e.partitions ≡ some p
    → IsLog every base p
    → p.next_offset + 1 < 2 ^ 64
    → append opens system timestamp topic number key value e ≡ (done m, after)
    → message_size m ≤ max_bytes
    → ((m.key ≡ key)
        × (m.value ≡ value)
        × (m.timestamp_ms ≡ timestamp)
        × (m.offset ≡ p.next_offset))
      × ((read again clock topic number m.offset max_bytes after).0 ≡ done (m ∷ []))
      × ((next_offset again clock topic number after).0 ≡ done (m.offset + 1))
unfolding read read_found next_offset next_offset_found get_partition
append-read opens again system timestamp number every base max_bytes clock topic key value e after p
      m f v l h k =
    let (q, found, a, o, valid, positive, same) =
      append-Adds opens system timestamp number topic key value e after p m f h in
    let some_room : (max_bytes == 0) ≡ false = ground (arith, positive, k) in
    (
      (
        ap (λ n. n.key) (sym same),
        ap (λ n. n.value) (sym same),
        ap (λ n. n.timestamp_ms) (sym same),
        o,
      ),
      rw valid (
          rw some_room
            (rw (found, get_partition) (read_added every base max_bytes m p q v a o l k))),
      rw valid (rw (found, get_partition) (ap done (a.counted ∙ omega (arith, o, l)))),
    )
