-- ===== src/Server/Broker/Offsets/Committed.antt =====
-- What a group has committed, it gets back.
use mq_project.Prelude.{
  ℕ, ◌+◌, ◌-◌, ◌%◌, ◌^◌, ◌≤◌, ◌<◌, ◌≡◌, ◌≢◌, inl, inr, refl, sym, ap, ◌∙◌, arith, Bool, false, some,
  List, [], ◌∷◌, ◌++◌, length, ◌==◌, ==_iff, Bool-cases, append_assoc, append-nil, length-append,
  take-append_left, le→ltb,
}
use mq_project.Bytes.{Bytes, be_bytes, put16, put64, get16, get32, get64}
use mq_project.Bytes.Equality.{bytes_eq_refl}
use mq_project.Bytes.Laws.{get16-append, get32-append, get64-append}
use mq_project.Protocol.Status
use mq_project.Protocol.Codec.{Request}
use mq_project.Core.Queues.{Resolved, resolve_partition}
use mq_project.Core.Stores.{ConsumerOffset}
use mq_project.Client.{commit_payload, offset_fetch_payload, read_group_offset}
use mq_project.Server.Replication.{is_nil}
use mq_project.Server.Broker.{Broker}
use mq_project.Server.Broker.Reply.{reply, parsed, advance, substr, route}
use mq_project.Server.Broker.Offsets.{
  is_item, find_offset, put_offset, parse_commit, commit, handle_commit_offset, parse_offset_fetch,
  handle_offset_fetch, offset_or_zero,
}

find-put_offset :
    (group topic : Bytes) (partition offset : ℕ) (items : List ConsumerOffset)
    → offset_or_zero
        (find_offset group topic partition (put_offset group topic partition offset items))
      ≡ offset
unfolding find_offset put_offset
find-put_offset group topic partition offset [] =
    rw (bytes_eq_refl group)
      (rw (bytes_eq_refl topic) (rw ((==_iff partition partition).1 refl) refl))
find-put_offset group topic partition offset (item ∷ items) =
    elim (Bool-cases (is_item group topic partition item)) [
      | inl here ↦ rw here (rw here refl)
      | inr there ↦ rw there (rw there (find-put_offset group topic partition offset items))
    ]

-- The reads of `group` and `partition` from what the client sends.
module _ (group : Bytes) (partition : ℕ) (tail : Bytes) (h : length group < 2 ^ 16)
    (k : partition < 2 ^ 32) where
  abbrev payload : Bytes
  payload = offset_fetch_payload group partition ++ tail

  abbrev head : Bytes
  head = put16 [] (length group % 2 ^ 16)

  small : length group % 2 ^ 16 ≡ length group
  small = omega (arith, h)

  parts : payload ≡ head ++ (group ++ (be_bytes 4 partition ++ tail))
  parts =
      append_assoc (head ++ group) (be_bytes 4 partition) tail
      ∙ append_assoc head group (be_bytes 4 partition ++ tail)

  size_read : get16 payload 0 ≡ some (length group)
  size_read =
      ap (λ p. get16 p 0) parts
      ∙ get16-append [] (length group % 2 ^ 16) (group ++ (be_bytes 4 partition ++ tail))
          (omega arith)
      ∙ ap some small

  total : length payload ≡ 6 + length group + length tail
  total = ap length parts ∙ omega (arith, length-append group (be_bytes 4 partition ++ tail))

  partition_read : get32 payload (2 + length group) ≡ some partition
  partition_read =
      ap (λ p. get32 p (2 + length group))
        (append_assoc (head ++ group) (be_bytes 4 partition) tail)
      ∙ ap (get32 (head ++ group ++ (be_bytes 4 partition ++ tail))) {x = 2 + length group}
          {y = length (head ++ group)} (omega arith)
      ∙ get32-append (head ++ group) partition tail k

  group_read : substr payload 2 (length group) ≡ group
  group_read =
      ap (λ p. substr p 2 (length group)) parts
      ∙ take-append_left group (be_bytes 4 partition ++ tail)

-- A client and a group with names, whose requests fit the format.
pub record IsClient (group : Bytes) (r : Request) : Type 0 where
  pub named : is_nil r.topic ≡ false
  pub some_group : length group ≢ 0
  pub group_fits : length group < 2 ^ 16

not_zero : (n : ℕ) → n ≢ 0 → (n == 0) ≡ false
not_zero n h = ground (arith, h)

parse_offset_fetch_lem :
    (group : Bytes) (partition k : ℕ) (r : Request) (b : Broker)
    → IsClient group r
    → partition < 2 ^ 32
    → r.payload ≡ offset_fetch_payload group partition
    → resolve_partition r.topic partition [] b.queues ≡ Resolved.partition k
    → parse_offset_fetch r b ≡ parsed (group, k)
unfolding parse_offset_fetch route
parse_offset_fetch_lem group partition k r b v p e found =
    let e' : r.payload ≡ offset_fetch_payload group partition ++ [] =
      e ∙ sym (append-nil (offset_fetch_payload group partition)) in
    let long : length r.payload ≡ 6 + length group =
      ap length e' ∙ total group partition [] v.group_fits p ∙ omega arith in
    rw v.named (
      rw long (
        rw (le→ltb (6 + length group) 6 (omega arith)) (
          rw (ap (λ x. get16 x 0) e' ∙ size_read group partition [] v.group_fits p) (
            rw (not_zero (length group) v.some_group) (
              rw ((==_iff (6 + length group) (6 + length group)).1 refl) (
                rw
                  (ap (λ x. get32 x (2 + length group)) e'
                    ∙ partition_read group partition [] v.group_fits p)
                  (rw found (
                    ap (λ g. parsed (g, k))
                      (ap (λ x. substr x 2 (length group)) e'
                        ∙ group_read group partition [] v.group_fits p)))))))))

advance_lem :
    (input : Bytes) (position count : ℕ)
    → position + count ≤ length input
    → advance input position count ≡ some (position + count)
unfolding advance
advance_lem input position count h =
    rw (le→ltb (length input) position (omega arith))
      (rw (le→ltb (length input - position) count (omega arith)) refl)

parse_commit_lem :
    (group : Bytes) (partition offset k : ℕ) (r : Request) (b : Broker)
    → IsClient group r
    → partition < 2 ^ 32
    → offset < 2 ^ 64
    → r.payload ≡ commit_payload group partition offset
    → resolve_partition r.topic partition [] b.queues ≡ Resolved.partition k
    → parse_commit r b ≡ parsed (group, k, offset)
unfolding parse_commit route
parse_commit_lem group partition offset k r b v p o e found =
    let tail : Bytes = be_bytes 8 offset in
    let long : length r.payload ≡ 14 + length group =
      ap length e ∙ total group partition tail v.group_fits p ∙ omega arith in
    let offset_read : get64 r.payload (2 + length group + 4) ≡ some offset =
      ap (λ x. get64 x (2 + length group + 4))
        (e ∙ ap (λ t. offset_fetch_payload group partition ++ t) (sym (append-nil tail)))
      ∙ ap (get64 (offset_fetch_payload group partition ++ (tail ++ []))) {x = 2 + length group + 4}
          {y = length (offset_fetch_payload group partition)}
          (omega (arith, length-append group (be_bytes 4 partition)))
      ∙ get64-append (offset_fetch_payload group partition) offset [] o in
    rw (advance_lem r.payload 0 2 (omega (arith, long))) (
      rw (ap (λ x. get16 x 0) e ∙ size_read group partition tail v.group_fits p) (
        rw (advance_lem r.payload 2 (length group) (omega (arith, long))) (
          rw (advance_lem r.payload (2 + length group) 4 (omega (arith, long))) (
            rw (advance_lem r.payload (2 + length group + 4) 8 (omega (arith, long))) (
              rw ((==_iff (2 + length group + 4 + 8) (length r.payload)).1 (omega (arith, long))) (
                rw
                  (ap (λ x. get32 x (2 + length group)) e
                    ∙ partition_read group partition tail v.group_fits p)
                  (rw offset_read (
                    rw (not_zero (length group) v.some_group) (
                      rw v.named (
                        rw found (
                          ap (λ g. parsed (g, k, offset))
                            (ap (λ x. substr x 2 (length group)) e
                              ∙ group_read group partition tail v.group_fits p))))))))))))

-- What a client commits for its group, topic and partition, it gets back when it asks for the offset of
-- the same group, topic and partition, whether the file could be written or not.
pub commit-read_group_offset :
    (works : Bool) (group : Bytes) (partition offset k : ℕ) (r q : Request) (b : Broker)
    → IsClient group r
    → partition < 2 ^ 32
    → offset < 2 ^ 64
    → resolve_partition r.topic partition [] b.queues ≡ Resolved.partition k
    → r.payload ≡ commit_payload group partition offset
    → q.topic ≡ r.topic
    → q.payload ≡ offset_fetch_payload group partition
    → let after = (handle_commit_offset works r b).1 in
      (answer : Bytes) × (handle_offset_fetch q after ≡ (reply Status.ok answer, after))
      × (read_group_offset answer ≡ some offset)
unfolding handle_commit_offset commit handle_offset_fetch read_group_offset
commit-read_group_offset works group partition offset k r q b v p o found e same f =
    let after = (commit works group r.topic k offset b).1 in
    let w : IsClient group q = record {
      named = ap is_nil same ∙ v.named;
      some_group = v.some_group;
      group_fits = v.group_fits;
    } in
    rw (parse_commit_lem group partition offset k r b v p o e found) (
      rw
        (parse_offset_fetch_lem group partition k q after w p f
          (ap (λ t. resolve_partition t partition [] b.queues) same ∙ found))
        (rw same (
          rw (find-put_offset group r.topic k offset b.consumer_offsets) (
            put64 [] offset,
            refl,
            ap (λ t. get64 t 0) (sym (append-nil (be_bytes 8 offset)))
                ∙ get64-append [] offset [] o,
          ))))
