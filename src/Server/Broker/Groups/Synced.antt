-- ===== src/Server/Broker/Groups/Synced.antt =====
-- What a member of a group makes of the answer to its request for its partitions.
use mq_project.Prelude.{
  ℕ, zero, suc, ◌+◌, ◌%◌, ◌^◌, ◌≤◌, ◌<◌, ◌≡◌, refl, sym, ap, ap₂, ◌∙◌, arith, Bool, true, false,
  Option, none, some, List, [], ◌∷◌, ◌++◌, length, take, drop, ltb, ◌==◌, ==_iff, map, append_assoc,
  length-append, take-append_left, drop-append_left, take_all, le→ltb, if◌then◌else◌,
}
use mq_project.Bytes.{Bytes, All, put16, put32, get16, get32}
use mq_project.Client.{◌>>=◌}
use mq_project.Bytes.Laws.{get16-append, get32-append}
use mq_project.Protocol.Status
use mq_project.Protocol.Codec.{Request}
use mq_project.Core.Queues.{TopicMetadata}
use mq_project.Core.Groups.{GroupAssignment, sync}
use mq_project.Client.Producer.{TopicInfo, read_topic_list}
use mq_project.Client.Membership.{sync_payload, read_assignments, read_sync_answer}
use mq_project.Server.Broker.{Broker}
use mq_project.Server.Broker.Reply.{reply, parsed, substr}
use mq_project.Server.Broker.TopicAdmin.{put_topic_list}
use mq_project.Server.Broker.TopicAdmin.Listing.{
  IsListable, info_of, read-put_topic_list, put_topic_list-append,
}
use mq_project.Server.Broker.Groups.{
  put_assignments, assignments_payload, parse_sync, handle_sync_group,
}

-- An assignment has the format of a topic in the list of topics.
abbrev pub listed : GroupAssignment → TopicMetadata
listed a = record { name = a.topic; partition_count = a.partition }

abbrev assignment_of : TopicInfo → GroupAssignment
assignment_of t = record { topic = t.name; partition = t.partitions }

abbrev assignments_of : Option (List TopicInfo × ℕ) → Option (List GroupAssignment × ℕ)
assignments_of none = none
assignments_of (some (infos, end)) = some (map assignment_of infos, end)

put_assignments-listed :
    (payload : Bytes) (all : List GroupAssignment)
    → put_assignments payload all ≡ put_topic_list payload (map listed all)
unfolding put_assignments put_topic_list
put_assignments-listed payload [] = refl
put_assignments-listed payload (a ∷ all) =
    put_assignments-listed (put32 (put16 payload (length a.topic % 2 ^ 16) ++ a.topic) a.partition)
      all

-- Both loops take the same steps.
same_read :
    (read : Option ℕ) (f : ℕ → Option (List GroupAssignment × ℕ))
    (g : ℕ → Option (List TopicInfo × ℕ))
    → ((n : ℕ) → f n ≡ assignments_of (g n))
    → (read >>= f) ≡ assignments_of (read >>= g)
same_read none f g e = refl
same_read (some n) f g e = e n

same_test :
    (short : Bool) (x : Option (List GroupAssignment × ℕ)) (y : Option (List TopicInfo × ℕ))
    → x ≡ assignments_of y
    → (if short then none else x) ≡ assignments_of (if short then none else y)
same_test true x y e = refl
same_test false x y e = e

same_rest :
    (name : Bytes) (partition : ℕ) (all : Option (List GroupAssignment × ℕ))
    (infos : Option (List TopicInfo × ℕ))
    → all ≡ assignments_of infos
    → (do
      (assignments, end) ← all
      some (record { topic = name; partition = partition } ∷ assignments, end))
      ≡ assignments_of (do
        (topics, end) ← infos
        some (record { name = name; partitions = partition } ∷ topics, end))
same_rest name partition all none e = rw e refl
same_rest name partition all (some (topics, end)) e = rw e refl

read_assignments-listed :
    (n position : ℕ) (payload : Bytes)
    → read_assignments n position payload ≡ assignments_of (read_topic_list n position payload)
unfolding read_assignments read_topic_list
read_assignments-listed zero position payload = refl
read_assignments-listed (suc n) position payload =
    same_test (ltb (length payload) (position + 2)) _ _ (
      same_read (get16 payload position) _ _ λ size.
        same_test (ltb (length payload) (position + 2 + size + 4)) _ _ (
          same_read (get32 payload (position + 2 + size)) _ _ λ partition.
            same_rest (take size (drop (position + 2) payload)) partition _ _
              (read_assignments-listed n (position + 2 + size + 4) payload)))

assignment_of-listed :
    (all : List GroupAssignment) → map assignment_of (map info_of (map listed all)) ≡ all
assignment_of-listed [] = refl
assignment_of-listed (a ∷ all) = ap (λ rest. a ∷ rest) (assignment_of-listed all)

length-listed : (all : List GroupAssignment) → length (map listed all) ≡ length all
length-listed [] = refl
length-listed (a ∷ all) = ap suc (length-listed all)

-- The payload of an answer is read as it was written.
read-assignments_payload :
    (all : List GroupAssignment)
    → All IsListable (map listed all)
    → length all < 2 ^ 32
    → read_sync_answer (assignments_payload all) ≡ some all
unfolding read_sync_answer
read-assignments_payload all v fits =
    let ts = map listed all in
    let pre : Bytes = put32 [] (length all % 2 ^ 32) in
    let payload : Bytes = put_assignments pre all in
    let written : payload ≡ put_topic_list pre ts = put_assignments-listed pre all in
    let (tail, e) = put_topic_list-append pre ts in
    let long : length payload ≡ 4 + length tail = omega (arith, ap length (written ∙ e)) in
    let count_read : get32 payload 0 ≡ some (length all) =
      ap (λ q. get32 q 0) (written ∙ e)
      ∙ get32-append [] (length all % 2 ^ 32) tail (omega arith)
      ∙ ap some (omega (arith, fits)) in
    let loop : read_assignments (length all) 4 payload ≡ some (all, length payload) =
      read_assignments-listed (length all) 4 payload
      ∙ ap (λ p. assignments_of (read_topic_list (length all) 4 p)) written
      ∙ ap (λ n. assignments_of (read_topic_list n 4 (put_topic_list pre ts)))
          (sym (length-listed all))
      ∙ ap assignments_of (read-put_topic_list pre ts v)
      ∙ ap₂ (λ xs n. some (xs, n)) (assignment_of-listed all) (ap length (sym written)) in
    rw (le→ltb (length payload) 4 (omega (arith, long)))
      (rw count_read (rw loop (rw ((==_iff (length payload) (length payload)).1 refl) refl)))

not_zero : (n : ℕ) → 1 ≤ n → (n == 0) ≡ false
not_zero n positive = ground arith

module _ (group member : Bytes) (gl : length group < 2 ^ 16) (ml : length member < 2 ^ 16) where
  abbrev payload : Bytes
  payload = sync_payload group member

  abbrev first : Bytes
  first = put16 [] (length group % 2 ^ 16) ++ group

  abbrev member_part : Bytes
  member_part = put16 [] (length member % 2 ^ 16) ++ member

  parts : payload ≡ put16 [] (length group % 2 ^ 16) ++ (group ++ member_part)
  parts = simp (append_assoc)

  group_size_read : get16 payload 0 ≡ some (length group)
  group_size_read =
      ap (λ p. get16 p 0) parts
      ∙ get16-append [] (length group % 2 ^ 16) (group ++ member_part) (omega arith)
      ∙ ap some (omega (arith, gl))

  length-payload : length payload ≡ 4 + length group + length member
  length-payload = ap length parts ∙ omega (arith, length-append group member_part)

  member_size_read : get16 payload (2 + length group) ≡ some (length member)
  member_size_read =
      ap (get16 payload) {x = 2 + length group} {y = length first} (omega arith)
      ∙ ap (λ p. get16 p (length first)) {x = payload} {y = first ++ member_part}
          (simp (append_assoc))
      ∙ get16-append first (length member % 2 ^ 16) member (omega arith)
      ∙ ap some (omega (arith, ml))

  group_read : substr payload 2 (length group) ≡ group
  group_read = ap (λ p. substr p 2 (length group)) parts ∙ take-append_left group member_part

  member_read : substr payload (4 + length group) (length member) ≡ member
  member_read =
      ap (λ n. take (length member) (drop n payload)) {x = 4 + length group}
        {y = length (put16 first (length member % 2 ^ 16))}
        (omega (arith, length-append first (put16 [] (length member % 2 ^ 16))))
      ∙ ap (take (length member)) (drop-append_left (put16 first (length member % 2 ^ 16)) member)
      ∙ take_all (length member) member (omega arith)

  parse-sync_payload :
      1 ≤ length group → 1 ≤ length member → parse_sync payload ≡ parsed (group, member)
  unfolding parse_sync
  parse-sync_payload group_some member_some =
      rw (le→ltb (length payload) 4 (omega (arith, length-payload))) (
        rw group_size_read (
          rw (le→ltb (length payload) (2 + length group + 2) (omega (arith, length-payload))) (
            rw member_size_read (
              rw (not_zero (length group) group_some) (
                rw (not_zero (length member) member_some) (
                  rw
                    ((==_iff (4 + length group + length member) (length payload)).1
                      (sym length-payload))
                    (rw group_read (rw member_read refl))))))))

-- A member asks for its partitions; the group and the member have names of 1 to 65535 bytes, the coordinator
-- has the member's assignment, and its topics and partitions fit the format. The answer is `kOk`, nothing
-- changes, and the client reads from it the assignment, in order.
pub read-handle_sync_group :
    (r : Request) (b : Broker) (group member : Bytes) (all : List GroupAssignment)
    → r.payload ≡ sync_payload group member
    → 1 ≤ length group
    → length group < 2 ^ 16
    → 1 ≤ length member
    → length member < 2 ^ 16
    → sync group member b.groups ≡ some all
    → All IsListable (map listed all)
    → length all < 2 ^ 32
    → (payload : Bytes) × (handle_sync_group r b ≡ (reply Status.ok payload, b))
      × (read_sync_answer payload ≡ some all)
unfolding handle_sync_group
read-handle_sync_group r b group member all sent g gl m ml synced v fits = (
  assignments_payload all,
  rw sent (rw (parse-sync_payload group member gl ml g m) (rw synced refl)),
  read-assignments_payload all v fits,
)
