-- ===== src/Server/Broker/Groups/Mismatch.antt =====
-- Requests to join that are refused.
use mq_project.Prelude.{
  ℕ, ◌+◌, ◌*◌, ◌%◌, ◌^◌, ◌≤◌, ◌<◌, ◌≡◌, ◌≢◌, refl, sym, ap, ap₂, subst, ◌∙◌, arith, false, some,
  List, [], ◌∷◌, ◌++◌, length, ◌==◌, append_assoc, length-append, le→ltb, ◌/◌,
}
use mq_project.Bytes.{Bytes, put16, get16}
use mq_project.Client.{put_topics, join_payload}
use mq_project.Bytes.Laws.{get16-append}
use mq_project.Protocol.Status
use mq_project.Protocol.Codec.{Request}
use mq_project.Server.Broker.{Broker}
use mq_project.Server.Broker.Reply.{reply, stopped}
use mq_project.Server.Broker.Groups.TopicLoop.{
  not_zero, put_topics-append, AreNames, Ends, refuses, reads, parse_topics-Ends,
}
use mq_project.Server.Broker.Groups.{parse_topics, parse_join, handle_join_group}

not_same : (m n : ℕ) → m < n → (m == n) ≡ false
not_same m n h = ground (arith, h)

-- A payload whose sizes are read, and whose topics cannot be as many as it says, is refused.
parse_join_stops :
    (payload : Bytes) (group_size member_size topic_count : ℕ) (topics : List Bytes)
    → get16 payload 0 ≡ some group_size
    → get16 payload (2 + group_size) ≡ some member_size
    → get16 payload (4 + group_size) ≡ some topic_count
    → group_size ≢ 0
    → member_size ≢ 0
    → 6 + group_size + member_size ≤ length payload
    → topic_count ≢ length topics
    → Ends topic_count topics
        (length payload)
        (parse_topics topic_count payload (6 + group_size + member_size))
    → parse_join payload ≡ stopped Status.bad_request
unfolding parse_join
parse_join_stops payload gs ms tc topics e f g z w l d ends =
    rw (le→ltb (length payload) 6 (omega (arith, l))) (
      rw e (
        rw (le→ltb (length payload) (2 + gs + 4) (omega (arith, l))) (
          rw f (
            rw g (
              rw (not_zero gs z) (
                rw (not_zero ms w) (
                  rw (le→ltb (length payload) (6 + gs + ms) l) (elim ends [
                    | refuses h ↦ rw h refl
                    | reads ts end h k ↦ rw h (rw (not_same end (length payload) (k d)) refl)
                  ]))))))))

-- What `joinGroup` sends for the member `x ∷ y ∷ name`.
module _ (group name : Bytes) (topics : List Bytes) (x y : ℕ) (gl : length group < 2 ^ 16)
    (nl : 2 + length name < 2 ^ 16) (xl : x < 256) (yl : y < 256) where
  abbrev member : Bytes
  member = x ∷ y ∷ name

  abbrev pair_of : ℕ → Bytes
  pair_of v = (v / 256 % 256) ∷ (v % 256) ∷ []

  abbrev first : Bytes
  first = put16 [] (length group % 2 ^ 16) ++ group

  abbrev before : Bytes
  before = put16 (put16 first (length member % 2 ^ 16) ++ member) (length topics % 2 ^ 16)

  split :
      (tail : Bytes) × (put_topics before topics
        ≡ first ++ (pair_of (length member % 2 ^ 16) ++ (member ++ tail)))
  split =
      let (tail, e) = put_topics-append before topics in
      let counted = pair_of (length topics % 2 ^ 16) ++ tail in
      let sized = pair_of (length member % 2 ^ 16) in
      (
        counted,
        e
            ∙ append_assoc ((first ++ sized) ++ member) (pair_of (length topics % 2 ^ 16)) tail
            ∙ append_assoc (first ++ sized) member counted
            ∙ append_assoc first sized (member ++ counted),
      )

  group_read : get16 (put_topics before topics) 0 ≡ some (length group)
  group_read =
      let (tail, e) = split in
      ap (λ p. get16 p 0)
        (e
          ∙ append_assoc (put16 [] (length group % 2 ^ 16)) group
              (pair_of (length member % 2 ^ 16) ++ (member ++ tail)))
      ∙ get16-append [] (length group % 2 ^ 16)
          (group ++ (pair_of (length member % 2 ^ 16) ++ (member ++ tail))) (omega arith)
      ∙ ap some (omega (arith, gl))

  member_read : get16 (put_topics before topics) (2 + length group) ≡ some (length member)
  member_read =
      let (tail, e) = split in
      ap (λ p. get16 p (2 + length group)) e
      ∙ ap (get16 (first ++ (pair_of (length member % 2 ^ 16) ++ (member ++ tail))))
          {x = 2 + length group} {y = length first} (omega arith)
      ∙ get16-append first (length member % 2 ^ 16) (member ++ tail) (omega arith)
      ∙ ap some (omega (arith, nl))

  count_read : get16 (put_topics before topics) (4 + length group) ≡ some (x * 256 + y)
  count_read =
      let (tail, e) = split in
      let v = x * 256 + y in
      let start = first ++ pair_of (length member % 2 ^ 16) in
      ap (λ p. get16 p (4 + length group))
        (e
          ∙ sym (append_assoc first (pair_of (length member % 2 ^ 16)) (member ++ tail))
          ∙ ap₂ (λ c d. start ++ (c ∷ d ∷ (name ++ tail))) {x = x} {y = v / 256 % 256}
              (omega (arith, xl, yl)) (omega (arith, yl)))
      ∙ ap (get16 (start ++ (pair_of v ++ (name ++ tail)))) {x = 4 + length group}
          {y = length start} (omega (arith, length-append first (pair_of (length member % 2 ^ 16))))
      ∙ get16-append start v (name ++ tail) (omega (arith, xl, yl))

  length-before : length before ≡ 6 + length group + length member
  length-before = omega (
    arith,
    length-append ((first ++ pair_of (length member % 2 ^ 16)) ++ member)
        (pair_of (length topics % 2 ^ 16)),
    length-append (first ++ pair_of (length member % 2 ^ 16)) member,
    length-append first (pair_of (length member % 2 ^ 16)),
  )

  parse_join_payload :
      length group ≢ 0
      → AreNames topics
      → x * 256 + y ≢ length topics
      → parse_join (put_topics before topics) ≡ stopped Status.bad_request
  parse_join_payload g v d =
      let (tail, e) = put_topics-append before topics in
      parse_join_stops (put_topics before topics) (length group) (length member) (x * 256 + y)
        topics group_read member_read count_read g (λ h. absurd (omega (arith, h)))
        (omega (arith, ap length e, length-append before tail, length-before)) d
        (subst
          (λ p.
            Ends (x * 256 + y) topics (length (put_topics before topics))
              (parse_topics (x * 256 + y) (put_topics before topics) p))
          length-before (parse_topics-Ends (x * 256 + y) before topics v))

-- A request to join as the client sends it, whose number of topics is not the number that the first two
-- bytes of the member's name make, is refused.
pub join_payload_refused :
    (now x y : ℕ) (group name : Bytes) (topics : List Bytes) (r : Request) (b : Broker)
    → length group ≢ 0
    → length group < 2 ^ 16
    → 2 + length name < 2 ^ 16
    → x < 256
    → y < 256
    → AreNames topics
    → x * 256 + y ≢ length topics
    → r.payload ≡ join_payload group (x ∷ y ∷ name) topics
    → handle_join_group now r b ≡ (reply Status.bad_request [], b)
unfolding handle_join_group join_payload
join_payload_refused now x y group name topics r b g gl nl xl yl v d e =
    rw (ap parse_join e ∙ parse_join_payload group name topics x y gl nl xl yl g v d) refl
