-- ===== src/Server/Serving/Append.antt =====
-- `Append` of a leader, as the follower reads it.
use mq_project.Prelude.{
  ℕ, ◌+◌, ◌/◌, ◌%◌, ◌^◌, ◌≤◌, ◌<◌, ◌≡◌, refl, ap, sym, ◌∙◌, arith, true, false, some, List, [], ◌∷◌,
  ◌++◌, length, take, drop, ltb, leb, ◌==◌, ==_iff, le→ltb, le→leb, length-append, append_assoc,
  ◌&&◌, take-append_left,
}
use mq_project.Bytes.{Bytes, All, be_bytes, put16, put32, put64, get16, get32, get64}
use mq_project.Bytes.Laws.{get16-append, get32-append, get64-append}
use mq_project.Protocol.Status
use mq_project.Protocol.Flag
use mq_project.Protocol.Codec.{Request}
use mq_project.Core.Storage.{Message}
use mq_project.Core.Storage.Recovery.{IsMessage}
use mq_project.Server.Broker.{Broker, has_flag}
use mq_project.Server.Broker.Reply.{parsed, route}
use mq_project.Server.Broker.Entries.{candidate_count, parse_head, parse_entries, parse_append}
use mq_project.Server.ReplicationClient.Append.{put_entries, append_head, append_payload}
use mq_project.Server.Serving.Entries.{put_entries-append, parse-put_entries}

-- The ranges of what a leader sends.
pub record IsAppend (term commit prev_index prev_term partition : ℕ) (leader_id : Bytes)
    (ms : List Message) : Type 0 where
  pub term_fits : term < 2 ^ 64
  pub commit_fits : commit < 2 ^ 64
  pub prev_index_fits : prev_index < 2 ^ 64
  pub prev_term_fits : prev_term < 2 ^ 64
  pub partition_fits : partition < 2 ^ 32
  pub some_leader : 0 < length leader_id
  pub leader_fits : length leader_id ≤ 65535
  pub some_messages : 0 < length ms
  pub messages_fit : length ms ≤ 10000
  pub legal : All IsMessage ms

-- The parts of a payload, with `tail` for the messages.
module _ (term commit prev_index prev_term partition count : ℕ) (leader_id tail : Bytes) where
  abbrev size : ℕ
  size = length leader_id % 2 ^ 16

  abbrev timed : Bytes
  timed = put64 (put64 [] term) commit

  abbrev named : Bytes
  named = put16 timed size ++ leader_id

  abbrev headed : Bytes
  headed = put64 (put64 named prev_index) prev_term

  abbrev counted : Bytes
  counted = put32 (put32 headed partition) count

  abbrev all : Bytes
  all = counted ++ tail

  abbrev behind_name : Bytes
  behind_name =
      be_bytes 8 prev_index
      ++ (be_bytes 8 prev_term ++ (be_bytes 4 partition ++ (be_bytes 4 count ++ tail)))

  abbrev behind_commit : Bytes
  behind_commit = (size / 256 % 256) ∷ (size % 256) ∷ (leader_id ++ behind_name)

  length-named : length named ≡ 18 + length leader_id
  length-named = omega arith

  length-headed : length headed ≡ 34 + length leader_id
  length-headed = omega (
    arith,
    length-named,
    length-append (put64 named prev_index) (be_bytes 8 prev_term),
    length-append named (be_bytes 8 prev_index),
  )

  length-counted : length counted ≡ 42 + length leader_id
  length-counted = omega (
    arith,
    length-headed,
    length-append (put32 headed partition) (be_bytes 4 count),
    length-append headed (be_bytes 4 partition),
  )

  length-all : length all ≡ 42 + length leader_id + length tail
  length-all = omega (arith, length-counted, length-append counted tail)

  term_read : term < 2 ^ 64 → get64 all 0 ≡ some term
  term_read t =
      ap (λ p. get64 p 0) {x = all} {y = be_bytes 8 term ++ (be_bytes 8 commit ++ behind_commit)}
        (simp (append_assoc))
      ∙ get64-append [] term (be_bytes 8 commit ++ behind_commit) t

  commit_read : commit < 2 ^ 64 → get64 all 8 ≡ some commit
  commit_read t =
      ap (λ p. get64 p 8) {x = all} {y = put64 [] term ++ (be_bytes 8 commit ++ behind_commit)}
        (simp (append_assoc))
      ∙ get64-append (put64 [] term) commit behind_commit t

  size_read : length leader_id ≤ 65535 → get16 all 16 ≡ some (length leader_id)
  size_read t =
      ap (λ p. get16 p 16) {x = all} {y = timed ++ behind_commit} (simp (append_assoc))
      ∙ get16-append timed size (leader_id ++ behind_name) (omega arith)
      ∙ ap some (omega (arith, t))

  leader_read : take (length leader_id) (drop 18 all) ≡ leader_id
  leader_read =
      ap (λ p. take (length leader_id) (drop 18 p)) {x = all}
        {y = put16 timed size ++ (leader_id ++ behind_name)} (simp (append_assoc))
      ∙ take-append_left leader_id behind_name

  prev_index_read : prev_index < 2 ^ 64 → get64 all (18 + length leader_id) ≡ some prev_index
  prev_index_read t =
      ap (get64 all) (sym length-named)
      ∙ ap (λ p. get64 p (length named)) {x = all} {y = named ++ behind_name} (simp (append_assoc))
      ∙ get64-append named prev_index _ t

  prev_term_read : prev_term < 2 ^ 64 → get64 all (18 + length leader_id + 8) ≡ some prev_term
  prev_term_read t =
      ap (get64 all) {x = 18 + length leader_id + 8} {y = length (put64 named prev_index)}
        (omega (arith, length-named, length-append named (be_bytes 8 prev_index)))
      ∙ ap (λ p. get64 p (length (put64 named prev_index))) {x = all}
          {y = put64 named prev_index
            ++ (be_bytes 8 prev_term ++ (be_bytes 4 partition ++ (be_bytes 4 count ++ tail)))}
          (simp (append_assoc))
      ∙ get64-append (put64 named prev_index) prev_term _ t

  partition_read : partition < 2 ^ 32 → get32 all (18 + length leader_id + 16) ≡ some partition
  partition_read t =
      ap (get32 all) {x = 18 + length leader_id + 16} {y = length headed}
        (omega (arith, length-headed))
      ∙ ap (λ p. get32 p (length headed)) {x = all}
          {y = headed ++ (be_bytes 4 partition ++ (be_bytes 4 count ++ tail))} (simp (append_assoc))
      ∙ get32-append headed partition _ t

  count_read : count < 2 ^ 32 → get32 all (18 + length leader_id + 20) ≡ some count
  count_read t =
      ap (get32 all) {x = 18 + length leader_id + 20} {y = length (put32 headed partition)}
        (omega (arith, length-headed, length-append headed (be_bytes 4 partition)))
      ∙ ap (λ p. get32 p (length (put32 headed partition))) {x = all}
          {y = put32 headed partition ++ (be_bytes 4 count ++ tail)} (simp (append_assoc))
      ∙ get32-append (put32 headed partition) count tail t

-- What stands in front of the messages.
parse_head_lem :
    (term commit prev_index prev_term partition : ℕ) (leader_id tail : Bytes) (ms : List Message)
    → IsAppend term commit prev_index prev_term partition leader_id ms
    → parse_head (all term commit prev_index prev_term partition (length ms) leader_id tail)
      ≡ parsed (record {
        term = term;
        commit = commit;
        leader_id = leader_id;
        prev_log_index = prev_index;
        prev_log_term = prev_term;
        position = 18 + length leader_id + 16;
      })
unfolding parse_head candidate_count
parse_head_lem term commit prev_index prev_term partition leader_id tail ms v =
    let count = length ms in
    let payload : Bytes = all term commit prev_index prev_term partition count leader_id tail in
    let long = length-all term commit prev_index prev_term partition count leader_id tail in
    let some_size : (length leader_id == 0) ≡ false = ground (arith, v.some_leader) in
    let counted_right : (ltb 0 count && leb count 10000) ≡ true =
      ground (arith, v.some_messages, v.messages_fit) in
    rw (le→ltb (length payload) 26 (omega (arith, long))) (
      rw (term_read term commit prev_index prev_term partition count leader_id tail v.term_fits) (
        rw
          (commit_read term commit prev_index prev_term partition count leader_id tail
            v.commit_fits)
          (rw
            (size_read term commit prev_index prev_term partition count leader_id tail
              v.leader_fits)
            (rw some_size (
              rw (le→ltb (length payload) (26 + length leader_id) (omega (arith, long))) (
                rw
                  (
                    le→leb (38 + length leader_id) (length payload) (omega (arith, long)),
                    candidate_count,
                  )
                  (rw
                    (count_read term commit prev_index prev_term partition count leader_id tail
                      (omega (arith, v.messages_fit)))
                    (rw counted_right (
                      rw
                        (prev_index_read term commit prev_index prev_term partition count leader_id
                          tail v.prev_index_fits)
                        (rw
                          (prev_term_read term commit prev_index prev_term partition count leader_id
                            tail v.prev_term_fits)
                          (rw
                            (leader_read term commit prev_index prev_term partition count leader_id
                              tail)
                            refl)))))))))))

-- A follower reads of the payload that `Append` makes of messages just these messages, and
-- the term, the commit index, the leader and the previous entry that it was made of, where all of them are in their
-- ranges and the partition is one of the topic.
pub parse-append_payload :
    (term commit prev_index prev_term partition resolved : ℕ) (leader_id : Bytes)
    (ms : List Message) (r : Request) (b : Broker)
    → IsAppend term commit prev_index prev_term partition leader_id ms
    → r.payload ≡ append_payload partition ms term commit leader_id prev_index prev_term
    → has_flag r.flags Flag.replication ≡ true
    → has_flag r.flags Flag.replication_term ≡ true
    → route Status.invalid_offset r.topic partition [] b.queues ≡ parsed resolved
    → parse_append r b
      ≡ parsed (
        record {
          term = term;
          commit = commit;
          leader_id = leader_id;
          prev_log_index = prev_index;
          prev_log_term = prev_term;
          position = 18 + length leader_id + 16;
        },
        resolved,
        ms,
      )
unfolding parse_append append_payload append_head
parse-append_payload term commit prev_index prev_term partition resolved leader_id ms r b v e f g
      routed =
    let count = length ms in
    let start : Bytes = counted term commit prev_index prev_term partition count leader_id [] in
    let (tail, added) = put_entries-append start ms in
    let payload : Bytes = all term commit prev_index prev_term partition count leader_id tail in
    let long = length-all term commit prev_index prev_term partition count leader_id tail in
    let same : r.payload ≡ payload =
      e
      ∙ ap
          (λ n.
            put_entries
              (put32
                (put32 (headed term commit prev_index prev_term partition count leader_id [])
                  partition)
                n)
              ms)
          {x = count % 2 ^ 32} {y = count} (omega (arith, v.messages_fit))
      ∙ added in
    let entries : parse_entries count payload (18 + length leader_id + 16 + 8)
        ≡ parsed (ms, length payload) =
      ap (parse_entries count payload) {x = 18 + length leader_id + 16 + 8} {y = length start} (
        omega (arith, length-counted term commit prev_index prev_term partition count leader_id []))
      ∙ ap (λ p. parse_entries count p (length start)) (sym added)
      ∙ parse-put_entries start ms v.legal
      ∙ ap (λ p. parsed (ms, length p)) added in
    let some_count : (count == 0) ≡ false = ground (arith, v.some_messages) in
    rw f (
      rw same (
        rw (le→ltb (length payload) 8 (omega (arith, long))) (
          rw g (
            rw (parse_head_lem term commit prev_index prev_term partition leader_id tail ms v) (
              rw (le→ltb (length payload) (18 + length leader_id + 16 + 8) (omega (arith, long))) (
                rw
                  (partition_read term commit prev_index prev_term partition count leader_id tail
                    v.partition_fits)
                  (rw
                    (ap (get32 payload) {x = 18 + length leader_id + 16 + 4}
                        {y = 18 + length leader_id + 20} (omega arith)
                      ∙ count_read term commit prev_index prev_term partition count leader_id tail
                          (omega (arith, v.messages_fit)))
                    (rw some_count (
                      rw (le→ltb 10000 count v.messages_fit) (
                        rw routed (
                          rw entries
                            (rw ((==_iff (length payload) (length payload)).1 refl) refl))))))))))))
