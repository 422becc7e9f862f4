-- ===== src/Server/Broker/Produce/Retry.antt =====
-- A message that is produced again under the same number.
use mq_project.Prelude.{
  ℕ, ◌+◌, ◌<◌, ◌≡◌, inl, inr, refl, sym, ap, ◌∙◌, arith, Bool, true, false, none, some, [], ◌∷◌,
  leb, ◌==◌, ==_iff, Bool-cases,
}
use mq_project.Bytes.{Bytes}
use mq_project.Bytes.Equality.{bytes_eq}
use mq_project.Dict.{Dict, find, insert}
use mq_project.Dict.Laws
use mq_project.Protocol.Status
use mq_project.Protocol.Flag
use mq_project.Protocol.Codec.{Request}
use mq_project.Server.Broker.{Broker, IdempotencyEntry, has_flag}
use mq_project.Server.Broker.Reply
use mq_project.Server.Broker.Reply.{Reply, reply, Parsed, parsed, make_response}
use mq_project.Server.Broker.Produce.{
  Moment, idempotency_key, expire_cache, five_minutes, is_leading, is_limited, parse_metadata,
  parse_record, publish, remember, produce_once, handle_produce,
}

expire_cache-none :
    (now : ℕ) (key : Bytes) (cache : Dict IdempotencyEntry)
    → find key cache ≡ none
    → find key (expire_cache now cache) ≡ none
unfolding find expire_cache
expire_cache-none now key [] h = refl
expire_cache-none now key ((k, e) ∷ cache) h = ground (
  arith,
  h,
  Bool-cases (bytes_eq k key),
  Bool-cases (leb e.expires_at now),
  expire_cache-none now key cache,
)

expire_cache-some :
    (now : ℕ) (key : Bytes) (entry : IdempotencyEntry) (cache : Dict IdempotencyEntry)
    → find key cache ≡ some entry
    → now < entry.expires_at
    → find key (expire_cache now cache) ≡ some entry
unfolding find expire_cache
expire_cache-some now key entry [] h l = absurd (ground (arith, h))
expire_cache-some now key entry ((k, e) ∷ cache) h l = elim (Bool-cases (bytes_eq k key)) [
  | inl here ↦
      let same : e ≡ entry = ground (arith, h, here) in
      let kept : leb e.expires_at now ≡ false = ground (arith, l, ap (λ x. x.expires_at) same) in
      rw kept (rw here (ap some same))
  | inr there ↦
      let rest = expire_cache-some now key entry cache (ground (arith, h, there)) l in
      elim (Bool-cases (leb e.expires_at now)) [
        | inl gone ↦ rw gone rest
        | inr kept ↦ rw kept (rw there rest)
      ]
]

answered : Reply → ℕ × Bytes
answered (reply status payload) = (status, payload)
answered Reply.faulted = (0, [])

same_answer :
    (s t : ℕ) (p q : Bytes) (b c : Broker)
    → Path (Reply × Broker) (reply s p, b) (reply t q, c)
    → Path (ℕ × Bytes) (s, p) (t, q) × (b ≡ c)
unfolding answered
same_answer s t p q b c h = (ap (λ x. answered x.0) h, ap (λ x. x.1) h)

remember_keeps :
    (m : Moment) (key answer : Bytes) (r : Request) (x : Reply × Broker) (after : Broker)
    → remember m key r x ≡ (reply Status.ok answer, after)
    → find key after.idempotency_cache
      ≡ some (record {
        response = make_response r Status.ok answer;
        expires_at = m.done_at + five_minutes;
      })
unfolding remember
remember_keeps m key answer r (Reply.faulted, b) after h = absurd (ground (arith, h))
remember_keeps m key answer r (reply status payload, b) after h =
    elim (Bool-cases (status == Status.ok)) [
      | inr bad ↦ absurd (ground (arith, h, bad, (==_iff status Status.ok).1))
      | inl good ↦
          let entry : IdempotencyEntry = record {
            response = make_response r status payload;
            expires_at = m.done_at + five_minutes;
          } in
          let written : Broker = record b {
            idempotency_cache = insert key entry b.idempotency_cache;
          } in
          let run : remember m key r (reply status payload, b) ≡ (reply status payload, written) =
            rw good refl in
          let (same, before) =
            same_answer status Status.ok payload answer written after (sym run ∙ h) in
          ap (λ c. find key c.idempotency_cache) (sym before)
          ∙ Laws.find-insert_self key entry b.idempotency_cache
          ∙ ap
              (λ x. some (record {
                response = make_response r x.0 x.1;
                expires_at = m.done_at + five_minutes;
              }))
              same
    ]

-- A message with the number of a producer was stored and answered with `kOk`, when no answer was kept under
-- its number before. The same request, with any request id, comes within five minutes, after any changes of
-- the broker that leave the answer under this number as it is, and it is neither limited by the rate nor
-- refused for want of leading. Then the message is not stored again: the request gets the same answer, and
-- nothing changes but that old answers are dropped.
pub handle_produce_again :
    (m again : Moment) (limits charges limits_again charges_again : Bool) (producer_id sequence : ℕ)
    (answer : Bytes) (r s : Request) (b after later : Broker)
    → has_flag r.flags Flag.producer_metadata ≡ true
    → parse_metadata r.payload ≡ parsed (producer_id, sequence)
    → find (idempotency_key r.topic producer_id sequence) b.idempotency_cache ≡ none
    → handle_produce m limits charges r b ≡ (reply Status.ok answer, after)
    → find (idempotency_key r.topic producer_id sequence) later.idempotency_cache
      ≡ find (idempotency_key r.topic producer_id sequence) after.idempotency_cache
    → s.topic ≡ r.topic
    → s.flags ≡ r.flags
    → s.payload ≡ r.payload
    → again.now < m.done_at + five_minutes
    → is_leading again s later ≡ true
    → is_limited again limits_again s ≡ false
    → handle_produce again limits_again charges_again s later ≡ (
      reply Status.ok answer,
      record later { idempotency_cache = expire_cache again.now later.idempotency_cache },
    )
unfolding handle_produce produce_once
handle_produce_again m again l c l' c' pid seq answer r s b after later flagged read fresh h
      same_entry t f p soon leads free =
    elim (Bool-cases (is_leading m r b)) [
      | inr follower ↦ absurd (ground (arith, h, follower))
      | inl leader ↦ elim (Bool-cases (is_limited m l r)) [
        | inl limited ↦ absurd (ground (arith, h, leader, limited))
        | inr allowed ↦
            let key = idempotency_key r.topic pid seq in
            let b' = record b { idempotency_cache = expire_cache m.now b.idempotency_cache } in
            let first = Reply.proceed (parse_record 16 r.payload) b' (publish m c r b') in
            let run : handle_produce m l c r b ≡ remember m key r first = rw leader (
              rw allowed (
                rw flagged (
                  rw read (
                    rw (expire_cache-none m.now key b.idempotency_cache fresh, produce_once)
                      refl)))) in
            let kept =
              ap (λ x. find (idempotency_key x pid seq) later.idempotency_cache) t
              ∙ same_entry
              ∙ remember_keeps m key answer r first after (sym run ∙ h) in
            rw leads (
              rw free (
                rw (ap (λ x. has_flag x Flag.producer_metadata) f ∙ flagged) (
                  rw (ap parse_metadata p ∙ read) (
                    rw
                      (
                        expire_cache-some again.now (idempotency_key s.topic pid seq) _
                            later.idempotency_cache kept soon,
                        produce_once,
                      )
                      refl))))
      ]
    ]
