-- ===== src/Server/Serving/Vote.antt =====
-- `Vote` of a broker that asks another one.
use mq_project.Prelude.{
  ℕ, ◌+◌, ◌/◌, ◌%◌, ◌^◌, ◌≤◌, ◌<◌, ◌≡◌, refl, ap, sym, ◌∙◌, arith, Bool, true, false, some, [], ◌∷◌,
  ◌++◌, length, take, drop, ◌==◌, ==_iff, le→ltb, length-append, take-append_left, append_assoc,
  append-nil, Bool-cases, inl, inr,
}
use mq_project.Bytes.{Bytes, be_bytes, put16, put64, get16, get64}
use mq_project.Bytes.Laws.{get16-append, get64-append}
use mq_project.Protocol.Command
use mq_project.Protocol.Status
use mq_project.Protocol.Flag
use mq_project.Protocol.Codec.{Request}
use mq_project.Server.Replication.{is_nil}
use mq_project.Server.Replication.Election.{request_vote}
use mq_project.Server.Broker.{Broker, has_flag}
use mq_project.Server.Broker.Reply.{parsed, make_response}
use mq_project.Server.Broker.Replicas.{parse_vote, granted_payload, handle_replica_vote}
use mq_project.Server.Broker.Dispatch.{
  Context, count_request, count_command, dispatch, dispatch_group, dispatch_replica, answer, handle,
}
use mq_project.Server.ReplicationClient.{Network, connected, ReplicationClient, call_request}
use mq_project.Server.ReplicationClient.Ballot.{granted_by, vote_payload, vote}
use mq_project.Server.ReplicationClient.Entering.{Trusts}
use mq_project.Server.Serving.{serve, handle-call_request, after_call, call-serve}

nothing_left : (xs : Bytes) → length xs ≡ 0 → xs ≡ []
nothing_left [] h = refl
nothing_left (x ∷ xs) h = absurd (omega (arith, h))

module _ (term : ℕ) (candidate : Bytes) (index last_term : ℕ)
    (fits : length candidate ≤ 65535) where
  abbrev size : ℕ
  size = length candidate % 2 ^ 16

  abbrev sized : Bytes
  sized = put16 (put64 [] term) size

  abbrev named : Bytes
  named = sized ++ candidate

  abbrev all : Bytes
  all = vote_payload term candidate index last_term

  length-named : length named ≡ 10 + length candidate
  length-named = omega arith

  length-all : length all ≡ 26 + length candidate
  unfolding vote_payload
  length-all = omega (
    arith,
    length-append (put64 named index) (be_bytes 8 last_term),
    length-append named (be_bytes 8 index),
    length-named,
  )

  term_read : term < 2 ^ 64 → get64 all 0 ≡ some term
  unfolding vote_payload
  term_read t =
      ap (λ p. get64 p 0) {x = all}
        {y = be_bytes 8 term
          ++ (((size / 256 % 256) ∷ (size % 256) ∷ [])
              ++ (candidate ++ (be_bytes 8 index ++ be_bytes 8 last_term)))}
        (simp (append_assoc))
      ∙ get64-append [] term _ t

  size_read : get16 all 8 ≡ some (length candidate)
  unfolding vote_payload
  size_read =
      ap (λ p. get16 p 8) {x = all}
        {y = put64 [] term
          ++ ((size / 256 % 256)
              ∷ (size % 256)
              ∷ (candidate ++ (be_bytes 8 index ++ be_bytes 8 last_term)))}
        (simp (append_assoc))
      ∙ get16-append (put64 [] term) size (candidate ++ (be_bytes 8 index ++ be_bytes 8 last_term))
          (omega arith)
      ∙ ap some (omega arith)

  candidate_read : take (length candidate) (drop 10 all) ≡ candidate
  unfolding vote_payload
  candidate_read =
      ap (λ p. take (length candidate) (drop 10 p)) {x = all}
        {y = sized ++ (candidate ++ (be_bytes 8 index ++ be_bytes 8 last_term))}
        (simp (append_assoc))
      ∙ take-append_left candidate (be_bytes 8 index ++ be_bytes 8 last_term)

  index_read : index < 2 ^ 64 → get64 all (10 + length candidate) ≡ some index
  unfolding vote_payload
  index_read i =
      ap (get64 all) (sym length-named)
      ∙ ap (λ p. get64 p (length named)) {x = all}
          {y = named ++ (be_bytes 8 index ++ be_bytes 8 last_term)} (simp (append_assoc))
      ∙ get64-append named index (be_bytes 8 last_term) i

  last_term_read : last_term < 2 ^ 64 → get64 all (18 + length candidate) ≡ some last_term
  unfolding vote_payload
  last_term_read l =
      ap (get64 all) {x = 18 + length candidate} {y = length (put64 named index)}
        (omega (arith, length-named, length-append named (be_bytes 8 index)))
      ∙ ap (λ p. get64 p (length (put64 named index))) {x = all}
          {y = put64 named index ++ (be_bytes 8 last_term ++ [])} (simp (append_assoc, append-nil))
      ∙ get64-append (put64 named index) last_term [] l

  some_size : is_nil candidate ≡ false → (length candidate == 0) ≡ false
  some_size n = elim (Bool-cases (length candidate == 0)) [
    | inr fine ↦ fine
    | inl nothing ↦ absurd (
        ground
          (arith, n, ap is_nil (nothing_left candidate ((==_iff (length candidate) 0).0 nothing))))
  ]

  -- What the other broker reads of the request.
  parse_vote_lem :
      (r : Request)
      → r.payload ≡ all
      → has_flag r.flags Flag.replication ≡ true
      → term < 2 ^ 64
      → index < 2 ^ 64
      → last_term < 2 ^ 64
      → is_nil candidate ≡ false
      → parse_vote r ≡ parsed (term, candidate, index, last_term)
  unfolding parse_vote
  parse_vote_lem r e f t i l n = rw f (
      rw e (
        rw (le→ltb (length all) 10 (omega (arith, length-all))) (
          rw (term_read t) (
            rw size_read (
              rw (some_size n) (
                rw ((==_iff (length all) (26 + length candidate)).1 length-all)
                  (rw (index_read i) (rw (last_term_read l) (rw candidate_read refl)))))))))

granted_by_lem : (granted : Bool) → granted_by (granted_payload granted) ≡ some granted
granted_by_lem true = refl
granted_by_lem false = refl

-- What the other broker makes of the request.
handle-vote :
    (x : Context) (term : ℕ) (candidate : Bytes) (index last_term : ℕ) (b : Broker)
    (c : ReplicationClient)
    → Trusts b c
    → length candidate ≤ 65535
    → term < 2 ^ 64
    → index < 2 ^ 64
    → last_term < 2 ^ 64
    → is_nil candidate ≡ false
    → let r =
        call_request Command.replica_vote candidate
          (vote_payload term candidate index last_term)
          false
          c in
      let (granted, after) = request_vote term candidate index last_term b.coordinator in
      handle x r b ≡ (
        some (make_response r Status.ok (granted_payload granted)),
        record (count_request b) { coordinator = after },
      )
unfolding dispatch dispatch_group dispatch_replica call_request count_command answer
    handle_replica_vote
handle-vote x term candidate index last_term b c v fits t i l n =
    let payload = vote_payload term candidate index last_term in
    let r = record (call_request Command.replica_vote candidate payload false c) {
      payload = payload;
    } in
    handle-call_request x Command.replica_vote candidate payload false b c v refl
    ∙ rw (parse_vote_lem term candidate index last_term fits r refl refl t i l n, dispatch) refl

-- A broker that asks another one for its vote, over a connection that loses nothing, where that one is open and
-- both have the same token of replication, learns whether that one has granted it, and that one has then changed
-- its state just as its coordinator does.
pub vote-request_vote :
    (network : Network) (x : Context) (term : ℕ) (candidate : Bytes) (index last_term : ℕ)
    (b : Broker) (c : ReplicationClient)
    → network c.host c.port c.timeout_ms ≡ connected (serve x b)
    → Trusts b c
    → c.request_id < 2 ^ 64
    → length candidate ≤ 65535
    → is_nil candidate ≡ false
    → term < 2 ^ 64
    → index < 2 ^ 64
    → last_term < 2 ^ 64
    → let (granted, after) = request_vote term candidate index last_term b.coordinator in
      (vote network term candidate index last_term c ≡ (some granted, after_call c))
      × ((handle x
            (call_request Command.replica_vote candidate
              (vote_payload term candidate index last_term)
              false
              c)
            b).1.coordinator
          ≡ after)
unfolding vote
vote-request_vote network x term candidate index last_term b c link v id fits n t i l =
    let payload = vote_payload term candidate index last_term in
    let granted = (request_vote term candidate index last_term b.coordinator).0 in
    let run = handle-vote x term candidate index last_term b c v fits t i l n in
    let r = call_request Command.replica_vote candidate payload false c in
    (
      rw n (
          rw (le→ltb 65535 (length candidate) fits) (
            rw
              (call-serve network x Command.replica_vote candidate payload (granted_payload granted)
                false b c link v id fits
                (omega (arith, fits, v.token_fits, length-all term candidate index last_term fits))
                (omega arith) (ap (λ y. y.0) run))
              (rw (granted_by_lem granted) refl))),
      ap (λ y. y.1.coordinator) run,
    )
