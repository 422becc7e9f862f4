-- ===== src/Server/Broker/Batch/Split.antt =====
-- A batch of the client, as the broker takes it apart.
use mq_project.Prelude.{
  ℕ, zero, suc, ◌+◌, ◌-◌, ◌*◌, ◌%◌, ◌^◌, ◌≤◌, ◌<◌, ◌≡◌, refl, ap, sym, ◌∙◌, arith, false, ◌||◌,
  Option, none, some, List, [], ◌∷◌, ◌++◌, length, ltb, le→ltb, ◌==◌, ==_iff, length-append,
  append_assoc, append-nil, bit_and, bit_or,
}
use mq_project.Bytes.{Bytes, All, be_bytes, put16, put32, put64, get32, get64}
use mq_project.Bytes.Laws.{get32-append, get64-append}
use mq_project.Dict.{Dict, find}
use mq_project.Protocol.Command
use mq_project.Protocol.Flag
use mq_project.Protocol.Codec.{Request}
use mq_project.Server.Broker.{IdempotencyEntry}
use mq_project.Server.Broker.Reply.{parsed, advance}
use mq_project.Server.Broker.Produce.{idempotency_key}
use mq_project.Server.Broker.Batch.{
  BatchHead, parse_batch_head, cached_results, Item, pending, single_payload, single, parse_pair,
  parse_items, parse_batch,
}
use mq_project.Server.Broker.Batch.Pairs.{IsPair, parse_pair-put_pair, advance_within}
use mq_project.Client.Producer.{
  ProducerMessage, AckMode, ack_zero, ack_one, ack_all, produce_flags, put_pair, produce_payload,
  put_pairs, batch_payload,
}

-- The requests that `produce` would send one by one, but for their id.
abbrev pub singles : Request → ℕ → ℕ → List ProducerMessage → List Item
singles r producer_id sequence [] = []
singles r producer_id sequence (m ∷ ms) =
    pending
      (record r { command = Command.produce; payload = produce_payload producer_id sequence m })
    ∷ singles r producer_id (sequence + 1) ms

abbrev pub bytes_of : List ProducerMessage → ℕ
bytes_of [] = 0
bytes_of (m ∷ ms) = (length m.key + length m.value) + bytes_of ms

-- No answer is kept for `n` numbers from `sequence` on.
abbrev pub IsFresh : Bytes → ℕ → ℕ → ℕ → Dict IdempotencyEntry → Type 0
IsFresh topic producer_id sequence zero cache = Unit
IsFresh topic producer_id sequence (suc n) cache =
    (find (idempotency_key topic producer_id sequence) cache ≡ none)
    × IsFresh topic producer_id (sequence + 1) n cache

abbrev nones : ℕ → List (Option IdempotencyEntry)
nones zero = []
nones (suc n) = none ∷ nones n

cached_results-nones :
    (topic : Bytes) (producer_id sequence n : ℕ) (cache : Dict IdempotencyEntry)
    → IsFresh topic producer_id sequence n cache
    → cached_results topic producer_id sequence n cache ≡ nones n
unfolding cached_results
cached_results-nones topic producer_id sequence zero cache h = refl
cached_results-nones topic producer_id sequence (suc n) cache (h, hs) =
    cc (h, cached_results-nones topic producer_id (sequence + 1) n cache hs)

same_flags :
    (ack : AckMode)
    → bit_or
        (bit_and (produce_flags ack) (2 ^ 16 - 1 - Flag.producer_metadata))
        Flag.producer_metadata
      ≡ produce_flags ack
unfolding produce_flags
same_flags ack_zero = refl
same_flags ack_one = refl
same_flags ack_all = refl

single_lem :
    (r : Request) (producer_id sequence : ℕ) (ack : AckMode) (m : ProducerMessage)
    → r.flags ≡ produce_flags ack
    → IsPair m
    → single r producer_id sequence m.key m.value
      ≡ record r { command = Command.produce; payload = produce_payload producer_id sequence m }
unfolding single single_payload produce_payload
single_lem r producer_id sequence ack m f v =
    let start : Bytes = put32 (put64 (put64 [] producer_id) sequence) 0xFFFFFFFF in
    let flags : bit_or (bit_and r.flags (2 ^ 16 - 1 - Flag.producer_metadata))
          Flag.producer_metadata
        ≡ r.flags =
      ap (λ x. bit_or (bit_and x (2 ^ 16 - 1 - Flag.producer_metadata)) Flag.producer_metadata) f
      ∙ same_flags ack
      ∙ sym f in
    ap
      (λ x. record r {
        command = Command.produce;
        flags = x;
        payload = single_payload producer_id sequence m.key m.value;
      })
      flags
    ∙ ap
        (λ k. record r {
          command = Command.produce;
          payload = put32 (put16 start k ++ m.key) (length m.value) ++ m.value;
        })
        {x = length m.key} {y = length m.key % 2 ^ 16} (omega (arith, v.key_fits))
    ∙ ap
        (λ n. record r {
          command = Command.produce;
          payload = put32 (put16 start (length m.key % 2 ^ 16) ++ m.key) n ++ m.value;
        })
        {x = length m.value} {y = length m.value % 2 ^ 32} (omega (arith, v.value_fits))

put_pairs-append :
    (payload : Bytes) (ms : List ProducerMessage)
    → (tail : Bytes) × (put_pairs payload ms ≡ payload ++ tail)
unfolding put_pairs
put_pairs-append payload [] = ([], sym (append-nil payload))
put_pairs-append payload (m ∷ ms) =
    let (tail, e) = put_pairs-append (put_pair payload m) ms in
    (put_pair [] m ++ tail, e ∙ simp (append_assoc))

parse_items-put_pairs :
    (r : Request) (producer_id sequence new_bytes : ℕ) (ack : AckMode) (pre : Bytes)
    (ms : List ProducerMessage)
    → r.flags ≡ produce_flags ack
    → All IsPair ms
    → r.payload ≡ put_pairs pre ms
    → new_bytes + 2000000 * length ms ≤ 2 ^ 63
    → parse_items r producer_id sequence (nones (length ms)) (length pre) new_bytes
      ≡ parsed
          (singles r producer_id sequence ms, length (put_pairs pre ms), new_bytes + bytes_of ms)
unfolding parse_items put_pairs
parse_items-put_pairs r producer_id sequence new_bytes ack pre [] f v e h =
    ap (λ n. parsed ([], length pre, n)) {x = new_bytes} {y = new_bytes + 0} (omega arith)
parse_items-put_pairs r producer_id sequence new_bytes ack pre (m ∷ ms) f (v, vs) e h =
    let size = length m.key + length m.value in
    let (tail, added) = put_pairs-append (put_pair pre m) ms in
    let pair = ap (λ p. parse_pair p (length pre)) (e ∙ added) ∙ parse_pair-put_pair pre tail m v in
    let room : ltb (2 ^ 64 - 1 - size) new_bytes ≡ false =
      le→ltb (2 ^ 64 - 1 - size) new_bytes (omega (arith, h, v.key_fits, v.value_fits)) in
    let rest =
      parse_items-put_pairs r producer_id (sequence + 1) (new_bytes + size) ack (put_pair pre m) ms
        f vs e (omega (arith, h, v.key_fits, v.value_fits)) in
    let total : new_bytes + size + bytes_of ms ≡ new_bytes + bytes_of (m ∷ ms) = omega arith in
    rw (pair, parse_items)
      (rw room (
        rw (rest, parse_items)
          (rw (single_lem r producer_id sequence ack m f v) (
            ap
              (λ n.
                parsed
                  (singles r producer_id sequence (m ∷ ms), length (put_pairs pre (m ∷ ms)), n))
              total))))

module _ (producer_id sequence count : ℕ) (tail : Bytes) where
  abbrev headed : Bytes
  headed = put32 (put64 (put64 [] producer_id) sequence) count

  parse_batch_head_lem :
      producer_id < 2 ^ 64
      → sequence + count < 2 ^ 64
      → 0 < count
      → count ≤ 10000
      → parse_batch_head (headed ++ tail)
        ≡ parsed (record { producer_id = producer_id; first_sequence = sequence; count = count })
  unfolding parse_batch_head
  parse_batch_head_lem p s z l =
      let payload : Bytes = headed ++ tail in
      let start : Bytes = put64 (put64 [] producer_id) sequence in
      let long : length payload ≡ 20 + length tail = omega (arith, length-append headed tail) in
      let producer_read : get64 payload 0 ≡ some producer_id =
        ap (λ q. get64 q 0) {x = payload}
          {y = be_bytes 8 producer_id ++ (be_bytes 8 sequence ++ (be_bytes 4 count ++ tail))}
          (simp (append_assoc))
        ∙ get64-append [] producer_id _ p in
      let sequence_read : get64 payload 8 ≡ some sequence =
        ap (λ q. get64 q 8) {x = payload}
          {y = put64 [] producer_id ++ (be_bytes 8 sequence ++ (be_bytes 4 count ++ tail))}
          (simp (append_assoc))
        ∙ get64-append (put64 [] producer_id) sequence _ (omega (arith, s)) in
      let count_read : get32 payload 16 ≡ some count =
        ap (λ q. get32 q 16) {x = payload} {y = start ++ (be_bytes 4 count ++ tail)}
          (simp (append_assoc))
        ∙ get32-append start count tail (omega (arith, l)) in
      let fine : (count == 0 || ltb 10000 count || ltb (2 ^ 64 - 1 - count + 1) sequence) ≡ false =
        ground (arith, s, z, l) in
      rw (advance_within payload 0 20 (omega (arith, long)), advance)
        (rw producer_read (rw sequence_read (rw count_read (rw fine refl))))

-- The broker takes the batch of a client apart into just the requests that `produce` of the client would send for its messages one by one,
-- in their order and with consecutive numbers, where no answer is kept for any of these numbers and the messages are
-- within the limits of the client.
pub parse_batch-batch_payload :
    (producer_id sequence : ℕ) (ack : AckMode) (ms : List ProducerMessage) (r : Request)
    (cache : Dict IdempotencyEntry)
    → producer_id < 2 ^ 64
    → sequence + length ms < 2 ^ 64
    → 0 < length ms
    → length ms ≤ 10000
    → All IsPair ms
    → r.flags ≡ produce_flags ack
    → r.payload ≡ batch_payload producer_id sequence ms
    → IsFresh r.topic producer_id sequence (length ms) cache
    → (head : BatchHead) × (parse_batch_head r.payload ≡ parsed head)
      × (parse_batch r head cache ≡ parsed (singles r producer_id sequence ms, bytes_of ms))
unfolding parse_batch batch_payload
parse_batch-batch_payload producer_id sequence ack ms r cache p s z l v f e fresh =
    let count = length ms in
    let start : Bytes = headed producer_id sequence count [] in
    let (tail, added) = put_pairs-append start ms in
    let same : r.payload ≡ put_pairs start ms =
      e
      ∙ ap (λ n. put_pairs (put32 (put64 (put64 [] producer_id) sequence) n) ms)
          {x = count % 2 ^ 32} {y = count} (omega (arith, l)) in
    let items =
      parse_items-put_pairs r producer_id sequence 0 ack start ms f v same (omega (arith, l)) in
    (
      record { producer_id = producer_id; first_sequence = sequence; count = count },
      ap parse_batch_head (same ∙ added)
          ∙ parse_batch_head_lem producer_id sequence count tail p s z l,
      rw (cached_results-nones r.topic producer_id sequence count cache fresh, parse_batch)
          (rw (items, parse_batch)
            (rw ((==_iff (length (put_pairs start ms)) (length r.payload)).1 (ap length (sym same)))
              (ap (λ n. parsed (singles r producer_id sequence ms, n)) {x = 0 + bytes_of ms}
                {y = bytes_of ms} (omega arith)))),
    )
