-- ===== src/Server/Broker/Fetch/Delivery.antt =====
-- What `poll` of the client makes of the answer to a fetch.
use mq_project.Prelude.{
  ℕ, zero, suc, ◌+◌, ◌-◌, ◌*◌, ◌≤◌, ◌<◌, ◌≡◌, ◌≢◌, inl, inr, refl, sym, ap, subst, ◌∙◌, arith, true,
  false, ◌||◌, none, some, List, [], ◌∷◌, ◌++◌, length, drop, ltb, ◌==◌, ==_iff, Bool-cases,
  append_assoc, append-nil, length-append, le→ltb,
}
use mq_project.Bytes.{Bytes, All, put32}
use mq_project.Bytes.Laws.{get32-append}
use mq_project.Protocol.Codec.{max_payload_bytes}
use mq_project.Core.Storage.{Message}
use mq_project.Core.Storage.Recovery.{IsMessage}
use mq_project.Client.{read_message, read_messages, poll_messages}
use mq_project.Server.Broker.Fetch.{record_size, put_message, put_messages, messages_payload}
use mq_project.Server.Broker.Fetch.Wire.{
  read_message-put_message, put_message-append, length-put_message,
}

-- The bytes of messages in a payload: 22 and the key and the value of each.
abbrev pub total_bytes : List Message → ℕ
total_bytes [] = 0
total_bytes (m ∷ ms) = 22 + length m.key + length m.value + total_bytes ms

-- `rest` begins with a message that does not fit behind `size` bytes.
abbrev pub Overflows : ℕ → List Message → Type 0
Overflows size [] = Unit
Overflows size (m ∷ ms) = max_payload_bytes < 4 + (22 + length m.key + length m.value) + size

-- What the loop has made of a payload and messages.
record Delivered (payload : Bytes) (ms : List Message) (x : Bytes × ℕ) : Type 0 where
  got : List Message
  rest : List Message
  tail : Bytes
  parted : ms ≡ got ++ rest
  counted : x.1 ≡ length got
  extended : x.0 ≡ payload ++ tail
  reads :
      (pre : Bytes)
      → length pre ≡ length payload
      → read_messages (length got) (pre ++ tail) (length pre) ≡ some (got, length (pre ++ tail))
  large : 22 * length got ≤ length tail
  sized : length tail ≡ total_bytes got
  fits : length payload + length tail ≤ max_payload_bytes - 4
  full : Overflows (length payload + length tail) rest

read_on :
    (n : ℕ) (payload : Bytes) (pos next end : ℕ) (m : Message) (ms : List Message)
    → read_message payload pos ≡ some (m, next)
    → read_messages n payload next ≡ some (ms, end)
    → read_messages (suc n) payload pos ≡ some (m ∷ ms, end)
unfolding read_messages
read_on n payload pos next end m ms e f = rw (e, read_messages) (rw f refl)

no_room : (a size long : ℕ) → (ltb a size || ltb (a - size) long) ≡ true → a < size + long
no_room a size long h = ground (arith, h, Bool-cases (ltb a size))

some_room : (a size long : ℕ) → (ltb a size || ltb (a - size) long) ≡ false → size + long ≤ a
some_room a size long h = ground (arith, h, Bool-cases (ltb a size))

Delivered-more :
    (payload : Bytes) (m : Message) (ms : List Message) (x : Bytes × ℕ)
    → IsMessage m
    → Delivered (put_message payload m) ms x
    → Delivered payload (m ∷ ms) (x.0, x.1 + 1)
Delivered-more payload m ms x v d =
    let long = length-put_message payload m in
    let alone = length-append (put_message [] m) d.tail in
    let size = length-put_message [] m in
    let total : length payload + length (put_message [] m ++ d.tail)
        ≡ length (put_message payload m) + length d.tail =
      omega (arith, long, alone, size) in
    record {
      got = m ∷ d.got;
      rest = d.rest;
      tail = put_message [] m ++ d.tail;
      parted = ap (◌∷◌ m) d.parted;
      counted = omega (arith, d.counted);
      extended =
          d.extended
          ∙ ap (λ p. p ++ d.tail) (put_message-append payload m)
          ∙ append_assoc payload (put_message [] m) d.tail;
      reads = λ pre h.
          subst
            (λ p. read_messages (suc (length d.got)) p (length pre) ≡ some (m ∷ d.got, length p))
            (ap (λ p. p ++ d.tail) (put_message-append pre m)
              ∙ append_assoc pre (put_message [] m) d.tail)
            (read_on (length d.got) (put_message pre m ++ d.tail) (length pre)
              (length (put_message pre m)) (length (put_message pre m ++ d.tail)) m d.got
              (read_message-put_message pre d.tail m v
                ∙ ap (λ n. some (m, n)) {x = length pre + 18 + length m.key + 4 + length m.value}
                    (omega (arith, length-put_message pre m)))
              (d.reads (put_message pre m) (omega (arith, length-put_message pre m, long, h))));
      large = omega (arith, d.large, alone, size);
      sized = omega (arith, d.sized, alone, size);
      fits = omega (arith, d.fits, total);
      full = subst (λ n. Overflows n d.rest) (sym total) d.full;
    }

put_messages-Delivered :
    (payload : Bytes) (ms : List Message)
    → All IsMessage ms
    → length payload ≤ max_payload_bytes - 4
    → Delivered payload ms (put_messages payload ms)
unfolding put_messages read_messages
put_messages-Delivered payload [] v l = record {
  got = [];
  rest = [];
  tail = [];
  parted = refl;
  counted = refl;
  extended = sym (append-nil payload);
  reads = λ pre h. ap (λ p. some ([], length p)) (sym (append-nil pre));
  large = omega arith;
  sized = refl;
  fits = omega (arith, l);
  full = tt;
}
put_messages-Delivered payload (m ∷ ms) (v, vs) l =
    elim (Bool-cases (
      ltb (max_payload_bytes - 4) (record_size m)
      || ltb (max_payload_bytes - 4 - record_size m) (length payload))) [
        | inl much ↦ rw much (record {
          got = [];
          rest = m ∷ ms;
          tail = [];
          parted = refl;
          counted = refl;
          extended = sym (append-nil payload);
          reads = λ pre h. ap (λ p. some ([], length p)) (sym (append-nil pre));
          large = omega arith;
          sized = refl;
          fits = omega (arith, l);
          full =
              omega (arith, no_room (max_payload_bytes - 4) (record_size m) (length payload) much);
        })
        | inr room ↦ rw room (
            Delivered-more payload m ms (put_messages (put_message payload m) ms) v (
              put_messages-Delivered (put_message payload m) ms vs (
                omega (
                  arith,
                  length-put_message payload m,
                  some_room (max_payload_bytes - 4) (record_size m) (length payload) room,
                ))))
      ]

no_messages : (ms : List Message) → length ms ≡ 0 → ms ≡ []
no_messages [] h = refl
no_messages (m ∷ ms) h = absurd (omega (arith, h))

poll_by :
    (n : ℕ) (tail : Bytes) (got : List Message)
    → n ≢ 0
    → n ≤ 100000
    → read_messages n (put32 [] n ++ tail) 4 ≡ some (got, length (put32 [] n ++ tail))
    → poll_messages (put32 [] n ++ tail) ≡ some got
unfolding poll_messages
poll_by n tail got z l e =
    let payload : Bytes = put32 [] n ++ tail in
    let some_read : (n == 0) ≡ false = ground (arith, z) in
    rw (le→ltb (length payload) 4 (omega arith)) (
      rw (get32-append [] n tail (omega (arith, l))) (
        rw some_read (
          rw (le→ltb 100000 n l)
            (rw e (rw ((==_iff (length payload) (length payload)).1 refl) refl)))))

messages_payload-Delivered :
    (ms : List Message) (d : Delivered (put32 [] 0) ms (put_messages (put32 [] 0) ms))
    → messages_payload ms ≡ put32 [] (length d.got) ++ d.tail
unfolding messages_payload
messages_payload-Delivered ms d =
    let x = put_messages (put32 [] 0) ms in
    ap (λ n. put32 [] n ++ drop 4 x.0) d.counted
    ∙ ap (λ p. put32 [] (length d.got) ++ drop 4 p) d.extended

no_tail :
    (pre tail : Bytes) (n : ℕ) (got : List Message)
    → n ≡ 0
    → read_messages n (pre ++ tail) (length pre) ≡ some (got, length (pre ++ tail))
    → length tail ≡ 0
unfolding read_messages
no_tail pre tail zero got z h =
    let same : length pre ≡ length (pre ++ tail) = ground (arith, h) in
    omega (arith, same, length-append pre tail)
no_tail pre tail (suc n) got z h = absurd (omega (arith, z))

some_got :
    (m : Message) (ms : List Message)
    (d : Delivered (put32 [] 0) (m ∷ ms) (put_messages (put32 [] 0) (m ∷ ms)))
    → record_size m ≤ max_payload_bytes - 8
    → length d.got ≢ 0
some_got m ms d fits z =
    let none_left : m ∷ ms ≡ d.rest = d.parted ∙ ap (λ g. g ++ d.rest) (no_messages d.got z) in
    let short = no_tail (put32 [] 0) d.tail (length d.got) d.got z (d.reads (put32 [] 0) refl) in
    let over : Overflows (length (put32 [] 0) + length d.tail) (m ∷ ms) =
      subst (Overflows (length (put32 [] 0) + length d.tail)) (sym none_left) d.full in
    omega (arith, over, short, fits)

-- If the first of the messages fits into a payload, the client gets at least that one.
pub poll_messages-some :
    (m : Message) (ms : List Message)
    → All IsMessage (m ∷ ms)
    → record_size m ≤ max_payload_bytes - 8
    → (got : List Message) × (rest : List Message) × (m ∷ ms ≡ got ++ rest)
      × (0 < length got)
      × (poll_messages (messages_payload (m ∷ ms)) ≡ some got)
poll_messages-some m ms v fits =
    let d = put_messages-Delivered (put32 [] 0) (m ∷ ms) v (omega arith) in
    let some_one = some_got m ms d fits in
    (
      d.got,
      d.rest,
      d.parted,
      ground (arith, some_one),
      ap poll_messages (messages_payload-Delivered (m ∷ ms) d)
          ∙ poll_by (length d.got) d.tail d.got some_one (omega (arith, d.large, d.fits))
              (d.reads (put32 [] (length d.got)) refl),
    )

-- An answer without messages is none for the client.
poll_none : (tail : Bytes) → poll_messages (put32 [] 0 ++ tail) ≡ none
unfolding poll_messages
poll_none tail =
    rw (le→ltb (length (put32 [] 0 ++ tail)) 4 (omega arith))
      (rw (get32-append [] 0 tail (omega arith)) refl)

-- What the client makes of a payload with the messages `got`.
abbrev pub Polls : Bytes → List Message → Type 0
Polls payload [] = poll_messages payload ≡ none
Polls payload (m ∷ ms) = poll_messages payload ≡ some (m ∷ ms)

Polls-got :
    (tail : Bytes) (got : List Message)
    → length got ≤ 100000
    → read_messages (length got) (put32 [] (length got) ++ tail) 4
      ≡ some (got, length (put32 [] (length got) ++ tail))
    → Polls (put32 [] (length got) ++ tail) got
Polls-got tail [] l e = poll_none tail
Polls-got tail (m ∷ ms) l e = poll_by (suc (length ms)) tail (m ∷ ms) (omega arith) l e

-- The client gets from the payload of an answer the first of the messages that it was made of, in order:
-- all, or all up to one that no longer fits behind them into a payload. The limit on a payload leaves 4 bytes
-- free. Where even the first message does not fit, or there is none, it gets none. A message has 22 bytes, its
-- key and its value in a payload, and the count has 4.
pub poll_messages-messages_payload :
    (ms : List Message)
    → All IsMessage ms
    → (got : List Message) × (rest : List Message) × (ms ≡ got ++ rest)
      × Polls (messages_payload ms) got
      × (4 + total_bytes got ≤ max_payload_bytes - 4)
      × Overflows (4 + total_bytes got) rest
poll_messages-messages_payload ms v =
    let d = put_messages-Delivered (put32 [] 0) ms v (omega arith) in
    let made = messages_payload-Delivered ms d in
    (
      d.got,
      d.rest,
      d.parted,
      subst (λ p. Polls p d.got) (sym made)
          (Polls-got d.tail d.got (omega (arith, d.large, d.fits))
            (d.reads (put32 [] (length d.got)) refl)),
      omega (arith, d.fits, d.sized),
      subst (λ n. Overflows n d.rest) {x = length (put32 [] 0) + length d.tail}
          {y = 4 + total_bytes d.got} (omega (arith, d.sized)) d.full,
    )
