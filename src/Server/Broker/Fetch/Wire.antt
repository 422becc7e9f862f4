-- ===== src/Server/Broker/Fetch/Wire.antt =====
-- One message in the answer to a fetch, as the client reads it.
use mq_project.Prelude.{
  ℕ, ◌+◌, ◌/◌, ◌%◌, ◌^◌, ◌≡◌, refl, sym, ap, ◌∙◌, arith, some, [], ◌∷◌, ◌++◌, length, take, drop,
  append_assoc, length-append, take-append_left, drop-append_left, le→ltb,
}
use mq_project.Bytes.{Bytes, be_bytes, put16, put32, put64, get16, get32, get64}
use mq_project.Bytes.Laws.{get16-append, get32-append, get64-append}
use mq_project.Core.Storage.{Message}
use mq_project.Core.Storage.Recovery.{IsMessage}
use mq_project.Client.{read_rest, read_message}
use mq_project.Server.Broker.Fetch.{record_size, put_message}

-- A payload that has a message behind `pre`.
module _ (pre tail : Bytes) (m : Message) where
  abbrev pub whole : Bytes
  whole = put_message pre m ++ tail

  abbrev key_size : ℕ
  key_size = length m.key % 2 ^ 16

  abbrev value_size : ℕ
  value_size = length m.value % 2 ^ 32

  abbrev stamped : Bytes
  stamped = put64 (put64 pre m.offset) m.timestamp_ms

  abbrev keyed : Bytes
  keyed = put16 stamped key_size ++ m.key

  abbrev behind_key : Bytes
  behind_key = be_bytes 4 value_size ++ (m.value ++ tail)

  whole-keyed : whole ≡ keyed ++ behind_key
  whole-keyed = simp (append_assoc)

  whole-stamped :
      whole ≡ stamped ++ (key_size / 256 % 256) ∷ (key_size % 256) ∷ (m.key ++ behind_key)
  whole-stamped = simp (append_assoc)

  whole-timed :
      whole
      ≡ put64 pre m.offset
        ++ (be_bytes 8 m.timestamp_ms
            ++ (((key_size / 256 % 256) ∷ (key_size % 256) ∷ []) ++ (m.key ++ behind_key)))
  whole-timed = simp (append_assoc)

  whole-offset :
      whole
      ≡ pre
        ++ (be_bytes 8 m.offset
            ++ (be_bytes 8 m.timestamp_ms
                ++ (((key_size / 256 % 256) ∷ (key_size % 256) ∷ []) ++ (m.key ++ behind_key))))
  whole-offset = simp (append_assoc)

  whole-value : whole ≡ put32 keyed value_size ++ (m.value ++ tail)
  whole-value = simp (append_assoc)

  module _ (v : IsMessage m) where
    length-stamped : length stamped ≡ length pre + 16
    length-stamped = omega (
      arith,
      length-append (put64 pre m.offset) (be_bytes 8 m.timestamp_ms),
      length-append pre (be_bytes 8 m.offset),
    )

    length-keyed : length keyed ≡ length pre + 18 + length m.key
    length-keyed = omega (
      arith,
      length-append (put16 stamped key_size) m.key,
      length-append stamped ((key_size / 256 % 256) ∷ (key_size % 256) ∷ []),
      length-stamped,
    )

    pub length-whole : length whole ≡ length pre + 22 + length m.key + length m.value + length tail
    length-whole =
        ap length whole-keyed
        ∙ omega (arith, length-append keyed behind_key, length-keyed, length-append m.value tail)

    pub offset_read : get64 whole (length pre) ≡ some m.offset
    offset_read =
        ap (λ p. get64 p (length pre)) whole-offset ∙ get64-append pre m.offset _ v.offset_fits

    pub timestamp_read : get64 whole (length pre + 8) ≡ some m.timestamp_ms
    timestamp_read =
        ap (λ p. get64 p (length pre + 8)) whole-timed
        ∙ ap (get64 _) {x = length pre + 8} {y = length (put64 pre m.offset)}
            (omega (arith, length-append pre (be_bytes 8 m.offset)))
        ∙ get64-append (put64 pre m.offset) m.timestamp_ms _ v.timestamp_fits

    pub key_size_read : get16 whole (length pre + 16) ≡ some (length m.key)
    key_size_read =
        ap (λ p. get16 p (length pre + 16)) whole-stamped
        ∙ ap (get16 _) (sym length-stamped)
        ∙ get16-append stamped key_size (m.key ++ behind_key) (omega arith)
        ∙ ap some (omega (arith, v.key_fits))

    pub value_size_read : get32 whole (length pre + 18 + length m.key) ≡ some (length m.value)
    value_size_read =
        ap (λ p. get32 p (length pre + 18 + length m.key)) whole-keyed
        ∙ ap (get32 _) (sym length-keyed)
        ∙ get32-append keyed value_size (m.value ++ tail) (omega arith)
        ∙ ap some (omega (arith, v.value_fits))

    pub key_read : take (length m.key) (drop (length pre + 18) whole) ≡ m.key
    key_read =
        ap (λ p. take (length m.key) (drop (length pre + 18) p))
          (whole-keyed ∙ append_assoc (put16 stamped key_size) m.key behind_key)
        ∙ ap (λ n. take (length m.key) (drop n (put16 stamped key_size ++ (m.key ++ behind_key))))
            {x = length pre + 18} {y = length (put16 stamped key_size)}
            (omega (
              arith,
              length-append stamped ((key_size / 256 % 256) ∷ (key_size % 256) ∷ []),
              length-stamped,
            ))
        ∙ ap (take (length m.key)) (drop-append_left (put16 stamped key_size) (m.key ++ behind_key))
        ∙ take-append_left m.key behind_key

    pub value_read :
        take (length m.value) (drop (length pre + 18 + length m.key + 4) whole) ≡ m.value
    value_read =
        ap (λ p. take (length m.value) (drop (length pre + 18 + length m.key + 4) p)) whole-value
        ∙ ap (λ n. take (length m.value) (drop n (put32 keyed value_size ++ (m.value ++ tail))))
            {x = length pre + 18 + length m.key + 4} {y = length (put32 keyed value_size)}
            (omega (arith, length-append keyed (be_bytes 4 value_size), length-keyed))
        ∙ ap (take (length m.value)) (drop-append_left (put32 keyed value_size) (m.value ++ tail))
        ∙ take-append_left m.value tail

    pub read_message-put_message :
        read_message whole (length pre)
        ≡ some (m, length pre + 18 + length m.key + 4 + length m.value)
    unfolding read_message read_rest
    read_message-put_message =
        let p = length pre in
        rw (le→ltb (length whole) (p + 18) (omega (arith, length-whole))) (
          rw offset_read (
            rw timestamp_read (
              rw key_size_read (
                rw (le→ltb (length whole) (p + 18 + length m.key + 4) (omega (arith, length-whole)))
                  (rw value_size_read (
                    rw
                      (le→ltb (length whole) (p + 18 + length m.key + 4 + length m.value)
                        (omega (arith, length-whole)))
                      (rw key_read (rw value_read refl))))))))

pub put_message-append : (pre : Bytes) (m : Message) → put_message pre m ≡ pre ++ put_message [] m
put_message-append pre m = simp (append_assoc)

pub length-put_message :
    (pre : Bytes) (m : Message) → length (put_message pre m) ≡ length pre + record_size m
length-put_message pre m = omega (
  arith,
  length-append (put32 (keyed pre [] m) (value_size pre [] m)) m.value,
  length-append (keyed pre [] m) (be_bytes 4 (value_size pre [] m)),
  length-append (put16 (stamped pre [] m) (key_size pre [] m)) m.key,
  length-append (stamped pre [] m)
      ((key_size pre [] m / 256 % 256) ∷ (key_size pre [] m % 256) ∷ []),
  length-append (put64 pre m.offset) (be_bytes 8 m.timestamp_ms),
  length-append pre (be_bytes 8 m.offset),
)
