-- ===== src/Server/Broker/Batch/Pairs.antt =====
-- One message of a batch, as the broker reads it.
use mq_project.Prelude.{
  ℕ, ◌+◌, ◌-◌, ◌/◌, ◌%◌, ◌^◌, ◌≤◌, ◌≡◌, refl, ap, sym, ◌∙◌, arith, some, [], ◌∷◌, ◌++◌, length,
  take, drop, le→ltb, length-append, append_assoc, drop-append_left, take-append_left,
}
use mq_project.Bytes.{Bytes, be_bytes, put16, put32, get16, get32}
use mq_project.Bytes.Laws.{get16-append, get32-append}
use mq_project.Server.Broker.Reply.{parsed, advance}
use mq_project.Server.Broker.Batch.{parse_pair}
use mq_project.Client.Producer.{ProducerMessage, put_pair}

pub record IsPair (m : ProducerMessage) : Type 0 where
  pub key_fits : length m.key ≤ 65535
  pub value_fits : length m.value ≤ 1048576

abbrev pub pair_size : ProducerMessage → ℕ
pair_size m = 6 + length m.key + length m.value

pub advance_within :
    (input : Bytes) (position count : ℕ)
    → position + count ≤ length input
    → advance input position count ≡ some (position + count)
unfolding advance
advance_within input position count h =
    rw (le→ltb (length input) position (omega (arith, h)))
      (rw (le→ltb (length input - position) count (omega (arith, h))) refl)

module _ (pre tail : Bytes) (m : ProducerMessage) (v : IsPair m) where
  abbrev whole : Bytes
  whole = put_pair pre m ++ tail

  abbrev key_size : ℕ
  key_size = length m.key % 2 ^ 16

  abbrev value_size : ℕ
  value_size = length m.value % 2 ^ 32

  abbrev keyed : Bytes
  keyed = put16 pre key_size ++ m.key

  abbrev behind_key : Bytes
  behind_key = be_bytes 4 value_size ++ (m.value ++ tail)

  length-sized : length (put16 pre key_size) ≡ length pre + 2
  length-sized = omega (arith, length-append pre ((key_size / 256 % 256) ∷ (key_size % 256) ∷ []))

  length-keyed : length keyed ≡ length pre + 2 + length m.key
  length-keyed = omega (arith, length-append (put16 pre key_size) m.key, length-sized)

  length-valued : length (put32 keyed value_size) ≡ length pre + 6 + length m.key
  length-valued = omega (arith, length-append keyed (be_bytes 4 value_size), length-keyed)

  length-whole : length whole ≡ length pre + pair_size m + length tail
  length-whole = omega (
    arith,
    length-append (put_pair pre m) tail,
    length-append (put32 keyed value_size) m.value,
    length-valued,
  )

  key_size_read : get16 whole (length pre) ≡ some (length m.key)
  key_size_read =
      ap (λ p. get16 p (length pre)) {x = whole}
        {y = pre ++ ((key_size / 256 % 256) ∷ (key_size % 256) ∷ (m.key ++ behind_key))}
        (simp (append_assoc))
      ∙ get16-append pre key_size (m.key ++ behind_key) (omega arith)
      ∙ ap some (omega (arith, v.key_fits))

  value_size_read : get32 whole (length pre + 2 + length m.key) ≡ some (length m.value)
  value_size_read =
      ap (get32 whole) (sym length-keyed)
      ∙ ap (λ p. get32 p (length keyed)) {x = whole} {y = keyed ++ behind_key} (simp (append_assoc))
      ∙ get32-append keyed value_size (m.value ++ tail) (omega arith)
      ∙ ap some (omega (arith, v.value_fits))

  key_read : take (length m.key) (drop (length pre + 2) whole) ≡ m.key
  key_read =
      ap (λ n. take (length m.key) (drop n whole)) (sym length-sized)
      ∙ ap (λ p. take (length m.key) (drop (length (put16 pre key_size)) p)) {x = whole}
          {y = put16 pre key_size ++ (m.key ++ behind_key)} (simp (append_assoc))
      ∙ ap (take (length m.key)) (drop-append_left (put16 pre key_size) (m.key ++ behind_key))
      ∙ take-append_left m.key behind_key

  value_read : take (length m.value) (drop (length pre + 6 + length m.key) whole) ≡ m.value
  value_read =
      ap (λ n. take (length m.value) (drop n whole)) (sym length-valued)
      ∙ ap (λ p. take (length m.value) (drop (length (put32 keyed value_size)) p)) {x = whole}
          {y = put32 keyed value_size ++ (m.value ++ tail)} (simp (append_assoc))
      ∙ ap (take (length m.value)) (drop-append_left (put32 keyed value_size) (m.value ++ tail))
      ∙ take-append_left m.value tail

  pub parse_pair-put_pair :
      parse_pair whole (length pre) ≡ parsed (m.key, m.value, length (put_pair pre m))
  unfolding parse_pair
  parse_pair-put_pair =
      let p = length pre in
      let k = length m.key in
      let second : advance whole p 2 ≡ some (p + 2) =
        advance_within whole p 2 (omega (arith, length-whole)) in
      let third : advance whole (p + 2) k ≡ some (p + 2 + k) =
        advance_within whole (p + 2) k (omega (arith, length-whole)) in
      let fourth : advance whole (p + 2 + k) 4 ≡ some (p + 6 + k) =
        advance_within whole (p + 2 + k) 4 (omega (arith, length-whole)) ∙ ap some (omega arith) in
      let fifth : advance whole (p + 6 + k) (length m.value) ≡ some (length (put_pair pre m)) =
        advance_within whole (p + 6 + k) (length m.value) (omega (arith, length-whole))
        ∙ ap some (omega (arith, length-append (put32 keyed value_size) m.value, length-valued)) in
      let first_read : get16 whole (p + 2 - 2) ≡ some k =
        ap (get16 whole) {x = p + 2 - 2} {y = p} (omega arith) ∙ key_size_read in
      let second_read : get32 whole (p + 6 + k - 4) ≡ some (length m.value) =
        ap (get32 whole) {x = p + 6 + k - 4} {y = p + 2 + k} (omega arith) ∙ value_size_read in
      rw (second, advance)
        (rw first_read (
          rw (third, advance)
            (rw (fourth, advance)
              (rw second_read (rw (fifth, advance) (rw key_read (rw value_read refl)))))))
