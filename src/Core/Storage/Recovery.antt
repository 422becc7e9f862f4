-- ===== src/Core/Storage/Recovery.antt =====
-- What `Recover` finds in a log that `Append` has written, also when its last record is cut.
use mq_project.Prelude.{
  ℕ, ◌+◌, ◌^◌, ◌≤◌, ◌<◌, ◌≡◌, ◌≢◌, false, refl, ap, ◌∙◌, true, some, [], ◌++◌, length, take, drop,
  ◌==◌, arith, append_assoc, length-append, le→ltb, ==_iff, take-append_left, drop-append_left,
  take_all,
}
use mq_project.Bytes.{Bytes, be_bytes, get16, get32, get64, stream_read}
use mq_project.Bytes.Laws.{get16-append, get32-append, get64-append, stream_read-append}
use mq_project.Core.Storage.{
  Message, crc32, body_fixed_size, record_header_size, max_message_bytes, body_head, body_bytes,
  record_bytes, taken, broken, read_body, read_sized, read_record,
}

-- The ranges of the fields, and the sizes that `Append` checks.
pub record IsMessage (m : Message) : Type 0 where
  pub offset_fits : m.offset < 2 ^ 64
  pub timestamp_fits : m.timestamp_ms < 2 ^ 64
  pub key_fits : length m.key ≤ 65535
  pub value_fits : length m.value ≤ max_message_bytes

pub crc32_fits : (bytes : Bytes) → crc32 bytes < 2 ^ 32
unfolding crc32
crc32_fits bytes = omega arith

eq_refl : (n : ℕ) → (n == n) ≡ true
eq_refl n = (==_iff n n).1 refl

-- `read_body` by its reads.
read_body_by :
    (off ts len key_len value_len : ℕ) (body left key value : Bytes)
    → get16 body 16 ≡ some key_len
    → get32 body (18 + key_len) ≡ some value_len
    → get64 body 0 ≡ some off
    → get64 body 8 ≡ some ts
    → len ≡ 22 + key_len + value_len
    → take key_len (drop 18 body) ≡ key
    → take value_len (drop (22 + key_len) body) ≡ value
    → read_body off len body left
      ≡ taken (record { offset = off; timestamp_ms = ts; key = key; value = value }) len left
unfolding read_body
read_body_by off ts len key_len value_len body left key value a b c d e f g = rw a (
    rw (le→ltb len (18 + key_len + 4) (omega arith)) (
      rw b (
        rw ((==_iff (22 + key_len + value_len) len).1 (omega arith))
          (rw c (rw d (rw (eq_refl off) (rw (f, g))))))))

read_sized_by :
    (next crc len : ℕ) (rest body left : Bytes)
    → 22 ≤ len
    → len ≤ body_fixed_size + 65535 + max_message_bytes
    → stream_read len rest ≡ some (body, left)
    → crc32 body ≡ crc
    → read_sized next crc len rest ≡ read_body next len body left
unfolding read_sized
read_sized_by next crc len rest body left h k a b = rw (le→ltb len body_fixed_size h) (
    rw (le→ltb (body_fixed_size + 65535 + max_message_bytes) len k)
      (rw a (rw ((==_iff (crc32 body) crc).1 b))))

pub read_record_by :
    (next crc len : ℕ) (file header rest : Bytes)
    → stream_read record_header_size file ≡ some (header, rest)
    → get32 header 0 ≡ some crc
    → get32 header 4 ≡ some len
    → read_record next file ≡ read_sized next crc len rest
unfolding read_record
read_record_by next crc len file header rest a b c = rw (a, read_record) (rw b (rw c))

module _ (m : Message) (v : IsMessage m) where
  abbrev keyed : Bytes
  keyed = body_head m ++ m.key

  pub length-body : length (body_bytes m) ≡ 22 + length m.key + length m.value
  unfolding body_bytes
  length-body = omega (
    arith,
    length-append m.key (be_bytes 4 (length m.value)),
    length-append (m.key ++ be_bytes 4 (length m.value)) m.value,
  )

  key_len_at : get16 (body_bytes m) 16 ≡ some (length m.key)
  unfolding body_bytes
  key_len_at =
      get16-append (take 16 (body_bytes m)) (length m.key) (drop 18 (body_bytes m))
        (omega (arith, v.key_fits))

  value_len_at : get32 (body_bytes m) (18 + length m.key) ≡ some (length m.value)
  unfolding body_bytes
  value_len_at =
      let e : 18 + length m.key ≡ length keyed = omega arith in
      ap (get32 (body_bytes m)) e
      ∙ ap (λ b. get32 b (length keyed)) (append_assoc keyed (be_bytes 4 (length m.value)) m.value)
      ∙ get32-append keyed (length m.value) m.value (omega (arith, v.value_fits))

  offset_at : get64 (body_bytes m) 0 ≡ some m.offset
  unfolding body_bytes
  offset_at = get64-append [] m.offset (drop 8 (body_bytes m)) v.offset_fits

  timestamp_at : get64 (body_bytes m) 8 ≡ some m.timestamp_ms
  unfolding body_bytes
  timestamp_at =
      get64-append (take 8 (body_bytes m)) m.timestamp_ms (drop 16 (body_bytes m)) v.timestamp_fits

  key_in : take (length m.key) (drop 18 (body_bytes m)) ≡ m.key
  unfolding body_bytes
  key_in = rw append_assoc (take-append_left m.key (be_bytes 4 (length m.value) ++ m.value))

  value_in : take (length m.value) (drop (22 + length m.key) (body_bytes m)) ≡ m.value
  unfolding body_bytes
  value_in =
      let e : 22 + length m.key ≡ length (keyed ++ be_bytes 4 (length m.value)) =
        omega (arith, length-append m.key (be_bytes 4 (length m.value))) in
      let d : drop (22 + length m.key) (body_bytes m) ≡ m.value =
        ap (λ n. drop n (body_bytes m)) e
        ∙ ap (drop (length (keyed ++ be_bytes 4 (length m.value))))
            (ap (λ b. b ++ m.value) {x = keyed ++ be_bytes 4 (length m.value)} refl)
        ∙ drop-append_left (keyed ++ be_bytes 4 (length m.value)) m.value in
      ap (take (length m.value)) d ∙ take_all (length m.value) m.value (omega arith)

  read_body-body_bytes :
      (left : Bytes)
      → read_body m.offset (length (body_bytes m)) (body_bytes m) left
        ≡ taken m (length (body_bytes m)) left
  read_body-body_bytes left =
      read_body_by m.offset m.timestamp_ms (length (body_bytes m)) (length m.key) (length m.value)
        (body_bytes m) left m.key m.value key_len_at value_len_at offset_at timestamp_at length-body
        key_in value_in

  -- The header leads to the body, whatever offset is expected.
  read_record-read_body :
      (next : ℕ) (left : Bytes)
      → read_record next (record_bytes m ++ left)
        ≡ read_body next (length (body_bytes m)) (body_bytes m) left
  unfolding record_bytes stream_read
  read_record-read_body next left =
      let header = be_bytes 4 (crc32 (body_bytes m)) ++ be_bytes 4 (length (body_bytes m)) in
      let n = length-body in
      read_record_by next (crc32 (body_bytes m)) (length (body_bytes m)) _ header
        (body_bytes m ++ left) refl
        (get32-append [] (crc32 (body_bytes m)) (be_bytes 4 (length (body_bytes m)))
          (crc32_fits (body_bytes m)))
        (get32-append (be_bytes 4 (crc32 (body_bytes m))) (length (body_bytes m)) []
          (omega (arith, n, v.key_fits, v.value_fits)))
      ∙ read_sized_by next (crc32 (body_bytes m)) (length (body_bytes m)) (body_bytes m ++ left)
          (body_bytes m) left (omega (arith, n)) (omega (arith, n, v.key_fits, v.value_fits))
          (stream_read-append (body_bytes m) left) refl

  pub read_record-record_bytes :
      (left : Bytes)
      → read_record m.offset (record_bytes m ++ left) ≡ taken m (length (body_bytes m)) left
  read_record-record_bytes left = read_record-read_body m.offset left ∙ read_body-body_bytes left

  -- A record with another offset than the next one ends the log.
  pub read_record_gap :
      (next : ℕ) (left : Bytes)
      → m.offset ≢ next
      → read_record next (record_bytes m ++ left) ≡ broken
  unfolding read_body
  read_record_gap next left g =
      let n = length-body in
      let other : (m.offset == next) ≡ false = ground (arith, g) in
      read_record-read_body next left
      ∙ rw key_len_at (
          rw (le→ltb (length (body_bytes m)) (18 + length m.key + 4) (omega (arith, n))) (
            rw value_len_at (
              rw
                ((==_iff (22 + length m.key + length m.value) (length (body_bytes m))).1
                  (omega (arith, n)))
                (rw offset_at (rw timestamp_at (rw other))))))
