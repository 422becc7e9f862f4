-- ===== src/Core/Storage.antt =====
-- The records of the write-ahead log of `StorageEngine`, src/core/storage/storage_engine.cc: how
-- `Append` writes a message, and how `Recover` reads the log of one segment back. A time stamp is its
-- 64 bits. A read past the end of a string is a fault.
pub mod Recovery
pub mod Crash
pub mod Partition
pub mod Engine
pub mod Tests
use mq_project.Prelude.{
  ℕ, zero, suc, ◌+◌, ◌-◌, ◌*◌, ◌/◌, ◌%◌, ◌^◌, ◌≤◌, ◌<◌, Bool, true, false, not, ◌&&◌, ◌||◌, Option,
  none, some, List, [], ◌∷◌, ◌++◌, length, take, drop, ltb, ◌==◌, if◌then◌else◌, bit_and, bit_xor,
}
use mq_project.Bytes.{Byte, Bytes, put16, put32, put64, get16, get32, get64, stream_read}

-- `crc = (crc >> 1) ^ (0xEDB88320u & -(crc & 1))`.
abbrev pub crc_bit : ℕ → ℕ
crc_bit crc = bit_xor (crc / 2) (bit_and 0xEDB88320 ((2 ^ 32 - crc % 2) % 2 ^ 32))

pub crc_bits : ℕ → ℕ → ℕ
crc_bits zero crc = crc
crc_bits (suc n) crc = crc_bits n (crc_bit crc)

pub crc_loop : ℕ → Bytes → ℕ
unfolding crc_bits
crc_loop crc [] = crc
crc_loop crc (b ∷ bs) = crc_loop (crc_bits 8 (bit_xor crc b)) bs

-- `~crc` of 32 bits.
unfoldable pub crc32 : Bytes → ℕ
unfolding crc_loop
crc32 bytes = 2 ^ 32 - 1 - crc_loop 0xFFFFFFFF bytes

pub record Message : Type 0 where
  pub offset : ℕ
  pub timestamp_ms : ℕ
  pub key : Bytes
  pub value : Bytes

abbrev pub body_fixed_size : ℕ
body_fixed_size = 22

abbrev pub record_header_size : ℕ
record_header_size = 8

abbrev pub max_message_bytes : ℕ
max_message_bytes = 1024 * 1024

abbrev pub body_head : Message → Bytes
body_head m = put16 (put64 (put64 [] m.offset) m.timestamp_ms) (length m.key)

-- The body and the record as `Append` writes them.
unfoldable pub body_bytes : Message → Bytes
body_bytes m = put32 (body_head m ++ m.key) (length m.value) ++ m.value

unfoldable pub record_bytes : Message → Bytes
record_bytes m = put32 (put32 [] (crc32 (body_bytes m))) (length (body_bytes m)) ++ body_bytes m

-- One round of the loop of `Recover`: a message, the length of its body and what is left of the file;
-- or the end, at the end of the file or at what is no whole record.
pub data Round : Type 0 where
  taken : Message → ℕ → Bytes → Round
  broken : Round
  faulted : Round

infixl 5 ◌>>=◌
abbrev pub ◌>>=◌ : {A : Type 0} → Option A → (A → Round) → Round
none >>= f = faulted
some a >>= f = f a

-- The fields of a body whose lengths agree.
unfoldable pub read_fields : ℕ → ℕ → ℕ → ℕ → Bytes → Bytes → Round
read_fields next len key_len value_len body left = do
  offset ← get64 body 0
  timestamp_ms ← get64 body 8
  (if offset == next
      then taken
          (record {
            offset = offset;
            timestamp_ms = timestamp_ms;
            key = take key_len (drop 18 body);
            value = take value_len (drop (22 + key_len) body);
          })
          len left
      else broken)

unfoldable pub read_value : ℕ → ℕ → ℕ → Bytes → Bytes → Round
unfolding read_fields
read_value next len key_len body left = do
  value_len ← get32 body (18 + key_len)
  (if 22 + key_len + value_len == len
      then read_fields next len key_len value_len body left
      else broken)

unfoldable pub read_body : ℕ → ℕ → Bytes → Bytes → Round
unfolding read_value
read_body next len body left = do
  key_len ← get16 body 16
  (if ltb len (18 + key_len + 4) then broken else read_value next len key_len body left)

unfoldable pub read_sized : ℕ → ℕ → ℕ → Bytes → Round
unfolding read_body
read_sized next crc len rest =
    if ltb len body_fixed_size || ltb (body_fixed_size + 65535 + max_message_bytes) len
    then broken
    else elim (stream_read len rest) [
      | none ↦ broken
      | some (body, left) ↦ if crc32 body == crc then read_body next len body left else broken
    ]

unfoldable pub read_record : ℕ → Bytes → Round
unfolding read_sized
read_record next file = elim (stream_read record_header_size file) [
  | none ↦ broken
  | some (header, rest) ↦ do
    crc ← get32 header 0
    len ← get32 header 4
    read_sized next crc len rest
]

-- What the loop leaves of a segment: its messages, its valid bytes, and the next offset.
pub record Recovered : Type 0 where
  pub messages : List Message
  pub valid_bytes : ℕ
  pub next_offset : ℕ

-- The loop; a round that goes on takes at least 30 bytes. `none` is a fault or the end of the fuel.
pub scan : ℕ → ℕ → Bytes → Option Recovered
unfolding read_record
scan zero next file = none
scan (suc fuel) next file = elim (read_record next file) [
  | broken ↦ some (record { messages = []; valid_bytes = 0; next_offset = next })
  | faulted ↦ none
  | taken m len left ↦ elim (scan fuel ((next + 1) % 2 ^ 64) left) [
    | none ↦ none
    | some r ↦ some (record {
      messages = m ∷ r.messages;
      valid_bytes = record_header_size + len + r.valid_bytes;
      next_offset = r.next_offset;
    })
  ]
]

unfoldable pub recover : ℕ → Bytes → Option Recovered
unfolding scan
recover next file = scan (suc (length file)) next file
