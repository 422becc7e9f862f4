-- ===== src/Bytes.antt =====
-- Big-endian integers over byte lists: `Put16`, `Put32`, `Put64` and `Get16`, `Get32`, `Get64` of
-- src/protocol/protocol_codec.cc, which src/core/storage/storage_engine.cc and
-- src/server/broker.cc repeat, and their `std::istream` forms of
-- src/core/consumer_offset_store.cc and src/core/topic_metadata_store.cc.
-- A byte is a number below 256, and a string is the list of its bytes.
pub mod Laws
pub mod Bits
pub mod Equality
use mq_project.Prelude.{
  ℕ, zero, suc, ◌+◌, ◌*◌, ◌/◌, ◌%◌, ◌^◌, ◌<◌, Option, none, some, List, [], ◌∷◌, ◌++◌, get_elem?,
}

abbrev pub Byte : Type 0
Byte = ℕ

abbrev pub Bytes : Type 0
Bytes = List Byte

abbrev pub IsByte : ℕ → Type 0
IsByte b = b < 256

abbrev pub All {ℓ κ} : {A : Type ℓ} → (A → Type κ) → List A → Type κ
All P [] = Unit
All P (x ∷ xs) = P x × All P xs

-- The bytes of the loop `for (shift = 8 * (n - 1); shift >= 0; shift -= 8)`: `v >> 8k` is
-- `v / 256 ^ k`, and the cast to `char` keeps the low eight bits.
abbrev pub be_bytes : ℕ → ℕ → Bytes
be_bytes zero v = []
be_bytes (suc k) v = (v / 256 ^ k % 256) ∷ be_bytes k v

abbrev pub put16 : Bytes → ℕ → Bytes
put16 out v = out ++ ((v / 256 % 256) ∷ (v % 256) ∷ [])

abbrev pub put32 : Bytes → ℕ → Bytes
put32 out v = out ++ be_bytes 4 v

abbrev pub put64 : Bytes → ℕ → Bytes
put64 out v = out ++ be_bytes 8 v

-- The loop of `Get32` and `Get64`: `value = (value << 8) | in[pos + i]` in a word of `m` values.
-- The low eight bits of `value << 8` are zero, so that `|` is a sum. A read past the end is `none`.
pub get_loop : ℕ → Bytes → ℕ → ℕ → ℕ → Option ℕ
get_loop m input pos zero value = some value
get_loop m input pos (suc n) value = elim (get_elem? input pos) [
  | none ↦ none
  | some b ↦ get_loop m input (pos + 1) n (value * 256 % m + b)
]

unfoldable pub get16 : Bytes → ℕ → Option ℕ
get16 input pos = elim (get_elem? input pos) [
  | none ↦ none
  | some a ↦ elim (get_elem? input (pos + 1)) [ none ↦ none | some b ↦ some (a * 256 + b) ]
]

unfoldable pub get32 : Bytes → ℕ → Option ℕ
unfolding get_loop
get32 input pos = get_loop (2 ^ 32) input pos 4 0

unfoldable pub get64 : Bytes → ℕ → Option ℕ
unfolding get_loop
get64 input pos = get_loop (2 ^ 64) input pos 8 0

-- The forms over a stream: `none` at its end, else the value and what is left to read.
pub stream_loop : ℕ → ℕ → ℕ → Bytes → Option (ℕ × Bytes)
stream_loop m zero value input = some (value, input)
stream_loop m (suc n) value [] = none
stream_loop m (suc n) value (b ∷ input) = stream_loop m n (value * 256 % m + b) input

unfoldable pub stream_get16 : Bytes → Option (ℕ × Bytes)
stream_get16 (a ∷ b ∷ input) = some ((a * 256 + b) % 2 ^ 16, input)
stream_get16 input = none

unfoldable pub stream_get32 : Bytes → Option (ℕ × Bytes)
unfolding stream_loop
stream_get32 input = stream_loop (2 ^ 32) 4 0 input

unfoldable pub stream_get64 : Bytes → Option (ℕ × Bytes)
unfolding stream_loop
stream_get64 input = stream_loop (2 ^ 64) 8 0 input

-- `in.read(buffer, n)`: all `n` bytes, or a failure.
unfoldable pub stream_read : ℕ → Bytes → Option (Bytes × Bytes)
stream_read zero input = some ([], input)
stream_read (suc n) [] = none
stream_read (suc n) (b ∷ input) = elim (stream_read n input) [
  | none ↦ none
  | some (got, left) ↦ some (b ∷ got, left)
]
