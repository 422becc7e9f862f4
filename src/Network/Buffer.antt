-- ===== src/Network/Buffer.antt =====
-- `Buffer` of src/network/buffer.cc: a piece of memory with a position to read at and one to write at.
pub mod Queue
use mq_project.Prelude.{
  ℕ, ◌+◌, ◌-◌, Bool, true, false, List, ◌++◌, length, take, drop, ltb, leb, if◌then◌else◌,
}
use mq_project.Bytes.{Bytes}

-- `memory` is the `capacity_bytes` bytes from `data_` on.
pub record Buffer : Type 0 where
  pub memory : Bytes
  pub capacity_bytes : ℕ
  pub read_position : ℕ
  pub write_position : ℕ

abbrev pub readable_bytes : Buffer → ℕ
readable_bytes b = b.write_position - b.read_position

abbrev pub writable_bytes : Buffer → ℕ
writable_bytes b = b.capacity_bytes - b.write_position

unfoldable pub readable : Buffer → Bytes
readable b = take (readable_bytes b) (drop b.read_position b.memory)

-- `memcpy` and `memmove` to a position of the memory.
unfoldable pub copy_to : ℕ → Bytes → Bytes → Bytes
copy_to position bytes memory =
    take position memory ++ (bytes ++ drop (position + length bytes) memory)

unfoldable pub compact : Buffer → Buffer
unfolding copy_to readable
compact b = record b {
  memory = copy_to 0 (readable b) b.memory;
  read_position = 0;
  write_position = readable_bytes b;
}

unfoldable pub write : Bytes → Buffer → Buffer
unfolding copy_to
write data_bytes b = record b {
  memory = copy_to b.write_position data_bytes b.memory;
  write_position = b.write_position + length data_bytes;
}

unfoldable pub append : Bytes → Buffer → Bool × Buffer
unfolding compact write
append data_bytes b =
    if ltb (b.capacity_bytes - readable_bytes b) (length data_bytes) then (false, b) else (
      true,
      write data_bytes (if ltb (writable_bytes b) (length data_bytes) then compact b else b),
    )

unfoldable pub clear : Buffer → Buffer
clear b = record b { read_position = 0; write_position = 0 }

unfoldable pub consume : ℕ → Buffer → Buffer
unfolding clear
consume bytes b =
    if leb (readable_bytes b) bytes
    then clear b
    else record b { read_position = b.read_position + bytes }
