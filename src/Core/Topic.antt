-- ===== src/Core/Topic.antt =====
-- `IsValidTopicName` of src/core/topic.cc: which names a topic may have.
pub mod Utf8
pub mod Encoding
pub mod Names
use mq_project.Prelude.{
  ℕ, zero, suc, ◌+◌, ◌-◌, ◌*◌, ◌/◌, ◌%◌, ◌≤◌, ◌<◌, ◌≡◌, Bool, true, false, not, ◌&&◌, ◌||◌, Option,
  none, some, List, [], ◌∷◌, ◌++◌, length, take, drop, ltb, leb, ◌==◌, if◌then◌else◌, bit_and,
  arith,
}
use mq_project.Bytes.{Byte, Bytes}

pub is_continuation : Byte → Bool
is_continuation b = bit_and b 0xC0 == 0x80

-- How many bytes a character has by its first byte, from 0x80 on; 0 where no character begins so.
pub sequence_length : Byte → ℕ
sequence_length first =
    if leb 0xC2 first && leb first 0xDF
    then 2
    else (if leb 0xE0 first && leb first 0xEF
        then 3
        else (if leb 0xF0 first && leb first 0xF4 then 4 else 0))

pub all_continuations : Bytes → Bool
all_continuations [] = true
all_continuations (b ∷ bs) = is_continuation b && all_continuations bs

-- The second bytes that would spell a shorter form, a surrogate, or a value past U+10FFFF.
abbrev pub bad_second : Byte → Byte → Bool
bad_second first second =
    (first == 0xE0 && ltb second 0xA0)
    || (first == 0xED && leb 0xA0 second)
    || (first == 0xF0 && ltb second 0x90)
    || (first == 0xF4 && leb 0x90 second)

pub good_second : Byte → Bytes → Bool
good_second first [] = false
good_second first (second ∷ rest) = not (bad_second first second)

-- The checks of a character of `n` bytes that begins with `first`, before the bytes `rest`.
pub sequence_ok : Byte → ℕ → Bytes → Bool
unfolding all_continuations good_second
sequence_ok first n rest =
    not (n == 0)
    && leb (n - 1) (length rest)
    && all_continuations (take (n - 1) rest)
    && good_second first rest

-- The loop over `value[index..]`; each round takes at least one byte, so that the length of the
-- text is fuel enough.
pub utf8_loop : ℕ → Bytes → Bool
utf8_loop fuel [] = true
utf8_loop zero (first ∷ rest) = false
utf8_loop (suc fuel) (first ∷ rest) =
    let ascii = utf8_loop fuel rest in
    let n = sequence_length first in
    let longer = utf8_loop fuel (drop (n - 1) rest) in
    if ltb first 0x80 then ascii else (if sequence_ok first n rest then longer else false)

unfoldable pub is_valid_utf8 : Bytes → Bool
unfolding utf8_loop sequence_length sequence_ok is_continuation
is_valid_utf8 value = utf8_loop (length value) value

-- `/ \ : * ? " < > |` and what is below a space.
unfoldable pub is_forbidden : Byte → Bool
is_forbidden b =
    ltb b 0x20
    || b == 0x2F
    || b == 0x5C
    || b == 0x3A
    || b == 0x2A
    || b == 0x3F
    || b == 0x22
    || b == 0x3C
    || b == 0x3E
    || b == 0x7C

unfoldable pub no_forbidden : Bytes → Bool
unfolding is_forbidden
no_forbidden [] = true
no_forbidden (b ∷ bs) = if is_forbidden b then false else no_forbidden bs

-- `.` and `..`
unfoldable pub is_dots : Bytes → Bool
is_dots (a ∷ []) = a == 0x2E
is_dots (a ∷ b ∷ []) = a == 0x2E && b == 0x2E
is_dots _ = false

unfoldable pub is_valid_topic_name : Bytes → Bool
unfolding is_valid_utf8 is_dots no_forbidden
is_valid_topic_name topic =
    if length topic == 0 || ltb 64 (length topic) || is_dots topic
    then false
    else (if no_forbidden topic then is_valid_utf8 topic else false)
