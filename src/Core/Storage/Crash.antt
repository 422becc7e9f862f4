-- ===== src/Core/Storage/Crash.antt =====
-- What `Recover` finds in a log whose last record is cut, as a crash in the middle of a write leaves it.
use mq_project.Prelude.{
  ℕ, zero, suc, ◌+◌, ◌-◌, ◌%◌, ◌^◌, ◌≤◌, ◌<◌, ◌≡◌, inl, inr, refl, ap, ap₂, sym, ◌∙◌, Bool, ◌||◌,
  Option, none, some, List, [], ◌∷◌, ◌++◌, length, take, arith, Bool-cases, append_assoc,
  length-append, ltb, ltb→lt, ltb→le,
}
use mq_project.Bytes.{Bytes, be_bytes, stream_read}
use mq_project.Bytes.Laws.{get32-append}
use mq_project.Core.Storage.{
  Message, crc32, body_fixed_size, max_message_bytes, body_bytes, record_bytes, taken, broken,
  read_sized, read_record, Recovered, scan, recover,
}
use mq_project.Core.Storage.Recovery.{
  IsMessage, read_record-record_bytes, read_record_by, length-body, crc32_fits,
}

-- Messages with the offsets from `next` on.
abbrev pub Follows : ℕ → List Message → Type 0
Follows next [] = Unit
Follows next (m ∷ ms) = (m.offset ≡ next) × IsMessage m × Follows (next + 1) ms

abbrev pub log_bytes : List Message → Bytes
log_bytes [] = []
log_bytes (m ∷ ms) = record_bytes m ++ log_bytes ms

length-record_bytes : (m : Message) → length (record_bytes m) ≡ 8 + length (body_bytes m)
unfolding record_bytes
length-record_bytes m = omega arith

pub scan-log_bytes :
    (fuel next : ℕ) (ms : List Message) (tail : Bytes)
    → Follows next ms
    → next + length ms < 2 ^ 64
    → length (log_bytes ms ++ tail) < fuel
    → read_record (next + length ms) tail ≡ broken
    → scan fuel next (log_bytes ms ++ tail)
      ≡ some (record {
        messages = ms;
        valid_bytes = length (log_bytes ms);
        next_offset = next + length ms;
      })
unfolding scan
scan-log_bytes zero next ms tail f h k e = absurd (omega arith)
scan-log_bytes (suc fuel) next [] tail f h k e =
    let ends : read_record next tail ≡ broken =
      ap (λ n. read_record n tail) {x = next} {y = next + 0} (omega arith) ∙ e in
    rw (ends, scan)
      (ap (λ n. some (record { messages = []; valid_bytes = 0; next_offset = n })) {x = next}
        {y = next + 0} (omega arith))
scan-log_bytes (suc fuel) next (m ∷ ms) tail (o, v, f) h k e =
    let rest = log_bytes ms ++ tail in
    let total = length-append (record_bytes m) (log_bytes ms) in
    let whole = length-append (log_bytes (m ∷ ms)) tail in
    let shorter = length-append (log_bytes ms) tail in
    let size = length-record_bytes m in
    let first : read_record next (log_bytes (m ∷ ms) ++ tail)
        ≡ taken m (length (body_bytes m)) rest =
      ap (read_record next) (append_assoc (record_bytes m) (log_bytes ms) tail)
      ∙ ap (λ n. read_record n (record_bytes m ++ rest)) (sym o)
      ∙ read_record-record_bytes m v rest in
    let wraps : (next + 1) % 2 ^ 64 ≡ next + 1 = omega arith in
    let on : read_record (next + 1 + length ms) tail ≡ broken =
      ap (λ n. read_record n tail) {x = next + 1 + length ms} {y = next + suc (length ms)}
        (omega arith)
      ∙ e in
    let others = scan-log_bytes fuel (next + 1) ms tail f (omega arith) (omega arith) on in
    rw (first, scan) (rw wraps (rw (others, scan) (same ms m (omega arith) (omega arith))))
  where
    same :
        (ms : List Message) (m : Message) {a b c d : ℕ}
        → a ≡ b
        → c ≡ d
        → Path
            (Option Recovered)
            (some (record { messages = m ∷ ms; valid_bytes = a; next_offset = c }))
            (some (record { messages = m ∷ ms; valid_bytes = b; next_offset = d }))
    same ms m p q =
        ap₂ (λ x y. some (record { messages = m ∷ ms; valid_bytes = x; next_offset = y })) p q

stream_read_short : (n : ℕ) (input : Bytes) → length input < n → stream_read n input ≡ none
unfolding stream_read
stream_read_short zero input h = absurd (omega arith)
stream_read_short (suc n) [] h = refl
stream_read_short (suc n) (b ∷ input) h = rw (stream_read_short n input (omega arith), stream_read)

take-append_right :
    (k : ℕ) (xs ys : Bytes) → length xs ≤ k → take k (xs ++ ys) ≡ xs ++ take (k - length xs) ys
take-append_right k [] ys h = ap (λ n. take n ys) {x = k} {y = k - 0} (omega arith)
take-append_right zero (x ∷ xs) ys h = absurd (omega arith)
take-append_right (suc k) (x ∷ xs) ys h = ap (◌∷◌ x) (
    take-append_right k xs ys (omega arith)
    ∙ ap (λ n. xs ++ take n ys) {x = k - length xs} {y = suc k - suc (length xs)} (omega arith))

length-take_le : (k : ℕ) (xs : Bytes) → length (take k xs) ≤ k
length-take_le zero xs = omega arith
length-take_le (suc k) [] = omega arith
length-take_le (suc k) (x ∷ xs) = omega (arith, length-take_le k xs)

pub read_record_short : (next : ℕ) (file : Bytes) → length file < 8 → read_record next file ≡ broken
unfolding read_record
read_record_short next file h = rw (stream_read_short 8 file h, read_record)

read_sized_short :
    (next crc len : ℕ) (rest : Bytes) → length rest < len → read_sized next crc len rest ≡ broken
unfolding read_sized
read_sized_short next crc len rest h =
    rw (stream_read_short len rest h, read_sized)
      (elim (Bool-cases bad) [ inl b ↦ rw b | inr b ↦ rw b ])
  where
    bad : Bool
    bad = ltb len body_fixed_size || ltb (body_fixed_size + 65535 + max_message_bytes) len

-- A record that is not whole ends the log.
read_record_cut :
    (next k : ℕ) (m : Message)
    → IsMessage m
    → k < length (record_bytes m)
    → read_record next (take k (record_bytes m)) ≡ broken
unfolding record_bytes stream_read
read_record_cut next k m v h = elim (Bool-cases (ltb k 8)) [
  | inl short ↦
      read_record_short next (take k (record_bytes m))
        (omega (arith, length-take_le k (record_bytes m), ltb→lt k 8 short))
  | inr long ↦
      let header = be_bytes 4 (crc32 (body_bytes m)) ++ be_bytes 4 (length (body_bytes m)) in
      let n = length-body m v in
      let eight = ltb→le k 8 long in
      let e : take k (record_bytes m) ≡ header ++ take (k - 8) (body_bytes m) =
        take-append_right k header (body_bytes m) eight in
      rw e (
        read_record_by next (crc32 (body_bytes m)) (length (body_bytes m))
          (header ++ take (k - 8) (body_bytes m)) header (take (k - 8) (body_bytes m)) refl
          (get32-append [] (crc32 (body_bytes m)) (be_bytes 4 (length (body_bytes m)))
            (crc32_fits (body_bytes m)))
          (get32-append (be_bytes 4 (crc32 (body_bytes m))) (length (body_bytes m)) []
            (omega (arith, n, v.key_fits, v.value_fits)))
        ∙ read_sized_short next _ _ (take (k - 8) (body_bytes m))
            (omega (arith, length-take_le (k - 8) (body_bytes m), length-record_bytes m)))
]

-- After a crash in the middle of the write of a message `m` behind the messages `ms`, whatever number
-- of its bytes reached the file, `Recover` finds exactly `ms`, keeps exactly their bytes, and goes on
-- at the next offset, as long as the fields are in range and the offsets fit 64 bits.
pub recover-cut :
    (next k : ℕ) (ms : List Message) (m : Message)
    → Follows next ms
    → next + length ms < 2 ^ 64
    → IsMessage m
    → k < length (record_bytes m)
    → recover next (log_bytes ms ++ take k (record_bytes m))
      ≡ some (record {
        messages = ms;
        valid_bytes = length (log_bytes ms);
        next_offset = next + length ms;
      })
unfolding recover
recover-cut next k ms m f h v l =
    scan-log_bytes (suc (length (log_bytes ms ++ take k (record_bytes m)))) next ms
      (take k (record_bytes m)) f h (omega arith) (read_record_cut (next + length ms) k m v l)
