-- ===== src/Network/Buffer/Queue.antt =====
-- A buffer is a queue of bytes.
use mq_project.Prelude.{
  ℕ, zero, suc, ◌+◌, ◌-◌, ◌≤◌, ◌<◌, ◌≡◌, ◌⊎◌, inl, inr, refl, ap, sym, ◌∙◌, true, false, [], ◌∷◌,
  ◌++◌, length, take, drop, arith, ltb, leb, Bool-cases, append_assoc, length-append, length-drop,
  length-take, take-append_left, take_all, drop-append_le, drop_all, ltb→le, ltb→lt,
}
use mq_project.Bytes.{Bytes}
use mq_project.Network.Buffer.{
  Buffer, readable_bytes, writable_bytes, readable, copy_to, compact, write, append, clear, consume,
}

-- The positions lie in order within the memory.
pub record IsOrdered (b : Buffer) : Type 0 where
  pub whole : length b.memory ≡ b.capacity_bytes
  pub read_first : b.read_position ≤ b.write_position
  pub within : b.write_position ≤ b.capacity_bytes

drop-take : (r w : ℕ) (xs : Bytes) → drop r (take w xs) ≡ take (w - r) (drop r xs)
drop-take zero w xs = ap (λ n. take n xs) {x = w} {y = w - 0} (omega arith)
drop-take (suc r) zero xs = ap (λ n. take n (drop (suc r) xs)) {x = 0} {y = 0 - suc r} (omega arith)
drop-take (suc r) (suc w) [] = sym (take_all (suc w - suc r) [] (omega arith))
drop-take (suc r) (suc w) (x ∷ xs) =
    drop-take r w xs ∙ ap (λ n. take n (drop r xs)) {x = w - r} {y = suc w - suc r} (omega arith)

length-copy_to :
    (p : ℕ) (bytes memory : Bytes)
    → p + length bytes ≤ length memory
    → length (copy_to p bytes memory) ≡ length memory
unfolding copy_to
length-copy_to p bytes memory h = omega (
  arith,
  length-append (take p memory) (bytes ++ drop (p + length bytes) memory),
  length-append bytes (drop (p + length bytes) memory),
  length-take p memory (omega arith),
  length-drop (p + length bytes) memory,
)

-- What is read of the memory after bytes are written at the write position.
readable-write :
    (bytes : Bytes) (b : Buffer)
    → IsOrdered b
    → length bytes ≤ writable_bytes b
    → readable (write bytes b) ≡ readable b ++ bytes
unfolding readable write copy_to
readable-write bytes b v h =
    let front = take b.write_position b.memory in
    let behind = drop (b.write_position + length bytes) b.memory in
    let held = length-take b.write_position b.memory (omega (arith, v)) in
    let seen = drop b.read_position front in
    let n = length-drop b.read_position front in
    let both = length-append seen bytes in
    let cut : drop b.read_position (front ++ (bytes ++ behind)) ≡ (seen ++ bytes) ++ behind =
      drop-append_le b.read_position front (bytes ++ behind) (omega (arith, v, held))
      ∙ sym (append_assoc seen bytes behind) in
    ap (take (b.write_position + length bytes - b.read_position)) cut
    ∙ ap (λ k. take k ((seen ++ bytes) ++ behind))
        {x = b.write_position + length bytes - b.read_position} {y = length (seen ++ bytes)}
        (omega (arith, v, held, n, both))
    ∙ take-append_left (seen ++ bytes) behind
    ∙ ap (λ s. s ++ bytes) (drop-take b.read_position b.write_position b.memory)

write-IsOrdered :
    (bytes : Bytes) (b : Buffer)
    → IsOrdered b
    → length bytes ≤ writable_bytes b
    → IsOrdered (write bytes b)
unfolding write
write-IsOrdered bytes b v h = record {
  whole = length-copy_to b.write_position bytes b.memory (omega (arith, v)) ∙ v.whole;
  read_first = omega (arith, v);
  within = omega (arith, v);
}

length-readable : (b : Buffer) → IsOrdered b → length (readable b) ≡ readable_bytes b
unfolding readable
length-readable b v =
    length-take (readable_bytes b) (drop b.read_position b.memory)
      (omega (arith, v, length-drop b.read_position b.memory))

compact-IsOrdered : (b : Buffer) → IsOrdered b → IsOrdered (compact b)
unfolding compact
compact-IsOrdered b v =
    let n = length-readable b v in
    record {
      whole = length-copy_to 0 (readable b) b.memory (omega (arith, v, n)) ∙ v.whole;
      read_first = omega arith;
      within = omega (arith, v);
    }

readable-compact : (b : Buffer) → IsOrdered b → readable (compact b) ≡ readable b
unfolding compact copy_to readable
readable-compact b v =
    let n = length-readable b v in
    let rest = drop (0 + length (readable b)) b.memory in
    ap (λ k. take k (readable b ++ rest)) {x = readable_bytes b - 0} {y = length (readable b)}
      (omega (arith, n))
    ∙ take-append_left (readable b) rest

writable-compact :
    (b : Buffer) → IsOrdered b → writable_bytes (compact b) ≡ b.capacity_bytes - readable_bytes b
unfolding compact
writable-compact b v = refl

drop-drop : (n r : ℕ) (xs : Bytes) → drop n (drop r xs) ≡ drop (r + n) xs
drop-drop n zero xs = ap (λ k. drop k xs) {x = n} {y = 0 + n} (omega arith)
drop-drop n (suc r) [] = drop_all n [] (omega arith) ∙ sym (drop_all (suc r + n) [] (omega arith))
drop-drop n (suc r) (x ∷ xs) =
    drop-drop n r xs ∙ ap (λ k. drop k (x ∷ xs)) {x = suc (r + n)} {y = suc r + n} (omega arith)

-- `Append` accepts bytes as long as the unread bytes leave room for them in the buffer, also where it
-- has to move the unread bytes first; the bytes to read are then the unread ones and the new ones, in
-- order. It refuses any others, and then the buffer stays as it was.
pub append_lem :
    (bytes : Bytes) (b : Buffer)
    → IsOrdered b
    → let (accepted, after) = append bytes b in
      ((accepted ≡ true)
        × (length (readable b) + length bytes ≤ b.capacity_bytes)
        × IsOrdered after
        × (readable after ≡ readable b ++ bytes))
      ⊎ ((accepted ≡ false) × (b.capacity_bytes < length (readable b) + length bytes) × (after ≡ b))
unfolding append
append_lem bytes b v =
    let n = length-readable b v in
    elim (Bool-cases (ltb (b.capacity_bytes - readable_bytes b) (length bytes))) [
      | inl full ↦
          let over = ltb→lt (b.capacity_bytes - readable_bytes b) (length bytes) full in
          rw (full, append) (inr (refl, omega (arith, n, v), refl))
      | inr room ↦
          let fits = ltb→le (b.capacity_bytes - readable_bytes b) (length bytes) room in
          elim (Bool-cases (ltb (writable_bytes b) (length bytes))) [
            | inl crowded ↦
                let k = compact-IsOrdered b v in
                let free = writable-compact b v in
                rw (room, append)
                  (rw crowded (
                    inl (
                      refl,
                      omega (arith, n, v),
                      write-IsOrdered bytes (compact b) k (omega (arith, free)),
                      readable-write bytes (compact b) k (omega (arith, free))
                          ∙ ap (λ s. s ++ bytes) (readable-compact b v),
                    )))
            | inr free ↦
                let h = ltb→le (writable_bytes b) (length bytes) free in
                rw (room, append)
                  (rw free (
                    inl (
                      refl,
                      omega (arith, n, v),
                      write-IsOrdered bytes b v h,
                      readable-write bytes b v h,
                    )))
          ]
    ]

-- `Consume` takes that many bytes off the front of the bytes to read, or all of them where there are
-- fewer.
pub consume_lem :
    (n : ℕ) (b : Buffer)
    → IsOrdered b
    → IsOrdered (consume n b) × (readable (consume n b) ≡ drop n (readable b))
unfolding consume clear readable
consume_lem n b v =
    let size = length-readable b v in
    elim (Bool-cases (leb (readable_bytes b) n)) [
      | inl all ↦
          rw (all, consume)
            (
              record { whole = v.whole; read_first = omega arith; within = omega arith },
              sym (drop_all n (readable b) (ground (arith, size, all))),
            )
      | inr some_left ↦
          let less : n < readable_bytes b = ground (arith, some_left) in
          rw (some_left, consume)
            (
              record { whole = v.whole; read_first = omega arith; within = v.within },
              ap (take (b.write_position - (b.read_position + n)))
                    (sym (drop-drop n b.read_position b.memory))
                  ∙ ap (λ k. take k (drop n (drop b.read_position b.memory)))
                      {x = b.write_position - (b.read_position + n)} {y = readable_bytes b - n}
                      (omega arith)
                  ∙ sym (drop-take n (readable_bytes b) (drop b.read_position b.memory)),
            )
    ]
