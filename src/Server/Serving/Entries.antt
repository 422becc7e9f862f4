-- ===== src/Server/Serving/Entries.antt =====
-- The messages of a request for an append, as the other broker reads them.
use mq_project.Prelude.{
  ℕ, suc, ◌+◌, ◌≡◌, refl, ap, sym, ◌∙◌, arith, List, [], ◌∷◌, ◌++◌, length, le→ltb, append_assoc,
  append-nil,
}
use mq_project.Bytes.{Bytes, All}
use mq_project.Core.Storage.{Message}
use mq_project.Core.Storage.Recovery.{IsMessage}
use mq_project.Server.Broker.Reply.{parsed}
use mq_project.Server.Broker.Entries.{parse_entries}
use mq_project.Server.Broker.Fetch.{put_message}
use mq_project.Server.Broker.Fetch.Wire.{
  whole, offset_read, timestamp_read, key_size_read, value_size_read, key_read, value_read,
  length-whole, length-put_message,
}
use mq_project.Server.ReplicationClient.Append.{put_entries}

-- What the loop of the client adds to a payload.
pub put_entries-append :
    (payload : Bytes) (ms : List Message)
    → (tail : Bytes) × (put_entries payload ms ≡ payload ++ tail)
unfolding put_entries
put_entries-append payload [] = ([], sym (append-nil payload))
put_entries-append payload (m ∷ ms) =
    let (tail, e) = put_entries-append (put_message payload m) ms in
    (put_message [] m ++ tail, e ∙ simp (append_assoc))

parse_entries-suc :
    (n : ℕ) (pre tail : Bytes) (m : Message) (ms : List Message) (end : ℕ)
    → IsMessage m
    → parse_entries n (whole pre tail m) (length (put_message pre m)) ≡ parsed (ms, end)
    → parse_entries (suc n) (whole pre tail m) (length pre) ≡ parsed (m ∷ ms, end)
unfolding parse_entries
parse_entries-suc n pre tail m ms end v h =
    let p = length pre in
    let all : Bytes = whole pre tail m in
    let long = length-whole pre tail m v in
    let next : length (put_message pre m) ≡ p + 18 + length m.key + 4 + length m.value =
      omega (arith, length-put_message pre m) in
    let rest : parse_entries n all (p + 18 + length m.key + 4 + length m.value) ≡ parsed (ms, end) =
      ap (parse_entries n all) (sym next) ∙ h in
    rw (le→ltb (length all) (p + 18) (omega (arith, long))) (
      rw (offset_read pre tail m v) (
        rw (timestamp_read pre tail m v) (
          rw (key_size_read pre tail m v) (
            rw (le→ltb (length all) (p + 18 + length m.key + 4) (omega (arith, long))) (
              rw (value_size_read pre tail m v) (
                rw
                  (le→ltb (length all) (p + 18 + length m.key + 4 + length m.value)
                    (omega (arith, long)))
                  (rw rest (rw (key_read pre tail m v) (rw (value_read pre tail m v) refl)))))))))

-- The messages that the client has put behind a payload.
pub parse-put_entries :
    (pre : Bytes) (ms : List Message)
    → All IsMessage ms
    → parse_entries (length ms) (put_entries pre ms) (length pre)
      ≡ parsed (ms, length (put_entries pre ms))
unfolding parse_entries put_entries
parse-put_entries pre [] v = refl
parse-put_entries pre (m ∷ ms) (v, vs) =
    let (tail, e) = put_entries-append (put_message pre m) ms in
    ap (λ all. parse_entries (suc (length ms)) all (length pre)) e
    ∙ parse_entries-suc (length ms) pre tail m ms (length (put_entries (put_message pre m) ms)) v (
        ap (λ all. parse_entries (length ms) all (length (put_message pre m))) (sym e)
        ∙ parse-put_entries (put_message pre m) ms vs)
