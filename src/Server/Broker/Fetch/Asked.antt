-- ===== src/Server/Broker/Fetch/Asked.antt =====
-- What the broker reads of a request that `poll` of the client sends.
use mq_project.Prelude.{
  ◌+◌, ◌%◌, ◌^◌, ◌≤◌, ◌<◌, ◌≡◌, refl, ap, ◌∙◌, arith, false, ◌==◌, ==_iff, some, [], ◌++◌, length,
  append_assoc, length-append, take-append_left, le→ltb,
}
use mq_project.Bytes.{Bytes, be_bytes, put16, put32, put64, get16, get32, get64}
use mq_project.Bytes.Laws.{get16-append, get32-append, get64-append}
use mq_project.Client.Polling.{Consumer, fetch_payload, fetch_limit}
use mq_project.Server.Broker.Reply.{parsed, substr}
use mq_project.Server.Broker.Fetch.{parse_range}

module _ (c : Consumer) (some_group : 1 ≤ length c.group) (group_fits : length c.group < 2 ^ 16)
    (partition_fits : c.partition < 2 ^ 32) (offset_fits : c.next_offset < 2 ^ 64) where
  abbrev payload : Bytes
  payload = fetch_payload c

  abbrev first : Bytes
  first = put32 [] c.partition

  abbrev sized : Bytes
  sized = put16 first (length c.group % 2 ^ 16)

  abbrev ending : Bytes
  ending = be_bytes 8 c.next_offset ++ be_bytes 4 fetch_limit

  parts : payload ≡ sized ++ (c.group ++ ending)
  parts = simp (append_assoc)

  pub length-payload : length payload ≡ 18 + length c.group
  length-payload = ap length parts ∙ omega (arith, length-append c.group ending)

  pub partition_read : get32 payload 0 ≡ some c.partition
  partition_read =
      ap (λ p. get32 p 0) {x = payload}
        {y = be_bytes 4 c.partition ++ (put16 [] (length c.group % 2 ^ 16) ++ (c.group ++ ending))}
        (simp (append_assoc))
      ∙ get32-append [] c.partition _ partition_fits

  group_size_read : get16 payload 4 ≡ some (length c.group)
  group_size_read =
      ap (λ p. get16 p 4) parts
      ∙ get16-append first (length c.group % 2 ^ 16) (c.group ++ ending) (omega arith)
      ∙ ap some (omega (arith, group_fits))

  offset_read : get64 payload (6 + length c.group) ≡ some c.next_offset
  offset_read =
      ap (get64 payload) {x = 6 + length c.group} {y = length (sized ++ c.group)}
        (omega (arith, length-append sized c.group))
      ∙ ap (λ p. get64 p (length (sized ++ c.group))) {x = payload}
          {y = (sized ++ c.group) ++ (be_bytes 8 c.next_offset ++ be_bytes 4 fetch_limit)}
          (simp (append_assoc))
      ∙ get64-append (sized ++ c.group) c.next_offset (be_bytes 4 fetch_limit) offset_fits

  limit_read : get32 payload (14 + length c.group) ≡ some fetch_limit
  limit_read =
      ap (get32 payload) {x = 14 + length c.group}
        {y = length (put64 (sized ++ c.group) c.next_offset)}
        (omega (
          arith,
          length-append sized c.group,
          length-append (sized ++ c.group) (be_bytes 8 c.next_offset),
        ))
      ∙ ap (λ p. get32 p (length (put64 (sized ++ c.group) c.next_offset))) {x = payload}
          {y = put64 (sized ++ c.group) c.next_offset ++ (be_bytes 4 fetch_limit ++ [])}
          (simp (append_assoc))
      ∙ get32-append (put64 (sized ++ c.group) c.next_offset) fetch_limit [] (omega arith)

  group_read : substr payload 6 (length c.group) ≡ c.group
  group_read = ap (λ p. substr p 6 (length c.group)) parts ∙ take-append_left c.group ending

  not_plain : (length payload == 16) ≡ false
  not_plain = ground (arith, length-payload, some_group)

  no_group : (length c.group == 0) ≡ false
  no_group = ground (arith, some_group)

  pub parse-fetch_payload : parse_range payload ≡ parsed (c.next_offset, fetch_limit, c.group)
  unfolding parse_range
  parse-fetch_payload = rw not_plain (
      rw (le→ltb (length payload) 18 (omega (arith, length-payload))) (
        rw group_size_read (
          rw no_group (
            rw ((==_iff (length payload) (18 + length c.group)).1 length-payload)
              (rw offset_read (rw limit_read (rw group_read refl)))))))
