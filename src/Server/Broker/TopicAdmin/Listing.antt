-- ===== src/Server/Broker/TopicAdmin/Listing.antt =====
-- What `listTopics` of the client makes of the answer.
use mq_project.Prelude.{
  ℕ, suc, ◌+◌, ◌/◌, ◌%◌, ◌^◌, ◌≤◌, ◌<◌, ◌≡◌, refl, ap, sym, ◌∙◌, arith, some, List, [], ◌∷◌, ◌++◌,
  length, take, drop, le→ltb, ==_iff, length-append, append_assoc, append-nil, drop-append_left,
  take-append_left, map,
}
use mq_project.Bytes.{Bytes, All, be_bytes, put16, put32, get16, get32}
use mq_project.Bytes.Laws.{get16-append, get32-append}
use mq_project.Protocol.Status
use mq_project.Protocol.Codec.{Request}
use mq_project.Core.Queues.{TopicMetadata, list_topics}
use mq_project.Server.Broker.{Broker}
use mq_project.Server.Broker.Reply.{reply}
use mq_project.Server.Broker.TopicAdmin.{put_topic_list, handle_list_topic}
use mq_project.Client.Producer.{TopicInfo, read_topic_list, read_topics_answer}

pub record IsListable (t : TopicMetadata) : Type 0 where
  pub name_fits : length t.name ≤ 65535
  pub count_fits : t.partition_count < 2 ^ 32

abbrev pub info_of : TopicMetadata → TopicInfo
info_of t = record { name = t.name; partitions = t.partition_count }

abbrev put_topic : Bytes → TopicMetadata → Bytes
put_topic payload t = put32 (put16 payload (length t.name % 2 ^ 16) ++ t.name) t.partition_count

pub put_topic_list-append :
    (payload : Bytes) (ts : List TopicMetadata)
    → (tail : Bytes) × (put_topic_list payload ts ≡ payload ++ tail)
unfolding put_topic_list
put_topic_list-append payload [] = ([], sym (append-nil payload))
put_topic_list-append payload (t ∷ ts) =
    let (tail, e) = put_topic_list-append (put_topic payload t) ts in
    (put_topic [] t ++ tail, e ∙ simp (append_assoc))

module _ (pre tail : Bytes) (t : TopicMetadata) (v : IsListable t) where
  abbrev whole : Bytes
  whole = put_topic pre t ++ tail

  abbrev name_size : ℕ
  name_size = length t.name % 2 ^ 16

  abbrev named : Bytes
  named = put16 pre name_size ++ t.name

  abbrev behind_name : Bytes
  behind_name = be_bytes 4 t.partition_count ++ tail

  length-sized : length (put16 pre name_size) ≡ length pre + 2
  length-sized = omega (arith, length-append pre ((name_size / 256 % 256) ∷ (name_size % 256) ∷ []))

  length-named : length named ≡ length pre + 2 + length t.name
  length-named = omega (arith, length-append (put16 pre name_size) t.name, length-sized)

  length-put : length (put_topic pre t) ≡ length pre + 2 + length t.name + 4
  length-put = omega (arith, length-append named (be_bytes 4 t.partition_count), length-named)

  length-whole : length whole ≡ length pre + 6 + length t.name + length tail
  length-whole = omega (arith, length-append (put_topic pre t) tail, length-put)

  name_size_read : get16 whole (length pre) ≡ some (length t.name)
  name_size_read =
      ap (λ p. get16 p (length pre)) {x = whole}
        {y = pre ++ ((name_size / 256 % 256) ∷ (name_size % 256) ∷ (t.name ++ behind_name))}
        (simp (append_assoc))
      ∙ get16-append pre name_size (t.name ++ behind_name) (omega arith)
      ∙ ap some (omega (arith, v.name_fits))

  count_read : get32 whole (length pre + 2 + length t.name) ≡ some t.partition_count
  count_read =
      ap (get32 whole) (sym length-named)
      ∙ ap (λ p. get32 p (length named)) {x = whole} {y = named ++ behind_name}
          (simp (append_assoc))
      ∙ get32-append named t.partition_count tail v.count_fits

  name_read : take (length t.name) (drop (length pre + 2) whole) ≡ t.name
  name_read =
      ap (λ n. take (length t.name) (drop n whole)) (sym length-sized)
      ∙ ap (λ p. take (length t.name) (drop (length (put16 pre name_size)) p)) {x = whole}
          {y = put16 pre name_size ++ (t.name ++ behind_name)} (simp (append_assoc))
      ∙ ap (take (length t.name)) (drop-append_left (put16 pre name_size) (t.name ++ behind_name))
      ∙ take-append_left t.name behind_name

  read_one :
      (n end : ℕ) (infos : List TopicInfo)
      → read_topic_list n (length (put_topic pre t)) whole ≡ some (infos, end)
      → read_topic_list (suc n) (length pre) whole ≡ some (info_of t ∷ infos, end)
  unfolding read_topic_list
  read_one n end infos h =
      let p = length pre in
      let rest : read_topic_list n (p + 2 + length t.name + 4) whole ≡ some (infos, end) =
        ap (λ k. read_topic_list n k whole) (sym length-put) ∙ h in
      rw (le→ltb (length whole) (p + 2) (omega (arith, length-whole))) (
        rw name_size_read (
          rw (le→ltb (length whole) (p + 2 + length t.name + 4) (omega (arith, length-whole)))
            (rw count_read (rw (rest, read_topic_list) (rw name_read refl)))))

pub read-put_topic_list :
    (pre : Bytes) (ts : List TopicMetadata)
    → All IsListable ts
    → read_topic_list (length ts) (length pre) (put_topic_list pre ts)
      ≡ some (map info_of ts, length (put_topic_list pre ts))
unfolding read_topic_list put_topic_list
read-put_topic_list pre [] v = refl
read-put_topic_list pre (t ∷ ts) (v, vs) =
    let (tail, e) = put_topic_list-append (put_topic pre t) ts in
    let all : Bytes = put_topic_list (put_topic pre t) ts in
    ap (read_topic_list (suc (length ts)) (length pre)) e
    ∙ read_one pre tail t v (length ts) (length all) (map info_of ts) (
        ap (read_topic_list (length ts) (length (put_topic pre t))) (sym e)
        ∙ read-put_topic_list (put_topic pre t) ts vs)

-- The client reads from the answer to a request for the topics just the topics of the broker, sorted by their names, with the numbers of their
-- partitions, where there are at most 100,000 topics.
pub read-handle_list_topic :
    (r : Request) (b : Broker)
    → r.topic ≡ []
    → r.payload ≡ []
    → All IsListable (list_topics b.queues)
    → length (list_topics b.queues) ≤ 100000
    → (payload : Bytes) × (handle_list_topic r b ≡ (reply Status.ok payload, b))
      × (read_topics_answer payload ≡ some (map info_of (list_topics b.queues)))
unfolding handle_list_topic read_topics_answer
read-handle_list_topic r b t p v l =
    let ts = list_topics b.queues in
    let count = length ts in
    let pre : Bytes = put32 [] (count % 2 ^ 32) in
    let all : Bytes = put_topic_list pre ts in
    let (tail, e) = put_topic_list-append pre ts in
    let long : length all ≡ 4 + length tail = omega (arith, ap length e) in
    let count_read : get32 all 0 ≡ some count =
      ap (λ q. get32 q 0) e
      ∙ get32-append [] (count % 2 ^ 32) tail (omega arith)
      ∙ ap some (omega (arith, l)) in
    (
      all,
      rw t (rw p refl),
      rw (le→ltb (length all) 4 (omega (arith, long))) (
          rw count_read (
            rw (le→ltb 100000 count l) (
              rw (read-put_topic_list pre ts v, read_topics_answer)
                (rw ((==_iff (length all) (length all)).1 refl) refl)))),
    )
