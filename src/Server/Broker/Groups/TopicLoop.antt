-- ===== src/Server/Broker/Groups/TopicLoop.antt =====
-- The loop of `HandleJoinGroup` over the topics, on what the client sends.
use mq_project.Prelude.{
  ℕ, zero, suc, ◌+◌, ◌%◌, ◌^◌, ◌≤◌, ◌<◌, ◌≡◌, ◌≢◌, refl, sym, ap, subst, ◌∙◌, arith, false, some,
  List, [], ◌∷◌, ◌++◌, length, ◌==◌, append_assoc, append-nil, length-append, le→ltb, lt→ltb, ◌/◌,
}
use mq_project.Bytes.{Bytes, All, put16, get16}
use mq_project.Client.{put_topics}
use mq_project.Bytes.Laws.{get16-append}
use mq_project.Protocol.Status
use mq_project.Server.Broker.Reply.{Parsed, parsed, stopped, ◌>>=◌, substr}
use mq_project.Server.Broker.Groups.{parse_topics}

pub not_zero : (n : ℕ) → n ≢ 0 → (n == 0) ≡ false
not_zero n h = ground (arith, h)

pub put_topics-append :
    (payload : Bytes) (topics : List Bytes)
    → (tail : Bytes) × (put_topics payload topics ≡ payload ++ tail)
unfolding put_topics
put_topics-append payload [] = ([], sym (append-nil payload))
put_topics-append payload (t ∷ ts) =
    let (tail, e) = put_topics-append (put16 payload (length t) ++ t) ts in
    (
      ((length t / 256 % 256) ∷ (length t % 256) ∷ []) ++ (t ++ tail),
      e
          ∙ append_assoc (put16 payload (length t)) t tail
          ∙ append_assoc payload ((length t / 256 % 256) ∷ (length t % 256) ∷ []) (t ++ tail),
    )

abbrev pub AreNames : List Bytes → Type 0
AreNames = All λ t. (length t ≢ 0) × (length t < 2 ^ 16)

-- How the loop over the topics ends that is told a number of them.
pub data Ends (n : ℕ) (topics : List Bytes) (size : ℕ) (x : Parsed (List Bytes × ℕ)) : Type 0 where
  refuses : x ≡ stopped Status.bad_request → Ends n topics size x
  reads :
      (ts : List Bytes) (end : ℕ)
      → x ≡ parsed (ts, end)
      → (n ≢ length topics → end < size)
      → Ends n topics size x

one_more :
    (n size pos : ℕ) (payload : Bytes)
    → get16 payload pos ≡ some size
    → size ≢ 0
    → pos + 2 + size ≤ length payload
    → parse_topics (suc n) payload pos ≡ (
        parse_topics n payload (pos + 2 + size) >>= λ (ts, end).
        parsed (substr payload (pos + 2) size ∷ ts, end))
unfolding parse_topics
one_more n size pos payload e z l =
    rw (le→ltb (length payload) (pos + 2) (omega (arith, l)))
      (rw e (rw (not_zero size z) (rw (le→ltb (length payload) (pos + 2 + size) l) refl)))

Ends-more :
    (n size pos : ℕ) (payload : Bytes) (t : Bytes) (ts : List Bytes)
    → get16 payload pos ≡ some size
    → size ≢ 0
    → pos + 2 + size ≤ length payload
    → Ends n ts (length payload) (parse_topics n payload (pos + 2 + size))
    → Ends (suc n) (t ∷ ts) (length payload) (parse_topics (suc n) payload pos)
Ends-more n size pos payload t ts e z l (refuses h) =
    refuses (one_more n size pos payload e z l ∙ rw h refl)
Ends-more n size pos payload t ts e z l (reads us end h k) =
    reads (substr payload (pos + 2) size ∷ us) end (one_more n size pos payload e z l ∙ rw h refl)
      (λ d. k (λ same. d (ap suc same)))

-- A payload that begins with `pre` and the topic `t`.
module _ (pre t : Bytes) (ts : List Bytes) where
  abbrev whole : Bytes
  whole = put_topics (put16 pre (length t) ++ t) ts

  whole-append :
      (tail : Bytes) × (whole ≡ pre ++ (length t / 256 % 256) ∷ (length t % 256) ∷ (t ++ tail))
  whole-append =
      let (tail, e) = put_topics-append (put16 pre (length t) ++ t) ts in
      (
        tail,
        e
            ∙ append_assoc (put16 pre (length t)) t tail
            ∙ append_assoc pre ((length t / 256 % 256) ∷ (length t % 256) ∷ []) (t ++ tail),
      )

  whole_long : length pre + 2 + length t ≤ length whole
  whole_long =
      let (tail, e) = whole-append in
      omega (
        arith,
        ap length e,
        length-append pre ((length t / 256 % 256) ∷ (length t % 256) ∷ (t ++ tail)),
        length-append t tail,
      )

  whole_size : length t < 2 ^ 16 → get16 whole (length pre) ≡ some (length t)
  whole_size l =
      let (tail, e) = whole-append in
      ap (λ p. get16 p (length pre)) e ∙ get16-append pre (length t) (t ++ tail) l

  next_position : length (put16 pre (length t) ++ t) ≡ length pre + 2 + length t
  next_position = omega (
    arith,
    length-append (put16 pre (length t)) t,
    length-append pre ((length t / 256 % 256) ∷ (length t % 256) ∷ []),
  )

pub parse_topics-Ends :
    (n : ℕ) (pre : Bytes) (topics : List Bytes)
    → AreNames topics
    → Ends n topics
        (length (put_topics pre topics))
        (parse_topics n (put_topics pre topics) (length pre))
unfolding parse_topics put_topics
parse_topics-Ends zero pre [] v = reads [] (length pre) refl (λ d. absurd (d refl))
parse_topics-Ends zero pre (t ∷ ts) (w, v) =
    reads [] (length pre) refl (λ d. omega (arith, whole_long pre t ts))
parse_topics-Ends (suc n) pre [] v =
    refuses (rw (lt→ltb (length pre) (length pre + 2) (omega arith)) refl)
parse_topics-Ends (suc n) pre (t ∷ ts) ((w, l), v) =
    Ends-more n (length t) (length pre) (whole pre t ts) t ts (whole_size pre t ts l) w
      (whole_long pre t ts)
      (subst (λ p. Ends n ts (length (whole pre t ts)) (parse_topics n (whole pre t ts) p))
        (next_position pre t ts) (parse_topics-Ends n (put16 pre (length t) ++ t) ts v))
