-- ===== src/Core/Storage/Engine/Reads.antt =====
-- What `Read` returns, and that it returns what `Append` has stored.
use mq_project.Prelude.{
  ℕ, zero, suc, ◌+◌, ◌-◌, ◌≤◌, ◌<◌, ◌≡◌, ◌⊎◌, inl, inr, refl, ap, sym, ◌∙◌, Bool, true, false, ◌&&◌,
  ◌||◌, some, List, [], ◌∷◌, ◌++◌, length, drop, arith, Bool-cases, length-append, ltb, subst,
  drop_all, le→ltb, ltb→lt, ltb→le,
}
use mq_project.Core.Storage.{Message}
use mq_project.Core.Storage.Crash.{Follows}
use mq_project.Core.Storage.Partition.{Segment, Partition, segments, invalid_offset}
use mq_project.Core.Storage.Partition.Chain.{Chain, IsLog, IsLog-Chain}
use mq_project.Core.Storage.Engine.{
  done, failed, messages_of, message_size, read_messages, read_partition,
}

Follows-join :
    (next : ℕ) (ms ns : List Message)
    → Follows next ms
    → Follows (next + length ms) ns
    → Follows next (ms ++ ns)
Follows-join next [] ns f g = subst (λ n. Follows n ns) {x = next + 0} {y = next} (omega arith) g
Follows-join next (m ∷ ms) ns (o, v, f) g = (
  o,
  v,
  Follows-join (next + 1) ms ns f (
      subst (λ n. Follows n ns) {x = next + suc (length ms)} {y = next + 1 + length ms}
        (omega arith) g),
)

pub Chain-Follows :
    (every next end : ℕ) (ss : List Segment)
    → Chain every next ss end
    → Follows next (messages_of ss) × (end ≡ next + length (messages_of ss))
Chain-Follows every next end [] c = (tt, omega (arith, c))
Chain-Follows every next end (s ∷ ss) (v, c) =
    let (f, e) = Chain-Follows every (next + length s.messages) end ss c in
    (
      Follows-join next s.messages (messages_of ss) v.follows f,
      omega (arith, e, length-append s.messages (messages_of ss)),
    )

abbrev pub total_bytes : List Message → ℕ
total_bytes [] = 0
total_bytes (m ∷ ms) = message_size m + total_bytes ms

-- `rest` begins with a message that has no place any more.
abbrev pub Overflows : ℕ → ℕ → List Message → Type 0
Overflows max_bytes bytes [] = Unit
Overflows max_bytes bytes (m ∷ ms) = max_bytes < bytes + message_size m

-- The messages `ms` are parted into those that are read and the rest.
pub record Parts (max_bytes bytes : ℕ) (ms got : List Message) : Type 0 where
  pub rest : List Message
  pub parted : ms ≡ got ++ rest
  pub fits : bytes + total_bytes got ≤ max_bytes
  pub full : Overflows max_bytes (bytes + total_bytes got) rest

read_messages-Parts :
    (start max_bytes bytes next : ℕ) (any : Bool) (ms : List Message)
    → Follows next ms
    → start ≤ next
    → bytes ≤ max_bytes
    → (any ≡ false → bytes ≡ 0)
    → Parts max_bytes bytes ms (read_messages start max_bytes bytes any ms)
unfolding read_messages
read_messages-Parts start max_bytes bytes next any [] f h k z = record {
  rest = [];
  parted = refl;
  fits = omega arith;
  full = tt;
}
read_messages-Parts start max_bytes bytes next any (m ∷ ms) (o, v, f) h k z =
    let stops = (any && ltb max_bytes (bytes + message_size m)) || ltb max_bytes (message_size m) in
    let after : ltb m.offset start ≡ false = le→ltb m.offset start (omega (arith, o)) in
    elim (Bool-cases stops) [
      | inl t ↦ rw after (
          rw t (record {
            rest = m ∷ ms;
            parted = refl;
            fits = omega arith;
            full = ground (arith, t, z, Bool-cases any);
          }))
      | inr t ↦
          let room : bytes + message_size m ≤ max_bytes = ground (arith, t, z, Bool-cases any) in
          let r =
            read_messages-Parts start max_bytes (bytes + message_size m) (next + 1) true ms f
              (omega arith) room (λ e. absurd (ground (arith, e))) in
          let same : bytes
                + message_size m
                + total_bytes (read_messages start max_bytes (bytes + message_size m) true ms)
              ≡ bytes
                + (message_size m
                    + total_bytes
                        (read_messages start max_bytes (bytes + message_size m) true ms)) =
            omega arith in
          rw after (
            rw t (record {
              rest = r.rest;
              parted = ap (◌∷◌ m) r.parted;
              fits = omega (arith, r.fits);
              full = subst (λ n. Overflows max_bytes n r.rest) same r.full;
            }))
    ]

read_messages-drop :
    (start max_bytes next : ℕ) (ms : List Message)
    → Follows next ms
    → read_messages start max_bytes 0 false ms
      ≡ read_messages start max_bytes 0 false (drop (start - next) ms)
unfolding read_messages
read_messages-drop start max_bytes next [] f =
    ap (read_messages start max_bytes 0 false) (sym (drop_all (start - next) [] (omega arith)))
read_messages-drop start max_bytes next (m ∷ ms) (o, v, f) =
    elim (Bool-cases (ltb m.offset start)) [
      | inl before ↦
          let l = ltb→lt m.offset start before in
          let e : suc (start - (next + 1)) ≡ start - next = omega (arith, o, l) in
          rw before (
            read_messages-drop start max_bytes (next + 1) ms f
            ∙ ap (λ n. read_messages start max_bytes 0 false (drop n (m ∷ ms))) e)
      | inr after ↦
          let l = ltb→le m.offset start after in
          let e : 0 ≡ start - next = omega (arith, o, l) in
          ap (λ n. read_messages start max_bytes 0 false (drop n (m ∷ ms))) e
    ]

pub Follows-drop :
    (n next : ℕ) (ms : List Message) → Follows next ms → Follows (next + n) (drop n ms)
Follows-drop zero next ms f = subst (λ k. Follows k ms) {x = next} {y = next + 0} (omega arith) f
Follows-drop (suc n) next [] f = tt
Follows-drop (suc n) next (m ∷ ms) (o, v, f) =
    subst (λ k. Follows k (drop n ms)) {x = next + 1 + n} {y = next + suc n} (omega arith)
      (Follows-drop n (next + 1) ms f)

-- `Read` from an offset up to the next one returns the messages from that offset on, in order and
-- without a gap: as many as fit into `max_bytes`, and the first that it leaves out would not fit. It
-- refuses any later offset.
pub read_partition_lem :
    (every base start max_bytes : ℕ) (p : Partition)
    → IsLog every base p
    → ((start ≤ p.next_offset)
        × (got : List Message) × (read_partition start max_bytes p ≡ done got)
        × Parts max_bytes 0 (drop (start - base) (messages_of (segments p))) got)
      ⊎ ((p.next_offset < start)
          × (read_partition start max_bytes p ≡ failed (some invalid_offset)))
unfolding read_partition
read_partition_lem every base start max_bytes p v = elim (Bool-cases (ltb p.next_offset start)) [
  | inl late ↦ inr (ltb→lt p.next_offset start late, rw late)
  | inr early ↦
      let f =
        (Chain-Follows every base p.next_offset (segments p) (IsLog-Chain every base p v)).0 in
      let skip = read_messages-drop start max_bytes base (messages_of (segments p)) f in
      inl (
        ltb→le p.next_offset start early,
        read_messages start max_bytes 0 false (messages_of (segments p)),
        rw early,
        rw skip (
            read_messages-Parts start max_bytes 0 (base + (start - base)) false
              (drop (start - base) (messages_of (segments p)))
              (Follows-drop (start - base) base (messages_of (segments p)) f) (omega arith)
              (omega arith) (λ e. refl)),
      )
]
