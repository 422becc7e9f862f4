-- ===== src/Core/Storage/Partition/Chain.antt =====
-- The segments of a partition hold its messages, offset by offset.
use mq_project.Prelude.{
  ℕ, ◌+◌, ◌-◌, ◌%◌, ◌^◌, ◌<◌, ◌≡◌, inl, inr, refl, ap, sym, ◌∙◌, none, List, [], ◌∷◌, ◌++◌, length,
  arith, Bool-cases, append_assoc, append-nil, length-append,
}
use mq_project.Core.Storage.{Message, record_bytes}
use mq_project.Core.Storage.Recovery.{IsMessage}
use mq_project.Core.Storage.Crash.{Follows, log_bytes}
use mq_project.Core.Storage.Partition.{
  StorageConfig, System, Segment, Partition, segments, empty_segment, needs_roll, roll, extend,
  is_synced, write_record, append_record, rebuild_index, index_entry, last_timestamp,
}

Follows-append :
    (next : ℕ) (ms : List Message) (m : Message)
    → Follows next ms
    → m.offset ≡ next + length ms
    → IsMessage m
    → Follows next (ms ++ m ∷ [])
Follows-append next [] m f o v = (o ∙ omega arith, v, tt)
Follows-append next (n ∷ ms) m (a, b, f) o v =
    (a, b, Follows-append (next + 1) ms m f (o ∙ omega arith) v)

log_bytes-append :
    (ms : List Message) (m : Message) → log_bytes (ms ++ m ∷ []) ≡ log_bytes ms ++ record_bytes m
log_bytes-append [] m = append-nil (record_bytes m)
log_bytes-append (n ∷ ms) m =
    ap (λ b. record_bytes n ++ b) (log_bytes-append ms m)
    ∙ sym (append_assoc (record_bytes n) (log_bytes ms) (record_bytes m))

rebuild_index-append :
    (every position : ℕ) (ms : List Message) (m : Message)
    → rebuild_index every position (ms ++ m ∷ [])
      ≡ rebuild_index every position ms
        ++ index_entry every m.offset (position + length (log_bytes ms))
unfolding rebuild_index
rebuild_index-append every position [] m =
    append-nil (index_entry every m.offset position)
    ∙ ap (index_entry every m.offset) {x = position} {y = position + 0} (omega arith)
rebuild_index-append every position (n ∷ ms) m =
    let further = position + length (record_bytes n) in
    ap (λ b. index_entry every n.offset position ++ b)
      (rebuild_index-append every further ms m
        ∙ ap (λ k. rebuild_index every further ms ++ index_entry every m.offset k)
            {x = further + length (log_bytes ms)}
            {y = position + length (record_bytes n ++ log_bytes ms)}
            (omega (arith, length-append (record_bytes n) (log_bytes ms))))
    ∙ sym (
        append_assoc (index_entry every n.offset position) (rebuild_index every further ms)
          (index_entry every m.offset (position + length (record_bytes n ++ log_bytes ms))))

last_timestamp-append :
    (ms : List Message) (m : Message) → last_timestamp (ms ++ m ∷ []) ≡ m.timestamp_ms
unfolding last_timestamp
last_timestamp-append [] m = refl
last_timestamp-append (a ∷ []) m = refl
last_timestamp-append (a ∷ b ∷ ms) m = last_timestamp-append (b ∷ ms) m

-- What a segment holds: whole records of its messages, from the offset `next` on, the index of them,
-- and their size.
pub record Holds (every next : ℕ) (s : Segment) : Type 0 where
  pub logged : s.file ≡ log_bytes s.messages
  pub indexed : s.index ≡ rebuild_index every 0 s.messages
  pub sized : s.size ≡ length s.file
  pub follows : Follows next s.messages
  pub timed : s.last_timestamp_ms ≡ last_timestamp s.messages

-- Segments that hold the messages from `next` to `end`.
abbrev pub Chain : ℕ → ℕ → List Segment → ℕ → Type 0
Chain every next [] end = next ≡ end
Chain every next (s ∷ ss) end = Holds every next s × Chain every (next + length s.messages) ss end

pub Chain-append :
    (every next middle end : ℕ) (ss ts : List Segment)
    → Chain every next ss middle
    → Chain every middle ts end
    → Chain every next (ss ++ ts) end
Chain-append every next middle end [] ts e c = rw e c
Chain-append every next middle end (s ∷ ss) ts (h, c) d =
    (h, Chain-append every (next + length s.messages) middle end ss ts c d)

-- A partition whose first message has the offset `base`.
pub record IsLog (every base : ℕ) (p : Partition) : Type 0 where
  pub start : ℕ
  pub older_chain : Chain every base p.older start
  pub active_holds : Holds every start p.active
  pub ends : p.next_offset ≡ start + length p.active.messages

pub IsLog-Chain :
    (every base : ℕ) (p : Partition)
    → IsLog every base p
    → Chain every base (segments p) p.next_offset
IsLog-Chain every base p v =
    Chain-append every base v.start p.next_offset p.older (p.active ∷ []) v.older_chain
      (v.active_holds, sym v.ends)

extend-Holds :
    (config : StorageConfig) (m : Message) (next : ℕ) (s : Segment)
    → Holds config.index_interval next s
    → m.offset ≡ next + length s.messages
    → IsMessage m
    → Holds config.index_interval next (extend config m s)
unfolding extend
extend-Holds config m next s h o v = record {
  logged = ap (λ b. b ++ record_bytes m) h.logged ∙ sym (log_bytes-append s.messages m);
  indexed =
      ap (λ b. b ++ index_entry config.index_interval m.offset s.size) h.indexed
      ∙ ap
          (λ k.
            rebuild_index config.index_interval 0 s.messages
            ++ index_entry config.index_interval m.offset k)
          {x = s.size} {y = 0 + length (log_bytes s.messages)}
          (h.sized ∙ ap length h.logged ∙ omega arith)
      ∙ sym (rebuild_index-append config.index_interval 0 s.messages m);
  sized = omega (arith, length-append s.file (record_bytes m), h.sized);
  follows = Follows-append next s.messages m h.follows o v;
  timed = sym (last_timestamp-append s.messages m);
}

pub empty_segment-Holds : (every next number : ℕ) → Holds every next (empty_segment number)
unfolding rebuild_index last_timestamp
empty_segment-Holds every next number = record {
  logged = refl;
  indexed = refl;
  sized = refl;
  follows = tt;
  timed = refl;
}

roll-IsLog : (every base : ℕ) (p : Partition) → IsLog every base p → IsLog every base (roll p)
unfolding roll
roll-IsLog every base p v = record {
  start = p.next_offset;
  older_chain = IsLog-Chain every base p v;
  active_holds = empty_segment-Holds every p.next_offset ((p.active.number + 1) % 2 ^ 64);
  ends = omega arith;
}

write_record-IsLog :
    (config : StorageConfig) (system : System) (m : Message) (base : ℕ) (p : Partition)
    → system.written ≡ none
    → IsLog config.index_interval base p
    → m.offset ≡ p.next_offset
    → p.next_offset + 1 < 2 ^ 64
    → IsMessage m
    → IsLog config.index_interval base (write_record config system m p).1
unfolding write_record
write_record-IsLog config system m base p w v o l k =
    let h = extend-Holds config m v.start p.active v.active_holds (o ∙ v.ends) k in
    let e : (p.next_offset + 1) % 2 ^ 64 ≡ v.start + length (p.active.messages ++ m ∷ []) =
      omega (arith, length-append p.active.messages (m ∷ []), v.ends) in
    rw (w, write_record)
      (elim (Bool-cases (is_synced config (system.clock - p.last_sync))) [
        | inr later ↦
            rw later
              (record { start = v.start; older_chain = v.older_chain; active_holds = h; ends = e })
        | inl now ↦ rw now (elim (Bool-cases system.syncs) [
          | inl good ↦
              rw good (record {
                start = v.start;
                older_chain = v.older_chain;
                active_holds = h;
                ends = e;
              })
          | inr bad ↦
              rw bad (record {
                start = v.start;
                older_chain = v.older_chain;
                active_holds = h;
                ends = e;
              })
        ])
      ])

-- A partition that holds its messages offset by offset, in whole records with their index, holds them
-- so after one more message with the next offset, whether the new segment can be created or not and
-- whether the syncs succeed or not, as long as the write of the record itself does.
pub append_record-IsLog :
    (config : StorageConfig) (system : System) (m : Message) (base : ℕ) (p : Partition)
    → system.written ≡ none
    → IsLog config.index_interval base p
    → m.offset ≡ p.next_offset
    → p.next_offset + 1 < 2 ^ 64
    → IsMessage m
    → IsLog config.index_interval base (append_record config system m p).1
unfolding append_record roll
append_record-IsLog config system m base p w v o l k =
    elim (Bool-cases (needs_roll config (length (record_bytes m)) p.active)) [
      | inl rolls ↦ elim (Bool-cases system.creates) [
        | inl creates ↦
            rw (rolls, append_record)
              (rw creates (
                write_record-IsLog config system m base (roll p) w
                  (roll-IsLog config.index_interval base p v) o l k))
        | inr fails ↦ rw (rolls, append_record) (rw fails v)
      ]
      | inr stays ↦ rw (stays, append_record) (write_record-IsLog config system m base p w v o l k)
    ]
