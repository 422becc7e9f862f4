-- ===== src/Core/Storage/Partition/Restart.antt =====
-- A partition after a restart of the broker.
use mq_project.Prelude.{
  ℕ, suc, ◌+◌, ◌^◌, ◌≤◌, ◌<◌, ◌≡◌, ◌≢◌, refl, ap, sym, ◌∙◌, some, List, [], ◌∷◌, ◌++◌, length, take,
  take_all, map, arith, append-nil,
}
use mq_project.Bytes.{Bytes}
use mq_project.Core.Storage.{Message, scan, recover}
use mq_project.Core.Storage.Recovery.{read_record_gap}
use mq_project.Core.Storage.Crash.{Follows, log_bytes, scan-log_bytes, read_record_short}
use mq_project.Core.Storage.Partition.{
  Segment, Partition, segments, empty_segment, rebuild_index, last_timestamp, recovered_segment,
  recover_files, with_segments, or_first, open_partition, files_of,
}
use mq_project.Core.Storage.Partition.Chain.{Holds, Chain, IsLog, IsLog-Chain}

recover-log_bytes :
    (next : ℕ) (ms : List Message)
    → Follows next ms
    → next + length ms < 2 ^ 64
    → recover next (log_bytes ms)
      ≡ some (record {
        messages = ms;
        valid_bytes = length (log_bytes ms);
        next_offset = next + length ms;
      })
unfolding recover
recover-log_bytes next ms f h =
    ap (λ b. scan (suc (length b)) next b) (sym (append-nil (log_bytes ms)))
    ∙ scan-log_bytes (suc (length (log_bytes ms ++ []))) next ms [] f h (omega arith)
        (read_record_short (next + length ms) [] (omega arith))

Chain-le : (every next end : ℕ) (ss : List Segment) → Chain every next ss end → next ≤ end
Chain-le every next end [] c = omega arith
Chain-le every next end (s ∷ ss) c =
    omega (arith, Chain-le every (next + length s.messages) end ss c.1)

-- A segment is rebuilt as it was.
recovered_segment-Holds :
    (every next : ℕ) (s : Segment)
    → Holds every next s
    → recovered_segment every s.number s.file (record {
      messages = s.messages;
      valid_bytes = length (log_bytes s.messages);
      next_offset = next + length s.messages;
    })
      ≡ s
unfolding recovered_segment
recovered_segment-Holds every next s h =
    let size : length (log_bytes s.messages) ≡ s.size = sym (h.sized ∙ ap length h.logged) in
    let whole : take (length (log_bytes s.messages)) s.file ≡ s.file =
      take_all (length (log_bytes s.messages)) s.file (omega (arith, ap length h.logged)) in
    cc (whole, size, h.indexed, h.timed)

recover_files-Chain :
    (every next end : ℕ) (ss : List Segment)
    → Chain every next ss end
    → end < 2 ^ 64
    → recover_files every next (files_of ss) ≡ some (ss, end)
unfolding recover_files
recover_files-Chain every next end [] c h = ap (λ n. some ([], n)) c
recover_files-Chain every next end (s ∷ ss) (v, c) h =
    let room = Chain-le every (next + length s.messages) end ss c in
    let first =
      ap (recover next) v.logged ∙ recover-log_bytes next s.messages v.follows (omega arith) in
    rw (first, recover_files)
      (rw (recover_files-Chain every (next + length s.messages) end ss c h, recover_files)
        (ap (λ t. some (t ∷ ss, end)) (recovered_segment-Holds every next s v)))

with_segments-cons :
    (p : Partition) (s : Segment) (older : List Segment) (active : Segment)
    → with_segments p s (older ++ active ∷ []) ≡ record p { older = s ∷ older; active = active }
unfolding with_segments
with_segments-cons p s [] active = refl
with_segments-cons p s (t ∷ older) active = rw (with_segments-cons p t older active)

open_partition_by :
    (every now end : ℕ) (p : Partition) (files : List (ℕ × Bytes)) (older : List Segment)
    (active : Segment)
    → or_first files ≡ files
    → recover_files every 0 files ≡ some (older ++ active ∷ [], end)
    → open_partition every p.topic p.number now files
      ≡ some (record p { older = older; active = active; next_offset = end; last_sync = now })
unfolding open_partition with_segments
open_partition_by every now end p files [] active o e =
    rw (o, open_partition) (rw (e, open_partition))
open_partition_by every now end p files (s ∷ older) active o e =
    let fresh : Partition = record {
      topic = p.topic;
      number = p.number;
      older = [];
      active = s;
      next_offset = end;
      last_sync = now;
    } in
    rw (o, open_partition)
      (rw (e, open_partition) (ap some (with_segments-cons fresh s older active)))

or_first-files_of :
    (older : List Segment) (active : Segment)
    → or_first (files_of (older ++ active ∷ [])) ≡ files_of (older ++ active ∷ [])
or_first-files_of [] active = refl
or_first-files_of (s ∷ older) active = refl

-- A partition that holds its messages from offset 0 on is, opened again from its files, what it was:
-- every message, every segment, every index and the next offset. Only the time of the last sync is new.
pub open_partition-files_of :
    (every now : ℕ) (p : Partition)
    → IsLog every 0 p
    → p.next_offset < 2 ^ 64
    → open_partition every p.topic p.number now (files_of (segments p))
      ≡ some (record p { last_sync = now })
open_partition-files_of every now p v h =
    open_partition_by every now p.next_offset p (files_of (segments p)) p.older p.active
      (or_first-files_of p.older p.active)
      (recover_files-Chain every 0 p.next_offset (segments p) (IsLog-Chain every 0 p v) h)

-- A segment that is emptied: its file is cut to nothing.
abbrev pub emptied : Segment → Segment
emptied s = empty_segment s.number

recover_gap :
    (base : ℕ) (ms : List Message)
    → Follows base ms
    → base ≢ 0
    → recover 0 (log_bytes ms) ≡ some (record { messages = []; valid_bytes = 0; next_offset = 0 })
unfolding recover scan
recover_gap base [] f h = rw (read_record_short 0 [] (omega arith), scan)
recover_gap base (m ∷ ms) (o, v, f) h =
    rw (read_record_gap m v 0 (log_bytes ms) (λ e. h (sym o ∙ e)), scan)

recover_files_gap :
    (every base end : ℕ) (ss : List Segment)
    → Chain every base ss end
    → base ≢ 0
    → recover_files every 0 (files_of ss) ≡ some (map emptied ss, 0)
unfolding recover_files recovered_segment rebuild_index last_timestamp
recover_files_gap every base end [] c h = refl
recover_files_gap every base end (s ∷ ss) (v, c) h =
    let first = ap (recover 0) v.logged ∙ recover_gap base s.messages v.follows h in
    rw (first, recover_files)
      (rw (
        recover_files_gap every (base + length s.messages) end ss c (λ e. h (omega arith)),
        recover_files,
      ))

map-append_one :
    (older : List Segment) (active : Segment)
    → map emptied (older ++ active ∷ []) ≡ map emptied older ++ emptied active ∷ []
map-append_one [] active = refl
map-append_one (s ∷ older) active = ap (◌∷◌ (emptied s)) (map-append_one older active)

-- A partition whose first segments were given up, so that its first message has another offset than
-- 0, is empty when it is opened again: every file that was left is cut to nothing, and offsets start
-- at 0 again.
pub open_partition_gap :
    (every now base : ℕ) (p : Partition)
    → IsLog every base p
    → base ≢ 0
    → open_partition every p.topic p.number now (files_of (segments p))
      ≡ some (record p {
        older = map emptied p.older;
        active = emptied p.active;
        next_offset = 0;
        last_sync = now;
      })
open_partition_gap every now base p v h =
    open_partition_by every now 0 p (files_of (segments p)) (map emptied p.older) (emptied p.active)
      (or_first-files_of p.older p.active)
      (recover_files_gap every base p.next_offset (segments p) (IsLog-Chain every base p v) h
        ∙ ap (λ ss. some (ss, 0)) (map-append_one p.older p.active))
