-- ===== src/Core/Storage/Partition/Retention.antt =====
-- What `CleanupExpiredSegments` gives up of a partition.
use mq_project.Prelude.{
  ℕ, ◌+◌, ◌-◌, ◌≤◌, ◌≡◌, ◌⊎◌, subst, Bool, true, refl, ap, ◌∙◌, false, ◌||◌, List, [], ◌∷◌, ◌++◌,
  length, arith, Bool-cases, inl, inr, append_assoc,
}
use mq_project.Core.Storage.Partition.{
  StorageConfig, Segment, Partition, segments, is_expired, is_oversized, total_size, drop_oldest,
  cleanup_partition,
}
use mq_project.Core.Storage.Partition.Chain.{Chain, IsLog}

-- The oldest segment that is left, before the active one, is neither expired nor too much.
abbrev pub Keeps : StorageConfig → ℕ → Segment → List Segment → Type 0
Keeps config now active [] = Unit
Keeps config now active (s ∷ ss) =
    (is_expired config now s ≡ false)
    × (is_oversized config (total_size (s ∷ ss ++ active ∷ [])) ≡ false)

-- Each segment that is removed is expired, or the partition is too large at that time.
abbrev pub AreDue : StorageConfig → ℕ → Segment → List Segment → List Segment → Type 0
AreDue config now active [] after = Unit
AreDue config now active (s ∷ gone) after =
    ((is_expired config now s ≡ true)
      ⊎ (is_oversized config (total_size (s ∷ (gone ++ after) ++ active ∷ [])) ≡ true))
    × AreDue config now active gone after

abbrev IsDue : StorageConfig → ℕ → Segment → Segment → List Segment → Type 0
IsDue config now active s ss =
    (is_expired config now s ≡ true)
    ⊎ (is_oversized config (total_size (s ∷ ss ++ active ∷ [])) ≡ true)

IsDue-now :
    (config : StorageConfig) (now : ℕ) (active s : Segment) (ss : List Segment)
    → is_expired config now s || is_oversized config (total_size (s ∷ ss ++ active ∷ [])) ≡ true
    → IsDue config now active s ss
IsDue-now config now active s ss h = elim (Bool-cases (is_expired config now s)) [
  | inl old ↦ inl old
  | inr new ↦ inr (ground (arith, h, new))
]

-- How the loop ends: with nothing more to remove, or with a segment that cannot be removed.
abbrev pub Ends : (Segment → Bool) → StorageConfig → ℕ → Segment → Bool → List Segment → Type 0
Ends removes config now active true after = Keeps config now active after
Ends removes config now active false [] = ⊥
Ends removes config now active false (s ∷ ss) = removes s ≡ false

record Dropped (removes : Segment → Bool) (config : StorageConfig) (now every base start : ℕ)
    (active : Segment) (before : List Segment) (x : Bool × List Segment) : Type 0 where
  gone : List Segment
  first : ℕ
  parted : before ≡ gone ++ x.1
  later : base ≤ first
  chain : Chain every first x.1 start
  due : AreDue config now active gone x.1
  ends : Ends removes config now active x.0 x.1

drop_oldest-Dropped :
    (removes : Segment → Bool) (config : StorageConfig) (now every base start : ℕ)
    (active : Segment) (ss : List Segment)
    → Chain every base ss start
    → Dropped removes config now every base start active ss
        (drop_oldest removes config now (total_size (ss ++ active ∷ [])) ss)
unfolding drop_oldest total_size
drop_oldest-Dropped removes config now every base start active [] c = record {
  gone = [];
  first = base;
  parted = refl;
  later = omega arith;
  chain = c;
  due = tt;
  ends = tt;
}
drop_oldest-Dropped removes config now every base start active (s ∷ ss) (v, c) =
    let total = total_size (s ∷ ss ++ active ∷ []) in
    let below : total - s.size ≡ total_size (ss ++ active ∷ []) = omega arith in
    let d =
      drop_oldest-Dropped removes config now every (base + length s.messages) start active ss c in
    elim (Bool-cases (is_expired config now s || is_oversized config total)) [
      | inl go ↦ elim (Bool-cases (removes s)) [
        | inl can ↦
            rw (go, drop_oldest)
              (rw can (
                rw below (record {
                  gone = s ∷ d.gone;
                  first = d.first;
                  parted = ap (◌∷◌ s) d.parted;
                  later = omega (arith, d.later);
                  chain = d.chain;
                  due = (
                    subst (IsDue config now active s) d.parted
                        (IsDue-now config now active s ss go),
                    d.due,
                  );
                  ends = d.ends;
                })))
        | inr cannot ↦
            rw (go, drop_oldest)
              (rw cannot (record {
                gone = [];
                first = base;
                parted = refl;
                later = omega arith;
                chain = (v, c);
                due = tt;
                ends = cannot;
              }))
      ]
      | inr stay ↦
          rw (stay, drop_oldest)
            (record {
              gone = [];
              first = base;
              parted = refl;
              later = omega arith;
              chain = (v, c);
              due = tt;
              ends = ground (arith, stay);
            })
    ]

-- A run of `CleanupExpiredSegments` over a partition takes away oldest segments, never the newest. Each one
-- that it takes away is expired, or the partition too large with it. What is left holds its messages offset
-- by offset up to the same next offset. If every removal of files succeeds, the run says so, and of the
-- segments before the newest the oldest that is left is not expired, and the partition not too large; if it
-- reports a failure, the oldest that is left is a segment whose files could not be removed.
pub cleanup_partition_lem :
    (removes : Segment → Bool) (config : StorageConfig) (now every base : ℕ) (p : Partition)
    → IsLog every base p
    → let (all_gone, after) = cleanup_partition removes config now p in
      (gone : List Segment) × (first : ℕ) × (segments p ≡ gone ++ segments after)
      × (base ≤ first)
      × IsLog every first after
      × (after.next_offset ≡ p.next_offset)
      × AreDue config now after.active gone after.older
      × Ends removes config now after.active all_gone after.older
unfolding cleanup_partition
cleanup_partition_lem removes config now every base p v =
    let d =
      drop_oldest-Dropped removes config now every base v.start p.active p.older v.older_chain in
    (
      d.gone,
      d.first,
      ap (λ ss. ss ++ p.active ∷ []) d.parted ∙ append_assoc d.gone _ (p.active ∷ []),
      d.later,
      record {
        start = v.start;
        older_chain = d.chain;
        active_holds = v.active_holds;
        ends = v.ends;
      },
      refl,
      d.due,
      d.ends,
    )
