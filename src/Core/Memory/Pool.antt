-- ===== src/Core/Memory/Pool.antt =====
-- The blocks that a pool hands out.
use mq_project.Prelude.{
  ℕ, ◌+◌, ◌-◌, ◌≤◌, ◌⊎◌, ◌||◌, not, inl, inr, Bool, Option, none, some, List, [], ◌∷◌, arith,
  Bool-cases, ltb, ◌==◌, bit_and,
}
use mq_project.Bytes.{All}
use mq_project.Core.Memory.{MemoryPool, padding, allocate}

-- Blocks, each a place and a size.
abbrev pub Blocks : Type 0
Blocks = List (ℕ × ℕ)

-- Two blocks have no byte in common.
abbrev pub Apart : ℕ × ℕ → ℕ × ℕ → Type 0
Apart (p, m) (q, n) = (p + m ≤ q) ⊎ (q + n ≤ p)

-- Blocks that lie in the used part of the pool, no two of them over each other.
abbrev pub AreDisjoint : Blocks → Type 0
AreDisjoint [] = Unit
AreDisjoint (b ∷ bs) = All (Apart b) bs × AreDisjoint bs

pub record IsLaidOut (pool : MemoryPool) (blocks : Blocks) : Type 0 where
  pub within : pool.used_bytes ≤ pool.capacity_bytes
  pub used : All (λ b. b.0 + b.1 ≤ pool.used_bytes) blocks
  pub disjoint : AreDisjoint blocks

-- The block of an allocation, if it succeeds.
abbrev pub with_block : Option ℕ → ℕ → Blocks → Blocks
with_block none size blocks = blocks
with_block (some place) size blocks = (place, size) ∷ blocks

behind :
    (blocks : Blocks) (used place size : ℕ)
    → used ≤ place
    → All (λ b. b.0 + b.1 ≤ used) blocks
    → All (Apart (place, size)) blocks
behind [] used place size h v = tt
behind ((q, n) ∷ blocks) used place size h (v, w) =
    (inr (omega arith), behind blocks used place size h w)

raise :
    (blocks : Blocks) (used more : ℕ)
    → used ≤ more
    → All (λ b. b.0 + b.1 ≤ used) blocks
    → All (λ b. b.0 + b.1 ≤ more) blocks
raise [] used more h v = tt
raise (b ∷ blocks) used more h (v, w) = (omega arith, raise blocks used more h w)

-- The blocks that a pool has handed out since its last reset lie within its capacity and do not
-- overlap, and so do they with the block of one more `Allocate`, whatever its arguments.
pub allocate-IsLaidOut :
    (owner : Bool) (size alignment : ℕ) (pool : MemoryPool) (blocks : Blocks)
    → IsLaidOut pool blocks
    → let (place, after) = allocate owner size alignment pool in
      IsLaidOut after (with_block place size blocks)
unfolding allocate
allocate-IsLaidOut owner size alignment pool blocks v =
    let pad = padding pool.used_bytes alignment in
    let room = pool.capacity_bytes - pool.used_bytes in
    let refused =
      not owner || size == 0 || alignment == 0 || not (bit_and alignment (alignment - 1) == 0) in
    let full = ltb room pad || ltb (room - pad) size in
    elim (Bool-cases refused) [
      | inl r ↦ rw (r, allocate) v
      | inr r ↦ elim (Bool-cases full) [
        | inl f ↦ rw (r, allocate) (rw f v)
        | inr f ↦
            let fits : pool.used_bytes + pad + size ≤ pool.capacity_bytes =
              ground (arith, f, v.within) in
            rw (r, allocate)
              (rw f (record {
                within = fits;
                used = (
                  omega arith,
                  raise blocks pool.used_bytes (pool.used_bytes + pad + size) (omega arith) v.used,
                );
                disjoint = (
                  behind blocks pool.used_bytes (pool.used_bytes + pad) size (omega arith) v.used,
                  v.disjoint,
                );
              }))
      ]
    ]
