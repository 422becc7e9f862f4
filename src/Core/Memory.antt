-- ===== src/Core/Memory.antt =====
-- `MemoryPool` of src/core/memory_pool.cc and the size classes of `SlabAllocator`,
-- src/core/slab_allocator.cc. A place in a pool is its distance from the start of the pool; the
-- calling thread is the owner where `owner` is true.
pub mod Pool
pub mod SizeClasses
use mq_project.Prelude.{
  ℕ, zero, suc, ◌+◌, ◌-◌, ◌*◌, ◌/◌, ◌^◌, Bool, true, false, not, ◌||◌, Option, none, some, ltb,
  ◌==◌, if◌then◌else◌, bit_and,
}

pub record MemoryPool : Type 0 where
  pub capacity_bytes : ℕ
  pub used_bytes : ℕ

-- `remainder == 0 ? 0 : alignment - remainder`.
unfoldable pub padding : ℕ → ℕ → ℕ
padding used alignment =
    let remainder = bit_and used (alignment - 1) in
    if remainder == 0 then 0 else alignment - remainder

-- `none` is the null pointer.
unfoldable pub allocate : Bool → ℕ → ℕ → MemoryPool → Option ℕ × MemoryPool
unfolding padding
allocate owner size alignment pool =
    let pad = padding pool.used_bytes alignment in
    let room = pool.capacity_bytes - pool.used_bytes in
    if not owner || size == 0 || alignment == 0 || not (bit_and alignment (alignment - 1) == 0)
    then (none, pool)
    else (if ltb room pad || ltb (room - pad) size then (none, pool) else (
      some (pool.used_bytes + pad),
      record pool { used_bytes = pool.used_bytes + pad + size },
    ))

unfoldable pub reset : MemoryPool → MemoryPool
reset pool = record pool { used_bytes = 0 }

abbrev pub min_size_class : ℕ
min_size_class = 16

abbrev pub max_size_class : ℕ
max_size_class = 4096

abbrev pub num_size_classes : ℕ
num_size_classes = 9

unfoldable pub size_class_bytes : ℕ → ℕ
size_class_bytes index = min_size_class * 2 ^ index

-- `while (aligned < size) aligned <<= 1`.
pub align_loop : ℕ → ℕ → ℕ → ℕ
align_loop zero size aligned = aligned
align_loop (suc fuel) size aligned =
    let further = align_loop fuel size (aligned * 2) in
    if ltb aligned size then further else aligned

-- `while (temp > 1) { temp >>= 1; ++index; }`.
pub index_loop : ℕ → ℕ → ℕ → ℕ
index_loop zero temp index = index
index_loop (suc fuel) temp index =
    let further = index_loop fuel (temp / 2) (index + 1) in if ltb 1 temp then further else index

unfoldable pub size_class_index : ℕ → ℕ
unfolding align_loop index_loop
size_class_index size =
    if size == 0
    then 0
    else (if ltb max_size_class size
        then num_size_classes
        else index_loop 9 (align_loop 9 size min_size_class / min_size_class) 0)
