-- ===== src/Core/Memory/SizeClasses.antt =====
-- The size class of an allocation.
use mq_project.Prelude.{ℕ, ◌*◌, ◌≤◌, ◌<◌, ◌≡◌, ◌⊎◌, arith}
use mq_project.Core.Memory.{size_class_bytes, size_class_index, max_size_class, num_size_classes}

-- A size up to 4096 bytes belongs to one of the nine classes, whose blocks hold it, and is too large
-- for the class below, if there is one; a larger size belongs to none of them.
pub size_class_index_lem :
    (size : ℕ)
    → ((size ≤ max_size_class)
        × (size_class_index size < num_size_classes)
        × (size ≤ size_class_bytes (size_class_index size))
        × ((size_class_index size ≡ 0) ⊎ (size_class_bytes (size_class_index size) < 2 * size)))
      ⊎ ((max_size_class < size) × (size_class_index size ≡ num_size_classes))
unfolding size_class_index size_class_bytes
size_class_index_lem size = ground arith
