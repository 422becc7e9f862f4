-- ===== src/Network/Tests.antt =====
-- The theorems on buffers at a concrete buffer.
use mq_project.Prelude.{◌+◌, ◌≤◌, ◌<◌, ◌≡◌, ◌⊎◌, refl, arith, true, false, [], ◌∷◌, ◌++◌, length}
use mq_project.Bytes.{Bytes}
use mq_project.Network.Buffer.{Buffer, readable, append}
use mq_project.Network.Buffer.Queue.{IsOrdered, append_lem}

-- Two bytes to read at the end of a memory of four.
abbrev at_end : Buffer
at_end = record {
  memory = 1 ∷ 2 ∷ 3 ∷ 4 ∷ [];
  capacity_bytes = 4;
  read_position = 2;
  write_position = 4;
}

at_end-IsOrdered : IsOrdered at_end
at_end-IsOrdered = record { whole = refl; read_first = omega arith; within = omega arith }

abbrev two_bytes : Bytes
two_bytes = 5 ∷ 6 ∷ []

append_lem_example :
    let (accepted, after) = append two_bytes at_end in
    ((accepted ≡ true)
      × (length (readable at_end) + length two_bytes ≤ 4)
      × IsOrdered after
      × (readable after ≡ readable at_end ++ two_bytes))
    ⊎ ((accepted ≡ false) × (4 < length (readable at_end) + length two_bytes) × (after ≡ at_end))
append_lem_example = append_lem two_bytes at_end at_end-IsOrdered
