-- ===== src/Server/Replication.antt =====
-- `ReplicationCoordinator` of src/server/replication.cc: roles, terms and votes of a broker, and how
-- far the other brokers have copied its partitions. The lock makes each operation a function of the
-- state. A point in time is a number of clock ticks, which the caller or the clock hands in.
-- `++current_term_` and the like wrap at 2 ^ 64.
pub mod Election
pub mod Log
pub mod StateFile
pub mod Step
pub mod Carry
pub mod Follow
pub mod Votes
pub mod Forgotten
pub mod Quorum
use mq_project.Prelude.{
  ℕ, zero, suc, ◌+◌, ◌-◌, ◌*◌, ◌/◌, ◌%◌, ◌^◌, ◌≤◌, ◌<◌, ◌≡◌, Bool, true, false, not, ◌&&◌, ◌||◌,
  Option, none, some, List, [], ◌∷◌, ◌++◌, length, ltb, leb, ◌==◌, if◌then◌else◌,
}
use mq_project.Bytes.{Bytes, stream_read}
use mq_project.Bytes.Equality.{bytes_eq}
use mq_project.Dict.{Dict, find, has, is_some, insert, erase, keys}

pub data Role : Type 0 where
  leader follower candidate : Role

pub record ReplicaProgress : Type 0 where
  pub node_id : Bytes
  pub replicated_offset : ℕ
  pub last_heartbeat : ℕ
  pub healthy : Bool
  pub term : ℕ

pub record PartitionState : Type 0 where
  pub local_offset : ℕ
  pub commit_index : ℕ
  pub last_applied : ℕ
  pub last_log_term : ℕ

abbrev pub Replicas : Type 0
Replicas = Dict ReplicaProgress

-- What comes of a write of the state file, which the file system decides: the new contents; the old ones, when
-- the temporary file cannot be written or takes no new name; or no file, when the old one is removed and the
-- temporary one takes no new name.
pub data StateWrite : Type 0 where
  written unwritten lost : StateWrite

-- `state_file` is what the file `state_path_` holds, empty where there is none; `state_write` is not of the
-- program, but what the file system does at this time.
pub record Replication : Type 0 where
  pub node_id : Bytes
  pub heartbeat_timeout : ℕ
  pub role : Role
  pub leader_id : Bytes
  pub voted_for : Bytes
  pub current_term : ℕ
  pub local_offset : ℕ
  pub commit_index : ℕ
  pub last_applied : ℕ
  pub votes : List Bytes
  pub pre_votes : List Bytes
  pub missed_heartbeat_rounds : ℕ
  pub has_state_path : Bool
  pub state_file : Bytes
  pub state_write : StateWrite
  pub replicas : Replicas
  pub partition_states : Dict PartitionState
  pub partition_replicas : Dict Replicas

-- What `operator[]` makes of a missing entry.
abbrev pub no_progress : ReplicaProgress
no_progress = record {
  node_id = [];
  replicated_offset = 0;
  last_heartbeat = 0;
  healthy = false;
  term = 0;
}

abbrev pub no_state : PartitionState
no_state = record { local_offset = 0; commit_index = 0; last_applied = 0; last_log_term = 0 }

abbrev pub or_else {ℓ} : {A : Type ℓ} → Option A → A → A
or_else none a = a
or_else (some b) a = b

abbrev pub max : ℕ → ℕ → ℕ
max a b = if ltb a b then b else a

abbrev pub min : ℕ → ℕ → ℕ
min a b = if ltb b a then b else a

abbrev pub is_nil : Bytes → Bool
is_nil [] = true
is_nil (b ∷ bs) = false

abbrev pub is_leader : Role → Bool
is_leader leader = true
is_leader follower = false
is_leader candidate = false

abbrev pub is_candidate : Role → Bool
is_candidate leader = false
is_candidate follower = false
is_candidate candidate = true

-- A word as the machine stores it, lowest byte first.
unfoldable pub le_bytes : ℕ → ℕ → Bytes
le_bytes zero v = []
le_bytes (suc k) v = (v % 256) ∷ le_bytes k (v / 256)

pub le_read : ℕ → Bytes → Option (ℕ × Bytes)
le_read zero input = some (0, input)
le_read (suc k) [] = none
le_read (suc k) (b ∷ input) = elim (le_read k input) [
  | none ↦ none
  | some (v, left) ↦ some (b + 256 * v, left)
]

abbrev pub state_magic : ℕ
state_magic = 0x31544652

-- The bytes that `PersistLocked` writes.
unfoldable pub state_bytes : Replication → Bytes
unfolding le_bytes
state_bytes c =
    le_bytes 4 state_magic
    ++ le_bytes 8 c.current_term
    ++ le_bytes 8 c.commit_index
    ++ le_bytes 8 c.last_applied
    ++ le_bytes 4 (length c.voted_for)
    ++ c.voted_for

abbrev pub file_after : StateWrite → Bytes → Bytes → Bytes
file_after written old new = new
file_after unwritten old new = old
file_after lost old new = []

unfoldable pub persist : Replication → Replication
persist c =
    if c.has_state_path
    then record c { state_file = file_after c.state_write c.state_file (state_bytes c) }
    else c

pub record Saved : Type 0 where
  pub term : ℕ
  pub commit : ℕ
  pub applied : ℕ
  pub voted : Bytes

infixl 5 ◌>>=◌
abbrev pub ◌>>=◌ {ℓ κ} : {A : Type ℓ} {B : Type κ} → Option A → (A → Option B) → Option B
none >>= f = none
some a >>= f = f a

-- `LoadState` up to the assignments: `none` where it returns.
unfoldable pub read_state : Bytes → Option Saved
unfolding le_read stream_read
read_state file = do
  (magic, a) ← le_read 4 file
  (term, b) ← (if magic == state_magic then le_read 8 a else none)
  (commit, c) ← le_read 8 b
  (applied, d) ← le_read 8 c
  (voted_size, e) ← le_read 4 d
  (voted, f) ← (if ltb 4096 voted_size then none else stream_read voted_size e)
  some (record { term = term; commit = commit; applied = applied; voted = voted })

unfoldable pub load_state : Replication → Replication
load_state c =
    if c.has_state_path
    then elim (read_state c.state_file) [
      | none ↦ c
      | some s ↦ record c {
        current_term = s.term;
        commit_index = s.commit;
        last_applied = s.applied;
        voted_for = s.voted;
      }
    ]
    else c

-- The constructor, over the file that an earlier run has left.
unfoldable pub start : Bytes → Role → ℕ → Bool → Bytes → Replication
unfolding load_state
start node_id role timeout has_state_path state_file = load_state (record {
  node_id = node_id;
  heartbeat_timeout = timeout;
  role = role;
  leader_id = node_id;
  voted_for = [];
  current_term = 0;
  local_offset = 0;
  commit_index = 0;
  last_applied = 0;
  votes = [];
  pre_votes = [];
  missed_heartbeat_rounds = 0;
  has_state_path = has_state_path;
  state_file = state_file;
  state_write = written;
  replicas = [];
  partition_states = [];
  partition_replicas = [];
})

unfoldable pub majority : Replication → ℕ
majority c = (length c.replicas + 1) / 2 + 1

-- `now - last_heartbeat` is negative for a heartbeat from the future, and then within the timeout.
unfoldable pub is_healthy : ℕ → ReplicaProgress → ℕ → Bool
is_healthy timeout replica now = replica.healthy && leb (now - replica.last_heartbeat) timeout

pub count_healthy : ℕ → ℕ → Replicas → ℕ
unfolding is_healthy
count_healthy timeout now [] = 0
count_healthy timeout now ((id, r) ∷ rs) =
    if is_healthy timeout r now
    then suc (count_healthy timeout now rs)
    else count_healthy timeout now rs

unfoldable pub can_serve_writes : ℕ → Replication → Bool
unfolding count_healthy majority
can_serve_writes now c =
    if is_leader c.role
    then (if length c.replicas == 0
        then true
        else leb (majority c) (1 + count_healthy c.heartbeat_timeout now c.replicas))
    else false

unfoldable pub set_leader : Bytes → Replication → Replication
unfolding persist
set_leader id c = persist (record c {
  leader_id = id;
  role = if bytes_eq id c.node_id then leader else follower;
  votes = [];
})

unfoldable pub register_replica : Bytes → Replication → Replication
register_replica id c =
    if is_nil id || bytes_eq id c.node_id
    then c
    else (if has id c.replicas then c else record c { replicas = insert id no_progress c.replicas })

pub erase_all : Bytes → Dict Replicas → Dict Replicas
erase_all id [] = []
erase_all id ((partition, progress) ∷ rest) = (partition, erase id progress) ∷ erase_all id rest

unfoldable pub remove_replica : Bytes → Replication → Replication
unfolding erase_all
remove_replica id c = record c {
  replicas = erase id c.replicas;
  partition_replicas = erase_all id c.partition_replicas;
}
