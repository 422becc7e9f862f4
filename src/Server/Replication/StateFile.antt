-- ===== src/Server/Replication/StateFile.antt =====
-- What a restarted broker reads back from the state file.
use mq_project.Prelude.{
  ℕ, zero, suc, ◌+◌, ◌*◌, ◌/◌, ◌%◌, ◌^◌, ◌≤◌, ◌<◌, ◌≡◌, ap, refl, some, [], ◌∷◌, ◌++◌, length,
  arith, le→ltb,
}
use mq_project.Bytes.{Bytes, stream_read}
use mq_project.Server.Replication.{
  Replication, Saved, le_bytes, le_read, state_bytes, read_state, state_magic,
}

le_read-le_bytes :
    (k v : ℕ) (rest : Bytes) → v < 256 ^ k → le_read k (le_bytes k v ++ rest) ≡ some (v, rest)
unfolding le_read le_bytes
le_read-le_bytes zero v rest h = ap (λ w. some (w, rest)) {x = 0} {y = v} (omega arith)
le_read-le_bytes (suc k) v rest h =
    let n = 256 ^ k in
    let power : 256 ^ suc k ≡ 256 * n = omega arith in
    rw (le_read-le_bytes k (v / 256) rest (omega arith), le_read)
      (ap (λ w. some (w, rest)) {x = v % 256 + 256 * (v / 256)} {y = v} (omega arith))

-- The state that the file keeps, within the ranges of its fields.
pub record IsSavable (c : Replication) : Type 0 where
  pub term_fits : c.current_term < 2 ^ 64
  pub commit_fits : c.commit_index < 2 ^ 64
  pub applied_fits : c.last_applied < 2 ^ 64
  pub vote_fits : length c.voted_for ≤ 4096

abbrev pub saved : Replication → Saved
saved c = record {
  term = c.current_term;
  commit = c.commit_index;
  applied = c.last_applied;
  voted = c.voted_for;
}

-- `read_state` by its reads.
reads :
    (file a b d e f voted : Bytes) (term commit applied : ℕ)
    → le_read 4 file ≡ some (state_magic, a)
    → le_read 8 a ≡ some (term, b)
    → le_read 8 b ≡ some (commit, d)
    → le_read 8 d ≡ some (applied, e)
    → le_read 4 e ≡ some (length voted, f)
    → length voted ≤ 4096
    → stream_read (length voted) f ≡ some (voted, [])
    → read_state file
      ≡ some (record { term = term; commit = commit; applied = applied; voted = voted })
unfolding read_state
reads file a b d e f voted term commit applied m t c l n h r =
    rw m (rw t (rw c (rw l (rw n (rw (le→ltb 4096 (length voted) h) (rw r))))))

stream_read-whole : (bytes : Bytes) → stream_read (length bytes) bytes ≡ some (bytes, [])
unfolding stream_read
stream_read-whole [] = refl
stream_read-whole (b ∷ bytes) = rw (stream_read-whole bytes, stream_read)

-- `LoadState` reads from the file that `PersistLocked` writes the term, the vote, the commit index
-- and the last applied index that were written, where the voted name has at most 4096 bytes.
pub read_state-state_bytes :
    (c : Replication) → IsSavable c → read_state (state_bytes c) ≡ some (saved c)
unfolding state_bytes
read_state-state_bytes c v =
    reads (state_bytes c) _ _ _ _ c.voted_for c.voted_for c.current_term c.commit_index
      c.last_applied (le_read-le_bytes 4 state_magic _ (omega arith))
      (le_read-le_bytes 8 c.current_term _ v.term_fits)
      (le_read-le_bytes 8 c.commit_index _ v.commit_fits)
      (le_read-le_bytes 8 c.last_applied _ v.applied_fits)
      (le_read-le_bytes 4 (length c.voted_for) c.voted_for (omega (arith, v.vote_fits))) v.vote_fits
      (stream_read-whole c.voted_for)

-- A read of that length never fails, whatever the value.
le_read-some :
    (k v : ℕ) (rest : Bytes) → (w : ℕ) × (le_read k (le_bytes k v ++ rest) ≡ some (w, rest))
unfolding le_read le_bytes
le_read-some zero v rest = (0, refl)
le_read-some (suc k) v rest =
    let (w, e) = le_read-some k (v / 256) rest in (v % 256 + 256 * w, rw (e, le_read))

-- The term and the vote come back whatever the indices are.
pub read_vote :
    (c : Replication)
    → c.current_term < 2 ^ 64
    → length c.voted_for ≤ 4096
    → (s : Saved) × (read_state (state_bytes c) ≡ some s)
      × (s.term ≡ c.current_term)
      × (s.voted ≡ c.voted_for)
unfolding state_bytes
read_vote c t v =
    let (commit, e) =
      le_read-some 8 c.commit_index
        (le_bytes 8 c.last_applied ++ le_bytes 4 (length c.voted_for) ++ c.voted_for) in
    let (applied, d) =
      le_read-some 8 c.last_applied (le_bytes 4 (length c.voted_for) ++ c.voted_for) in
    (
      _,
      reads (state_bytes c) _ _ _ _ c.voted_for c.voted_for c.current_term commit applied
          (le_read-le_bytes 4 state_magic _ (omega arith)) (le_read-le_bytes 8 c.current_term _ t) e
          d (le_read-le_bytes 4 (length c.voted_for) c.voted_for (omega arith)) v
          (stream_read-whole c.voted_for),
      refl,
      refl,
    )
