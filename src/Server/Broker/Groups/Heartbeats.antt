-- ===== src/Server/Broker/Groups/Heartbeats.antt =====
-- `HandleHeartbeat` for members of groups.
use mq_project.Prelude.{
  ℕ, ◌+◌, ◌≤◌, ◌≡◌, ◌≢◌, inl, inr, refl, arith, Bool, true, false, not, ◌||◌, [], ◌∷◌, length, leb,
  ◌==◌, ==_iff, Bool-cases,
}
use mq_project.Bytes.{Bytes}
use mq_project.Bytes.Laws.{get16_within}
use mq_project.Protocol.Status
use mq_project.Protocol.Flag
use mq_project.Protocol.Codec.{Request}
use mq_project.Core.Groups.{expire}
use mq_project.Server.Replication.{is_nil}
use mq_project.Server.Broker.{Broker, has_flag}
use mq_project.Server.Broker.Reply.{reply, stopped}
use mq_project.Server.Broker.Groups.{parse_group_heartbeat, handle_heartbeat}

not_nil : (xs : Bytes) → xs ≢ [] → is_nil xs ≡ false
not_nil [] h = absurd (h refl)
not_nil (x ∷ xs) h = refl

contradiction :
    (n size member : ℕ)
    → n ≡ 4 + size
    → (size == 0 || member == 0 || not (n == 4 + size + member)) ≡ true
contradiction n size member h = ground (arith, h)

parse_group_heartbeat_stops :
    (payload : Bytes)
    → 4 ≤ length payload
    → parse_group_heartbeat payload ≡ stopped Status.bad_request
unfolding parse_group_heartbeat
parse_group_heartbeat_stops payload h =
    let (size, e) = get16_within payload 0 (omega (arith, h)) in
    elim (Bool-cases (length payload == 4 + size)) [
      | inr other ↦ rw e (rw other refl)
      | inl same ↦
          let l : length payload ≡ 4 + size = (==_iff (length payload) (4 + size)).0 same in
          let (member, f) = get16_within payload (2 + size) (omega (arith, l)) in
          rw e (rw same (rw f (rw (contradiction (length payload) size member l) refl)))
    ]

-- A heartbeat that is no replication request and has a payload, as that of a member of a group has, is
-- always refused, and all that it does is to expire members.
pub handle_heartbeat_refuses :
    (now : ℕ) (flushes : Bool) (r : Request) (b : Broker)
    → has_flag r.flags Flag.replication ≡ false
    → r.payload ≢ []
    → handle_heartbeat now flushes r b
      ≡ (reply Status.bad_request [], record b { groups = (expire now b.groups).1 })
unfolding handle_heartbeat
handle_heartbeat_refuses now flushes r b h p = elim (Bool-cases (leb 4 (length r.payload))) [
  | inl long ↦
      rw h (rw long (rw (parse_group_heartbeat_stops r.payload (ground (arith, long))) refl))
  | inr short ↦ rw h (rw short (rw (not_nil r.payload p) refl))
]
