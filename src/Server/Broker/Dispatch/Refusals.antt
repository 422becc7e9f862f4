-- ===== src/Server/Broker/Dispatch/Refusals.antt =====
-- What a request does that is not let through to a handler.
use mq_project.Prelude.{
  ℕ, ◌+◌, ◌-◌, ◌^◌, ◌≡◌, ◌≢◌, ◌⊎◌, inl, inr, refl, arith, Bool, true, false, not, ◌&&◌, ◌||◌,
  Option, none, some, [], ◌∷◌, length, take, drop, ltb, ltb→le, ◌==◌, if◌then◌else◌, Bool-cases,
  bit_and,
}
use mq_project.Bytes.{Bytes, IsByte, All}
use mq_project.Bytes.Laws.{get16_within}
use mq_project.Protocol.Status
use mq_project.Protocol.Flag
use mq_project.Protocol.Codec.{Request, current_version}
use mq_project.Server.Replication.{is_nil}
use mq_project.Server.Broker.{Broker, has_flag}
use mq_project.Server.Broker.Reply.{make_response}
use mq_project.Server.Broker.Access
use mq_project.Server.Broker.Access.{
  authorize_client_request, constant_time_equal, has_token, is_replication_request,
  normalize_replication, normalize_client, validate_replication_request, validate_client_auth,
  Admission, admitted, rejected, is_replication, or_rejected, permit, admit, known_flags,
}
use mq_project.Server.Broker.Access.Gate.{
  IsAdmissible, open_to_all, of_client, of_broker, admit-IsAdmissible,
}
use mq_project.Server.Broker.Dispatch.{
  Context, count_request, count_error, count_command, dispatch, answer, handle_admitted, handle,
}

-- No read out of bounds, and no refusal with `kOk`.
abbrev IsDecided : Admission → Type 0
IsDecided (admitted r) = Unit
IsDecided (rejected status payload) = status ≢ Status.ok
IsDecided Access.faulted = ⊥

either :
    (c : Bool) (x y : Admission)
    → (c ≡ true → IsDecided x)
    → (c ≡ false → IsDecided y)
    → IsDecided (if c then x else y)
either true x y f g = f refl
either false x y f g = g refl

permit-IsDecided : (c : Bool) (b : Broker) (a : Admission) → IsDecided a → IsDecided (permit c b a)
unfolding permit
permit-IsDecided c b (rejected status payload) h = h
permit-IsDecided c b Access.faulted h = h
permit-IsDecided c b (admitted r) h =
    either
      (not c
        && not (is_nil b.client_auth_token)
        && not (authorize_client_request r b.client_authorization))
      (rejected Status.permission_denied []) (admitted r) (λ e. ground arith) (λ e. tt)

has_token_within :
    (payload token : Bytes)
    → ltb (length payload) 2 ≡ false
    → (same : Bool) × (has_token payload token ≡ some same)
unfolding has_token
has_token_within payload token h =
    let (size, read) = get16_within payload 0 (ltb→le (length payload) 2 h) in
    (
      size == length token
          && not (ltb (length payload) (2 + size))
          && constant_time_equal (take size (drop 2 payload)) token,
      rw read refl,
    )

validate_replication_request-some :
    (r : Request) (b : Broker) → (o : Option Request) × (validate_replication_request r b ≡ some o)
unfolding validate_replication_request is_replication_request
validate_replication_request-some r b = elim (Bool-cases (is_replication_request r b)) [
  | inr bad ↦ (none, rw bad refl)
  | inl good ↦
      let (same, e) = has_token_within r.payload b.replication_auth_token (ground (arith, good)) in
      (normalize_replication r b same, rw good (rw (e, has_token) refl))
]

validate_client_auth-some :
    (r : Request) (b : Broker) → (o : Option Request) × (validate_client_auth r b ≡ some o)
unfolding validate_client_auth
validate_client_auth-some r b = elim (Bool-cases (has_flag r.flags Flag.replication)) [
  | inl bad ↦ (none, rw bad refl)
  | inr client ↦ elim (Bool-cases (is_nil b.client_auth_token)) [
    | inl all ↦
        (if has_flag r.flags Flag.authentication then none else some r, rw client (rw all refl))
    | inr secret ↦
        elim (Bool-cases (not (has_flag r.flags Flag.authentication) || ltb (length r.payload) 2)) [
          | inl short ↦ (none, rw client (rw secret (rw short refl)))
          | inr long ↦
              let (same, e) =
                has_token_within r.payload b.client_auth_token (ground (arith, long)) in
              (normalize_client r b same, rw client (rw secret (rw long (rw (e, has_token) refl))))
        ]
  ]
]

or_rejected-IsDecided :
    (status : ℕ) (p : Option (Option Request)) (o : Option Request)
    → status ≢ Status.ok
    → p ≡ some o
    → IsDecided (or_rejected status p)
or_rejected-IsDecided status p none n e = rw e n
or_rejected-IsDecided status p (some r) n e = rw e tt

checked-IsDecided :
    (r : Request) (b : Broker)
    → IsDecided (
        if is_replication r || has_flag r.flags Flag.replication
        then or_rejected Status.bad_request (validate_replication_request r b)
        else or_rejected
            (if is_nil b.client_auth_token then Status.bad_request else Status.unauthenticated)
            (validate_client_auth r b))
checked-IsDecided r b =
    let (o, e) = validate_replication_request-some r b in
    let (p, f) = validate_client_auth-some r b in
    either (is_replication r || has_flag r.flags Flag.replication)
      (or_rejected Status.bad_request (validate_replication_request r b))
      (or_rejected
        (if is_nil b.client_auth_token then Status.bad_request else Status.unauthenticated)
        (validate_client_auth r b))
      (λ _.
        or_rejected-IsDecided Status.bad_request (validate_replication_request r b) o (ground arith)
          e)
      (λ _.
        or_rejected-IsDecided
          (if is_nil b.client_auth_token then Status.bad_request else Status.unauthenticated)
          (validate_client_auth r b) p (ground (arith, Bool-cases (is_nil b.client_auth_token))) f)

unless :
    (status : ℕ) (payload : Bytes)
    → status ≢ Status.ok
    → (c : Bool) (y : Admission) → IsDecided y
    → IsDecided (if c then rejected status payload else y)
unless status payload n true y h = n
unless status payload n false y h = h

admit-IsDecided : (r : Request) (b : Broker) → IsDecided (admit r b)
unfolding admit
admit-IsDecided r b = unless Status.internal_error [] (ground arith) (not b.opened) _ (
    unless Status.version_mismatch (current_version ∷ []) (ground arith)
      (not (r.version == current_version)) _
      (unless Status.bad_request [] (ground arith)
        (not (bit_and r.flags (2 ^ 32 - 1 - known_flags) == 0)
          || bit_and r.flags Flag.ack_mask == Flag.ack_mask
          || (has_flag r.flags Flag.replication && has_flag r.flags Flag.authentication))
        _ (permit-IsDecided (is_replication r) b _ (checked-IsDecided r b))))

same_tokens : (b : Broker) (r n : Request) → IsAdmissible (count_request b) r n → IsAdmissible b r n
same_tokens b r n (open_to_all a c d e f) = open_to_all a c d e f
same_tokens b r n (of_client a c d e f g h) = of_client a c d e f g h
same_tokens b r n (of_broker a c d e f g) = of_broker a c d e f g

IsAdmissible-or_refused :
    (x : Context) (r : Request) (b : Broker) (a : Admission)
    → IsDecided a
    → admit r (count_request b) ≡ a
    → All IsByte r.payload
    → ((n : Request) × (b.opened ≡ true)
        × IsAdmissible b r n
        × (handle x r b ≡ answer n (dispatch x n (count_command r (count_request b)))))
      ⊎ ((status : ℕ) × (payload : Bytes) × (status ≢ Status.ok)
          × (handle x r b ≡ (
            some (make_response r status payload),
            if not b.opened then count_error (count_request b) else count_request b,
          )))
unfolding handle handle_admitted
IsAdmissible-or_refused x r b (admitted n) d e bytes =
    let (opened, version, ok) = admit-IsAdmissible r n (count_request b) bytes e in
    inl (n, opened, same_tokens b r n ok, rw e refl)
IsAdmissible-or_refused x r b (rejected status payload) d e bytes =
    inr (status, payload, d, rw e refl)
IsAdmissible-or_refused x r b Access.faulted d e bytes = absurd d

-- A request either comes to an open broker with the right to its command, and its answer and its effect are
-- those of the handler on the request without its token; or it is answered with a status other than `kOk`,
-- and of the state of the broker only the counts of requests and of errors change. It has the right to its
-- command if the broker has no client token and the command is not one of replication; or if it is not one
-- of replication, the payload begins with the client token, and the permissions of clients allow it; or if
-- it is a heartbeat or a command of replication, flagged as such, and the payload begins with the token of
-- replication, which the broker has. The handler then gets the request with nothing changed but the token
-- and the flag of a client's token.
pub handle-IsAdmissible :
    (x : Context) (r : Request) (b : Broker)
    → All IsByte r.payload
    → ((n : Request) × (b.opened ≡ true)
        × IsAdmissible b r n
        × (handle x r b ≡ answer n (dispatch x n (count_command r (count_request b)))))
      ⊎ ((status : ℕ) × (payload : Bytes) × (status ≢ Status.ok)
          × (handle x r b ≡ (
            some (make_response r status payload),
            if not b.opened then count_error (count_request b) else count_request b,
          )))
handle-IsAdmissible x r b bytes =
    IsAdmissible-or_refused x r b (admit r (count_request b)) (admit-IsDecided r (count_request b))
      refl bytes
