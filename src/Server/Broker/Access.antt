-- ===== src/Server/Broker/Access.antt =====
-- Which requests `Handle` of src/server/broker.cc lets through to a handler: tokens and permissions.
pub mod Token
pub mod Gate
use mq_project.Prelude.{
  ℕ, ◌+◌, ◌-◌, ◌^◌, Bool, true, false, not, ◌&&◌, ◌||◌, Option, none, some, List, [], ◌∷◌, length,
  take, drop, ltb, ◌==◌, if◌then◌else◌, bit_and, bit_or, bit_xor,
}
use mq_project.Bytes.{Bytes, get16}
use mq_project.Bytes.Equality.{bytes_eq}
use mq_project.Protocol.Command
use mq_project.Protocol.Status
use mq_project.Protocol.Flag
use mq_project.Protocol.Codec.{Request, current_version}
use mq_project.Server.Replication.{is_nil}
use mq_project.Server.Broker.{ClientAuthorization, Broker, has_flag}

-- Reads in a chain; `none` is a read out of bounds.
infixl 5 ◌>>=◌
abbrev pub ◌>>=◌ {ℓ κ} : {A : Type ℓ} {B : Type κ} → Option A → (A → Option B) → Option B
none >>= f = none
some a >>= f = f a

-- The loop of `ConstantTimeEqual` over two strings of the same length.
pub difference : ℕ → Bytes → Bytes → ℕ
difference so_far (a ∷ left) (b ∷ right) = difference (bit_or so_far (bit_xor a b)) left right
difference so_far left right = so_far

unfoldable pub constant_time_equal : Bytes → Bytes → Bool
unfolding difference
constant_time_equal left right =
    if not (length left == length right) then false else difference 0 left right == 0

pub is_listed : List Bytes → Bytes → Bool
is_listed [] topic = false
is_listed (t ∷ ts) topic = if bytes_eq t topic then true else is_listed ts topic

abbrev pub is_none_listed : List Bytes → Bool
is_none_listed [] = true
is_none_listed (t ∷ ts) = false

unfoldable pub topic_allowed : List Bytes → Bytes → Bool
unfolding is_listed
topic_allowed topics topic = is_none_listed topics || is_listed topics topic

abbrev pub is_admin : ℕ → Bool
is_admin c =
    c == Command.create_topic
    || c == Command.delete_topic
    || c == Command.list_topic
    || c == Command.metrics

abbrev pub is_produce : ℕ → Bool
is_produce c = c == Command.produce || c == Command.produce_batch

abbrev pub is_consume : ℕ → Bool
is_consume c =
    c == Command.fetch
    || c == Command.commit_offset
    || c == Command.join_group
    || c == Command.sync_group
    || c == Command.offset_fetch

unfoldable pub authorize_client_request : Request → ClientAuthorization → Bool
unfolding topic_allowed
authorize_client_request r a =
    if is_admin r.command
    then a.allow_admin
    else (if is_produce r.command
        then a.allow_produce && topic_allowed a.produce_topics r.topic
        else (if is_consume r.command
            then a.allow_consume && (is_nil r.topic || topic_allowed a.consume_topics r.topic)
            else r.command == Command.heartbeat))

abbrev pub is_replica_command : ℕ → Bool
is_replica_command c =
    c == Command.replica_fetch || c == Command.replica_append || c == Command.replica_vote

-- Whether a payload begins with the size and the bytes of `token`.
unfoldable pub has_token : Bytes → Bytes → Option Bool
unfolding constant_time_equal
has_token payload token = do
  token_size ← get16 payload 0
  some (
      token_size == length token
      && not (ltb (length payload) (2 + token_size))
      && constant_time_equal (take token_size (drop 2 payload)) token)

abbrev pub without_token : Bytes → Bytes → Bytes
without_token payload token = drop (2 + length token) payload

-- The rules on the flags and the commands of a replication request.
unfoldable pub is_replication_request : Request → Broker → Bool
unfolding has_flag
is_replication_request r b =
    b.replication_configured
    && not (is_nil b.replication_auth_token)
    && has_flag r.flags Flag.replication
    && (r.command == Command.heartbeat || is_replica_command r.command)
    && not (r.command == Command.replica_append && not (has_flag r.flags Flag.replication_term))
    && not (
        has_flag r.flags Flag.replication_term
        && not (
            r.command == Command.heartbeat
            || r.command == Command.replica_append
            || r.command == Command.replica_vote))
    && not (ltb (length r.payload) 2)

-- The normalized request, if the token is right.
abbrev pub normalize_replication : Request → Broker → Bool → Option Request
normalize_replication r b same =
    if same
    then some (record r { payload = without_token r.payload b.replication_auth_token })
    else none

-- `some none` is `false`, `some (some r)` is `true` with the normalized request.
unfoldable pub validate_replication_request : Request → Broker → Option (Option Request)
unfolding is_replication_request has_token
validate_replication_request r b =
    if is_replication_request r b
    then (has_token r.payload b.replication_auth_token >>= λ same.
        some (normalize_replication r b same))
    else some none

abbrev pub normalize_client : Request → Broker → Bool → Option Request
normalize_client r b same =
    if same
    then some (record r {
      flags = bit_and r.flags (2 ^ 32 - 1 - Flag.authentication);
      payload = without_token r.payload b.client_auth_token;
    })
    else none

unfoldable pub validate_client_auth : Request → Broker → Option (Option Request)
unfolding has_flag has_token
validate_client_auth r b =
    if has_flag r.flags Flag.replication
    then some none
    else (if is_nil b.client_auth_token
        then some (if has_flag r.flags Flag.authentication then none else some r)
        else (if not (has_flag r.flags Flag.authentication) || ltb (length r.payload) 2
            then some none
            else (has_token r.payload b.client_auth_token >>= λ same.
                some (normalize_client r b same))))

abbrev pub known_flags : ℕ
known_flags = 0x3F

-- A request for a handler, or the status and the payload of a refusal.
pub data Admission : Type 0 where
  admitted : Request → Admission
  rejected : ℕ → Bytes → Admission
  faulted : Admission

unfoldable pub is_replication : Request → Bool
unfolding has_flag
is_replication r =
    (r.command == Command.heartbeat && has_flag r.flags Flag.replication)
    || is_replica_command r.command

abbrev pub or_rejected : ℕ → Option (Option Request) → Admission
or_rejected status none = faulted
or_rejected status (some none) = rejected status []
or_rejected status (some (some r)) = admitted r

-- The check of the permissions of a request that is authenticated.
unfoldable pub permit : Bool → Broker → Admission → Admission
unfolding authorize_client_request
permit is_replication_command b (rejected status payload) = rejected status payload
permit is_replication_command b faulted = faulted
permit is_replication_command b (admitted r) =
    if not is_replication_command
      && not (is_nil b.client_auth_token)
      && not (authorize_client_request r b.client_authorization)
    then rejected Status.permission_denied []
    else admitted r

-- `Handle` up to the choice of the handler.
unfoldable pub admit : Request → Broker → Admission
unfolding has_flag is_replication validate_replication_request validate_client_auth permit
admit r b =
    if not b.opened
    then rejected Status.internal_error []
    else (if not (r.version == current_version)
        then rejected Status.version_mismatch (current_version ∷ [])
        else (if not (bit_and r.flags (2 ^ 32 - 1 - known_flags) == 0)
              || bit_and r.flags Flag.ack_mask == Flag.ack_mask
              || (has_flag r.flags Flag.replication && has_flag r.flags Flag.authentication)
            then rejected Status.bad_request []
            else permit (is_replication r) b (
                if is_replication r || has_flag r.flags Flag.replication
                then or_rejected Status.bad_request (validate_replication_request r b)
                else or_rejected
                    (if is_nil b.client_auth_token
                      then Status.bad_request
                      else Status.unauthenticated)
                    (validate_client_auth r b))))
