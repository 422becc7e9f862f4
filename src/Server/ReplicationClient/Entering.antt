-- ===== src/Server/ReplicationClient/Entering.antt =====
-- How a call gets past the checks of the other broker.
use mq_project.Prelude.{
  ℕ, suc, ◌+◌, ◌-◌, ◌%◌, ◌^◌, ◌≤◌, ◌≡◌, refl, ap, ◌∙◌, arith, Bool, true, false, not, ◌&&◌, ◌||◌,
  some, [], ◌++◌, length, drop, ltb, ◌==◌, ==_iff, bit_and, length-append, le→ltb, take-append_left,
  drop-append_left,
}
use mq_project.Bytes.{Bytes}
use mq_project.Bytes.Laws.{get16-append}
use mq_project.Protocol.Command
use mq_project.Protocol.Flag
use mq_project.Server.Replication.{is_nil}
use mq_project.Server.Broker.{Broker, has_flag}
use mq_project.Server.Broker.Access.{
  has_token, without_token, is_replica_command, is_replication_request,
  validate_replication_request, is_replication, admitted, permit, admit, known_flags,
}
use mq_project.Server.Broker.Access.Token.{constant_time_equal_refl}
use mq_project.Server.ReplicationClient.{ReplicationClient, authenticate, call_request}

-- The token in front of a payload.
module _ (token payload : Bytes) (fits : length token ≤ 65535) where
  sized : length token % 2 ^ 16 ≡ length token
  sized = omega arith

  pub length-authenticate : length (authenticate token payload) ≡ 2 + length token + length payload
  length-authenticate = omega (arith, length-append token payload)

  has_token-authenticate : has_token (authenticate token payload) token ≡ some true
  unfolding has_token
  has_token-authenticate =
      rw (get16-append [] (length token % 2 ^ 16) (token ++ payload) (omega arith)) (
        rw sized (
          rw ((==_iff (length token) (length token)).1 refl) (
            rw
              (le→ltb (length (authenticate token payload)) (2 + length token)
                (omega (arith, length-authenticate)))
              (rw (take-append_left token payload) (rw (constant_time_equal_refl token) refl)))))

  without_token-authenticate : without_token (authenticate token payload) token ≡ payload
  without_token-authenticate =
      ap (λ n. drop n (authenticate token payload)) {x = 2 + length token}
        {y = suc (suc (length token))} (omega arith)
      ∙ drop-append_left token payload

-- A broker that takes part in the replication, with the token of a client.
pub record Trusts (b : Broker) (c : ReplicationClient) : Type 0 where
  pub opened : b.opened ≡ true
  pub configured : b.replication_configured ≡ true
  pub same_token : b.replication_auth_token ≡ c.auth_token
  pub some_token : is_nil c.auth_token ≡ false
  pub token_fits : length c.auth_token ≤ 65535

-- The commands of the calls, with those that bear a term.
abbrev pub is_call : ℕ → Bool → Bool
is_call command term =
    (command == Command.heartbeat || is_replica_command command)
    && not (command == Command.replica_append && not term)
    && not (
        term
        && not (
            command == Command.heartbeat
            || command == Command.replica_append
            || command == Command.replica_vote))

module _ (command : ℕ) (topic payload : Bytes) (b : Broker) (c : ReplicationClient)
    (v : Trusts b c) where
  long : ltb (length (authenticate c.auth_token payload)) 2 ≡ false
  long =
      le→ltb (length (authenticate c.auth_token payload)) 2
        (omega (arith, length-authenticate c.auth_token payload v.token_fits))

  asks :
      (term : Bool)
      → is_call command term ≡ true
      → is_replication_request (call_request command topic payload term c) b ≡ true
  unfolding is_replication_request call_request has_flag
  asks true h = rw v.configured (rw v.same_token (rw v.some_token (rw long (ground (arith, h)))))
  asks false h = rw v.configured (rw v.same_token (rw v.some_token (rw long (ground (arith, h)))))

  belongs :
      (term : Bool)
      → is_call command term ≡ true
      → is_replication (call_request command topic payload term c) ≡ true
  unfolding is_replication call_request has_flag
  belongs true h = ground (arith, h)
  belongs false h = ground (arith, h)

  legal :
      (term : Bool)
      → (bit_and (call_request command topic payload term c).flags (2 ^ 32 - 1 - known_flags) ≡ 0)
        × (bit_and (call_request command topic payload term c).flags Flag.ack_mask ≡ 0)
        × (has_flag (call_request command topic payload term c).flags Flag.authentication ≡ false)
        × (has_flag (call_request command topic payload term c).flags Flag.replication ≡ true)
  unfolding call_request has_flag
  legal true = (refl, refl, refl, refl)
  legal false = (refl, refl, refl, refl)

  validated :
      (term : Bool)
      → is_call command term ≡ true
      → validate_replication_request (call_request command topic payload term c) b
        ≡ some (some (record (call_request command topic payload term c) { payload = payload }))
  unfolding validate_replication_request call_request
  validated term h = rw (asks term h) (
      rw v.same_token (
        rw (has_token-authenticate c.auth_token payload v.token_fits, has_token)
          (rw (without_token-authenticate c.auth_token payload v.token_fits) refl)))

  -- A call reaches the handler with the payload that the client has made.
  pub admit-call_request :
      (term : Bool)
      → is_call command term ≡ true
      → admit (call_request command topic payload term c) b
        ≡ admitted (record (call_request command topic payload term c) { payload = payload })
  unfolding admit permit call_request
  admit-call_request term h =
      let (known, acks, plain, replicating) = legal term in
      rw (belongs term h, is_replication)
        (rw (validated term h, validate_replication_request)
          (rw known (rw acks (rw (replicating, plain) (rw v.opened refl)))))
