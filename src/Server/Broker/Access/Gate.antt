-- ===== src/Server/Broker/Access/Gate.antt =====
-- Which requests get past the checks of `Handle`.
use mq_project.Prelude.{
  ℕ, ◌-◌, ◌^◌, ◌≡◌, ◌≢◌, ◌⊎◌, inl, inr, refl, sym, ap, subst, ◌∙◌, arith, Bool, true, false, not,
  ◌&&◌, ◌||◌, Option, none, some, [], ◌∷◌, ◌++◌, length, ltb, ◌==◌, ==_iff, if◌then◌else◌,
  Bool-cases, Option-cases, bit_and,
}
use mq_project.Bytes.{Bytes, IsByte, All, put16}
use mq_project.Protocol.Command
use mq_project.Protocol.Status
use mq_project.Protocol.Flag
use mq_project.Protocol.Codec.{Request, current_version}
use mq_project.Server.Replication.{is_nil}
use mq_project.Server.Broker.Access.Token.{has_token_sound}
use mq_project.Server.Broker.{Broker, has_flag}
use mq_project.Server.Broker.Access.{
  authorize_client_request, has_token, without_token, is_replication_request,
  validate_replication_request, validate_client_auth, normalize_client, Admission, admitted,
  rejected, faulted, is_replication, or_rejected, permit, admit, known_flags,
}

same_output :
    (m n : Request) → Path (Option (Option Request)) (some (some m)) (some (some n)) → m ≡ n
same_output m n h = ground (arith, h)

-- The commands of replication, which no client has.
abbrev pub IsOfClients : ℕ → Type 0
IsOfClients command =
    (command ≢ Command.replica_fetch)
    × (command ≢ Command.replica_append)
    × (command ≢ Command.replica_vote)

-- The commands of brokers, and when they have the flag for a term.
pub record IsOfBrokers (r : Request) : Type 0 where
  pub listed :
      (r.command ≡ Command.heartbeat)
      ⊎ (r.command ≡ Command.replica_fetch)
      ⊎ (r.command ≡ Command.replica_append)
      ⊎ (r.command ≡ Command.replica_vote)
  pub append_has_term :
      r.command ≡ Command.replica_append → has_flag r.flags Flag.replication_term ≡ true
  pub fetch_has_none :
      r.command ≡ Command.replica_fetch → has_flag r.flags Flag.replication_term ≡ false

-- What a request must be to reach a handler, where `r` is as it came in and `n` as it is handed on.
pub data IsAdmissible (b : Broker) (r n : Request) : Type 0 where
  open_to_all :
      b.client_auth_token ≡ []
      → has_flag r.flags Flag.replication ≡ false
      → has_flag r.flags Flag.authentication ≡ false
      → IsOfClients r.command
      → n ≡ r
      → IsAdmissible b r n
  of_client :
      b.client_auth_token ≢ []
      → has_flag r.flags Flag.replication ≡ false
      → has_flag r.flags Flag.authentication ≡ true
      → IsOfClients r.command
      → r.payload ≡ put16 [] (length b.client_auth_token) ++ b.client_auth_token ++ n.payload
      → n ≡ record r {
        flags = bit_and r.flags (2 ^ 32 - 1 - Flag.authentication);
        payload = n.payload;
      }
      → authorize_client_request n b.client_authorization ≡ true
      → IsAdmissible b r n
  of_broker :
      b.replication_configured ≡ true
      → b.replication_auth_token ≢ []
      → has_flag r.flags Flag.replication ≡ true
      → IsOfBrokers r
      → r.payload
        ≡ put16 [] (length b.replication_auth_token) ++ b.replication_auth_token ++ n.payload
      → n ≡ record r { payload = n.payload }
      → IsAdmissible b r n

split_token :
    (r n : Request) (token : Bytes)
    → All IsByte r.payload
    → has_token r.payload token ≡ some true
    → without_token r.payload token ≡ n.payload
    → r.payload ≡ put16 [] (length token) ++ token ++ n.payload
split_token r n token bytes h e =
    has_token_sound r.payload token bytes h ∙ ap (λ xs. put16 [] (length token) ++ token ++ xs) e

not_nil : (xs : Bytes) → is_nil xs ≡ false → xs ≢ []
not_nil xs h e = absurd (ground (arith, h, ap is_nil e))

is_nil_sound : (xs : Bytes) → is_nil xs ≡ true → xs ≡ []
is_nil_sound [] h = refl
is_nil_sound (x ∷ xs) h = absurd (ground (arith, h))

of_brokers : (r : Request) (b : Broker) → is_replication_request r b ≡ true → IsOfBrokers r
unfolding is_replication_request
of_brokers r b h = record {
  listed = ground (arith, h);
  append_has_term = λ e. ground (arith, h, e);
  fetch_has_none = λ e. ground (arith, h, e);
}

of_clients :
    (r : Request)
    → is_replication r || has_flag r.flags Flag.replication ≡ false
    → IsOfClients r.command
unfolding is_replication
of_clients r h = (λ e. ground (arith, h, e), λ e. ground (arith, h, e), λ e. ground (arith, h, e))

validate_replication_request_sound :
    (r n : Request) (b : Broker)
    → All IsByte r.payload
    → validate_replication_request r b ≡ some (some n)
    → IsAdmissible b r n
unfolding validate_replication_request is_replication_request
validate_replication_request_sound r n b bytes h = elim (Bool-cases (is_replication_request r b)) [
  | inr bad ↦ absurd (ground (arith, h, bad))
  | inl good ↦ elim (Option-cases (has_token r.payload b.replication_auth_token)) [
    | inl fault ↦ absurd (ground (arith, h, good, fault))
    | inr (same, e) ↦ elim (Bool-cases same) [
      | inr other ↦ absurd (ground (arith, h, good, e, other))
      | inl right ↦
          let run : validate_replication_request r b
              ≡ some
                  (some (record r { payload = without_token r.payload b.replication_auth_token })) =
            rw good (rw e (rw right refl)) in
          let m = same_output _ n (sym run ∙ h) in
          of_broker (ground (arith, good)) (not_nil b.replication_auth_token (ground (arith, good)))
            (ground (arith, good)) (of_brokers r b good)
            (split_token r n b.replication_auth_token bytes (e ∙ ap some right)
              (ap (λ x. x.payload) m))
            (sym m ∙ ap (λ p. record r { payload = p }) (ap (λ x. x.payload) m))
    ]
  ]
]

validate_client_auth_sound :
    (r n : Request) (b : Broker)
    → All IsByte r.payload
    → validate_client_auth r b ≡ some (some n)
    → is_nil b.client_auth_token || authorize_client_request n b.client_authorization ≡ true
    → IsOfClients r.command
    → IsAdmissible b r n
unfolding validate_client_auth
validate_client_auth_sound r n b bytes h a clients =
    elim (Bool-cases (has_flag r.flags Flag.replication)) [
      | inl bad ↦ absurd (ground (arith, h, bad))
      | inr client ↦ elim (Bool-cases (is_nil b.client_auth_token)) [
        | inl all ↦ elim (Bool-cases (has_flag r.flags Flag.authentication)) [
          | inl flagged ↦ absurd (ground (arith, h, client, all, flagged))
          | inr plain ↦
              let run : validate_client_auth r b ≡ some (some r) =
                rw client (rw all (rw plain refl)) in
              open_to_all (is_nil_sound b.client_auth_token all) client plain clients
                (sym (same_output r n (sym run ∙ h)))
        ]
        | inr secret ↦ elim (Option-cases (has_token r.payload b.client_auth_token)) [
          | inl fault ↦ absurd (ground (arith, h, client, secret, fault))
          | inr (same, e) ↦ elim (Bool-cases same) [
            | inr other ↦ absurd (ground (arith, h, client, secret, e, other))
            | inl right ↦
                elim (Bool-cases
                  (not (has_flag r.flags Flag.authentication) || ltb (length r.payload) 2)) [
                    | inl short ↦ absurd (ground (arith, h, client, secret, short))
                    | inr long ↦
                        let run : validate_client_auth r b ≡ some (normalize_client r b true) =
                          rw client (rw secret (rw long (rw e (rw right refl)))) in
                        let m = same_output _ n (sym run ∙ h) in
                        of_client (not_nil b.client_auth_token secret) client (ground (arith, long))
                          clients
                          (split_token r n b.client_auth_token bytes (e ∙ ap some right)
                            (ap (λ x. x.payload) m))
                          (sym m
                            ∙ ap
                                (λ p. record r {
                                  flags = bit_and r.flags (2 ^ 32 - 1 - Flag.authentication);
                                  payload = p;
                                })
                                (ap (λ x. x.payload) m))
                          (ground (arith, a, secret))
                  ]
          ]
        ]
      ]
    ]

permit_admitted :
    (flag : Bool) (b : Broker) (n : Request) (a : Admission)
    → permit flag b a ≡ admitted n
    → (a ≡ admitted n)
      × (flag || is_nil b.client_auth_token || authorize_client_request n b.client_authorization
          ≡ true)
unfolding permit
permit_admitted flag b n (rejected s p) h = absurd (ground (arith, h))
permit_admitted flag b n faulted h = absurd (ground (arith, h))
permit_admitted flag b n (admitted m) h =
    elim (Bool-cases (
      not flag
      && not (is_nil b.client_auth_token)
      && not (authorize_client_request m b.client_authorization))) [
        | inl out ↦ absurd (ground (arith, h, out))
        | inr fine ↦
            let e : m ≡ n = ground (arith, h, fine) in
            (
              ap admitted e,
              subst
                  (λ k.
                    flag
                      || is_nil b.client_auth_token
                      || authorize_client_request k b.client_authorization
                    ≡ true)
                  e (ground (arith, fine)),
            )
      ]

or_rejected_admitted :
    (status : ℕ) (n : Request) (o : Option (Option Request))
    → or_rejected status o ≡ admitted n
    → o ≡ some (some n)
or_rejected_admitted status n none h = absurd (ground (arith, h))
or_rejected_admitted status n (some none) h = absurd (ground (arith, h))
or_rejected_admitted status n (some (some m)) h = ground (arith, h)

checked :
    (r n : Request) (b : Broker)
    → admit r b ≡ admitted n
    → (b.opened ≡ true)
      × (r.version ≡ current_version)
      × (permit (is_replication r) b (
            if is_replication r || has_flag r.flags Flag.replication
            then or_rejected Status.bad_request (validate_replication_request r b)
            else or_rejected
                (if is_nil b.client_auth_token then Status.bad_request else Status.unauthenticated)
                (validate_client_auth r b))
          ≡ admitted n)
unfolding admit
checked r n b h = elim (Bool-cases b.opened) [
  | inr shut ↦ absurd (ground (arith, h, shut))
  | inl opened ↦ elim (Bool-cases (r.version == current_version)) [
    | inr other ↦ absurd (ground (arith, h, opened, other))
    | inl same ↦
        elim (Bool-cases (
          not (bit_and r.flags (2 ^ 32 - 1 - known_flags) == 0)
          || bit_and r.flags Flag.ack_mask == Flag.ack_mask
          || (has_flag r.flags Flag.replication && has_flag r.flags Flag.authentication))) [
            | inl odd ↦ absurd (ground (arith, h, opened, same, odd))
            | inr fine ↦ (
              opened,
              (==_iff r.version current_version).0 same,
              ground (arith, h, opened, same, fine),
            )
          ]
  ]
]

-- A request that is handed to a handler came to an open broker, in the version of the protocol, and:
-- either the broker has no client token, and the request has no command of replication and is handed on as
-- it came; or it has none, its payload begins with the client token, and what is left is permitted to
-- clients; or it has a command of brokers, and its payload begins with the token of replication.
pub admit-IsAdmissible :
    (r n : Request) (b : Broker)
    → All IsByte r.payload
    → admit r b ≡ admitted n
    → (b.opened ≡ true) × (r.version ≡ current_version) × IsAdmissible b r n
admit-IsAdmissible r n b bytes h =
    let (opened, version, p) = checked r n b h in
    let (q, a) = permit_admitted (is_replication r) b n _ p in
    (
      opened,
      version,
      elim (Bool-cases (is_replication r || has_flag r.flags Flag.replication)) [
        | inl broker ↦ validate_replication_request_sound r n b bytes (
            or_rejected_admitted Status.bad_request n (validate_replication_request r b)
              (ground (arith, q, broker)))
        | inr client ↦
            validate_client_auth_sound r n b bytes
              (or_rejected_admitted
                (if is_nil b.client_auth_token then Status.bad_request else Status.unauthenticated)
                n (validate_client_auth r b) (ground (arith, q, client)))
              (ground (arith, a, client)) (of_clients r client)
      ],
    )
