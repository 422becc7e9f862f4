-- ===== src/Client/Call/Answers.antt =====
-- What `Call` of src/client/mq_client.cc hands on.
use mq_project.Prelude.{
  ℕ, ◌+◌, ◌%◌, ◌^◌, ◌≤◌, ◌≡◌, refl, subst, sym, ap, ◌∙◌, ltb→le, if◌then◌else◌, arith, Bool, true,
  false, not, ◌&&◌, Option, none, some, List, [], ◌∷◌, length, ltb, ◌==◌, ==_iff,
}
use mq_project.Bytes.{Bytes}
use mq_project.Protocol.Status
use mq_project.Protocol.Codec
use mq_project.Protocol.Codec.{Request, Response, decode_response, encode_request, Outcome}
use mq_project.Client.Call.{
  World, Caller, Attempt, again, faulted, answered, Received, cut, too_large, whole, Called,
  refused, returned, receive, accept, respond, sent, send_frame, send, after_connect, one_round,
  after_round, rounds, call, connect, authenticated,
}
use mq_project.Client.Producer.{is_nothing}

-- A response to the last request that was counted, from a broker that does not refuse to lead while there
-- is another endpoint.
pub record IsAnswer (response : Response) (c : Caller) : Type 0 where
  pub counted : c.request_id ≡ (response.request_id + 1) % 2 ^ 64
  pub leads : response.status ≡ Status.not_leader → length c.endpoints ≤ 1
  pub patient : c.backoff ≡ 100

-- An attempt that answered.
unfoldable pub Answers : Attempt × Caller → Type 0
Answers (again, c) = Unit
Answers (faulted, c) = Unit
Answers (answered response, c) = IsAnswer response c

-- Whichever way a test goes.
either_way {ℓ κ} :
    {A : Type ℓ} (P : A → Type κ) (b : Bool) (x y : A)
    → (b ≡ true → P x)
    → (b ≡ false → P y)
    → P (if b then x else y)
either_way P true x y f g = f refl
either_way P false x y f g = g refl

same_id : (a b : ℕ) → not (a == b) ≡ false → a ≡ b
same_id a b e = ground arith

leads_here :
    (status n : ℕ)
    → (status == Status.not_leader && ltb 1 n) ≡ false
    → status ≡ Status.not_leader
    → n ≤ 1
leads_here status n e s = ltb→le 1 n (sym (rw ((==_iff status Status.not_leader).1 s) refl) ∙ e)

accept-Answers :
    (id : ℕ) (decoded : Outcome Response) (c : Caller)
    → c.request_id ≡ (id + 1) % 2 ^ 64
    → Answers (accept id decoded c)
unfolding Answers accept
accept-Answers id Codec.fault c e = tt
accept-Answers id (Codec.fail x) c e = tt
accept-Answers id (Codec.ok response) c e =
    either_way Answers (not (response.request_id == id)) _ _ (λ different. tt)
      (λ same.
        either_way Answers (response.status == Status.not_leader && ltb 1 (length c.endpoints)) _ _
          (λ elsewhere. tt)
          (λ here. record {
            counted = e ∙ ap (λ n. (n + 1) % 2 ^ 64) (sym (same_id response.request_id id same));
            leads = leads_here response.status (length c.endpoints) here;
            patient = refl;
          }))

respond-Answers :
    (id : ℕ) (received : Received) (c : Caller)
    → c.request_id ≡ (id + 1) % 2 ^ 64
    → Answers (respond id received c)
unfolding Answers respond
respond-Answers id cut c e = tt
respond-Answers id too_large c e = tt
respond-Answers id (whole frame) c e = accept-Answers id (decode_response frame) c e

sent-Answers :
    (id : ℕ) (received : Option Bytes) (c : Caller)
    → c.request_id ≡ (id + 1) % 2 ^ 64
    → Answers (sent id received c)
unfolding Answers sent
sent-Answers id none c e = tt
sent-Answers id (some received) c e = respond-Answers id (receive received) c e

send_frame-Answers :
    (w : World) (id : ℕ) (encoded : Outcome Bytes) (c : Caller)
    → c.request_id ≡ (id + 1) % 2 ^ 64
    → Answers (send_frame w id encoded c)
unfolding Answers send_frame
send_frame-Answers w id Codec.fault c e = tt
send_frame-Answers w id (Codec.fail x) c e = tt
send_frame-Answers w id (Codec.ok frame) c e = sent-Answers id (w.exchange c.host c.port frame) c e

send-Answers : (w : World) (r : Request) (c : Caller) → Answers (send w r c)
unfolding send
send-Answers w r c =
    send_frame-Answers w c.request_id (encode_request (record r { request_id = c.request_id }))
      (record c { request_id = (c.request_id + 1) % 2 ^ 64 }) refl

after_connect-Answers :
    (w : World) (r : Request) (connected : Bool × Caller) → Answers (after_connect w r connected)
unfolding after_connect Answers
after_connect-Answers w r (true, c) = send-Answers w r c
after_connect-Answers w r (false, c) = tt

one_round-Answers : (w : World) (r : Request) (c : Caller) → Answers (one_round w r c)
unfolding one_round
one_round-Answers w r c = after_connect-Answers w r (connect w c)

unfoldable IsReturned : Called × Caller → Type 0
IsReturned (refused, c) = Unit
IsReturned (faulted, c) = Unit
IsReturned (returned response, c) = IsAnswer response c

after_round-IsReturned :
    (rest : Caller → Called × Caller)
    → ((c : Caller) → IsReturned (rest c))
    → (a : Attempt × Caller) → Answers a
    → IsReturned (after_round rest a)
unfolding Answers IsReturned
after_round-IsReturned rest returns (again, c) answers = returns c
after_round-IsReturned rest returns (faulted, c) answers = tt
after_round-IsReturned rest returns (answered response, c) answers = answers

rounds-IsReturned : (ws : List World) (r : Request) (c : Caller) → IsReturned (rounds ws r c)
unfolding rounds IsReturned
rounds-IsReturned [] r c = tt
rounds-IsReturned (w ∷ ws) r c =
    after_round-IsReturned (rounds ws r) (rounds-IsReturned ws r) (one_round w r c)
      (one_round-Answers w r c)

call-IsReturned : (ws : List World) (r : Request) (c : Caller) → IsReturned (call ws r c)
unfolding call IsReturned
call-IsReturned ws r c =
    either_way IsReturned (not (is_nothing c.auth_token) && ltb 65535 (length c.auth_token)) _ _
      (λ too_long. tt) (λ fits. rounds-IsReturned ws (authenticated r c) c)

-- If a call returns a response, it is the response to the last request that the client has sent: the next
-- id is one above the id of the response (modulo 2^64). Its status is `kNotLeader` only if there is at most
-- one endpoint, and the wait is back at 100 milliseconds.
pub call-IsAnswer :
    (ws : List World) (r : Request) (c : Caller) (response : Response) (c' : Caller)
    → call ws r c ≡ (returned response, c')
    → IsAnswer response c'
unfolding IsReturned
call-IsAnswer ws r c response c' e = subst IsReturned e (call-IsReturned ws r c)
