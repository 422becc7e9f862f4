-- ===== src/Server/Broker/Fetch/Pieces.antt =====
-- Pieces of lists of messages, as a consumer gets them.
use mq_project.Prelude.{
  ℕ, zero, suc, ◌+◌, ◌-◌, ◌≤◌, ◌<◌, ◌≡◌, refl, ap, sym, subst, ◌∙◌, arith, none, List, [], ◌∷◌,
  ◌++◌, length, drop, drop-append_left,
}
use mq_project.Bytes.{All, get32}
use mq_project.Protocol.Codec.{max_payload_bytes}
use mq_project.Core.Storage.{Message}
use mq_project.Core.Storage.Crash.{Follows}
use mq_project.Core.Storage.Recovery.{IsMessage}
use mq_project.Core.Storage.Engine.{message_size}
use mq_project.Core.Storage.Engine.Reads.{Overflows, Parts}
use mq_project.Client.{poll_messages}
use mq_project.Server.Broker.Fetch.{record_size, messages_payload}

-- A message that fits into an answer, and into the limit of a request.
pub record IsSmall (max_bytes : ℕ) (m : Message) : Type 0 where
  pub legal : IsMessage m
  pub within : message_size m ≤ max_bytes
  pub fits : record_size m ≤ max_payload_bytes - 8

module _ (P : Message → Type 0) where
  pub All-left : (xs ys : List Message) → All P (xs ++ ys) → All P xs
  All-left [] ys h = tt
  All-left (x ∷ xs) ys (h, hs) = (h, All-left xs ys hs)

  pub All-right : (xs ys : List Message) → All P (xs ++ ys) → All P ys
  All-right [] ys h = h
  All-right (x ∷ xs) ys (h, hs) = All-right xs ys hs

pub All-legal : (max_bytes : ℕ) (ms : List Message) → All (IsSmall max_bytes) ms → All IsMessage ms
All-legal max_bytes [] h = tt
All-legal max_bytes (m ∷ ms) (h, hs) = (h.legal, All-legal max_bytes ms hs)

-- What is left behind the first messages of what is left.
pub drop_behind :
    (n : ℕ) (all xs ys : List Message) → drop n all ≡ xs ++ ys → drop (n + length xs) all ≡ ys
drop_behind zero all xs ys h =
    ap (λ k. drop k all) {x = 0 + length xs} {y = length xs} (omega arith)
    ∙ ap (drop (length xs)) h
    ∙ drop-append_left xs ys
drop_behind (suc n) [] [] ys h = ap (λ k. drop k []) {x = suc n + 0} {y = suc n} (omega arith) ∙ h
drop_behind (suc n) [] (x ∷ xs) ys h = absurd (ground (arith, ap length h))
drop_behind (suc n) (a ∷ all) xs ys h =
    ap (λ k. drop k (a ∷ all)) {x = suc n + length xs} {y = suc (n + length xs)} (omega arith)
    ∙ drop_behind n all xs ys h

pub nothing : (got rest : List Message) → [] ≡ got ++ rest → got ≡ []
nothing [] rest h = refl
nothing (g ∷ gs) rest h = absurd (ground (arith, ap length h))

pub nothing_polled : poll_messages (messages_payload []) ≡ none
unfolding poll_messages messages_payload get32
nothing_polled = refl

-- A read gives something, where something small is left.
pub read_some :
    (max_bytes : ℕ) (m : Message) (ms got : List Message)
    → IsSmall max_bytes m
    → Parts max_bytes 0 (m ∷ ms) got
    → (g : Message) × (gs : List Message) × (got ≡ g ∷ gs)
read_some max_bytes m ms [] small parts =
    let over : Overflows max_bytes (0 + 0) (m ∷ ms) =
      subst (Overflows max_bytes (0 + 0)) (sym parts.parted) parts.full in
    absurd (omega (arith, over, small.within))
read_some max_bytes m ms (g ∷ gs) small parts = (g, gs, refl)

pub Follows-left : (k : ℕ) (xs ys : List Message) → Follows k (xs ++ ys) → Follows k xs
Follows-left k [] ys h = tt
Follows-left k (x ∷ xs) ys (o, v, h) = (o, v, Follows-left (k + 1) xs ys h)

pub first_of :
    (first : List Message)
    → 0 < length first
    → (h : Message) × (fs : List Message) × (first ≡ h ∷ fs)
first_of [] some_one = absurd (omega (arith, some_one))
first_of (h ∷ fs) some_one = (h, fs, refl)
