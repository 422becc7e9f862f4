-- ===== src/Server/Broker/Quota/Window.antt =====
-- How many bytes a topic gets in one second.
use mq_project.Prelude.{
  ℕ, ◌+◌, ◌-◌, ◌*◌, ◌^◌, ◌≤◌, ◌<◌, ◌≡◌, ◌≢◌, inl, inr, refl, sym, ap, ◌∙◌, arith, Bool, false,
  Option, none, some, List, [], ◌∷◌, ltb, leb, ◌==◌, if◌then◌else◌, Bool-cases, ltb→le, le→ltb,
}
use mq_project.Bytes.{Bytes}
use mq_project.Dict.{find}
use mq_project.Dict.Laws
use mq_project.Server.Broker.{Broker, TopicQuotaWindow}
use mq_project.Server.Broker.Quota.{one_second, or_new, turn, spend, allow_topic_bytes}

-- Requests for one topic, one after the other: their times and their bytes. The bytes that were allowed,
-- and the broker after them.
pub run : Bytes → List (ℕ × ℕ) → Broker → ℕ × Broker
run topic [] b = (0, b)
run topic ((now, bytes) ∷ requests) b =
    let (allowed, after) = allow_topic_bytes now topic bytes b in
    let (total, last) = run topic requests after in ((if allowed then bytes else 0) + total, last)

abbrev pub Within : ℕ → List (ℕ × ℕ) → Type 0
Within from [] = Unit
Within from ((now, bytes) ∷ requests) =
    (from ≤ now) × (now < from + one_second) × Within from requests

abbrev amount : Bool → ℕ → ℕ
amount allowed bytes = if allowed then bytes else 0

-- What becomes of a window: it goes on, or it was over and begins anew.
data Spent (quota now bytes : ℕ) (w : TopicQuotaWindow) (allowed : Bool) (w' : TopicQuotaWindow)
    : Type 0 where
  stays :
      w'.start ≡ w.start
      → amount allowed bytes + w.bytes ≡ w'.bytes
      → w'.bytes ≤ quota
      → Spent quota now bytes w allowed w'
  turns :
      one_second ≤ now - w.start
      → w'.start ≡ now
      → amount allowed bytes ≡ w'.bytes
      → w'.bytes ≤ quota
      → Spent quota now bytes w allowed w'

spend_lem :
    (quota now bytes : ℕ) (w : TopicQuotaWindow)
    → quota < 2 ^ 64
    → bytes ≤ quota
    → w.bytes ≤ quota
    → Spent quota now bytes w (spend quota now bytes w).0 (spend quota now bytes w).1
unfolding spend turn
spend_lem quota now bytes w q h k = elim (Bool-cases (leb one_second (now - w.start))) [
  | inl over ↦ rw over (
      rw (le→ltb (quota - bytes) 0 (omega arith))
        (turns (ground (arith, over)) refl (omega (arith, q, h)) (omega (arith, q, h))))
  | inr within ↦ rw within (elim (Bool-cases (ltb (quota - bytes) w.bytes)) [
    | inl much ↦ rw much (stays refl (omega arith) k)
    | inr fits ↦ rw fits (
        stays refl (omega (arith, q, h, ltb→le (quota - bytes) w.bytes fits))
          (omega (arith, q, h, ltb→le (quota - bytes) w.bytes fits)))
  ])
]

-- One request: refused without a look at the window, or by way of the window.
data Asked (topic : Bytes) (now bytes : ℕ) (b : Broker) (allowed : Bool) (after : Broker)
    : Type 0 where
  too_large : allowed ≡ false → after ≡ b → Asked topic now bytes b allowed after
  tried :
      (w' : TopicQuotaWindow)
      → after.topic_produce_quota ≡ b.topic_produce_quota
      → find topic after.topic_quota_windows ≡ some w'
      → Spent b.topic_produce_quota now bytes
          (or_new now (find topic b.topic_quota_windows))
          allowed
          w'
      → Asked topic now bytes b allowed after

allow_topic_bytes_lem :
    (topic : Bytes) (now bytes : ℕ) (b : Broker)
    → b.topic_produce_quota ≢ 0
    → b.topic_produce_quota < 2 ^ 64
    → (or_new now (find topic b.topic_quota_windows)).bytes ≤ b.topic_produce_quota
    → Asked topic now bytes b
        (allow_topic_bytes now topic bytes b).0
        (allow_topic_bytes now topic bytes b).1
unfolding allow_topic_bytes
allow_topic_bytes_lem topic now bytes b z q k =
    let some_quota : (b.topic_produce_quota == 0) ≡ false = ground (arith, z) in
    elim (Bool-cases (ltb b.topic_produce_quota bytes)) [
      | inl large ↦ rw some_quota (rw large (too_large refl refl))
      | inr fits ↦
          let w = or_new now (find topic b.topic_quota_windows) in
          let s = spend b.topic_produce_quota now bytes w in
          rw some_quota (
            rw fits (
              tried s.1 refl (Laws.find-insert_self topic s.1 b.topic_quota_windows) (
                spend_lem b.topic_produce_quota now bytes w q
                  (ltb→le b.topic_produce_quota bytes fits) k)))
    ]

-- While the window goes on, it counts what is allowed.
run_in_window :
    (topic : Bytes) (quota from : ℕ) (requests : List (ℕ × ℕ)) (b : Broker) (w : TopicQuotaWindow)
    → quota ≢ 0
    → quota < 2 ^ 64
    → b.topic_produce_quota ≡ quota
    → find topic b.topic_quota_windows ≡ some w
    → w.bytes ≤ quota
    → from ≤ w.start
    → Within from requests
    → (run topic requests b).0 + w.bytes ≤ quota
unfolding run
run_in_window topic quota from [] b w z q e f k l v = omega (arith, k)
run_in_window topic quota from ((now, bytes) ∷ requests) b w z q e f k l (v, u, vs) =
    let x = allow_topic_bytes now topic bytes b in
    let n : or_new now (find topic b.topic_quota_windows) ≡ w = ap (or_new now) f in
    elim (allow_topic_bytes_lem topic now bytes b (λ y. z (sym e ∙ y)) (omega (arith, e, q))
      (omega (arith, ap (λ x. x.bytes) n, e, k))) [
        | too_large refused same ↦
            let rest =
              run_in_window topic quota from requests x.1 w z q
                (ap (λ c. c.topic_produce_quota) same ∙ e)
                (ap (λ c. find topic c.topic_quota_windows) same ∙ f) k l vs in
            omega (arith, rest, ap (λ c. amount c bytes) refused)
        | tried w' same found spent ↦ elim spent [
          | stays begun counted below ↦
              let rest =
                run_in_window topic quota from requests x.1 w' z q (same ∙ e) found
                  (omega (arith, below, e)) (omega (arith, begun, ap (λ y. y.start) n, l)) vs in
              omega (arith, rest, counted, ap (λ y. y.bytes) n)
          | turns over begun counted below ↦ absurd (omega (arith, over, ap (λ y. y.start) n, l, u))
        ]
      ]

same_count :
    (now from : ℕ) (o : Option TopicQuotaWindow) → (or_new now o).bytes ≡ (or_new from o).bytes
same_count now from none = refl
same_count now from (some w) = refl

run_counted :
    (topic : Bytes) (quota from : ℕ) (requests : List (ℕ × ℕ)) (b : Broker)
    → quota ≢ 0
    → quota < 2 ^ 64
    → b.topic_produce_quota ≡ quota
    → (or_new from (find topic b.topic_quota_windows)).bytes ≤ quota
    → Within from requests
    → (run topic requests b).0 + (or_new from (find topic b.topic_quota_windows)).bytes ≤ 2 * quota
unfolding run
run_counted topic quota from [] b z q e k v = omega (arith, k)
run_counted topic quota from ((now, bytes) ∷ requests) b z q e k (v, u, vs) =
    let x = allow_topic_bytes now topic bytes b in
    let n = same_count now from (find topic b.topic_quota_windows) in
    elim (allow_topic_bytes_lem topic now bytes b (λ y. z (sym e ∙ y)) (omega (arith, e, q))
      (omega (arith, n, e, k))) [
        | too_large refused same ↦
            let window = ap (λ c. or_new from (find topic c.topic_quota_windows)) same in
            let rest =
              run_counted topic quota from requests x.1 z q
                (ap (λ c. c.topic_produce_quota) same ∙ e)
                (omega (arith, ap (λ y. y.bytes) window, k)) vs in
            omega (arith, rest, ap (λ y. y.bytes) window, ap (λ c. amount c bytes) refused)
        | tried w' same found spent ↦
            let window = ap (or_new from) found in
            elim spent [
              | stays begun counted below ↦
                  let rest =
                    run_counted topic quota from requests x.1 z q (same ∙ e)
                      (omega (arith, ap (λ y. y.bytes) window, below, e)) vs in
                  omega (arith, rest, counted, n, ap (λ y. y.bytes) window)
              | turns over begun counted below ↦
                  let rest =
                    run_in_window topic quota from requests x.1 w' z q (same ∙ e) found
                      (omega (arith, below, e)) (omega (arith, begun, v)) vs in
                  omega (arith, rest, counted, k)
            ]
      ]

-- Of the requests for one topic that come within one second, at most twice the quota is allowed, if no
-- more than the quota is counted before them.
pub run-Within_second :
    (topic : Bytes) (from : ℕ) (requests : List (ℕ × ℕ)) (b : Broker)
    → b.topic_produce_quota ≢ 0
    → b.topic_produce_quota < 2 ^ 64
    → (or_new from (find topic b.topic_quota_windows)).bytes ≤ b.topic_produce_quota
    → Within from requests
    → (run topic requests b).0 ≤ 2 * b.topic_produce_quota
run-Within_second topic from requests b z q k v =
    omega (arith, run_counted topic b.topic_produce_quota from requests b z q refl k v)
