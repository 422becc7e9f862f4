-- ===== src/Server/Broker/Quota.antt =====
-- The quota of produced bytes: `ConfigureTopicQuota` and `AllowTopicBytes` of src/server/broker.cc. The
-- steady clock counts nanoseconds.
pub mod Window
use mq_project.Prelude.{
  ℕ, ◌+◌, ◌-◌, ◌%◌, ◌^◌, Bool, true, false, Option, none, some, List, [], ltb, leb, ◌==◌,
  if◌then◌else◌,
}
use mq_project.Bytes.{Bytes}
use mq_project.Dict.{find, insert}
use mq_project.Server.Broker.{Broker, TopicQuotaWindow}

abbrev pub one_second : ℕ
one_second = 1000000000

unfoldable pub configure_topic_quota : ℕ → Broker → Broker
configure_topic_quota quota b = record b { topic_produce_quota = quota; topic_quota_windows = [] }

-- `topic_quota_windows_[topic]`, which makes a window that begins now.
abbrev pub or_new : ℕ → Option TopicQuotaWindow → TopicQuotaWindow
or_new now none = record { bytes = 0; start = now }
or_new now (some w) = w

-- The window once it is known whether it is over.
unfoldable pub turn : ℕ → TopicQuotaWindow → TopicQuotaWindow
turn now w = if leb one_second (now - w.start) then record { bytes = 0; start = now } else w

-- Whether the bytes are allowed, and the window after it.
unfoldable pub spend : ℕ → ℕ → ℕ → TopicQuotaWindow → Bool × TopicQuotaWindow
unfolding turn
spend quota now bytes w =
    let t = turn now w in
    if ltb (quota - bytes) t.bytes
    then (false, t)
    else (true, record t { bytes = (t.bytes + bytes) % 2 ^ 64 })

unfoldable pub allow_topic_bytes : ℕ → Bytes → ℕ → Broker → Bool × Broker
unfolding spend
allow_topic_bytes now topic bytes b =
    if b.topic_produce_quota == 0
    then (true, b)
    else (if ltb b.topic_produce_quota bytes
        then (false, b)
        else (let (allowed, w) =
              spend b.topic_produce_quota now bytes
                (or_new now (find topic b.topic_quota_windows)) in
            (allowed, record b { topic_quota_windows = insert topic w b.topic_quota_windows })))
