-- ===== src/Server/Broker/Metrics.antt =====
-- `HandleMetrics` of src/server/broker.cc. The text is ASCII, so that its code points are its bytes.
use Prim.Native.Char.{code}
use Prim.Native.String.{String}
use mq_project.Prelude.{ℕ, ◌+◌, ◌%◌, ◌^◌, not, ◌||◌, [], ◌∷◌, ◌++◌, if◌then◌else◌}
use mq_project.Bytes.{Bytes}
use mq_project.Dict.{Dict}
use mq_project.Protocol.Status
use mq_project.Protocol.Flag
use mq_project.Protocol.Codec.{Request}
use mq_project.Server.Replication.{Role, leader, follower, candidate, is_nil}
use mq_project.Server.Replication.Log.{highest_commit_index}
use mq_project.Server.Broker.{Broker, TopicQuotaWindow, has_flag}
use mq_project.Server.Broker.Reply.{Reply, reply}
use mq_project.Server.Broker.Groups.{to_string}

abbrev pub ascii : String → Bytes
ascii String.[] = []
ascii (String.◌∷◌ c s) = code c ∷ ascii s

abbrev pub role_name : Role → Bytes
role_name leader = ascii "leader"
role_name follower = ascii "follower"
role_name candidate = ascii "candidate"

-- `topic_quota_used`.
pub quota_used : Dict TopicQuotaWindow → ℕ → ℕ
quota_used [] used = used
quota_used ((topic, w) ∷ windows) used = quota_used windows ((used + w.bytes) % 2 ^ 64)

-- The type of a metric, its name with labels, and its value.
unfoldable pub metric : Bytes → Bytes → Bytes → Bytes → Bytes
metric kind name labels value =
    ascii "# TYPE "
    ++ name
    ++ (0x20 ∷ kind)
    ++ (0x0A ∷ name)
    ++ labels
    ++ (0x20 ∷ value)
    ++ 0x0A ∷ []

unfoldable pub metrics_text : Broker → Bytes
unfolding to_string quota_used metric highest_commit_index
metrics_text b =
    let counter = ascii "counter" in
    let gauge = ascii "gauge" in
    let c = b.coordinator in
    metric counter (ascii "mq_requests_total") [] (to_string b.request_count)
    ++ metric counter (ascii "mq_produce_total") [] (to_string b.produce_count)
    ++ metric counter (ascii "mq_fetch_total") [] (to_string b.fetch_count)
    ++ metric counter (ascii "mq_errors_total") [] (to_string b.error_count)
    ++ metric gauge (ascii "mq_replication_term") [] (to_string c.current_term)
    ++ metric gauge (ascii "mq_commit_index") [] (to_string (highest_commit_index c))
    ++ metric gauge (ascii "mq_raft_voted_for") (ascii "{node=\"" ++ c.voted_for ++ ascii "\"}")
        (ascii "1")
    ++ metric gauge (ascii "mq_raft_commit_index") [] (to_string (highest_commit_index c))
    ++ metric gauge (ascii "mq_raft_last_applied") [] (to_string c.last_applied)
    ++ metric gauge (ascii "mq_topic_produce_quota_bytes_per_second") []
        (to_string b.topic_produce_quota)
    ++ metric gauge (ascii "mq_topic_produce_bytes_used") []
        (to_string (quota_used b.topic_quota_windows 0))
    ++ ascii "mq_replication_role{role=\""
    ++ role_name c.role
    ++ ascii "\"} 1\n"

unfoldable pub handle_metrics : Request → Broker → Reply
unfolding has_flag metrics_text
handle_metrics r b =
    if not (is_nil r.topic) || not (is_nil r.payload) || has_flag r.flags Flag.replication
    then reply Status.bad_request []
    else reply Status.ok (metrics_text b)
