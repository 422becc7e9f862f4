-- ===== src/Server/Broker/Dispatch.antt =====
-- `Handle` of src/server/broker.cc: a request is counted, checked and given to its handler.
pub mod Refusals
use mq_project.Prelude.{
  ℕ, ◌+◌, ◌%◌, ◌^◌, Bool, true, not, Option, none, some, [], ◌==◌, if◌then◌else◌,
}
use mq_project.Protocol.Command
use mq_project.Protocol.Status
use mq_project.Protocol.Codec.{Request, Response}
use mq_project.Server.Broker.{Broker}
use mq_project.Server.Broker.Access
use mq_project.Server.Broker.Access.{Admission, admitted, rejected, admit, is_produce}
use mq_project.Server.Broker.Reply.{Reply, reply, make_response}
use mq_project.Server.Broker.Offsets.{handle_commit_offset, handle_offset_fetch}
use mq_project.Server.Broker.Groups.{handle_join_group, handle_sync_group, handle_heartbeat}
use mq_project.Server.Broker.Produce.{Moment, handle_produce}
use mq_project.Server.Broker.Batch.{handle_produce_batch}
use mq_project.Server.Broker.TopicAdmin.{
  Writes, handle_create_topic, handle_delete_topic, handle_list_topic,
}
use mq_project.Server.Broker.Fetch.{handle_fetch, handle_replica_fetch}
use mq_project.Server.Broker.Replicas.{Surroundings, handle_replica_append, handle_replica_vote}
use mq_project.Server.Broker.Metrics.{handle_metrics}

-- What surrounds a request: the clocks (`clock` is that of new segments), which files can be written, and what the file system does.
pub record Context : Type 0 where
  pub moment : Moment
  pub clock : ℕ
  pub moments : ℕ → Moment
  pub surroundings : Surroundings
  pub saves_topics : Bool
  pub saves_offsets : Bool
  pub writes : Writes
  pub flushes : Bool

-- The `switch`, in two parts.
unfoldable pub dispatch_replica : Context → Request → Broker → Reply × Broker
dispatch_replica x r b =
    if r.command == Command.heartbeat
    then handle_heartbeat x.moment.now x.flushes r b
    else (if r.command == Command.replica_fetch
        then handle_replica_fetch x.moment.opens x.clock r b
        else (if r.command == Command.replica_append
            then handle_replica_append x.surroundings r b
            else (if r.command == Command.replica_vote
                then handle_replica_vote r b
                else (reply Status.bad_request [], b))))

unfoldable pub dispatch_group : Context → Request → Broker → Reply × Broker
unfolding dispatch_replica
dispatch_group x r b =
    if r.command == Command.commit_offset
    then handle_commit_offset x.saves_offsets r b
    else (if r.command == Command.join_group
        then handle_join_group x.moment.now r b
        else (if r.command == Command.sync_group
            then handle_sync_group r b
            else (if r.command == Command.offset_fetch
                then handle_offset_fetch r b
                else dispatch_replica x r b)))

unfoldable pub dispatch : Context → Request → Broker → Reply × Broker
unfolding dispatch_group
dispatch x r b =
    if r.command == Command.create_topic
    then handle_create_topic x.saves_topics r b
    else (if r.command == Command.list_topic
        then handle_list_topic r b
        else (if r.command == Command.metrics
            then (handle_metrics r b, b)
            else (if r.command == Command.delete_topic
                then handle_delete_topic x.writes r b
                else (if r.command == Command.produce
                    then handle_produce x.moment true true r b
                    else (if r.command == Command.produce_batch
                        then handle_produce_batch x.moment x.moments r b
                        else (if r.command == Command.fetch
                            then handle_fetch x.moment.opens x.clock r b
                            else dispatch_group x r b))))))

abbrev pub count_request : Broker → Broker
count_request b = record b { request_count = (b.request_count + 1) % 2 ^ 64 }

abbrev pub count_error : Broker → Broker
count_error b = record b { error_count = (b.error_count + 1) % 2 ^ 64 }

-- The counts of what is produced and fetched.
unfoldable pub count_command : Request → Broker → Broker
count_command r b =
    if is_produce r.command
    then record b { produce_count = (b.produce_count + 1) % 2 ^ 64 }
    else (if r.command == Command.fetch
        then record b { fetch_count = (b.fetch_count + 1) % 2 ^ 64 }
        else b)

-- The response, `none` where a handler reads out of bounds.
unfoldable pub answer : Request → Reply × Broker → Option Response × Broker
answer r (Reply.faulted, b) = (none, b)
answer r (reply status payload, b) =
    (some (make_response r status payload), if not (status == Status.ok) then count_error b else b)

unfoldable pub handle_admitted : Context → Request → Admission → Broker → Option Response × Broker
unfolding dispatch count_command answer
handle_admitted x r (rejected status payload) b =
    (some (make_response r status payload), if not b.opened then count_error b else b)
handle_admitted x r Access.faulted b = (none, b)
handle_admitted x r (admitted normalized) b =
    answer normalized (dispatch x normalized (count_command r b))

unfoldable pub handle : Context → Request → Broker → Option Response × Broker
unfolding handle_admitted
handle x r b = let counted = count_request b in handle_admitted x r (admit r counted) counted
