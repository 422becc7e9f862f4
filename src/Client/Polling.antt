-- ===== src/Client/Polling.antt =====
-- `MqConsumer::subscribe` and `MqConsumer::poll` of src/client/mq_client.cc, but for the texts of errors.
use mq_project.Prelude.{
  ℕ, ◌+◌, ◌*◌, ◌%◌, ◌^◌, not, ◌&&◌, Bool, Option, none, some, List, [], ◌∷◌, ◌++◌, length, ◌==◌,
  if◌then◌else◌,
}
use mq_project.Bytes.{Bytes, put16, put32, put64}
use mq_project.Protocol.Status
use mq_project.Protocol.Command
use mq_project.Protocol.Codec.{Request, Response, current_version}
use mq_project.Core.Storage.{Message}
use mq_project.Client.{poll_messages}
use mq_project.Client.Producer.{is_nothing}

pub record Consumer : Type 0 where
  pub topic : Bytes
  pub group : Bytes
  pub partition : ℕ
  pub next_offset : ℕ
  pub pending_messages : List Message

-- What `subscribe` makes of the state, and its result.
abbrev pub subscribe : Bytes → Bytes → ℕ → Bool × Consumer
subscribe topic group partition = (
  not (is_nothing topic) && not (is_nothing group),
  record {
    topic = topic;
    group = group;
    partition = partition;
    next_offset = 0;
    pending_messages = [];
  },
)

abbrev pub fetch_limit : ℕ
fetch_limit = 1024 * 1024

abbrev pub fetch_payload : Consumer → Bytes
fetch_payload c =
    put32 (put64 (put16 (put32 [] c.partition) (length c.group % 2 ^ 16) ++ c.group) c.next_offset)
      fetch_limit

-- `Call` numbers the request.
abbrev pub fetch_request : Consumer → Request
fetch_request c = record {
  version = current_version;
  command = Command.fetch;
  request_id = 0;
  flags = 0;
  topic = c.topic;
  payload = fetch_payload c;
}

-- The first of some messages is handed on, and the others are kept.
unfoldable pub take_first : List Message → Consumer → Option Message × Consumer
take_first [] c = (none, record c { pending_messages = [] })
take_first (m ∷ ms) c =
    (some m, record c { pending_messages = ms; next_offset = (m.offset + 1) % 2 ^ 64 })

abbrev pub messages_or_none : Option (List Message) → List Message
messages_or_none none = []
messages_or_none (some ms) = ms

-- What `poll` makes of the response; `none` where `Call` is false.
unfoldable pub take_response : Option Response → Consumer → Option Message × Consumer
unfolding take_first
take_response none c = (none, c)
take_response (some response) c =
    if response.status == Status.ok
    then take_first (messages_or_none (poll_messages response.payload)) c
    else (none, c)

-- Whether `poll` sends a request, and what it does without one.
unfoldable pub take_pending : Consumer → Option (Option Message × Consumer)
unfolding take_first
take_pending c = elim c.pending_messages [ [] ↦ none | m ∷ ms ↦ some (take_first (m ∷ ms) c) ]
