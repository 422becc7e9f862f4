-- ===== src/Protocol/Codec.antt =====
-- `ProtocolCodec` of src/protocol/protocol_codec.cc over the types of include/mq/protocol/commands.h.
-- Output pointers are taken to be non-null. A command and a status are their `uint8_t` values,
-- which a decoded frame chooses freely. A read past the end of a frame is `fault`.
pub mod RoundTrip
pub mod Safety
use mq_project.Prelude.{
  ℕ, ◌+◌, ◌-◌, ◌*◌, ◌^◌, ◌%◌, ◌/◌, ◌≤◌, ◌<◌, ◌≡◌, Option, none, some, List, [], ◌∷◌, ◌++◌, length,
  take, drop, get_elem?, ltb, ◌==◌, not, ◌||◌, if◌then◌else◌, Bool,
}
use mq_project.Bytes.{Byte, Bytes, be_bytes, put16, put32, put64, get16, get32, get64}

abbrev pub magic : ℕ
magic = 0x4D51

abbrev pub current_version : ℕ
current_version = 1

abbrev pub max_payload_bytes : ℕ
max_payload_bytes = 1024 * 1024

pub record Request : Type 0 where
  pub version : Byte
  pub command : Byte
  pub request_id : ℕ
  pub flags : ℕ
  pub topic : Bytes
  pub payload : Bytes

pub record Response : Type 0 where
  pub version : Byte
  pub status : Byte
  pub request_id : ℕ
  pub flags : ℕ
  pub payload : Bytes

pub data Error : Type 0 where
  field_too_large header_truncated topic_truncated invalid_magic invalid_payload_length : Error
  stream_exceeds_limit invalid_stream_header invalid_stream_payload_length : Error

-- `true` with the output, `false` with the text in `error` (`none` where it is left as it was), or
-- a read out of bounds.
pub data Outcome {ℓ} (A : Type ℓ) : Type ℓ where
  ok : A → Outcome A
  fail : Option Error → Outcome A
  fault : Outcome A

infixl 5 ◌>>=◌ ◌>>◌
abbrev pub ◌>>=◌ {ℓ κ} : {A : Type ℓ} {B : Type κ} → Outcome A → (A → Outcome B) → Outcome B
ok a >>= f = f a
fail e >>= f = fail e
fault >>= f = fault

abbrev pub ◌>>◌ {ℓ} : {B : Type ℓ} → Outcome (Unit {0}) → Outcome B → Outcome B
m >> k = m >>= λ _. k

abbrev pub read : {A : Type 0} → Option A → Outcome A
read none = fault
read (some a) = ok a

abbrev pub check : Bool → Option Error → Outcome (Unit {0})
check c e = if c then ok tt else fail e

-- `CheckString`.
pub check_string : Bytes → ℕ → Outcome (Unit {0})
check_string value limit = if ltb limit (length value) then fail (some field_too_large) else ok tt

-- `ValidCommon`; it is handed the version and does not look at it.
unfoldable pub valid_common : Bytes → ℕ → ℕ → Byte → ℕ → Outcome (Unit {0})
valid_common frame header payload_offset version payload_len = do
  check (not (ltb (length frame) header)) (some invalid_magic)
  m ← read (get16 frame 0)
  check (m == magic) (some invalid_magic)
  check
      (not
        (ltb max_payload_bytes payload_len || not (payload_len == length frame - payload_offset)))
      (some invalid_payload_length)

abbrev pub request_header : Request → Bytes
request_header r =
    put16 (put16 (put64 (put16 [] magic ++ (r.version ∷ r.command ∷ [])) r.request_id) r.flags)
      (length r.topic)

abbrev pub request_frame : Request → Bytes
request_frame r = put32 (request_header r ++ r.topic) (length r.payload) ++ r.payload

unfoldable pub encode_request : Request → Outcome Bytes
unfolding check_string
encode_request r = do
  check (r.version == current_version) none
  check_string r.topic 65535
  check_string r.payload max_payload_bytes
  ok (request_frame r)

abbrev pub response_frame : Response → Bytes
response_frame r =
    put32 (put16 (put64 (put16 [] magic ++ (r.version ∷ r.status ∷ [])) r.request_id) r.flags)
      (length r.payload)
    ++ r.payload

unfoldable pub encode_response : Response → Outcome Bytes
unfolding check_string
encode_response r = do
  check (r.version == current_version) none
  check_string r.payload max_payload_bytes
  ok (response_frame r)

unfoldable pub decode_request : Bytes → Outcome Request
unfolding valid_common
decode_request frame = do
  check (not (ltb (length frame) 20)) (some header_truncated)
  topic_len ← read (get16 frame 14)
  let payload_length_offset = 16 + topic_len
  let payload_offset = payload_length_offset + 4
  check (not (ltb (length frame) payload_offset)) (some topic_truncated)
  version ← read (get_elem? frame 2)
  payload_len ← read (get32 frame payload_length_offset)
  valid_common frame payload_offset payload_offset version payload_len
  command ← read (get_elem? frame 3)
  request_id ← read (get64 frame 4)
  flags ← read (get16 frame 12)
  ok (record {
    version = version;
    command = command;
    request_id = request_id;
    flags = flags;
    topic = take topic_len (drop 16 frame);
    payload = drop payload_offset frame;
  })

unfoldable pub decode_response : Bytes → Outcome Response
unfolding valid_common
decode_response frame = do
  check (not (ltb (length frame) 18)) none
  payload_len ← read (get32 frame 14)
  version ← read (get_elem? frame 2)
  valid_common frame 18 18 version payload_len
  status ← read (get_elem? frame 3)
  request_id ← read (get64 frame 4)
  flags ← read (get16 frame 12)
  ok (record {
    version = version;
    status = status;
    request_id = request_id;
    flags = flags;
    payload = drop 18 frame;
  })

-- The ranges of the fields, and the limits that the encoders check.
pub record IsRequest (r : Request) : Type 0 where
  pub current : r.version ≡ current_version
  pub id_fits : r.request_id < 2 ^ 64
  pub flags_fit : r.flags < 2 ^ 16
  pub topic_fits : length r.topic ≤ 65535
  pub payload_fits : length r.payload ≤ max_payload_bytes

pub record IsResponse (r : Response) : Type 0 where
  pub current : r.version ≡ current_version
  pub id_fits : r.request_id < 2 ^ 64
  pub flags_fit : r.flags < 2 ^ 16
  pub payload_fits : length r.payload ≤ max_payload_bytes
