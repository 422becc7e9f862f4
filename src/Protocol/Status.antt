-- ===== src/Protocol/Status.antt =====
-- `Status` of include/mq/protocol/commands.h.
use mq_project.Prelude.{ℕ}

abbrev pub ok : ℕ
ok = 0x00

abbrev pub bad_request : ℕ
bad_request = 0x10

abbrev pub unknown_topic : ℕ
unknown_topic = 0x11

abbrev pub topic_exists : ℕ
topic_exists = 0x12

abbrev pub invalid_offset : ℕ
invalid_offset = 0x13

abbrev pub storage_error : ℕ
storage_error = 0x14

abbrev pub version_mismatch : ℕ
version_mismatch = 0x15

abbrev pub not_supported : ℕ
not_supported = 0x16

abbrev pub not_leader : ℕ
not_leader = 0x17

abbrev pub rate_limited : ℕ
rate_limited = 0x18

abbrev pub quota_exceeded : ℕ
quota_exceeded = 0x19

abbrev pub resource_exhausted : ℕ
resource_exhausted = 0x1A

abbrev pub unauthenticated : ℕ
unauthenticated = 0x1B

abbrev pub permission_denied : ℕ
permission_denied = 0x1C

abbrev pub internal_error : ℕ
internal_error = 0x20
