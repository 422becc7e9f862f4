-- ===== src/Protocol/Flag.antt =====
-- The flags of a request, include/mq/protocol/commands.h.
use mq_project.Prelude.{ℕ}

abbrev pub ack_mask : ℕ
ack_mask = 0x0003

abbrev pub ack_zero : ℕ
ack_zero = 0x0000

abbrev pub ack_one : ℕ
ack_one = 0x0001

abbrev pub ack_all : ℕ
ack_all = 0x0002

abbrev pub producer_metadata : ℕ
producer_metadata = 0x0004

abbrev pub replication : ℕ
replication = 0x0008

abbrev pub replication_term : ℕ
replication_term = 0x0010

abbrev pub authentication : ℕ
authentication = 0x0020
