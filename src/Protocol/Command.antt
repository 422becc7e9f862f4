-- ===== src/Protocol/Command.antt =====
-- `Command` of include/mq/protocol/commands.h.
use mq_project.Prelude.{ℕ}

abbrev pub create_topic : ℕ
create_topic = 0x01

abbrev pub delete_topic : ℕ
delete_topic = 0x02

abbrev pub list_topic : ℕ
list_topic = 0x03

abbrev pub metrics : ℕ
metrics = 0x04

abbrev pub produce : ℕ
produce = 0x10

abbrev pub produce_batch : ℕ
produce_batch = 0x11

abbrev pub sync_group : ℕ
sync_group = 0x20

abbrev pub offset_fetch : ℕ
offset_fetch = 0x21

abbrev pub fetch : ℕ
fetch = 0x22

abbrev pub commit_offset : ℕ
commit_offset = 0x23

abbrev pub join_group : ℕ
join_group = 0x24

abbrev pub heartbeat : ℕ
heartbeat = 0x30

abbrev pub replica_fetch : ℕ
replica_fetch = 0x40

abbrev pub replica_append : ℕ
replica_append = 0x41

abbrev pub replica_vote : ℕ
replica_vote = 0x42
