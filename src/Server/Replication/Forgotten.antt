-- ===== src/Server/Replication/Forgotten.antt =====
-- A vote that is granted while the state file cannot be written.
use mq_project.Prelude.{◌≡◌}
use mq_project.Bytes.{Bytes}
use mq_project.Server.Replication.{Replication}

-- What a restart goes by.
record Same (c d : Replication) : Type 0 where
  node : d.node_id ≡ c.node_id
  timeout : d.heartbeat_timeout ≡ c.heartbeat_timeout
  path : d.has_state_path ≡ c.has_state_path
  file : d.state_file ≡ c.state_file
  write : d.state_write ≡ c.state_write
