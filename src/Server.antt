-- ===== src/Server.antt =====
-- The broker's server, src/server: replication between brokers.
pub mod Replication
pub mod ReplicationClient
pub mod ReplicationLoop
pub mod Serving
pub mod Broker
pub mod Tests
