-- ===== src/Protocol.antt =====
-- The wire protocol, include/mq/protocol and src/protocol: single frames and the stream of them.
pub mod Command
pub mod Status
pub mod Flag
pub mod Codec
pub mod Stream
pub mod Tests
