-- ===== src/Network.antt =====
-- The network layer, src/network: the buffer between a socket and the protocol.
pub mod Buffer
pub mod Tests
