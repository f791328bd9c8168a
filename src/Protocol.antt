-- ===== src/Protocol.antt =====
-- Requests and responses (network/protocol.cpp, include/network/protocol.hpp).
pub mod Json
pub mod Messages
pub mod Requests
pub mod Responses
pub mod Serial
pub mod RoundTrip
pub mod Sample
mod Tests
