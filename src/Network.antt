-- ===== src/Network.antt =====
-- The transport: the framing of messages (network/protocol.cpp) and the loops that take them from a
-- socket (network/tcp_server.cpp, network/tcp_client.cpp).
pub mod Framing
pub mod Connection
pub mod Client
pub mod Threads
mod Tests
