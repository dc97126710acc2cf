-- ===== src/Ws.antt =====
-- internal/ws: the messages between the platform and its agents, and the two ends of a connection.
pub mod Messages
pub mod Hub
pub mod Agent
