-- ===== src/Events.antt =====
-- server/kafka: topics and the producers of the two events.
pub mod Topic
pub mod Producer
pub mod Trace
