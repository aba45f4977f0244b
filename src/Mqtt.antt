-- ===== src/Mqtt.antt =====
-- internal/transport/mqtt: the topics and discovery payloads, the events that the transport
-- publishes, and the commands that it receives.
pub mod Topics
pub mod Discovery
pub mod Transport
pub mod Commands
