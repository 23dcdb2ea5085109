-- ===== src/Connector.antt =====
-- internal/connector: the sources, and what they make of the bytes that come in.
pub mod Payload
pub mod Sse
pub mod Webhook
pub mod RestPoller
pub mod Websocket
pub mod Grpc
pub mod Redact
mod Tests
