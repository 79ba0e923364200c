-- ===== src/ProtocolServer.antt =====
-- protocol/pkg/protocolserver: the connections of a peer, the messages on each, and its commands.
pub mod Connection
pub mod RequestIds
pub mod Handlers
pub mod Send
pub mod Registry
pub mod Sharing
