-- ===== src/Channels.antt =====
-- The channels to other bots as one: `MessageChannelCollection` of jmdaemon/message_channel.py.
pub mod State
pub mod Presence
pub mod Connection
pub mod Send
pub mod Flush
pub mod Disconnect
pub mod Reachable
pub mod Welcome
pub mod Leave
pub mod Broadcast
pub mod Public
