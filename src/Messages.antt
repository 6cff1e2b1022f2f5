-- ===== src/Messages.antt =====
-- `MessageChannel` of jmdaemon/message_channel.py: the commands of makers and takers as texts.
pub mod Commands
pub mod Orders
pub mod Receive
pub mod Private
pub mod Lines
pub mod PublicTrip
pub mod CancelTrip
pub mod Delivered
pub mod PrivateTrip
pub mod Signed
