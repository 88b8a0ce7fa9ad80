-- ===== src/Protocol.antt =====
-- rust/protocol/src/protocol.rs: the messages on the wire.
pub mod Wire
pub mod SignalMessage
pub mod PreKeySignalMessage
pub mod SenderKeyMessage
pub mod SenderKeyDistributionMessage
pub mod Ciphertext
