-- ===== src/Protocol/Ciphertext.antt =====
-- `CiphertextMessage` and `CiphertextMessageType` of rust/protocol/src/protocol.rs.
use libsignal_client.Common.{ℕ}
use libsignal_client.Common.Bytes.{Bytes}
use libsignal_client.Protocol.SignalMessage.{SignalMessage}
use libsignal_client.Protocol.PreKeySignalMessage.{PreKeySignalMessage}
use libsignal_client.Protocol.SenderKeyMessage.{SenderKeyMessage}
use libsignal_client.Protocol.SenderKeyDistributionMessage.{SenderKeyDistributionMessage}

pub data CiphertextMessage : Type 0 where
  signal_message : SignalMessage → CiphertextMessage
  pre_key_signal_message : PreKeySignalMessage → CiphertextMessage
  sender_key_message : SenderKeyMessage → CiphertextMessage
  sender_key_distribution_message : SenderKeyDistributionMessage → CiphertextMessage

-- The discriminants of `CiphertextMessageType`.
unfoldable pub message_type : CiphertextMessage → ℕ
message_type (signal_message m) = 2
message_type (pre_key_signal_message m) = 3
message_type (sender_key_message m) = 4
message_type (sender_key_distribution_message m) = 5

unfoldable pub serialize : CiphertextMessage → Bytes
serialize (signal_message m) = m.serialized
serialize (pre_key_signal_message m) = m.serialized
serialize (sender_key_message m) = m.serialized
serialize (sender_key_distribution_message m) = m.serialized
