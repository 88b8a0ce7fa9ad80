-- ===== src/Protocol/Wire.antt =====
-- rust/protocol/src/proto/wire.proto, and what prost's generated code does with it.
use libsignal_client.Common.{ℕ, ◌≡◌, Option, some}
use libsignal_client.Common.Bytes.{Bytes}

pub record SignalMessage : Type 0 where
  pub ratchet_key : Option Bytes
  pub counter : Option ℕ
  pub previous_counter : Option ℕ
  pub ciphertext : Option Bytes

pub record PreKeySignalMessage : Type 0 where
  pub registration_id : Option ℕ
  pub pre_key_id : Option ℕ
  pub signed_pre_key_id : Option ℕ
  pub base_key : Option Bytes
  pub identity_key : Option Bytes
  pub message : Option Bytes

pub record SenderKeyMessage : Type 0 where
  pub id : Option ℕ
  pub iteration : Option ℕ
  pub ciphertext : Option Bytes

pub record SenderKeyDistributionMessage : Type 0 where
  pub id : Option ℕ
  pub iteration : Option ℕ
  pub chain_key : Option Bytes
  pub signing_key : Option Bytes

-- `Message::encode` into a buffer of `encoded_len` bytes does not fail; `decode` may.
pub record Codec : Type 0 where
  pub encode_signal : SignalMessage → Bytes
  pub decode_signal : Bytes → Option SignalMessage
  pub encode_pre_key_signal : PreKeySignalMessage → Bytes
  pub decode_pre_key_signal : Bytes → Option PreKeySignalMessage
  pub encode_sender_key : SenderKeyMessage → Bytes
  pub decode_sender_key : Bytes → Option SenderKeyMessage
  pub encode_distribution : SenderKeyDistributionMessage → Bytes
  pub decode_distribution : Bytes → Option SenderKeyDistributionMessage

-- The documented contract of a protobuf library: what is encoded is decoded.
pub record RoundTrips (c : Codec) : Type 0 where
  pub signal : (m : SignalMessage) → c.decode_signal (c.encode_signal m) ≡ some m
  pub pre_key_signal :
      (m : PreKeySignalMessage) → c.decode_pre_key_signal (c.encode_pre_key_signal m) ≡ some m
  pub sender_key : (m : SenderKeyMessage) → c.decode_sender_key (c.encode_sender_key m) ≡ some m
  pub distribution :
      (m : SenderKeyDistributionMessage) → c.decode_distribution (c.encode_distribution m) ≡ some m
