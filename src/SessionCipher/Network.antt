-- ===== src/SessionCipher/Network.antt =====
-- A sender and a receiver of rust/protocol/src/session_cipher.rs, and a network between them that
-- delivers the messages of one sending chain in any order, some never and some again and again.
pub mod Linked
pub mod Reached
pub mod Progress
use libsignal_client.Common.{ℕ, ◌≡◌, Option, some, List, ◌∷◌, get_elem?}
use libsignal_client.Common.Bytes.{Bytes}
use libsignal_client.Error.{Result, ok}
use libsignal_client.Primitives.{Primitives}
use libsignal_client.Curve.PublicKey.{PublicKey}
use libsignal_client.Protocol.Wire.{Codec}
use libsignal_client.Protocol.SignalMessage.{SignalMessage}
use libsignal_client.Protocol.Ciphertext.{CiphertextMessage}
use libsignal_client.State.Session.{SessionState}
use libsignal_client.SessionCipher.Decrypt.{decrypt_message_with_state}
use libsignal_client.SessionCipher.Encrypt.{encrypt_with_state}
use libsignal_client.SessionCipher.Encrypt.Sent.{carried}
use libsignal_client.SessionCipher.Keys.{Working}

-- A message and the text that it was made of.
pub record Entry : Type 0 where
  pub message : SignalMessage
  pub text : Bytes

-- `flight` holds every message that was sent, the last one first.
pub record Net : Type 0 where
  pub sender : SessionState
  pub receiver : Working
  pub flight : List Entry

module _ ⦃p : Primitives⦄ ⦃c : Codec⦄ where
  pub data Step : Net → Net → Type 0 where
    send :
        (n : Net) (e : Entry) {msg : CiphertextMessage} {s' : SessionState} {their : PublicKey}
        → encrypt_with_state e.text n.sender ≡ ok (msg, s', their)
        → carried msg ≡ some e.message
        → Step n (record n { sender = s'; flight = e ∷ n.flight })
    arrive :
        (n : Net) (i : ℕ) {e : Entry} {result : Result Bytes} {receiver' : Working}
        → get_elem? n.flight i ≡ some e
        → decrypt_message_with_state e.message n.receiver ≡ (result, receiver')
        → Step n (record n { receiver = receiver' })

  pub data Steps (start : Net) : Net → Type 0 where
    here : Steps start start
    next : {n n' : Net} → Steps start n → Step n n' → Steps start n'
