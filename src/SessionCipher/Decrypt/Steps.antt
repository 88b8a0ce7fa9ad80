-- ===== src/SessionCipher/Decrypt/Steps.antt =====
-- One decryption with a state, put together from the results of its steps.
use libsignal_client.Common.{ℕ, ◌%◌, ◌≡◌, sym, subst, arith}
use libsignal_client.Common.Bytes.{Bytes}
use libsignal_client.Error.{ok}
use libsignal_client.Primitives.{Primitives}
use libsignal_client.Curve.PublicKey.{PublicKey}
use libsignal_client.Kdf
use libsignal_client.Protocol.SignalMessage.{SignalMessage}
use libsignal_client.Ratchet.ChainKey.{ChainKey}
use libsignal_client.Ratchet.MessageKeys.{MessageKeys}
use libsignal_client.State.Session.{SessionState}
use libsignal_client.SessionCipher.Keys.{
  Working, get_or_create_chain_key, get_or_create_message_key,
}
use libsignal_client.SessionCipher.Decrypt.Duplicate.{Accepts, check_session-Accepts}
use libsignal_client.SessionCipher.Decrypt.{open_message, decrypt_message_with_state}

-- A session's version is one that a key derivation knows.
pub known_version : (v : ℕ) {h : Kdf.Hkdf} → Kdf.new v ≡ ok h → v % 256 ≡ v
unfolding Kdf.new
known_version v e = ground arith

-- The steps of a decryption, one after the other.
pub run :
    ⦃p : Primitives⦄
    → (m : SignalMessage) (w u : Working) (v : SessionState) (ratchet : PublicKey) {key : ChainKey}
      {keys : MessageKeys} {ptext : Bytes} {t : SessionState}
    → m.sender_ratchet_key ≡ ratchet
    → Accepts m w.state
    → get_or_create_chain_key ratchet w ≡ (ok key, u)
    → get_or_create_message_key ratchet key m.counter u.state ≡ (ok keys, v)
    → open_message m keys v ≡ (ok ptext, t)
    → decrypt_message_with_state m w ≡ (ok ptext, record u { state = t })
unfolding decrypt_message_with_state
run m w u v ratchet {key} {keys} from accepts reached found opened =
    let reached' = subst (λ x. get_or_create_chain_key x w ≡ (ok key, u)) (sym from) reached in
    let found' =
      subst (λ x. get_or_create_message_key x key m.counter u.state ≡ (ok keys, v)) (sym from)
        found in
    rw (check_session-Accepts m w.state accepts, reached', found', opened)
