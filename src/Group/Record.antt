-- ===== src/Group/Record.antt =====
-- `SenderKeyName` and `SenderKeyRecord` of rust/protocol/src/sender_keys.rs.
use libsignal_client.Common.{
  ℕ, zero, suc, ◌≤◌, ◌≡◌, ap, ◌↔◌, Bool, true, ◌&&◌, Option, List, [], ◌∷◌, arith, length, take,
  length-take, ◌==◌, if◌then◌else◌, String,
}
use libsignal_client.Common.Assoc.{Eq, string_eq}
use libsignal_client.Common.Bytes.{Bytes}
use libsignal_client.Address.{ProtocolAddress, address_eq, address_eq_iff}
use libsignal_client.Consts.{max_sender_key_states}
use libsignal_client.Error.{Result, ok, err, no_sender_key_state}
use libsignal_client.Curve.PublicKey.{PublicKey}
use libsignal_client.Curve.PrivateKey.{PrivateKey}
use libsignal_client.Group.SenderKeys.{SenderKeyState, new_state}

pub record SenderKeyName : Type 0 where
  pub group_id : String
  pub sender : ProtocolAddress

unfoldable pub name_eq : SenderKeyName → SenderKeyName → Bool
name_eq a b = string_eq.beq a.group_id b.group_id && address_eq a.sender b.sender

pub name_eq_iff : (a b : SenderKeyName) → (name_eq a b ≡ true) ↔ (a ≡ b)
unfolding name_eq
name_eq_iff a b = (
  (λ h. ground (arith, string_eq.beq_iff a.group_id b.group_id, address_eq_iff a.sender b.sender)),
  (λ h. ground (
    arith,
    string_eq.beq_iff a.group_id b.group_id,
    address_eq_iff a.sender b.sender,
    ap (λ (c : SenderKeyName). c.group_id) h,
    ap (λ (c : SenderKeyName). c.sender) h,
  )),
)

instance abbrev pub name_eq_instance : Eq SenderKeyName
name_eq_instance = record { beq = name_eq; beq_iff = name_eq_iff }

-- The states, newest first.
abbrev pub SenderKeyRecord : Type 0
SenderKeyRecord = List SenderKeyState

unfoldable pub sender_key_state : SenderKeyRecord → Result SenderKeyState
sender_key_state [] = err no_sender_key_state
sender_key_state (s ∷ ss) = ok s

abbrev pub shift : Result (SenderKeyState × ℕ) → Result (SenderKeyState × ℕ)
shift (ok (s, i)) = ok (s, suc i)
shift (err e) = err e

-- The first state of the key, with its index, at which the caller writes.
unfoldable pub sender_key_state_for_keyid : ℕ → SenderKeyRecord → Result (SenderKeyState × ℕ)
sender_key_state_for_keyid key_id [] = err no_sender_key_state
sender_key_state_for_keyid key_id (s ∷ ss) =
    if s.sender_key_id == key_id then ok (s, zero) else shift (sender_key_state_for_keyid key_id ss)

-- `push_front`, and the loop that drops states from the back while there are too many.
unfoldable pub add_sender_key_state :
    ℕ → ℕ → Bytes → PublicKey → Option PrivateKey → SenderKeyRecord → SenderKeyRecord
add_sender_key_state id iteration chain_key signature_key signature_private_key ss =
    take max_sender_key_states
      (new_state id iteration chain_key signature_key signature_private_key ∷ ss)

unfoldable pub set_sender_key_state :
    ℕ → ℕ → Bytes → PublicKey → Option PrivateKey → SenderKeyRecord → SenderKeyRecord
unfolding add_sender_key_state
set_sender_key_state id iteration chain_key signature_key signature_private_key ss =
    add_sender_key_state id iteration chain_key signature_key signature_private_key []

-- A record holds at most `MAX_SENDER_KEY_STATES` states after one is added, and the new one is the
-- one that is used for its key.
pub add_sender_key_state-bounded :
    (id iteration : ℕ) (chain_key : Bytes) (k : PublicKey) (private : Option PrivateKey)
    (ss : SenderKeyRecord)
    → (length (add_sender_key_state id iteration chain_key k private ss) ≤ max_sender_key_states)
      × (sender_key_state_for_keyid id (add_sender_key_state id iteration chain_key k private ss)
          ≡ ok (new_state id iteration chain_key k private, 0))
unfolding add_sender_key_state sender_key_state_for_keyid take new_state
add_sender_key_state-bounded id iteration chain_key k private ss =
    (omega (arith, length-take 5 (new_state id iteration chain_key k private ∷ ss)), ground arith)
