-- ===== src/Group/Store.antt =====
-- The functions of rust/protocol/src/group_cipher.rs over `InMemSenderKeyStore` of
-- rust/protocol/src/storage/inmem.rs.
use libsignal_client.Common.{ℕ, ◌/◌, Option, none, some, List, [], ◌∷◌}
use libsignal_client.Common.Assoc.{get, insert}
use libsignal_client.Common.Bytes.{Bytes}
use libsignal_client.Error.{ok, ok_or, invalid_sender_key_id}
use libsignal_client.Exec.{Exec, pure, lift, query, gets, modify, ◌>>=◌, ◌>>◌}
use libsignal_client.Primitives.{Primitives}
use libsignal_client.Curve.KeyPair
use libsignal_client.Protocol.Wire.{Codec}
use libsignal_client.Protocol.SenderKeyDistributionMessage
use libsignal_client.Protocol.SenderKeyDistributionMessage.{SenderKeyDistributionMessage}
use libsignal_client.Group.SenderKeys.{sender_chain_key, signing_key_public}
use libsignal_client.Group.Record.{
  SenderKeyName, name_eq_instance, SenderKeyRecord, sender_key_state, add_sender_key_state,
  set_sender_key_state,
}
use libsignal_client.Group.Cipher.{decrypt_with_record, encrypt_with_record}

abbrev pub InMemSenderKeyStore : Type 0
InMemSenderKeyStore = List (SenderKeyName × SenderKeyRecord)

pub record GroupStores : Type 0 where
  pub sender_key_store : InMemSenderKeyStore
  pub csprng : ℕ

unfoldable pub store_sender_key :
    SenderKeyName → SenderKeyRecord → InMemSenderKeyStore → InMemSenderKeyStore
store_sender_key name r s = insert name r s

unfoldable pub load_sender_key : SenderKeyName → InMemSenderKeyStore → Option SenderKeyRecord
load_sender_key name s = get name s

abbrev pub load : SenderKeyName → Exec GroupStores SenderKeyRecord
load name =
    query
      (λ (s : GroupStores). ok_or (load_sender_key name s.sender_key_store) invalid_sender_key_id)

abbrev pub store : SenderKeyName → SenderKeyRecord → Exec GroupStores (Unit {0})
store name r = modify (λ (s : GroupStores). record s {
  sender_key_store = store_sender_key name r s.sender_key_store;
})

abbrev or_empty : Option SenderKeyRecord → SenderKeyRecord
or_empty none = []
or_empty (some r) = r

module _ ⦃p : Primitives⦄ where
  unfoldable pub group_decrypt : ⦃c : Codec⦄ → Bytes → SenderKeyName → Exec GroupStores Bytes
  group_decrypt skm_bytes name = do
    r ← load name
    (plaintext, r') ← lift (decrypt_with_record skm_bytes r)
    store name r'
    pure plaintext

  unfoldable pub group_encrypt : ⦃c : Codec⦄ → SenderKeyName → Bytes → Exec GroupStores Bytes
  group_encrypt name plaintext = do
    r ← load name
    (skm, r') ← λ (s : GroupStores).
        let (result, g) = encrypt_with_record plaintext s.csprng r in
        (result, record s { csprng = g })
    store name r'
    pure skm

  unfoldable pub process_sender_key_distribution_message :
      SenderKeyName → SenderKeyDistributionMessage → GroupStores → GroupStores
  process_sender_key_distribution_message name skdm s =
      let r = or_empty (load_sender_key name s.sender_key_store) in
      record s {
        sender_key_store =
            store_sender_key name
              (add_sender_key_state skdm.id skdm.iteration skdm.chain_key skdm.signing_key none r)
              s.sender_key_store;
      }

  -- A record that holds no state gets a first one, which is stored.
  abbrev created : SenderKeyName → SenderKeyRecord → Exec GroupStores SenderKeyRecord
  created name (s ∷ ss) g = (ok (s ∷ ss), g)
  created name [] g =
      let (random, g1) = p.next_u32 g.csprng in
      let (sender_key, g2) = p.gen_32 g1 in
      let (signing_key, g3) = KeyPair.generate g2 in
      let r =
        set_sender_key_state (random / 2) 0 sender_key signing_key.public_key
          (some signing_key.private_key) [] in
      (ok r, record { sender_key_store = store_sender_key name r g.sender_key_store; csprng = g3 })

  unfoldable pub create_sender_key_distribution_message :
      ⦃c : Codec⦄ → SenderKeyName → Exec GroupStores SenderKeyDistributionMessage
  create_sender_key_distribution_message name = do
    loaded ← gets (λ (s : GroupStores). load_sender_key name s.sender_key_store)
    r ← created name (or_empty loaded)
    state ← lift (sender_key_state r)
    k ← lift (sender_chain_key state)
    signing_key ← lift (signing_key_public state)
    pure (SenderKeyDistributionMessage.new state.sender_key_id k.iteration k.chain_key signing_key)
