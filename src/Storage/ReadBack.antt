-- ===== src/Storage/ReadBack.antt =====
-- What a client that keeps its stores on disk gets back: the serialized forms of keys
-- (rust/protocol/src/state/prekey.rs, rust/protocol/src/state/signed_prekey.rs and
-- rust/protocol/src/identity_key.rs), of sessions (rust/protocol/src/state/session.rs) and of sender
-- keys (rust/protocol/src/sender_keys.rs).
use libsignal_client.Common.{ℕ, ◌≡◌, refl, length}
use libsignal_client.Common.Bytes.{Bytes}
use libsignal_client.Error.{Result, ok, map_ok, ◌>>=◌}
use libsignal_client.Curve.PublicKey
use libsignal_client.Curve.PublicKey.{IsKey}
use libsignal_client.Curve.PrivateKey
use libsignal_client.Curve.KeyPair.{KeyPair}
use libsignal_client.Group.Encode as GroupEncode
use libsignal_client.Group.Record.{SenderKeyRecord}
use libsignal_client.IdentityKey
use libsignal_client.IdentityKey.{from_key_pair}
use libsignal_client.Proto.StorageCodec.{StorageCodec, StorageRoundTrips}
use libsignal_client.State.Encode as SessionEncode
use libsignal_client.State.PreKey
use libsignal_client.State.PreKey.{PreKeyRecord}
use libsignal_client.State.Record.{SessionRecord}
use libsignal_client.State.SignedPreKey
use libsignal_client.State.SignedPreKey.{SignedPreKeyRecord}

-- What the getters of a record return.
abbrev pub pre_key_contents : PreKeyRecord → Result (ℕ × KeyPair)
pre_key_contents r = map_ok (λ pair. (PreKey.id r, pair)) (PreKey.key_pair r)

abbrev pub signed_pre_key_contents : SignedPreKeyRecord → Result (ℕ × ℕ × Bytes × KeyPair)
signed_pre_key_contents r =
    map_ok (λ pair. (SignedPreKey.id r, SignedPreKey.timestamp r, SignedPreKey.signature r, pair))
      (SignedPreKey.key_pair r)

module _ ⦃c : StorageCodec⦄ (laws : StorageRoundTrips c) where
  pre_key :
      (id : ℕ) (k : KeyPair)
      → PreKey.deserialize (PreKey.serialize (PreKey.new id k)) ≡ ok (PreKey.new id k)
  unfolding PreKey.deserialize PreKey.serialize
  pre_key id k = rw (laws.pre_key.decode_encode (PreKey.new id k))

  signed_pre_key :
      (id timestamp : ℕ) (k : KeyPair) (signature : Bytes)
      → SignedPreKey.deserialize
          (SignedPreKey.serialize (SignedPreKey.new id timestamp k signature))
        ≡ ok (SignedPreKey.new id timestamp k signature)
  unfolding SignedPreKey.deserialize SignedPreKey.serialize
  signed_pre_key id timestamp k signature =
      rw (laws.signed_pre_key.decode_encode (SignedPreKey.new id timestamp k signature))

  identity_key_pair :
      (k : KeyPair)
      → IsKey k.public_key
      → length k.private_key.key ≡ 32
      → IdentityKey.try_from (IdentityKey.serialize (from_key_pair k)) ≡ ok (from_key_pair k)
  unfolding IdentityKey.try_from IdentityKey.serialize IdentityKey.decode from_key_pair
  identity_key_pair k h h' = rw (
    laws.identity_key_pair.decode_encode (record {
      public_key = PublicKey.serialize k.public_key;
      private_key = PrivateKey.serialize k.private_key;
    }),
    PublicKey.deserialize-serialize k.public_key h,
    PrivateKey.deserialize-serialize k.private_key h',
  )

  -- A session record, with its archived sessions in their order, and a sender key record, with its
  -- states in their order, are read back as they were serialized. A key pair of well-formed keys that
  -- is stored in a pre-key record, in a signed pre-key record or as an identity key pair, serialized,
  -- and read back, is the same pair; the records keep the identifier, the timestamp and the signature.
  pub deserialize-serialize_stored :
      (id timestamp : ℕ) (k : KeyPair) (signature : Bytes) (session : SessionRecord)
      (sender_keys : SenderKeyRecord)
      → IsKey k.public_key
      → length k.private_key.key ≡ 32
      → ((PreKey.deserialize (PreKey.serialize (PreKey.new id k)) >>= pre_key_contents)
          ≡ ok (id, k))
        × ((SignedPreKey.deserialize
                (SignedPreKey.serialize (SignedPreKey.new id timestamp k signature))
              >>= signed_pre_key_contents)
            ≡ ok (id, timestamp, signature, k))
        × (IdentityKey.try_from (IdentityKey.serialize (from_key_pair k)) ≡ ok (from_key_pair k))
        × (SessionEncode.record_deserialize (SessionEncode.record_serialize session) ≡ ok session)
        × (GroupEncode.record_deserialize (GroupEncode.record_serialize sender_keys)
            ≡ ok sender_keys)
  unfolding PreKey.id PreKey.new SignedPreKey.id SignedPreKey.timestamp SignedPreKey.signature
      SignedPreKey.new
  deserialize-serialize_stored id timestamp k signature session sender_keys h h' = (
    rw (pre_key id k, PreKey.key_pair-new id k h h') refl,
    rw
        (
          signed_pre_key id timestamp k signature,
          SignedPreKey.key_pair-new id timestamp k signature h h',
        )
        refl,
    identity_key_pair k h h',
    SessionEncode.record_deserialize-serialize laws session,
    GroupEncode.record_deserialize-serialize laws sender_keys,
  )
