-- ===== src/Examples/Stored.antt =====
-- Records that are serialized and read back.
use libsignal_client.Common.{◌≡◌, refl, some, [], ◌∷◌}
use libsignal_client.Error.{ok, ◌>>=◌}
use libsignal_client.Curve.KeyPair.{KeyPair}
use libsignal_client.Examples.Sessions.{sender, receiver, key_of, public_of}
use libsignal_client.Examples.ToyStorage.{toy_storage_codec, toy_storage_codec-StorageRoundTrips}
use libsignal_client.Group.Encode as GroupEncode
use libsignal_client.Group.Record.{SenderKeyRecord, add_sender_key_state}
use libsignal_client.IdentityKey
use libsignal_client.IdentityKey.{from_key_pair}
use libsignal_client.State.Encode as SessionEncode
use libsignal_client.State.PreKey
use libsignal_client.State.Record.{SessionRecord}
use libsignal_client.State.SignedPreKey
use libsignal_client.Storage.ReadBack.{
  pre_key_contents, signed_pre_key_contents, deserialize-serialize_stored,
}

abbrev pair : KeyPair
pair = record { public_key = public_of 4; private_key = key_of 4 }

abbrev sessions : SessionRecord
sessions = record { current_session = some sender; previous_sessions = receiver ∷ sender ∷ [] }

abbrev sender_keys : SenderKeyRecord
sender_keys =
    add_sender_key_state 7 3 (1 ∷ 2 ∷ []) (public_of 5) (some (key_of 5))
      (add_sender_key_state 6 0 (3 ∷ []) (public_of 6) (some (key_of 6)) [])

deserialize-serialize_stored_example :
    ((PreKey.deserialize (PreKey.serialize (PreKey.new 31 pair)) >>= pre_key_contents)
      ≡ ok (31, pair))
    × ((SignedPreKey.deserialize (SignedPreKey.serialize (SignedPreKey.new 31 22 pair (9 ∷ 8 ∷ [])))
          >>= signed_pre_key_contents)
        ≡ ok (31, 22, 9 ∷ 8 ∷ [], pair))
    × (IdentityKey.try_from (IdentityKey.serialize (from_key_pair pair)) ≡ ok (from_key_pair pair))
    × (SessionEncode.record_deserialize (SessionEncode.record_serialize sessions) ≡ ok sessions)
    × (GroupEncode.record_deserialize (GroupEncode.record_serialize sender_keys) ≡ ok sender_keys)
unfolding libsignal_client.Curve.PrivateKey.public_key libsignal_client.Examples.ToyPrimitives.toy
    key_of
deserialize-serialize_stored_example =
    deserialize-serialize_stored toy_storage_codec-StorageRoundTrips 31 22 pair (9 ∷ 8 ∷ [])
      sessions sender_keys refl refl
