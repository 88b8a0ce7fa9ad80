-- ===== src/Group/Encode.antt =====
-- The stored form of `SenderKeyState` and of `SenderKeyRecord`: rust/protocol/src/sender_keys.rs.
use libsignal_client.Common.{◌≡◌, refl, Bool, true, false, [], ◌∷◌, map, map-map}
use libsignal_client.Common.Bytes.{Bytes}
use libsignal_client.Error.{Result, ok, ok_or, map_ok, protobuf_decoding_error}
use libsignal_client.Group.Record.{SenderKeyRecord}
use libsignal_client.Group.SenderKeys.{SenderKeyState}
use libsignal_client.Proto.Storage.{SenderKeyStateStructure, SenderKeyRecordStructure}
use libsignal_client.Proto.StorageCodec.{StorageCodec, StorageRoundTrips}

unfoldable pub state_from_protobuf : SenderKeyStateStructure → SenderKeyState
state_from_protobuf state = state

unfoldable pub state_as_protobuf : SenderKeyState → SenderKeyStateStructure
state_as_protobuf s = s

unfoldable pub new_empty : SenderKeyRecord
new_empty = []

unfoldable pub is_empty : SenderKeyRecord → Bool
is_empty [] = true
is_empty (s ∷ ss) = false

unfoldable pub as_protobuf : SenderKeyRecord → SenderKeyRecordStructure
as_protobuf r = record { sender_key_states = map state_as_protobuf r }

state_from_protobuf-as_protobuf :
    (s : SenderKeyState) → state_from_protobuf (state_as_protobuf s) ≡ s
unfolding state_from_protobuf state_as_protobuf
state_from_protobuf-as_protobuf s = refl

module _ ⦃c : StorageCodec⦄ where
  unfoldable pub state_deserialize : Bytes → Result SenderKeyState
  state_deserialize buf = ok_or (c.sender_key_state.decode buf) protobuf_decoding_error

  unfoldable pub state_serialize : SenderKeyState → Bytes
  state_serialize s = c.sender_key_state.encode s

  unfoldable pub record_deserialize : Bytes → Result SenderKeyRecord
  record_deserialize buf =
      map_ok (λ (skr : SenderKeyRecordStructure). map state_from_protobuf skr.sender_key_states)
        (ok_or (c.sender_key_record.decode buf) protobuf_decoding_error)

  unfoldable pub record_serialize : SenderKeyRecord → Bytes
  record_serialize r = c.sender_key_record.encode (as_protobuf r)

  pub state_deserialize-serialize :
      StorageRoundTrips c → (s : SenderKeyState) → state_deserialize (state_serialize s) ≡ ok s
  unfolding state_deserialize state_serialize
  state_deserialize-serialize laws s = rw (laws.sender_key_state.decode_encode s)

  pub record_deserialize-serialize :
      StorageRoundTrips c → (r : SenderKeyRecord) → record_deserialize (record_serialize r) ≡ ok r
  unfolding record_deserialize record_serialize as_protobuf
  record_deserialize-serialize laws r = rw (
    laws.sender_key_record.decode_encode (as_protobuf r),
    map-map state_as_protobuf state_from_protobuf state_from_protobuf-as_protobuf r,
  )
