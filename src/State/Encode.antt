-- ===== src/State/Encode.antt =====
-- The stored form of `SessionState` and of `SessionRecord`: rust/protocol/src/state/session.rs.
use libsignal_client.Common.{◌≡◌, refl, map, Option_map-map, map-map}
use mathlib.Core.Option
use libsignal_client.Common.Bytes.{Bytes}
use libsignal_client.Error.{Result, ok, ok_or, map_ok, protobuf_decoding_error}
use libsignal_client.Proto.Storage.{SessionStructure, RecordStructure}
use libsignal_client.Proto.StorageCodec.{StorageCodec, StorageRoundTrips}
use libsignal_client.State.Session.{SessionState}
use libsignal_client.State.Record.{SessionRecord}

-- The two `From` of `SessionState` and `SessionStructure`, which the state wraps.
unfoldable pub session_from : SessionStructure → SessionState
session_from s = s

unfoldable pub structure_from : SessionState → SessionStructure
structure_from s = s

session_from-structure : (s : SessionState) → session_from (structure_from s) ≡ s
unfolding session_from structure_from
session_from-structure s = refl

module _ ⦃c : StorageCodec⦄ where
  unfoldable pub session_deserialize : Bytes → Result SessionState
  session_deserialize bytes = ok_or (c.session.decode bytes) protobuf_decoding_error

  unfoldable pub session_serialize : SessionState → Bytes
  session_serialize s = c.session.encode s

abbrev from_structure : RecordStructure → SessionRecord
from_structure r = record {
  current_session = Option.map session_from r.current_session;
  previous_sessions = map session_from r.previous_sessions;
}

abbrev structure : SessionRecord → RecordStructure
structure r = record {
  current_session = Option.map structure_from r.current_session;
  previous_sessions = map structure_from r.previous_sessions;
}

module _ ⦃c : StorageCodec⦄ where
  unfoldable pub record_deserialize : Bytes → Result SessionRecord
  record_deserialize bytes =
      map_ok from_structure (ok_or (c.record_structure.decode bytes) protobuf_decoding_error)

  unfoldable pub record_serialize : SessionRecord → Bytes
  record_serialize r = c.record_structure.encode (structure r)

  -- Serializing and reading back a state, or a record with its archived states, gives the same one,
  -- in the same order.
  pub session_deserialize-serialize :
      StorageRoundTrips c → (s : SessionState) → session_deserialize (session_serialize s) ≡ ok s
  unfolding session_deserialize session_serialize
  session_deserialize-serialize laws s = rw (laws.session.decode_encode s)

  pub record_deserialize-serialize :
      StorageRoundTrips c → (r : SessionRecord) → record_deserialize (record_serialize r) ≡ ok r
  unfolding record_deserialize record_serialize
  record_deserialize-serialize laws r = rw (
    laws.record_structure.decode_encode (structure r),
    Option_map-map structure_from session_from session_from-structure r.current_session,
    map-map structure_from session_from session_from-structure r.previous_sessions,
  )
