-- ===== src/Examples/ToyStorage.antt =====
-- An encoding of the stored messages that is decoded to what it encodes.
use libsignal_client.Common.{refl, ap, some, []}
use libsignal_client.Examples.Formats.{Format, nat, both, list, option, via, bytes, bool}
use libsignal_client.Proto.Storage
use libsignal_client.Proto.Storage.{
  SessionStructure, RecordStructure, PreKeyRecordStructure, SignedPreKeyRecordStructure,
  IdentityKeyPairStructure, SenderKeyStateStructure, SenderKeyRecordStructure,
}
use libsignal_client.Proto.StorageCodec.{Message, Decodes, StorageCodec, StorageRoundTrips}

abbrev chain_key : Format Storage.ChainKey
chain_key =
    via (both nat bytes) (λ k. (k.index, k.key)) (λ v. record { index = v.0; key = v.1 })
      (λ k. refl)

abbrev message_key : Format Storage.MessageKey
message_key =
    via (both nat (both bytes (both bytes bytes)))
      (λ v. (v.index, (v.cipher_key, (v.mac_key, v.iv))))
      (λ v. record { index = v.0; cipher_key = v.1.0; mac_key = v.1.1.0; iv = v.1.1.1 }) (λ v. refl)

abbrev chain : Format Storage.Chain
chain =
    via (both bytes (both bytes (both (option chain_key) (list message_key))))
      (λ v. (v.sender_ratchet_key, (v.sender_ratchet_key_private, (v.chain_key, v.message_keys))))
      (λ v. record {
        sender_ratchet_key = v.0;
        sender_ratchet_key_private = v.1.0;
        chain_key = v.1.1.0;
        message_keys = v.1.1.1;
      })
      (λ v. refl)

abbrev pending_pre_key : Format Storage.PendingPreKey
pending_pre_key =
    via (both nat (both nat bytes)) (λ v. (v.pre_key_id, (v.signed_pre_key_id, v.base_key)))
      (λ v. record { pre_key_id = v.0; signed_pre_key_id = v.1.0; base_key = v.1.1 }) (λ v. refl)

abbrev session : Format SessionStructure
session =
    via
      (both nat (
        both bytes (
          both bytes (
            both bytes (
              both nat (
                both (option chain) (
                  both (list chain)
                    (both (option pending_pre_key) (both nat (both nat (both bool bytes)))))))))))
      (λ v. (
        v.session_version,
        (
          v.local_identity_public,
          (
            v.remote_identity_public,
            (
              v.root_key,
              (
                v.previous_counter,
                (
                  v.sender_chain,
                  (
                    v.receiver_chains,
                    (
                      v.pending_pre_key,
                      (
                        v.remote_registration_id,
                        (v.local_registration_id, (v.needs_refresh, v.alice_base_key)),
                      ),
                    ),
                  ),
                ),
              ),
            ),
          ),
        ),
      ))
      (λ v. record {
        session_version = v.0;
        local_identity_public = v.1.0;
        remote_identity_public = v.1.1.0;
        root_key = v.1.1.1.0;
        previous_counter = v.1.1.1.1.0;
        sender_chain = v.1.1.1.1.1.0;
        receiver_chains = v.1.1.1.1.1.1.0;
        pending_pre_key = v.1.1.1.1.1.1.1.0;
        remote_registration_id = v.1.1.1.1.1.1.1.1.0;
        local_registration_id = v.1.1.1.1.1.1.1.1.1.0;
        needs_refresh = v.1.1.1.1.1.1.1.1.1.1.0;
        alice_base_key = v.1.1.1.1.1.1.1.1.1.1.1;
      })
      (λ v. refl)

abbrev record_structure : Format RecordStructure
record_structure =
    via (both (option session) (list session)) (λ v. (v.current_session, v.previous_sessions))
      (λ v. record { current_session = v.0; previous_sessions = v.1 }) (λ v. refl)

abbrev pre_key : Format PreKeyRecordStructure
pre_key =
    via (both nat (both bytes bytes)) (λ v. (v.id, (v.public_key, v.private_key)))
      (λ v. record { id = v.0; public_key = v.1.0; private_key = v.1.1 }) (λ v. refl)

abbrev signed_pre_key : Format SignedPreKeyRecordStructure
signed_pre_key =
    via (both nat (both bytes (both bytes (both bytes nat))))
      (λ v. (v.id, (v.public_key, (v.private_key, (v.signature, v.timestamp)))))
      (λ v. record {
        id = v.0;
        public_key = v.1.0;
        private_key = v.1.1.0;
        signature = v.1.1.1.0;
        timestamp = v.1.1.1.1;
      })
      (λ v. refl)

abbrev identity_key_pair : Format IdentityKeyPairStructure
identity_key_pair =
    via (both bytes bytes) (λ v. (v.public_key, v.private_key))
      (λ v. record { public_key = v.0; private_key = v.1 }) (λ v. refl)

abbrev sender_chain_key : Format Storage.SenderChainKey
sender_chain_key =
    via (both nat bytes) (λ v. (v.iteration, v.seed)) (λ v. record { iteration = v.0; seed = v.1 })
      (λ v. refl)

abbrev sender_message_key : Format Storage.SenderMessageKey
sender_message_key =
    via (both nat bytes) (λ v. (v.iteration, v.seed)) (λ v. record { iteration = v.0; seed = v.1 })
      (λ v. refl)

abbrev sender_signing_key : Format Storage.SenderSigningKey
sender_signing_key =
    via (both bytes bytes) (λ v. (v.public, v.private))
      (λ v. record { public = v.0; private = v.1 }) (λ v. refl)

abbrev sender_key_state : Format SenderKeyStateStructure
sender_key_state =
    via
      (both nat (
        both (option sender_chain_key)
          (both (option sender_signing_key) (list sender_message_key))))
      (λ v. (v.sender_key_id, (v.sender_chain_key, (v.sender_signing_key, v.sender_message_keys))))
      (λ v. record {
        sender_key_id = v.0;
        sender_chain_key = v.1.0;
        sender_signing_key = v.1.1.0;
        sender_message_keys = v.1.1.1;
      })
      (λ v. refl)

abbrev sender_key_record : Format SenderKeyRecordStructure
sender_key_record =
    via (list sender_key_state) (λ v. v.sender_key_states) (λ v. record { sender_key_states = v })
      (λ v. refl)

abbrev message : {A : Type 0} → Format A → Message A
message f = record { encode = λ a. f.put a []; decode = λ b. some (f.get b).0 }

message-Decodes : {A : Type 0} (f : Format A) → Decodes (message f)
message-Decodes f = record { decode_encode = λ a. ap (λ v. some v.0) (f.get-put a []) }

instance abbrev pub toy_storage_codec : StorageCodec
toy_storage_codec = record {
  session = message session;
  record_structure = message record_structure;
  pre_key = message pre_key;
  signed_pre_key = message signed_pre_key;
  identity_key_pair = message identity_key_pair;
  sender_key_state = message sender_key_state;
  sender_key_record = message sender_key_record;
}

pub toy_storage_codec-StorageRoundTrips : StorageRoundTrips toy_storage_codec
toy_storage_codec-StorageRoundTrips = record {
  session = message-Decodes session;
  record_structure = message-Decodes record_structure;
  pre_key = message-Decodes pre_key;
  signed_pre_key = message-Decodes signed_pre_key;
  identity_key_pair = message-Decodes identity_key_pair;
  sender_key_state = message-Decodes sender_key_state;
  sender_key_record = message-Decodes sender_key_record;
}
