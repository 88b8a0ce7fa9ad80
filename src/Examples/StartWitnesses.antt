-- ===== src/Examples/StartWitnesses.antt =====
-- The properties of starts, stores, groups and messages at concrete inputs.
use libsignal_client.Common.{
  ◌+◌, ◌/◌, ◌≤◌, ◌≡◌, ◌↔◌, ◌⊎◌, true, none, some, [], arith, length, take,
}
use libsignal_client.Error.{
  ok, ◌>>=◌, ciphertext_message_too_short, untrusted_identity, signature_validation_failed,
}
use libsignal_client.Examples.ToyPrimitives.{toy, toy-Lawful}
use libsignal_client.Examples.ToyCodec.{toy_codec, toy_codec-RoundTrips}
use libsignal_client.Examples.Sessions.{
  key_of, public_of, v3, hello, message_of, signal_of, state_of, signal, home,
}
use libsignal_client.Examples.Starts.{
  alice_0, bob_0, bob_1, first_sent, stores, late, sending_stores, refused, bundle, processed,
  forged, rejected, group_sender, group_receiver, group_sent, bytes_of, record_of, group_name,
  group_stores, group_garbled, made, made_of,
}
use libsignal_client.Examples.StartFacts.{
  alice_0_made, bob_0_made, key_sized, signing_sized, public_sized, first_made, first_carries,
  late_made, refused_made, processed_made, rejected_made, group_step, group_made, garbled_made,
  made_is, kdf_is,
}
use libsignal_client.Curve.PublicKey.{PublicKey}
use libsignal_client.Curve.PrivateKey.{public_key}
use libsignal_client.Kdf.{expand}
use libsignal_client.Kdf.Rfc5869.{blocks, expand-Rfc5869}
use libsignal_client.Protocol.Ciphertext.{signal_message}
use libsignal_client.Protocol.SignalMessage
use libsignal_client.Protocol.SignalMessage.{SignalMessage, verify_mac}
use libsignal_client.Protocol.PreKeySignalMessage
use libsignal_client.Protocol.SenderKeyMessage
use libsignal_client.Session.Safe.{
  Started, process_prekey_bundle-Started, process_prekey_bundle_fails,
}
use libsignal_client.SessionCipher.Keys.{Working}
use libsignal_client.SessionCipher.Encrypt.InStep.{InStep}
use libsignal_client.SessionCipher.Encrypt.Handshake.{handshake}
use libsignal_client.SessionCipher.Decrypt.{decrypt_message_with_state}
use libsignal_client.SessionCipher.Messages.Untouched.{
  Untouched, message_decrypt_fails, message_encrypt_fails,
}
use libsignal_client.Storage.{sending, is_trusted_identity, get_identity}
use libsignal_client.Storage.Trust.{is_trusted_identity_iff}
use libsignal_client.Group.SenderKeys.{new_state}
use libsignal_client.Group.Record.{
  SenderKeyRecord, add_sender_key_state, set_sender_key_state, sender_key_state_for_keyid,
  add_sender_key_state-bounded,
}
use libsignal_client.Group.Cipher.{decrypt_with_record}
use libsignal_client.Group.Deliver
use libsignal_client.Group.Deliver.{decrypt-encrypt_with_record}
use libsignal_client.Group.Join.{join, group_decrypt_fails}

handshake_example :
    (w' : Working) × (decrypt_message_with_state
        (signal_of (message_of first_sent))
        (record { state = bob_1; csprng = 12 })
      ≡ (ok hello, w'))
    × ((ratchet : PublicKey) × InStep ratchet 0 (state_of first_sent) w'.state)
handshake_example =
    handshake toy-Lawful (key_of 1) (key_of 2) (key_of 3) (key_of 4) (some (key_of 5)) key_sized 7
      alice_0 bob_0 alice_0_made bob_0_made (some 8) 9 10 11 (public_of 2) 12 hello
      (message_of first_sent) (state_of first_sent) (public_of 3)
      (signal_of (message_of first_sent)) first_made first_carries

message_decrypt_fails_example : Untouched stores late.1
message_decrypt_fails_example =
    message_decrypt_fails (signal_message signal) home stores late.1 (untrusted_identity home)
      late_made

message_encrypt_fails_example : Untouched sending_stores refused.1
message_encrypt_fails_example =
    message_encrypt_fails hello home sending_stores refused.1 (untrusted_identity home) refused_made

process_prekey_bundle-Started_example : Started home bundle stores processed.1
process_prekey_bundle-Started_example =
    process_prekey_bundle-Started home bundle toy-Lawful stores processed.1 processed_made

process_prekey_bundle_fails_example : record rejected.1 { csprng = 5 } ≡ stores
process_prekey_bundle_fails_example =
    process_prekey_bundle_fails home forged stores rejected.1 signature_validation_failed
      rejected_made

is_trusted_identity_iff_example :
    (is_trusted_identity home (public_of 3) sending stores.identity_store ≡ true) ↔ (
      (get_identity home stores.identity_store ≡ none)
      ⊎ (get_identity home stores.identity_store ≡ some (public_of 3)))
is_trusted_identity_iff_example =
    is_trusted_identity_iff toy-Lawful home (public_of 3) stores.identity_store sending

decrypt-encrypt_with_record_example :
    (r' : SenderKeyRecord) × (decrypt_with_record (bytes_of group_sent.0) group_receiver
      ≡ ok (hello, r'))
    × Deliver.InStep 0 (record_of group_sent.0) r'
decrypt-encrypt_with_record_example =
    decrypt-encrypt_with_record toy-Lawful toy_codec-RoundTrips hello 5 0 group_sender
      (bytes_of group_sent.0) (record_of group_sent.0) 6 group_made group_receiver group_step
      (omega arith) (omega arith)

join_example :
    Deliver.InStep 0
      (set_sender_key_state 6 0 (key_of 7).key (public_key (key_of 9)) (some (key_of 9)) [])
      (add_sender_key_state 6 0 (key_of 7).key (public_key (key_of 9)) none group_receiver)
join_example = join toy-Lawful 6 (key_of 7).key (key_of 9) signing_sized [] group_receiver

group_decrypt_fails_example : group_stores ≡ group_stores
group_decrypt_fails_example =
    group_decrypt_fails group_garbled group_name group_stores group_stores
      (ciphertext_message_too_short 2) garbled_made

add_sender_key_state-bounded_example :
    (length (add_sender_key_state 7 0 (key_of 7).key (public_of 9) none group_receiver) ≤ 5)
    × (sender_key_state_for_keyid 7
          (add_sender_key_state 7 0 (key_of 7).key (public_of 9) none group_receiver)
        ≡ ok (new_state 7 0 (key_of 7).key (public_of 9) none, 0))
add_sender_key_state-bounded_example =
    add_sender_key_state-bounded 7 0 (key_of 7).key (public_of 9) none group_receiver

verify_mac-new_example :
    verify_mac (made_of made) (public_of 1) (public_of 2) (key_of 5).key ≡ ok true
verify_mac-new_example =
    SignalMessage.verify_mac-new toy-Lawful 3 (key_of 5).key (public_of 9) 3 0 (key_of 8).key
      (public_of 1) (public_of 2) made_is

try_from-new_example :
    SignalMessage.try_from (made_of made).serialized
    ≡ ok (record (made_of made) { message_version = 3 })
try_from-new_example =
    SignalMessage.try_from-new toy-Lawful 3 (key_of 5).key (public_of 9) 3 0 (key_of 8).key
      (public_of 1) (public_of 2) made_is toy_codec-RoundTrips public_sized

try_from-new_pre_key_example :
    PreKeySignalMessage.try_from
      (PreKeySignalMessage.new 3 10
        (some 8)
        9
        (public_of 9)
        (public_of 9)
        (made_of made)).serialized
    ≡ (SignalMessage.try_from (made_of made).serialized >>= λ inner.
        ok
          (record (PreKeySignalMessage.new 3 10
            (some 8)
            9
            (public_of 9)
            (public_of 9)
            (made_of made)) { message_version = 3; message = inner }))
try_from-new_pre_key_example =
    PreKeySignalMessage.try_from-new_pre_key toy_codec-RoundTrips 3 10 (some 8) 9 (public_of 9)
      (public_of 9) (made_of made) public_sized public_sized

try_from-new_sender_key_example :
    SenderKeyMessage.try_from (SenderKeyMessage.new 1 2 hello 5 (key_of 9)).0.serialized
    ≡ ok (SenderKeyMessage.new 1 2 hello 5 (key_of 9)).0
try_from-new_sender_key_example =
    SenderKeyMessage.try_from-new_sender_key toy-Lawful 1 2 hello 5 (key_of 9) toy_codec-RoundTrips

message_verify_signature-new_example :
    SenderKeyMessage.message_verify_signature
      (SenderKeyMessage.new 1 2 hello 5 (key_of 9)).0
      (public_key (key_of 9))
    ≡ ok true
message_verify_signature-new_example =
    SenderKeyMessage.message_verify_signature-new toy-Lawful 1 2 hello 5 (key_of 9)

expand-Rfc5869_example :
    expand v3 (key_of 1).key hello 80 ≡ take 80 (blocks 1 (key_of 1).key hello ((80 + 31) / 32))
expand-Rfc5869_example = expand-Rfc5869 toy-Lawful (key_of 1).key hello 80 kdf_is (omega arith)
