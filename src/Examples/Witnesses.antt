-- ===== src/Examples/Witnesses.antt =====
-- The properties of the program at concrete inputs.
use libsignal_client.Common.{ℕ, ◌≡◌, none, some, [], arith}
use libsignal_client.Error.{ok, err, duplicated_message, invalid_message}
use libsignal_client.Examples.ToyPrimitives.{toy, toy-Lawful}
use libsignal_client.Examples.ToyCodec.{toy_codec}
use libsignal_client.Examples.Sessions.{
  key_of, public_of, chain_key, chain_of, sender, receiver, hello, sent, signal, message_of,
  state_of, received, opened, working,
}
use libsignal_client.Examples.Facts.{
  found, step, sent_made, carries, signal_sized, signal_fits, received_made, formed, pending,
}
use libsignal_client.Protocol.Ciphertext.{CiphertextMessage}
use libsignal_client.Ratchet.ChainKey.{message_keys}
use libsignal_client.Ratchet.Setup.Agree.{Agreement, initialize_agree}
use libsignal_client.State.Session.{SessionState}
use libsignal_client.State.Session.Chains.{with_chain}
use libsignal_client.SessionCipher.Keys.{Working, get_or_create_message_key}
use libsignal_client.SessionCipher.Keys.Skip.{advance}
use libsignal_client.SessionCipher.Keys.Message.{
  moved, get_or_create_message_key_ahead, get_or_create_message_key_far,
}
use libsignal_client.SessionCipher.Encrypt.{encrypt_with_state}
use libsignal_client.SessionCipher.Encrypt.InStep.{InStep}
use libsignal_client.SessionCipher.Encrypt.Stream.{deliver, lose, encrypt_with_state-total}
use libsignal_client.SessionCipher.Decrypt.{decrypt_message_with_state, decrypt_message_with_record}
use libsignal_client.SessionCipher.Decrypt.Record.{
  Renewed, decrypt_message_with_record-Renewed, decrypt_message_with_record_twice,
}

deliver_example :
    (w' : Working) × (decrypt_message_with_state signal working ≡ (ok hello, w'))
    × InStep (public_of 9) 0 (state_of sent) w'.state
deliver_example =
    deliver toy-Lawful hello (public_of 9) 0 sender working step (omega arith) (omega arith)
      (message_of sent) (state_of sent) (public_of 2) signal sent_made carries

lose_example : InStep (public_of 9) 1 (state_of sent) receiver
lose_example =
    lose toy-Lawful hello (public_of 9) 0 sender receiver step (message_of sent) (state_of sent)
      (public_of 2) sent_made

encrypt_with_state-total_example :
    (msg : CiphertextMessage) × (s' : SessionState) × (encrypt_with_state hello sender
      ≡ ok (msg, s', public_of 2))
encrypt_with_state-total_example =
    encrypt_with_state-total toy-Lawful hello (public_of 9) 0 sender receiver step none pending

decrypt_message_with_record_twice_example :
    (index : ℕ) × (decrypt_message_with_record signal received.1
      ≡ (err (duplicated_message index signal.counter), received.1))
decrypt_message_with_record_twice_example =
    decrypt_message_with_record_twice toy-Lawful signal signal_sized signal_fits opened received.1
      hello formed received_made

decrypt_message_with_record-Renewed_example : Renewed signal received.1.sessions
decrypt_message_with_record-Renewed_example =
    decrypt_message_with_record-Renewed toy-Lawful signal signal_sized signal_fits opened received.1
      hello formed received_made

initialize_agree_example :
    Agreement toy-Lawful (key_of 1) (key_of 2) (key_of 3) (key_of 4) (some (key_of 5)) 7
initialize_agree_example =
    initialize_agree toy-Lawful (key_of 1) (key_of 2) (key_of 3) (key_of 4) (some (key_of 5)) 7

get_or_create_message_key_ahead_example :
    get_or_create_message_key (public_of 9) chain_key 5 receiver ≡ (
      ok (message_keys (advance 2 chain_key)),
      with_chain receiver 0 (moved 2 chain_key (chain_of 9 [])),
    )
get_or_create_message_key_ahead_example =
    get_or_create_message_key_ahead (public_of 9) chain_key 5 receiver (chain_of 9 []) 0 found
      (omega arith) (omega arith) (omega arith) (omega arith)

get_or_create_message_key_far_example :
    get_or_create_message_key (public_of 9) chain_key 2004 receiver
    ≡ (err (invalid_message "message from too far into the future"), receiver)
get_or_create_message_key_far_example =
    get_or_create_message_key_far (public_of 9) chain_key 2004 receiver (chain_of 9 []) 0 found
      (omega arith) (omega arith) (omega arith)
