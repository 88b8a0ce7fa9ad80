-- ===== src/Examples/Chain.antt =====
-- The messages of a chain that arrive late and out of order.
use libsignal_client.Common.{ℕ, ◌<◌, ◌≡◌, ◌+◌, refl, some, none, [], ◌∷◌, arith, All, get_elem?}
use libsignal_client.Common.Bytes.{Bytes}
use libsignal_client.Error.{ok}
use libsignal_client.Examples.Facts.{
  found, sending, ratchet_is, local_s, remote_s, local_r, remote_r, version, sized, sends, stored,
  sent_made, carries,
}
use libsignal_client.Examples.Sessions.{
  Made, sender, receiver, working, hello, sent, signal, message_of, state_of, signal_of, chain_key,
  chain_of, public_of,
}
use libsignal_client.Examples.ToyCodec.{toy_codec}
use libsignal_client.Examples.ToyPrimitives.{toy, toy-Lawful}
use libsignal_client.Ratchet.ChainKey.{u32_mod}
use libsignal_client.SessionCipher.Decrypt.{decrypt_message_with_state}
use libsignal_client.SessionCipher.Encrypt.{encrypt_with_state}
use libsignal_client.SessionCipher.Encrypt.Sent.{carried}
use libsignal_client.SessionCipher.Keys.{get_or_create_message_key}
use libsignal_client.SessionCipher.Network.{Entry, Net, send, arrive, Steps, here, next}
use libsignal_client.SessionCipher.Network.Linked.{Linked}
use libsignal_client.SessionCipher.Network.Reached.{answers-Steps}
use libsignal_client.SessionCipher.Network.Progress.{Delivered, Steps-Delivered}
use libsignal_client.SessionCipher.Window.{receive}
use libsignal_client.Window.{Window}
use libsignal_client.SessionCipher.Window.Relation.{Refines, Beside, result}
use libsignal_client.SessionCipher.Window.Keys.{chain_key_at}
use libsignal_client.SessionCipher.Window.Opens.{Line, text_result}
use libsignal_client.SessionCipher.Window.Refined.{get_or_create_message_key-receive}
use libsignal_client.State.Session.{
  get_receiver_chain_key, get_sender_chain_key, session_version,
  unacknowledged_pre_key_message_items,
}

abbrev line : Line
line = record {
  ratchet = public_of 9;
  origin = chain_key;
  sender = public_of 1;
  receiver = public_of 2;
  version = 3;
}

abbrev first_window : Window
first_window = record { next = 3; kept = [] }

begins : Refines (public_of 9) chain_key first_window receiver
unfolding libsignal_client.SessionCipher.Keys.Skip.advance
begins = record {
  chain = chain_of 9 [];
  place = 0;
  found = found;
  stored = stored;
  keys = refl;
  version = version;
  sized = sized;
  begun = omega arith;
  fits = omega arith;
  within = tt;
  room = omega arith;
}

get_or_create_message_key-receive_example :
    (s' : _) × (get_receiver_chain_key (public_of 9) receiver
      ≡ ok (some (chain_key_at chain_key 3)))
    × (get_or_create_message_key (public_of 9) (chain_key_at chain_key 3) 5 receiver
        ≡ (result (public_of 9) chain_key 5 first_window (receive 5 first_window).0, s'))
    × Refines (public_of 9) chain_key (receive 5 first_window).1 s'
    × Beside receiver s'
get_or_create_message_key-receive_example =
    get_or_create_message_key-receive (public_of 9) chain_key toy-Lawful 5 (omega arith)
      first_window receiver begins

abbrev start : Net
start = record { sender = sender; receiver = working; flight = [] }

sending_first : get_sender_chain_key sender ≡ ok (chain_key_at chain_key 3)
unfolding libsignal_client.SessionCipher.Keys.Skip.advance
sending_first = sending

version_three : (session_version sender ≡ 3) × (session_version receiver ≡ 3)
unfolding session_version
version_three = (refl, refl)

abbrev linked : Linked line start
linked = record {
  sending = sending_first;
  ratchet_is = ratchet_is;
  local_is = local_s;
  remote_is = remote_s;
  version_is = version_three.0;
  sealed = tt;
  window = first_window;
  listens = record {
    refines = begins;
    local_r = local_r;
    remote_r = remote_r;
    sends = sends;
    version = version_three.1;
  };
  behind = omega arith;
}

abbrev one : Entry
one = record { message = signal; text = hello }

abbrev bye : Bytes
bye = 98 ∷ []

abbrev sent_next : Made
sent_next = encrypt_with_state bye (state_of sent)

abbrev two : Entry
two = record { message = signal_of (message_of sent_next); text = bye }

sent_next_made : sent_next ≡ ok (message_of sent_next, state_of sent_next, public_of 2)
unfolding libsignal_client.Common.Bytes.ascii libsignal_client.Common.slice
    libsignal_client.Crypto.aes_256_cbc_encrypt libsignal_client.Crypto.hmac_sha256
    libsignal_client.Curve.PrivateKey.public_key libsignal_client.Curve.PublicKey.deserialize
    libsignal_client.Curve.PublicKey.serialize libsignal_client.Examples.Sessions.key_of
    libsignal_client.Examples.ToyPrimitives.toy libsignal_client.Kdf.derive_salted_secrets
    libsignal_client.Kdf.derive_secrets libsignal_client.Kdf.expand libsignal_client.Kdf.expand_loop
    libsignal_client.Kdf.extract libsignal_client.Kdf.last_block libsignal_client.Kdf.new
    libsignal_client.Protocol.SignalMessage.compute_mac libsignal_client.Protocol.SignalMessage.new
    libsignal_client.Ratchet.ChainKey.calculate_base_material
    libsignal_client.Ratchet.ChainKey.message_keys libsignal_client.Ratchet.ChainKey.new
    libsignal_client.Ratchet.MessageKeys.derive_keys
    libsignal_client.SessionCipher.Encrypt.encrypt_with_state
    libsignal_client.State.Session.get_sender_chain_key
    libsignal_client.State.Session.local_identity_key
    libsignal_client.State.Session.remote_identity_key
    libsignal_client.State.Session.sender_ratchet_key
    libsignal_client.State.Session.unacknowledged_pre_key_message_items
    libsignal_client.State.Session.set_sender_chain_key
    libsignal_client.Ratchet.ChainKey.next_chain_key
sent_next_made = refl

next_carries : carried (message_of sent_next) ≡ some two.message
unfolding libsignal_client.Common.Bytes.ascii libsignal_client.Common.slice
    libsignal_client.Crypto.aes_256_cbc_encrypt libsignal_client.Crypto.hmac_sha256
    libsignal_client.Curve.PrivateKey.public_key libsignal_client.Curve.PublicKey.deserialize
    libsignal_client.Curve.PublicKey.serialize libsignal_client.Examples.Sessions.key_of
    libsignal_client.Examples.ToyPrimitives.toy libsignal_client.Kdf.derive_salted_secrets
    libsignal_client.Kdf.derive_secrets libsignal_client.Kdf.expand libsignal_client.Kdf.expand_loop
    libsignal_client.Kdf.extract libsignal_client.Kdf.last_block libsignal_client.Kdf.new
    libsignal_client.Protocol.SignalMessage.compute_mac libsignal_client.Protocol.SignalMessage.new
    libsignal_client.Ratchet.ChainKey.calculate_base_material
    libsignal_client.Ratchet.ChainKey.message_keys libsignal_client.Ratchet.ChainKey.new
    libsignal_client.Ratchet.MessageKeys.derive_keys
    libsignal_client.SessionCipher.Encrypt.encrypt_with_state
    libsignal_client.State.Session.get_sender_chain_key
    libsignal_client.State.Session.local_identity_key
    libsignal_client.State.Session.remote_identity_key
    libsignal_client.State.Session.sender_ratchet_key
    libsignal_client.State.Session.unacknowledged_pre_key_message_items
    libsignal_client.State.Session.set_sender_chain_key
    libsignal_client.Ratchet.ChainKey.next_chain_key
next_carries = refl

abbrev both_sent : Net
both_sent = record { sender = state_of sent_next; receiver = working; flight = two ∷ one ∷ [] }

abbrev overtaken : Net
overtaken = record both_sent { receiver = (decrypt_message_with_state two.message working).1 }

abbrev came_late : Net
came_late = record overtaken {
  receiver = (decrypt_message_with_state one.message overtaken.receiver).1;
}

-- Two messages are sent; the second arrives, and the first after it.
steps : Steps start came_late
unfolding get_elem?
steps =
    next
      (next
        (next (next here (send start one sent_made carries)) (
          send (record { sender = state_of sent; receiver = working; flight = one ∷ [] }) two
            sent_next_made next_carries))
        (arrive both_sent 0 refl refl))
      (arrive overtaken 1 refl refl)

answers-Steps_example :
    (w : Window) × Refines (public_of 9) chain_key w came_late.receiver.state
    × All
        (λ (e : Entry).
          (decrypt_message_with_state e.message came_late.receiver).0
          ≡ text_result e.text e.message.counter w (receive e.message.counter w).0)
        (two ∷ one ∷ [])
answers-Steps_example = answers-Steps line toy-Lawful linked steps (omega arith)

pending_late : unacknowledged_pre_key_message_items came_late.sender ≡ ok none
unfolding libsignal_client.Common.Bytes.ascii libsignal_client.Common.slice
    libsignal_client.Crypto.aes_256_cbc_encrypt libsignal_client.Crypto.hmac_sha256
    libsignal_client.Curve.PrivateKey.public_key libsignal_client.Curve.PublicKey.deserialize
    libsignal_client.Curve.PublicKey.serialize libsignal_client.Examples.Sessions.key_of
    libsignal_client.Examples.ToyPrimitives.toy libsignal_client.Kdf.derive_salted_secrets
    libsignal_client.Kdf.derive_secrets libsignal_client.Kdf.expand libsignal_client.Kdf.expand_loop
    libsignal_client.Kdf.extract libsignal_client.Kdf.last_block libsignal_client.Kdf.new
    libsignal_client.Protocol.SignalMessage.compute_mac libsignal_client.Protocol.SignalMessage.new
    libsignal_client.Ratchet.ChainKey.calculate_base_material
    libsignal_client.Ratchet.ChainKey.message_keys libsignal_client.Ratchet.ChainKey.new
    libsignal_client.Ratchet.MessageKeys.derive_keys
    libsignal_client.SessionCipher.Encrypt.encrypt_with_state
    libsignal_client.State.Session.get_sender_chain_key
    libsignal_client.State.Session.local_identity_key
    libsignal_client.State.Session.remote_identity_key
    libsignal_client.State.Session.sender_ratchet_key
    libsignal_client.State.Session.unacknowledged_pre_key_message_items
    libsignal_client.State.Session.set_sender_chain_key
    libsignal_client.Ratchet.ChainKey.next_chain_key
pending_late = refl

Steps-Delivered_example : Delivered line toy-Lawful hello came_late
Steps-Delivered_example =
    Steps-Delivered line toy-Lawful linked steps hello pending_late (omega arith) (omega arith)
