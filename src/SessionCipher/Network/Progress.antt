-- ===== src/SessionCipher/Network/Progress.antt =====
-- What is sent next is decrypted, whatever the network did before.
use libsignal_client.Common.{◌+◌, ◌-◌, ◌≤◌, ◌<◌, ◌≡◌, refl, Option, ◌∷◌, get_elem?, arith}
use libsignal_client.Common.Bytes.{Bytes}
use libsignal_client.Consts.{max_forward_jumps}
use libsignal_client.Error.{ok}
use libsignal_client.Primitives.{Primitives, Lawful}
use libsignal_client.Protocol.Wire.{Codec}
use libsignal_client.Ratchet.ChainKey.{u32_mod}
use libsignal_client.State.Session.{
  UnacknowledgedPreKeyMessageItems, unacknowledged_pre_key_message_items,
}
use libsignal_client.SessionCipher.Decrypt.{decrypt_message_with_state}
use libsignal_client.SessionCipher.Encrypt.Sent.{encrypt_with_state-Sent}
use libsignal_client.SessionCipher.Encrypt.Stream.{encrypt_with_state-succeeds}
use libsignal_client.SessionCipher.Network.{Entry, Net, Step, send, arrive, Steps}
use libsignal_client.SessionCipher.Network.Linked.{Linked, end_of}
use libsignal_client.SessionCipher.Network.Reached.{Steps-Linked, send-Sealed}
use libsignal_client.SessionCipher.Window.Kept.{receive-opened}
use libsignal_client.SessionCipher.Window.Opens.{Line, decrypt_message_with_state-receive}

module _ ⦃p : Primitives⦄ ⦃c : Codec⦄ (line : Line) (laws : Lawful p) where
  -- A message of the text that is sent from the state, arrives at once, and is decrypted.
  pub record Delivered (text : Bytes) (n : Net) : Type 0 where
    pub entry : Entry
    pub sent : Net
    pub arrived : Net
    pub sending : Step n sent
    pub arriving : Step sent arrived
    pub of_text : entry.text ≡ text
    pub carried : sent.flight ≡ entry ∷ n.flight
    pub decrypted :
        decrypt_message_with_state entry.message sent.receiver ≡ (ok text, arrived.receiver)

  Linked-Delivered :
      (n : Net) (l : Linked line n) (text : Bytes) {items : Option UnacknowledgedPreKeyMessageItems}
      → unacknowledged_pre_key_message_items n.sender ≡ ok items
      → end_of line n - l.window.next ≤ max_forward_jumps
      → end_of line n + 2 < u32_mod
      → Delivered text n
  unfolding get_elem?
  Linked-Delivered n l text {items} pending near fits =
      let (msg, s', good) =
        encrypt_with_state-succeeds laws text n.sender _ line.ratchet line.sender line.receiver
          items l.sending l.ratchet_is l.local_is l.remote_is pending in
      let (k, m, made, carries, _) =
        encrypt_with_state-Sent text n.sender msg s' line.receiver good in
      let e : Entry = record { message = m; text = text } in
      let (sealed, _) =
        send-Sealed line laws n e msg s' line.receiver good carries (omega (arith, fits)) l in
      let (g', done, _) =
        decrypt_message_with_state-receive line laws sealed l.window n.receiver l.listens in
      let is = receive-opened (end_of line n) l.window l.behind near in
      let opened = rw is at done in
      let n' : Net = record n { sender = s'; flight = e ∷ n.flight } in
      record {
        entry = e;
        sent = n';
        arrived = record n' { receiver = g' };
        sending = send n e good carries;
        arriving = arrive n' 0 refl opened;
        of_text = refl;
        carried = refl;
        decrypted = opened;
      }

  -- Whatever was sent before, lost, delayed or repeated: as long as the sender is no more than
  -- `MAX_FORWARD_JUMPS` messages past the message that the receiver started at, the counters do not
  -- wrap, and the sender can read what it holds of an unacknowledged pre-key, any text can be sent,
  -- and is decrypted to itself when it arrives.
  pub Steps-Delivered :
      {start n : Net} (l : Linked line start)
      → Steps start n
      → (text : Bytes) {items : Option UnacknowledgedPreKeyMessageItems}
      → unacknowledged_pre_key_message_items n.sender ≡ ok items
      → end_of line n - l.window.next ≤ max_forward_jumps
      → end_of line n + 2 < u32_mod
      → Delivered text n
  Steps-Delivered {start} {n} l steps text pending near fits =
      let (l', onward) = Steps-Linked line laws l steps (omega (arith, fits)) in
      Linked-Delivered n l' text pending (omega (arith, near, onward)) fits
