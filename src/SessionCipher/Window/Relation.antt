-- ===== src/SessionCipher/Window/Relation.antt =====
-- When a session state implements a window, and what the code returns for each answer.
use libsignal_client.Common.{ℕ, ◌-◌, ◌≤◌, ◌<◌, ◌≡◌, some, map, arith, length, All}
use libsignal_client.Consts.{max_message_keys}
use libsignal_client.Error.{Result, ok, err, duplicated_message, invalid_message}
use libsignal_client.Primitives.{Primitives}
use libsignal_client.Curve.PublicKey.{PublicKey}
use libsignal_client.Kdf
use libsignal_client.Proto.Storage.{Chain}
use libsignal_client.Ratchet.ChainKey
use libsignal_client.Ratchet.ChainKey.{
  ChainKey, next_chain_key, u32_mod, message_keys-IsSized, message_keys, length-next_chain_key,
}
use libsignal_client.Ratchet.MessageKeys.{MessageKeys}
use libsignal_client.State.Session.{
  SessionState, get_receiver_chain, get_receiver_chain_key, store_chain_key, session_version,
}
use libsignal_client.SessionCipher.Keys.Skip.{kdf-advance}
use libsignal_client.Window.{Window, Answer, opened, duplicate, too_far}
use libsignal_client.SessionCipher.Window.Keys.{chain_key_at, keys_at, kept_at}
use libsignal_client.Window.Within.{Within}

-- The two states differ in their receiver chains at most.
abbrev pub Beside : SessionState → SessionState → Type 0
Beside s s' = s' ≡ record s { receiver_chains = s'.receiver_chains }

module _ ⦃p : Primitives⦄ (sender : PublicKey) (origin : ChainKey) where
  -- A session whose chain for the sender, begun with the key `origin`, is the one of the window:
  -- the chain key is the one of the next message, and the kept keys are those of the kept counters.
  pub record Refines (w : Window) (s : SessionState) : Type 0 where
    pub chain : Chain
    pub place : ℕ
    pub found : get_receiver_chain sender s ≡ ok (some (chain, place))
    pub stored : chain.chain_key ≡ some (store_chain_key (chain_key_at origin w.next))
    pub keys : chain.message_keys ≡ map (kept_at origin) w.kept
    pub version : Kdf.new (session_version s) ≡ ok origin.kdf
    pub sized : length (chain_key_at origin w.next).key ≡ 32
    pub begun : origin.index ≤ w.next
    pub fits : w.next < u32_mod
    pub within : All (Within origin.index w.next) w.kept
    pub room : length w.kept ≤ max_message_keys

  -- What the code returns for each answer.
  abbrev pub result : ℕ → Window → Answer → Result MessageKeys
  result counter w opened = ok (keys_at origin counter)
  result counter w duplicate = err (duplicated_message w.next counter)
  result counter w too_far = err (invalid_message "message from too far into the future")

  pub get_receiver_chain_key-Refines :
      {w : Window} {s : SessionState}
      → Refines w s
      → get_receiver_chain_key sender s ≡ ok (some (chain_key_at origin w.next))
  unfolding get_receiver_chain_key store_chain_key ChainKey.new
  get_receiver_chain_key-Refines {w} r =
      ground
        (arith, r.found, r.stored, r.version, r.sized, kdf-advance (w.next - origin.index) origin)
