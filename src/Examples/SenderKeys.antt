-- ===== src/Examples/SenderKeys.antt =====
-- A message of a group that comes ahead of others.
use libsignal_client.Common.{refl, none, [], ◌∷◌, arith}
use libsignal_client.Examples.Sessions.{public_of}
use libsignal_client.Examples.ToyPrimitives.{toy}
use libsignal_client.Group.SenderKeys.{SenderChainKey, SenderKeyState, new_state, sender_chain_key}
use libsignal_client.Group.Window.{receive}
use libsignal_client.Group.Window.Refined.{Refines, Implemented, get_sender_key-receive}
use libsignal_client.Window.{Window}

abbrev origin : SenderChainKey
origin = record { iteration = 2; chain_key = 1 ∷ 6 ∷ [] }

abbrev state : SenderKeyState
state = new_state 7 2 (1 ∷ 6 ∷ []) (public_of 5) none

abbrev window : Window
window = record { next = 2; kept = [] }

begins : Refines origin window state
unfolding new_state sender_chain_key libsignal_client.Group.Skip.advance
begins = record {
  chain = refl;
  keys = refl;
  begun = omega arith;
  fits = omega arith;
  within = tt;
  room = omega arith;
}

get_sender_key-receive_example : Implemented origin 5 window state (receive 5 window)
get_sender_key-receive_example = get_sender_key-receive origin 5 (omega arith) window state begins
