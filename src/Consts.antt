-- ===== src/Consts.antt =====
-- rust/protocol/src/consts.rs
use libsignal_client.Common.{ℕ}

abbrev pub max_forward_jumps : ℕ
max_forward_jumps = 2000

abbrev pub max_message_keys : ℕ
max_message_keys = 2000

abbrev pub max_receiver_chains : ℕ
max_receiver_chains = 5

abbrev pub archived_states_max_length : ℕ
archived_states_max_length = 40

abbrev pub max_sender_key_states : ℕ
max_sender_key_states = 5
