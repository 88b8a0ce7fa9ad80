-- ===== src/AesGcmSiv/Polyval.antt =====
-- rust/aes-gcm-siv/src/polyval.rs and polyval/polyval_soft.rs: the hash, as the state of the
-- polyval crate. The one caller of `update` passes 16 bytes, which is what the crate takes.
use libsignal_client.Common.{◌%◌, ◌≡◌, arith, length, ◌==◌, if◌then◌else◌}
use libsignal_client.Common.Bytes.{Bytes}
use libsignal_client.AesGcmSiv.{Outcome, done, failed, invalid_key_size, invalid_input_size, Crates}

pub record Polyval : Type 0 where
  pub state : Bytes

module _ ⦃c : Crates⦄ where
  unfoldable pub new : Bytes → Outcome Polyval
  new key =
      if length key == 16 then done (record { state = c.hash_new key }) else failed invalid_key_size

  unfoldable pub update : Polyval → Bytes → Outcome Polyval
  update h block =
      if length block % 16 == 0
      then done (record { state = c.hash_update h.state block })
      else failed invalid_input_size

  unfoldable pub update_padded : Polyval → Bytes → Outcome Polyval
  update_padded h text = done (record { state = c.hash_update_padded h.state text })

  unfoldable pub finalize : Polyval → Outcome Bytes
  finalize h = done (c.hash_finalize h.state)

  pub new_lem : (key : Bytes) → length key ≡ 16 → new key ≡ done (record { state = c.hash_new key })
  unfolding new
  new_lem key h = ground arith

  pub update_lem :
      (s : Polyval) (block : Bytes)
      → length block ≡ 16
      → update s block ≡ done (record { state = c.hash_update s.state block })
  unfolding update
  update_lem s block h = ground arith
