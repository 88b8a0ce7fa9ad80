-- ===== src/Address.antt =====
-- rust/protocol/src/address.rs
use libsignal_client.Common.{ℕ, String, ◌≡◌, ap, ◌↔◌, Bool, true, ◌&&◌, ◌==◌, arith}
use libsignal_client.Common.Assoc.{Eq, string_eq, nat_eq}

pub record ProtocolAddress : Type 0 where
  pub name : String
  pub device_id : ℕ

unfoldable pub address_eq : ProtocolAddress → ProtocolAddress → Bool
address_eq a b = string_eq.beq a.name b.name && a.device_id == b.device_id

pub address_eq_iff : (a b : ProtocolAddress) → (address_eq a b ≡ true) ↔ (a ≡ b)
unfolding address_eq
address_eq_iff a b = (
  (λ h. ground (arith, string_eq.beq_iff a.name b.name)),
  (λ h. ground (
    arith,
    string_eq.beq_iff a.name b.name,
    ap (λ (c : ProtocolAddress). c.name) h,
    ap (λ (c : ProtocolAddress). c.device_id) h,
  )),
)

instance abbrev pub address_eq_instance : Eq ProtocolAddress
address_eq_instance = record { beq = address_eq; beq_iff = address_eq_iff }
