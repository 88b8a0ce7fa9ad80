-- ===== src/Examples/Orders.antt =====
-- The comparison of byte strings and of keys at inputs.
use Prim.Native.Nat.{Ordering}
use libsignal_client.Common.{◌≡◌, ◌↔◌, [], ◌∷◌, replicate, arith}
use libsignal_client.Curve.PublicKey.{PublicKey}
use libsignal_client.Curve.Order.{cmp, flip, cmp_order}
use libsignal_client.Utils.{constant_time_cmp}
use libsignal_client.Utils.Lexicographic.{shortlex, constant_time_cmp-shortlex}

constant_time_cmp-shortlex_example :
    constant_time_cmp (7 ∷ 200 ∷ 9 ∷ []) (7 ∷ 31 ∷ 250 ∷ [])
    ≡ shortlex (7 ∷ 200 ∷ 9 ∷ []) (7 ∷ 31 ∷ 250 ∷ [])
constant_time_cmp-shortlex_example =
    constant_time_cmp-shortlex (7 ∷ 200 ∷ 9 ∷ []) (7 ∷ 31 ∷ 250 ∷ []) (omega arith) (omega arith)

abbrev low : PublicKey
unfolding replicate
low = record { key = replicate 32 1 }

abbrev middle : PublicKey
unfolding replicate
middle = record { key = 1 ∷ replicate 31 2 }

abbrev high : PublicKey
unfolding replicate
high = record { key = replicate 32 3 }

cmp_order_example :
    ((cmp low middle ≡ Ordering.eq) ↔ (low ≡ middle))
    × (cmp middle low ≡ flip (cmp low middle))
    × (cmp low middle ≡ Ordering.lt → cmp middle high ≡ Ordering.lt → cmp low high ≡ Ordering.lt)
unfolding low middle high replicate
cmp_order_example = cmp_order low middle high (omega arith) (omega arith) (omega arith)
