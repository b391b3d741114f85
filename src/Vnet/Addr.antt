-- ===== src/Vnet/Addr.antt =====
-- The addresses that package vnet uses: net.IP, net.UDPAddr and net.TCPAddr of Go's library.
-- An address is kept in the form that `IP.Equal` compares: a 4-byte address and its 16-byte form
-- are one value, `v4`. `v6` holds the other 16-byte addresses, as one number.
use transport.Prelude.{ℕ, ◌≡◌, ◌↔◌, Bool, true, false, ◌==◌, arith}

pub data Ip : Type 0 where
  v4 : ℕ → Ip
  v6 : ℕ → Ip

-- `a.Equal(b)`
unfoldable pub ip_eq : Ip → Ip → Bool
ip_eq (Ip.v4 a) (Ip.v4 b) = a == b
ip_eq (Ip.v6 a) (Ip.v6 b) = a == b
ip_eq (Ip.v4 a) (Ip.v6 b) = false
ip_eq (Ip.v6 a) (Ip.v4 b) = false

-- `a.IsUnspecified()`: 0.0.0.0 or ::
unfoldable pub is_unspecified : Ip → Bool
is_unspecified (Ip.v4 a) = a == 0
is_unspecified (Ip.v6 a) = a == 0

-- A `net.UDPAddr` or a `net.TCPAddr`; the zone is not used.
pub record Addr : Type 0 where
  pub ip : Ip
  pub port : ℕ

pub ip_eq_iff : (a b : Ip) → (ip_eq a b ≡ true) ↔ (a ≡ b)
unfolding ip_eq
ip_eq_iff (Ip.v4 a) (Ip.v4 b) = ground arith
ip_eq_iff (Ip.v6 a) (Ip.v6 b) = ground arith
ip_eq_iff (Ip.v4 a) (Ip.v6 b) = ground arith
ip_eq_iff (Ip.v6 a) (Ip.v4 b) = ground arith

pub ip_eq_refl : (a : Ip) → ip_eq a a ≡ true
unfolding ip_eq
ip_eq_refl (Ip.v4 a) = ground arith
ip_eq_refl (Ip.v6 a) = ground arith

pub ip_eq_comm : (a b : Ip) → ip_eq a b ≡ ip_eq b a
unfolding ip_eq
ip_eq_comm (Ip.v4 a) (Ip.v4 b) = ground arith
ip_eq_comm (Ip.v6 a) (Ip.v6 b) = ground arith
ip_eq_comm _ _ = ground arith
