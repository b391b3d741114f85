-- ===== src/Vnet/PortList.antt =====
-- What the UDP connection map (vnet/conn_map.go) and the TCP listener map (vnet/tcp_map.go) share:
-- the loops over the entries of one port, where an entry is anything with a local address.
pub mod Laws
use transport.Prelude.{
  ℕ, ◌≡◌, ◌≢◌, Bool, true, false, Option, none, some, List, [], ◌∷◌, ◌||◌, if◌then◌else◌,
}
use transport.Vnet.Addr.{Ip, Addr, ip_eq, is_unspecified}
use transport.Vnet.PortMap.{PortMap, lookup}

module _ {A : Type 0} (local_addr : A → Addr) where
  -- The test that the loops over a port's entries make: the entry is a wildcard, or has the address.
  unfoldable pub covers : A → Ip → Bool
  covers c ip = is_unspecified (local_addr c).ip || ip_eq (local_addr c).ip ip

  -- The loop of `insert`: does some entry of the port hold the address?
  unfoldable pub taken : Ip → List A → Bool
  taken ip [] = false
  taken ip (c ∷ cs) = covers c ip || taken ip cs

  -- The loop of `find`: the first entry that takes packets for the address.
  unfoldable pub first_covering : Ip → List A → Option A
  first_covering ip [] = none
  first_covering ip (c ∷ cs) = if covers c ip then some c else first_covering ip cs

  -- Neither of two entries is a wildcard, and they have different addresses.
  pub record AreApart (c d : A) : Type 0 where
    pub left : is_unspecified (local_addr c).ip ≡ false
    pub right : is_unspecified (local_addr d).ip ≡ false
    pub distinct : ip_eq (local_addr c).ip (local_addr d).ip ≡ false

  abbrev pub ApartFrom : A → List A → Type 0
  ApartFrom c [] = Unit
  ApartFrom c (d ∷ ds) = AreApart c d × ApartFrom c ds

  abbrev pub AllApart : List A → Type 0
  AllApart [] = Unit
  AllApart (c ∷ cs) = ApartFrom c cs × AllApart cs

  abbrev pub OnPort : ℕ → List A → Type 0
  OnPort p [] = Unit
  OnPort p (c ∷ cs) = ((local_addr c).port ≡ p) × OnPort p cs

  -- What the list kept under a port is like: never empty, of that port, and with no two entries
  -- that could take the same packet.
  pub record IsPortList (p : ℕ) (cs : List A) : Type 0 where
    pub nonempty : cs ≢ []
    pub on_port : OnPort p cs
    pub apart : AllApart cs

  abbrev pub IsValid : PortMap A → Type 0
  IsValid m = (p : ℕ) (cs : List A) → lookup p m ≡ some cs → IsPortList p cs
