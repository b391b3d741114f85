-- ===== src/Vnet/PortList/Laws.antt =====
-- How the lists of one port and the map of all ports keep their invariant, and what the two loops
-- over a list have to do with one another.
use mathlib.Core.Path.{subst₂}
use transport.Prelude.{
  ℕ, ◌≡◌, ◌≢◌, ◌↔◌, false, none, some, List, [], ◌∷◌, ◌++◌, arith, Bool-cases, some-inj,
  none-ne-some, inl, inr, ◌==◌,
}
use transport.Vnet.Addr.{Ip, Addr, is_unspecified, ip_eq_refl}
use transport.Vnet.PortMap.{PortMap, lookup, insert as put, erase, lookup-insert, lookup-erase}
use transport.Vnet.PortList.{
  covers, taken, first_covering, ApartFrom, AllApart, OnPort, IsPortList, IsValid,
}

module _ {A : Type 0} (local_addr : A → Addr) where
  pub append-ne-nil : (cs : List A) (c : A) → cs ++ (c ∷ []) ≢ []
  append-ne-nil [] c = λ e. cc
  append-ne-nil (d ∷ cs) c = λ e. cc

  pub OnPort-append :
      (p : ℕ) (cs : List A) (c : A)
      → OnPort local_addr p cs
      → (local_addr c).port ≡ p
      → OnPort local_addr p (cs ++ (c ∷ []))
  OnPort-append p [] c h e = (e, tt)
  OnPort-append p (d ∷ cs) c h e = (h.0, OnPort-append p cs c h.1 e)

  module _ (c : A) (specified : is_unspecified (local_addr c).ip ≡ false) where
    pub ApartFrom-append :
        (d : A) (cs : List A)
        → ApartFrom local_addr d cs
        → covers local_addr d (local_addr c).ip ≡ false
        → ApartFrom local_addr d (cs ++ (c ∷ []))
    unfolding covers
    ApartFrom-append d [] h e =
        (record { left = ground arith; right = specified; distinct = ground arith }, tt)
    ApartFrom-append d (x ∷ cs) h e = (h.0, ApartFrom-append d cs h.1 e)

    pub AllApart-append :
        (cs : List A)
        → AllApart local_addr cs
        → taken local_addr (local_addr c).ip cs ≡ false
        → AllApart local_addr (cs ++ (c ∷ []))
    unfolding taken
    AllApart-append [] h e = (tt, tt)
    AllApart-append (d ∷ cs) h e =
        (ApartFrom-append d cs h.0 (ground arith), AllApart-append cs h.1 (ground arith))

  pub put-IsValid :
      (k : ℕ) (v : List A) (m : PortMap A)
      → IsPortList local_addr k v
      → IsValid local_addr m
      → IsValid local_addr (put k v m)
  put-IsValid k v m hv h p cs e = elim (Bool-cases (k == p)) [
    | inl same ↦
        let found : some v ≡ some cs = rw (lookup-insert k p v m, same) at e in
        let here : k ≡ p = ground arith in subst₂ (IsPortList local_addr) here (some-inj found) hv
    | inr other ↦ h p cs (rw (lookup-insert k p v m, other) at e)
  ]

  -- The map of a new host.
  pub empty-IsValid : IsValid local_addr []
  unfolding lookup
  empty-IsValid p cs e = absurd (none-ne-some e)

  pub erase-IsValid :
      (k : ℕ) (m : PortMap A) → IsValid local_addr m → IsValid local_addr (erase k m)
  erase-IsValid k m h p cs e = elim (Bool-cases (k == p)) [
    | inl same ↦ absurd (none-ne-some (rw (lookup-erase k p m, same) at e))
    | inr other ↦ h p cs (rw (lookup-erase k p m, other) at e)
  ]

  pub first_covering-taken :
      (ip : Ip) (cs : List A)
      → (taken local_addr ip cs ≡ false) ↔ (first_covering local_addr ip cs ≡ none)
  unfolding taken first_covering
  first_covering-taken ip [] = ground arith
  first_covering-taken ip (c ∷ cs) = ground (arith, first_covering-taken ip cs)

  pub first_covering-append :
      (c : A) (cs : List A)
      → taken local_addr (local_addr c).ip cs ≡ false
      → first_covering local_addr (local_addr c).ip (cs ++ (c ∷ [])) ≡ some c
  unfolding taken first_covering covers
  first_covering-append c [] e = ground (arith, ip_eq_refl (local_addr c).ip)
  first_covering-append c (d ∷ cs) e = ground (arith, first_covering-append c cs)
