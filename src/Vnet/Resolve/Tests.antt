-- ===== src/Vnet/Resolve/Tests.antt =====
-- A host on a router that was told one name.
use mathlib.Core.Bool.{true≢false}
use transport.Prelude.{◌≡◌, refl, sym, str_eq_iff, none, some, [], str_eq, if◌then◌else◌, inr}
use transport.Vnet.Addr.{Ip}
use transport.Vnet.Resolver.{Resolver, add_host, write_host, write_resolver}
use transport.Vnet.NetState.{Net}
use transport.Vnet.Net.{new_net, set_router}
use transport.Vnet.Resolve.{GoNet, resolve_udp_addr}
use transport.Vnet.Resolve.Laws.{resolve_udp_addr-add_host}

abbrev lib : GoNet
lib = record {
  parse_ip = λ s. if str_eq s "10.0.0.1" then some (Ip.v4 0x0a000001) else none;
  to_lower = λ s. s;
  split_host_port = λ s. if str_eq s "a:80" then some ("a", "80") else none;
  atoi = λ s. if str_eq s "80" then some 80 else none;
}

abbrev plain : Resolver
plain = record { parent = none; hosts = λ name. none }

abbrev host : Net
host = set_router (new_net lib.parse_ip []) 3

resolve_udp_addr-add_host_example :
    (ip : Ip) × (lib.parse_ip "10.0.0.1" ≡ some ip)
    × (resolve_udp_addr lib 1
          (write_resolver
            (λ p. plain)
            3
            (record plain { hosts = write_host plain.hosts "a" (Ip.v4 0x0a000001) }))
          host
          "udp"
          "a:80"
        ≡ some (inr (record { ip = ip; port = 80 })))
unfolding add_host
resolve_udp_addr-add_host_example =
    resolve_udp_addr-add_host lib 0 (λ p. plain) host 3 80 "a" "10.0.0.1" "a:80" "80"
      (record plain { hosts = write_host plain.hosts "a" (Ip.v4 0x0a000001) }) refl refl refl refl
      refl refl (λ e. true≢false (sym ((str_eq_iff "a" "localhost").1 e)))
