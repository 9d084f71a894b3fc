-- ===== src/Ether/Tests.antt =====
-- The next hop at a concrete stack.
use py_tcp.Prelude.{◌≡◌, refl, List, [], ◌∷◌, false}
use py_tcp.Address.Ip4.{Ip4Host, new_ip4_host, is_multicast}
use py_tcp.Arp.{ArpState}
use py_tcp.Ether.{resolve_ip4}
use py_tcp.Ether.Laws.{Resolves, resolve_ip4-Resolves}

abbrev hosts : List Ip4Host
hosts = new_ip4_host 0x0a00_0001 0xffff_ff00 ∷ []

abbrev silent : ArpState
silent = record {
  mac_unicast = 2;
  ip4_unicast = 0x0a00_0001 ∷ [];
  ip4_host_candidate = [];
  handler_conflicts = [];
  stack_conflicts = [];
  arp_cache = [];
  sent = [];
}

neighbour : is_multicast 0x0a00_0007 ≡ false
unfolding is_multicast
neighbour = refl

resolve_ip4-Resolves_example :
    Resolves hosts 0x0a00_0001 0x0a00_0007 silent (resolve_ip4 hosts 0x0a00_0001 0x0a00_0007 silent)
resolve_ip4-Resolves_example = resolve_ip4-Resolves hosts 0x0a00_0001 0x0a00_0007 silent neighbour
