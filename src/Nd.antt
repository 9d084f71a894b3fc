-- ===== src/Nd.antt =====
-- The cache of IPv6 neighbours, pytcp/subsystems/nd_cache.py, and the destination of IPv6 packets on
-- Ethernet: the part of `_phtx_ether` (pytcp/protocols/ether/phtx.py) for a carried IPv6 packet and
-- no destination.
pub mod Laws
use py_tcp.Prelude.{
  ℕ, ◌+◌, ◌-◌, ◌*◌, Option, none, some, List, [], ◌∷◌, Bool, true, false, not, ◌&&◌, ◌==◌, ltb,
  if◌then◌else◌,
}
use py_tcp.Dict.{Dict, get?, insert, remove}
use py_tcp.Arp.{CacheEntry, new_entry, hit}
use py_tcp.Address.Ip6.{
  Ip6Host, ip6_contains, is_ip6_multicast, ip6_multicast_mac, solicited_node_multicast,
}
use py_tcp.Ip4.Output.{TxStatus, dst_no_gateway_ip6, dst_nd_cache_fail, dst_gateway_nd_cache_fail}
use py_tcp.Ip6.Output.{first_ip6_host}
use py_tcp.Ether.{EtherOut, enqueued, dropped, to_group}

-- A neighbour solicitation as it is handed to `_phtx_icmp6`.
pub record Solicitation : Type 0 where
  pub ip6_src : ℕ
  pub ip6_dst : ℕ
  pub ns_target_address : ℕ
  pub slla : ℕ

-- What the functions read and change: the hosts and the MAC address of the packet handler, the cache, and the
-- solicitations that were sent.
pub record NdState : Type 0 where
  pub ip6_host : List Ip6Host
  pub mac_unicast : ℕ
  pub nd_cache : Dict CacheEntry
  pub sent : List Solicitation

-- The loop over the hosts, which keeps the last one whose network has the target.
unfoldable pub solicitation_src : ℕ → List Ip6Host → ℕ → ℕ
solicitation_src target [] src = src
solicitation_src target (host ∷ hosts) src =
    solicitation_src target hosts (if ip6_contains host.network target then host.address else src)

-- `_send_icmp6_neighbor_solicitation`
unfoldable pub send_neighbor_solicitation : ℕ → NdState → NdState
unfolding solicitation_src
send_neighbor_solicitation target s = record s {
  sent =
      record {
        ip6_src = solicitation_src target s.ip6_host 0;
        ip6_dst = solicited_node_multicast target;
        ns_target_address = target;
        slla = s.mac_unicast;
      }
      ∷ s.sent;
}

-- `add_entry`
unfoldable pub add_nd_entry : ℕ → ℕ → ℕ → NdState → NdState
add_nd_entry now ip6_address mac_address s = record s {
  nd_cache = insert ip6_address (new_entry now mac_address) s.nd_cache;
}

-- `find_entry`: the address, if there is one, and the state after the lookup.
abbrev pub found_nd_entry : ℕ → NdState → Option CacheEntry → Option ℕ × NdState
found_nd_entry ip6_address s none = (none, send_neighbor_solicitation ip6_address s)
found_nd_entry ip6_address s (some e) =
    (some e.mac_address, record s { nd_cache = insert ip6_address (hit e) s.nd_cache })

unfoldable pub find_nd_entry : ℕ → NdState → Option ℕ × NdState
find_nd_entry ip6_address s = found_nd_entry ip6_address s (get? ip6_address s.nd_cache)

-- One entry in a round of `__thread_maintain_cache`; the times are in units of the clock.
abbrev pub maintain_nd_entry : ℕ → ℕ → ℕ → ℕ × CacheEntry → NdState → NdState
maintain_nd_entry max_age refresh_time now (ip6_address, e) s =
    if e.permanent
    then s
    else if ltb max_age (now - e.creation_time)
    then record s { nd_cache = remove ip6_address s.nd_cache }
    else if ltb (max_age - refresh_time) (now - e.creation_time) && not (e.hit_count == 0)
    then send_neighbor_solicitation ip6_address
        (record s { nd_cache = insert ip6_address (record e { hit_count = 0 }) s.nd_cache })
    else s

-- A round of `__thread_maintain_cache` over the entries that the cache had at its start.
unfoldable pub maintain_nd_cache : ℕ → ℕ → ℕ → Dict CacheEntry → NdState → NdState
unfolding send_neighbor_solicitation
maintain_nd_cache max_age refresh_time now [] s = s
maintain_nd_cache max_age refresh_time now (e ∷ es) s =
    maintain_nd_cache max_age refresh_time now es (maintain_nd_entry max_age refresh_time now e s)

-- What a lookup in the cache leads to.
abbrev pub on_nd_lookup : TxStatus → Option ℕ × NdState → EtherOut × NdState
on_nd_lookup status (none, s) = (dropped status, s)
on_nd_lookup status (some mac, s) = (enqueued mac, s)

abbrev pub is_ip6_external : ℕ → ℕ → Ip6Host → Bool
is_ip6_external ip6_src ip6_dst host =
    host.address == ip6_src && not (ip6_contains host.network ip6_dst)

abbrev pub to_ip6_gateway : Option ℕ → NdState → EtherOut × NdState
to_ip6_gateway none s = (dropped dst_no_gateway_ip6, s)
to_ip6_gateway (some gateway) s = on_nd_lookup dst_gateway_nd_cache_fail (find_nd_entry gateway s)

-- Behind the search for a host whose network the destination is outside of.
abbrev pub to_ip6_hop : ℕ → NdState → Option Ip6Host → EtherOut × NdState
to_ip6_hop ip6_dst s none = on_nd_lookup dst_nd_cache_fail (find_nd_entry ip6_dst s)
to_ip6_hop ip6_dst s (some host) = to_ip6_gateway host.gateway s

unfoldable pub resolve_ip6 : ℕ → ℕ → NdState → EtherOut × NdState
resolve_ip6 ip6_src ip6_dst s =
    if is_ip6_multicast ip6_dst
    then (to_group (ip6_multicast_mac ip6_dst), s)
    else to_ip6_hop ip6_dst s (first_ip6_host (is_ip6_external ip6_src ip6_dst) s.ip6_host)
