-- ===== src/Ether.antt =====
-- The destination of IPv4 packets on Ethernet: the part of `_phtx_ether`
-- (pytcp/protocols/ether/phtx.py) for a carried IPv4 packet and no destination.
pub mod Laws
mod Tests
use py_tcp.Prelude.{
  ℕ, Option, none, some, List, [], ◌∷◌, Bool, true, false, not, ◌&&◌, ◌||◌, ◌==◌, if◌then◌else◌,
}
use py_tcp.Address.Ip4.{
  Ip4Host, contains, broadcast_address, is_multicast, is_limited_broadcast, multicast_mac,
}
use py_tcp.Ip4.Output.{
  TxStatus, dst_no_gateway_ip4, dst_arp_cache_fail, dst_gateway_arp_cache_fail, first_host,
}
use py_tcp.Arp.{ArpState, broadcast_mac, find_entry}

-- The packet is enqueued for a MAC address, or dropped with a status; `raised` is an assertion.
pub data EtherOut : Type 0 where
  enqueued : ℕ → EtherOut
  dropped : TxStatus → EtherOut
  raised : EtherOut

-- What a lookup in the ARP cache leads to.
abbrev pub on_lookup : TxStatus → Option ℕ × ArpState → EtherOut × ArpState
on_lookup status (none, s) = (dropped status, s)
on_lookup status (some mac, s) = (enqueued mac, s)

abbrev pub to_group : Option ℕ → EtherOut
to_group none = raised
to_group (some mac) = enqueued mac

-- The tests of the two loops over the hosts.
abbrev pub is_network_broadcast : ℕ → ℕ → Ip4Host → Bool
is_network_broadcast ip4_src ip4_dst host =
    host.address == ip4_src
    && (ip4_dst == host.network.address || ip4_dst == broadcast_address host.network)

abbrev pub is_external : ℕ → ℕ → Ip4Host → Bool
is_external ip4_src ip4_dst host = host.address == ip4_src && not (contains host.network ip4_dst)

abbrev pub to_gateway : Option ℕ → ArpState → EtherOut × ArpState
to_gateway none s = (dropped dst_no_gateway_ip4, s)
to_gateway (some gateway) s = on_lookup dst_gateway_arp_cache_fail (find_entry gateway s)

-- Behind the search for a host whose network the destination is outside of.
abbrev pub to_hop : ℕ → ArpState → Option Ip4Host → EtherOut × ArpState
to_hop ip4_dst s none = on_lookup dst_arp_cache_fail (find_entry ip4_dst s)
to_hop ip4_dst s (some host) = to_gateway host.gateway s

-- Behind the search for a host whose network has the destination as its own address or its broadcast.
abbrev pub to_network : List Ip4Host → ℕ → ℕ → ArpState → Option Ip4Host → EtherOut × ArpState
to_network hosts ip4_src ip4_dst s none =
    to_hop ip4_dst s (first_host (is_external ip4_src ip4_dst) hosts)
to_network hosts ip4_src ip4_dst s (some host) = (enqueued broadcast_mac, s)

unfoldable pub resolve_ip4 : List Ip4Host → ℕ → ℕ → ArpState → EtherOut × ArpState
resolve_ip4 hosts ip4_src ip4_dst s =
    if is_multicast ip4_dst
    then (to_group (multicast_mac ip4_dst), s)
    else if is_limited_broadcast ip4_dst
    then (enqueued broadcast_mac, s)
    else to_network hosts ip4_src ip4_dst s
        (first_host (is_network_broadcast ip4_src ip4_dst) hosts)
