-- ===== src/Ip4/Output.antt =====
-- The choice of the source address and the sending of IPv4 packets: `_validate_src_ip4_address`,
-- `_validate_dst_ip4_address` and `_phtx_ip4` of pytcp/protocols/ip4/phtx.py.
pub mod Source
pub mod Laws
pub mod Numbers
mod Tests
use py_tcp.Prelude.{
  ℕ, ◌+◌, ◌-◌, ◌≤◌, Option, none, some, List, [], ◌∷◌, ◌++◌, map, Bool, true, false, not, ◌&&◌,
  ◌||◌, ◌==◌, leb, length, if◌then◌else◌, ltb,
}
use py_tcp.Address.Ip4.{Ip4Host, broadcast_address, contains, is_limited_broadcast, is_unspecified}
use py_tcp.Ip4.{cut, data_mtu}
use py_tcp.Wire.{◌>>=◌}
use py_tcp.Packet.Ip4.{Ip4Header, header_asserts, ip4_plen, is_known_proto, pseudo_sum}

-- What the functions read of the packet handler.
pub record Ip4Stack : Type 0 where
  pub ip4_host : List Ip4Host
  pub ip4_multicast : List ℕ

-- The properties `ip4_unicast` and `ip4_broadcast` of the packet handler.
abbrev pub address_of : Ip4Host → ℕ
address_of host = host.address

abbrev pub ip4_unicast : Ip4Stack → List ℕ
ip4_unicast s = map address_of s.ip4_host

abbrev pub ip4_broadcast : Ip4Stack → List ℕ
ip4_broadcast s = map (λ host. broadcast_address host.network) s.ip4_host ++ (0xffff_ffff ∷ [])

-- The statuses that sending ends with. Those without a protocol's name are of Ethernet (`dst_...`) and of
-- IPv4.
pub data TxStatus : Type 0 where
  passed_to_tx_ring : TxStatus
  dst_arp_cache_fail dst_nd_cache_fail dst_no_gateway_ip4 dst_no_gateway_ip6 : TxStatus
  dst_gateway_arp_cache_fail dst_gateway_nd_cache_fail dst_resolution_fail : TxStatus
  arp_no_protocol_support : TxStatus
  no_protocol_support src_not_owned src_multicast src_limited_broadcast : TxStatus
  src_network_broadcast src_unspecified dst_unspecified ip4_unknown : TxStatus
  ip6_no_protocol_support ip6_src_not_owned ip6_src_multicast : TxStatus
  ip6_src_limited_broadcast ip6_src_network_broadcast ip6_src_unspecified : TxStatus
  ip6_dst_unspecified ip6_unknown ip6_ext_frag_unknown : TxStatus
  udp_unknown tcp_unknown icmp4_unknown icmp6_unknown : TxStatus

-- The counters under `packet_stats_tx` that the choice of the source counts up.
pub data SrcCount : Type 0 where
  not_owned_drop multicast_replace multicast_drop : SrcCount
  limited_broadcast_replace limited_broadcast_drop network_broadcast_replace : SrcCount
  unspecified_replace_local unspecified_replace_external : SrcCount
  unspecified_send unspecified_drop : SrcCount

-- An address, or a status for a packet that is dropped, and the counter.
pub data Src : Type 0 where
  unchanged : ℕ → Src
  chosen : SrcCount → ℕ → Src
  dropped : SrcCount → TxStatus → Src

unfoldable pub member : ℕ → List ℕ → Bool
member a [] = false
member a (b ∷ bs) = a == b || member a bs

-- The first address of the stack, if it has one.
abbrev pub primary : List Ip4Host → SrcCount → SrcCount → TxStatus → Src
primary [] replace drop status = dropped drop status
primary (host ∷ hosts) replace drop status = chosen replace host.address

-- The first host that a test holds of.
unfoldable pub first_host : (Ip4Host → Bool) → List Ip4Host → Option Ip4Host
first_host p [] = none
first_host p (host ∷ hosts) = if p host then some host else first_host p hosts

abbrev has_gateway : Ip4Host → Bool
has_gateway host = elim host.gateway [ none ↦ false | some g ↦ true ]

-- The steps that replace the address by that of a host, or go on.
abbrev pub or_go_on : Option Ip4Host → SrcCount → Src → Src
or_go_on none count rest = rest
or_go_on (some host) count rest = chosen count host.address

-- The last steps: a packet of the DHCP client may go out from 0.0.0.0.
abbrev pub unspecified_src : ℕ → Bool → Src
unspecified_src src is_dhcp =
    if is_dhcp then chosen unspecified_send src else dropped unspecified_drop src_unspecified

-- The choice for an unspecified source.
unfoldable pub pick_src : Ip4Stack → ℕ → ℕ → Bool → Src
pick_src s src dst is_dhcp =
    or_go_on (first_host (λ host. contains host.network dst) s.ip4_host) unspecified_replace_local (
      or_go_on (first_host has_gateway s.ip4_host) unspecified_replace_external
        (unspecified_src src is_dhcp))

-- Behind the tests for a network broadcast.
abbrev pub unspecified_or_src : Ip4Stack → ℕ → ℕ → Bool → Src
unspecified_or_src s src dst is_dhcp =
    if is_unspecified src then pick_src s src dst is_dhcp else unchanged src

-- `_validate_src_ip4_address`; `is_dhcp` tells of the carried packet that it is of UDP, from port 68
-- to 67.
unfoldable pub validate_src_ip4_address : Ip4Stack → ℕ → ℕ → Bool → Src
unfolding member first_host pick_src
validate_src_ip4_address s src dst is_dhcp =
    if not (member src (ip4_unicast s ++ (s.ip4_multicast ++ (ip4_broadcast s ++ (0 ∷ [])))))
    then dropped not_owned_drop src_not_owned
    else if member src s.ip4_multicast
    then primary s.ip4_host multicast_replace multicast_drop src_multicast
    else if is_limited_broadcast src
    then primary s.ip4_host limited_broadcast_replace limited_broadcast_drop src_limited_broadcast
    else if member src (ip4_broadcast s)
    then or_go_on (first_host (λ host. broadcast_address host.network == src) s.ip4_host)
        network_broadcast_replace (unspecified_or_src s src dst is_dhcp)
    else unspecified_or_src s src dst is_dhcp

-- `_validate_dst_ip4_address`
unfoldable pub validate_dst_ip4_address : ℕ → Option ℕ
validate_dst_ip4_address dst = if is_unspecified dst then none else some dst

-- A packet that is carried: its `ip4_proto`, its length, whether the DHCP client sends it, and what it
-- is assembled to for the sum of a pseudo header.
pub record Carried : Type 0 where
  pub proto : ℕ
  pub len : ℕ
  pub is_dhcp : Bool
  pub assemble : ℕ → Option (List ℕ)

-- What is handed to `_phtx_ether`: a packet around a carried one of some length, or a fragment.
pub data Ip4Tx : Type 0 where
  whole : Ip4Header → ℕ → Ip4Tx
  fragment : Ip4Header → List ℕ → Ip4Tx

-- `len(ip4_packet_tx)`
abbrev pub tx_len : Ip4Tx → ℕ
tx_len (whole h dlen) = ip4_plen h dlen
tx_len (fragment h payload) = ip4_plen h (length payload)

-- An exception, or a status with what has been handed on; and `self.ip4_id` afterwards.
pub data Ip4Out : Type 0 where
  raised : ℕ → Ip4Out
  returned : TxStatus → List Ip4Tx → ℕ → Ip4Out

-- The header without options that both assemblers are given.
abbrev pub tx_header : ℕ → ℕ → ℕ → ℕ → ℕ → Ip4Header
tx_header src dst ttl id proto = record {
  src = src;
  dst = dst;
  ttl = ttl;
  dscp = 0;
  ecn = 0;
  id = id;
  flag_df = false;
  flag_mf = false;
  offset = 0;
  proto = proto;
  options = [];
}

-- The fragment of a piece of the data.
abbrev pub fragment_tx : Ip4Header → ℕ × (List ℕ × Bool) → Ip4Tx
fragment_tx h piece = fragment (record h { offset = piece.0; flag_mf = piece.1.1 }) piece.1.0

unfoldable pub has_status : (TxStatus → Bool) → List TxStatus → Bool
has_status p [] = false
has_status p (t ∷ ts) = p t || has_status p ts

abbrev pub is_resolution_fail : TxStatus → Bool
is_resolution_fail dst_resolution_fail = true
is_resolution_fail _ = false

abbrev pub is_no_gateway : TxStatus → Bool
is_no_gateway dst_no_gateway_ip4 = true
is_no_gateway _ = false

abbrev pub is_arp_fail : TxStatus → Bool
is_arp_fail dst_arp_cache_fail = true
is_arp_fail _ = false

abbrev pub is_gateway_arp_fail : TxStatus → Bool
is_gateway_arp_fail dst_gateway_arp_cache_fail = true
is_gateway_arp_fail _ = false

abbrev pub is_passed : TxStatus → Bool
is_passed passed_to_tx_ring = true
is_passed _ = false

-- "Return the most severe code"
unfoldable pub most_severe : List TxStatus → TxStatus
unfolding has_status
most_severe ts =
    if has_status is_resolution_fail ts
    then dst_resolution_fail
    else if has_status is_no_gateway ts
    then dst_no_gateway_ip4
    else if has_status is_arp_fail ts
    then dst_arp_cache_fail
    else if has_status is_gateway_arp_fail ts
    then dst_gateway_arp_cache_fail
    else if has_status is_passed ts
    then passed_to_tx_ring
    else ip4_unknown

-- `Ip4FragAssembler` for a piece of the data; `none` is an assertion.
abbrev pub new_fragment : Ip4Header → ℕ × (List ℕ × Bool) → Option Ip4Tx
new_fragment h piece = if header_asserts h then some (fragment_tx h piece) else none

-- The loop over the pieces. The fragments differ in nothing that the assertions test, so that where one
-- raises the first does, and none goes out.
unfoldable pub new_fragments : Ip4Header → List (ℕ × (List ℕ × Bool)) → Option (List Ip4Tx)
new_fragments h [] = some []
new_fragments h (piece ∷ pieces) = do
  tx ← new_fragment h piece
  txs ← new_fragments h pieces
  some (tx ∷ txs)

abbrev pub fragments_sent : ℕ → (Ip4Tx → TxStatus) → Option (List Ip4Tx) → Ip4Out
fragments_sent id ether none = raised id
fragments_sent id ether (some txs) = returned (most_severe (map ether txs)) txs id

-- The fragments of the assembled data go out under the next identification; `range` raises for a step
-- of zero.
abbrev pub send_fragments : ℕ → ℕ → Ip4Header → (Ip4Tx → TxStatus) → Option (List ℕ) → Ip4Out
send_fragments mtu id h ether none = raised id
send_fragments mtu id h ether (some payload) =
    if data_mtu mtu == 0
    then raised id
    else fragments_sent (id + 1) ether
        (new_fragments (record h { id = id + 1 }) (cut (length payload) (data_mtu mtu) 0 payload))

-- The part of `_phtx_ip4` behind the choice of the addresses; the assembler asserts that it knows the
-- protocol.
abbrev pub send_ip4 : ℕ → ℕ → Ip4Header → Carried → (Ip4Tx → TxStatus) → Ip4Out
send_ip4 mtu id h carried ether =
    if not (is_known_proto h.proto)
    then raised id
    else if leb (ip4_plen h carried.len) mtu
    then returned (ether (whole h carried.len)) (whole h carried.len ∷ []) id
    else send_fragments mtu id h ether
        (carried.assemble (pseudo_sum h.src h.dst h.proto carried.len))

-- Behind the check of the destination.
abbrev pub send_checked : ℕ → ℕ → ℕ → ℕ → Carried → (Ip4Tx → TxStatus) → Option ℕ → Ip4Out
send_checked mtu id src ttl carried ether none = returned dst_unspecified [] id
send_checked mtu id src ttl carried ether (some dst) =
    send_ip4 mtu id (tx_header src dst ttl 0 carried.proto) carried ether

abbrev pub send_to : ℕ → ℕ → ℕ → ℕ → ℕ → Carried → (Ip4Tx → TxStatus) → Ip4Out
send_to mtu id src dst ttl carried ether =
    send_checked mtu id src ttl carried ether (validate_dst_ip4_address dst)

-- Behind the choice of the source.
abbrev pub send_chosen : ℕ → ℕ → ℕ → ℕ → Carried → (Ip4Tx → TxStatus) → Src → Ip4Out
send_chosen mtu id dst ttl carried ether (unchanged src) = send_to mtu id src dst ttl carried ether
send_chosen mtu id dst ttl carried ether (chosen count src) =
    send_to mtu id src dst ttl carried ether
send_chosen mtu id dst ttl carried ether (dropped count status) = returned status [] id

-- `_phtx_ip4`, with `config.IP4_SUPPORT` set, as it is by default.
unfoldable pub phtx_ip4 : ℕ → Ip4Stack → ℕ → ℕ → ℕ → ℕ → Carried → (Ip4Tx → TxStatus) → Ip4Out
unfolding validate_src_ip4_address validate_dst_ip4_address most_severe cut new_fragments
phtx_ip4 mtu s id src dst ttl carried ether =
    if not (ltb 0 ttl && ltb ttl 256)
    then raised id
    else send_chosen mtu id dst ttl carried ether
        (validate_src_ip4_address s src dst carried.is_dhcp)

-- `pick_local_ip4_address` of pytcp/lib/ip_helper.py, for sockets that are bound to no address.
unfoldable pub pick_local_ip4_address : Ip4Stack → ℕ → ℕ
unfolding first_host
pick_local_ip4_address s remote_ip4_address =
    elim (first_host (λ host. contains host.network remote_ip4_address) s.ip4_host) [
      | some host ↦ host.address
      | none ↦ elim (first_host has_gateway s.ip4_host) [ some host ↦ host.address | none ↦ 0 ]
    ]
