-- ===== src/Ip6.antt =====
-- IPv6 packets in and out: `_phrx_ip6` (pytcp/protocols/ip6/phrx.py), `_defragment_ip6_packet`
-- (pytcp/protocols/ip6_ext_frag/phrx.py), `_validate_src_ip6_address`, `_validate_dst_ip6_address` and
-- `_phtx_ip6` (pytcp/protocols/ip6/phtx.py) and `_phtx_ip6_ext_frag`
-- (pytcp/protocols/ip6_ext_frag/phtx.py). The clock and its timeout are those of IPv4.
pub mod Output
pub mod Laws
mod Tests
use py_tcp.Prelude.{
  ℕ, zero, suc, ◌+◌, ◌-◌, ◌*◌, ◌/◌, ◌%◌, ◌^◌, Option, none, some, List, [], ◌∷◌, ◌++◌, map, Bool,
  true, false, not, ◌&&◌, ◌||◌, ◌==◌, leb, ltb, length, take, replicate, set, if◌then◌else◌,
}
use py_tcp.Wire.{set_word, Verdict, accepted, rejected, crashed, unfinished}
use py_tcp.Address.Ip6.{Ip6Host, ip6_contains}
use py_tcp.Ip4.{
  Fragment, Flow, FlowId, Flows, flow_id, put, cleanup, update_flow, covered, fill, sorted,
  Reassembly, waiting, reassembled, struct_error, cut,
}
use py_tcp.Ip4.Output.{member}
use py_tcp.Packet.Ip6.{
  Ip6Header, Ip6Packet, ip6_header_len, ip6_plen, ip6_asserts, ip6_pseudo_sum, parse_ip6,
  check_ip6_integrity, check_ip6_sanity,
}
use py_tcp.Packet.Ip6.Frag.{Ip6Frag, ip6_frag_header_len, is_carried_next, assemble_ip6_frag}

-- The header of the first fragment that came, with the length and the protocol of the whole packet.
unfoldable pub whole_ip6_header : List ℕ → ℕ → ℕ → Option (List ℕ)
whole_ip6_header header data_len next =
    if ltb data_len 0x1_0000 then some (set (set_word 4 data_len header) 6 next) else none

-- With the header written; the flow went before.
abbrev pub with_ip6_header : FlowId → Flows → List ℕ → Option (List ℕ) → Reassembly × Flows
with_ip6_header k flows bytes none = (struct_error, put k none flows)
with_ip6_header k flows bytes (some header) = (reassembled header bytes, put k none flows)

-- With the data put together.
abbrev pub with_ip6_data : FlowId → Flow → Flows → ℕ → ℕ → Option (List ℕ) → Reassembly × Flows
with_ip6_data k flow flows next data_len none = (struct_error, flows)
with_ip6_data k flow flows next data_len (some bytes) =
    with_ip6_header k flows bytes (whole_ip6_header flow.header data_len next)

-- With the length of the data, if there is no gap.
abbrev pub with_ip6_length : FlowId → Flow → Flows → ℕ → Option ℕ → Reassembly × Flows
with_ip6_length k flow flows next none = (waiting, flows)
with_ip6_length k flow flows next (some data_len) =
    with_ip6_data k flow flows next data_len (fill (sorted flow.pieces) (replicate data_len 0))

-- `_defragment_ip6_packet`; `next` is that of the fragment that comes.
unfoldable pub defragment_ip6 : ℕ → ℕ → Fragment → Flows → Reassembly × Flows
unfolding cleanup update_flow put whole_ip6_header covered fill sorted
defragment_ip6 now next f flows =
    let kept = cleanup now flows in
    let flow = update_flow now f (kept (flow_id f)) in
    let stored = put (flow_id f) (some flow) kept in
    if flow.last
    then with_ip6_length (flow_id f) flow stored next (covered 0 (sorted flow.pieces))
    else (waiting, stored)

-- What the functions read of the packet handler.
pub record Ip6Stack : Type 0 where
  pub ip6_host : List Ip6Host
  pub ip6_multicast : List ℕ

-- The property `ip6_unicast` of the packet handler.
abbrev pub ip6_address_of : Ip6Host → ℕ
ip6_address_of host = host.address

abbrev pub ip6_unicast : Ip6Stack → List ℕ
ip6_unicast s = map ip6_address_of s.ip6_host

-- Which handler gets a packet, with what the parser read; `raised` is an exception.
pub data Ip6Rx : Type 0 where
  failed_parse raised dst_unknown unhandled : Ip6Rx
  to_ext_frag to_icmp6 to_udp to_tcp : Ip6Packet → Ip6Rx

-- The choice by `next`.
abbrev pub ip6_handler : Ip6Packet → Ip6Rx
ip6_handler p =
    if p.header.next == 44
    then to_ext_frag p
    else if p.header.next == 58
    then to_icmp6 p
    else if p.header.next == 17
    then to_udp p
    else if p.header.next == 6
    then to_tcp p
    else unhandled

abbrev pub ip6_delivered : Ip6Stack → Ip6Packet → Ip6Rx
ip6_delivered s p =
    if not (member p.header.dst (ip6_unicast s ++ s.ip6_multicast))
    then dst_unknown
    else ip6_handler p

-- A packet that both checks accept goes on.
abbrev pub checked_ip6 : Ip6Stack → Option Ip6Packet → Ip6Rx
checked_ip6 s none = raised
checked_ip6 s (some p) = elim (check_ip6_sanity p) [
  | accepted ↦ ip6_delivered s p
  | rejected ↦ failed_parse
  | crashed ↦ raised
  | unfinished ↦ raised
]

-- `_phrx_ip6`
unfoldable pub phrx_ip6 : Ip6Stack → List ℕ → Ip6Rx
unfolding member parse_ip6 check_ip6_sanity
phrx_ip6 s frame = elim (check_ip6_integrity frame) [
  | accepted ↦ checked_ip6 s (parse_ip6 frame)
  | rejected ↦ failed_parse
  | crashed ↦ raised
  | unfinished ↦ raised
]
