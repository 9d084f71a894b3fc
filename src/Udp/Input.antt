-- ===== src/Udp/Input.antt =====
-- `_phrx_udp` (pytcp/protocols/udp/phrx.py): a packet to the socket that it matches, or its answer.
use py_tcp.Prelude.{ℕ, Option, none, some, List, Bool, ◌&&◌, ◌==◌, if◌then◌else◌}
use py_tcp.Wire.{Verdict, accepted, rejected, crashed, unfinished}
use py_tcp.Packet.Udp.{UdpPacket, check_udp_integrity, parse_udp, check_udp_sanity}
use py_tcp.Packet.Icmp4.{Icmp4Args, unreachable_type, port_code}
use py_tcp.Udp.{
  AddressFamily, inet4, inet6, UdpMetadata, socket_patterns, SocketTable, match_socket, update,
  process_udp_packet,
}
use py_tcp.Udp.Output.{Tx, phtx_icmp4, phtx_udp}

-- What the handlers read of the IP packet: its family, its addresses, its whole frame, the length and the
-- pseudo header that it hands on, and what is left of the frame.
pub record IpPacket : Type 0 where
  pub family : AddressFamily
  pub src : ℕ
  pub dst : ℕ
  pub packet_copy : List ℕ
  pub dlen : ℕ
  pub pshdr_sum : ℕ
  pub frame : List ℕ

-- How a packet ends: not parsed, an exception, given to a socket, dropped, answered, of no concern, or
-- answered by ICMPv6 from the destination to the source with the packet.
pub data Rx : Type 0 where
  failed_parse rx_raised dropped ignored : Rx
  delivered : ℕ → Rx
  answered : Tx → Rx
  answered_by_icmp6 : ℕ → ℕ → List ℕ → Rx

-- `if socket: ...; return`
abbrev pub to_socket :
    Option ℕ → Rx → (ℕ → SocketTable → SocketTable) → SocketTable → Rx × SocketTable
to_socket none otherwise change t = (otherwise, t)
to_socket (some h) otherwise change t = (delivered h, change h t)

abbrev pub metadata_of : IpPacket → UdpPacket → UdpMetadata
metadata_of ip p = record {
  family = ip.family;
  local_ip_address = ip.dst;
  local_port = p.dport;
  remote_ip_address = ip.src;
  remote_port = p.sport;
  payload = p.payload;
}

-- The message about an unreachable port.
abbrev pub port_unreachable : List ℕ → Icmp4Args
port_unreachable body = record {
  type = unreachable_type;
  code = port_code;
  ec_id = none;
  ec_seq = none;
  ec_data = none;
  un_data = some body;
}

-- The end of `_phrx_udp`, where no socket matches; `echo` is `not config.UDP_ECHO_NATIVE_DISABLE`.
abbrev pub no_socket : Bool → IpPacket → UdpPacket → Rx
no_socket echo ip p =
    if ip.src == 0
    then dropped
    else if echo && p.dport == 7
    then answered (phtx_udp ip.family ip.family ip.dst ip.src p)
    else elim ip.family [
      | inet6 ↦ answered_by_icmp6 ip.dst ip.src ip.packet_copy
      | inet4 ↦ answered (phtx_icmp4 ip.dst ip.src (port_unreachable ip.packet_copy))
    ]

-- With the packet that the parser read.
abbrev pub sane_udp : Bool → IpPacket → UdpPacket → Verdict → SocketTable → Rx × SocketTable
sane_udp echo ip p accepted t =
    to_socket (match_socket (socket_patterns (metadata_of ip p)) t.sockets) (no_socket echo ip p)
      (λ h. update h (process_udp_packet (metadata_of ip p))) t
sane_udp echo ip p rejected t = (failed_parse, t)
sane_udp echo ip p crashed t = (rx_raised, t)
sane_udp echo ip p unfinished t = (rx_raised, t)

abbrev pub parsed_udp : Bool → IpPacket → Option UdpPacket → SocketTable → Rx × SocketTable
parsed_udp echo ip none t = (rx_raised, t)
parsed_udp echo ip (some p) t = sane_udp echo ip p (check_udp_sanity p) t

abbrev pub checked_udp : Bool → IpPacket → Verdict → SocketTable → Rx × SocketTable
checked_udp echo ip accepted t = parsed_udp echo ip (parse_udp ip.frame) t
checked_udp echo ip rejected t = (failed_parse, t)
checked_udp echo ip crashed t = (rx_raised, t)
checked_udp echo ip unfinished t = (rx_raised, t)

-- `_phrx_udp`
unfoldable pub phrx_udp : Bool → IpPacket → SocketTable → Rx × SocketTable
phrx_udp echo ip t = checked_udp echo ip (check_udp_integrity ip.dlen ip.pshdr_sum ip.frame) t
