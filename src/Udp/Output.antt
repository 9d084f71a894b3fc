-- ===== src/Udp/Output.antt =====
-- `_phtx_udp` (pytcp/protocols/udp/phtx.py) and `_phtx_icmp4` (pytcp/protocols/icmp4/phtx.py). What goes
-- out is what is handed to `_phtx_ip4` or `_phtx_ip6`.
use py_tcp.Prelude.{ℕ, Option, none, some, false, ◌&&◌, ◌||◌, ◌==◌, leb, if◌then◌else◌}
use py_tcp.Ip4.Output.{Carried}
use py_tcp.Ip6.Output.{Carried6}
use py_tcp.Packet.Udp.{UdpPacket, udp_len, assemble_udp}
use py_tcp.Packet.Icmp4.{
  Icmp4Args, Icmp4Message, new_icmp4, icmp4_len, assemble_icmp4, echo_reply_type, unreachable_type,
  port_code, echo_request_type,
}
use py_tcp.Udp.{AddressFamily, inet4, inet6}

-- What is handed on: source, destination and packet; or an exception, or a packet that is dropped as
-- unknown.
pub data Tx : Type 0 where
  to_ip4 : ℕ → ℕ → Carried → Tx
  to_ip6 : ℕ → ℕ → Carried6 → Tx
  tx_raised tx_unknown : Tx

-- The assembled UDP packet, for each protocol below it.
abbrev pub carried_udp : UdpPacket → Carried
carried_udp p = record {
  proto = 17;
  len = udp_len p;
  is_dhcp = p.sport == 68 && p.dport == 67;
  assemble = assemble_udp p;
}

abbrev pub carried_udp6 : UdpPacket → Carried6
carried_udp6 p = record {
  next = 17;
  len = udp_len p;
  is_dad = false;
  is_mld2_report = false;
  assemble = assemble_udp p;
}

abbrev pub udp_to : AddressFamily → AddressFamily → ℕ → ℕ → UdpPacket → Tx
udp_to inet6 inet6 src dst p = to_ip6 src dst (carried_udp6 p)
udp_to inet4 inet4 src dst p = to_ip4 src dst (carried_udp p)
udp_to inet4 inet6 src dst p = tx_unknown
udp_to inet6 inet4 src dst p = tx_unknown

-- `_phtx_udp`
unfoldable pub phtx_udp : AddressFamily → AddressFamily → ℕ → ℕ → UdpPacket → Tx
phtx_udp src_family dst_family src dst p =
    if leb p.sport 0xffff && leb p.dport 0xffff
    then udp_to src_family dst_family src dst p
    else tx_raised

-- `_phtx_icmp4` behind the constructor.
abbrev pub carried_icmp4 : Icmp4Message → Carried
carried_icmp4 m = record {
  proto = 1;
  len = icmp4_len m;
  is_dhcp = false;
  assemble = λ sum. some (assemble_icmp4 m);
}

abbrev pub icmp4_to : ℕ → ℕ → Icmp4Args → Option Icmp4Message → Tx
icmp4_to src dst a none = tx_raised
icmp4_to src dst a (some m) =
    if (a.type == echo_reply_type && a.code == 0)
      || ((a.type == echo_request_type && a.code == 0)
          || (a.type == unreachable_type && a.code == port_code))
    then to_ip4 src dst (carried_icmp4 m)
    else tx_unknown

-- `_phtx_icmp4`
unfoldable pub phtx_icmp4 : ℕ → ℕ → Icmp4Args → Tx
unfolding new_icmp4
phtx_icmp4 src dst a = icmp4_to src dst a (new_icmp4 a)
