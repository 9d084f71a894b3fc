-- ===== src/Udp/Icmp4.antt =====
-- `_phrx_icmp4` (pytcp/protocols/icmp4/phrx.py): echo requests, and messages about an unreachable port,
-- which are given to the socket that sent the quoted packet.
use py_tcp.Prelude.{
  ℕ, ◌+◌, ◌*◌, ◌/◌, ◌%◌, ◌^◌, Option, none, some, List, [], Bool, true, false, ◌&&◌, ◌==◌, leb,
  length, if◌then◌else◌,
}
use py_tcp.Wire.{word_at, long_at, byte_at, ◌>>=◌, Verdict, accepted, rejected, crashed, unfinished}
use py_tcp.Packet.Icmp4.{
  Icmp4Args, icmp4_type, icmp4_ec_id, icmp4_ec_seq, icmp4_ec_data, icmp4_un_data,
  check_icmp4_integrity, check_icmp4_sanity, echo_reply_type, unreachable_type, echo_request_type,
}
use py_tcp.Udp.{
  inet4, UdpMetadata, socket_patterns, SocketTable, match_socket, update, notify_unreachable,
}
use py_tcp.Udp.Output.{phtx_icmp4}
use py_tcp.Udp.Input.{IpPacket, Rx, to_socket, failed_parse, rx_raised, dropped, ignored, answered}

-- The answer to an echo request; `none` where a getter raises.
abbrev pub echo_args : ℕ → List ℕ → Option Icmp4Args
echo_args plen frame = do
  id ← icmp4_ec_id frame
  seq ← icmp4_ec_seq frame
  body ← icmp4_ec_data plen frame
  some (record {
    type = echo_reply_type;
    code = 0;
    ec_id = some id;
    ec_seq = some seq;
    ec_data = some body;
    un_data = none;
  })

abbrev pub echoed : IpPacket → Option Icmp4Args → Rx
echoed ip none = rx_raised
echoed ip (some a) = answered (phtx_icmp4 ip.dst ip.src a)

-- The UDP packet that a message about an unreachable port quotes, if it quotes one, with a header of
-- `hlen` bytes.
abbrev pub quoted_udp : ℕ → List ℕ → Option UdpMetadata
quoted_udp hlen quoted = do
  local ← long_at 12 quoted
  remote ← long_at 16 quoted
  local_port ← word_at hlen quoted
  remote_port ← word_at (hlen + 2) quoted
  some (record {
    family = inet4;
    local_ip_address = local;
    local_port = local_port;
    remote_ip_address = remote;
    remote_port = remote_port;
    payload = [];
  })

-- The test of the quoted packet for its length, its version, its header and its protocol.
abbrev pub quotes_udp : ℕ → ℕ → List ℕ → Bool
quotes_udp first proto quoted =
    leb 20 (length quoted)
    && (first / 2 ^ 4 == 4
        && (leb (first % 2 ^ 4 * 4) (length quoted)
            && (proto == 17 && leb (first % 2 ^ 4 * 4 + 8) (length quoted))))

abbrev pub quoted_packet : List ℕ → Option UdpMetadata
quoted_packet quoted = do
  first ← byte_at 0 quoted
  proto ← byte_at 9 quoted
  (elim (quotes_udp first proto quoted) [
    | true ↦ quoted_udp (first % 2 ^ 4 * 4) quoted
    | false ↦ none
  ])

abbrev pub notified : Option UdpMetadata → SocketTable → Rx × SocketTable
notified none t = (dropped, t)
notified (some p) t =
    to_socket (match_socket (socket_patterns p) t.sockets) dropped
      (λ h. update h notify_unreachable) t

abbrev pub unreachable_received : Option (List ℕ) → SocketTable → Rx × SocketTable
unreachable_received none t = (rx_raised, t)
unreachable_received (some quoted) t = notified (quoted_packet quoted) t

-- `_phrx_icmp4` behind the parser, for the type of the message.
abbrev pub handle_icmp4 : IpPacket → Option ℕ → SocketTable → Rx × SocketTable
handle_icmp4 ip none t = (rx_raised, t)
handle_icmp4 ip (some type) t =
    if type == echo_request_type
    then (echoed ip (echo_args ip.dlen ip.frame), t)
    else if type == unreachable_type
    then unreachable_received (icmp4_un_data ip.dlen ip.frame) t
    else (ignored, t)

abbrev pub sane_icmp4 : IpPacket → Verdict → SocketTable → Rx × SocketTable
sane_icmp4 ip accepted t = handle_icmp4 ip (icmp4_type ip.frame) t
sane_icmp4 ip rejected t = (failed_parse, t)
sane_icmp4 ip crashed t = (rx_raised, t)
sane_icmp4 ip unfinished t = (rx_raised, t)

abbrev pub checked_icmp4 : IpPacket → Verdict → SocketTable → Rx × SocketTable
checked_icmp4 ip accepted t = sane_icmp4 ip (check_icmp4_sanity ip.frame) t
checked_icmp4 ip rejected t = (failed_parse, t)
checked_icmp4 ip crashed t = (rx_raised, t)
checked_icmp4 ip unfinished t = (rx_raised, t)

-- `_phrx_icmp4`
unfoldable pub phrx_icmp4 : IpPacket → SocketTable → Rx × SocketTable
phrx_icmp4 ip t = checked_icmp4 ip (check_icmp4_integrity ip.dlen ip.frame) t
