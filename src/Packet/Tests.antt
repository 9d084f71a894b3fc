-- ===== src/Packet/Tests.antt =====
-- Packets and frames at concrete inputs.
use py_tcp.Prelude.{
  ℕ, ◌≡◌, ◌≢◌, refl, some, List, [], ◌∷◌, ◌++◌, true, false, arith, ◌≤◌, take, inl,
}
use py_tcp.Checksum.{inet_cksum, word_sum, sum_longs, sum_quads, shifted_remainder, remainder}
use py_tcp.Wire.{accepted, crashed, unfinished}
use py_tcp.Packet.Udp.{
  UdpPacket, assemble_udp, check_udp_integrity, check_udp_sanity, parse_udp, udp_blank, udp_len,
}
use py_tcp.Packet.Udp.Laws.{IsUdp}
use py_tcp.Packet.Tcp.{TcpPacket, assemble_tcp, check_tcp_integrity, parse_tcp, tcp_words, tcp_len}
use py_tcp.Packet.Tcp.Options.{mss, nop, wscale, options_bytes, check_options, check_round}
use py_tcp.Packet.Tcp.Laws.{IsTcp}
use py_tcp.Packet.Tcp.Safety.{
  check_tcp_integrity-finishes, check_tcp_integrity-safe, check_tcp_integrity-crashes,
  parse_tcp-total,
}
use py_tcp.Checksum.Laws.{carried, dropped_carry}
use py_tcp.Packet.Ip4.{
  Ip4Header, Ip4Packet, assemble_ip4, assemble_ip4_frag, check_ip4_integrity, check_ip4_sanity,
  parse_ip4, pseudo_sum,
}
use py_tcp.Packet.Ip4.Laws.{IsIp4}
use py_tcp.Packet.Layers.{
  source_verdict, parse_udp-assemble_ip4, parse_tcp-assemble_ip4, parse_ip4-assemble_ip4_frag,
}
use py_tcp.Packet.Ether.{
  EtherHeader, ArpHeader, new_arp, check_arp_sanity, assemble_ether, assemble_arp,
  check_ether_integrity, check_ether_sanity, parse_ether, check_arp_integrity, parse_arp,
}
use py_tcp.Packet.Ether.Laws.{parse_arp-assemble_ether}

abbrev query : UdpPacket
query = record { sport = 1000; dport = 53; payload = 1 ∷ 2 ∷ 3 ∷ [] }

query-IsUdp : IsUdp query
query-IsUdp = record {
  sport_fits = omega arith;
  dport_fits = omega arith;
  len_fits = omega arith;
  bytes = omega arith;
}

-- A segment that opens a connection.
abbrev opening : TcpPacket
opening = record {
  sport = 1000;
  dport = 80;
  seq = 7;
  ack = 0;
  flag_ns = false;
  flag_crw = false;
  flag_ece = false;
  flag_urg = false;
  flag_ack = false;
  flag_psh = false;
  flag_rst = false;
  flag_syn = true;
  flag_fin = false;
  win = 65535;
  urp = 0;
  options = mss 1460 ∷ nop ∷ wscale 7 ∷ [];
  payload = [];
}

opening-IsTcp : IsTcp opening
unfolding options_bytes
opening-IsTcp = record {
  sport_fits = omega arith;
  dport_fits = omega arith;
  seq_fits = omega arith;
  ack_fits = omega arith;
  win_fits = omega arith;
  urp_fits = omega arith;
  sent = (omega arith, (tt, (omega arith, tt)));
  words = omega arith;
  hlen_fits = omega arith;
  len_fits = omega arith;
  bytes = tt;
}

-- A header of 24 bytes, with three no-operations and an option of kind 30 and no length.
abbrev short_header : List ℕ
short_header =
    3 ∷ 232 ∷ 0 ∷ 80 ∷ 0 ∷ 0 ∷ 0 ∷ 7 ∷ 0 ∷ 0 ∷ 0 ∷ 0 ∷ 96 ∷ 2 ∷ 255 ∷ 255 ∷ 153 ∷ 159 ∷ 0 ∷ 0 ∷ []

abbrev cut_off : List ℕ
cut_off = short_header ++ (1 ∷ 1 ∷ 1 ∷ 30 ∷ [])

abbrev followed : List ℕ
followed = cut_off ++ (1 ∷ 2 ∷ 3 ∷ 4 ∷ 5 ∷ 6 ∷ 7 ∷ 8 ∷ 9 ∷ [])

check_tcp_integrity-finishes_example : check_tcp_integrity 24 0 cut_off ≢ unfinished
check_tcp_integrity-finishes_example = check_tcp_integrity-finishes 24 0 cut_off

check_tcp_integrity-safe_example : check_tcp_integrity 24 0 followed ≢ crashed
check_tcp_integrity-safe_example = check_tcp_integrity-safe 24 0 96 followed refl (omega arith)

cut_off-sum : inet_cksum cut_off 0 ≡ 0
unfolding inet_cksum
cut_off-sum = refl

check_tcp_integrity-crashes_example : check_tcp_integrity 24 0 cut_off ≡ crashed
check_tcp_integrity-crashes_example =
    check_tcp_integrity-crashes short_header 0 96 30 refl refl refl (omega arith) cut_off-sum

followed-accepted : check_tcp_integrity 24 0 followed ≡ accepted
unfolding check_tcp_integrity check_options check_round inet_cksum
followed-accepted = refl

parse_tcp-total_example : (p : TcpPacket) × (parse_tcp 24 followed ≡ some p)
parse_tcp-total_example = parse_tcp-total 24 0 96 followed followed-accepted refl (omega arith)

abbrev header : ℕ → Ip4Header
header proto = record {
  src = 0x0a00_0001;
  dst = 0x0a00_0002;
  ttl = 64;
  dscp = 0;
  ecn = 0;
  id = 7;
  flag_df = false;
  flag_mf = false;
  offset = 0;
  proto = proto;
  options = [];
}

header-IsIp4 : (dlen : ℕ) → dlen ≤ 1000 → IsIp4 (header 17) dlen × IsIp4 (header 6) dlen
header-IsIp4 dlen h = ground arith

query_behind_header-carry :
    dropped_carry
      (word_sum (udp_blank query) (pseudo_sum 0x0a00_0001 0x0a00_0002 17 (udp_len query)))
    ≡ 0
unfolding carried word_sum sum_longs sum_quads shifted_remainder remainder
query_behind_header-carry = refl

parse_udp-assemble_ip4_example :
    (frame : List ℕ) × (assemble_ip4 (header 17) (udp_len query) (assemble_udp query) ≡ some frame)
    × (check_ip4_integrity (frame ++ (0 ∷ [])) ≡ accepted)
    × ((q : Ip4Packet) × (parse_ip4 (frame ++ (0 ∷ [])) ≡ some q)
        × (q.header ≡ header 17)
        × (check_ip4_sanity q ≡ source_verdict 0x0a00_0001)
        × (check_udp_integrity q.dlen q.pshdr_sum q.rest ≡ accepted)
        × (parse_udp q.rest ≡ some query)
        × (check_udp_sanity query ≡ accepted))
parse_udp-assemble_ip4_example =
    parse_udp-assemble_ip4 (header 17) query (0 ∷ []) (header-IsIp4 (udp_len query) (omega arith)).0
      refl refl query-IsUdp (omega arith) (omega arith) query_behind_header-carry

opening_behind_header-carry :
    dropped_carry
      (word_sum (tcp_words opening 0) (pseudo_sum 0x0a00_0001 0x0a00_0002 6 (tcp_len opening)))
    ≡ 0
unfolding carried word_sum sum_longs sum_quads shifted_remainder remainder options_bytes
opening_behind_header-carry = refl

opening-len : tcp_len opening ≤ 1000
unfolding options_bytes
opening-len = omega arith

parse_tcp-assemble_ip4_example :
    (frame : List ℕ) × (assemble_ip4 (header 6) (tcp_len opening) (assemble_tcp opening)
      ≡ some frame)
    × (check_ip4_integrity (frame ++ (0 ∷ [])) ≡ accepted)
    × ((q : Ip4Packet) × (parse_ip4 (frame ++ (0 ∷ [])) ≡ some q)
        × (q.header ≡ header 6)
        × (check_ip4_sanity q ≡ source_verdict 0x0a00_0001)
        × (check_tcp_integrity q.dlen q.pshdr_sum q.rest ≡ accepted)
        × (parse_tcp q.dlen q.rest ≡ some opening))
parse_tcp-assemble_ip4_example =
    parse_tcp-assemble_ip4 (header 6) opening (0 ∷ [])
      (header-IsIp4 (tcp_len opening) opening-len).1 refl refl opening-IsTcp
      opening_behind_header-carry

parse_ip4-assemble_ip4_frag_example :
    (frame : List ℕ) × (assemble_ip4_frag (header 17) (1 ∷ 2 ∷ []) ≡ some frame)
    × (check_ip4_integrity (frame ++ (0 ∷ [])) ≡ accepted)
    × ((q : Ip4Packet) × (parse_ip4 (frame ++ (0 ∷ [])) ≡ some q)
        × (q.header ≡ header 17)
        × (check_ip4_sanity q ≡ source_verdict 0x0a00_0001)
        × (q.dlen ≡ 2)
        × (take q.dlen q.rest ≡ 1 ∷ 2 ∷ []))
parse_ip4-assemble_ip4_frag_example =
    parse_ip4-assemble_ip4_frag (header 17) (1 ∷ 2 ∷ []) (0 ∷ []) (header-IsIp4 2 (omega arith)).0
      refl

abbrev arp_frame_header : EtherHeader
arp_frame_header = record { dst = 0xffff_ffff_ffff; src = 0x0200_0000_0007; ether_type = 0x0806 }

parse_arp-assemble_ether_example :
    (p : ArpHeader) × (new_arp 1 0x0200_0000_0007 5 0 6 ≡ some p)
    × (check_arp_sanity p ≡ accepted)
    × (p.oper ≡ 1)
    × ((frame : List ℕ) × (assemble_ether arp_frame_header (some (assemble_arp p ++ (0 ∷ [])))
          ≡ some frame)
        × (check_ether_integrity frame ≡ accepted)
        × (check_ether_sanity arp_frame_header ≡ accepted)
        × (parse_ether frame ≡ some (arp_frame_header, assemble_arp p ++ (0 ∷ [])))
        × (check_arp_integrity (assemble_arp p ++ (0 ∷ [])) ≡ accepted)
        × (parse_arp (assemble_arp p ++ (0 ∷ [])) ≡ some p))
parse_arp-assemble_ether_example =
    parse_arp-assemble_ether arp_frame_header 1 0x0200_0000_0007 5 0 6 (0 ∷ []) refl (inl refl)
