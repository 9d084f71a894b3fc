-- ===== src/Packet/Layers.antt =====
-- Packets in packets: what pytcp/protocols/ip4/fpa.py and its carried packets assemble, read layer by
-- layer by the parsers.
use py_tcp.Prelude.{
  ℕ, ◌*◌, ◌^◌, ◌≤◌, ◌<◌, ◌≡◌, refl, Option, some, List, ◌++◌, false, not, ◌&&◌, ◌||◌, ◌==◌,
  if◌then◌else◌, length, length-append, arith, ap, sym, ◌∙◌, take, take-append,
}
use mathlib.Core.List.{append_assoc}
use py_tcp.Checksum.{word_sum}
use py_tcp.Checksum.Laws.{dropped_carry}
use py_tcp.Wire.{◌>>=◌, Verdict, accepted, rejected}
use py_tcp.Address.Ip4.{is_multicast, is_reserved, is_limited_broadcast}
use py_tcp.Packet.Ip4.{
  Ip4Header, Ip4Packet, assemble_header, assemble_ip4, assemble_ip4_frag, pseudo_sum,
  check_ip4_integrity, check_ip4_sanity, parse_ip4,
}
use py_tcp.Packet.Ip4.Laws.{IsIp4, received_ip4, parse_ip4-assemble_header}
use py_tcp.Packet.Udp.{
  UdpPacket, udp_blank, udp_len, assemble_udp, check_udp_integrity, check_udp_sanity, parse_udp,
}
use py_tcp.Packet.Udp.Laws.{IsUdp, parse_udp-assemble_udp}
use py_tcp.Packet.Tcp.{TcpPacket, tcp_words, tcp_len, assemble_tcp, check_tcp_integrity, parse_tcp}
use py_tcp.Packet.Tcp.Laws.{IsTcp, parse_tcp-assemble_tcp}

unfragmented :
    (h : Ip4Header)
    → h.flag_mf ≡ false
    → h.offset ≡ 0
    → record h { flag_mf = false; offset = 0 } ≡ h
unfragmented h mf offset = λ i. record h { flag_mf = sym mf i; offset = sym offset i }

-- A packet in an IPv4 packet: it is found behind the header, in front of the padding.
carried_found :
    (h : Ip4Header) (dlen : ℕ) (carried : ℕ → Option (List ℕ)) (packet padding : List ℕ)
    → IsIp4 h dlen
    → h.flag_mf ≡ false
    → h.offset ≡ 0
    → carried (pseudo_sum h.src h.dst h.proto dlen) ≡ some packet
    → length packet ≡ dlen
    → (frame : List ℕ) × (assemble_ip4 h dlen carried ≡ some frame)
      × (check_ip4_integrity (frame ++ padding) ≡ accepted)
      × (parse_ip4 (frame ++ padding) ≡ some (received_ip4 h dlen (packet ++ padding)))
unfolding assemble_ip4
carried_found h dlen carried packet padding v mf offset made long =
    let (header, assembled, read) = parse_ip4-assemble_header h dlen v in
    let (checked, parsed) =
      read (packet ++ padding) (omega (arith, length-append packet padding)) in
    let packs : List ℕ → Option (List ℕ) = λ front.
      carried (pseudo_sum h.src h.dst h.proto dlen) >>= λ payload. some (front ++ payload) in
    let regroup = append_assoc header packet padding in
    (
      header ++ packet,
      ap (λ g. assemble_header g dlen >>= packs) (unfragmented h mf offset)
          ∙ (ap (λ m. m >>= packs) assembled
              ∙ ap (λ m. m >>= λ payload. some (header ++ payload)) made),
      ap check_ip4_integrity regroup ∙ checked,
      ap parse_ip4 regroup ∙ parsed,
    )

-- What the sanity check makes of the source of a packet.
abbrev pub source_verdict : ℕ → Verdict
source_verdict src =
    if is_multicast src || (is_reserved src || is_limited_broadcast src) then rejected else accepted

-- Of a header with no clash between its flags and its offset, the sanity check tests the source alone.
sanity-received_ip4 :
    (h : Ip4Header) (dlen : ℕ) (rest : List ℕ)
    → (h.flag_df && h.flag_mf) ≡ false
    → (not (h.offset == 0) && h.flag_df) ≡ false
    → check_ip4_sanity (received_ip4 h dlen rest) ≡ source_verdict h.src
unfolding check_ip4_sanity
sanity-received_ip4 h dlen rest mf offset = ground arith

-- A UDP packet with non-zero ports, whose numbers fit, in an IPv4 packet without options whose fields fit
-- and that is no fragment, is assembled if the UDP checksum drops no carry. With any padding behind it,
-- the integrity check of IPv4 accepts the frame, its parser reads the header from it, and its sanity
-- check rejects it exactly if the source is a multicast group, reserved by the parser's test, or the
-- limited broadcast. With the length and the pseudo header that are handed on, both checks of UDP
-- accept what is left, and its parser reads the packet.
pub parse_udp-assemble_ip4 :
    (h : Ip4Header) (p : UdpPacket) (padding : List ℕ)
    → IsIp4 h (udp_len p)
    → h.flag_mf ≡ false
    → h.offset ≡ 0
    → IsUdp p
    → 0 < p.sport
    → 0 < p.dport
    → dropped_carry (word_sum (udp_blank p) (pseudo_sum h.src h.dst h.proto (udp_len p))) ≡ 0
    → (frame : List ℕ) × (assemble_ip4 h (udp_len p) (assemble_udp p) ≡ some frame)
      × (check_ip4_integrity (frame ++ padding) ≡ accepted)
      × ((q : Ip4Packet) × (parse_ip4 (frame ++ padding) ≡ some q)
          × (q.header ≡ h)
          × (check_ip4_sanity q ≡ source_verdict h.src)
          × (check_udp_integrity q.dlen q.pshdr_sum q.rest ≡ accepted)
          × (parse_udp q.rest ≡ some p)
          × (check_udp_sanity p ≡ accepted))
parse_udp-assemble_ip4 h p padding v mf offset u sport dport carry =
    let s = pseudo_sum h.src h.dst h.proto (udp_len p) in
    let proto : h.proto < 256 = ground (arith, v.proto_known) in
    let small : s ≤ 5 * 2 ^ 64 = omega (arith, proto, v.src_fits, v.dst_fits, v.plen_fits) in
    let (packet, made, long, checked, parsed, sane) =
      parse_udp-assemble_udp p s padding u sport dport small carry in
    let (frame, assembled, accepts, reads) =
      carried_found h (udp_len p) (assemble_udp p) packet padding v mf offset made long in
    (
      frame,
      assembled,
      accepts,
      (
        received_ip4 h (udp_len p) (packet ++ padding),
        reads,
        refl,
        sanity-received_ip4 h (udp_len p) (packet ++ padding) (ground (arith, mf))
            (ground (arith, offset)),
        ap (λ n. check_udp_integrity n s (packet ++ padding)) (sym long) ∙ checked,
        parsed,
        sane,
      ),
    )

-- A TCP packet whose numbers fit, with any flags and with options that fill its header up, in an IPv4 packet
-- without options whose fields fit and that is no fragment, is assembled if the TCP checksum drops no
-- carry. With any padding behind it, the integrity checks of IPv4 and then of TCP accept the frame,
-- and the parsers read the IPv4 header and the TCP packet, every field, option and byte. The sanity
-- check of IPv4 rejects the frame exactly if the source is a multicast group, reserved by the
-- parser's test, or the limited broadcast; the sanity check of TCP, which rejects some flags, ports
-- and numbers, is left open.
pub parse_tcp-assemble_ip4 :
    (h : Ip4Header) (p : TcpPacket) (padding : List ℕ)
    → IsIp4 h (tcp_len p)
    → h.flag_mf ≡ false
    → h.offset ≡ 0
    → IsTcp p
    → dropped_carry (word_sum (tcp_words p 0) (pseudo_sum h.src h.dst h.proto (tcp_len p))) ≡ 0
    → (frame : List ℕ) × (assemble_ip4 h (tcp_len p) (assemble_tcp p) ≡ some frame)
      × (check_ip4_integrity (frame ++ padding) ≡ accepted)
      × ((q : Ip4Packet) × (parse_ip4 (frame ++ padding) ≡ some q)
          × (q.header ≡ h)
          × (check_ip4_sanity q ≡ source_verdict h.src)
          × (check_tcp_integrity q.dlen q.pshdr_sum q.rest ≡ accepted)
          × (parse_tcp q.dlen q.rest ≡ some p))
parse_tcp-assemble_ip4 h p padding v mf offset u carry =
    let s = pseudo_sum h.src h.dst h.proto (tcp_len p) in
    let proto : h.proto < 256 = ground (arith, v.proto_known) in
    let small : s ≤ 5 * 2 ^ 64 = omega (arith, proto, v.src_fits, v.dst_fits, v.plen_fits) in
    let (packet, made, long, checked, parsed) = parse_tcp-assemble_tcp p s padding u small carry in
    let (frame, assembled, accepts, reads) =
      carried_found h (tcp_len p) (assemble_tcp p) packet padding v mf offset made long in
    (
      frame,
      assembled,
      accepts,
      (
        received_ip4 h (tcp_len p) (packet ++ padding),
        reads,
        refl,
        sanity-received_ip4 h (tcp_len p) (packet ++ padding) (ground (arith, mf))
            (ground (arith, offset)),
        ap (λ n. check_tcp_integrity n s (packet ++ padding)) (sym long) ∙ checked,
        ap (λ n. parse_tcp n (packet ++ padding)) (sym long) ∙ parsed,
      ),
    )

-- A fragment without options whose fields fit is assembled. With any padding behind it, the integrity check
-- accepts the frame, the parser reads the header from it, the offset and the flag MF with it, and the
-- data lie at the front of what is left. The sanity check rejects it exactly if the source is a
-- multicast group, reserved by the parser's test, or the limited broadcast.
pub parse_ip4-assemble_ip4_frag :
    (h : Ip4Header) (payload padding : List ℕ)
    → IsIp4 h (length payload)
    → h.flag_df ≡ false
    → (frame : List ℕ) × (assemble_ip4_frag h payload ≡ some frame)
      × (check_ip4_integrity (frame ++ padding) ≡ accepted)
      × ((q : Ip4Packet) × (parse_ip4 (frame ++ padding) ≡ some q)
          × (q.header ≡ h)
          × (check_ip4_sanity q ≡ source_verdict h.src)
          × (q.dlen ≡ length payload)
          × (take q.dlen q.rest ≡ payload))
unfolding assemble_ip4_frag
parse_ip4-assemble_ip4_frag h payload padding v df =
    let (header, assembled, read) = parse_ip4-assemble_header h (length payload) v in
    let (checked, parsed) =
      read (payload ++ padding) (omega (arith, length-append payload padding)) in
    let regroup = append_assoc header payload padding in
    let kept : record h { flag_df = false } ≡ h = λ i. record h { flag_df = sym df i } in
    (
      header ++ payload,
      ap (λ g. assemble_header g (length payload) >>= λ front. some (front ++ payload)) kept
          ∙ ap (λ m. m >>= λ front. some (front ++ payload)) assembled,
      ap check_ip4_integrity regroup ∙ checked,
      (
        received_ip4 h (length payload) (payload ++ padding),
        ap parse_ip4 regroup ∙ parsed,
        refl,
        sanity-received_ip4 h (length payload) (payload ++ padding) (ground (arith, df))
            (ground (arith, df)),
        refl,
        take-append payload padding,
      ),
    )
