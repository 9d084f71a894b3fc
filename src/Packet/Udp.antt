-- ===== src/Packet/Udp.antt =====
-- UDP packets: `UdpAssembler` of pytcp/protocols/udp/fpa.py and `UdpParser` of
-- pytcp/protocols/udp/fpp.py, with both checks enabled, as they are by default.
pub mod Laws
use py_tcp.Prelude.{
  ℕ, ◌+◌, ◌-◌, Option, none, some, List, Bool, true, false, not, ◌&&◌, ◌||◌, ◌==◌, leb, length,
  take, drop, if◌then◌else◌,
}
use py_tcp.Checksum.{inet_cksum}
use py_tcp.Wire.{be16, word_at, set_word, ◌>>=◌, Verdict, accepted, rejected, crashed}

-- The arguments of the assembler, and the fields of the parser.
pub record UdpPacket : Type 0 where
  pub sport : ℕ
  pub dport : ℕ
  pub payload : List ℕ

-- `UDP_HEADER_LEN`
abbrev pub udp_header_len : ℕ
udp_header_len = 8

abbrev pub udp_len : UdpPacket → ℕ
udp_len p = udp_header_len + length p.payload

-- The frame with a checksum of zero.
abbrev pub udp_blank : UdpPacket → List ℕ
udp_blank p = be16 p.sport (be16 p.dport (be16 (udp_len p) (be16 0 p.payload)))

-- `none` where an assertion or `struct.pack_into` refuses a number of more than 16 bits.
unfoldable pub assemble_udp : UdpPacket → ℕ → Option (List ℕ)
assemble_udp p pshdr_sum =
    if leb p.sport 0xffff && (leb p.dport 0xffff && leb (udp_len p) 0xffff)
    then some (set_word 6 (inet_cksum (udp_blank p) pshdr_sum) (udp_blank p))
    else none

-- `_packet_integrity_check`; `dlen` is the length that the IP header tells.
unfoldable pub check_udp_integrity : ℕ → ℕ → List ℕ → Verdict
check_udp_integrity dlen pshdr_sum frame =
    if not (inet_cksum (take dlen frame) pshdr_sum == 0)
    then rejected
    else if not (leb udp_header_len dlen && leb dlen (length frame))
    then rejected
    else elim (word_at 4 frame) [
      | none ↦ crashed
      | some plen ↦
          if leb udp_header_len plen && (plen == dlen && leb dlen (length frame))
          then accepted
          else rejected
    ]

-- The fields, read from the frame; data is `frame[UDP_HEADER_LEN:plen]`.
unfoldable pub parse_udp : List ℕ → Option UdpPacket
parse_udp frame = do
  sport ← word_at 0 frame
  dport ← word_at 2 frame
  plen ← word_at 4 frame
  some (record {
    sport = sport;
    dport = dport;
    payload = take (plen - udp_header_len) (drop udp_header_len frame);
  })

-- `_packet_sanity_check`
unfoldable pub check_udp_sanity : UdpPacket → Verdict
check_udp_sanity p = if p.sport == 0 || p.dport == 0 then rejected else accepted
