-- ===== src/Packet/Ip6.antt =====
-- IPv6 packets: `Ip6Assembler` of pytcp/protocols/ip6/fpa.py and `Ip6Parser` of
-- pytcp/protocols/ip6/fpp.py, with both checks enabled, as they are by default.
pub mod Frag
pub mod Laws
mod Tests
use py_tcp.Prelude.{
  ℕ, ◌+◌, ◌-◌, ◌*◌, ◌/◌, ◌%◌, ◌^◌, Option, none, some, List, [], ◌∷◌, ◌++◌, Bool, true, false, not,
  ◌&&◌, ◌||◌, ◌==◌, leb, ltb, length, take, drop, if◌then◌else◌,
}
use Prim.Native.Nat.{bit_or}
use py_tcp.Address.Ip6.{is_ip6_multicast}
use py_tcp.Wire.{be16, be128, word_at, byte_at, ip6_at, ◌>>=◌, Verdict, accepted, rejected, crashed}

-- The arguments of the assembler, and the fields of the parser.
pub record Ip6Header : Type 0 where
  pub src : ℕ
  pub dst : ℕ
  pub hop : ℕ
  pub dscp : ℕ
  pub ecn : ℕ
  pub flow : ℕ
  pub next : ℕ

-- `IP6_HEADER_LEN`
abbrev pub ip6_header_len : ℕ
ip6_header_len = 40

-- TCP, UDP, the fragment extension, ICMPv6 and raw data.
abbrev pub is_known_next : ℕ → Bool
is_known_next next = next == 58 || (next == 17 || (next == 6 || (next == 44 || next == 255)))

-- The assertions of the constructor.
abbrev pub ip6_asserts : Ip6Header → Bool
ip6_asserts h =
    leb h.hop 0xff
    && (leb h.dscp 0x3f && (leb h.ecn 0x03 && (leb h.flow 0xff_ffff && is_known_next h.next)))

-- `self._ver << 4 | self._dscp >> 4`
abbrev pub ip6_first_byte : Ip6Header → ℕ
ip6_first_byte h = bit_or (6 * 2 ^ 4) (h.dscp / 2 ^ 4)

-- `self._dscp & 0b00000011 << 6 | self._ecn << 4 | ((self._flow & 0b1111 << 16) >> 16)`; the shift in the
-- first part goes before the `&`, so that it takes the bits 6 and 7.
abbrev pub ip6_second_byte : Ip6Header → ℕ
ip6_second_byte h =
    bit_or (bit_or (h.dscp / 2 ^ 6 % 2 ^ 2 * 2 ^ 6) (h.ecn * 2 ^ 4)) (h.flow / 2 ^ 16 % 2 ^ 4)

-- The header for a carried packet of `dlen` bytes.
abbrev pub ip6_words : Ip6Header → ℕ → List ℕ
ip6_words h dlen =
    ip6_first_byte h
    ∷ ip6_second_byte h
    ∷ (h.flow / 2 ^ 8 % 2 ^ 8)
    ∷ (h.flow % 2 ^ 8)
    ∷ be16 dlen (h.next ∷ h.hop ∷ be128 h.src (be128 h.dst []))

-- `pshdr_sum`: the five quad-words of the pseudo header.
abbrev pub ip6_pseudo_sum : ℕ → ℕ → ℕ → ℕ → ℕ
ip6_pseudo_sum src dst next dlen =
    src / 2 ^ 64 + src % 2 ^ 64 + (dst / 2 ^ 64 + dst % 2 ^ 64) + (dlen * 2 ^ 32 + next)

-- `__len__`, around a packet of `dlen` bytes.
abbrev pub ip6_plen : ℕ → ℕ
ip6_plen dlen = ip6_header_len + dlen

-- The constructor and `assemble`, around a packet of `dlen` bytes that is assembled for the sum of the
-- pseudo header; `none` where an assertion or `struct.pack_into` refuses a number.
unfoldable pub assemble_ip6 : Ip6Header → ℕ → (ℕ → Option (List ℕ)) → Option (List ℕ)
assemble_ip6 h dlen carried =
    if ip6_asserts h && leb dlen 0xffff
    then (do
      packet ← carried (ip6_pseudo_sum h.src h.dst h.next dlen)
      some (ip6_words h dlen ++ packet))
    else none

-- The getters of the parser.
abbrev pub ip6_ver : List ℕ → Option ℕ
ip6_ver frame = do first ← byte_at 0 frame; some (first / 2 ^ 4)

abbrev pub ip6_dscp : List ℕ → Option ℕ
ip6_dscp frame = do
  first ← byte_at 0 frame
  second ← byte_at 1 frame
  some (bit_or (first % 2 ^ 4 * 2 ^ 2) (second / 2 ^ 6 % 2 ^ 2))

abbrev pub ip6_ecn : List ℕ → Option ℕ
ip6_ecn frame = do second ← byte_at 1 frame; some (second / 2 ^ 4 % 2 ^ 2)

abbrev pub ip6_flow : List ℕ → Option ℕ
ip6_flow frame = do
  second ← byte_at 1 frame
  third ← byte_at 2 frame
  fourth ← byte_at 3 frame
  some (bit_or (bit_or (second % 2 ^ 4 * 2 ^ 16) (third * 2 ^ 8)) fourth)

abbrev pub ip6_dlen : List ℕ → Option ℕ
ip6_dlen frame = word_at 4 frame

abbrev pub ip6_next : List ℕ → Option ℕ
ip6_next frame = byte_at 6 frame

abbrev pub ip6_hop : List ℕ → Option ℕ
ip6_hop frame = byte_at 7 frame

abbrev pub ip6_src : List ℕ → Option ℕ
ip6_src frame = ip6_at 8 frame

abbrev pub ip6_dst : List ℕ → Option ℕ
ip6_dst frame = ip6_at 24 frame

-- All fields, and what is left of the frame for the packet that is carried.
pub record Ip6Packet : Type 0 where
  pub ver : ℕ
  pub header : Ip6Header
  pub dlen : ℕ
  pub pshdr_sum : ℕ
  pub rest : List ℕ
  pub packet_copy : List ℕ

abbrev pub ip6_header_of : List ℕ → Option Ip6Header
ip6_header_of frame = do
  src ← ip6_src frame
  dst ← ip6_dst frame
  hop ← ip6_hop frame
  dscp ← ip6_dscp frame
  ecn ← ip6_ecn frame
  flow ← ip6_flow frame
  next ← ip6_next frame
  some
      (record { src = src; dst = dst; hop = hop; dscp = dscp; ecn = ecn; flow = flow; next = next })

unfoldable pub parse_ip6 : List ℕ → Option Ip6Packet
parse_ip6 frame = do
  ver ← ip6_ver frame
  header ← ip6_header_of frame
  dlen ← ip6_dlen frame
  some (record {
    ver = ver;
    header = header;
    dlen = dlen;
    pshdr_sum = ip6_pseudo_sum header.src header.dst header.next dlen;
    rest = drop ip6_header_len frame;
    packet_copy = take (ip6_plen dlen) frame;
  })

-- `_packet_integrity_check`
unfoldable pub check_ip6_integrity : List ℕ → Verdict
check_ip6_integrity frame =
    if ltb (length frame) ip6_header_len then rejected else elim (ip6_dlen frame) [
      | none ↦ crashed
      | some dlen ↦ if dlen == length frame - ip6_header_len then accepted else rejected
    ]

-- `_packet_sanity_check`
unfoldable pub check_ip6_sanity : Ip6Packet → Verdict
unfolding is_ip6_multicast
check_ip6_sanity p =
    if not (p.ver == 6)
    then rejected
    else if p.header.hop == 0
    then rejected
    else if is_ip6_multicast p.header.src
    then rejected
    else accepted
