-- ===== src/Packet/Ip6/Laws.antt =====
-- What the IPv6 parser makes of assembled packets.
use py_tcp.Prelude.{
  ℕ, ◌+◌, ◌*◌, ◌/◌, ◌%◌, ◌≤◌, ◌<◌, ◌≡◌, ◌^◌, refl, some, List, ◌++◌, true, length, take, take_all,
  length-append, arith, ap, ◌∙◌, Option,
}
use py_tcp.Prelude.Bits.{bit_or-filled}
use Prim.Native.Nat.{bit_or}
use py_tcp.Wire.{◌>>=◌, accepted, word_lem, ip6_lem}
use py_tcp.Packet.Ip6.{
  Ip6Header, Ip6Packet, is_known_next, ip6_first_byte, ip6_second_byte, ip6_words, ip6_pseudo_sum,
  assemble_ip6, ip6_header_of, parse_ip6, check_ip6_integrity,
}

-- A header around `dlen` bytes whose numbers fit what the assembler asserts.
pub record IsIp6 (h : Ip6Header) (dlen : ℕ) : Type 0 where
  pub src_fits : h.src < 2 ^ 128
  pub dst_fits : h.dst < 2 ^ 128
  pub hop_fits : h.hop ≤ 0xff
  pub dscp_fits : h.dscp ≤ 0x3f
  pub ecn_fits : h.ecn ≤ 0x03
  pub flow_fits : h.flow ≤ 0xff_ffff
  pub next_known : is_known_next h.next ≡ true
  pub dlen_fits : dlen ≤ 0xffff

-- The header that a reader finds: of the code point the two highest bits, two places too low, and of the
-- flow label the lower 20 bits.
abbrev pub sent_header : Ip6Header → Ip6Header
sent_header h = record h { dscp = h.dscp / 16 * 4; flow = h.flow % 2 ^ 20 }

module _ (h : Ip6Header) (dlen : ℕ) (v : IsIp6 h dlen) where
  first : ip6_first_byte h ≡ 6 * 16 + h.dscp / 16
  first = bit_or-filled 4 6 (h.dscp / 16) (omega arith)

  second : ip6_second_byte h ≡ h.ecn * 16 + h.flow / 2 ^ 16 % 2 ^ 4
  second =
      let low = bit_or-filled 6 (h.dscp / 2 ^ 6 % 2 ^ 2) (h.ecn * 2 ^ 4) (omega arith) in
      let none : h.dscp / 2 ^ 6 % 2 ^ 2 * 2 ^ 6 + h.ecn * 2 ^ 4 ≡ h.ecn * 2 ^ 4 = omega arith in
      rw (low, none) (bit_or-filled 4 h.ecn (h.flow / 2 ^ 16 % 2 ^ 4) (omega arith))

  dscp_read :
      bit_or (ip6_first_byte h % 2 ^ 4 * 2 ^ 2) (ip6_second_byte h / 2 ^ 6 % 2 ^ 2)
      ≡ h.dscp / 16 * 4
  dscp_read =
      let high : ip6_first_byte h % 2 ^ 4 ≡ h.dscp / 16 = omega (arith, first) in
      let low : ip6_second_byte h / 2 ^ 6 % 2 ^ 2 ≡ 0 = omega (arith, second) in
      rw (high, low) (bit_or-filled 2 (h.dscp / 16) 0 (omega arith) ∙ omega arith)

  ecn_read : ip6_second_byte h / 2 ^ 4 % 2 ^ 2 ≡ h.ecn
  ecn_read = omega (arith, second)

  flow_read :
      bit_or
        (bit_or (ip6_second_byte h % 2 ^ 4 * 2 ^ 16) (h.flow / 2 ^ 8 % 2 ^ 8 * 2 ^ 8))
        (h.flow % 2 ^ 8)
      ≡ h.flow % 2 ^ 20
  flow_read =
      let top : ip6_second_byte h % 2 ^ 4 ≡ h.flow / 2 ^ 16 % 2 ^ 4 = omega (arith, second) in
      let mid = h.flow / 2 ^ 8 % 2 ^ 8 * 2 ^ 8 in
      let upper = bit_or-filled 16 (h.flow / 2 ^ 16 % 2 ^ 4) mid (omega arith) in
      let joined : h.flow / 2 ^ 16 % 2 ^ 4 * 2 ^ 16 + mid ≡ h.flow / 2 ^ 8 % 2 ^ 12 * 2 ^ 8 =
        omega arith in
      rw (top, upper, joined)
        (bit_or-filled 8 (h.flow / 2 ^ 8 % 2 ^ 12) (h.flow % 2 ^ 8) (omega arith) ∙ omega arith)

  header_read : (rest : List ℕ) → ip6_header_of (ip6_words h dlen ++ rest) ≡ some (sent_header h)
  header_read rest = λ i. some (record {
    src = ip6_lem h.src i;
    dst = ip6_lem h.dst i;
    hop = h.hop;
    dscp = dscp_read i;
    ecn = ecn_read i;
    flow = flow_read i;
    next = h.next;
  })

-- What the parser reads of a header in front of `packet`.
abbrev pub received_ip6 : Ip6Header → List ℕ → Ip6Packet
received_ip6 h packet = record {
  ver = 6;
  header = sent_header h;
  dlen = length packet;
  pshdr_sum = ip6_pseudo_sum h.src h.dst h.next (length packet);
  rest = packet;
  packet_copy = ip6_words h (length packet) ++ packet;
}

words_parsed :
    (h : Ip6Header) (packet : List ℕ)
    → IsIp6 h (length packet)
    → (check_ip6_integrity (ip6_words h (length packet) ++ packet) ≡ accepted)
      × (parse_ip6 (ip6_words h (length packet) ++ packet) ≡ some (received_ip6 h packet))
unfolding check_ip6_integrity parse_ip6
words_parsed h packet v =
    let told = word_lem (length packet) in
    let frame = ip6_words h (length packet) ++ packet in
    let whole : (n : ℕ) → n ≡ length packet → take (40 + n) frame ≡ frame = λ n e.
      let long : 40 + n ≡ length frame =
        omega (arith, e, length-append (ip6_words h (length packet)) packet) in
      ap (λ k. take k frame) long ∙ take_all frame in
    let read : ℕ → Ip6Header → Option Ip6Packet = λ n header. some (record {
      ver = ip6_first_byte h / 2 ^ 4;
      header = header;
      dlen = n;
      pshdr_sum = ip6_pseudo_sum header.src header.dst header.next n;
      rest = packet;
      packet_copy = take (40 + n) frame;
    }) in
    let version : ip6_first_byte h / 2 ^ 4 ≡ 6 =
      omega (arith, first h (length packet) v, v.dscp_fits) in
    let n = length packet / 256 * 256 + length packet % 256 in
    (
      rw told (ground (arith, length-append (ip6_words h (length packet)) packet)),
      ap (λ m. m >>= read n) (header_read h (length packet) v packet)
          ∙ ap (λ k. read k (sent_header h)) told
          ∙ λ i. some (record (received_ip6 h packet) {
            ver = version i;
            packet_copy = whole (length packet) refl i;
          }),
    )

-- A header whose numbers fit what the assembler asserts, around a packet of `dlen` bytes, is assembled with
-- it. The parser's integrity check accepts the frame, and the parser reads every field of the header
-- from it but two: of the code point only the two highest bits arrive, two places too low, and of the
-- flow label the lower 20 bits. The packet is what it hands on.
pub parse_ip6-assemble_ip6 :
    (h : Ip6Header) (carried : ℕ → Option (List ℕ)) (packet : List ℕ)
    → IsIp6 h (length packet)
    → carried (ip6_pseudo_sum h.src h.dst h.next (length packet)) ≡ some packet
    → (frame : List ℕ) × (assemble_ip6 h (length packet) carried ≡ some frame)
      × (check_ip6_integrity frame ≡ accepted)
      × (parse_ip6 frame ≡ some (received_ip6 h packet))
unfolding assemble_ip6
parse_ip6-assemble_ip6 h carried packet v made =
    let (checked, parsed) = words_parsed h packet v in
    (ip6_words h (length packet) ++ packet, rw made (ground (arith, v.next_known)), checked, parsed)
