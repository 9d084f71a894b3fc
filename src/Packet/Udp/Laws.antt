-- ===== src/Packet/Udp/Laws.antt =====
-- What the UDP parser makes of assembled packets.
use py_tcp.Prelude.{
  ℕ, ◌+◌, ◌-◌, ◌*◌, ◌≤◌, ◌<◌, ◌≡◌, ◌^◌, some, List, ◌++◌, length, take, All, take-append,
  length-append, arith, ap,
}
use py_tcp.Checksum.{inet_cksum, word_sum}
use py_tcp.Checksum.Reference.{sum16}
use py_tcp.Checksum.Residue.{IsByte}
use py_tcp.Checksum.Laws.{inet_cksum-filled, inet_cksum-lt, dropped_carry}
use py_tcp.Wire.{Bytes, be16-Bytes, word_lem, be16, word_at, set_word, accepted}
use py_tcp.Packet.Udp.{
  UdpPacket, udp_blank, udp_len, udp_header_len, assemble_udp, check_udp_integrity, parse_udp,
  check_udp_sanity,
}

-- Ports and length have 16 bits, and the data are bytes.
pub record IsUdp (p : UdpPacket) : Type 0 where
  pub sport_fits : p.sport ≤ 0xffff
  pub dport_fits : p.dport ≤ 0xffff
  pub len_fits : udp_len p ≤ 0xffff
  pub bytes : All IsByte p.payload

-- The frame that is assembled.
abbrev pub udp_frame : UdpPacket → ℕ → List ℕ
udp_frame p s = set_word 6 (inet_cksum (udp_blank p) s) (udp_blank p)

-- With any checksum the frame consists of bytes.
udp_words-Bytes :
    (p : UdpPacket) (cksum : ℕ)
    → IsUdp p
    → cksum < 2 ^ 16
    → Bytes (be16 p.sport (be16 p.dport (be16 (udp_len p) (be16 cksum p.payload))))
udp_words-Bytes p cksum v h = be16-Bytes (omega arith) (
    be16-Bytes (omega arith)
      (be16-Bytes (omega arith) (be16-Bytes (omega arith) (record { all = v.bytes }))))

-- What follows the packet in its frame is not looked at.
frame_accepted :
    (frame padding : List ℕ) (s : ℕ)
    → inet_cksum frame s ≡ 0
    → udp_header_len ≤ length frame
    → word_at 4 (frame ++ padding) ≡ some (length frame)
    → check_udp_integrity (length frame) s (frame ++ padding) ≡ accepted
unfolding check_udp_integrity
frame_accepted frame padding s sum long word =
    rw (take-append frame padding, word) (ground (arith, length-append frame padding))

udp_payload :
    (n : ℕ) (xs padding : List ℕ)
    → n ≡ udp_header_len + length xs
    → take (n - 8) (xs ++ padding) ≡ xs
udp_payload n xs padding h =
    let e : n - 8 ≡ length xs = omega arith in rw e (take-append xs padding)

module _ (p : UdpPacket) (s : ℕ) (v : IsUdp p) where
  udp_frame-cksum :
      s ≤ 5 * 2 ^ 64
      → dropped_carry (word_sum (udp_blank p) s) ≡ 0
      → inet_cksum (udp_frame p s) s ≡ 0
  unfolding sum16
  udp_frame-cksum small carry =
      let ck : inet_cksum (udp_blank p) s < 2 ^ 16 = inet_cksum-lt (udp_blank p) s in
      let blank : Bytes (udp_blank p) = udp_words-Bytes p 0 v (omega arith) in
      let full : Bytes (udp_frame p s) = udp_words-Bytes p (inet_cksum (udp_blank p) s) v ck in
      inet_cksum-filled (udp_blank p) (udp_frame p s) s blank.all full.all (omega arith)
        (omega arith) small carry (omega arith)

  assemble_udp-frame : assemble_udp p s ≡ some (udp_frame p s)
  unfolding assemble_udp
  assemble_udp-frame = ground arith

  frame_parsed : (padding : List ℕ) → parse_udp (udp_frame p s ++ padding) ≡ some p
  unfolding parse_udp
  frame_parsed padding = λ i. some (record {
    sport = word_lem p.sport i;
    dport = word_lem p.dport i;
    payload = udp_payload _ p.payload padding (word_lem (udp_len p)) i;
  })

-- A UDP packet with non-zero ports of 16 bits and at most 65527 bytes is assembled, whatever the sum of
-- the pseudo header, if the checksum drops no carry; the frame has the length of header and data. Behind
-- an IP header that tells its length, with any padding after it, the parser accepts the frame and
-- reads the packet from it.
pub parse_udp-assemble_udp :
    (p : UdpPacket) (s : ℕ) (padding : List ℕ)
    → IsUdp p
    → 0 < p.sport
    → 0 < p.dport
    → s ≤ 5 * 2 ^ 64
    → dropped_carry (word_sum (udp_blank p) s) ≡ 0
    → (frame : List ℕ) × (assemble_udp p s ≡ some frame)
      × (length frame ≡ udp_len p)
      × (check_udp_integrity (length frame) s (frame ++ padding) ≡ accepted)
      × (parse_udp (frame ++ padding) ≡ some p)
      × (check_udp_sanity p ≡ accepted)
unfolding check_udp_sanity
parse_udp-assemble_udp p s padding v sport dport small carry = (
  udp_frame p s,
  assemble_udp-frame p s v,
  omega arith,
  frame_accepted (udp_frame p s) padding s (udp_frame-cksum p s v small carry) (omega arith)
      (ap some (omega arith)),
  frame_parsed p s v padding,
  ground arith,
)
