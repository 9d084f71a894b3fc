-- ===== src/Packet/Tcp.antt =====
-- TCP packets: `TcpAssembler` of pytcp/protocols/tcp/fpa.py and `TcpParser` of
-- pytcp/protocols/tcp/fpp.py, with both checks enabled, as they are by default.
pub mod Options
pub mod Laws
pub mod Safety
use py_tcp.Prelude.{
  ℕ, zero, suc, ◌+◌, ◌-◌, ◌*◌, ◌/◌, ◌%◌, Option, none, some, List, [], ◌∷◌, ◌++◌, Bool, true, false,
  not, ◌&&◌, ◌||◌, ◌==◌, leb, ltb, length, take, drop, if◌then◌else◌,
}
use py_tcp.Checksum.{inet_cksum}
use py_tcp.Wire.{
  be16, be32, word_at, long_at, byte_at, set_word, test_bit, bit, ◌>>=◌, Verdict, accepted,
  rejected, crashed,
}
use Options.{
  TcpOption, mss_of, wscale_of, options_bytes, read_options, check_options, Scan, scanned,
  to_option,
}

-- The arguments of the assembler, and the fields of the parser.
pub record TcpPacket : Type 0 where
  pub sport : ℕ
  pub dport : ℕ
  pub seq : ℕ
  pub ack : ℕ
  pub flag_ns : Bool
  pub flag_crw : Bool
  pub flag_ece : Bool
  pub flag_urg : Bool
  pub flag_ack : Bool
  pub flag_psh : Bool
  pub flag_rst : Bool
  pub flag_syn : Bool
  pub flag_fin : Bool
  pub win : ℕ
  pub urp : ℕ
  pub options : List TcpOption
  pub payload : List ℕ

-- `TCP_HEADER_LEN`
abbrev pub tcp_header_len : ℕ
tcp_header_len = 20

-- `self._hlen` and `len(self)`
abbrev pub tcp_hlen : TcpPacket → ℕ
tcp_hlen p = tcp_header_len + length (options_bytes p.options)

abbrev pub tcp_len : TcpPacket → ℕ
tcp_len p = tcp_hlen p + length p.payload

abbrev pub flags_byte : TcpPacket → ℕ
flags_byte p =
    bit p.flag_crw * 128
    + bit p.flag_ece * 64
    + bit p.flag_urg * 32
    + bit p.flag_ack * 16
    + bit p.flag_psh * 8
    + bit p.flag_rst * 4
    + bit p.flag_syn * 2
    + bit p.flag_fin

-- The frame with a checksum of `cksum`.
abbrev pub tcp_words : TcpPacket → ℕ → List ℕ
tcp_words p cksum = be16 p.sport (
    be16 p.dport (
      be32 p.seq (
        be32 p.ack (
          (tcp_hlen p * 4 + bit p.flag_ns)
          ∷ flags_byte p
          ∷ be16 p.win (be16 cksum (be16 p.urp (options_bytes p.options ++ p.payload)))))))

-- The assertions of the constructor.
abbrev pub tcp_asserts : TcpPacket → Bool
tcp_asserts p =
    leb p.sport 0xffff
    && (leb p.dport 0xffff
        && (leb p.seq 0xffff_ffff
            && (leb p.ack 0xffff_ffff
                && (leb p.win 0xffff && (leb p.urp 0xffff && tcp_hlen p % 4 == 0)))))

-- `none` for an assertion, and where `struct.pack_into` refuses a header length of more than 60.
unfoldable pub assemble_tcp : TcpPacket → ℕ → Option (List ℕ)
assemble_tcp p pshdr_sum =
    if tcp_asserts p && ltb (tcp_hlen p) 64
    then some (set_word 16 (inet_cksum (tcp_words p 0) pshdr_sum) (tcp_words p 0))
    else none

-- `hlen`: `(frame[12] & 0b11110000) >> 2`
abbrev pub hlen_of : ℕ → ℕ
hlen_of byte = byte / 16 * 4

-- `_packet_integrity_check`; `dlen` is the length that the IP header tells.
unfoldable pub check_tcp_integrity : ℕ → ℕ → List ℕ → Verdict
check_tcp_integrity dlen pshdr_sum frame =
    if not (inet_cksum (take dlen frame) pshdr_sum == 0)
    then rejected
    else if not (leb tcp_header_len dlen && leb dlen (length frame))
    then rejected
    else elim (byte_at 12 frame) [
      | none ↦ crashed
      | some byte ↦
          let hlen = hlen_of byte in
          if leb tcp_header_len hlen && (leb hlen dlen && leb dlen (length frame))
          then check_options (suc hlen) hlen tcp_header_len frame
          else rejected
    ]

-- The getters of the fixed part of the header.
unfoldable pub parse_header : List ℕ → Option TcpPacket
parse_header frame = do
  sport ← word_at 0 frame
  dport ← word_at 2 frame
  seq ← long_at 4 frame
  ack ← long_at 8 frame
  high ← byte_at 12 frame
  flags ← byte_at 13 frame
  win ← word_at 14 frame
  urp ← word_at 18 frame
  some (record {
    sport = sport;
    dport = dport;
    seq = seq;
    ack = ack;
    flag_ns = test_bit 0 high;
    flag_crw = test_bit 7 flags;
    flag_ece = test_bit 6 flags;
    flag_urg = test_bit 5 flags;
    flag_ack = test_bit 4 flags;
    flag_psh = test_bit 3 flags;
    flag_rst = test_bit 2 flags;
    flag_syn = test_bit 1 flags;
    flag_fin = test_bit 0 flags;
    win = win;
    urp = urp;
    options = [];
    payload = [];
  })

-- The getters `options` and `data`, which is `frame[hlen:plen]`, for a header length.
unfoldable pub parse_rest : ℕ → List ℕ → TcpPacket → ℕ → Option TcpPacket
parse_rest dlen frame header hlen = do
  options ← to_option (read_options (suc hlen) hlen tcp_header_len frame)
  some (record header { options = options; payload = take (dlen - hlen) (drop hlen frame) })

-- All fields, read from the frame.
unfoldable pub parse_tcp : ℕ → List ℕ → Option TcpPacket
unfolding parse_header parse_rest
parse_tcp dlen frame = do
  header ← parse_header frame
  high ← byte_at 12 frame
  parse_rest dlen frame header (hlen_of high)

-- `_packet_sanity_check`
unfoldable pub check_tcp_sanity : TcpPacket → Verdict
check_tcp_sanity p =
    if p.sport == 0
    then rejected
    else if p.dport == 0
    then rejected
    else if p.flag_syn && p.flag_fin
    then rejected
    else if p.flag_syn && p.flag_rst
    then rejected
    else if p.flag_fin && p.flag_rst
    then rejected
    else if p.flag_fin && not p.flag_ack
    then rejected
    else if not (p.ack == 0) && not p.flag_ack
    then rejected
    else if not (p.urp == 0) && not p.flag_urg
    then rejected
    else accepted

-- The getters `mss` and `wscale`: 536 and none where there is no such option.
unfoldable pub tcp_mss : TcpPacket → ℕ
unfolding mss_of
tcp_mss p = mss_of p.options

unfoldable pub tcp_wscale : TcpPacket → Option ℕ
unfolding wscale_of
tcp_wscale p = wscale_of p.options
