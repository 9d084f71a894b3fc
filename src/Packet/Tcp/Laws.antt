-- ===== src/Packet/Tcp/Laws.antt =====
-- What the TCP parser makes of assembled packets.
use py_tcp.Prelude.{
  ℕ, suc, ◌+◌, ◌-◌, ◌*◌, ◌/◌, ◌%◌, ◌≤◌, ◌<◌, ◌≡◌, ◌^◌, refl, some, List, [], ◌++◌, Bool, true,
  false, ◌==◌, length, take, drop, drop-append, drop-drop, All, All-append, take-append,
  length-append, arith, ap, sym, ◌∙◌,
}
use mathlib.Core.List.{append_assoc}
use py_tcp.Checksum.{inet_cksum, word_sum}
use py_tcp.Checksum.Reference.{sum16}
use py_tcp.Checksum.Residue.{IsByte}
use py_tcp.Checksum.Laws.{inet_cksum-filled, inet_cksum-lt, dropped_carry}
use py_tcp.Wire.{
  be16, byte_at, set_word, test_bit, bit, Bytes, be16-Bytes, be32-Bytes, word_lem, long_lem, ◌>>=◌,
  accepted,
}
use py_tcp.Packet.Tcp.{
  TcpPacket, tcp_header_len, tcp_hlen, tcp_len, flags_byte, tcp_words, assemble_tcp, hlen_of,
  check_tcp_integrity, parse_header, parse_rest, parse_tcp,
}
use py_tcp.Packet.Tcp.Options.{options_bytes, read_options, check_options, scanned}
use py_tcp.Packet.Tcp.Options.Laws.{
  IsSent, read_options-bytes, check_options-bytes, length-options_bytes, options_bytes-Bytes,
}

-- The numbers fit their fields, the options are sent ones that fill up a header of whole words, and the
-- length fits the pseudo header.
pub record IsTcp (p : TcpPacket) : Type 0 where
  pub sport_fits : p.sport ≤ 0xffff
  pub dport_fits : p.dport ≤ 0xffff
  pub seq_fits : p.seq ≤ 0xffff_ffff
  pub ack_fits : p.ack ≤ 0xffff_ffff
  pub win_fits : p.win ≤ 0xffff
  pub urp_fits : p.urp ≤ 0xffff
  pub sent : All IsSent p.options
  pub words : tcp_hlen p % 4 ≡ 0
  pub hlen_fits : tcp_hlen p ≤ 60
  pub len_fits : tcp_len p ≤ 0xffff
  pub bytes : All IsByte p.payload

bit-lt : (b : Bool) → bit b < 2
bit-lt true = omega arith
bit-lt false = omega arith

bit_lem : (b : Bool) → (bit b == 1) ≡ b
bit_lem true = refl
bit_lem false = refl

read_bit : (k n : ℕ) (b : Bool) → n / 2 ^ k % 2 ≡ bit b → test_bit k n ≡ b
read_bit k n b h = ap (λ m. m == 1) h ∙ bit_lem b

-- Each flag is read from its place.
module _ (p : TcpPacket) where
  flag_bits :
      (flags_byte p < 256)
      × (flags_byte p / 2 ^ 7 % 2 ≡ bit p.flag_crw)
      × (flags_byte p / 2 ^ 6 % 2 ≡ bit p.flag_ece)
      × (flags_byte p / 2 ^ 5 % 2 ≡ bit p.flag_urg)
      × (flags_byte p / 2 ^ 4 % 2 ≡ bit p.flag_ack)
      × (flags_byte p / 2 ^ 3 % 2 ≡ bit p.flag_psh)
      × (flags_byte p / 2 ^ 2 % 2 ≡ bit p.flag_rst)
      × (flags_byte p / 2 ^ 1 % 2 ≡ bit p.flag_syn)
      × (flags_byte p / 2 ^ 0 % 2 ≡ bit p.flag_fin)
  flag_bits = omega (
    arith,
    bit-lt p.flag_crw,
    bit-lt p.flag_ece,
    bit-lt p.flag_urg,
    bit-lt p.flag_ack,
    bit-lt p.flag_psh,
    bit-lt p.flag_rst,
    bit-lt p.flag_syn,
    bit-lt p.flag_fin,
  )

  -- The header length is read from the upper half of its byte, the flag NS from the lowest bit.
  high_byte :
      tcp_hlen p % 4 ≡ 0
      → tcp_hlen p ≤ 60
      → (hlen_of (tcp_hlen p * 4 + bit p.flag_ns) ≡ tcp_hlen p)
        × ((tcp_hlen p * 4 + bit p.flag_ns) / 2 ^ 0 % 2 ≡ bit p.flag_ns)
        × (tcp_hlen p * 4 + bit p.flag_ns < 256)
  high_byte h k = omega (arith, bit-lt p.flag_ns)

-- The frame that is assembled.
abbrev pub tcp_frame : TcpPacket → ℕ → List ℕ
tcp_frame p s = set_word 16 (inet_cksum (tcp_words p 0) s) (tcp_words p 0)

segment_accepted :
    (frame : List ℕ) (dlen s byte hlen : ℕ)
    → inet_cksum (take dlen frame) s ≡ 0
    → tcp_header_len ≤ dlen
    → dlen ≤ length frame
    → byte_at 12 frame ≡ some byte
    → hlen_of byte ≡ hlen
    → (tcp_header_len ≤ hlen) × (hlen ≤ dlen)
    → check_options (suc hlen) hlen tcp_header_len frame ≡ accepted
    → check_tcp_integrity dlen s frame ≡ accepted
unfolding check_tcp_integrity
segment_accepted frame dlen s byte hlen sum low fits at e range options =
    rw (sum, at, e) (ground (arith, options))

module _ (p : TcpPacket) (v : IsTcp p) where
  tcp_words-Bytes : (cksum : ℕ) → cksum < 2 ^ 16 → Bytes (tcp_words p cksum)
  tcp_words-Bytes cksum h =
      let bits = (flag_bits p).0 in
      let high = (high_byte p v.words v.hlen_fits).2 in
      let rest : Bytes
          (be16 p.win (be16 cksum (be16 p.urp (options_bytes p.options ++ p.payload)))) =
        be16-Bytes (omega arith) (
          be16-Bytes (omega arith) (
            be16-Bytes (omega arith) (record {
              all =
                  All-append IsByte (options_bytes p.options) p.payload
                    (options_bytes-Bytes p.options v.sent).all v.bytes;
            }))) in
      be16-Bytes (omega arith) (
        be16-Bytes (omega arith) (
          be32-Bytes (omega arith)
            (be32-Bytes (omega arith) (record { all = (high, (bits, rest.all)) }))))

  words-length : (cksum : ℕ) → length (tcp_words p cksum) ≡ tcp_len p
  words-length cksum = omega (arith, length-append (options_bytes p.options) p.payload)

  tcp_frame-cksum :
      (s : ℕ)
      → s ≤ 5 * 2 ^ 64
      → dropped_carry (word_sum (tcp_words p 0) s) ≡ 0
      → inet_cksum (tcp_frame p s) s ≡ 0
  unfolding sum16
  tcp_frame-cksum s small carry =
      let ck : inet_cksum (tcp_words p 0) s < 2 ^ 16 = inet_cksum-lt (tcp_words p 0) s in
      let blank : Bytes (tcp_words p 0) = tcp_words-Bytes 0 (omega arith) in
      let full : Bytes (tcp_frame p s) = tcp_words-Bytes (inet_cksum (tcp_words p 0) s) ck in
      inet_cksum-filled (tcp_words p 0) (tcp_frame p s) s blank.all full.all
        (omega (arith, words-length 0)) (omega (arith, words-length (inet_cksum (tcp_words p 0) s)))
        small carry (omega arith)

  assemble_tcp-frame : (s : ℕ) → assemble_tcp p s ≡ some (tcp_frame p s)
  unfolding assemble_tcp
  assemble_tcp-frame s = ground arith

  -- The options stand behind the fixed part of the header.
  behind_header :
      (s : ℕ) (padding : List ℕ)
      → drop tcp_header_len (tcp_frame p s ++ padding)
        ≡ options_bytes p.options ++ (p.payload ++ padding)
  behind_header s padding = append_assoc (options_bytes p.options) p.payload padding

  options_checked :
      (s : ℕ) (padding : List ℕ)
      → check_options (suc (tcp_hlen p)) (tcp_hlen p) tcp_header_len (tcp_frame p s ++ padding)
        ≡ accepted
  options_checked s padding =
      check_options-bytes p.options (suc (tcp_hlen p)) (tcp_hlen p) tcp_header_len
        (tcp_frame p s ++ padding) (p.payload ++ padding) v.sent (behind_header s padding) refl
        (omega (arith, length-options_bytes p.options v.sent))

  options_read :
      (s : ℕ) (padding : List ℕ)
      → read_options (suc (tcp_hlen p)) (tcp_hlen p) tcp_header_len (tcp_frame p s ++ padding)
        ≡ scanned p.options
  options_read s padding =
      read_options-bytes p.options (suc (tcp_hlen p)) (tcp_hlen p) tcp_header_len
        (tcp_frame p s ++ padding) (p.payload ++ padding) v.sent (behind_header s padding) refl
        (omega (arith, length-options_bytes p.options v.sent))

  data_read :
      (s : ℕ) (padding : List ℕ)
      → take (length (tcp_frame p s) - tcp_hlen p) (drop (tcp_hlen p) (tcp_frame p s ++ padding))
        ≡ p.payload
  data_read s padding =
      let frame = tcp_frame p s in
      let opts = options_bytes p.options in
      let left : length frame - tcp_hlen p ≡ length p.payload =
        omega (arith, words-length (inet_cksum (tcp_words p 0) s)) in
      let there : drop (tcp_hlen p) (frame ++ padding) ≡ p.payload ++ padding =
        sym (drop-drop tcp_header_len (length opts) (frame ++ padding))
        ∙ (ap (drop (length opts)) (behind_header s padding)
            ∙ drop-append opts (p.payload ++ padding)) in
      rw (left, there) (take-append p.payload padding)

  frame_accepted :
      (s : ℕ) (padding : List ℕ)
      → inet_cksum (tcp_frame p s) s ≡ 0
      → check_tcp_integrity (length (tcp_frame p s)) s (tcp_frame p s ++ padding) ≡ accepted
  frame_accepted s padding sum =
      let frame = tcp_frame p s in
      let len = words-length (inet_cksum (tcp_words p 0) s) in
      segment_accepted (frame ++ padding) (length frame) s (tcp_hlen p * 4 + bit p.flag_ns)
        (tcp_hlen p) (rw (take-append frame padding) sum) (omega (arith, len))
        (omega (arith, length-append frame padding)) refl (high_byte p v.words v.hlen_fits).0
        (omega (arith, len)) (options_checked s padding)

  header_parsed :
      (s : ℕ) (padding : List ℕ)
      → parse_header (tcp_frame p s ++ padding) ≡ some (record p { options = []; payload = [] })
  unfolding parse_header
  header_parsed s padding =
      let flags : _ = flag_bits p in
      λ i. some (record p {
        sport = word_lem p.sport i;
        dport = word_lem p.dport i;
        seq = long_lem p.seq i;
        ack = long_lem p.ack i;
        flag_ns = read_bit 0 _ p.flag_ns (high_byte p v.words v.hlen_fits).1 i;
        flag_crw = read_bit 7 _ p.flag_crw flags.1 i;
        flag_ece = read_bit 6 _ p.flag_ece flags.2 i;
        flag_urg = read_bit 5 _ p.flag_urg flags.3 i;
        flag_ack = read_bit 4 _ p.flag_ack flags.4 i;
        flag_psh = read_bit 3 _ p.flag_psh flags.5 i;
        flag_rst = read_bit 2 _ p.flag_rst flags.6 i;
        flag_syn = read_bit 1 _ p.flag_syn flags.7 i;
        flag_fin = read_bit 0 _ p.flag_fin flags.8 i;
        win = word_lem p.win i;
        urp = word_lem p.urp i;
        options = [];
        payload = [];
      })

  rest_parsed :
      (s : ℕ) (padding : List ℕ)
      → parse_rest
          (length (tcp_frame p s))
          (tcp_frame p s ++ padding)
          (record p { options = []; payload = [] })
          (tcp_hlen p)
        ≡ some p
  unfolding parse_rest
  rest_parsed s padding =
      rw (options_read s padding) (ap (λ d. some (record p { payload = d })) (data_read s padding))

  frame_parsed :
      (s : ℕ) (padding : List ℕ)
      → parse_tcp (length (tcp_frame p s)) (tcp_frame p s ++ padding) ≡ some p
  unfolding parse_tcp
  frame_parsed s padding =
      let frame = tcp_frame p s ++ padding in
      let dlen = length (tcp_frame p s) in
      ap
        (λ h.
          h >>= λ header. parse_rest dlen frame header (hlen_of (tcp_hlen p * 4 + bit p.flag_ns)))
        (header_parsed s padding)
      ∙ (ap (parse_rest dlen frame (record p { options = []; payload = [] }))
            (high_byte p v.words v.hlen_fits).0
          ∙ rest_parsed s padding)

-- A TCP packet whose numbers fit their fields, with any flags and with options that fill up a header of
-- at most 60 bytes, is assembled, whatever the sum of the pseudo header, if the checksum drops no
-- carry, to a frame of the length of header, options and data. Behind an IP header that tells its length, with any padding after it, the parser's integrity
-- check accepts the frame, and every field, option and byte is read from it.
pub parse_tcp-assemble_tcp :
    (p : TcpPacket) (s : ℕ) (padding : List ℕ)
    → IsTcp p
    → s ≤ 5 * 2 ^ 64
    → dropped_carry (word_sum (tcp_words p 0) s) ≡ 0
    → (frame : List ℕ) × (assemble_tcp p s ≡ some frame)
      × (length frame ≡ tcp_len p)
      × (check_tcp_integrity (length frame) s (frame ++ padding) ≡ accepted)
      × (parse_tcp (length frame) (frame ++ padding) ≡ some p)
parse_tcp-assemble_tcp p s padding v small carry = (
  tcp_frame p s,
  assemble_tcp-frame p v s,
  words-length p v (inet_cksum (tcp_words p 0) s),
  frame_accepted p v s padding (tcp_frame-cksum p v s small carry),
  frame_parsed p v s padding,
)
