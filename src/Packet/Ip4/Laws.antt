-- ===== src/Packet/Ip4/Laws.antt =====
-- What the IPv4 parser makes of assembled packets.
use py_tcp.Prelude.{
  ℕ, ◌+◌, ◌-◌, ◌*◌, ◌/◌, ◌%◌, ◌≤◌, ◌<◌, ◌≡◌, ◌^◌, refl, some, List, [], ◌∷◌, ◌++◌, Bool, true,
  false, ◌==◌, length, arith, ap, sym, ◌∙◌,
}
use py_tcp.Prelude.Bits.{bit_or-filled}
use py_tcp.Checksum.{inet_cksum}
use py_tcp.Checksum.Reference.{sum16}
use py_tcp.Checksum.Laws.{inet_cksum-filled, inet_cksum-lt, header_keeps_carry}
use py_tcp.Wire.{
  be16, be32, set_word, bit, Bytes, be16-Bytes, be32-Bytes, word_lem, long_lem, ◌>>=◌, accepted,
}
use py_tcp.Packet.Tcp.Options.{check_options}
use py_tcp.Packet.Ip4.{
  Ip4Header, Ip4Packet, ip4_plen, service_byte, fragment_word, header_words, is_known_proto,
  assemble_header, pseudo_sum, check_ip4_integrity, read_ip4_options, parse_fixed, parse_ip4,
  packet_of,
}
use py_tcp.Ip4.{header_len}

-- A header without options, as the stack sends them, around `dlen` bytes: the numbers fit their fields,
-- and the offset of a fragment is a multiple of 8.
pub record IsIp4 (h : Ip4Header) (dlen : ℕ) : Type 0 where
  pub src_fits : h.src < 2 ^ 32
  pub dst_fits : h.dst < 2 ^ 32
  pub ttl_fits : h.ttl ≤ 0xff
  pub dscp_fits : h.dscp ≤ 0x3f
  pub ecn_fits : h.ecn ≤ 0x03
  pub id_fits : h.id ≤ 0xffff
  pub offset_fits : h.offset ≤ 0xffff
  pub offset_whole : h.offset % 8 ≡ 0
  pub proto_known : is_known_proto h.proto ≡ true
  pub no_options : h.options ≡ []
  pub plen_fits : header_len + dlen ≤ 0xffff

bit-lt : (b : Bool) → bit b < 2
bit-lt true = omega arith
bit-lt false = omega arith

bit_lem : (b : Bool) → (bit b == 1) ≡ b
bit_lem true = refl
bit_lem false = refl

-- The bytes of two fields.
module _ (h : Ip4Header) (dlen : ℕ) (v : IsIp4 h dlen) where
  service : service_byte h ≡ h.dscp * 4 + h.ecn
  service = bit_or-filled 2 h.dscp h.ecn (omega arith)

  fragment : fragment_word h ≡ (bit h.flag_df * 2 + bit h.flag_mf) * 2 ^ 13 + h.offset / 8
  fragment = bit_or-filled 13 (bit h.flag_df * 2 + bit h.flag_mf) (h.offset / 8) (omega arith)

  service_read :
      (service_byte h / 2 ^ 2 ≡ h.dscp) × (service_byte h % 2 ^ 2 ≡ h.ecn) × (service_byte h < 256)
  service_read = omega (arith, service)

  fragment_read :
      (fragment_word h < 65536)
      × (fragment_word h / 256 / 2 ^ 6 % 2 ≡ bit h.flag_df)
      × (fragment_word h / 256 / 2 ^ 5 % 2 ≡ bit h.flag_mf)
      × (fragment_word h % 2 ^ 13 * 8 ≡ h.offset)
  fragment_read = omega (arith, fragment, bit-lt h.flag_df, bit-lt h.flag_mf)

-- The header that is assembled, without options.
abbrev bare : Ip4Header → Ip4Header
bare h = record h { options = [] }

abbrev made : Ip4Header → ℕ → List ℕ
made h dlen =
    set_word 10 (inet_cksum (header_words (bare h) dlen 0) 0) (header_words (bare h) dlen 0)

module _ (h : Ip4Header) (dlen : ℕ) (v : IsIp4 h dlen) where
  words-Bytes : (cksum : ℕ) → cksum < 2 ^ 16 → Bytes (header_words (bare h) dlen cksum)
  words-Bytes cksum small =
      let (_, _, low) = service_read h dlen v in
      let (word, _, _, _) = fragment_read h dlen v in
      let known : h.proto < 256 = ground (arith, v.proto_known) in
      let addresses : Bytes (be16 cksum (be32 h.src (be32 h.dst []))) =
        be16-Bytes small (be32-Bytes v.src_fits (be32-Bytes v.dst_fits (record { all = tt }))) in
      let rest : Bytes (
          be16 (ip4_plen (bare h) dlen) (
            be16 h.id (
              be16 (fragment_word h)
                (h.ttl ∷ h.proto ∷ be16 cksum (be32 h.src (be32 h.dst [])))))) =
        be16-Bytes (omega (arith, v.plen_fits)) (
          be16-Bytes (omega arith)
            (be16-Bytes word (record { all = (omega arith, (known, addresses.all)) }))) in
      record { all = (omega arith, (low, rest.all)) }

  made-cksum : inet_cksum (made h dlen) 0 ≡ 0
  unfolding sum16
  made-cksum =
      let ck : inet_cksum (header_words (bare h) dlen 0) 0 < 2 ^ 16 =
        inet_cksum-lt (header_words (bare h) dlen 0) 0 in
      let blank : Bytes (header_words (bare h) dlen 0) = words-Bytes 0 (omega arith) in
      let full : Bytes (made h dlen) =
        words-Bytes (inet_cksum (header_words (bare h) dlen 0) 0) ck in
      inet_cksum-filled (header_words (bare h) dlen 0) (made h dlen) 0 blank.all full.all
        (omega arith) (omega arith) (omega arith)
        (header_keeps_carry (header_words (bare h) dlen 0) blank.all refl) (omega arith)

  assemble_header-made : assemble_header (bare h) dlen ≡ some (made h dlen)
  unfolding assemble_header
  assemble_header-made =
      let (word, _, _, _) = fragment_read h dlen v in ground (arith, word, v.proto_known)

  -- In front of a packet of `dlen` bytes the header passes the check, with anything behind.
  made_accepted :
      (rest : List ℕ) → dlen ≤ length rest → check_ip4_integrity (made h dlen ++ rest) ≡ accepted
  unfolding check_ip4_integrity check_options
  made_accepted rest long =
      let plen = word_lem (ip4_plen (bare h) dlen) in
      rw (plen, made-cksum) (ground (arith, v.plen_fits))

  fixed_parsed : (rest : List ℕ) → parse_fixed (made h dlen ++ rest) ≡ some (bare h)
  unfolding parse_fixed
  fixed_parsed rest =
      let (dscp, ecn, _) = service_read h dlen v in
      let (_, df, mf, offset) = fragment_read h dlen v in
      λ i. some (record {
        src = long_lem h.src i;
        dst = long_lem h.dst i;
        ttl = h.ttl;
        dscp = dscp i;
        ecn = ecn i;
        id = word_lem h.id i;
        flag_df = (ap (λ m. m == 1) df ∙ bit_lem h.flag_df) i;
        flag_mf = (ap (λ m. m == 1) mf ∙ bit_lem h.flag_mf) i;
        offset = (ap (λ w. w % 2 ^ 13 * 8) (word_lem (fragment_word h)) ∙ offset) i;
        proto = h.proto;
        options = [];
      })

-- What the parser reads of a header in front of `rest`.
abbrev pub received_ip4 : Ip4Header → ℕ → List ℕ → Ip4Packet
received_ip4 h dlen rest = record {
  ver = 4;
  header = h;
  dlen = dlen;
  pshdr_sum = pseudo_sum h.src h.dst h.proto dlen;
  rest = rest;
}

made_parsed :
    (h : Ip4Header) (dlen : ℕ)
    → IsIp4 h dlen
    → (rest : List ℕ) → parse_ip4 (made h dlen ++ rest) ≡ some (received_ip4 (bare h) dlen rest)
unfolding parse_ip4 read_ip4_options
made_parsed h dlen v rest =
    let plen = ip4_plen (bare h) dlen in
    let told = plen / 256 * 256 + plen % 256 in
    let left : told - 20 ≡ dlen = omega arith in
    let frame = made h dlen ++ rest in
    ap (λ m. m >>= λ fixed. some (packet_of 69 told frame fixed [])) (fixed_parsed h dlen v rest)
    ∙ ap (λ d. some (received_ip4 (bare h) d rest)) left

bare_lem : (h : Ip4Header) → h.options ≡ [] → bare h ≡ h
bare_lem h e = λ i. record h { options = sym e i }

-- A header without options whose fields fit is assembled for a packet of `dlen` bytes. In front of at least
-- that many bytes the parser's integrity check accepts it, and every field is read from it.
pub parse_ip4-assemble_header :
    (h : Ip4Header) (dlen : ℕ)
    → IsIp4 h dlen
    → (header : List ℕ) × (assemble_header h dlen ≡ some header)
      × ((rest : List ℕ)
          → dlen ≤ length rest
          → (check_ip4_integrity (header ++ rest) ≡ accepted)
            × (parse_ip4 (header ++ rest) ≡ some (received_ip4 h dlen rest)))
parse_ip4-assemble_header h dlen v =
    let same = bare_lem h v.no_options in
    (
      made h dlen,
      ap (λ g. assemble_header g dlen) (sym same) ∙ assemble_header-made h dlen v,
      λ rest long. (
        made_accepted h dlen v rest long,
        made_parsed h dlen v rest ∙ ap (λ g. some (received_ip4 g dlen rest)) same,
      ),
    )
