-- ===== src/Packet/Ip4.antt =====
-- IPv4 packets: `Ip4Assembler` and `Ip4FragAssembler` of pytcp/protocols/ip4/fpa.py and `Ip4Parser` of
-- pytcp/protocols/ip4/fpp.py, with both checks enabled, as they are by default.
pub mod Laws
use py_tcp.Prelude.{
  ℕ, zero, suc, ◌+◌, ◌-◌, ◌*◌, ◌/◌, ◌%◌, ◌^◌, Option, none, some, List, [], ◌∷◌, ◌++◌, Bool, true,
  false, not, ◌&&◌, ◌||◌, ◌==◌, leb, ltb, length, take, drop, if◌then◌else◌,
}
use Prim.Native.Nat.{bit_or}
use py_tcp.Checksum.{inet_cksum}
use py_tcp.Ip4.{header_len}
use py_tcp.Wire.{
  be16, be32, word_at, long_at, byte_at, set_word, test_bit, bit, ◌>>=◌, Verdict, accepted,
  rejected, crashed,
}
use py_tcp.Address.Ip4.{is_multicast, is_reserved, is_limited_broadcast}
use py_tcp.Packet.Tcp.Options.{check_options}

-- `unk` is an option that the parser does not know, with its kind, its length and its data.
pub data Ip4Option : Type 0 where
  eol nop : Ip4Option
  unk : ℕ → ℕ → List ℕ → Ip4Option

-- The arguments of the assemblers, and the fields of the parser.
pub record Ip4Header : Type 0 where
  pub src : ℕ
  pub dst : ℕ
  pub ttl : ℕ
  pub dscp : ℕ
  pub ecn : ℕ
  pub id : ℕ
  pub flag_df : Bool
  pub flag_mf : Bool
  pub offset : ℕ
  pub proto : ℕ
  pub options : List Ip4Option

-- `self._raw_options`; the assemblers have no unknown options.
abbrev pub raw_options : List Ip4Option → List ℕ
raw_options [] = []
raw_options (eol ∷ os) = 0 ∷ raw_options os
raw_options (nop ∷ os) = 1 ∷ raw_options os
raw_options (unk kind len body ∷ os) = kind ∷ len ∷ (body ++ raw_options os)

-- `self._hlen`, and `self._plen` for a carried packet of `dlen` bytes.
abbrev pub ip4_hlen : Ip4Header → ℕ
ip4_hlen h = header_len + length (raw_options h.options)

abbrev pub ip4_plen : Ip4Header → ℕ → ℕ
ip4_plen h dlen = ip4_hlen h + dlen

-- `self._ver << 4 | self._hlen >> 2`
abbrev pub version_byte : Ip4Header → ℕ
version_byte h = bit_or (4 * 2 ^ 4) (ip4_hlen h / 4)

abbrev pub service_byte : Ip4Header → ℕ
service_byte h = bit_or (h.dscp * 2 ^ 2) h.ecn

-- `self._flag_df << 14 | self._flag_mf << 13 | self._offset >> 3`
abbrev pub fragment_word : Ip4Header → ℕ
fragment_word h = bit_or ((bit h.flag_df * 2 + bit h.flag_mf) * 2 ^ 13) (h.offset / 8)

-- The header with a checksum of `cksum`.
abbrev pub header_words : Ip4Header → ℕ → ℕ → List ℕ
header_words h dlen cksum =
    version_byte h
    ∷ service_byte h
    ∷ be16 (ip4_plen h dlen) (
        be16 h.id (
          be16 (fragment_word h)
            (h.ttl ∷ h.proto ∷ be16 cksum (be32 h.src (be32 h.dst (raw_options h.options))))))

-- ICMP, UDP, TCP and raw data.
abbrev pub is_known_proto : ℕ → Bool
is_known_proto proto = proto == 1 || (proto == 17 || (proto == 6 || proto == 255))

-- The assertions of the constructors.
abbrev pub header_asserts : Ip4Header → Bool
header_asserts h =
    leb h.ttl 0xff
    && (leb h.dscp 0x3f && (leb h.ecn 0x03 && (leb h.id 0xffff && is_known_proto h.proto)))

-- The numbers that `struct.pack_into` takes.
abbrev pub header_packs : Ip4Header → ℕ → Bool
header_packs h dlen =
    leb (version_byte h) 0xff && (leb (ip4_plen h dlen) 0xffff && leb (fragment_word h) 0xffff)

-- The header; `none` where an assertion or `struct.pack_into` refuses it.
unfoldable pub assemble_header : Ip4Header → ℕ → Option (List ℕ)
assemble_header h dlen =
    if header_asserts h && header_packs h dlen
    then some (set_word 10 (inet_cksum (header_words h dlen 0) 0) (header_words h dlen 0))
    else none

-- `pshdr_sum`: the three words of the pseudo header.
abbrev pub pseudo_sum : ℕ → ℕ → ℕ → ℕ → ℕ
pseudo_sum src dst proto dlen = src + dst + (proto * 2 ^ 16 + dlen)

-- `Ip4Assembler`, which sends no fragments, around a packet of `dlen` bytes that is assembled for the
-- sum of the pseudo header.
unfoldable pub assemble_ip4 : Ip4Header → ℕ → (ℕ → Option (List ℕ)) → Option (List ℕ)
unfolding assemble_header
assemble_ip4 h dlen carried = do
  header ← assemble_header (record h { flag_mf = false; offset = 0 }) dlen
  packet ← carried (pseudo_sum h.src h.dst h.proto dlen)
  some (header ++ packet)

-- `Ip4FragAssembler`
unfoldable pub assemble_ip4_frag : Ip4Header → List ℕ → Option (List ℕ)
unfolding assemble_header
assemble_ip4_frag h payload = do
  header ← assemble_header (record h { flag_df = false }) (length payload)
  some (header ++ payload)

-- The getters `ver` and `hlen`: `frame[0] >> 4` and `(frame[0] & 0b00001111) << 2`.
abbrev pub version_of : ℕ → ℕ
version_of byte = byte / 2 ^ 4

abbrev pub ip4_hlen_of : ℕ → ℕ
ip4_hlen_of byte = byte % 2 ^ 4 * 4

-- The part of `_packet_integrity_check` behind the test of the shortest length. Its loop over the
-- options is that of TCP.
abbrev pub check_lengths : ℕ → ℕ → List ℕ → Verdict
check_lengths hlen plen frame =
    if not (leb header_len hlen && (leb hlen plen && leb plen (length frame)))
    then rejected
    else if not (inet_cksum (take hlen frame) 0 == 0)
    then rejected
    else check_options (suc hlen) hlen header_len frame

-- `_packet_integrity_check`
unfoldable pub check_ip4_integrity : List ℕ → Verdict
check_ip4_integrity frame =
    if ltb (length frame) header_len then rejected else elim (byte_at 0 frame) [
      | none ↦ crashed
      | some byte ↦ elim (word_at 2 frame) [
        | none ↦ crashed
        | some plen ↦ check_lengths (ip4_hlen_of byte) plen frame
      ]
    ]

-- What one option of the loop of `options` adds, from `optr` on: the list ends, the parser raises, or
-- there is an option and the next place.
pub data Ip4Round : Type 0 where
  ended : List Ip4Option → Ip4Round
  failed : Ip4Round
  went_on : Ip4Option → ℕ → Ip4Round

abbrev pub read_ip4_round : ℕ → List ℕ → Ip4Round
read_ip4_round optr [] = failed
read_ip4_round optr (kind ∷ []) =
    if kind == 0 then ended (eol ∷ []) else if kind == 1 then went_on nop (optr + 1) else failed
read_ip4_round optr (kind ∷ len ∷ rest) =
    if kind == 0
    then ended (eol ∷ [])
    else if kind == 1
    then went_on nop (optr + 1)
    else went_on (unk kind len (take (len - 2) rest)) (optr + len)

abbrev pub ip4_scan_on : (ℕ → Option (List Ip4Option)) → Ip4Round → Option (List Ip4Option)
ip4_scan_on again (ended os) = some os
ip4_scan_on again failed = none
ip4_scan_on again (went_on o next) = do os ← again next; some (o ∷ os)

-- The loop of `options`; `none` where it raises or does not end within the fuel.
unfoldable pub read_ip4_options : ℕ → ℕ → ℕ → List ℕ → Option (List Ip4Option)
read_ip4_options zero hlen optr frame = none
read_ip4_options (suc fuel) hlen optr frame =
    ip4_scan_on (λ next. read_ip4_options fuel hlen next frame)
      (if ltb optr hlen then read_ip4_round optr (drop optr frame) else ended [])

-- What the parser reads: the header, its version, and the packet that it carries.
pub record Ip4Packet : Type 0 where
  pub ver : ℕ
  pub header : Ip4Header
  pub dlen : ℕ
  pub pshdr_sum : ℕ
  -- `packet_rx.frame` behind the header, with what follows the packet.
  pub rest : List ℕ

-- The getters of the fixed part of the header.
unfoldable pub parse_fixed : List ℕ → Option Ip4Header
parse_fixed frame = do
  service ← byte_at 1 frame
  id ← word_at 4 frame
  high ← byte_at 6 frame
  fragment ← word_at 6 frame
  ttl ← byte_at 8 frame
  proto ← byte_at 9 frame
  src ← long_at 12 frame
  dst ← long_at 16 frame
  some (record {
    src = src;
    dst = dst;
    ttl = ttl;
    dscp = service / 2 ^ 2;
    ecn = service % 2 ^ 2;
    id = id;
    flag_df = test_bit 6 high;
    flag_mf = test_bit 5 high;
    offset = fragment % 2 ^ 13 * 8;
    proto = proto;
    options = [];
  })

-- The getters `ver`, `dlen` and `pshdr_sum`, and what is left of the frame, for the first byte and the
-- packet length.
abbrev pub packet_of : ℕ → ℕ → List ℕ → Ip4Header → List Ip4Option → Ip4Packet
packet_of byte plen frame fixed options =
    let dlen = plen - ip4_hlen_of byte in
    record {
      ver = version_of byte;
      header = record fixed { options = options };
      dlen = dlen;
      pshdr_sum = pseudo_sum fixed.src fixed.dst fixed.proto dlen;
      rest = drop (ip4_hlen_of byte) frame;
    }

-- All fields, read from the frame.
unfoldable pub parse_ip4 : List ℕ → Option Ip4Packet
unfolding parse_fixed read_ip4_options
parse_ip4 frame = do
  byte ← byte_at 0 frame
  plen ← word_at 2 frame
  fixed ← parse_fixed frame
  options ← read_ip4_options (suc (ip4_hlen_of byte)) (ip4_hlen_of byte) header_len frame
  some (packet_of byte plen frame fixed options)

-- `_packet_sanity_check`, with `config.IP4_OPTION_PACKET_DROP` false, as it is by default. The test of
-- the version for zero, in place of the ttl, changes nothing behind the one for 4.
unfoldable pub check_ip4_sanity : Ip4Packet → Verdict
check_ip4_sanity p =
    let h = p.header in
    if not (p.ver == 4)
    then rejected
    else if p.ver == 0
    then rejected
    else if is_multicast h.src
    then rejected
    else if is_reserved h.src
    then rejected
    else if is_limited_broadcast h.src
    then rejected
    else if h.flag_df && h.flag_mf
    then rejected
    else if not (h.offset == 0) && h.flag_df
    then rejected
    else accepted
