-- ===== src/Packet/Ether.antt =====
-- Ethernet and ARP packets: the assemblers of pytcp/protocols/ether/fpa.py and
-- pytcp/protocols/arp/fpa.py, and the parsers of pytcp/protocols/ether/fpp.py and
-- pytcp/protocols/arp/fpp.py, with both checks enabled, as they are by default.
pub mod Laws
use py_tcp.Prelude.{
  ℕ, ◌+◌, ◌*◌, ◌/◌, ◌%◌, ◌^◌, Option, none, some, List, [], ◌∷◌, ◌++◌, Bool, true, false, not, ◌&&◌,
  ◌||◌, ◌==◌, leb, ltb, length, drop, if◌then◌else◌,
}
use py_tcp.Wire.{
  be16, be32, be48, word_at, long_at, byte_at, mac_at, ◌>>=◌, Verdict, accepted, rejected,
}

-- `ETHER_HEADER_LEN` and `ARP_HEADER_LEN`
abbrev pub ether_header_len : ℕ
ether_header_len = 14

abbrev pub arp_header_len : ℕ
arp_header_len = 28

-- The header of a frame; `ether_type` is `type` in the source.
pub record EtherHeader : Type 0 where
  pub dst : ℕ
  pub src : ℕ
  pub ether_type : ℕ

-- ARP, IPv4, IPv6 and raw data.
abbrev pub is_known_type : ℕ → Bool
is_known_type t = t == 0x0806 || (t == 0x0800 || (t == 0x86dd || t == 0xffff))

abbrev pub ether_words : EtherHeader → List ℕ → List ℕ
ether_words h rest = be48 h.dst (be48 h.src (be16 h.ether_type rest))

-- Around what the carried packet is assembled to; `none` for an assertion.
unfoldable pub assemble_ether : EtherHeader → Option (List ℕ) → Option (List ℕ)
assemble_ether h carried =
    if is_known_type h.ether_type then (do packet ← carried; some (ether_words h packet)) else none

-- `_packet_integrity_check`
unfoldable pub check_ether_integrity : List ℕ → Verdict
check_ether_integrity frame = if ltb (length frame) ether_header_len then rejected else accepted

-- `_packet_sanity_check`
unfoldable pub check_ether_sanity : EtherHeader → Verdict
check_ether_sanity h = if ltb h.ether_type 0x0600 then rejected else accepted

-- The fields, and `packet_rx.frame` behind the header.
unfoldable pub parse_ether : List ℕ → Option (EtherHeader × List ℕ)
parse_ether frame = do
  dst ← mac_at 0 frame
  src ← mac_at 6 frame
  ether_type ← word_at 12 frame
  some (record { dst = dst; src = src; ether_type = ether_type }, drop ether_header_len frame)

-- The fields of an ARP packet; the assembler sets the first four itself.
pub record ArpHeader : Type 0 where
  pub hrtype : ℕ
  pub prtype : ℕ
  pub hrlen : ℕ
  pub prlen : ℕ
  pub oper : ℕ
  pub sha : ℕ
  pub spa : ℕ
  pub tha : ℕ
  pub tpa : ℕ

-- The constructor of the assembler, for its five arguments; `none` for its assertion.
unfoldable pub new_arp : ℕ → ℕ → ℕ → ℕ → ℕ → Option ArpHeader
new_arp oper sha spa tha tpa =
    if oper == 1 || oper == 2
    then some (record {
      hrtype = 1;
      prtype = 0x0800;
      hrlen = 6;
      prlen = 4;
      oper = oper;
      sha = sha;
      spa = spa;
      tha = tha;
      tpa = tpa;
    })
    else none

unfoldable pub assemble_arp : ArpHeader → List ℕ
assemble_arp p = be16 p.hrtype (
    be16 p.prtype
      (p.hrlen ∷ p.prlen ∷ be16 p.oper (be48 p.sha (be32 p.spa (be48 p.tha (be32 p.tpa []))))))

-- `_packet_integrity_check`
unfoldable pub check_arp_integrity : List ℕ → Verdict
check_arp_integrity frame = if ltb (length frame) arp_header_len then rejected else accepted

-- `_packet_sanity_check`
unfoldable pub check_arp_sanity : ArpHeader → Verdict
check_arp_sanity p =
    if not (p.hrtype == 1)
    then rejected
    else if not (p.prtype == 0x0800)
    then rejected
    else if not (p.hrlen == 6)
    then rejected
    else if not (p.prlen == 4)
    then rejected
    else if not (p.oper == 1 || p.oper == 2)
    then rejected
    else accepted

-- All fields, read from the frame.
unfoldable pub parse_arp : List ℕ → Option ArpHeader
parse_arp frame = do
  hrtype ← word_at 0 frame
  prtype ← word_at 2 frame
  hrlen ← byte_at 4 frame
  prlen ← byte_at 5 frame
  oper ← word_at 6 frame
  sha ← mac_at 8 frame
  spa ← long_at 14 frame
  tha ← mac_at 18 frame
  tpa ← long_at 24 frame
  some (record {
    hrtype = hrtype;
    prtype = prtype;
    hrlen = hrlen;
    prlen = prlen;
    oper = oper;
    sha = sha;
    spa = spa;
    tha = tha;
    tpa = tpa;
  })
