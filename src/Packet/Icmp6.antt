-- ===== src/Packet/Icmp6.antt =====
-- ICMPv6 messages: `Icmp6Assembler`, the options of neighbour discovery and the multicast address records
-- of pytcp/protocols/icmp6/fpa.py. The parser is in the module Read.
pub mod Read
pub mod Checks
pub mod Options
pub mod Messages
pub mod Frames
pub mod Termination
pub mod Laws
mod Tests
use py_tcp.Prelude.{
  ℕ, ◌+◌, ◌*◌, ◌/◌, ◌%◌, ◌^◌, Option, none, some, List, [], ◌∷◌, ◌++◌, Bool, true, false, not, ◌&&◌,
  ◌||◌, ◌==◌, leb, ltb, length, take, if◌then◌else◌,
}
use Prim.Native.Nat.{bit_or}
use py_tcp.Checksum.{inet_cksum}
use py_tcp.Wire.{be16, be32, be48, be128, set_word, bit}
use py_tcp.Packet.Icmp4.{or_default}

-- Options of neighbour discovery. `pi` has the prefix, the length of its mask, the two lifetimes and the
-- flags L, A and R; `unk`, which no assembler makes, has a code, a length and data.
pub data NdOption : Type 0 where
  slla tlla : ℕ → NdOption
  pi : ℕ → ℕ → ℕ → ℕ → Bool → Bool → Bool → NdOption
  unk : ℕ → ℕ → List ℕ → NdOption

-- `Icmp6MulticastAddressRecord`
pub record MulticastRecord : Type 0 where
  pub record_type : ℕ
  pub multicast_address : ℕ
  pub source_address : List ℕ
  pub aux_data : List ℕ

-- The arguments of the assembler; `none` is the default `None`.
pub record Icmp6Args : Type 0 where
  pub type : ℕ
  pub code : ℕ
  pub un_data : Option (List ℕ)
  pub ec_id : Option ℕ
  pub ec_seq : Option ℕ
  pub ec_data : Option (List ℕ)
  pub ra_hop : Option ℕ
  pub ra_flag_m : Option Bool
  pub ra_flag_o : Option Bool
  pub ra_router_lifetime : Option ℕ
  pub ra_reachable_time : Option ℕ
  pub ra_retrans_timer : Option ℕ
  pub ns_target_address : Option ℕ
  pub na_flag_r : Option Bool
  pub na_flag_s : Option Bool
  pub na_flag_o : Option Bool
  pub na_target_address : Option ℕ
  pub nd_options : Option (List NdOption)
  pub mlr2_multicast_address_record : Option (List MulticastRecord)

-- What the constructor keeps, for the kinds of message that it knows.
pub data Icmp6Message : Type 0 where
  unreachable_port : List ℕ → Icmp6Message
  echo_request echo_reply : ℕ → ℕ → List ℕ → Icmp6Message
  router_solicitation : List NdOption → Icmp6Message
  router_advertisement : ℕ → Bool → Bool → ℕ → ℕ → ℕ → List NdOption → Icmp6Message
  neighbor_solicitation : ℕ → List NdOption → Icmp6Message
  neighbor_advertisement : Bool → Bool → Bool → ℕ → List NdOption → Icmp6Message
  mld2_report : List MulticastRecord → Icmp6Message

-- The constructor behind the choice of an echo message.
abbrev pub new_echo : (ℕ → ℕ → List ℕ → Icmp6Message) → Icmp6Args → Option Icmp6Message
new_echo make a =
    let id = or_default 0 a.ec_id in
    let seq = or_default 0 a.ec_seq in
    if leb id 0xffff && leb seq 0xffff then some (make id seq (or_default [] a.ec_data)) else none

-- The constructor behind the choice of a router advertisement.
abbrev pub new_router_advertisement : Icmp6Args → Option Icmp6Message
new_router_advertisement a =
    let hop = or_default 0 a.ra_hop in
    let lifetime = or_default 0 a.ra_router_lifetime in
    let reachable = or_default 0 a.ra_reachable_time in
    let retrans = or_default 0 a.ra_retrans_timer in
    if leb hop 0xff && (leb lifetime 0xffff && (ltb reachable (2 ^ 32) && ltb retrans (2 ^ 32)))
    then some (
        router_advertisement hop (or_default false a.ra_flag_m) (or_default false a.ra_flag_o)
          lifetime reachable retrans (or_default [] a.nd_options))
    else none

-- `un_data[:520]`
abbrev pub quoted : Option (List ℕ) → List ℕ
quoted none = []
quoted (some text) = take 520 text

-- The constructor; `none` is an `AssertionError`.
unfoldable pub new_icmp6 : Icmp6Args → Option Icmp6Message
new_icmp6 a =
    let options = or_default [] a.nd_options in
    if a.type == 1 && a.code == 4
    then some (unreachable_port (quoted a.un_data))
    else if a.type == 128 && a.code == 0
    then new_echo echo_request a
    else if a.type == 129 && a.code == 0
    then new_echo echo_reply a
    else if a.type == 133 && a.code == 0
    then some (router_solicitation options)
    else if a.type == 134 && a.code == 0
    then new_router_advertisement a
    else if a.type == 135 && a.code == 0
    then some (neighbor_solicitation (or_default 0 a.ns_target_address) options)
    else if a.type == 136 && a.code == 0
    then some (
        neighbor_advertisement (or_default false a.na_flag_r) (or_default false a.na_flag_s)
          (or_default false a.na_flag_o) (or_default 0 a.na_target_address) options)
    else if a.type == 143 && a.code == 0
    then some (mld2_report (or_default [] a.mlr2_multicast_address_record))
    else none

-- `self._flag_l << 7 | self._flag_a << 6 | self._flag_r << 6`
abbrev pub pi_flags : Bool → Bool → Bool → ℕ
pi_flags l a r = bit_or (bit_or (bit l * 2 ^ 7) (bit a * 2 ^ 6)) (bit r * 2 ^ 6)

-- `bytes(option)`
abbrev pub nd_option_bytes : NdOption → List ℕ
nd_option_bytes (slla mac) = 1 ∷ 1 ∷ be48 mac []
nd_option_bytes (tlla mac) = 2 ∷ 1 ∷ be48 mac []
nd_option_bytes (pi prefix mask_len valid prefer l a r) =
    3 ∷ 4 ∷ mask_len ∷ pi_flags l a r ∷ be32 valid (be32 prefer (be32 0 (be128 prefix [])))
nd_option_bytes (unk code len body) = code ∷ len ∷ body

-- `_raw_nd_options`
unfoldable pub raw_nd_options : List NdOption → List ℕ
raw_nd_options [] = []
raw_nd_options (o ∷ os) = nd_option_bytes o ++ raw_nd_options os

unfoldable pub raw_addresses : List ℕ → List ℕ
raw_addresses [] = []
raw_addresses (a ∷ as') = be128 a (raw_addresses as')

-- `raw_record`
abbrev pub raw_record : MulticastRecord → List ℕ
raw_record r =
    r.record_type
    ∷ length r.aux_data
    ∷ be16 (length r.source_address)
        (be128 r.multicast_address (raw_addresses r.source_address ++ r.aux_data))

unfoldable pub raw_records : List MulticastRecord → List ℕ
raw_records [] = []
raw_records (r ∷ rs) = raw_record r ++ raw_records rs

-- The flags R, S and O of a neighbour advertisement.
abbrev pub na_flags : Bool → Bool → Bool → ℕ
na_flags r s o = bit_or (bit_or (bit r * 2 ^ 31) (bit s * 2 ^ 30)) (bit o * 2 ^ 29)

-- `self._ra_flag_m << 7 | self._ra_flag_o << 6`
abbrev pub ra_flags : Bool → Bool → ℕ
ra_flags m o = bit_or (bit m * 2 ^ 7) (bit o * 2 ^ 6)

-- The frame with a checksum of `cksum`.
abbrev pub icmp6_words : Icmp6Message → ℕ → List ℕ
icmp6_words (unreachable_port body) cksum = 1 ∷ 4 ∷ be16 cksum (be32 0 body)
icmp6_words (echo_request id seq body) cksum = 128 ∷ 0 ∷ be16 cksum (be16 id (be16 seq body))
icmp6_words (echo_reply id seq body) cksum = 129 ∷ 0 ∷ be16 cksum (be16 id (be16 seq body))
icmp6_words (router_solicitation os) cksum = 133 ∷ 0 ∷ be16 cksum (be32 0 (raw_nd_options os))
icmp6_words (router_advertisement hop m o lifetime reachable retrans os) cksum =
    134
    ∷ 0
    ∷ be16 cksum
        (hop ∷ ra_flags m o ∷ be16 lifetime (be32 reachable (be32 retrans (raw_nd_options os))))
icmp6_words (neighbor_solicitation target os) cksum =
    135 ∷ 0 ∷ be16 cksum (be32 0 (be128 target (raw_nd_options os)))
icmp6_words (neighbor_advertisement r s o target os) cksum =
    136 ∷ 0 ∷ be16 cksum (be32 (na_flags r s o) (be128 target (raw_nd_options os)))
icmp6_words (mld2_report rs) cksum =
    143 ∷ 0 ∷ be16 cksum (be16 0 (be16 (length rs) (raw_records rs)))

-- `__len__`
abbrev pub icmp6_len : Icmp6Message → ℕ
icmp6_len (unreachable_port body) = 8 + length body
icmp6_len (echo_request id seq body) = 8 + length body
icmp6_len (echo_reply id seq body) = 8 + length body
icmp6_len (router_solicitation os) = 8 + length (raw_nd_options os)
icmp6_len (router_advertisement hop m o lifetime reachable retrans os) =
    16 + length (raw_nd_options os)
icmp6_len (neighbor_solicitation target os) = 24 + length (raw_nd_options os)
icmp6_len (neighbor_advertisement r s o target os) = 24 + length (raw_nd_options os)
icmp6_len (mld2_report rs) = 8 + length (raw_records rs)

-- `assemble`, for numbers that `struct.pack_into` takes.
unfoldable pub assemble_icmp6 : Icmp6Message → ℕ → List ℕ
unfolding raw_nd_options raw_records raw_addresses
assemble_icmp6 m pshdr_sum = set_word 2 (inet_cksum (icmp6_words m 0) pshdr_sum) (icmp6_words m 0)
