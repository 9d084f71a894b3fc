-- ===== src/Packet/Icmp6/Messages.antt =====
-- The ICMPv6 messages that are read as they were assembled, and their parts.
use py_tcp.Prelude.{
  ℕ, suc, ◌+◌, ◌*◌, ◌/◌, ◌%◌, ◌≤◌, ◌<◌, ◌≡◌, ◌^◌, refl, some, List, ◌++◌, Bool, true, false, ◌==◌,
  length, All, arith, ap, ◌∙◌, length-append,
}
use Prim.Native.Nat.{bit_or}
use py_tcp.Prelude.Bits.{bit_or-filled}
use py_tcp.Checksum.Residue.{IsByte}
use py_tcp.Wire.{bit, accepted}
use py_tcp.Packet.Icmp6.{
  NdOption, Icmp6Message, unreachable_port, echo_request, echo_reply, router_solicitation,
  router_advertisement, neighbor_solicitation, neighbor_advertisement, mld2_report, raw_nd_options,
  na_flags, ra_flags,
}
use py_tcp.Packet.Icmp6.Read.{
  icmp6_type, icmp6_code, icmp6_un_data, icmp6_ec_id, icmp6_ec_seq, icmp6_ec_data, ra_hop,
  ra_flag_m, ra_flag_o, ra_router_lifetime, ra_reachable_time, ra_retrans_timer, ns_target_address,
  na_flag_r, na_flag_s, na_flag_o, na_target_address, nd_options, read_nd_options,
}
use py_tcp.Packet.Icmp6.Checks.{check_nd_options}
use py_tcp.Packet.Icmp6.Options.{
  IsLinkLayer, read_nd_options-raw, check_nd_options-raw, length-raw_nd_options,
}

-- The options are link-layer addresses, and not too many for an IPv6 packet.
pub record IsOptions (os : List NdOption) : Type 0 where
  pub link_layer : All IsLinkLayer os
  pub few : length os ≤ 8000

-- What data can be carried: bytes, and not too many.
pub record IsBody (body : List ℕ) : Type 0 where
  pub bytes : All IsByte body
  pub short : length body ≤ 0xff00

-- The numbers of a message fit their fields, addresses have 128 bits, and the options are link-layer
-- addresses. A message about an unreachable port has at least four bytes of data. Reports are left out.
pub data IsIcmp6 : Icmp6Message → Type 0 where
  port_fits : {body : List ℕ} → 4 ≤ length body → IsBody body → IsIcmp6 (unreachable_port body)
  request_fits :
      {id seq : ℕ} {body : List ℕ}
      → id ≤ 0xffff
      → seq ≤ 0xffff
      → IsBody body
      → IsIcmp6 (echo_request id seq body)
  reply_fits :
      {id seq : ℕ} {body : List ℕ}
      → id ≤ 0xffff
      → seq ≤ 0xffff
      → IsBody body
      → IsIcmp6 (echo_reply id seq body)
  rs_fits : {os : List NdOption} → IsOptions os → IsIcmp6 (router_solicitation os)
  ra_fits :
      {hop lifetime reachable retrans : ℕ} {m o : Bool} {os : List NdOption}
      → hop ≤ 0xff
      → lifetime ≤ 0xffff
      → reachable < 2 ^ 32
      → retrans < 2 ^ 32
      → IsOptions os
      → IsIcmp6 (router_advertisement hop m o lifetime reachable retrans os)
  ns_fits :
      {target : ℕ} {os : List NdOption}
      → target < 2 ^ 128
      → IsOptions os
      → IsIcmp6 (neighbor_solicitation target os)
  na_fits :
      {r s o : Bool} {target : ℕ} {os : List NdOption}
      → target < 2 ^ 128
      → IsOptions os
      → IsIcmp6 (neighbor_advertisement r s o target os)

-- The getters of the parser return the fields of a message. Those of the options of a router solicitation
-- are left out: the parser starts to read them four bytes too late.
abbrev pub IsRead6 : Icmp6Message → ℕ → List ℕ → Type 0
IsRead6 (unreachable_port body) plen frame =
    (icmp6_type frame ≡ some 1)
    × (icmp6_code frame ≡ some 4)
    × (icmp6_un_data plen frame ≡ some body)
IsRead6 (echo_request id seq body) plen frame =
    (icmp6_type frame ≡ some 128)
    × (icmp6_ec_id frame ≡ some id)
    × (icmp6_ec_seq frame ≡ some seq)
    × (icmp6_ec_data plen frame ≡ some body)
IsRead6 (echo_reply id seq body) plen frame =
    (icmp6_type frame ≡ some 129)
    × (icmp6_ec_id frame ≡ some id)
    × (icmp6_ec_seq frame ≡ some seq)
    × (icmp6_ec_data plen frame ≡ some body)
IsRead6 (router_solicitation os) plen frame =
    (icmp6_type frame ≡ some 133) × (icmp6_code frame ≡ some 0)
IsRead6 (router_advertisement hop m o lifetime reachable retrans os) plen frame =
    (icmp6_type frame ≡ some 134)
    × (ra_hop frame ≡ some hop)
    × (ra_flag_m frame ≡ some m)
    × (ra_flag_o frame ≡ some o)
    × (ra_router_lifetime frame ≡ some lifetime)
    × (ra_reachable_time frame ≡ some reachable)
    × (ra_retrans_timer frame ≡ some retrans)
    × (nd_options frame ≡ some os)
IsRead6 (neighbor_solicitation target os) plen frame =
    (icmp6_type frame ≡ some 135)
    × (ns_target_address frame ≡ some target)
    × (nd_options frame ≡ some os)
IsRead6 (neighbor_advertisement r s o target os) plen frame =
    (icmp6_type frame ≡ some 136)
    × (na_flag_r frame ≡ some r)
    × (na_flag_s frame ≡ some s)
    × (na_flag_o frame ≡ some o)
    × (na_target_address frame ≡ some target)
    × (nd_options frame ≡ some os)
IsRead6 (mld2_report rs) plen frame = (icmp6_type frame ≡ some 143) × (icmp6_code frame ≡ some 0)

-- The options behind a part of the frame.
pub options_read :
    (front : List ℕ) (os : List NdOption)
    → IsOptions os
    → read_nd_options
        (suc (length (front ++ raw_nd_options os)))
        (length front)
        (front ++ raw_nd_options os)
      ≡ some os
options_read front os v =
    read_nd_options-raw (suc (length (front ++ raw_nd_options os))) front os
      (omega
        (arith, length-append front (raw_nd_options os), length-raw_nd_options os v.link_layer))
      v.link_layer

pub options_checked :
    (front : List ℕ) (os : List NdOption)
    → IsOptions os
    → check_nd_options
        (suc (length (front ++ raw_nd_options os)))
        (length front)
        (front ++ raw_nd_options os)
      ≡ accepted
options_checked front os v =
    check_nd_options-raw (suc (length (front ++ raw_nd_options os))) front os
      (omega
        (arith, length-append front (raw_nd_options os), length-raw_nd_options os v.link_layer))
      v.link_layer

pub bit_read : (b : Bool) → (bit b < 2) × ((bit b == 1) ≡ b)
bit_read true = (omega arith, refl)
bit_read false = (omega arith, refl)

pub ra_flags_read :
    (m o : Bool)
    → (ra_flags m o < 256)
      × ((ra_flags m o / 2 ^ 7 % 2 == 1) ≡ m)
      × ((ra_flags m o / 2 ^ 6 % 2 == 1) ≡ o)
ra_flags_read m o =
    let (small, one) = bit_read m in
    let (small', one') = bit_read o in
    let flags : ra_flags m o ≡ bit m * 2 ^ 7 + bit o * 2 ^ 6 =
      bit_or-filled 7 (bit m) (bit o * 2 ^ 6) (omega arith) in
    let high : ra_flags m o / 2 ^ 7 % 2 ≡ bit m = omega (arith, flags) in
    let low : ra_flags m o / 2 ^ 6 % 2 ≡ bit o = omega (arith, flags) in
    (omega (arith, flags), ap (λ b. b == 1) high ∙ one, ap (λ b. b == 1) low ∙ one')

-- The byte of a neighbour advertisement that has the flags.
abbrev na_byte : Bool → Bool → Bool → ℕ
na_byte r s o = na_flags r s o / 65536 / 256

pub na_flags_read :
    (r s o : Bool)
    → (na_flags r s o < 2 ^ 32)
      × ((na_byte r s o / 2 ^ 7 % 2 == 1) ≡ r)
      × ((na_byte r s o / 2 ^ 6 % 2 == 1) ≡ s)
      × ((na_byte r s o / 2 ^ 5 % 2 == 1) ≡ o)
na_flags_read r s o =
    let (small, one) = bit_read r in
    let (small', one') = bit_read s in
    let (small'', one'') = bit_read o in
    let upper : bit_or (bit r * 2 ^ 31) (bit s * 2 ^ 30) ≡ (bit r * 2 + bit s) * 2 ^ 30 =
      bit_or-filled 31 (bit r) (bit s * 2 ^ 30) (omega arith) ∙ omega arith in
    let flags : na_flags r s o ≡ (bit r * 2 + bit s) * 2 ^ 30 + bit o * 2 ^ 29 =
      ap (λ n. bit_or n (bit o * 2 ^ 29)) upper
      ∙ bit_or-filled 30 (bit r * 2 + bit s) (bit o * 2 ^ 29) (omega arith) in
    let first : na_byte r s o / 2 ^ 7 % 2 ≡ bit r = omega (arith, flags) in
    let second : na_byte r s o / 2 ^ 6 % 2 ≡ bit s = omega (arith, flags) in
    let third : na_byte r s o / 2 ^ 5 % 2 ≡ bit o = omega (arith, flags) in
    (
      omega (arith, flags),
      ap (λ b. b == 1) first ∙ one,
      ap (λ b. b == 1) second ∙ one',
      ap (λ b. b == 1) third ∙ one'',
    )
