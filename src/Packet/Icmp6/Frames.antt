-- ===== src/Packet/Icmp6/Frames.antt =====
-- The frames of ICMPv6 messages: their parts, their bytes and their checksum.
use py_tcp.Prelude.{
  ℕ, ◌+◌, ◌*◌, ◌≤◌, ◌<◌, ◌≡◌, ◌^◌, refl, List, [], ◌∷◌, length, All, arith, All-append,
}
use py_tcp.Checksum.{inet_cksum, word_sum}
use py_tcp.Checksum.Reference.{sum16}
use py_tcp.Checksum.Residue.{IsByte}
use py_tcp.Checksum.Laws.{inet_cksum-filled, inet_cksum-lt, dropped_carry}
use py_tcp.Wire.{Bytes, be16-Bytes, be32-Bytes, be16, be32, be48, be64, be128, set_word}
use py_tcp.Packet.Icmp6.{
  NdOption, slla, tlla, pi, unk, Icmp6Message, unreachable_port, echo_request, echo_reply,
  router_solicitation, router_advertisement, neighbor_solicitation, neighbor_advertisement,
  mld2_report, raw_nd_options, icmp6_words, icmp6_len,
}
use py_tcp.Packet.Icmp6.Options.{IsLinkLayer, length-raw_nd_options}
use py_tcp.Packet.Icmp6.Messages.{
  IsIcmp6, port_fits, request_fits, reply_fits, rs_fits, ra_fits, ns_fits, na_fits, ra_flags_read,
  na_flags_read,
}

-- The parts of a frame: what comes in front of the checksum and behind it.
abbrev pub type_of : Icmp6Message → ℕ
type_of (unreachable_port body) = 1
type_of (echo_request id seq body) = 128
type_of (echo_reply id seq body) = 129
type_of (router_solicitation os) = 133
type_of (router_advertisement hop m o lifetime reachable retrans os) = 134
type_of (neighbor_solicitation target os) = 135
type_of (neighbor_advertisement r s o target os) = 136
type_of (mld2_report rs) = 143

abbrev behind : List ℕ → List ℕ
behind (a ∷ b ∷ c ∷ d ∷ rest) = rest
behind _ = []

abbrev pub code_of : Icmp6Message → ℕ
code_of (unreachable_port body) = 4
code_of _ = 0

-- The frame with a checksum in its place.
abbrev pub filled : Icmp6Message → ℕ → List ℕ
filled m cksum = set_word 2 cksum (icmp6_words m 0)

pub filled-parts :
    (m : Icmp6Message) (cksum : ℕ)
    → filled m cksum ≡ type_of m ∷ code_of m ∷ be16 cksum (behind (icmp6_words m 0))
filled-parts (unreachable_port body) cksum = refl
filled-parts (echo_request id seq body) cksum = refl
filled-parts (echo_reply id seq body) cksum = refl
filled-parts (router_solicitation os) cksum = refl
filled-parts (router_advertisement hop m o lifetime reachable retrans os) cksum = refl
filled-parts (neighbor_solicitation target os) cksum = refl
filled-parts (neighbor_advertisement r s o target os) cksum = refl
filled-parts (mld2_report rs) cksum = refl

be64-Bytes : {n : ℕ} {rest : List ℕ} → n < 2 ^ 64 → Bytes rest → Bytes (be64 n rest)
be64-Bytes h r = be32-Bytes (omega arith) (be32-Bytes (omega arith) r)

be128-Bytes : {n : ℕ} {rest : List ℕ} → n < 2 ^ 128 → Bytes rest → Bytes (be128 n rest)
be128-Bytes h r = be64-Bytes (omega arith) (be64-Bytes (omega arith) r)

mac-Bytes : (mac : ℕ) → mac < 2 ^ 48 → Bytes (be48 mac [])
mac-Bytes mac h = be16-Bytes (omega arith) (be32-Bytes (omega arith) (record { all = tt }))

options-Bytes : (os : List NdOption) → All IsLinkLayer os → Bytes (raw_nd_options os)
unfolding raw_nd_options
options-Bytes [] v = record { all = tt }
options-Bytes (slla mac ∷ os) v =
    let b : Bytes (be48 mac []) = mac-Bytes mac v.0 in
    let rest : Bytes (raw_nd_options os) = options-Bytes os v.1 in
    record {
      all =
          All-append IsByte (1 ∷ 1 ∷ be48 mac []) (raw_nd_options os)
            (omega arith, (omega arith, b.all)) rest.all;
    }
options-Bytes (tlla mac ∷ os) v =
    let b : Bytes (be48 mac []) = mac-Bytes mac v.0 in
    let rest : Bytes (raw_nd_options os) = options-Bytes os v.1 in
    record {
      all =
          All-append IsByte (2 ∷ 1 ∷ be48 mac []) (raw_nd_options os)
            (omega arith, (omega arith, b.all)) rest.all;
    }
options-Bytes (pi _ _ _ _ _ _ _ ∷ os) v = elim v.0 [ ]
options-Bytes (unk _ _ _ ∷ os) v = elim v.0 [ ]

behind-Bytes : (m : Icmp6Message) → IsIcmp6 m → Bytes (behind (icmp6_words m 0))
behind-Bytes (unreachable_port body) (port_fits l b) =
    be32-Bytes {n = 0} (omega arith) (record { all = b.bytes })
behind-Bytes (echo_request id seq body) (request_fits i s b) =
    be16-Bytes (omega arith) (be16-Bytes (omega arith) (record { all = b.bytes }))
behind-Bytes (echo_reply id seq body) (reply_fits i s b) =
    be16-Bytes (omega arith) (be16-Bytes (omega arith) (record { all = b.bytes }))
behind-Bytes (router_solicitation os) (rs_fits v) =
    be32-Bytes {n = 0} (omega arith) (options-Bytes os v.link_layer)
behind-Bytes (router_advertisement hop m o lifetime reachable retrans os) (ra_fits h l r t v) =
    let (small, _, _) = ra_flags_read m o in
    let rest : Bytes (be16 lifetime (be32 reachable (be32 retrans (raw_nd_options os)))) =
      be16-Bytes (omega arith) (be32-Bytes r (be32-Bytes t (options-Bytes os v.link_layer))) in
    record { all = (omega arith, (small, rest.all)) }
behind-Bytes (neighbor_solicitation target os) (ns_fits t v) =
    be32-Bytes {n = 0} (omega arith) (be128-Bytes t (options-Bytes os v.link_layer))
behind-Bytes (neighbor_advertisement r s o target os) (na_fits t v) =
    let (small, _, _, _) = na_flags_read r s o in
    be32-Bytes small (be128-Bytes t (options-Bytes os v.link_layer))
behind-Bytes (mld2_report rs) v = elim v [ ]

pub filled-length : (m : Icmp6Message) (cksum : ℕ) → length (filled m cksum) ≡ icmp6_len m
filled-length (unreachable_port body) cksum = omega arith
filled-length (echo_request id seq body) cksum = omega arith
filled-length (echo_reply id seq body) cksum = omega arith
filled-length (router_solicitation os) cksum = omega arith
filled-length (router_advertisement hop m o lifetime reachable retrans os) cksum = omega arith
filled-length (neighbor_solicitation target os) cksum = omega arith
filled-length (neighbor_advertisement r s o target os) cksum = omega arith
filled-length (mld2_report rs) cksum = omega arith

short : (m : Icmp6Message) → IsIcmp6 m → icmp6_len m ≤ 0xffff
short (unreachable_port body) (port_fits l b) = omega (arith, b.short)
short (echo_request id seq body) (request_fits i s b) = omega (arith, b.short)
short (echo_reply id seq body) (reply_fits i s b) = omega (arith, b.short)
short (router_solicitation os) (rs_fits v) =
    omega (arith, v.few, length-raw_nd_options os v.link_layer)
short (router_advertisement hop m o lifetime reachable retrans os) (ra_fits h l r t v) =
    omega (arith, v.few, length-raw_nd_options os v.link_layer)
short (neighbor_solicitation target os) (ns_fits t v) =
    omega (arith, v.few, length-raw_nd_options os v.link_layer)
short (neighbor_advertisement r s o target os) (na_fits t v) =
    omega (arith, v.few, length-raw_nd_options os v.link_layer)
short (mld2_report rs) v = elim v [ ]

filled-Bytes : (m : Icmp6Message) (cksum : ℕ) → IsIcmp6 m → cksum < 2 ^ 16 → Bytes (filled m cksum)
filled-Bytes m cksum v h =
    let body : Bytes (behind (icmp6_words m 0)) = behind-Bytes m v in
    let rest : Bytes (be16 cksum (behind (icmp6_words m 0))) =
      be16-Bytes h (record { all = body.all }) in
    let head : (type_of m < 256) × (code_of m < 256) = small_head m in
    rw (filled-parts m cksum) (record { all = (head.0, (head.1, rest.all)) })
  where
    small_head : (m : Icmp6Message) → (type_of m < 256) × (code_of m < 256)
    small_head (unreachable_port body) = omega arith
    small_head (echo_request id seq body) = omega arith
    small_head (echo_reply id seq body) = omega arith
    small_head (router_solicitation os) = omega arith
    small_head (router_advertisement hop m o lifetime reachable retrans os) = omega arith
    small_head (neighbor_solicitation target os) = omega arith
    small_head (neighbor_advertisement r s o target os) = omega arith
    small_head (mld2_report rs) = omega arith

pub assemble_icmp6-cksum :
    (m : Icmp6Message) (s : ℕ)
    → IsIcmp6 m
    → s ≤ 5 * 2 ^ 64
    → dropped_carry (word_sum (filled m 0) s) ≡ 0
    → inet_cksum (filled m (inet_cksum (filled m 0) s)) s ≡ 0
unfolding sum16
assemble_icmp6-cksum m s v small carry =
    let cksum = inet_cksum (filled m 0) s in
    let fits : cksum < 2 ^ 16 = inet_cksum-lt (filled m 0) s in
    let blank : Bytes (filled m 0) = filled-Bytes m 0 v (omega arith) in
    let full : Bytes (filled m cksum) = filled-Bytes m cksum v fits in
    let total : sum16 (filled m cksum) ≡ sum16 (filled m 0) + cksum =
      rw (filled-parts m cksum, filled-parts m 0) (omega arith) in
    inet_cksum-filled (filled m 0) (filled m cksum) s blank.all full.all
      (omega (arith, filled-length m 0, short m v))
      (omega (arith, filled-length m cksum, short m v)) small carry total
