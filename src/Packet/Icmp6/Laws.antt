-- ===== src/Packet/Icmp6/Laws.antt =====
-- What the ICMPv6 parser makes of assembled messages.
use py_tcp.Prelude.{
  ℕ, ◌+◌, ◌-◌, ◌*◌, ◌≤◌, ◌≡◌, ◌^◌, refl, some, List, [], ◌∷◌, ◌++◌, true, length, take, take_all,
  arith, leb, ◌&&◌, none, ap, sym, ◌∙◌, length-append,
}
use py_tcp.Checksum.{inet_cksum, word_sum}
use py_tcp.Checksum.Laws.{dropped_carry}
use py_tcp.Wire.{word_lem, long_lem, ip6_lem, be16, be32, be128, accepted, crashed, byte_at}
use py_tcp.Packet.Icmp6.{
  Icmp6Message, unreachable_port, echo_request, echo_reply, router_solicitation,
  router_advertisement, neighbor_solicitation, neighbor_advertisement, mld2_report, na_flags,
  ra_flags, icmp6_words, icmp6_len, assemble_icmp6,
}
use py_tcp.Packet.Icmp6.Checks.{check_icmp6_integrity, check_nd_options, check_icmp6_type}
use py_tcp.Packet.Icmp6.Messages.{
  IsIcmp6, port_fits, rs_fits, ra_fits, ns_fits, na_fits, IsRead6, options_read, options_checked,
  ra_flags_read, na_flags_read,
}
use py_tcp.Packet.Icmp6.Frames.{type_of, filled, filled-parts, filled-length, assemble_icmp6-cksum}

-- The check of a message by its type.
type_checked :
    (m : Icmp6Message) (cksum plen : ℕ)
    → IsIcmp6 m
    → plen ≡ length (filled m cksum)
    → check_icmp6_type (type_of m) plen (filled m cksum) ≡ accepted
type_checked (unreachable_port body) cksum plen (port_fits l b) e = ground arith
type_checked (echo_request id seq body) cksum plen v e = ground arith
type_checked (echo_reply id seq body) cksum plen v e = ground arith
type_checked (router_solicitation os) cksum plen (rs_fits v) e =
    rw (options_checked (133 ∷ 0 ∷ be16 cksum (be32 0 [])) os v) (ground arith)
type_checked (router_advertisement hop m o lifetime reachable retrans os) cksum plen
      (ra_fits h l r t v) e =
    rw
      (options_checked
        (134
          ∷ 0
          ∷ be16 cksum (hop ∷ ra_flags m o ∷ be16 lifetime (be32 reachable (be32 retrans []))))
        os v)
      (ground arith)
type_checked (neighbor_solicitation target os) cksum plen (ns_fits t v) e =
    rw (options_checked (135 ∷ 0 ∷ be16 cksum (be32 0 (be128 target []))) os v) (ground arith)
type_checked (neighbor_advertisement r s o target os) cksum plen (na_fits t v) e =
    rw (options_checked (136 ∷ 0 ∷ be16 cksum (be32 (na_flags r s o) (be128 target []))) os v)
      (ground arith)
type_checked (mld2_report rs) cksum plen v e = elim v [ ]

-- The getters on the whole frame.
body_read : (body : List ℕ) → take (8 + length body - 8) body ≡ body
body_read body = let e : 8 + length body - 8 ≡ length body = omega arith in rw e (take_all body)

filled-IsRead6 :
    (m : Icmp6Message) (cksum : ℕ) → IsIcmp6 m → IsRead6 m (icmp6_len m) (filled m cksum)
filled-IsRead6 (unreachable_port body) cksum v = (refl, refl, ap some (body_read body))
filled-IsRead6 (echo_request id seq body) cksum v =
    (refl, ap some (word_lem id), ap some (word_lem seq), ap some (body_read body))
filled-IsRead6 (echo_reply id seq body) cksum v =
    (refl, ap some (word_lem id), ap some (word_lem seq), ap some (body_read body))
filled-IsRead6 (router_solicitation os) cksum v = (refl, refl)
filled-IsRead6 (router_advertisement hop m o lifetime reachable retrans os) cksum
      (ra_fits h l r t v) =
    let (_, flag_m, flag_o) = ra_flags_read m o in
    (
      refl,
      refl,
      ap some flag_m,
      ap some flag_o,
      ap some (word_lem lifetime),
      ap some (long_lem reachable),
      ap some (long_lem retrans),
      options_read
          (134
            ∷ 0
            ∷ be16 cksum (hop ∷ ra_flags m o ∷ be16 lifetime (be32 reachable (be32 retrans []))))
          os v,
    )
filled-IsRead6 (neighbor_solicitation target os) cksum (ns_fits t v) = (
  refl,
  ap some (ip6_lem target),
  options_read (135 ∷ 0 ∷ be16 cksum (be32 0 (be128 target []))) os v,
)
filled-IsRead6 (neighbor_advertisement r s o target os) cksum (na_fits t v) =
    let (_, flag_r, flag_s, flag_o) = na_flags_read r s o in
    (
      refl,
      ap some flag_r,
      ap some flag_s,
      ap some flag_o,
      ap some (ip6_lem target),
      options_read (136 ∷ 0 ∷ be16 cksum (be32 (na_flags r s o) (be128 target []))) os v,
    )
filled-IsRead6 (mld2_report rs) cksum v = (refl, refl)

blank_same : (m : Icmp6Message) → filled m 0 ≡ icmp6_words m 0
blank_same (unreachable_port body) = refl
blank_same (echo_request id seq body) = refl
blank_same (echo_reply id seq body) = refl
blank_same (router_solicitation os) = refl
blank_same (router_advertisement hop m o lifetime reachable retrans os) = refl
blank_same (neighbor_solicitation target os) = refl
blank_same (neighbor_advertisement r s o target os) = refl
blank_same (mld2_report rs) = refl

filled-accepted :
    (m : Icmp6Message) (cksum s : ℕ)
    → IsIcmp6 m
    → inet_cksum (filled m cksum) s ≡ 0
    → check_icmp6_integrity (icmp6_len m) s (filled m cksum) ≡ accepted
unfolding check_icmp6_integrity
filled-accepted m cksum s v sum =
    let frame = filled m cksum in
    let told : icmp6_len m ≡ length frame = sym (filled-length m cksum) in
    let whole : take (icmp6_len m) frame ≡ frame = ap (λ n. take n frame) told ∙ take_all frame in
    let first : byte_at 0 frame ≡ some (type_of m) = ap (byte_at 0) (filled-parts m cksum) in
    let long : 4 ≤ length frame = omega (arith, ap length (filled-parts m cksum)) in
    let least : (leb 4 (icmp6_len m) && leb (icmp6_len m) (length frame)) ≡ true =
      ground (arith, told, long) in
    rw (whole, sum, least, first) (type_checked m cksum (icmp6_len m) v told)

-- An ICMPv6 message, other than a report of multicast listeners, whose numbers and data fit, whose options
-- are link-layer addresses and no others, and that has at least four bytes of data if it is about an
-- unreachable port, is assembled to a frame of its length, if the checksum drops no carry for the sum
-- of the pseudo header. The parser's integrity check accepts the frame, and its getters read the type
-- and the fields of the message, and its options unless it is a router solicitation.
pub check_icmp6_integrity-assemble_icmp6 :
    (m : Icmp6Message) (s : ℕ)
    → IsIcmp6 m
    → s ≤ 5 * 2 ^ 64
    → dropped_carry (word_sum (icmp6_words m 0) s) ≡ 0
    → (length (assemble_icmp6 m s) ≡ icmp6_len m)
      × (check_icmp6_integrity (icmp6_len m) s (assemble_icmp6 m s) ≡ accepted)
      × IsRead6 m (icmp6_len m) (assemble_icmp6 m s)
unfolding assemble_icmp6
check_icmp6_integrity-assemble_icmp6 m s v small carry =
    let cksum = inet_cksum (icmp6_words m 0) s in
    let same = blank_same m in
    let total : inet_cksum (filled m cksum) s ≡ 0 =
      ap (λ b. inet_cksum (filled m (inet_cksum b s)) s) (sym same)
      ∙ assemble_icmp6-cksum m s v small (ap (λ b. dropped_carry (word_sum b s)) same ∙ carry) in
    (filled-length m cksum, filled-accepted m cksum s v total, filled-IsRead6 m cksum v)

get_elem?-length : (xs : List ℕ) → byte_at (length xs) xs ≡ none
get_elem?-length [] = refl
get_elem?-length (x ∷ xs) = get_elem?-length xs

-- A frame of an ICMPv6 message that sums to zero, with the type of a neighbour solicitation, a header of 24
-- bytes and one byte more, the first of an option: the integrity check itself raises, since it tests
-- that there is a first byte where the second one is meant.
pub check_icmp6_integrity-crashes :
    (header : List ℕ) (s option : ℕ)
    → length header ≡ 24
    → byte_at 0 (header ++ (option ∷ [])) ≡ some 135
    → inet_cksum (header ++ (option ∷ [])) s ≡ 0
    → check_icmp6_integrity 25 s (header ++ (option ∷ [])) ≡ crashed
unfolding check_icmp6_integrity check_nd_options
check_icmp6_integrity-crashes header s option long first sum =
    let frame = header ++ (option ∷ []) in
    let told : length frame ≡ 25 = omega (arith, length-append header (option ∷ []), long) in
    let whole : take 25 frame ≡ frame = ap (λ n. take n frame) (sym told) ∙ take_all frame in
    let past : byte_at 25 frame ≡ none =
      ap (λ n. byte_at n frame) (sym told) ∙ get_elem?-length frame in
    rw (whole, sum, first, past) (ground (arith, told))
