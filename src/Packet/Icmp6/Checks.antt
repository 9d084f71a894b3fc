-- ===== src/Packet/Icmp6/Checks.antt =====
-- The integrity check and the sanity check of `Icmp6Parser` (pytcp/protocols/icmp6/fpp.py).
use py_tcp.Prelude.{
  ℕ, zero, suc, ◌+◌, ◌*◌, Option, none, some, List, Bool, true, false, not, ◌&&◌, ◌||◌, ◌==◌, leb,
  ltb, length, take, if◌then◌else◌,
}
use py_tcp.Checksum.{inet_cksum}
use py_tcp.Wire.{word_at, byte_at, Verdict, accepted, rejected, crashed, unfinished}
use py_tcp.Address.Ip6.{is_ip6_unicast, is_ip6_link_local, solicited_node_multicast}
use py_tcp.Packet.Icmp6.Read.{
  is_icmp6_echo, icmp6_type, icmp6_code, nd_opt_slla, ns_target_address, na_flag_s,
}

-- The next place of `_nd_option_integrity_check`, behind an option of `len` times eight bytes.
abbrev pub check_nd_len : ℕ → List ℕ → (ℕ → Verdict) → ℕ → Verdict
check_nd_len optr frame again len =
    if len == 0
    then rejected
    else if ltb (length frame) (optr + len * 8)
    then rejected
    else again (optr + len * 8)

abbrev pub check_nd_at : ℕ → List ℕ → (ℕ → Verdict) → Verdict
check_nd_at optr frame again =
    if ltb (length frame) (optr + 1) then rejected else elim (byte_at (optr + 1) frame) [
      | none ↦ crashed
      | some len ↦ check_nd_len optr frame again len
    ]

-- `_nd_option_integrity_check`
unfoldable pub check_nd_options : ℕ → ℕ → List ℕ → Verdict
check_nd_options zero optr frame = unfinished
check_nd_options (suc fuel) optr frame =
    if ltb optr (length frame)
    then check_nd_at optr frame (λ next. check_nd_options fuel next frame)
    else accepted

-- The loop over the records of a report; the last place must be the end of the packet.
unfoldable pub check_records : ℕ → ℕ → ℕ → List ℕ → Verdict
check_records zero optr plen frame = if optr == plen then accepted else rejected
check_records (suc n) optr plen frame =
    if ltb plen (optr + 20) then rejected else elim (byte_at (optr + 1) frame) [
      | none ↦ crashed
      | some aux ↦ elim (word_at (optr + 2) frame) [
        | none ↦ crashed
        | some sources ↦ check_records n (optr + (20 + aux + sources * 16)) plen frame
      ]
    ]

-- `not least <= self._plen <= len(self)`, in front of another check.
abbrev pub at_least : ℕ → ℕ → List ℕ → Verdict → Verdict
at_least least plen frame check =
    if leb least plen && leb plen (length frame) then check else rejected

abbrev pub check_query_len : ℕ → Option ℕ → Verdict
check_query_len plen none = crashed
check_query_len plen (some sources) = if plen == 28 + sources * 16 then accepted else rejected

abbrev pub check_report : ℕ → List ℕ → Option ℕ → Verdict
check_report plen frame none = crashed
check_report plen frame (some records) = check_records records 8 plen frame

-- The checks that depend on the type.
abbrev pub check_icmp6_type : ℕ → ℕ → List ℕ → Verdict
check_icmp6_type type plen frame =
    let options : ℕ → Verdict = λ optr. check_nd_options (suc (length frame)) optr frame in
    if type == 1
    then at_least 12 plen frame accepted
    else if is_icmp6_echo type
    then at_least 8 plen frame accepted
    else if type == 130
    then at_least 28 plen frame (check_query_len plen (word_at 26 frame))
    else if type == 133
    then at_least 8 plen frame (options 8)
    else if type == 134
    then at_least 16 plen frame (options 16)
    else if type == 135
    then at_least 24 plen frame (options 24)
    else if type == 136
    then at_least 24 plen frame (options 24)
    else if type == 143
    then at_least 8 plen frame (check_report plen frame (word_at 6 frame))
    else accepted

-- `_packet_integrity_check`; `plen` is the length that the IPv6 header tells.
unfoldable pub check_icmp6_integrity : ℕ → ℕ → List ℕ → Verdict
unfolding check_nd_options check_records
check_icmp6_integrity plen pshdr_sum frame =
    if not (inet_cksum (take plen frame) pshdr_sum == 0)
    then rejected
    else if not (leb 4 plen && leb plen (length frame))
    then rejected
    else elim (byte_at 0 frame) [ none ↦ crashed | some type ↦ check_icmp6_type type plen frame ]

-- ff02::1 and ff02::2
abbrev pub all_nodes : ℕ
all_nodes = 0xff02_0000_0000_0000_0000_0000_0000_0001

abbrev pub all_routers : ℕ
all_routers = 0xff02_0000_0000_0000_0000_0000_0000_0002

abbrev pub unless : Bool → Verdict → Verdict
unless true next = rejected
unless false next = next

-- No link-layer address from an unspecified source.
abbrev pub no_slla : Option (Option ℕ) → Verdict
no_slla none = crashed
no_slla (some none) = accepted
no_slla (some (some mac)) = rejected

abbrev pub slla_fits : ℕ → List ℕ → Verdict
slla_fits src frame = if src == 0 then no_slla (nd_opt_slla frame) else accepted

abbrev pub sane_rs : ℕ → ℕ → ℕ → ℕ → List ℕ → Verdict
sane_rs code src dst hop frame = unless (not (code == 0)) (
    unless (not (hop == 255)) (
      unless (not (is_ip6_unicast src || src == 0))
        (unless (not (dst == all_routers)) (slla_fits src frame))))

abbrev pub sane_ra : ℕ → ℕ → ℕ → ℕ → Verdict
sane_ra code src dst hop = unless (not (code == 0)) (
    unless (not (hop == 255)) (
      unless (not (is_ip6_link_local src))
        (unless (not (is_ip6_unicast dst || dst == all_nodes)) accepted)))

-- With the target that the solicitation names.
abbrev pub sane_target : ℕ → ℕ → List ℕ → Option ℕ → Verdict
sane_target src dst frame none = crashed
sane_target src dst frame (some target) =
    unless (not (dst == target || dst == solicited_node_multicast target))
      (unless (not (is_ip6_unicast target)) (slla_fits src frame))

abbrev pub sane_ns : ℕ → ℕ → ℕ → ℕ → List ℕ → Verdict
sane_ns code src dst hop frame = unless (not (code == 0)) (
    unless (not (hop == 255)) (
      unless (not (is_ip6_unicast src || src == 0))
        (sane_target src dst frame (ns_target_address frame))))

-- With the flag S of the advertisement.
abbrev pub sane_flag_s : ℕ → Option Bool → Verdict
sane_flag_s dst none = crashed
sane_flag_s dst (some true) = unless (not (is_ip6_unicast dst || dst == all_nodes)) accepted
sane_flag_s dst (some false) = unless (not (dst == all_nodes)) accepted

abbrev pub sane_na : ℕ → ℕ → ℕ → ℕ → List ℕ → Verdict
sane_na code src dst hop frame = unless (not (code == 0)) (
    unless (not (hop == 255))
      (unless (not (is_ip6_unicast src)) (sane_flag_s dst (na_flag_s frame))))

abbrev pub sane_mld2 : ℕ → ℕ → Verdict
sane_mld2 code hop = unless (not (code == 0)) (unless (not (hop == 1)) accepted)

-- `_packet_sanity_check`, for the type and the code.
abbrev pub sane_icmp6 : ℕ → ℕ → ℕ → ℕ → ℕ → List ℕ → Verdict
sane_icmp6 type code src dst hop frame =
    if type == 1
    then unless (not (leb code 6)) accepted
    else if type == 2
    then unless (not (code == 0)) accepted
    else if type == 3
    then unless (not (leb code 1)) accepted
    else if type == 4
    then unless (not (leb code 2)) accepted
    else if is_icmp6_echo type
    then unless (not (code == 0)) accepted
    else if type == 130
    then sane_mld2 code hop
    else if type == 133
    then sane_rs code src dst hop frame
    else if type == 134
    then sane_ra code src dst hop
    else if type == 135
    then sane_ns code src dst hop frame
    else if type == 136
    then sane_na code src dst hop frame
    else if type == 143
    then sane_mld2 code hop
    else accepted

unfoldable pub check_icmp6_sanity : ℕ → ℕ → ℕ → List ℕ → Verdict
unfolding is_ip6_unicast is_ip6_link_local solicited_node_multicast
check_icmp6_sanity src dst hop frame = elim (icmp6_type frame) [
  | none ↦ crashed
  | some type ↦ elim (icmp6_code frame) [
    | none ↦ crashed
    | some code ↦ sane_icmp6 type code src dst hop frame
  ]
]
