-- ===== src/Icmp6/Laws.antt =====
-- How the handler answers a neighbour solicitation.
use py_tcp.Prelude.{ℕ, ◌*◌, ◌^◌, ◌≤◌, ◌≡◌, some, [], ◌∷◌, true, false, ◌||◌, ◌==◌, ap, ◌∙◌}
use py_tcp.Checksum.{word_sum}
use py_tcp.Checksum.Laws.{dropped_carry}
use py_tcp.Wire.{◌>>=◌, accepted}
use py_tcp.Address.Ip6.{is_ip6_multicast}
use py_tcp.Ip4.Output.{member}
use py_tcp.Packet.Icmp6.{neighbor_solicitation, slla, icmp6_words, icmp6_len, assemble_icmp6}
use py_tcp.Packet.Icmp6.Read.{icmp6_type, ns_target_address, first_slla, nd_opt_slla}
use py_tcp.Packet.Icmp6.Checks.{check_icmp6_integrity, check_icmp6_sanity}
use py_tcp.Packet.Icmp6.Messages.{IsIcmp6}
use py_tcp.Packet.Icmp6.Laws.{check_icmp6_integrity-assemble_icmp6}
use py_tcp.Nd.{add_nd_entry, find_nd_entry, found_nd_entry}
use py_tcp.Nd.Laws.{get?-add_nd_entry}
use py_tcp.Icmp6.{
  Ip6Received, Icmp6State, answered, advertisement, learn, answer_solicitation, handle_solicitation,
  handle_icmp6, sane_received6, checked_icmp6, phrx_icmp6,
}

solicitation_answered :
    (now : ℕ) (ip : Ip6Received) (target mac : ℕ) (s : Icmp6State)
    → check_icmp6_integrity ip.plen ip.pshdr_sum ip.frame ≡ accepted
    → check_icmp6_sanity ip.src ip.dst ip.hop ip.frame ≡ accepted
    → icmp6_type ip.frame ≡ some 135
    → ns_target_address ip.frame ≡ some target
    → nd_opt_slla ip.frame ≡ some (some mac)
    → member target s.ip6_unicast ≡ true
    → (ip.src == 0 || is_ip6_multicast ip.src) ≡ false
    → phrx_icmp6 now ip s
      ≡ (answered (advertisement ip.src target s.nd.mac_unicast), learn now ip.src (some mac) s)
unfolding phrx_icmp6
solicitation_answered now ip target mac s checked sane type asked told own single =
    ap (λ v. checked_icmp6 now ip v s) checked
    ∙ ap (λ v. sane_received6 now ip v s) sane
    ∙ ap (λ o. handle_icmp6 now ip o s) type
    ∙ ap (λ o. handle_solicitation now ip o s) asked
    ∙ rw (own, single) (ap (λ o. answer_solicitation now ip target o s) told)

find_nd_entry-learn :
    (now address mac : ℕ) (s : Icmp6State)
    → (find_nd_entry address (Icmp6State.nd (learn now address (some mac) s))).0 ≡ some mac
unfolding find_nd_entry
find_nd_entry-learn now address mac s =
    ap (λ o. (found_nd_entry address (add_nd_entry now address mac s.nd) o).0)
      (get?-add_nd_entry now address mac s.nd)

-- A neighbour solicitation for an address of the stack, assembled with the MAC address of its sender as an
-- option, whose numbers fit and whose checksum drops no carry, that the sanity check accepts and
-- whose source is neither unspecified nor a group: it is answered by an advertisement with the MAC
-- address of the stack, and a lookup of the source then finds the MAC address of the sender.
pub phrx_icmp6-find_nd_entry :
    (now src dst sum target mac : ℕ) (s : Icmp6State)
    → IsIcmp6 (neighbor_solicitation target (slla mac ∷ []))
    → sum ≤ 5 * 2 ^ 64
    → dropped_carry (word_sum (icmp6_words (neighbor_solicitation target (slla mac ∷ [])) 0) sum)
      ≡ 0
    → check_icmp6_sanity src dst 255
        (assemble_icmp6 (neighbor_solicitation target (slla mac ∷ [])) sum)
      ≡ accepted
    → member target s.ip6_unicast ≡ true
    → (src == 0 || is_ip6_multicast src) ≡ false
    → (after : Icmp6State) × (phrx_icmp6 now
          (record {
            src = src;
            dst = dst;
            hop = 255;
            plen = icmp6_len (neighbor_solicitation target (slla mac ∷ []));
            pshdr_sum = sum;
            frame = assemble_icmp6 (neighbor_solicitation target (slla mac ∷ [])) sum;
          })
          s
        ≡ (answered (advertisement src target s.nd.mac_unicast), after))
      × ((find_nd_entry src after.nd).0 ≡ some mac)
phrx_icmp6-find_nd_entry now src dst sum target mac s v small carry sane own single =
    let m = neighbor_solicitation target (slla mac ∷ []) in
    let (_, checked, read) = check_icmp6_integrity-assemble_icmp6 m sum v small carry in
    let (type, asked, options) = read in
    let told : nd_opt_slla (assemble_icmp6 m sum) ≡ some (some mac) =
      ap (λ o. o >>= (λ os. some (first_slla os))) options in
    (
      learn now src (some mac) s,
      solicitation_answered now
          (record {
            src = src;
            dst = dst;
            hop = 255;
            plen = icmp6_len m;
            pshdr_sum = sum;
            frame = assemble_icmp6 m sum;
          })
          target mac s checked sane type asked told own single,
      find_nd_entry-learn now src mac s,
    )
