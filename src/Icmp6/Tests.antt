-- ===== src/Icmp6/Tests.antt =====
-- A solicitation for the address of the stack.
use py_tcp.Prelude.{ℕ, ◌≡◌, refl, none, some, [], ◌∷◌, arith}
use py_tcp.Checksum.{word_sum, sum_longs, sum_quads, shifted_remainder, remainder}
use py_tcp.Checksum.Laws.{carried, dropped_carry}
use py_tcp.Wire.{accepted}
use py_tcp.Address.Ip6.{is_ip6_multicast}
use py_tcp.Ip4.Output.{member}
use py_tcp.Packet.Icmp6.{
  Icmp6Message, neighbor_solicitation, slla, icmp6_words, icmp6_len, assemble_icmp6, raw_nd_options,
}
use py_tcp.Packet.Icmp6.Read.{read_nd_options}
use py_tcp.Packet.Icmp6.Checks.{check_icmp6_sanity}
use py_tcp.Packet.Icmp6.Messages.{IsIcmp6, ns_fits}
use py_tcp.Nd.{find_nd_entry}
use py_tcp.Udp.{inet6, new_udp_socket}
use py_tcp.Icmp6.{Icmp6State, answered, advertisement, phrx_icmp6}
use py_tcp.Icmp6.Laws.{phrx_icmp6-find_nd_entry}

-- Of fe80::8, for fe80::7, from the address 02:00:00:00:00:01.
abbrev asked_address : ℕ
asked_address = 0xfe80_0000_0000_0000_0000_0000_0000_0007

abbrev asking_address : ℕ
asking_address = 0xfe80_0000_0000_0000_0000_0000_0000_0008

abbrev solicitation : Icmp6Message
solicitation = neighbor_solicitation asked_address (slla 0x0200_0000_0001 ∷ [])

solicitation-IsIcmp6 : IsIcmp6 solicitation
solicitation-IsIcmp6 =
    ns_fits (omega arith) (record { link_layer = (omega arith, tt); few = omega arith })

solicitation-carry : dropped_carry (word_sum (icmp6_words solicitation 0) 300) ≡ 0
unfolding carried word_sum sum_longs sum_quads shifted_remainder remainder raw_nd_options
solicitation-carry = refl

solicitation-sane :
    check_icmp6_sanity asking_address asked_address 255 (assemble_icmp6 solicitation 300) ≡ accepted
unfolding check_icmp6_sanity assemble_icmp6 read_nd_options raw_nd_options
solicitation-sane = refl

abbrev fresh_state : Icmp6State
fresh_state = record {
  ip6_unicast = asked_address ∷ [];
  ip6_unicast_candidate = none;
  icmp6_nd_dad_tlla = none;
  event_icmp6_nd_dad = 0;
  icmp6_ra_prefixes = [];
  event_icmp6_ra = 0;
  nd = record { ip6_host = []; mac_unicast = 0x0200_0000_0007; nd_cache = []; sent = [] };
  table = record { sockets = []; objects = λ h. new_udp_socket inet6; tcp_ports = [] };
}

phrx_icmp6-find_nd_entry_example :
    (after : Icmp6State) × (phrx_icmp6 0
        (record {
          src = asking_address;
          dst = asked_address;
          hop = 255;
          plen = icmp6_len solicitation;
          pshdr_sum = 300;
          frame = assemble_icmp6 solicitation 300;
        })
        fresh_state
      ≡ (answered (advertisement asking_address asked_address 0x0200_0000_0007), after))
    × ((find_nd_entry asking_address after.nd).0 ≡ some 0x0200_0000_0001)
unfolding member is_ip6_multicast
phrx_icmp6-find_nd_entry_example =
    phrx_icmp6-find_nd_entry 0 asking_address asked_address 300 asked_address 0x0200_0000_0001
      fresh_state solicitation-IsIcmp6 (omega arith) solicitation-carry solicitation-sane refl refl
