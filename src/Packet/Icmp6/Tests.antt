-- ===== src/Packet/Icmp6/Tests.antt =====
-- ICMPv6 messages at concrete inputs.
use py_tcp.Prelude.{◌≡◌, refl, List, ℕ, [], ◌∷◌, ◌++◌, length, arith}
use py_tcp.Checksum.{inet_cksum, word_sum, sum_longs, sum_quads, shifted_remainder, remainder}
use py_tcp.Checksum.Laws.{carried, dropped_carry}
use py_tcp.Wire.{accepted, crashed}
use py_tcp.Packet.Icmp6.{
  Icmp6Message, neighbor_solicitation, slla, icmp6_words, icmp6_len, assemble_icmp6, raw_nd_options,
}
use py_tcp.Packet.Icmp6.Checks.{check_icmp6_integrity}
use py_tcp.Packet.Icmp6.Messages.{IsIcmp6, ns_fits, IsRead6}
use py_tcp.Packet.Icmp6.Laws.{check_icmp6_integrity-assemble_icmp6, check_icmp6_integrity-crashes}

-- A solicitation for fe80::7 from the address 02:00:00:00:00:01.
abbrev solicitation : Icmp6Message
solicitation =
    neighbor_solicitation 0xfe80_0000_0000_0000_0000_0000_0000_0007 (slla 0x0200_0000_0001 ∷ [])

solicitation-IsIcmp6 : IsIcmp6 solicitation
solicitation-IsIcmp6 =
    ns_fits (omega arith) (record { link_layer = (omega arith, tt); few = omega arith })

solicitation-carry : dropped_carry (word_sum (icmp6_words solicitation 0) 300) ≡ 0
unfolding carried word_sum sum_longs sum_quads shifted_remainder remainder raw_nd_options
solicitation-carry = refl

check_icmp6_integrity-assemble_icmp6_example :
    (length (assemble_icmp6 solicitation 300) ≡ icmp6_len solicitation)
    × (check_icmp6_integrity (icmp6_len solicitation) 300 (assemble_icmp6 solicitation 300)
        ≡ accepted)
    × IsRead6 solicitation (icmp6_len solicitation) (assemble_icmp6 solicitation 300)
check_icmp6_integrity-assemble_icmp6_example =
    check_icmp6_integrity-assemble_icmp6 solicitation 300 solicitation-IsIcmp6 (omega arith)
      solicitation-carry

-- A solicitation with one byte too many, and its checksum.
abbrev cut_header : List ℕ
cut_header =
    135 ∷ 0 ∷ 119 ∷ 255 ∷ 0 ∷ 0 ∷ 0 ∷ 0 ∷ 0 ∷ 0 ∷ 0 ∷ 0 ∷ 0 ∷ 0 ∷ 0 ∷ 0 ∷ 0 ∷ 0 ∷ 0 ∷ 0 ∷ 0 ∷ 0 ∷ 0
    ∷ 0 ∷ []

cut_sum : inet_cksum (cut_header ++ (1 ∷ [])) 0 ≡ 0
unfolding inet_cksum
cut_sum = refl

check_icmp6_integrity-crashes_example :
    check_icmp6_integrity 25 0 (cut_header ++ (1 ∷ [])) ≡ crashed
check_icmp6_integrity-crashes_example =
    check_icmp6_integrity-crashes cut_header 0 1 refl refl cut_sum
