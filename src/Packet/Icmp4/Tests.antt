-- ===== src/Packet/Icmp4/Tests.antt =====
-- ICMPv4 messages at concrete inputs.
use py_tcp.Prelude.{◌≡◌, refl, [], ◌∷◌, ◌++◌, length, arith}
use py_tcp.Checksum.{word_sum, sum_longs, sum_quads, shifted_remainder, remainder}
use py_tcp.Checksum.Laws.{carried, dropped_carry}
use py_tcp.Wire.{accepted}
use py_tcp.Packet.Icmp4.{
  Icmp4Message, echo_request, icmp4_words, icmp4_len, assemble_icmp4, check_icmp4_integrity,
  check_icmp4_sanity,
}
use py_tcp.Packet.Icmp4.Laws.{IsIcmp4, request_fits, IsRead, check_icmp4_integrity-assemble_icmp4}

-- An echo request of three bytes.
abbrev ping : Icmp4Message
ping = echo_request 7 1 (1 ∷ 2 ∷ 3 ∷ [])

ping-IsIcmp4 : IsIcmp4 ping
ping-IsIcmp4 = request_fits (omega arith) (omega arith) (omega arith) (omega arith)

ping-carry : dropped_carry (word_sum (icmp4_words ping 0) 0) ≡ 0
unfolding carried word_sum sum_longs sum_quads shifted_remainder remainder
ping-carry = refl

check_icmp4_integrity-assemble_icmp4_example :
    (length (assemble_icmp4 ping) ≡ icmp4_len ping)
    × (check_icmp4_integrity (icmp4_len ping) (assemble_icmp4 ping ++ (0 ∷ [])) ≡ accepted)
    × (check_icmp4_sanity (assemble_icmp4 ping ++ (0 ∷ [])) ≡ accepted)
    × IsRead ping (icmp4_len ping) (assemble_icmp4 ping ++ (0 ∷ []))
check_icmp4_integrity-assemble_icmp4_example =
    check_icmp4_integrity-assemble_icmp4 ping (0 ∷ []) ping-IsIcmp4 ping-carry
