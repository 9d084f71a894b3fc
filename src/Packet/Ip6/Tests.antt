-- ===== src/Packet/Ip6/Tests.antt =====
-- IPv6 packets at concrete inputs.
use py_tcp.Prelude.{◌≡◌, refl, List, ℕ, [], ◌∷◌, arith, some}
use py_tcp.Wire.{accepted}
use py_tcp.Packet.Ip6.{Ip6Header, assemble_ip6, check_ip6_integrity, parse_ip6}
use py_tcp.Packet.Ip6.Laws.{received_ip6, parse_ip6-assemble_ip6}

-- Expedited forwarding, code point 46, with a flow label.
abbrev urgent : Ip6Header
urgent = record {
  src = 0xfe80_0000_0000_0000_0000_0000_0000_0001;
  dst = 0xfe80_0000_0000_0000_0000_0000_0000_0002;
  hop = 64;
  dscp = 46;
  ecn = 1;
  flow = 70000;
  next = 17;
}

parse_ip6-assemble_ip6_example :
    (frame : List ℕ) × (assemble_ip6 urgent 3 (λ s. some (1 ∷ 2 ∷ 3 ∷ [])) ≡ some frame)
    × (check_ip6_integrity frame ≡ accepted)
    × (parse_ip6 frame ≡ some (received_ip6 urgent (1 ∷ 2 ∷ 3 ∷ [])))
parse_ip6-assemble_ip6_example =
    parse_ip6-assemble_ip6 urgent (λ s. some (1 ∷ 2 ∷ 3 ∷ [])) (1 ∷ 2 ∷ 3 ∷ [])
      (record {
        src_fits = omega arith;
        dst_fits = omega arith;
        hop_fits = omega arith;
        dscp_fits = omega arith;
        ecn_fits = omega arith;
        flow_fits = omega arith;
        next_known = refl;
        dlen_fits = omega arith;
      })
      refl
