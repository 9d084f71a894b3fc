-- ===== src/Packet/Ether/Laws.antt =====
-- An ARP packet in an Ethernet frame.
use py_tcp.Prelude.{ℕ, ◌≡◌, ◌⊎◌, refl, some, List, ◌++◌, arith}
use py_tcp.Wire.{mac_lem, long_lem, word_lem, accepted}
use py_tcp.Packet.Ether.{
  EtherHeader, ether_words, assemble_ether, check_ether_integrity, check_ether_sanity, parse_ether,
  ArpHeader, new_arp, assemble_arp, check_arp_integrity, check_arp_sanity, parse_arp,
}

parse_arp-assemble_arp :
    (p : ArpHeader) (padding : List ℕ) → parse_arp (assemble_arp p ++ padding) ≡ some p
unfolding parse_arp assemble_arp
parse_arp-assemble_arp p padding = λ i. some (record {
  hrtype = word_lem p.hrtype i;
  prtype = word_lem p.prtype i;
  hrlen = p.hrlen;
  prlen = p.prlen;
  oper = word_lem p.oper i;
  sha = mac_lem p.sha i;
  spa = long_lem p.spa i;
  tha = mac_lem p.tha i;
  tpa = long_lem p.tpa i;
})

parse_ether-words :
    (h : EtherHeader) (rest : List ℕ) → parse_ether (ether_words h rest) ≡ some (h, rest)
unfolding parse_ether
parse_ether-words h rest = λ i. some (
  record { dst = mac_lem h.dst i; src = mac_lem h.src i; ether_type = word_lem h.ether_type i },
  rest,
)

arp_long :
    (p : ArpHeader) (padding : List ℕ) → check_arp_integrity (assemble_arp p ++ padding) ≡ accepted
unfolding check_arp_integrity assemble_arp
arp_long p padding = ground arith

-- An ARP request or reply between any addresses is assembled and, in an Ethernet frame of the type of ARP
-- between any MAC addresses, with any padding behind it, found again: the checks of both parsers accept
-- it, and they read the header of the frame and every field of the packet.
pub parse_arp-assemble_ether :
    (h : EtherHeader) (oper sha spa tha tpa : ℕ) (padding : List ℕ)
    → h.ether_type ≡ 0x0806
    → (oper ≡ 1) ⊎ (oper ≡ 2)
    → (p : ArpHeader) × (new_arp oper sha spa tha tpa ≡ some p)
      × (check_arp_sanity p ≡ accepted)
      × (p.oper ≡ oper)
      × ((frame : List ℕ) × (assemble_ether h (some (assemble_arp p ++ padding)) ≡ some frame)
          × (check_ether_integrity frame ≡ accepted)
          × (check_ether_sanity h ≡ accepted)
          × (parse_ether frame ≡ some (h, assemble_arp p ++ padding))
          × (check_arp_integrity (assemble_arp p ++ padding) ≡ accepted)
          × (parse_arp (assemble_arp p ++ padding) ≡ some p))
unfolding new_arp check_arp_sanity assemble_ether check_ether_integrity check_ether_sanity
parse_arp-assemble_ether h oper sha spa tha tpa padding type_arp known =
    let p : ArpHeader = record {
      hrtype = 1;
      prtype = 0x0800;
      hrlen = 6;
      prlen = 4;
      oper = oper;
      sha = sha;
      spa = spa;
      tha = tha;
      tpa = tpa;
    } in
    let rest = assemble_arp p ++ padding in
    (
      p,
      ground (arith, known),
      ground (arith, known),
      refl,
      (
        ether_words h rest,
        ground (arith, type_arp),
        ground arith,
        ground (arith, type_arp),
        parse_ether-words h rest,
        arp_long p padding,
        parse_arp-assemble_arp p padding,
      ),
    )
