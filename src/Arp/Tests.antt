-- ===== src/Arp/Tests.antt =====
-- ARP at concrete states.
use py_tcp.Prelude.{ℕ, ◌≡◌, ◌++◌, refl, none, some, List, [], ◌∷◌, true, false}
use py_tcp.Dict.{get?}
use py_tcp.Arp.{
  reply, ArpPacket, ArpState, is_one_of, arp_request, arp_reply, find_entry, phrx_arp, phrx_all,
  claim_candidates,
}
use py_tcp.Arp.Laws.{claim_candidates-phrx_all, find_entry-exchange}

abbrev stack_at : ℕ → List ℕ → List ℕ → ArpState
stack_at mac addresses candidates = record {
  mac_unicast = mac;
  ip4_unicast = addresses;
  ip4_host_candidate = candidates;
  handler_conflicts = [];
  stack_conflicts = [];
  arp_cache = [];
  sent = [];
}

-- A stack that would claim 7, and the reply of a host that has it.
abbrev starting : ArpState
starting = stack_at 2 [] (7 ∷ [])

abbrev conflict : ArpPacket
conflict = record { ether_dst = 2; oper = reply; sha = 9; spa = 7; tha = 2; tpa = 0 }

claim_candidates-phrx_all_example :
    (claim_candidates (phrx_all ((0, conflict) ∷ []) starting)).ip4_unicast ≡ [] ++ (7 ∷ [])
claim_candidates-phrx_all_example = claim_candidates-phrx_all ((0, conflict) ∷ []) starting refl

abbrev asking : ArpState
asking = stack_at 2 (5 ∷ []) []

abbrev answering : ArpState
answering = stack_at 3 (6 ∷ []) []

unknown_six : get? 6 asking.arp_cache ≡ none
unfolding get?
unknown_six = refl

has_six : is_one_of 6 answering.ip4_unicast ≡ true
unfolding is_one_of
has_six = refl

has_no_five : is_one_of 5 answering.ip4_unicast ≡ false
unfolding is_one_of
has_no_five = refl

claims_nothing : is_one_of 6 asking.ip4_host_candidate ≡ false
unfolding is_one_of
claims_nothing = refl

find_entry-exchange_example :
    ((find_entry 6 asking).0 ≡ none)
    × ((find_entry 6 asking).1.sent ≡ arp_request 6 asking ∷ [])
    × ((phrx_arp 1 (arp_request 6 asking) answering).sent
        ≡ arp_reply (arp_request 6 asking) answering ∷ [])
    × ((find_entry 5 (phrx_arp 1 (arp_request 6 asking) answering)).0 ≡ some 2)
    × ((find_entry 6
          (phrx_arp 2 (arp_reply (arp_request 6 asking) answering) (find_entry 6 asking).1)).0
        ≡ some 3)
find_entry-exchange_example =
    find_entry-exchange asking answering 1 2 6 unknown_six has_six has_no_five claims_nothing
