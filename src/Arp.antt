-- ===== src/Arp.antt =====
-- ARP: the cache of pytcp/subsystems/arp_cache.py, the handler `_phrx_arp` of
-- pytcp/protocols/arp/phrx.py, and the claim of IPv4 addresses in pytcp/subsystems/packet_handler.py.
-- Addresses are their values; a packet is what the parser reads of one that passed its checks.
pub mod Laws
mod Tests
use py_tcp.Prelude.{
  ℕ, ◌+◌, ◌-◌, ◌*◌, ◌≤◌, Option, none, some, List, [], ◌∷◌, ◌++◌, Bool, true, false, not, ◌&&◌,
  ◌||◌, ◌==◌, ltb, if◌then◌else◌,
}
use py_tcp.Dict.{Dict, get?, insert, remove}

-- `ARP_OP_REQUEST` and `ARP_OP_REPLY`; other operations do not pass the parser.
pub data ArpOper : Type 0 where
  request reply : ArpOper

-- The packet, with the destination of the Ethernet frame.
pub record ArpPacket : Type 0 where
  pub ether_dst : ℕ
  pub oper : ArpOper
  pub sha : ℕ
  pub spa : ℕ
  pub tha : ℕ
  pub tpa : ℕ

-- `MacAddress(0xFFFFFFFFFFFF)`
abbrev pub broadcast_mac : ℕ
broadcast_mac = 0xffff_ffff_ffff

-- `ArpCache.CacheEntry`
pub record CacheEntry : Type 0 where
  pub mac_address : ℕ
  pub permanent : Bool
  pub creation_time : ℕ
  pub hit_count : ℕ

-- What the functions read and change: the addresses of the packet handler, its set of conflicts and the
-- set of the same name in pytcp/lib/stack.py, the cache, and the ARP packets that were sent.
pub record ArpState : Type 0 where
  pub mac_unicast : ℕ
  pub ip4_unicast : List ℕ
  pub ip4_host_candidate : List ℕ
  pub handler_conflicts : List ℕ
  pub stack_conflicts : List ℕ
  pub arp_cache : Dict CacheEntry
  pub sent : List ArpPacket

unfoldable pub is_one_of : ℕ → List ℕ → Bool
is_one_of a [] = false
is_one_of a (b ∷ bs) = a == b || is_one_of a bs

abbrev pub send_arp : ArpPacket → ArpState → ArpState
send_arp p s = record s { sent = p ∷ s.sent }

abbrev pub primary_address : List ℕ → ℕ
primary_address [] = 0
primary_address (a ∷ others) = a

-- `_send_arp_request`
abbrev pub arp_request : ℕ → ArpState → ArpPacket
arp_request arp_tpa s = record {
  ether_dst = broadcast_mac;
  oper = request;
  sha = s.mac_unicast;
  spa = primary_address s.ip4_unicast;
  tha = 0;
  tpa = arp_tpa;
}

unfoldable pub send_arp_request : ℕ → ArpState → ArpState
send_arp_request arp_tpa s = send_arp (arp_request arp_tpa s) s

abbrev pub new_entry : ℕ → ℕ → CacheEntry
new_entry now mac_address = record {
  mac_address = mac_address;
  permanent = false;
  creation_time = now;
  hit_count = 0;
}

unfoldable pub add_entry : ℕ → ℕ → ℕ → ArpState → ArpState
add_entry now ip4_address mac_address s = record s {
  arp_cache = insert ip4_address (new_entry now mac_address) s.arp_cache;
}

abbrev pub hit : CacheEntry → CacheEntry
hit e = record e { hit_count = e.hit_count + 1 }

-- `find_entry`: the address, if there is one, and the state after the lookup.
abbrev pub found_entry : ℕ → ArpState → Option CacheEntry → Option ℕ × ArpState
found_entry ip4_address s none = (none, send_arp_request ip4_address s)
found_entry ip4_address s (some e) =
    (some e.mac_address, record s { arp_cache = insert ip4_address (hit e) s.arp_cache })

unfoldable pub find_entry : ℕ → ArpState → Option ℕ × ArpState
unfolding send_arp_request
find_entry ip4_address s = found_entry ip4_address s (get? ip4_address s.arp_cache)

-- One entry in a round of `__thread_maintain_cache`; the times are in units of the clock.
abbrev pub maintain_entry : ℕ → ℕ → ℕ → ℕ × CacheEntry → ArpState → ArpState
maintain_entry max_age refresh_time now (ip4_address, e) s =
    if e.permanent
    then s
    else if ltb max_age (now - e.creation_time)
    then record s { arp_cache = remove ip4_address s.arp_cache }
    else if ltb (max_age - refresh_time) (now - e.creation_time) && not (e.hit_count == 0)
    then send_arp_request ip4_address
        (record s { arp_cache = insert ip4_address (record e { hit_count = 0 }) s.arp_cache })
    else s

-- A round of `__thread_maintain_cache` over the entries that the cache had at its start.
unfoldable pub maintain_cache : ℕ → ℕ → ℕ → Dict CacheEntry → ArpState → ArpState
unfolding send_arp_request
maintain_cache max_age refresh_time now [] s = s
maintain_cache max_age refresh_time now (e ∷ es) s =
    maintain_cache max_age refresh_time now es (maintain_entry max_age refresh_time now e s)

-- The answer to a request for an address of the stack.
abbrev pub arp_reply : ArpPacket → ArpState → ArpPacket
arp_reply p s = record {
  ether_dst = p.sha;
  oper = reply;
  sha = s.mac_unicast;
  spa = p.tpa;
  tha = p.sha;
  tpa = p.spa;
}

unfoldable pub handle_request : ℕ → ArpPacket → ArpState → ArpState
unfolding add_entry
handle_request now p s =
    if is_one_of p.spa s.ip4_unicast
    then s
    else if is_one_of p.tpa s.ip4_unicast
    then add_entry now p.spa p.sha (send_arp (arp_reply p s) s)
    else s

-- A reply to the probe of an address that the stack would claim.
abbrev pub is_probe_conflict : ArpPacket → ArpState → Bool
is_probe_conflict p s =
    p.ether_dst == s.mac_unicast
    && (is_one_of p.spa s.ip4_host_candidate && (p.tha == s.mac_unicast && p.tpa == 0))

unfoldable pub handle_reply : ℕ → ArpPacket → ArpState → ArpState
unfolding add_entry
handle_reply now p s =
    if is_probe_conflict p s
    then record s { stack_conflicts = p.spa ∷ s.stack_conflicts }
    else if p.ether_dst == s.mac_unicast
    then add_entry now p.spa p.sha s
    else if p.ether_dst == broadcast_mac && p.spa == p.tpa
    then add_entry now p.spa p.sha s
    else s

abbrev pub handle_oper : ArpOper → ℕ → ArpPacket → ArpState → ArpState
handle_oper request now p s = handle_request now p s
handle_oper reply now p s = handle_reply now p s

-- `_phrx_arp`, with both `config.ARP_CACHE_UPDATE_*` set, as they are by default.
unfoldable pub phrx_arp : ℕ → ArpPacket → ArpState → ArpState
unfolding handle_request handle_reply
phrx_arp now p s = handle_oper p.oper now p s

-- Packets that arrive one after the other, each with its time.
unfoldable pub phrx_all : List (ℕ × ArpPacket) → ArpState → ArpState
unfolding phrx_arp
phrx_all [] s = s
phrx_all ((now, p) ∷ rest) s = phrx_all rest (phrx_arp now p s)

-- `_send_arp_announcement`
abbrev pub announcement : ℕ → ArpState → ArpPacket
announcement ip4_unicast s = record {
  ether_dst = broadcast_mac;
  oper = request;
  sha = s.mac_unicast;
  spa = ip4_unicast;
  tha = 0;
  tpa = ip4_unicast;
}

abbrev pub claim : ℕ → ArpState → ArpState
claim a s =
    if is_one_of a s.handler_conflicts
    then s
    else send_arp (announcement a s) (record s { ip4_unicast = s.ip4_unicast ++ (a ∷ []) })

unfoldable pub claim_all : List ℕ → ArpState → ArpState
claim_all [] s = s
claim_all (a ∷ rest) s = claim_all rest (claim a s)

-- The end of `_create_stack_ip4_addressing`, behind the probes: the candidates that are not among the
-- conflicts become addresses of the stack.
unfoldable pub claim_candidates : ArpState → ArpState
unfolding claim_all
claim_candidates s = claim_all s.ip4_host_candidate (record s { ip4_host_candidate = [] })
