-- ===== src/Ip6/Output.antt =====
-- The choice of the source address and the sending of IPv6 packets: `_validate_src_ip6_address`,
-- `_validate_dst_ip6_address` and `_phtx_ip6` of pytcp/protocols/ip6/phtx.py and
-- `_phtx_ip6_ext_frag` of pytcp/protocols/ip6_ext_frag/phtx.py.
pub mod Source
pub mod Laws
use py_tcp.Prelude.{
  ℕ, zero, suc, ◌+◌, ◌-◌, ◌*◌, ◌/◌, ◌%◌, ◌^◌, Option, none, some, List, [], ◌∷◌, ◌++◌, map, Bool,
  true, false, not, ◌&&◌, ◌||◌, ◌==◌, leb, ltb, length, if◌then◌else◌,
}
use py_tcp.Address.Ip6.{Ip6Host, ip6_contains}
use py_tcp.Ip4.{cut}
use py_tcp.Ip4.Output.{
  member, TxStatus, has_status, is_resolution_fail, is_passed, passed_to_tx_ring,
  dst_resolution_fail, dst_no_gateway_ip6, dst_nd_cache_fail, dst_gateway_nd_cache_fail,
  ip6_src_not_owned, ip6_src_multicast, ip6_src_unspecified, ip6_dst_unspecified,
  ip6_ext_frag_unknown,
}
use py_tcp.Ip6.{Ip6Stack, ip6_unicast}
use py_tcp.Packet.Ip6.{Ip6Header, ip6_plen, is_known_next, ip6_pseudo_sum}
use py_tcp.Packet.Ip6.Frag.{Ip6Frag, ip6_frag_len, is_carried_next, assemble_ip6_frag}

-- A packet that is carried: its `ip6_next`, its length, whether it is a neighbour solicitation without
-- options (for duplicate address detection) or a report of multicast listeners, and what it is
-- assembled to for the sum of a pseudo header.
pub record Carried6 : Type 0 where
  pub next : ℕ
  pub len : ℕ
  pub is_dad : Bool
  pub is_mld2_report : Bool
  pub assemble : ℕ → Option (List ℕ)

-- An address, or a status for a packet that is dropped.
pub data Src6 : Type 0 where
  chosen : ℕ → Src6
  dropped : TxStatus → Src6

-- The first host that a test holds of.
unfoldable pub first_ip6_host : (Ip6Host → Bool) → List Ip6Host → Option Ip6Host
first_ip6_host p [] = none
first_ip6_host p (host ∷ hosts) = if p host then some host else first_ip6_host p hosts

abbrev pub has_ip6_gateway : Ip6Host → Bool
has_ip6_gateway host = elim host.gateway [ none ↦ false | some g ↦ true ]

-- `self.ip6_unicast[0]`, if there is one.
abbrev pub primary_ip6 : List Ip6Host → Src6
primary_ip6 [] = dropped ip6_src_multicast
primary_ip6 (host ∷ hosts) = chosen host.address

-- The steps that replace the address by that of a host, or go on.
abbrev pub or_go_on6 : Option Ip6Host → Src6 → Src6
or_go_on6 none rest = rest
or_go_on6 (some host) rest = chosen host.address

-- The choice for an unspecified source.
unfoldable pub pick_ip6_src : Ip6Stack → ℕ → Carried6 → Src6
unfolding first_ip6_host
pick_ip6_src s dst carried =
    or_go_on6 (first_ip6_host (λ host. ip6_contains host.network dst) s.ip6_host) (
      or_go_on6 (first_ip6_host has_ip6_gateway s.ip6_host) (
        if carried.is_dad || carried.is_mld2_report then chosen 0 else dropped ip6_src_unspecified))

-- `_validate_src_ip6_address`
unfoldable pub validate_src_ip6_address : Ip6Stack → ℕ → ℕ → Carried6 → Src6
unfolding member pick_ip6_src
validate_src_ip6_address s src dst carried =
    if not (member src (ip6_unicast s ++ (s.ip6_multicast ++ (0 ∷ []))))
    then dropped ip6_src_not_owned
    else if member src s.ip6_multicast
    then primary_ip6 s.ip6_host
    else if src == 0
    then pick_ip6_src s dst carried
    else chosen src

-- `_validate_dst_ip6_address`
unfoldable pub validate_dst_ip6_address : ℕ → Option ℕ
validate_dst_ip6_address dst = if dst == 0 then none else some dst

-- What is handed to `_phtx_ether`: a header, and what it carries.
pub record Ip6Tx : Type 0 where
  pub header : Ip6Header
  pub carried : Carried6

-- `len(ip6_packet_tx)`
abbrev pub ip6_tx_len : Ip6Tx → ℕ
ip6_tx_len tx = ip6_plen tx.carried.len

-- An exception, or a status with what has been handed on; and `self.ip6_id` afterwards.
pub data Ip6Out : Type 0 where
  raised : ℕ → Ip6Out
  returned : TxStatus → List Ip6Tx → ℕ → Ip6Out

abbrev pub ip6_tx_header : ℕ → ℕ → ℕ → ℕ → Ip6Header
ip6_tx_header src dst hop next = record {
  src = src;
  dst = dst;
  hop = hop;
  dscp = 0;
  ecn = 0;
  flow = 0;
  next = next;
}

-- `(config.TAP_MTU - IP6_HEADER_LEN - IP6_EXT_FRAG_HEADER_LEN) & 0b1111111111111000`. The mask keeps the
-- lower 16 bits, also of a negative number.
abbrev pub ip6_data_mtu : ℕ → ℕ
ip6_data_mtu mtu = (mtu + 2 ^ 16 - 48) % 2 ^ 16 / 8 * 8

-- The fragment of a piece of the data, as a packet that is carried.
abbrev pub ip6_frag_of : ℕ → ℕ → ℕ × (List ℕ × Bool) → Ip6Frag
ip6_frag_of next id piece = record {
  next = next;
  offset = piece.0;
  flag_mf = piece.1.1;
  id = id;
  payload = piece.1.0;
}

abbrev pub carried_frag : Ip6Frag → Carried6
carried_frag f = record {
  next = 44;
  len = ip6_frag_len f;
  is_dad = false;
  is_mld2_report = false;
  assemble = λ sum. assemble_ip6_frag f;
}

-- `config.IP6_DEFAULT_HOP`
abbrev pub ip6_default_hop : ℕ
ip6_default_hop = 64

abbrev pub is_no_gateway_ip6 : TxStatus → Bool
is_no_gateway_ip6 dst_no_gateway_ip6 = true
is_no_gateway_ip6 _ = false

abbrev pub is_nd_fail : TxStatus → Bool
is_nd_fail dst_nd_cache_fail = true
is_nd_fail _ = false

abbrev pub is_gateway_nd_fail : TxStatus → Bool
is_gateway_nd_fail dst_gateway_nd_cache_fail = true
is_gateway_nd_fail _ = false

-- "Return the most severe code"
unfoldable pub most_severe_ip6 : List TxStatus → TxStatus
unfolding has_status
most_severe_ip6 ts =
    if has_status is_resolution_fail ts
    then dst_resolution_fail
    else if has_status is_no_gateway_ip6 ts
    then dst_no_gateway_ip6
    else if has_status is_nd_fail ts
    then dst_nd_cache_fail
    else if has_status is_gateway_nd_fail ts
    then dst_gateway_nd_cache_fail
    else if has_status is_passed ts
    then passed_to_tx_ring
    else ip6_ext_frag_unknown

-- What sending one fragment after the other has come to: the statuses, and what has been handed on.
pub data FragsOut : Type 0 where
  frags_raised : ℕ → FragsOut
  frags_sent : List TxStatus → List Ip6Tx → ℕ → FragsOut

-- One fragment more, in front of those that come after it.
abbrev pub and_then : Ip6Out → (ℕ → FragsOut) → FragsOut
and_then (raised id) rest = frags_raised id
and_then (returned status txs id) rest = elim (rest id) [
  | frags_raised id' ↦ frags_raised id'
  | frags_sent ts more id' ↦ frags_sent (status ∷ ts) (txs ++ more) id'
]

-- The loop over the fragments, each sent by `send`; the constructor of a fragment asserts that it knows
-- the protocol.
unfoldable pub send_frags : (ℕ → Carried6 → Ip6Out) → ℕ → ℕ → List (ℕ × (List ℕ × Bool)) → FragsOut
send_frags send next id [] = frags_sent [] [] id
send_frags send next id (piece ∷ pieces) =
    if not (is_carried_next next)
    then frags_raised id
    else and_then (send id (carried_frag (ip6_frag_of next id piece)))
        (λ id'. send_frags send next id' pieces)

abbrev pub frags_status : FragsOut → Ip6Out
frags_status (frags_raised id) = raised id
frags_status (frags_sent ts txs id) = returned (most_severe_ip6 ts) txs id

-- `_phtx_ip6_ext_frag`, where `send` is `_phtx_ip6`; `range` raises for a step of zero.
abbrev pub phtx_ip6_ext_frag : ℕ → (ℕ → Carried6 → Ip6Out) → ℕ → ℕ → Option (List ℕ) → Ip6Out
phtx_ip6_ext_frag mtu send next id none = raised id
phtx_ip6_ext_frag mtu send next id (some payload) =
    if ip6_data_mtu mtu == 0
    then raised id
    else frags_status
        (send_frags send next (id + 1) (cut (length payload) (ip6_data_mtu mtu) 0 payload))

-- Behind the choice of the addresses; the assembler asserts that it knows the protocol.
abbrev pub send_ip6 :
    ℕ → (ℕ → Carried6 → Ip6Out) → ℕ → Ip6Header → Carried6 → (Ip6Tx → TxStatus) → Ip6Out
send_ip6 mtu send id h carried ether =
    let tx : Ip6Tx = record { header = h; carried = carried } in
    if not (is_known_next h.next)
    then raised id
    else if leb (ip6_plen carried.len) mtu
    then returned (ether tx) (tx ∷ []) id
    else phtx_ip6_ext_frag mtu send h.next id
        (carried.assemble (ip6_pseudo_sum h.src h.dst h.next carried.len))

-- Behind the check of the destination.
abbrev pub send_ip6_checked :
    ℕ
    → (ℕ → ℕ → ℕ → Carried6 → Ip6Out)
    → ℕ
    → ℕ
    → ℕ
    → Carried6
    → (Ip6Tx → TxStatus)
    → Option ℕ
    → Ip6Out
send_ip6_checked mtu send id src hop carried ether none = returned ip6_dst_unspecified [] id
send_ip6_checked mtu send id src hop carried ether (some dst) =
    send_ip6 mtu (send src dst) id (ip6_tx_header src dst hop carried.next) carried ether

-- Behind the choice of the source.
abbrev pub send_ip6_from :
    ℕ → (ℕ → ℕ → ℕ → Carried6 → Ip6Out) → ℕ → ℕ → ℕ → Carried6 → (Ip6Tx → TxStatus) → Src6 → Ip6Out
send_ip6_from mtu send id dst hop carried ether (dropped status) = returned status [] id
send_ip6_from mtu send id dst hop carried ether (chosen src) =
    send_ip6_checked mtu send id src hop carried ether (validate_dst_ip6_address dst)

-- `_phtx_ip6`, with `config.IP6_SUPPORT` set, as it is by default. It sends a fragment by calling itself;
-- the fuel is the depth of these calls that the interpreter allows.
unfoldable pub phtx_ip6 : ℕ → ℕ → Ip6Stack → ℕ → ℕ → ℕ → ℕ → Carried6 → (Ip6Tx → TxStatus) → Ip6Out
unfolding validate_src_ip6_address validate_dst_ip6_address most_severe_ip6 send_frags cut
phtx_ip6 zero mtu s id src dst hop carried ether = raised id
phtx_ip6 (suc fuel) mtu s id src dst hop carried ether =
    if not (ltb 0 hop && ltb hop 256)
    then raised id
    else send_ip6_from mtu
        (λ src' dst' id' frag. phtx_ip6 fuel mtu s id' src' dst' ip6_default_hop frag ether) id dst
        hop carried ether (validate_src_ip6_address s src dst carried)
