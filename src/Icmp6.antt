-- ===== src/Icmp6.antt =====
-- `_phrx_icmp6` and `_phtx_icmp6` (pytcp/protocols/icmp6/phrx.py and phtx.py): neighbour discovery, echo
-- requests, and messages about an unreachable port. What is handed to `_phtx_icmp6` is returned.
pub mod Output
pub mod Laws
mod Tests
use py_tcp.Prelude.{
  ℕ, ◌+◌, ◌*◌, ◌/◌, ◌^◌, Option, none, some, List, [], ◌∷◌, map, Bool, true, false, not, ◌&&◌, ◌||◌,
  ◌==◌, leb, length, if◌then◌else◌,
}
use py_tcp.Wire.{word_at, byte_at, ip6_at, ◌>>=◌, Verdict, accepted, rejected, crashed, unfinished}
use py_tcp.Address.Ip6.{is_ip6_multicast}
use py_tcp.Ip4.Output.{member}
use py_tcp.Packet.Icmp6.{Icmp6Args, tlla}
use py_tcp.Packet.Icmp6.Read.{
  icmp6_type, icmp6_un_data, icmp6_ec_id, icmp6_ec_seq, icmp6_ec_data, ns_target_address,
  na_target_address, nd_opt_slla, nd_opt_tlla, nd_opt_pi,
}
use py_tcp.Packet.Icmp6.Checks.{all_nodes, check_icmp6_integrity, check_icmp6_sanity}
use py_tcp.Nd.{NdState, add_nd_entry}
use py_tcp.Udp.{
  inet6, UdpMetadata, SocketTable, match_socket, socket_patterns, update, notify_unreachable,
}

-- What is handed to `_phtx_icmp6`.
pub record Icmp6Tx : Type 0 where
  pub ip6_src : ℕ
  pub ip6_dst : ℕ
  pub ip6_hop : ℕ
  pub args : Icmp6Args

-- What the handler reads of the IPv6 packet.
pub record Ip6Received : Type 0 where
  pub src : ℕ
  pub dst : ℕ
  pub hop : ℕ
  pub plen : ℕ
  pub pshdr_sum : ℕ
  pub frame : List ℕ

-- What the handler reads and changes of the packet handler, with the cache and the sockets; the semaphores are
-- their counts.
pub record Icmp6State : Type 0 where
  pub ip6_unicast : List ℕ
  pub ip6_unicast_candidate : Option ℕ
  pub icmp6_nd_dad_tlla : Option ℕ
  pub event_icmp6_nd_dad : ℕ
  pub icmp6_ra_prefixes : List (ℕ × ℕ)
  pub event_icmp6_ra : ℕ
  pub nd : NdState
  pub table : SocketTable

-- How a packet ends: not parsed, an exception, dropped, noted, answered, or given to a socket.
pub data Icmp6Rx : Type 0 where
  failed_parse rx_raised dropped noted : Icmp6Rx
  answered : Icmp6Tx → Icmp6Rx
  socket_notified : ℕ → Icmp6Rx

-- Arguments that are not given.
abbrev pub plain_args : ℕ → Icmp6Args
plain_args type = record {
  type = type;
  code = 0;
  un_data = none;
  ec_id = none;
  ec_seq = none;
  ec_data = none;
  ra_hop = none;
  ra_flag_m = none;
  ra_flag_o = none;
  ra_router_lifetime = none;
  ra_reachable_time = none;
  ra_retrans_timer = none;
  ns_target_address = none;
  na_flag_r = some false;
  na_flag_s = some false;
  na_flag_o = some false;
  na_target_address = none;
  nd_options = some [];
  mlr2_multicast_address_record = some [];
}

-- The answer to a solicitation, with `ip6_nd_dad` for a source that is unspecified.
abbrev pub advertisement : ℕ → ℕ → ℕ → Icmp6Tx
advertisement src target mac =
    let dad = src == 0 in
    record {
      ip6_src = target;
      ip6_dst = if dad then all_nodes else src;
      ip6_hop = 255;
      args = record (plain_args 136) {
        na_flag_s = some (not dad);
        na_flag_o = some dad;
        na_target_address = some target;
        nd_options = some (tlla mac ∷ []);
      };
    }

abbrev pub learn : ℕ → ℕ → Option ℕ → Icmp6State → Icmp6State
learn now address none s = s
learn now address (some mac) s = record s { nd = add_nd_entry now address mac s.nd }

abbrev pub answer_solicitation :
    ℕ → Ip6Received → ℕ → Option (Option ℕ) → Icmp6State → Icmp6Rx × Icmp6State
answer_solicitation now ip target none s = (rx_raised, s)
answer_solicitation now ip target (some slla) s =
    (answered (advertisement ip.src target s.nd.mac_unicast), learn now ip.src slla s)

-- A source that is unspecified or a group is not noted, and then the options are not read.
abbrev pub handle_solicitation : ℕ → Ip6Received → Option ℕ → Icmp6State → Icmp6Rx × Icmp6State
handle_solicitation now ip none s = (rx_raised, s)
handle_solicitation now ip (some target) s =
    if not (member target s.ip6_unicast)
    then (dropped, s)
    else answer_solicitation now ip target
        (if ip.src == 0 || is_ip6_multicast ip.src then some none else nd_opt_slla ip.frame) s

abbrev pub is_candidate : ℕ → Option ℕ → Bool
is_candidate target none = false
is_candidate target (some candidate) = target == candidate

abbrev pub handle_advertisement :
    ℕ → Option ℕ → Option (Option ℕ) → Icmp6State → Icmp6Rx × Icmp6State
handle_advertisement now none options s = (rx_raised, s)
handle_advertisement now (some target) none s = (rx_raised, s)
handle_advertisement now (some target) (some mac) s =
    if is_candidate target s.ip6_unicast_candidate
    then (
      noted,
      record s { icmp6_nd_dad_tlla = mac; event_icmp6_nd_dad = s.event_icmp6_nd_dad + 1 },
    )
    else (noted, learn now target mac s)

abbrev pub with_router : ℕ → ℕ → ℕ × ℕ
with_router router prefix = (prefix, router)

abbrev pub handle_router : ℕ → Option (List ℕ) → Icmp6State → Icmp6Rx × Icmp6State
handle_router src none s = (rx_raised, s)
handle_router src (some prefixes) s = (
  noted,
  record s {
    icmp6_ra_prefixes = map (with_router src) prefixes;
    event_icmp6_ra = s.event_icmp6_ra + 1;
  },
)

-- The answer to an echo request; `none` where a getter raises.
abbrev pub echo6_args : ℕ → List ℕ → Option Icmp6Args
echo6_args plen frame = do
  id ← icmp6_ec_id frame
  seq ← icmp6_ec_seq frame
  body ← icmp6_ec_data plen frame
  some (record (plain_args 129) { ec_id = some id; ec_seq = some seq; ec_data = some body })

abbrev pub handle_echo6 : Ip6Received → Option Icmp6Args → Icmp6Rx
handle_echo6 ip none = rx_raised
handle_echo6 ip (some args) =
    answered (record { ip6_src = ip.dst; ip6_dst = ip.src; ip6_hop = 255; args = args })

-- The UDP packet that a message about an unreachable port quotes, if it quotes one.
abbrev pub quoted_udp6 : List ℕ → Option UdpMetadata
quoted_udp6 quoted = do
  local ← ip6_at 8 quoted
  remote ← ip6_at 24 quoted
  local_port ← word_at 40 quoted
  remote_port ← word_at 42 quoted
  some (record {
    family = inet6;
    local_ip_address = local;
    local_port = local_port;
    remote_ip_address = remote;
    remote_port = remote_port;
    payload = [];
  })

abbrev pub quoted_packet6 : List ℕ → Option UdpMetadata
quoted_packet6 quoted = do
  first ← byte_at 0 quoted
  next ← byte_at 6 quoted
  (elim (leb 48 (length quoted) && (first / 2 ^ 4 == 6 && next == 17)) [
    | true ↦ quoted_udp6 quoted
    | false ↦ none
  ])

abbrev pub notify_socket6 : Option ℕ → Icmp6State → Icmp6Rx × Icmp6State
notify_socket6 none s = (dropped, s)
notify_socket6 (some h) s =
    (socket_notified h, record s { table = update h notify_unreachable s.table })

abbrev pub handle_quoted6 : Option UdpMetadata → Icmp6State → Icmp6Rx × Icmp6State
handle_quoted6 none s = (dropped, s)
handle_quoted6 (some p) s =
    notify_socket6 (match_socket (socket_patterns p) (SocketTable.sockets s.table)) s

abbrev pub handle_unreachable6 : Option (List ℕ) → Icmp6State → Icmp6Rx × Icmp6State
handle_unreachable6 none s = (rx_raised, s)
handle_unreachable6 (some quoted) s = handle_quoted6 (quoted_packet6 quoted) s

-- `_phrx_icmp6` behind the parser, for the type of the message.
abbrev pub handle_icmp6 : ℕ → Ip6Received → Option ℕ → Icmp6State → Icmp6Rx × Icmp6State
handle_icmp6 now ip none s = (rx_raised, s)
handle_icmp6 now ip (some type) s =
    if type == 135
    then handle_solicitation now ip (ns_target_address ip.frame) s
    else if type == 136
    then handle_advertisement now (na_target_address ip.frame) (nd_opt_tlla ip.frame) s
    else if type == 133
    then (noted, s)
    else if type == 134
    then handle_router ip.src (nd_opt_pi ip.frame) s
    else if type == 128
    then (handle_echo6 ip (echo6_args ip.plen ip.frame), s)
    else if type == 1
    then handle_unreachable6 (icmp6_un_data ip.plen ip.frame) s
    else (noted, s)

abbrev pub sane_received6 : ℕ → Ip6Received → Verdict → Icmp6State → Icmp6Rx × Icmp6State
sane_received6 now ip accepted s = handle_icmp6 now ip (icmp6_type ip.frame) s
sane_received6 now ip rejected s = (failed_parse, s)
sane_received6 now ip crashed s = (rx_raised, s)
sane_received6 now ip unfinished s = (rx_raised, s)

abbrev pub checked_icmp6 : ℕ → Ip6Received → Verdict → Icmp6State → Icmp6Rx × Icmp6State
checked_icmp6 now ip accepted s =
    sane_received6 now ip (check_icmp6_sanity ip.src ip.dst ip.hop ip.frame) s
checked_icmp6 now ip rejected s = (failed_parse, s)
checked_icmp6 now ip crashed s = (rx_raised, s)
checked_icmp6 now ip unfinished s = (rx_raised, s)

-- `_phrx_icmp6`
unfoldable pub phrx_icmp6 : ℕ → Ip6Received → Icmp6State → Icmp6Rx × Icmp6State
phrx_icmp6 now ip s = checked_icmp6 now ip (check_icmp6_integrity ip.plen ip.pshdr_sum ip.frame) s
