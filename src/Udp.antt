-- ===== src/Udp.antt =====
-- UDP sockets and their registry: `Socket` of pytcp/lib/socket.py, `UdpMetadata` of
-- pytcp/protocols/udp/metadata.py, and the registry `sockets` of pytcp/lib/stack.py. The registry
-- holds objects by their names, so that a socket is a handle into a store that the registry and the
-- user share. A name is the tuple that its text shows.
pub mod Sockets
pub mod Transfer
pub mod Output
pub mod Input
pub mod Icmp4
pub mod Laws
pub mod Echo
mod Tests
use py_tcp.Prelude.{
  ℕ, suc, zero, ◌+◌, ◌*◌, Option, none, some, List, [], ◌∷◌, ◌++◌, map, Bool, true, false, not,
  ◌&&◌, ◌||◌, ◌==◌, if◌then◌else◌,
}
use py_tcp.Ip4.Output.{member}

-- `AF_INET4` and `AF_INET6`
pub data AddressFamily : Type 0 where
  inet4 inet6 : AddressFamily

abbrev pub same_family : AddressFamily → AddressFamily → Bool
same_family inet4 inet4 = true
same_family inet6 inet6 = true
same_family _ _ = false

-- `str(socket)`, and a pattern that packets are matched with.
pub record SocketId : Type 0 where
  pub family : AddressFamily
  pub local_ip_address : ℕ
  pub local_port : ℕ
  pub remote_ip_address : ℕ
  pub remote_port : ℕ

abbrev pub same_id : SocketId → SocketId → Bool
same_id a b =
    same_family a.family b.family
    && (a.local_ip_address == b.local_ip_address
        && (a.local_port == b.local_port
            && (a.remote_ip_address == b.remote_ip_address && a.remote_port == b.remote_port)))

pub record UdpMetadata : Type 0 where
  pub family : AddressFamily
  pub local_ip_address : ℕ
  pub local_port : ℕ
  pub remote_ip_address : ℕ
  pub remote_port : ℕ
  pub payload : List ℕ

-- The pattern for the DHCPv4 client, which has a broadcast as its remote address.
abbrev pub dhcp_pattern : UdpMetadata → List SocketId
dhcp_pattern p = elim p.family [
  | inet4 ↦
      record {
        family = inet4;
        local_ip_address = 0;
        local_port = p.local_port;
        remote_ip_address = 0xffff_ffff;
        remote_port = p.remote_port;
      }
      ∷ []
  | inet6 ↦ []
]

-- `socket_patterns`: connected, bound to the address, bound to the port only.
abbrev pub socket_patterns : UdpMetadata → List SocketId
socket_patterns p =
    record {
      family = p.family;
      local_ip_address = p.local_ip_address;
      local_port = p.local_port;
      remote_ip_address = p.remote_ip_address;
      remote_port = p.remote_port;
    }
    ∷ record {
      family = p.family;
      local_ip_address = p.local_ip_address;
      local_port = p.local_port;
      remote_ip_address = 0;
      remote_port = 0;
    }
    ∷ record {
      family = p.family;
      local_ip_address = 0;
      local_port = p.local_port;
      remote_ip_address = 0;
      remote_port = 0;
    }
    ∷ dhcp_pattern p

-- `UdpSocket`; the count of its semaphore is the length of `packet_rx_md`.
pub record UdpSocket : Type 0 where
  pub family : AddressFamily
  pub local_ip_address : ℕ
  pub local_port : ℕ
  pub remote_ip_address : ℕ
  pub remote_port : ℕ
  pub packet_rx_md : List UdpMetadata
  pub unreachable : Bool

-- The constructor.
abbrev pub new_udp_socket : AddressFamily → UdpSocket
new_udp_socket family = record {
  family = family;
  local_ip_address = 0;
  local_port = 0;
  remote_ip_address = 0;
  remote_port = 0;
  packet_rx_md = [];
  unreachable = false;
}

-- `__str__`
abbrev pub id_of : UdpSocket → SocketId
id_of s = record {
  family = s.family;
  local_ip_address = s.local_ip_address;
  local_port = s.local_port;
  remote_ip_address = s.remote_ip_address;
  remote_port = s.remote_port;
}

-- The registry, the store of the objects, and the local ports of the TCP sockets that stand in the same
-- registry.
pub record SocketTable : Type 0 where
  pub sockets : List (SocketId × ℕ)
  pub objects : ℕ → UdpSocket
  pub tcp_ports : List ℕ

-- `stack.sockets.get(id, None)`
unfoldable pub get_socket : SocketId → List (SocketId × ℕ) → Option ℕ
get_socket id [] = none
get_socket id ((other, handle) ∷ rest) =
    if same_id id other then some handle else get_socket id rest

-- `stack.sockets.pop(id, None)`
unfoldable pub pop_socket : SocketId → List (SocketId × ℕ) → List (SocketId × ℕ)
pop_socket id [] = []
pop_socket id ((other, handle) ∷ rest) =
    if same_id id other then pop_socket id rest else (other, handle) ∷ pop_socket id rest

-- `stack.sockets[id] = socket`
unfoldable pub put_socket : SocketId → ℕ → List (SocketId × ℕ) → List (SocketId × ℕ)
put_socket id h [] = (id, h) ∷ []
put_socket id h ((other, handle) ∷ rest) =
    if same_id id other then (other, h) ∷ rest else (other, handle) ∷ put_socket id h rest

-- A socket that is changed is changed for everyone who holds it.
unfoldable pub set_object : ℕ → UdpSocket → (ℕ → UdpSocket) → ℕ → UdpSocket
set_object h s objects k = if h == k then s else objects k

-- `process_udp_packet` and `notify_unreachable`
abbrev pub process_udp_packet : UdpMetadata → UdpSocket → UdpSocket
process_udp_packet p s = record s { packet_rx_md = s.packet_rx_md ++ (p ∷ []) }

abbrev pub notify_unreachable : UdpSocket → UdpSocket
notify_unreachable s = record s { unreachable = true }

abbrev pub update : ℕ → (UdpSocket → UdpSocket) → SocketTable → SocketTable
update h f t = record t { objects = set_object h (f (t.objects h)) t.objects }

-- The first socket that one of the patterns names.
abbrev pub or_later : Option ℕ → Option ℕ → Option ℕ
or_later (some h) later = some h
or_later none later = later

unfoldable pub match_socket : List SocketId → List (SocketId × ℕ) → Option ℕ
match_socket [] sockets = none
match_socket (id ∷ ids) sockets = or_later (get_socket id sockets) (match_socket ids sockets)
