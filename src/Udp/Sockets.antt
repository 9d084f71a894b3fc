-- ===== src/Udp/Sockets.antt =====
-- The operations of `UdpSocket` (pytcp/protocols/udp/socket.py) and the parts of them that stand in
-- pytcp/lib/socket.py. The parser of the text of an address, the choice of a local address, what
-- `set.pop` takes and the sending of a packet are parameters.
use py_tcp.Prelude.{
  ℕ, zero, suc, ◌+◌, Option, none, some, List, [], ◌∷◌, ◌++◌, map, Bool, true, false, not, ◌&&◌,
  ◌||◌, ◌==◌, leb, ltb, if◌then◌else◌,
}
use py_tcp.Ip4.Output.{member, TxStatus}
use py_tcp.Udp.{
  AddressFamily, same_family, SocketId, UdpSocket, id_of, SocketTable, pop_socket, put_socket,
  set_object, update,
}

-- The exceptions that the operations raise: errors 22, 89, 98 and 99 of the system, `gaierror`,
-- `OverflowError`, `ConnectionRefusedError` and `ReceiveTimeout`.
pub data SocketError : Type 0 where
  invalid_argument destination_required in_use cannot_assign : SocketError
  gai_error overflow_error refused receive_timeout : SocketError

pub data Result (A : Type 0) : Type 0 where
  ok : A → Result A
  raised : SocketError → Result A

-- `port in range(1, 65536)`
abbrev pub is_port : ℕ → Bool
is_port port = ltb 0 port && leb port 0xffff

-- `config.EPHEMERAL_PORT_RANGE` without the ports in use: `n` ports from `port` on.
unfoldable pub available_ports : ℕ → ℕ → List ℕ → List ℕ
unfolding member
available_ports zero port used = []
available_ports (suc n) port used =
    let rest = available_ports n (port + 2) used in if member port used then rest else port ∷ rest

abbrev pub local_port_of : SocketId × ℕ → ℕ
local_port_of entry = entry.0.local_port

abbrev pub used_ports : SocketTable → List ℕ
used_ports t = map local_port_of t.sockets ++ t.tcp_ports

-- `_pick_local_port`, where `pop` takes one of the ports.
abbrev pub popped : (List ℕ → ℕ) → List ℕ → Result ℕ
popped pop [] = raised in_use
popped pop (p ∷ ps) = ok (pop (p ∷ ps))

unfoldable pub pick_local_port : (List ℕ → ℕ) → SocketTable → Result ℕ
unfolding available_ports
pick_local_port pop t = popped pop (available_ports 14266 32168 (used_ports t))

-- The test of `_is_address_in_use` for one socket.
abbrev pub overlaps : AddressFamily → ℕ → ℕ → UdpSocket → Bool
overlaps family address port opened =
    same_family opened.family family
    && (((opened.local_ip_address == 0 || opened.local_ip_address == address) || address == 0)
        && opened.local_port == port)

unfoldable pub is_address_in_use :
    AddressFamily → ℕ → ℕ → (ℕ → UdpSocket) → List (SocketId × ℕ) → Bool
is_address_in_use family address port objects [] = false
is_address_in_use family address port objects ((id, h) ∷ rest) =
    overlaps family address port (objects h) || is_address_in_use family address port objects rest

-- A socket with a new name: the old name goes, the object changes, the new name comes.
abbrev pub renamed : ℕ → UdpSocket → SocketTable → SocketTable
renamed h s t = record t {
  sockets = put_socket (id_of s) h (pop_socket (id_of (t.objects h)) t.sockets);
  objects = set_object h s t.objects;
}

-- What the parser makes of the address that is given, and whether the stack owns it.
pub record Given (Text : Type 0) : Type 0 where
  pub parse : AddressFamily → Text → Option ℕ
  pub owned : AddressFamily → List ℕ
  pub pick_local_ip_address : AddressFamily → ℕ → ℕ
  pub pop : List ℕ → ℕ
  -- The family, the local address and port, the remote address and port, and the data.
  pub send_udp_packet : AddressFamily → ℕ → ℕ → ℕ → ℕ → List ℕ → TxStatus

module _ {Text : Type 0} (g : Given Text) where
  -- The local port: the one that is asked for, if it is free, or one that is picked.
  abbrev pub bind_port : ℕ → ℕ → ℕ → SocketTable → Result ℕ
  bind_port h address port t =
      if ltb 0 port
      then (if is_address_in_use (UdpSocket.family (t.objects h)) address port t.objects t.sockets
          then raised in_use
          else ok port)
      else pick_local_port g.pop t

  abbrev pub bound : ℕ → ℕ → Result ℕ → SocketTable → Result Unit × SocketTable
  bound h address (raised e) t = (raised e, t)
  bound h address (ok port) t =
      let s = t.objects h in
      (ok tt, renamed h (record s { local_ip_address = address; local_port = port }) t)

  abbrev pub bind_at : ℕ → Option ℕ → ℕ → SocketTable → Result Unit × SocketTable
  bind_at h none port t = (raised gai_error, t)
  bind_at h (some address) port t =
      if not (member address (g.owned (UdpSocket.family (t.objects h))) || address == 0)
      then (raised cannot_assign, t)
      else if not (leb port 0xffff)
      then (raised overflow_error, t)
      else bound h address (bind_port h address port t) t

  -- `bind`
  unfoldable pub bind : ℕ → Text → ℕ → SocketTable → Result Unit × SocketTable
  unfolding is_address_in_use pop_socket put_socket set_object member
  bind h text port t =
      let s = t.objects h in
      if is_port s.local_port
      then (raised invalid_argument, t)
      else bind_at h (g.parse s.family text) port t

  -- `_set_ip_addresses` behind the parser: the local and the remote address, and the socket, which is
  -- marked unreachable for an unspecified remote address.
  abbrev pub picked_address : AddressFamily → ℕ → ℕ → ℕ → ℕ → Result (ℕ × ℕ)
  picked_address family remote local local_port remote_port =
      if not (local == 0)
      then ok (local, remote)
      else (let chosen = g.pick_local_ip_address family remote in
          if chosen == 0 && not (local_port == 68 && remote_port == 67)
          then raised gai_error
          else ok (chosen, remote))

  abbrev pub marked : ℕ → ℕ → SocketTable → SocketTable
  marked h remote t = if remote == 0 then update h (λ s. record s { unreachable = true }) t else t

  abbrev pub set_ip_addresses : ℕ → Option ℕ → ℕ → ℕ → SocketTable → Result (ℕ × ℕ) × SocketTable
  set_ip_addresses h none local_port remote_port t = (raised gai_error, t)
  set_ip_addresses h (some remote) local_port remote_port t =
      let s = t.objects h in
      (picked_address s.family remote s.local_ip_address local_port remote_port, marked h remote t)

  -- The port that the socket has, or one that is picked.
  abbrev pub own_port : UdpSocket → SocketTable → Result ℕ
  own_port s t = if is_port s.local_port then ok s.local_port else pick_local_port g.pop t

  abbrev pub connected : ℕ → ℕ → ℕ → Result (ℕ × ℕ) × SocketTable → Result Unit × SocketTable
  connected h local_port remote_port (raised e, t) = (raised e, t)
  connected h local_port remote_port (ok (local, remote), t) =
      let s = t.objects h in
      (
        ok tt,
        renamed h
            (record s {
              local_ip_address = local;
              local_port = local_port;
              remote_ip_address = remote;
              remote_port = remote_port;
            })
            t,
      )

  abbrev pub connect_from : ℕ → Text → ℕ → Result ℕ → SocketTable → Result Unit × SocketTable
  connect_from h text remote_port (raised e) t = (raised e, t)
  connect_from h text remote_port (ok local_port) t =
      connected h local_port remote_port (
        set_ip_addresses h (g.parse (UdpSocket.family (t.objects h)) text) local_port remote_port t)

  -- `connect`
  unfoldable pub connect : ℕ → Text → ℕ → SocketTable → Result Unit × SocketTable
  unfolding pop_socket put_socket set_object
  connect h text remote_port t =
      if not (leb remote_port 0xffff)
      then (raised overflow_error, t)
      else connect_from h text remote_port (own_port (t.objects h) t) t
