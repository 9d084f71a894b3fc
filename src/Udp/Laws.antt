-- ===== src/Udp/Laws.antt =====
-- How packets reach the sockets that are bound for them.
use py_tcp.Prelude.{
  ℕ, ◌≤◌, ◌<◌, ◌≡◌, refl, none, some, List, [], ◌∷◌, ◌++◌, Bool, true, false, leb, ltb, ap, sym,
  ◌∙◌, Bool-cases, inl, inr, arith,
}
use py_tcp.Wire.{accepted}
use py_tcp.Ip4.Output.{member}
use py_tcp.Packet.Udp.{UdpPacket, parse_udp, check_udp_integrity, check_udp_sanity}
use py_tcp.Udp.{
  AddressFamily, inet4, inet6, SocketId, same_id, UdpMetadata, UdpSocket, id_of, SocketTable,
  get_socket, pop_socket, put_socket, set_object, update, or_later, match_socket, socket_patterns,
  process_udp_packet,
}
use py_tcp.Udp.Sockets.{Given, ok, is_port, is_address_in_use, renamed, bind}
use py_tcp.Udp.Transfer.{oldest, recvfrom}
use py_tcp.Udp.Input.{
  IpPacket, phrx_udp, checked_udp, metadata_of, no_socket, parsed_udp, sane_udp, to_socket,
  delivered,
}

same_id_self : (a : SocketId) → same_id a a ≡ true
same_id_self a = by_family a.family refl
  where
    by_family : (f : AddressFamily) → a.family ≡ f → same_id a a ≡ true
    by_family inet4 e = rw e (ground arith)
    by_family inet6 e = rw e (ground arith)

get_socket-put_socket :
    (id : SocketId) (h : ℕ) (xs : List (SocketId × ℕ)) → get_socket id (put_socket id h xs) ≡ some h
unfolding get_socket put_socket
get_socket-put_socket id h [] = rw (same_id_self id) refl
get_socket-put_socket id h ((other, k) ∷ rest) = elim (Bool-cases (same_id id other)) [
  | inl t ↦ rw (t, t) refl
  | inr f ↦ rw (f, f) (get_socket-put_socket id h rest)
]

set_object_self : (h : ℕ) (s : UdpSocket) (objects : ℕ → UdpSocket) → set_object h s objects h ≡ s
unfolding set_object
set_object_self h s objects = ground arith

match_socket-second :
    (first second : SocketId) (rest : List SocketId) (xs : List (SocketId × ℕ)) (h : ℕ)
    → get_socket first xs ≡ none
    → get_socket second xs ≡ some h
    → match_socket (first ∷ second ∷ rest) xs ≡ some h
unfolding match_socket
match_socket-second first second rest xs h missed hit =
    ap (λ o. or_later o (match_socket (second ∷ rest) xs)) missed
    ∙ ap (λ o. or_later o (match_socket rest xs)) hit

phrx_udp-delivered :
    (echo : Bool) (ip : IpPacket) (p : UdpPacket) (h : ℕ) (u : SocketTable)
    → check_udp_integrity ip.dlen ip.pshdr_sum ip.frame ≡ accepted
    → parse_udp ip.frame ≡ some p
    → check_udp_sanity p ≡ accepted
    → match_socket (socket_patterns (metadata_of ip p)) u.sockets ≡ some h
    → phrx_udp echo ip u ≡ (delivered h, update h (process_udp_packet (metadata_of ip p)) u)
unfolding phrx_udp
phrx_udp-delivered echo ip p h u checked read sane matched =
    ap (λ v. checked_udp echo ip v u) checked
    ∙ ap (λ m. parsed_udp echo ip m u) read
    ∙ ap (λ v. sane_udp echo ip p v u) sane
    ∙ ap
        (λ o.
          to_socket o (no_socket echo ip p) (λ k. update k (process_udp_packet (metadata_of ip p)))
            u)
        matched

recvfrom-delivered :
    (h : ℕ) (m : UdpMetadata) (u : SocketTable)
    → UdpSocket.packet_rx_md (u.objects h) ≡ []
    → (recvfrom h (update h (process_udp_packet m) u)).0 ≡ ok m
unfolding recvfrom
recvfrom-delivered h m u empty =
    let after = update h (process_udp_packet m) u in
    let waits : UdpSocket.packet_rx_md (after.objects h) ≡ m ∷ [] =
      ap UdpSocket.packet_rx_md (set_object_self h (process_udp_packet m (u.objects h)) u.objects)
      ∙ ap (λ ps. ps ++ (m ∷ [])) empty in
    ap (λ ps. (oldest h ps after).0) waits

-- A fresh socket that is bound to an address of the stack and a free port.
abbrev pub bound_socket : UdpSocket → ℕ → ℕ → UdpSocket
bound_socket s address port = record s { local_ip_address = address; local_port = port }

module _ {Text : Type 0} (g : Given Text) (h : ℕ) (text : Text) (address port : ℕ) (t : SocketTable)
    (parsed : g.parse (UdpSocket.family (t.objects h)) text ≡ some address)
    (own : member address (g.owned (UdpSocket.family (t.objects h))) ≡ true)
    (fresh : UdpSocket.local_port (t.objects h) ≡ 0) (some_port : 0 < port) (fits : port ≤ 0xffff)
    (free : is_address_in_use (UdpSocket.family (t.objects h)) address port t.objects t.sockets
      ≡ false) where
  bind-renamed :
      bind g h text port t ≡ (ok tt, renamed h (bound_socket (t.objects h) address port) t)
  unfolding bind
  bind-renamed =
      let unbound : is_port (UdpSocket.local_port (t.objects h)) ≡ false = ground (arith, fresh) in
      let asked : ltb 0 port ≡ true = ground arith in
      let in_range : leb port 0xffff ≡ true = ground arith in
      rw (unbound, parsed, own, in_range, asked, free) refl

  -- The table once the socket is bound.
  abbrev pub table : SocketTable
  table = renamed h (bound_socket (t.objects h) address port) t

  bound-get_socket :
      get_socket (id_of (bound_socket (t.objects h) address port)) table.sockets ≡ some h
  bound-get_socket =
      get_socket-put_socket (id_of (bound_socket (t.objects h) address port)) h
        (pop_socket (id_of (t.objects h)) t.sockets)

  module _ (ip : IpPacket) (p : UdpPacket) (family : ip.family ≡ UdpSocket.family (t.objects h))
      (to_address : ip.dst ≡ address) (to_port : p.dport ≡ port)
      (unconnected : (UdpSocket.remote_ip_address (t.objects h) ≡ 0)
        × (UdpSocket.remote_port (t.objects h) ≡ 0))
      (no_other : get_socket
          (record {
            family = ip.family;
            local_ip_address = ip.dst;
            local_port = p.dport;
            remote_ip_address = ip.src;
            remote_port = p.sport;
          })
          table.sockets
        ≡ none) where
    bound-matches : match_socket (socket_patterns (metadata_of ip p)) table.sockets ≡ some h
    bound-matches = match_socket-second _ _ _ table.sockets h no_other (
        ap (λ id. get_socket id table.sockets)
          (λ i. record {
            family = family i;
            local_ip_address = to_address i;
            local_port = to_port i;
            remote_ip_address = sym unconnected.0 i;
            remote_port = sym unconnected.1 i;
          })
        ∙ bound-get_socket)

    taken :
        UdpSocket.packet_rx_md (t.objects h) ≡ []
        → (recvfrom h (update h (process_udp_packet (metadata_of ip p)) table)).0
          ≡ ok (metadata_of ip p)
    taken empty = recvfrom-delivered h (metadata_of ip p) table (
        ap UdpSocket.packet_rx_md
          (set_object_self h (bound_socket (t.objects h) address port) t.objects)
        ∙ empty)

-- A socket that is not connected, without a port and without packets waiting, is bound to an address that
-- the parser reads, that the stack owns, and to a port from 1 to 65535 that no socket of its kind
-- overlaps with. Then a UDP packet of its family to this address and port, which the parser accepts
-- and for whose sender no connected socket is registered, is queued at this socket: the registry and
-- every other object stay as they are, and nothing is sent. The next `recvfrom` returns the packet,
-- with its sender and its data.
pub bind-delivers :
    {Text : Type 0} (g : Given Text) (h : ℕ) (text : Text) (address port : ℕ) (t : SocketTable)
    (ip : IpPacket) (p : UdpPacket) (echo : Bool)
    → g.parse (UdpSocket.family (t.objects h)) text ≡ some address
    → member address (g.owned (UdpSocket.family (t.objects h))) ≡ true
    → UdpSocket.local_port (t.objects h) ≡ 0
    → 0 < port
    → port ≤ 0xffff
    → is_address_in_use (UdpSocket.family (t.objects h)) address port t.objects t.sockets ≡ false
    → ip.family ≡ UdpSocket.family (t.objects h)
    → ip.dst ≡ address
    → p.dport ≡ port
    → (UdpSocket.remote_ip_address (t.objects h) ≡ 0) × (UdpSocket.remote_port (t.objects h) ≡ 0)
    → get_socket
        (record {
          family = ip.family;
          local_ip_address = ip.dst;
          local_port = p.dport;
          remote_ip_address = ip.src;
          remote_port = p.sport;
        })
        (SocketTable.sockets (renamed h (bound_socket (t.objects h) address port) t))
      ≡ none
    → check_udp_integrity ip.dlen ip.pshdr_sum ip.frame ≡ accepted
    → parse_udp ip.frame ≡ some p
    → check_udp_sanity p ≡ accepted
    → UdpSocket.packet_rx_md (t.objects h) ≡ []
    → (after : SocketTable) × (bind g h text port t ≡ (ok tt, after))
      × (phrx_udp echo ip after
          ≡ (delivered h, update h (process_udp_packet (metadata_of ip p)) after))
      × ((recvfrom h (phrx_udp echo ip after).1).0 ≡ ok (metadata_of ip p))
bind-delivers g h text address port t ip p echo parsed own fresh some_port fits free family
      to_address to_port unconnected no_other checked read sane empty =
    let given =
      phrx_udp-delivered echo ip p h (renamed h (bound_socket (t.objects h) address port) t) checked
        read sane
        (bound-matches g h text address port t parsed own fresh some_port fits free ip p family
          to_address to_port unconnected no_other) in
    (
      renamed h (bound_socket (t.objects h) address port) t,
      bind-renamed g h text address port t parsed own fresh some_port fits free,
      given,
      ap (λ r. (recvfrom h r.1).0) given
          ∙ taken g h text address port t parsed own fresh some_port fits free ip p family
              to_address to_port unconnected no_other empty,
    )
