-- ===== src/Udp/Transfer.antt =====
-- Sending, receiving and closing: the rest of the operations of `UdpSocket`
-- (pytcp/protocols/udp/socket.py).
use py_tcp.Prelude.{ℕ, List, [], ◌∷◌, false, not, ◌||◌, ◌==◌, leb, length, if◌then◌else◌}
use py_tcp.Ip4.Output.{TxStatus, is_passed}
use py_tcp.Udp.{
  UdpMetadata, UdpSocket, id_of, SocketTable, pop_socket, put_socket, set_object, update,
}
use py_tcp.Udp.Sockets.{
  Result, is_port, pick_local_port, renamed, Given, set_ip_addresses, ok, raised,
  destination_required, overflow_error, refused, receive_timeout,
}

module _ {Text : Type 0} (g : Given Text) where
  -- The length of the data if they were passed on.
  abbrev pub sent_len : List ℕ → TxStatus → ℕ
  sent_len body status = if is_passed status then length body else 0

  -- `send`
  unfoldable pub send : ℕ → List ℕ → SocketTable → Result ℕ × SocketTable
  unfolding set_object
  send h body t =
      let s = t.objects h in
      if s.remote_ip_address == 0 || s.remote_port == 0
      then (raised destination_required, t)
      else if s.unreachable
      then (raised refused, update h (λ s. record s { unreachable = false }) t)
      else (
        ok (
            sent_len body (
              g.send_udp_packet s.family s.local_ip_address s.local_port s.remote_ip_address
                s.remote_port body)),
        t,
      )

  abbrev pub sent_to : ℕ → List ℕ → ℕ → Result (ℕ × ℕ) × SocketTable → Result ℕ × SocketTable
  sent_to h body remote_port (raised e, t) = (raised e, t)
  sent_to h body remote_port (ok (local, remote), t) =
      let s = t.objects h in
      (
        ok (sent_len body (g.send_udp_packet s.family local s.local_port remote remote_port body)),
        t,
      )

  -- With a local port, in the same object.
  abbrev pub send_from : ℕ → List ℕ → Text → ℕ → Result ℕ → SocketTable → Result ℕ × SocketTable
  send_from h body text remote_port (raised e) t = (raised e, t)
  send_from h body text remote_port (ok local_port) t =
      let named = renamed h (record (t.objects h) { local_port = local_port }) t in
      sent_to h body remote_port (
        set_ip_addresses g h (g.parse (UdpSocket.family (t.objects h)) text) local_port remote_port
          named)

  -- A socket without a port loses its name before the port is picked.
  abbrev pub unnamed : ℕ → SocketTable → SocketTable
  unnamed h t = record t { sockets = pop_socket (id_of (t.objects h)) t.sockets }

  -- `sendto`
  unfoldable pub sendto : ℕ → List ℕ → Text → ℕ → SocketTable → Result ℕ × SocketTable
  unfolding pop_socket put_socket set_object
  sendto h body text remote_port t =
      let s = t.objects h in
      if not (leb remote_port 0xffff)
      then (raised overflow_error, t)
      else if is_port s.local_port
      then sent_to h body remote_port
          (set_ip_addresses g h (g.parse s.family text) s.local_port remote_port t)
      else send_from h body text remote_port (pick_local_port g.pop (unnamed h t)) (unnamed h t)

-- `recv`: the oldest packet. On an empty queue it waits; here that is the timeout.
abbrev pub oldest : ℕ → List UdpMetadata → SocketTable → Result UdpMetadata × SocketTable
oldest h [] t = (raised receive_timeout, t)
oldest h (p ∷ ps) t = (ok p, update h (λ s. record s { packet_rx_md = ps }) t)

unfoldable pub recv : ℕ → SocketTable → Result UdpMetadata × SocketTable
unfolding set_object
recv h t =
    if UdpSocket.unreachable (t.objects h)
    then (raised refused, update h (λ s. record s { unreachable = false }) t)
    else oldest h (UdpSocket.packet_rx_md (t.objects h)) t

-- `recvfrom`
unfoldable pub recvfrom : ℕ → SocketTable → Result UdpMetadata × SocketTable
unfolding set_object
recvfrom h t = oldest h (UdpSocket.packet_rx_md (t.objects h)) t

-- `close`
unfoldable pub close : ℕ → SocketTable → SocketTable
unfolding pop_socket
close h t = record t { sockets = pop_socket (id_of (t.objects h)) t.sockets }
