-- ===== src/Tcp/Fsm/Opening.antt =====
-- The handlers of the states CLOSED, LISTEN, SYN_SENT and SYN_RCVD.
use py_tcp.Prelude.{
  ℕ, zero, suc, ◌+◌, ◌-◌, ◌*◌, min, Option, none, some, ◌∷◌, [], Bool, true, false, not, ◌&&◌, ◌||◌,
  ◌==◌, if◌then◌else◌,
}
use py_tcp.Tcp.State.{
  Metadata, Session, Input, packet, syscall, timer, listen_call, connect_call, close_call, closed,
  listen, syn_sent, syn_rcvd, established, fin_wait_1, refused, tap_mtu, listener_renewed,
  socket_created, socket_accepted,
}
use py_tcp.Tcp.Outcome.{Outcome, done, raised, attribute_error, ◌>>=◌}
use py_tcp.Tcp.Output.{
  bit, non_empty, change_state, transmit_packet, send_ack, transmit_data, retransmit_packet_timeout,
}
use py_tcp.Tcp.Input.{
  only_syn, syn_and_ack, only_ack, rst_and_ack, only_rst, acks_sent, process_ack_packet,
}

unfoldable pub tcp_fsm_closed : Input → Session → Outcome
tcp_fsm_closed (syscall connect_call) s = change_state syn_sent s
tcp_fsm_closed (syscall listen_call) s = change_state listen s
tcp_fsm_closed _ s = done s

-- `packet_rx_md.wscale if packet_rx_md.wscale else 1`
abbrev pub scale_of : Option ℕ → ℕ
scale_of none = 1
scale_of (some zero) = 1
scale_of (some (suc n)) = suc n

-- The session parameters that a SYN or SYN + ACK packet sets.
unfoldable pub adopt_parameters : Metadata → Session → Session
adopt_parameters p s =
    let mss = min p.mss (tap_mtu - 40) in
    record s {
      snd_mss = mss;
      snd_wnd = p.win * s.snd_wsc;
      snd_wsc = scale_of p.wscale;
      rcv_ini = p.seq;
      snd_ewn = mss;
    }

-- A listening session turns into the session of the incoming connection, with a socket of its own;
-- a new session listens in its place.
unfoldable pub take_connection : Metadata → Session → Session
take_connection p s = record s {
  local_ip = p.local_ip;
  local_port = p.local_port;
  remote_ip = p.remote_ip;
  remote_port = p.remote_port;
  registered = true;
  has_parent = true;
  effects =
      socket_created (if p.local_ip.version == 6 then 6 else 4)
      ∷ listener_renewed s.local_ip s.local_port s.remote_ip s.remote_port
      ∷ s.effects;
}

unfoldable pub receive_syn : Metadata → Session → Outcome
unfolding adopt_parameters take_connection
receive_syn p s =
    let t = adopt_parameters p (take_connection p s) in
    change_state syn_rcvd (record t { rcv_nxt = p.seq + bit p.flag_syn })

unfoldable pub tcp_fsm_listen : Input → Session → Outcome
unfolding receive_syn
tcp_fsm_listen (packet p) s =
    if only_syn p && (p.ack == 0 && not (non_empty p.payload)) then receive_syn p s else done s
tcp_fsm_listen (syscall close_call) s = change_state closed s
tcp_fsm_listen _ s = done s

-- The timer event of the states that only retransmit.
unfoldable pub retransmit_tick : Session → Outcome
retransmit_tick s = do t ← retransmit_packet_timeout s; transmit_data t

unfoldable pub complete_connect : (Metadata → Session → Outcome) → Metadata → Session → Outcome
unfolding adopt_parameters
complete_connect fsm p s = do
  t ← process_ack_packet fsm p (adopt_parameters p s)
  u ← send_ack t
  v ← change_state established u
  done (record v { event_connect = v.event_connect + 1 })

unfoldable pub refuse_connect : Session → Outcome
refuse_connect s = do
  t ← change_state closed s
  done (record t { connection_error = refused; event_connect = t.event_connect + 1 })

-- The test for a SYN packet asks that SYN is set and that it is not.
abbrev pub simultaneous_syn : Metadata → Bool
simultaneous_syn p = p.flag_syn && not (p.flag_ack || (p.flag_fin || p.flag_syn))

unfoldable pub tcp_fsm_syn_sent : (Metadata → Session → Outcome) → Input → Session → Outcome
unfolding complete_connect refuse_connect retransmit_tick
tcp_fsm_syn_sent fsm timer s = retransmit_tick s
tcp_fsm_syn_sent fsm (packet p) s =
    if syn_and_ack p && (p.ack == s.snd_nxt && not (non_empty p.payload))
    then complete_connect fsm p s
    else if simultaneous_syn p && (p.ack == 0 && not (non_empty p.payload))
    then (do t ← transmit_packet none true true false false [] s; change_state syn_rcvd t)
    else if rst_and_ack p && (p.seq == 0 && p.ack == s.snd_nxt)
    then refuse_connect s
    else done s
tcp_fsm_syn_sent fsm (syscall close_call) s = change_state closed s
tcp_fsm_syn_sent fsm _ s = done s

-- The established connection is handed to the listening socket, which only an accepted session has.
unfoldable pub announce : Session → Outcome
announce s =
    if s.has_parent
    then done
        (record s { effects = socket_accepted ∷ s.effects; event_connect = s.event_connect + 1 })
    else raised attribute_error s

unfoldable pub complete_accept : (Metadata → Session → Outcome) → Metadata → Session → Outcome
unfolding announce
complete_accept fsm p s = do
  t ← process_ack_packet fsm p s
  u ← change_state established t
  announce u

unfoldable pub tcp_fsm_syn_rcvd : (Metadata → Session → Outcome) → Input → Session → Outcome
unfolding complete_accept retransmit_tick
tcp_fsm_syn_rcvd fsm timer s = retransmit_tick s
tcp_fsm_syn_rcvd fsm (packet p) s =
    if only_ack p && (p.seq == s.rcv_nxt && (p.ack == s.snd_nxt && not (non_empty p.payload)))
    then complete_accept fsm p s
    else if rst_and_ack p
    then (if p.seq == s.rcv_nxt && acks_sent p s then change_state closed s else done s)
    else if only_rst p && (p.seq == s.rcv_nxt && p.ack == 0)
    then change_state closed s
    else done s
tcp_fsm_syn_rcvd fsm (syscall close_call) s = change_state fin_wait_1 s
tcp_fsm_syn_rcvd fsm _ s = done s
