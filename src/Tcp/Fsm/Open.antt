-- ===== src/Tcp/Fsm/Open.antt =====
-- The handlers of the states ESTABLISHED and CLOSE_WAIT.
use py_tcp.Prelude.{◌+◌, Bool, true, not, ◌&&◌, ◌==◌, leb, ltb, if◌then◌else◌, length}
use py_tcp.Tcp.State.{
  Metadata, Session, Input, packet, syscall, timer, close_call, FsmState, closed, fin_wait_1,
  close_wait, last_ack,
}
use py_tcp.Tcp.Outcome.{Outcome, done, ◌>>=◌}
use py_tcp.Tcp.Output.{
  non_empty, change_state, send_ack, transmit_data, delayed_ack, retransmit_packet_timeout,
  retransmit_packet_request,
}
use py_tcp.Tcp.Input.{
  only_ack, fin_and_ack, rst_and_ack, only_rst, acks_sent, is_next, process_ack_packet,
  handle_out_of_order,
}

-- The timer event: send what is due, and start closing once all data is acknowledged. The chain
-- goes on whatever state `_retransmit_packet_timeout` left.
unfoldable pub sending_tick : FsmState → Session → Outcome
sending_tick next s = do
  t ← retransmit_packet_timeout s
  u ← transmit_data t
  v ← delayed_ack u
  if v.is_closing && not (non_empty v.tx_buffer) then change_state next v else done v

-- `_rcv_nxt <= seq <= _rcv_nxt + _rcv_wnd - len(data)`, where the right side may be negative.
abbrev pub fits_window : Metadata → Session → Bool
fits_window p s = leb s.rcv_nxt p.seq && leb (p.seq + length p.payload) (s.rcv_nxt + s.rcv_wnd)

-- An empty packet that acknowledges nothing new: the peer may be asking for a retransmit.
abbrev pub is_duplicate_ack : Metadata → Session → Bool
is_duplicate_ack p s = p.seq == s.rcv_nxt && (p.ack == s.snd_una && not (non_empty p.payload))

unfoldable pub established_ack : (Metadata → Session → Outcome) → Metadata → Session → Outcome
established_ack fsm p s =
    if is_duplicate_ack p s
    then done (retransmit_packet_request p s)
    else if ltb s.rcv_nxt p.seq && acks_sent p s
    then handle_out_of_order p s
    else if is_next p s
    then process_ack_packet fsm p s
    else done s

abbrev pub wake_receiver : Session → Session
wake_receiver s = record s { event_rx_buffer = s.event_rx_buffer + 1 }

-- An acceptable packet, whose data, if any, is acknowledged at once.
unfoldable pub process_and_ack : (Metadata → Session → Outcome) → Metadata → Session → Outcome
process_and_ack fsm p s = do
  t ← process_ack_packet fsm p s
  if non_empty p.payload then send_ack t else done t

unfoldable pub established_fin : (Metadata → Session → Outcome) → Metadata → Session → Outcome
unfolding process_and_ack
established_fin fsm p s = do t ← process_and_ack fsm p s; change_state close_wait (wake_receiver t)

unfoldable pub established_packet : (Metadata → Session → Outcome) → Metadata → Session → Outcome
unfolding established_ack established_fin
established_packet fsm p s =
    if not (fits_window p s)
    then done s
    else if only_ack p
    then established_ack fsm p s
    else if fin_and_ack p
    then (if is_next p s then established_fin fsm p s else done s)
    else if rst_and_ack p && is_next p s
    then change_state closed (wake_receiver s)
    else done s

unfoldable pub tcp_fsm_established : (Metadata → Session → Outcome) → Input → Session → Outcome
unfolding established_packet sending_tick
tcp_fsm_established fsm timer s = sending_tick fin_wait_1 s
tcp_fsm_established fsm (packet p) s = established_packet fsm p s
tcp_fsm_established fsm (syscall close_call) s = done (record s { is_closing = true })
tcp_fsm_established fsm _ s = done s

unfoldable pub close_wait_ack : (Metadata → Session → Outcome) → Metadata → Session → Outcome
close_wait_ack fsm p s =
    if is_duplicate_ack p s
    then done (retransmit_packet_request p s)
    else if ltb s.rcv_nxt p.seq && acks_sent p s
    then handle_out_of_order p s
    else if is_next p s && not (non_empty p.payload)
    then process_ack_packet fsm p s
    else done s

unfoldable pub tcp_fsm_close_wait : (Metadata → Session → Outcome) → Input → Session → Outcome
unfolding close_wait_ack sending_tick
tcp_fsm_close_wait fsm timer s = sending_tick last_ack s
tcp_fsm_close_wait fsm (packet p) s =
    if only_ack p
    then close_wait_ack fsm p s
    else if only_rst p && p.seq == s.rcv_nxt
    then change_state closed s
    else done s
tcp_fsm_close_wait fsm (syscall close_call) s = done (record s { is_closing = true })
tcp_fsm_close_wait fsm _ s = done s
