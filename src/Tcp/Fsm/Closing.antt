-- ===== src/Tcp/Fsm/Closing.antt =====
-- The handlers of the states FIN_WAIT_1, FIN_WAIT_2, CLOSING, LAST_ACK and TIME_WAIT.
use py_tcp.Prelude.{Bool, ◌&&◌, ◌==◌, leb, if◌then◌else◌}
use py_tcp.Tcp.State.{
  Metadata, Session, Input, packet, syscall, timer, closed, fin_wait_2, closing, time_wait,
  time_wait_timer, time_wait_delay,
}
use py_tcp.Tcp.Outcome.{Outcome, done, ◌>>=◌}
use py_tcp.Tcp.Output.{is_expired, change_state, register_timer, send_ack}
use py_tcp.Tcp.Input.{only_ack, fin_and_ack, rst_and_ack, acks_sent, is_next, process_ack_packet}
use py_tcp.Tcp.Fsm.Opening.{retransmit_tick}
use py_tcp.Tcp.Fsm.Open.{process_and_ack}

unfoldable pub enter_time_wait : Session → Outcome
enter_time_wait s = do
  t ← change_state time_wait s
  done (register_timer time_wait_timer time_wait_delay t)

-- The branch that all these states have for an acceptable RST + ACK packet.
abbrev pub is_reset : Metadata → Session → Bool
is_reset p s = rst_and_ack p && is_next p s

unfoldable pub fin_wait_1_ack : (Metadata → Session → Outcome) → Metadata → Session → Outcome
fin_wait_1_ack fsm p s = do
  t ← process_and_ack fsm p s
  if leb t.snd_fin p.ack then change_state fin_wait_2 t else done t

unfoldable pub fin_wait_1_fin : (Metadata → Session → Outcome) → Metadata → Session → Outcome
unfolding enter_time_wait
fin_wait_1_fin fsm p s = do
  t ← process_ack_packet fsm p s
  u ← send_ack t
  if leb u.snd_fin p.ack then enter_time_wait u else change_state closing u

unfoldable pub tcp_fsm_fin_wait_1 : (Metadata → Session → Outcome) → Input → Session → Outcome
unfolding fin_wait_1_ack fin_wait_1_fin
tcp_fsm_fin_wait_1 fsm timer s = retransmit_tick s
tcp_fsm_fin_wait_1 fsm (packet p) s =
    if only_ack p
    then (if is_next p s then fin_wait_1_ack fsm p s else done s)
    else if fin_and_ack p
    then (if is_next p s then fin_wait_1_fin fsm p s else done s)
    else if is_reset p s
    then change_state closed s
    else done s
tcp_fsm_fin_wait_1 fsm (syscall _) s = done s

unfoldable pub fin_wait_2_fin : (Metadata → Session → Outcome) → Metadata → Session → Outcome
unfolding enter_time_wait
fin_wait_2_fin fsm p s = do t ← process_ack_packet fsm p s; u ← send_ack t; enter_time_wait u

unfoldable pub tcp_fsm_fin_wait_2 : (Metadata → Session → Outcome) → Input → Session → Outcome
unfolding fin_wait_2_fin
tcp_fsm_fin_wait_2 fsm (packet p) s =
    if only_ack p && is_next p s
    then process_and_ack fsm p s
    else if fin_and_ack p && is_next p s
    then fin_wait_2_fin fsm p s
    else if is_reset p s
    then change_state closed s
    else done s
tcp_fsm_fin_wait_2 fsm _ s = done s

-- Here the data and the window of the packet are not looked at.
unfoldable pub tcp_fsm_closing : Input → Session → Outcome
unfolding enter_time_wait
tcp_fsm_closing (packet p) s =
    if only_ack p && (p.ack == s.snd_nxt && acks_sent p s)
    then enter_time_wait (record s { snd_una = p.ack })
    else if is_reset p s
    then change_state closed s
    else done s
tcp_fsm_closing _ s = done s

unfoldable pub tcp_fsm_last_ack : Input → Session → Outcome
tcp_fsm_last_ack timer s = retransmit_tick s
tcp_fsm_last_ack (packet p) s =
    if only_ack p
    then (if p.ack == s.snd_nxt && acks_sent p s then change_state closed s else done s)
    else if is_reset p s
    then change_state closed s
    else done s
tcp_fsm_last_ack (syscall _) s = done s

unfoldable pub tcp_fsm_time_wait : Input → Session → Outcome
tcp_fsm_time_wait timer s = if is_expired time_wait_timer s then change_state closed s else done s
tcp_fsm_time_wait _ s = done s
