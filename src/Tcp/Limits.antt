-- ===== src/Tcp/Limits.antt =====
-- Where the session stops short of TCP: an event that is ignored, and events that raise
-- `AssertionError` out of `tcp_fsm`.
pub mod Tests
use py_tcp.Prelude.{
  ℕ, zero, suc, ◌+◌, ◌-◌, ◌*◌, ◌<◌, ◌≤◌, ◌^◌, ◌≡◌, refl, none, some, List, [], Bool, true, false,
  not, ◌&&◌, ◌||◌, ◌==◌, leb, ltb, min, max, length, ap, ◌∙◌, if◌then◌else◌, arith,
}
use py_tcp.Dict.{get?}
use py_tcp.Tcp.State.{
  Metadata, Session, Input, packet, timer, FsmState, syn_sent, established, retransmit_timer,
}
use py_tcp.Tcp.Outcome.{Outcome, done, raised, assertion_error, ◌>>=◌, on_lookup}
use py_tcp.Tcp.Output.{
  transmit_data, retransmit_packet_timeout, is_expired, is_zero, non_empty, remaining_data_len,
  transmit_data_len, transmit_pending, transmit_segment, transmit_packet, assembler_accepts,
  make_segment,
}
use py_tcp.Tcp.Input.{
  only_syn, only_ack, is_next, acks_sent, accept_packet, take_payload, ack_sent, enqueue_rx_buffer,
  process_ack_packet, bring_next,
}
use py_tcp.Tcp.Fsm.{tcp_fsm, tcp_fsm_at, dispatch}
use py_tcp.Tcp.Fsm.Opening.{tcp_fsm_syn_sent}
use py_tcp.Tcp.Fsm.Open.{
  tcp_fsm_established, fits_window, is_duplicate_ack, sending_tick, established_packet,
  established_ack,
}

-- A session that is connecting ignores a SYN without ACK, FIN and RST, whatever it carries: the
-- simultaneous open that the handler has a branch for does not take place.
pub syn_sent-only_syn :
    (p : Metadata) (s : Session)
    → s.state ≡ syn_sent
    → only_syn p ≡ true
    → tcp_fsm (packet p) s ≡ done s
unfolding tcp_fsm tcp_fsm_at dispatch tcp_fsm_syn_sent
syn_sent-only_syn p s connecting syn = rw connecting (ground arith)

in_established :
    (i : Input) (s : Session)
    → s.state ≡ established
    → tcp_fsm i s
      ≡ tcp_fsm_established (λ p t. tcp_fsm_at (length s.ooo_packet_queue) (packet p) t) i s
unfolding tcp_fsm tcp_fsm_at dispatch
in_established i s e =
    ap (λ st. dispatch (λ p t. tcp_fsm_at (length s.ooo_packet_queue) (packet p) t) st i s) e

wait_retransmit :
    (s : Session)
    → is_expired (retransmit_timer s.snd_una) s ≡ false
    → retransmit_packet_timeout s ≡ done s
unfolding retransmit_packet_timeout
wait_retransmit s h = ground arith

outside :
    (s : Session) → s.snd_una + s.snd_ewn < s.snd_nxt → transmit_data s ≡ raised assertion_error s
unfolding transmit_data
outside s out = ground arith

-- Before anything is sent, the timer event checks that the next number is in the usable window.
timer-raises :
    (s : Session)
    → s.state ≡ established
    → is_expired (retransmit_timer s.snd_una) s ≡ false
    → s.snd_una + s.snd_ewn < s.snd_nxt
    → tcp_fsm timer s ≡ raised assertion_error s
unfolding tcp_fsm_established sending_tick
timer-raises s e h out =
    in_established timer s e ∙ rw (wait_retransmit s h) (rw (outside s out) refl)

established_accepts :
    (fsm : Metadata → Session → Outcome) (p : Metadata) (s : Session)
    → only_ack p ≡ true
    → fits_window p s ≡ true
    → is_duplicate_ack p s ≡ false
    → is_next p s ≡ true
    → get? (p.seq + length p.payload) s.ooo_packet_queue ≡ none
    → established_packet fsm p s ≡ done (accept_packet p s)
unfolding established_packet established_ack process_ack_packet bring_next accept_packet
established_accepts fsm p s a f d n e = ground arith

established_packet_runs :
    (p : Metadata) (s : Session)
    → s.state ≡ established
    → only_ack p ≡ true
    → fits_window p s ≡ true
    → is_duplicate_ack p s ≡ false
    → is_next p s ≡ true
    → get? (p.seq + length p.payload) s.ooo_packet_queue ≡ none
    → tcp_fsm (packet p) s ≡ done (accept_packet p s)
unfolding tcp_fsm_established
established_packet_runs p s e a f d n q =
    in_established (packet p) s e ∙ established_accepts _ p s a f d n q

closed_window :
    (p : Metadata) (s : Session)
    → is_next p s ≡ true
    → p.ack + p.win * s.snd_wsc < s.snd_nxt
    → ((accept_packet p s).snd_una ≡ p.ack)
      × ((accept_packet p s).snd_una + (accept_packet p s).snd_ewn < (accept_packet p s).snd_nxt)
unfolding accept_packet take_payload ack_sent enqueue_rx_buffer
closed_window p s n w = (ground arith, grind (arith, n, w))

accept-keeps :
    (p : Metadata) (s : Session)
    → ((accept_packet p s).state ≡ s.state) × ((accept_packet p s).timers ≡ s.timers)
unfolding accept_packet take_payload ack_sent enqueue_rx_buffer
accept-keeps p s = (ground arith, ground arith)

-- A session in ESTABLISHED accepts a packet that acknowledges less than was sent and offers a window
-- that ends before what was sent; nothing is queued behind the packet. The next timer event raises
-- AssertionError, unless the retransmission timer of the first number not acknowledged has run out.
pub shrink_window-raises :
    (p : Metadata) (s : Session)
    → s.state ≡ established
    → only_ack p ≡ true
    → fits_window p s ≡ true
    → is_duplicate_ack p s ≡ false
    → is_next p s ≡ true
    → get? (p.seq + length p.payload) s.ooo_packet_queue ≡ none
    → p.ack + p.win * s.snd_wsc < s.snd_nxt
    → is_expired (retransmit_timer p.ack) s ≡ false
    → (tcp_fsm (packet p) s >>= tcp_fsm timer) ≡ raised assertion_error (accept_packet p s)
shrink_window-raises p s e a f d n q w h =
    let (una, out) = closed_window p s n w in
    let (state, timers) = accept-keeps p s in
    rw (established_packet_runs p s e a f d n q)
      (timer-raises (accept_packet p s) (state ∙ e) (rw (una, timers) h) out)

beyond :
    (s : Session)
    → s.state ≡ established
    → s.snd_una ≤ s.snd_nxt
    → s.snd_nxt ≤ s.snd_una + s.snd_ewn
    → is_zero (remaining_data_len s) ≡ false
    → is_zero (transmit_data_len s) ≡ false
    → 2 ^ 32 ≤ s.snd_nxt
    → transmit_data s ≡ raised assertion_error s
unfolding transmit_data transmit_pending transmit_segment transmit_packet assembler_accepts
    make_segment
beyond s e low high left room wrap = ground arith

-- A session in ESTABLISHED whose next sequence number is 2^32 or more and in the usable window, with
-- data that the window allows to be sent and no retransmission due: the timer event raises
-- AssertionError, as the number is not reduced modulo 2^32.
pub wrap-raises :
    (s : Session)
    → s.state ≡ established
    → is_expired (retransmit_timer s.snd_una) s ≡ false
    → s.snd_una ≤ s.snd_nxt
    → s.snd_nxt ≤ s.snd_una + s.snd_ewn
    → is_zero (remaining_data_len s) ≡ false
    → is_zero (transmit_data_len s) ≡ false
    → 2 ^ 32 ≤ s.snd_nxt
    → tcp_fsm timer s ≡ raised assertion_error s
unfolding tcp_fsm_established sending_tick
wrap-raises s e h low high left room wrap =
    in_established timer s e
    ∙ rw (wait_retransmit s h) (rw (beyond s e low high left room wrap) refl)
