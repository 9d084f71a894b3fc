-- ===== src/Tcp/Sequence.antt =====
-- The order of the sending sequence numbers of `TcpSession` (pytcp/protocols/tcp/session.py).
use py_tcp.Prelude.{◌≤◌, arith}
use py_tcp.Tcp.State.{
  Metadata, Session, FsmState, Input, packet, syscall, timer, listen_call, connect_call, close_call,
}
use py_tcp.Tcp.Outcome.{Ensures, Ensures-map}
use py_tcp.Tcp.Output.{
  after_transmit, register_timer, report_timeout, rewind, retransmit_packet_request,
}
use py_tcp.Tcp.Input.{accept_packet, dequeue, store_out_of_order}
use py_tcp.Tcp.Fsm.{tcp_fsm}
use py_tcp.Tcp.Fsm.Opening.{adopt_parameters, take_connection}
use py_tcp.Tcp.Moves.{
  Move, send, send_reset, accept, accept_handshake, accept_syn_ack, take_stored, store, go_back,
  count_duplicate, adopt, connection, fin_acked, change, pop_socket, start_timer, tell_timeout,
  wake_connect, wake_refused, wake_receive, hand_over, ask_close, Moves-induction, IsQueue, Arrives,
}
use py_tcp.Tcp.Moves.Refinement.{tcp_fsm-Moves}

-- What is not yet acknowledged is behind the next number, which is behind the highest one sent.
pub record IsOrdered (s : Session) : Type 0 where
  pub una_nxt : s.snd_una ≤ s.snd_nxt
  pub nxt_max : s.snd_nxt ≤ s.snd_max

-- Ordered, and no number that only grows has gone back since `s`.
pub record Forward (s t : Session) : Type 0 where
  pub ordered : IsOrdered t
  pub una_grows : s.snd_una ≤ t.snd_una
  pub max_grows : s.snd_max ≤ t.snd_max

module _ (P : Metadata → Type 0) (E : FsmState → Type 0) (o : Session) where
  Move-Forward : (s t : Session) → Move P E s t → Forward o s → Forward o t
  unfolding after_transmit register_timer accept_packet dequeue store_out_of_order rewind
      retransmit_packet_request report_timeout adopt_parameters take_connection
  Move-Forward _ _ (send a b c d s h) f = ground arith
  Move-Forward _ _ (send_reset s h) f = ground arith
  Move-Forward _ _ (accept p s k n h) f = ground arith
  Move-Forward _ _ (accept_handshake p s k a b e n h) f = ground arith
  Move-Forward _ _ (accept_syn_ack p s k y e h) f = ground arith
  Move-Forward _ _ (take_stored p s h) f = ground arith
  Move-Forward _ _ (store p s k a h) f = ground arith
  Move-Forward _ _ (go_back s) f = ground arith
  Move-Forward _ _ (count_duplicate p s) f = ground arith
  Move-Forward _ _ (adopt p s) f = ground arith
  Move-Forward _ _ (connection p s k h) f = ground arith
  Move-Forward _ _ (fin_acked p s h) f = ground arith
  Move-Forward _ _ (change t s e) f = ground arith
  Move-Forward _ _ (pop_socket s) f = ground arith
  Move-Forward _ _ (start_timer n t s) f = ground arith
  Move-Forward _ _ (tell_timeout s) f = ground arith
  Move-Forward _ _ (wake_connect s) f = ground arith
  Move-Forward _ _ (wake_refused s) f = ground arith
  Move-Forward _ _ (wake_receive s) f = ground arith
  Move-Forward _ _ (hand_over s) f = ground arith
  Move-Forward _ _ (ask_close s) f = ground arith

-- Nothing is known of the packets, and nothing asked of the states.
abbrev pub AnyPacket : Metadata → Type 0
AnyPacket p = Unit

abbrev AnyState : FsmState → Type 0
AnyState t = Unit

any-Arrives : (i : Input) → Arrives AnyPacket AnyState i
any-Arrives (packet p) = tt
any-Arrives (syscall listen_call) = tt
any-Arrives (syscall connect_call) = tt
any-Arrives (syscall close_call) = tt
any-Arrives timer = tt

-- On every event, in any state, from ordered numbers whose queue is keyed by sequence numbers, the
-- state machine leaves `snd_una <= snd_nxt <= snd_max`, and neither `snd_una` nor `snd_max` goes back,
-- whatever packet arrives.
pub tcp_fsm-Forward :
    (i : Input) (s : Session)
    → IsQueue AnyPacket s
    → IsOrdered s
    → Ensures (Forward s) (tcp_fsm i s)
tcp_fsm-Forward i s q h =
    Ensures-map (tcp_fsm i s)
      (λ t m. Moves-induction (Forward s) (Move-Forward AnyPacket AnyState s) s t m (omega arith))
      (tcp_fsm-Moves AnyPacket AnyState (λ t h. tt) i s (any-Arrives i) q)
