-- ===== src/Tcp/Moves/Queue.antt =====
-- The out-of-order queue under the moves.
use py_tcp.Prelude.{ℕ, ◌≡◌, refl, List, [], Bool, true, false, arith}
use py_tcp.Dict.Laws.{Entries-insert, Entries-remove}
use py_tcp.Tcp.State.{Metadata, Session, FsmState}
use py_tcp.Tcp.Output.{
  after_transmit, register_timer, report_timeout, rewind, retransmit_packet_request,
}
use py_tcp.Tcp.Input.{accept_packet, dequeue, store_out_of_order, only_ack}
use py_tcp.Tcp.Fsm.Opening.{adopt_parameters, take_connection}
use py_tcp.Tcp.Moves.{
  Move, send, send_reset, accept, accept_handshake, accept_syn_ack, take_stored, store, go_back,
  count_duplicate, adopt, connection, fin_acked, change, pop_socket, start_timer, tell_timeout,
  wake_connect, wake_refused, wake_receive, hand_over, ask_close, Moves, Moves-induction, IsQueue,
}

-- Only storing a packet and taking one out touch the queue.
queue-after_transmit :
    (n : ℕ) (a b c d : Bool) (e : List ℕ) (s : Session)
    → (after_transmit n a b c d e s).ooo_packet_queue ≡ s.ooo_packet_queue
unfolding after_transmit
queue-after_transmit n a b c d e s = ground arith

pub queue-accept_packet :
    (p : Metadata) (s : Session) → (accept_packet p s).ooo_packet_queue ≡ s.ooo_packet_queue
unfolding accept_packet
queue-accept_packet p s = ground arith

queue-retransmit_packet_request :
    (p : Metadata) (s : Session)
    → (retransmit_packet_request p s).ooo_packet_queue ≡ s.ooo_packet_queue
unfolding retransmit_packet_request
queue-retransmit_packet_request p s = ground arith

queue-report_timeout : (s : Session) → (report_timeout s).ooo_packet_queue ≡ s.ooo_packet_queue
unfolding report_timeout
queue-report_timeout s = ground arith

-- What is known of a stored packet.
abbrev pub Stored : (Metadata → Type 0) → ℕ → Metadata → Type 0
Stored P k q = P q × (q.seq ≡ k) × (only_ack q ≡ true)

module _ (P : Metadata → Type 0) (E : FsmState → Type 0) where
  pub Move-IsQueue : (s t : Session) → Move P E s t → IsQueue P s → IsQueue P t
  unfolding dequeue store_out_of_order rewind register_timer adopt_parameters take_connection
  Move-IsQueue _ _ (send a b c d s h) q = rw (queue-after_transmit s.snd_nxt a b c false d s) q
  Move-IsQueue _ _ (send_reset s h) q =
      rw (queue-after_transmit s.snd_una false true false true [] s) q
  Move-IsQueue _ _ (accept p s k f h) q = rw (queue-accept_packet p s) q
  Move-IsQueue _ _ (accept_handshake p s k a b e n h) q = rw (queue-accept_packet p s) q
  Move-IsQueue _ _ (accept_syn_ack p s k y e h) q = rw (queue-accept_packet p s) q
  Move-IsQueue _ _ (take_stored p s h) q = Entries-remove (Stored P) s.rcv_nxt s.ooo_packet_queue q
  Move-IsQueue _ _ (store p s k a h) q =
      Entries-insert (Stored P) p.seq p s.ooo_packet_queue (k, refl, a) q
  Move-IsQueue _ _ (go_back s) q = q
  Move-IsQueue _ _ (count_duplicate p s) q = rw (queue-retransmit_packet_request p s) q
  Move-IsQueue _ _ (adopt p s) q = q
  Move-IsQueue _ _ (connection p s k h) q = q
  Move-IsQueue _ _ (fin_acked p s h) q = q
  Move-IsQueue _ _ (change t s e) q = q
  Move-IsQueue _ _ (pop_socket s) q = q
  Move-IsQueue _ _ (start_timer n t s) q = q
  Move-IsQueue _ _ (tell_timeout s) q = rw (queue-report_timeout s) q
  Move-IsQueue _ _ (wake_connect s) q = q
  Move-IsQueue _ _ (wake_refused s) q = q
  Move-IsQueue _ _ (wake_receive s) q = q
  Move-IsQueue _ _ (hand_over s) q = q
  Move-IsQueue _ _ (ask_close s) q = q

  pub Moves-IsQueue : (s t : Session) → Moves P E s t → IsQueue P s → IsQueue P t
  Moves-IsQueue = Moves-induction (IsQueue P) Move-IsQueue
