-- ===== src/Tcp/Termination.antt =====
-- `tcp_fsm` calls itself for the packets of the out-of-order queue: this is
-- about the depth of these calls.
use py_tcp.Prelude.{
  ℕ, zero, suc, ◌<◌, ◌≡◌, ◌≢◌, refl, Option, none, some, List, Bool, true, false, if◌then◌else◌,
  length, arith,
}
use py_tcp.Dict.{get?}
use py_tcp.Dict.Laws.{length-remove-lt}
use py_tcp.Tcp.State.{
  Metadata, Session, FsmState, Input, packet, syscall, timer, closed, listen, syn_sent, syn_rcvd,
  established, fin_wait_1, fin_wait_2, closing, close_wait, last_ack, time_wait, close_call,
}
use py_tcp.Tcp.Outcome.{
  PyError, Outcome, done, raised, out_of_depth, assertion_error, key_error, attribute_error, ◌>>=◌,
  on_lookup,
}
use py_tcp.Tcp.Output.{
  change_state, transmit_packet, transmit_data, delayed_ack, give_up, retransmit_packet_timeout,
}
use py_tcp.Tcp.Input.{accept_packet, dequeue, bring_next, process_ack_packet, handle_out_of_order}
use py_tcp.Tcp.Fsm.{dispatch, tcp_fsm_at, tcp_fsm}
use py_tcp.Tcp.Fsm.Opening.{
  tcp_fsm_closed, tcp_fsm_listen, retransmit_tick, complete_connect, tcp_fsm_syn_sent,
  tcp_fsm_syn_rcvd,
}
use py_tcp.Tcp.Fsm.Open.{sending_tick, process_and_ack, tcp_fsm_established, tcp_fsm_close_wait}
use py_tcp.Tcp.Fsm.Closing.{
  enter_time_wait, tcp_fsm_fin_wait_1, tcp_fsm_fin_wait_2, tcp_fsm_closing, tcp_fsm_last_ack,
  tcp_fsm_time_wait,
}

-- The call returns, or raises an exception of the source.
pub data Finishes : Outcome → Type 0 where
  returned : (s : Session) → Finishes (done s)
  failed : (e : PyError) (s : Session) → e ≢ out_of_depth → Finishes (raised e s)

Finishes-if : (b : Bool) (m n : Outcome) → Finishes m → Finishes n → Finishes (if b then m else n)
Finishes-if true m n h k = h
Finishes-if false m n h k = k

Finishes-bind :
    (m : Outcome) (f : Session → Outcome)
    → Finishes m
    → ((s : Session) → Finishes (f s))
    → Finishes (m >>= f)
Finishes-bind (done _) f (returned s) h = h s
Finishes-bind (raised _ _) f (failed e s n) h = failed e s n

Finishes-lookup :
    {A : Type 0} (o : Option A) (m : Outcome) (f : A → Outcome)
    → Finishes m
    → ((a : A) → o ≡ some a → Finishes (f a))
    → Finishes (on_lookup o m f)
Finishes-lookup none m f h k = h
Finishes-lookup (some a) m f h k = k a refl

assertion-Finishes : (s : Session) → Finishes (raised assertion_error s)
assertion-Finishes s = failed assertion_error s (λ e. cc)

key-Finishes : (s : Session) → Finishes (raised key_error s)
key-Finishes s = failed key_error s (λ e. cc)

attribute-Finishes : (s : Session) → Finishes (raised attribute_error s)
attribute-Finishes s = failed attribute_error s (λ e. cc)

ruleset finishes = (
  Finishes-if, Finishes-bind, Finishes-lookup, returned, assertion-Finishes, key-Finishes,
  attribute-Finishes,
)

change_state-Finishes : (t : FsmState) (s : Session) → Finishes (change_state t s)
unfolding change_state
change_state-Finishes t s = search finishes

transmit_packet-Finishes :
    (seq? : Option ℕ) (syn ack fin rst : Bool) (d : List ℕ) (s : Session)
    → Finishes (transmit_packet seq? syn ack fin rst d s)
unfolding transmit_packet
transmit_packet-Finishes seq? syn ack fin rst d s = search finishes

transmit_data-Finishes : (s : Session) → Finishes (transmit_data s)
unfolding transmit_data
transmit_data-Finishes s = search (finishes, transmit_packet-Finishes) depth 9

delayed_ack-Finishes : (s : Session) → Finishes (delayed_ack s)
unfolding delayed_ack
delayed_ack-Finishes s = search (finishes, transmit_packet-Finishes)

give_up-Finishes : (s : Session) → Finishes (give_up s)
unfolding give_up
give_up-Finishes s = search (finishes, transmit_packet-Finishes, change_state-Finishes)

retransmit_packet_timeout-Finishes : (s : Session) → Finishes (retransmit_packet_timeout s)
unfolding retransmit_packet_timeout
retransmit_packet_timeout-Finishes s = search (finishes, give_up-Finishes) depth 9

handle_out_of_order-Finishes : (p : Metadata) (s : Session) → Finishes (handle_out_of_order p s)
unfolding handle_out_of_order
handle_out_of_order-Finishes p s = search (finishes, transmit_packet-Finishes)

ruleset calls = (
  finishes, change_state-Finishes, transmit_packet-Finishes, transmit_data-Finishes,
  delayed_ack-Finishes, retransmit_packet_timeout-Finishes, handle_out_of_order-Finishes,
)

sending_tick-Finishes : (t : FsmState) (s : Session) → Finishes (sending_tick t s)
unfolding sending_tick
sending_tick-Finishes t s = search calls depth 9

retransmit_tick-Finishes : (s : Session) → Finishes (retransmit_tick s)
unfolding retransmit_tick
retransmit_tick-Finishes s = search calls

enter_time_wait-Finishes : (s : Session) → Finishes (enter_time_wait s)
unfolding enter_time_wait
enter_time_wait-Finishes s = search calls

-- Calls for sessions with a shorter queue finish.
abbrev Shorter : (Metadata → Session → Outcome) → ℕ → Type 0
Shorter fsm n = (p : Metadata) (s : Session) → length s.ooo_packet_queue < n → Finishes (fsm p s)

queue-accept_packet :
    (p : Metadata) (s : Session) → (accept_packet p s).ooo_packet_queue ≡ s.ooo_packet_queue
unfolding accept_packet
queue-accept_packet p s = ground arith

module _ (fsm : Metadata → Session → Outcome) (n : ℕ) (calls_finish : Shorter fsm n) where
  bring_next-Finishes : (s : Session) → length s.ooo_packet_queue ≡ n → Finishes (bring_next fsm s)
  unfolding bring_next
  bring_next-Finishes s e =
      Finishes-lookup (get? s.rcv_nxt s.ooo_packet_queue) (done s) (λ q. fsm q (dequeue s))
        (returned s)
        λ q found.
          calls_finish q (dequeue s)
            (omega (arith, e, length-remove-lt s.rcv_nxt s.ooo_packet_queue found))

  process_ack_packet-Finishes :
      (p : Metadata) (s : Session)
      → length s.ooo_packet_queue ≡ n
      → Finishes (process_ack_packet fsm p s)
  unfolding process_ack_packet
  process_ack_packet-Finishes p s e =
      bring_next-Finishes (accept_packet p s) (rw (queue-accept_packet p s) e)

  process_and_ack-Finishes :
      (p : Metadata) (s : Session)
      → length s.ooo_packet_queue ≡ n
      → Finishes (process_and_ack fsm p s)
  unfolding process_and_ack
  process_and_ack-Finishes p s e = search (calls, process_ack_packet-Finishes)

  complete_connect-Finishes :
      (p : Metadata) (s : Session)
      → length s.ooo_packet_queue ≡ n
      → Finishes (complete_connect fsm p s)
  unfolding complete_connect
  complete_connect-Finishes p s e = search (calls, process_ack_packet-Finishes)

  ruleset handler_calls = (
    calls, sending_tick-Finishes, retransmit_tick-Finishes, enter_time_wait-Finishes,
    process_ack_packet-Finishes, process_and_ack-Finishes, complete_connect-Finishes,
  )

  syn_sent-Finishes :
      (i : Input) (s : Session)
      → length s.ooo_packet_queue ≡ n
      → Finishes (tcp_fsm_syn_sent fsm i s)
  unfolding tcp_fsm_syn_sent
  syn_sent-Finishes timer s e = search handler_calls
  syn_sent-Finishes (packet p) s e = search handler_calls depth 12
  syn_sent-Finishes (syscall close_call) s e = search handler_calls
  syn_sent-Finishes (syscall _) s e = returned s

  syn_rcvd-Finishes :
      (i : Input) (s : Session)
      → length s.ooo_packet_queue ≡ n
      → Finishes (tcp_fsm_syn_rcvd fsm i s)
  unfolding tcp_fsm_syn_rcvd
  syn_rcvd-Finishes timer s e = search handler_calls
  syn_rcvd-Finishes (packet p) s e = search handler_calls depth 12
  syn_rcvd-Finishes (syscall close_call) s e = search handler_calls
  syn_rcvd-Finishes (syscall _) s e = returned s

  established-Finishes :
      (i : Input) (s : Session)
      → length s.ooo_packet_queue ≡ n
      → Finishes (tcp_fsm_established fsm i s)
  unfolding tcp_fsm_established
  established-Finishes timer s e = search handler_calls
  established-Finishes (packet p) s e = search handler_calls depth 16
  established-Finishes (syscall close_call) s e = search handler_calls
  established-Finishes (syscall _) s e = returned s

  close_wait-Finishes :
      (i : Input) (s : Session)
      → length s.ooo_packet_queue ≡ n
      → Finishes (tcp_fsm_close_wait fsm i s)
  unfolding tcp_fsm_close_wait
  close_wait-Finishes timer s e = search handler_calls
  close_wait-Finishes (packet p) s e = search handler_calls depth 16
  close_wait-Finishes (syscall close_call) s e = search handler_calls
  close_wait-Finishes (syscall _) s e = returned s

  fin_wait_1-Finishes :
      (i : Input) (s : Session)
      → length s.ooo_packet_queue ≡ n
      → Finishes (tcp_fsm_fin_wait_1 fsm i s)
  unfolding tcp_fsm_fin_wait_1
  fin_wait_1-Finishes timer s e = search handler_calls
  fin_wait_1-Finishes (packet p) s e = search handler_calls depth 16
  fin_wait_1-Finishes (syscall _) s e = returned s

  fin_wait_2-Finishes :
      (i : Input) (s : Session)
      → length s.ooo_packet_queue ≡ n
      → Finishes (tcp_fsm_fin_wait_2 fsm i s)
  unfolding tcp_fsm_fin_wait_2
  fin_wait_2-Finishes timer s e = returned s
  fin_wait_2-Finishes (packet p) s e = search handler_calls depth 16
  fin_wait_2-Finishes (syscall _) s e = returned s

closed-Finishes : (i : Input) (s : Session) → Finishes (tcp_fsm_closed i s)
unfolding tcp_fsm_closed
closed-Finishes timer s = returned s
closed-Finishes (packet p) s = returned s
closed-Finishes (syscall close_call) s = returned s
closed-Finishes (syscall _) s = search calls

listen-Finishes : (i : Input) (s : Session) → Finishes (tcp_fsm_listen i s)
unfolding tcp_fsm_listen
listen-Finishes timer s = returned s
listen-Finishes (packet p) s = search calls
listen-Finishes (syscall close_call) s = search calls
listen-Finishes (syscall _) s = returned s

closing-Finishes : (i : Input) (s : Session) → Finishes (tcp_fsm_closing i s)
unfolding tcp_fsm_closing
closing-Finishes timer s = returned s
closing-Finishes (packet p) s = search (calls, enter_time_wait-Finishes)
closing-Finishes (syscall _) s = returned s

last_ack-Finishes : (i : Input) (s : Session) → Finishes (tcp_fsm_last_ack i s)
unfolding tcp_fsm_last_ack
last_ack-Finishes timer s = retransmit_tick-Finishes s
last_ack-Finishes (packet p) s = search calls
last_ack-Finishes (syscall _) s = returned s

time_wait-Finishes : (i : Input) (s : Session) → Finishes (tcp_fsm_time_wait i s)
unfolding tcp_fsm_time_wait
time_wait-Finishes timer s = search calls
time_wait-Finishes (packet p) s = returned s
time_wait-Finishes (syscall _) s = returned s

dispatch-Finishes :
    (fsm : Metadata → Session → Outcome) (n : ℕ)
    → Shorter fsm n
    → (t : FsmState) (i : Input) (s : Session) → length s.ooo_packet_queue ≡ n
    → Finishes (dispatch fsm t i s)
unfolding dispatch
dispatch-Finishes fsm n h closed i s e = closed-Finishes i s
dispatch-Finishes fsm n h listen i s e = listen-Finishes i s
dispatch-Finishes fsm n h syn_sent i s e = syn_sent-Finishes fsm n h i s e
dispatch-Finishes fsm n h syn_rcvd i s e = syn_rcvd-Finishes fsm n h i s e
dispatch-Finishes fsm n h established i s e = established-Finishes fsm n h i s e
dispatch-Finishes fsm n h fin_wait_1 i s e = fin_wait_1-Finishes fsm n h i s e
dispatch-Finishes fsm n h fin_wait_2 i s e = fin_wait_2-Finishes fsm n h i s e
dispatch-Finishes fsm n h closing i s e = closing-Finishes i s
dispatch-Finishes fsm n h close_wait i s e = close_wait-Finishes fsm n h i s e
dispatch-Finishes fsm n h last_ack i s e = last_ack-Finishes i s
dispatch-Finishes fsm n h time_wait i s e = time_wait-Finishes i s

tcp_fsm_at-Finishes :
    (depth : ℕ) (i : Input) (s : Session)
    → length s.ooo_packet_queue < depth
    → Finishes (tcp_fsm_at depth i s)
unfolding tcp_fsm_at
tcp_fsm_at-Finishes zero i s h = absurd (omega arith)
tcp_fsm_at-Finishes (suc depth) i s h =
    dispatch-Finishes (λ p t. tcp_fsm_at depth (packet p) t) (length s.ooo_packet_queue)
      (λ p t shorter. tcp_fsm_at-Finishes depth (packet p) t (omega arith)) s.state i s refl

-- Every event, in every session, is handled to its end: `tcp_fsm` returns, or raises an exception of
-- the source; the depth of its calls of itself never passes the length of the out-of-order queue.
pub tcp_fsm-Finishes : (i : Input) (s : Session) → Finishes (tcp_fsm i s)
unfolding tcp_fsm
tcp_fsm-Finishes i s = tcp_fsm_at-Finishes (suc (length s.ooo_packet_queue)) i s (omega arith)
