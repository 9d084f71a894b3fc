-- ===== src/Tcp/Moves/Refinement.antt =====
-- The handlers of pytcp/protocols/tcp/session.py as sequences of moves.
use py_tcp.Prelude.{
  ℕ, zero, suc, ◌≡◌, refl, Option, none, some, List, Bool, true, false, ◌&&◌, ◌==◌, not, ltb, [],
  if◌then◌else◌, length, arith,
}
use py_tcp.Dict.{get?}
use py_tcp.Tcp.State.{
  Metadata, Session, FsmState, Input, packet, syscall, timer, closed, listen, syn_sent, syn_rcvd,
  established, fin_wait_1, fin_wait_2, closing, close_wait, last_ack, time_wait, listen_call,
  connect_call, close_call,
}
use py_tcp.Tcp.Outcome.{
  PyError, Outcome, done, raised, ◌>>=◌, on_lookup, Ensures, on_done, on_raised, Ensures-bind,
  Ensures-map,
}
use py_tcp.Tcp.Output.{
  unregister, change_state, transmit_packet, transmit_data, delayed_ack, give_up,
  retransmit_packet_timeout, report_timeout, non_empty,
}
use py_tcp.Tcp.Input.{
  accept_packet, dequeue, bring_next, process_ack_packet, handle_out_of_order, is_next, only_ack,
  fin_and_ack,
}
use py_tcp.Dict.Laws.{Entries-get?}
use py_tcp.Tcp.Fsm.{dispatch, tcp_fsm_at, tcp_fsm}
use py_tcp.Tcp.Fsm.Opening.{
  adopt_parameters, receive_syn, tcp_fsm_closed, tcp_fsm_listen, retransmit_tick, complete_connect,
  refuse_connect, tcp_fsm_syn_sent, complete_accept, tcp_fsm_syn_rcvd,
}
use py_tcp.Tcp.Fsm.Open.{
  sending_tick, wake_receiver, established_ack, process_and_ack, established_fin,
  established_packet, tcp_fsm_established, close_wait_ack, tcp_fsm_close_wait,
}
use py_tcp.Tcp.Fsm.Closing.{
  enter_time_wait, fin_wait_1_ack, fin_wait_1_fin, tcp_fsm_fin_wait_1, fin_wait_2_fin,
  tcp_fsm_fin_wait_2, tcp_fsm_closing, tcp_fsm_last_ack, tcp_fsm_time_wait,
}
use py_tcp.Tcp.Moves.{
  Move, send, send_reset, accept, accept_handshake, accept_syn_ack, take_stored, store, go_back,
  count_duplicate, adopt, connection, fin_acked, change, pop_socket, start_timer, tell_timeout,
  wake_connect, wake_refused, wake_receive, hand_over, ask_close, Moves, here, step, Moves-trans,
  IsQueue, Arrives, IsLater,
}
use py_tcp.Tcp.Moves.Queue.{Stored, Move-IsQueue, Moves-IsQueue}

-- The call makes only moves from `s`, if the queue of `s` holds known packets.
pub record MovesFrom (P : Metadata → Type 0) (E : FsmState → Type 0) (s : Session) (m : Outcome)
    : Type 0 where
  pub ensures : IsQueue P s → Ensures (Moves P E s) m

module _ (P : Metadata → Type 0) (E : FsmState → Type 0)
    (later : (t : FsmState) → IsLater t → E t) where
  stay : (s : Session) → MovesFrom P E s (done s)
  stay s = record { ensures = λ q. on_done s (here s) }

  one_move : {s t : Session} → Move P E s t → MovesFrom P E s (done t)
  one_move {t = t} m = record { ensures = λ q. on_done t (step m (here t)) }

  stop : (e : PyError) (s : Session) → MovesFrom P E s (raised e s)
  stop e s = record { ensures = λ q. on_raised e s (here s) }

  MovesFrom-if :
      (s : Session) (b : Bool) (m n : Outcome)
      → (b ≡ true → MovesFrom P E s m)
      → (b ≡ false → MovesFrom P E s n)
      → MovesFrom P E s (if b then m else n)
  MovesFrom-if s true m n h k = h refl
  MovesFrom-if s false m n h k = k refl

  MovesFrom-lookup {κ} :
      (s : Session) {A : Type κ} (o : Option A) (m : Outcome) (f : A → Outcome)
      → MovesFrom P E s m
      → ((a : A) → o ≡ some a → MovesFrom P E s (f a))
      → MovesFrom P E s (on_lookup o m f)
  MovesFrom-lookup s none m f h k = h
  MovesFrom-lookup s (some a) m f h k = k a refl

  -- After a first move.
  first : {s t : Session} {m : Outcome} → Move P E s t → MovesFrom P E t m → MovesFrom P E s m
  first {s} {t} {m = m} a h = record {
    ensures = λ q. Ensures-map m (λ u l. step a l) (h.ensures (Move-IsQueue P E s t a q));
  }

  MovesFrom-bind :
      (s : Session) (m : Outcome) (f : Session → Outcome)
      → MovesFrom P E s m
      → ((t : Session) → MovesFrom P E t (f t))
      → MovesFrom P E s (m >>= f)
  MovesFrom-bind s m f h k = record {
    ensures = λ q.
        Ensures-bind m f (h.ensures q) (λ t l. l)
          (λ t l.
            Ensures-map (f t) (λ u r. Moves-trans l r) ((k t).ensures (Moves-IsQueue P E s t l q)));
  }

  ruleset composition = (stay, stop, one_move, MovesFrom-if, MovesFrom-bind, MovesFrom-lookup)

  unregister-Moves : (s : Session) → MovesFrom P E s (unregister s)
  unfolding unregister
  unregister-Moves s = search (composition, pop_socket)

  change_state-Moves : (t : FsmState) (s : Session) → E t → MovesFrom P E s (change_state t s)
  unfolding change_state
  change_state-Moves t s h =
      MovesFrom-if _ _ _ _ (λ e. first (change t s h) (unregister-Moves _))
        (λ e. one_move (change t s h))

  transmit-Moves :
      (syn ack fin : Bool) (d : List ℕ) (s : Session)
      → MovesFrom P E s (transmit_packet none syn ack fin false d s)
  unfolding transmit_packet
  transmit-Moves syn ack fin d s =
      MovesFrom-if s _ _ _ (λ e. one_move (send syn ack fin d s e)) (λ e. stop _ s)

  transmit_reset-Moves :
      (s : Session) → MovesFrom P E s (transmit_packet (some s.snd_una) false true false true [] s)
  unfolding transmit_packet
  transmit_reset-Moves s = MovesFrom-if s _ _ _ (λ e. one_move (send_reset s e)) (λ e. stop _ s)

  change_later-Moves : (t : FsmState) (s : Session) → IsLater t → MovesFrom P E s (change_state t s)
  change_later-Moves t s h = change_state-Moves t s (later t h)

  ruleset parts =
      (composition, change_state-Moves, change_later-Moves, transmit-Moves, transmit_reset-Moves)

  transmit_data-Moves : (s : Session) → MovesFrom P E s (transmit_data s)
  unfolding transmit_data
  transmit_data-Moves s = search parts depth 9

  delayed_ack-Moves : (s : Session) → MovesFrom P E s (delayed_ack s)
  unfolding delayed_ack
  delayed_ack-Moves s = search (parts, start_timer) depth 7

  tell_and_close-Moves : (s : Session) → MovesFrom P E s (change_state closed (report_timeout s))
  tell_and_close-Moves s =
      first (tell_timeout s) (change_state-Moves closed (report_timeout s) (later closed tt))

  give_up-Moves : (s : Session) → MovesFrom P E s (give_up s)
  unfolding give_up
  give_up-Moves s = search (parts, tell_and_close-Moves)

  retransmit_packet_timeout-Moves : (s : Session) → MovesFrom P E s (retransmit_packet_timeout s)
  unfolding retransmit_packet_timeout
  retransmit_packet_timeout-Moves s = search (composition, give_up-Moves, go_back) depth 9

  out_of_order-Moves :
      (p : Metadata) (s : Session)
      → P p
      → only_ack p ≡ true
      → ltb s.rcv_nxt p.seq ≡ true
      → MovesFrom P E s (handle_out_of_order p s)
  unfolding handle_out_of_order
  out_of_order-Moves p s known h k = first (store p s known h k) (search parts)

  ruleset ticks = (parts, transmit_data-Moves, delayed_ack-Moves, retransmit_packet_timeout-Moves)

  sending_tick-Moves : (t : FsmState) (s : Session) → E t → MovesFrom P E s (sending_tick t s)
  unfolding sending_tick
  sending_tick-Moves t s h = search ticks depth 9

  retransmit_tick-Moves : (s : Session) → MovesFrom P E s (retransmit_tick s)
  unfolding retransmit_tick
  retransmit_tick-Moves s = search ticks

  enter_time_wait-Moves : (s : Session) → MovesFrom P E s (enter_time_wait s)
  unfolding enter_time_wait
  enter_time_wait-Moves s = search (parts, start_timer)

  -- Guards, taken apart.
  left : (a b : Bool) → a && b ≡ true → a ≡ true
  left a b h = ground arith

  right : (a b : Bool) → a && b ≡ true → b ≡ true
  right a b h = ground arith

  middle : (a b c : Bool) → a && (b && c) ≡ true → b ≡ true
  middle a b c h = ground arith

  third : (a b c d : Bool) → a && (b && (c && d)) ≡ true → c ≡ true
  third a b c d h = ground arith

  last_empty : (a b c : Bool) → a && (b && not c) ≡ true → c ≡ false
  last_empty a b c h = ground arith

  fourth_empty : (a b c d : Bool) → a && (b && (c && not d)) ≡ true → d ≡ false
  fourth_empty a b c d h = ground arith

  ack_without_syn : (p : Metadata) → only_ack p ≡ true → p.flag_syn ≡ false
  ack_without_syn p h = ground arith

  ack_without_fin : (p : Metadata) → only_ack p ≡ true → p.flag_fin ≡ false
  ack_without_fin p h = ground arith

  fin_without_syn : (p : Metadata) → fin_and_ack p ≡ true → p.flag_syn ≡ false
  fin_without_syn p h = ground arith

  refuse_connect-Moves : (s : Session) → MovesFrom P E s (refuse_connect s)
  unfolding refuse_connect
  refuse_connect-Moves s = search (parts, wake_refused)

  reset_and_wake-Moves : (s : Session) → MovesFrom P E s (change_state closed (wake_receiver s))
  reset_and_wake-Moves s = first (wake_receive s) (change_state-Moves closed _ (later closed tt))

  ruleset guards =
      (left, right, middle, third, last_empty, fourth_empty, ack_without_syn, fin_without_syn)

  module _ (fsm : Metadata → Session → Outcome)
      (calls : (p : Metadata) (s : Session) → P p → MovesFrom P E s (fsm p s)) where
    bring_next-Moves : (s : Session) → MovesFrom P E s (bring_next fsm s)
    unfolding bring_next
    bring_next-Moves s = record {
      ensures = λ queue.
          (MovesFrom-lookup s (get? s.rcv_nxt s.ooo_packet_queue) (done s) (λ q. fsm q (dequeue s))
              (stay s)
              (λ q e. first (take_stored q s e) (
                calls q (dequeue s)
                  (Entries-get? (Stored P) s.rcv_nxt s.ooo_packet_queue e queue).0))).ensures
            queue;
    }

    process-Moves :
        (p : Metadata) (s : Session)
        → P p
        → p.flag_syn ≡ false
        → is_next p s ≡ true
        → MovesFrom P E s (process_ack_packet fsm p s)
    unfolding process_ack_packet
    process-Moves p s k f h = first (accept p s k f h) (bring_next-Moves (accept_packet p s))

    process_handshake-Moves :
        (p : Metadata) (s : Session)
        → P p
        → only_ack p ≡ true
        → non_empty p.payload ≡ false
        → (p.seq == s.rcv_nxt) ≡ true
        → (p.ack == s.snd_nxt) ≡ true
        → MovesFrom P E s (process_ack_packet fsm p s)
    unfolding process_ack_packet
    process_handshake-Moves p s k a e n h =
        first (accept_handshake p s k (ack_without_syn p a) (ack_without_fin p a) e n h)
          (bring_next-Moves (accept_packet p s))

    process_and_ack-Moves :
        (p : Metadata) (s : Session)
        → P p
        → p.flag_syn ≡ false
        → is_next p s ≡ true
        → MovesFrom P E s (process_and_ack fsm p s)
    unfolding process_and_ack
    process_and_ack-Moves p s k f h = search (parts, process-Moves)

    process_syn_ack-Moves :
        (p : Metadata) (s : Session)
        → P p
        → s.state ≡ syn_sent
        → non_empty p.payload ≡ false
        → (p.ack == s.snd_nxt) ≡ true
        → MovesFrom P E s (process_ack_packet fsm p s)
    unfolding process_ack_packet
    process_syn_ack-Moves p s k y e h =
        first (accept_syn_ack p s k y e h) (bring_next-Moves (accept_packet p s))

    complete_connect-Moves :
        (p : Metadata) (s : Session)
        → P p
        → s.state ≡ syn_sent
        → non_empty p.payload ≡ false
        → (p.ack == s.snd_nxt) ≡ true
        → MovesFrom P E s (complete_connect fsm p s)
    unfolding complete_connect adopt_parameters
    complete_connect-Moves p s k y e h = first (adopt p s) (
        MovesFrom-bind (adopt_parameters p s) _ _
          (process_syn_ack-Moves p (adopt_parameters p s) k y e h)
          (λ t. search (parts, wake_connect)))

    complete_accept-Moves :
        (p : Metadata) (s : Session)
        → P p
        → only_ack p ≡ true
        → non_empty p.payload ≡ false
        → (p.seq == s.rcv_nxt) ≡ true
        → (p.ack == s.snd_nxt) ≡ true
        → MovesFrom P E s (complete_accept fsm p s)
    unfolding complete_accept
    complete_accept-Moves p s k a e n h = search (parts, process_handshake-Moves, hand_over)

    syn_sent-Moves :
        (i : Input) (s : Session)
        → Arrives P E i
        → s.state ≡ syn_sent
        → MovesFrom P E s (tcp_fsm_syn_sent fsm i s)
    unfolding tcp_fsm_syn_sent
    syn_sent-Moves timer s k y = retransmit_tick-Moves s
    syn_sent-Moves (packet p) s k y =
        search (parts, complete_connect-Moves, refuse_connect-Moves, guards) depth 12
    syn_sent-Moves (syscall close_call) s k y = change_state-Moves closed s (later closed tt)
    syn_sent-Moves (syscall _) s k y = stay s

    syn_rcvd-Moves :
        (i : Input) (s : Session) → Arrives P E i → MovesFrom P E s (tcp_fsm_syn_rcvd fsm i s)
    unfolding tcp_fsm_syn_rcvd
    syn_rcvd-Moves timer s k = retransmit_tick-Moves s
    syn_rcvd-Moves (packet p) s k = search (parts, complete_accept-Moves, guards) depth 12
    syn_rcvd-Moves (syscall close_call) s k = change_state-Moves fin_wait_1 s (later fin_wait_1 tt)
    syn_rcvd-Moves (syscall _) s k = stay s

    established_ack-Moves :
        (p : Metadata) (s : Session)
        → P p
        → only_ack p ≡ true
        → MovesFrom P E s (established_ack fsm p s)
    unfolding established_ack
    established_ack-Moves p s k h =
        search (parts, count_duplicate, out_of_order-Moves, process-Moves, guards) depth 12

    established_fin-Moves :
        (p : Metadata) (s : Session)
        → P p
        → p.flag_syn ≡ false
        → is_next p s ≡ true
        → MovesFrom P E s (established_fin fsm p s)
    unfolding established_fin
    established_fin-Moves p s k f h =
        MovesFrom-bind s _ _ (process_and_ack-Moves p s k f h)
          (λ t. first (wake_receive t) (change_state-Moves close_wait _ (later close_wait tt)))

    established_packet-Moves :
        (p : Metadata) (s : Session) → P p → MovesFrom P E s (established_packet fsm p s)
    unfolding established_packet
    established_packet-Moves p s k =
        search (parts, established_ack-Moves, established_fin-Moves, reset_and_wake-Moves, guards)
          depth 14

    established-Moves :
        (i : Input) (s : Session) → Arrives P E i → MovesFrom P E s (tcp_fsm_established fsm i s)
    unfolding tcp_fsm_established
    established-Moves timer s k = sending_tick-Moves fin_wait_1 s (later fin_wait_1 tt)
    established-Moves (packet p) s k = established_packet-Moves p s k
    established-Moves (syscall close_call) s k = one_move (ask_close s)
    established-Moves (syscall _) s k = stay s

    close_wait_ack-Moves :
        (p : Metadata) (s : Session)
        → P p
        → only_ack p ≡ true
        → MovesFrom P E s (close_wait_ack fsm p s)
    unfolding close_wait_ack
    close_wait_ack-Moves p s k h =
        search (parts, count_duplicate, out_of_order-Moves, process-Moves, guards) depth 12

    close_wait-Moves :
        (i : Input) (s : Session) → Arrives P E i → MovesFrom P E s (tcp_fsm_close_wait fsm i s)
    unfolding tcp_fsm_close_wait
    close_wait-Moves timer s k = sending_tick-Moves last_ack s (later last_ack tt)
    close_wait-Moves (packet p) s k = search (parts, close_wait_ack-Moves, guards) depth 9
    close_wait-Moves (syscall close_call) s k = one_move (ask_close s)
    close_wait-Moves (syscall _) s k = stay s

    fin_wait_1_ack-Moves :
        (p : Metadata) (s : Session)
        → P p
        → p.flag_syn ≡ false
        → is_next p s ≡ true
        → MovesFrom P E s (fin_wait_1_ack fsm p s)
    unfolding fin_wait_1_ack
    fin_wait_1_ack-Moves p s k f h = search (parts, process_and_ack-Moves)

    fin_wait_1_fin-Moves :
        (p : Metadata) (s : Session)
        → P p
        → p.flag_syn ≡ false
        → is_next p s ≡ true
        → MovesFrom P E s (fin_wait_1_fin fsm p s)
    unfolding fin_wait_1_fin
    fin_wait_1_fin-Moves p s k f h = search (parts, process-Moves, enter_time_wait-Moves) depth 9

    fin_wait_1-Moves :
        (i : Input) (s : Session) → Arrives P E i → MovesFrom P E s (tcp_fsm_fin_wait_1 fsm i s)
    unfolding tcp_fsm_fin_wait_1
    fin_wait_1-Moves timer s k = retransmit_tick-Moves s
    fin_wait_1-Moves (packet p) s k =
        search (parts, fin_wait_1_ack-Moves, fin_wait_1_fin-Moves, guards) depth 12
    fin_wait_1-Moves (syscall _) s k = stay s

    fin_wait_2_fin-Moves :
        (p : Metadata) (s : Session)
        → P p
        → p.flag_syn ≡ false
        → is_next p s ≡ true
        → MovesFrom P E s (fin_wait_2_fin fsm p s)
    unfolding fin_wait_2_fin
    fin_wait_2_fin-Moves p s k f h = search (parts, process-Moves, enter_time_wait-Moves) depth 9

    fin_wait_2-Moves :
        (i : Input) (s : Session) → Arrives P E i → MovesFrom P E s (tcp_fsm_fin_wait_2 fsm i s)
    unfolding tcp_fsm_fin_wait_2
    fin_wait_2-Moves timer s k = stay s
    fin_wait_2-Moves (packet p) s k =
        search (parts, process_and_ack-Moves, fin_wait_2_fin-Moves, guards) depth 12
    fin_wait_2-Moves (syscall _) s k = stay s

  closed-Moves : (i : Input) (s : Session) → Arrives P E i → MovesFrom P E s (tcp_fsm_closed i s)
  unfolding tcp_fsm_closed
  closed-Moves timer s k = stay s
  closed-Moves (packet p) s k = stay s
  closed-Moves (syscall close_call) s k = stay s
  closed-Moves (syscall listen_call) s k = change_state-Moves listen s k
  closed-Moves (syscall connect_call) s k = change_state-Moves syn_sent s k

  receive_syn-Moves :
      (p : Metadata) (s : Session) → P p → s.state ≡ listen → MovesFrom P E s (receive_syn p s)
  unfolding receive_syn
  receive_syn-Moves p s k h =
      first (connection p s k h) (change_state-Moves syn_rcvd _ (later syn_rcvd tt))

  listen-Moves :
      (i : Input) (s : Session)
      → Arrives P E i
      → s.state ≡ listen
      → MovesFrom P E s (tcp_fsm_listen i s)
  unfolding tcp_fsm_listen
  listen-Moves timer s k h = stay s
  listen-Moves (packet p) s k h = search (parts, receive_syn-Moves)
  listen-Moves (syscall close_call) s k h = change_state-Moves closed s (later closed tt)
  listen-Moves (syscall _) s k h = stay s

  fin_acked-Moves :
      (p : Metadata) (s : Session)
      → (p.ack == s.snd_nxt) ≡ true
      → MovesFrom P E s (enter_time_wait (record s { snd_una = p.ack }))
  fin_acked-Moves p s h =
      first (fin_acked p s h) (enter_time_wait-Moves (record s { snd_una = p.ack }))

  closing-Moves : (i : Input) (s : Session) → MovesFrom P E s (tcp_fsm_closing i s)
  unfolding tcp_fsm_closing
  closing-Moves timer s = stay s
  closing-Moves (packet p) s = search (parts, fin_acked-Moves, guards) depth 9
  closing-Moves (syscall _) s = stay s

  last_ack-Moves : (i : Input) (s : Session) → MovesFrom P E s (tcp_fsm_last_ack i s)
  unfolding tcp_fsm_last_ack
  last_ack-Moves timer s = retransmit_tick-Moves s
  last_ack-Moves (packet p) s = search parts depth 9
  last_ack-Moves (syscall _) s = stay s

  time_wait-Moves : (i : Input) (s : Session) → MovesFrom P E s (tcp_fsm_time_wait i s)
  unfolding tcp_fsm_time_wait
  time_wait-Moves timer s = search parts
  time_wait-Moves (packet p) s = stay s
  time_wait-Moves (syscall _) s = stay s

  dispatch-Moves :
      (fsm : Metadata → Session → Outcome)
      → ((p : Metadata) (s : Session) → P p → MovesFrom P E s (fsm p s))
      → (t : FsmState) (i : Input) (s : Session) → Arrives P E i
      → s.state ≡ t
      → MovesFrom P E s (dispatch fsm t i s)
  unfolding dispatch
  dispatch-Moves fsm h closed i s k e = closed-Moves i s k
  dispatch-Moves fsm h listen i s k e = listen-Moves i s k e
  dispatch-Moves fsm h syn_sent i s k e = syn_sent-Moves fsm h i s k e
  dispatch-Moves fsm h syn_rcvd i s k e = syn_rcvd-Moves fsm h i s k
  dispatch-Moves fsm h established i s k e = established-Moves fsm h i s k
  dispatch-Moves fsm h fin_wait_1 i s k e = fin_wait_1-Moves fsm h i s k
  dispatch-Moves fsm h fin_wait_2 i s k e = fin_wait_2-Moves fsm h i s k
  dispatch-Moves fsm h closing i s k e = closing-Moves i s
  dispatch-Moves fsm h close_wait i s k e = close_wait-Moves fsm h i s k
  dispatch-Moves fsm h last_ack i s k e = last_ack-Moves i s
  dispatch-Moves fsm h time_wait i s k e = time_wait-Moves i s

  tcp_fsm_at-Moves :
      (depth : ℕ) (i : Input) (s : Session) → Arrives P E i → MovesFrom P E s (tcp_fsm_at depth i s)
  unfolding tcp_fsm_at
  tcp_fsm_at-Moves zero i s k = stop _ s
  tcp_fsm_at-Moves (suc depth) i s k =
      dispatch-Moves (λ p t. tcp_fsm_at depth (packet p) t)
        (λ p t known. tcp_fsm_at-Moves depth (packet p) t known) s.state i s k refl

  pub tcp_fsm-Moves :
      (i : Input) (s : Session) → Arrives P E i → IsQueue P s → Ensures (Moves P E s) (tcp_fsm i s)
  unfolding tcp_fsm
  tcp_fsm-Moves i s k = (tcp_fsm_at-Moves (suc (length s.ooo_packet_queue)) i s k).ensures
