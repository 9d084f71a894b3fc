-- ===== src/Tcp/Moves.antt =====
-- The moves of a session: what a handler of the state machine can do to it, one guarded change at a
-- time. `Tcp/Moves/Refinement` is about the handlers of pytcp/protocols/tcp/session.py as moves.
pub mod Queue
pub mod Refinement
use py_tcp.Prelude.{ℕ, ◌+◌, ◌≡◌, List, [], ◌∷◌, Bool, true, false, some, ◌&&◌, not, ◌==◌, ltb}
use py_tcp.Dict.{get?}
use py_tcp.Dict.Laws.{Entries}
use py_tcp.Tcp.State.{
  Metadata, Session, Input, packet, syscall, timer, listen_call, connect_call, close_call, FsmState,
  listen, syn_sent, TimerName, refused, socket_popped, socket_accepted,
}
use py_tcp.Tcp.Output.{
  make_segment, assembler_accepts, after_transmit, register_timer, report_timeout, rewind,
  retransmit_packet_request, non_empty, bit,
}
use py_tcp.Tcp.Input.{
  only_syn, only_ack, acks_sent, is_next, accept_packet, dequeue, store_out_of_order,
}
use py_tcp.Tcp.Fsm.Opening.{adopt_parameters, take_connection}

-- `P` is what is known of the packets that arrive, and `E` of the states that are entered.
pub data Move (P : Metadata → Type 0) (E : FsmState → Type 0) : Session → Session → Type 0 where
  -- A packet at the next sequence number.
  send :
      (syn ack fin : Bool) (d : List ℕ) (s : Session)
      → assembler_accepts (make_segment s.snd_nxt syn ack fin false d s) ≡ true
      → Move P E s (after_transmit s.snd_nxt syn ack fin false d s)
  -- The reset of a connection that timed out.
  send_reset :
      (s : Session)
      → assembler_accepts (make_segment s.snd_una false true false true [] s) ≡ true
      → Move P E s (after_transmit s.snd_una false true false true [] s)
  -- The packet that is expected next.
  accept :
      (p : Metadata) (s : Session)
      → P p
      → p.flag_syn ≡ false
      → is_next p s ≡ true
      → Move P E s (accept_packet p s)
  -- The packet that completes a handshake, for the side that listened and the side that connects. The
  -- sequence number of the SYN-ACK packet is not tested: it is where the stream starts.
  accept_handshake :
      (p : Metadata) (s : Session)
      → P p
      → p.flag_syn ≡ false
      → p.flag_fin ≡ false
      → non_empty p.payload ≡ false
      → (p.seq == s.rcv_nxt) ≡ true
      → (p.ack == s.snd_nxt) ≡ true
      → Move P E s (accept_packet p s)
  accept_syn_ack :
      (p : Metadata) (s : Session)
      → P p
      → s.state ≡ syn_sent
      → non_empty p.payload ≡ false
      → (p.ack == s.snd_nxt) ≡ true
      → Move P E s (accept_packet p s)
  take_stored :
      (q : Metadata) (s : Session)
      → get? s.rcv_nxt s.ooo_packet_queue ≡ some q
      → Move P E s (dequeue s)
  store :
      (p : Metadata) (s : Session)
      → P p
      → only_ack p ≡ true
      → ltb s.rcv_nxt p.seq ≡ true
      → Move P E s (store_out_of_order p s)
  go_back : (s : Session) → Move P E s (rewind s)
  count_duplicate : (p : Metadata) (s : Session) → Move P E s (retransmit_packet_request p s)
  adopt : (p : Metadata) (s : Session) → Move P E s (adopt_parameters p s)
  -- A listening session takes a connection.
  connection :
      (p : Metadata) (s : Session)
      → P p
      → s.state ≡ listen
      → Move P E s
          (record (adopt_parameters p (take_connection p s)) { rcv_nxt = p.seq + bit p.flag_syn })
  -- The FIN is acknowledged in the state CLOSING.
  fin_acked :
      (p : Metadata) (s : Session)
      → (p.ack == s.snd_nxt) ≡ true
      → Move P E s (record s { snd_una = p.ack })
  change : (t : FsmState) (s : Session) → E t → Move P E s (record s { state = t })
  pop_socket :
      (s : Session)
      → Move P E s (record s { registered = false; effects = socket_popped ∷ s.effects })
  start_timer :
      (name : TimerName) (time : ℕ) (s : Session) → Move P E s (register_timer name time s)
  tell_timeout : (s : Session) → Move P E s (report_timeout s)
  wake_connect : (s : Session) → Move P E s (record s { event_connect = s.event_connect + 1 })
  wake_refused :
      (s : Session)
      → Move P E s (record s { connection_error = refused; event_connect = s.event_connect + 1 })
  wake_receive : (s : Session) → Move P E s (record s { event_rx_buffer = s.event_rx_buffer + 1 })
  hand_over :
      (s : Session)
      → Move P E s
          (record s { effects = socket_accepted ∷ s.effects; event_connect = s.event_connect + 1 })
  ask_close : (s : Session) → Move P E s (record s { is_closing = true })

-- Any number of moves.
pub data Moves (P : Metadata → Type 0) (E : FsmState → Type 0) : Session → Session → Type 0 where
  here : (s : Session) → Moves P E s s
  step : {s t u : Session} → Move P E s t → Moves P E t u → Moves P E s u

module _ {P : Metadata → Type 0} {E : FsmState → Type 0} where
  pub Moves-trans : {s t u : Session} → Moves P E s t → Moves P E t u → Moves P E s u
  Moves-trans (here s) r = r
  Moves-trans (step m l) r = step m (Moves-trans l r)

  -- An invariant of the moves holds after any number of them.
  pub Moves-induction {ℓ} :
      (I : Session → Type ℓ)
      → ((s t : Session) → Move P E s t → I s → I t)
      → (s t : Session) → Moves P E s t
      → I s
      → I t
  Moves-induction I keep _ _ (here s) i = i
  Moves-induction I keep _ _ (step {s} {t} {u} m l) i = Moves-induction I keep t u l (keep s t m i)

-- The out-of-order queue holds known packets under their sequence numbers.
abbrev pub IsQueue : (Metadata → Type 0) → Session → Type 0
IsQueue P s = Entries (λ k q. P q × (q.seq ≡ k) × (only_ack q ≡ true)) s.ooo_packet_queue

-- The packet that arrives, if the event is one, satisfies `P`; a system call that opens the connection
-- enters a state that satisfies `E`.
abbrev pub Arrives : (Metadata → Type 0) → (FsmState → Type 0) → Input → Type 0
Arrives P E (packet p) = P p
Arrives P E (syscall listen_call) = E listen
Arrives P E (syscall connect_call) = E syn_sent
Arrives P E (syscall close_call) = Unit
Arrives P E timer = Unit

-- The states that only these system calls enter are left out.
abbrev pub IsLater : FsmState → Type 0
IsLater listen = ⊥
IsLater syn_sent = ⊥
IsLater _ = Unit
