-- ===== src/Tcp/Output.antt =====
-- What a session sends: `_change_state`, `_transmit_packet`, `_transmit_data`, `_delayed_ack`,
-- `_retransmit_packet_timeout` and `_retransmit_packet_request` of pytcp/protocols/tcp/session.py, and
-- the checks of `TcpAssembler` (pytcp/protocols/tcp/fpa.py), which a packet meets on its way out.
use py_tcp.Prelude.{
  ℕ, zero, suc, ◌+◌, ◌-◌, ◌*◌, ◌^◌, max, Option, none, some, List, [], ◌∷◌, Bool, true, false, not,
  ◌&&◌, ◌||◌, ◌==◌, leb, ltb, if◌then◌else◌, length, take, drop,
}
use py_tcp.Prelude.Int.{ℤ, pos, negsuc, ◌+ℤ◌, sub_ℕ, ltb_ℤ}
pub use py_tcp.Wire.{bit}
use py_tcp.Dict.{get?, insert}
use py_tcp.Tcp.State.{
  Segment, TimerName, delayed_ack_timer, time_wait_timer, retransmit_timer, socket_popped, Session,
  FsmState, closed, timed_out, Metadata, is_established, is_syn_sent, is_syn_rcvd, may_send_data,
  may_send_fin, reports_timeout, delayed_ack_delay, packet_retransmit_timeout,
  packet_retransmit_max_count,
}
use py_tcp.Tcp.Outcome.{Outcome, done, raised, assertion_error, key_error, ◌>>=◌, on_lookup}

abbrev pub timer_eq : TimerName → TimerName → Bool
timer_eq delayed_ack_timer delayed_ack_timer = true
timer_eq time_wait_timer time_wait_timer = true
timer_eq (retransmit_timer a) (retransmit_timer b) = a == b
timer_eq _ _ = false

-- `stack.timer.register_timer`, for a timer of this session.
unfoldable pub register_timer : TimerName → ℕ → Session → Session
register_timer name timeout s = record s {
  timers = λ n. if timer_eq name n then timeout else s.timers n;
}

-- `stack.timer.is_expired`
abbrev pub is_expired : TimerName → Session → Bool
is_expired name s = s.timers name == 0

-- `max(number - self._tx_buffer_seq_mod, 0)`, for `_tx_buffer_nxt` and `_tx_buffer_una`.
abbrev pub buffer_index : ℕ → ℤ → ℕ
buffer_index n (pos m) = n - m
buffer_index n (negsuc m) = n + suc m

abbrev pub is_closed : FsmState → Bool
is_closed closed = true
is_closed _ = false

-- `pop` raises `KeyError` where the socket is not registered any more.
unfoldable pub unregister : Session → Outcome
unregister s =
    if s.registered
    then done (record s { registered = false; effects = socket_popped ∷ s.effects })
    else raised key_error s

unfoldable pub change_state : FsmState → Session → Outcome
unfolding unregister
change_state t s =
    if is_closed t then unregister (record s { state = t }) else done (record s { state = t })

-- The assertions of `TcpAssembler.__init__`.
unfoldable pub assembler_accepts : Segment → Bool
assembler_accepts g =
    leb g.local_port 0xffff
    && (leb g.remote_port 0xffff
        && (leb g.seq 0xffff_ffff && (leb g.ack 0xffff_ffff && leb g.win 0xffff)))

-- The arguments that `_transmit_packet` hands over.
unfoldable pub make_segment : ℕ → Bool → Bool → Bool → Bool → List ℕ → Session → Segment
make_segment seq syn ack fin rst payload s = record {
  local_ip = s.local_ip;
  remote_ip = s.remote_ip;
  local_port = s.local_port;
  remote_port = s.remote_port;
  flag_syn = syn;
  flag_ack = ack;
  flag_fin = fin;
  flag_rst = rst;
  seq = seq;
  ack = if ack then s.rcv_nxt else 0;
  win = s.rcv_wnd;
  mss = if syn then some s.rcv_mss else none;
  wscale = if syn then some 0 else none;
  payload = payload;
}

-- `self._tx_retransmit_timeout_counter.get(seq, -1) + 1`
abbrev pub next_count : Option ℕ → ℕ
next_count none = 0
next_count (some n) = n + 1

abbrev pub non_empty {ℓ} : {A : Type ℓ} → List A → Bool
non_empty [] = false
non_empty (x ∷ xs) = true

-- The retransmit counter and timer of a packet that occupies sequence numbers.
unfoldable pub arm_retransmit : ℕ → Session → Session
unfolding register_timer
arm_retransmit seq s =
    let count = next_count (get? seq s.tx_retransmit_timeout_counter) in
    register_timer (retransmit_timer seq) (packet_retransmit_timeout * 2 ^ count) (record s {
      tx_retransmit_timeout_counter = insert seq count s.tx_retransmit_timeout_counter;
    })

-- The numbers that change once the packet is out.
unfoldable pub advance_snd : ℕ → Bool → Bool → List ℕ → Session → Session
advance_snd seq syn fin payload s =
    let nxt = seq + length payload + bit syn + bit fin in
    record s {
      rcv_una = s.rcv_nxt;
      snd_nxt = nxt;
      snd_max = max s.snd_max nxt;
      tx_buffer_seq_mod = s.tx_buffer_seq_mod +ℤ pos (bit syn + bit fin);
      snd_fin = if fin then nxt else s.snd_fin;
    }

-- The state after the packet was handed over.
unfoldable pub after_transmit : ℕ → Bool → Bool → Bool → Bool → List ℕ → Session → Session
unfolding make_segment advance_snd register_timer arm_retransmit
after_transmit seq syn ack fin rst payload s =
    let logged = record s { sent = make_segment seq syn ack fin rst payload s ∷ s.sent } in
    let moved = advance_snd seq syn fin payload logged in
    let acked =
      if is_established s.state
      then register_timer delayed_ack_timer delayed_ack_delay moved
      else moved in
    if non_empty payload || (syn || fin) then arm_retransmit seq acked else acked

-- `_transmit_packet`; no `data` and empty `data` are the same to it.
unfoldable pub transmit_packet : Option ℕ → Bool → Bool → Bool → Bool → List ℕ → Session → Outcome
unfolding after_transmit
transmit_packet seq? syn ack fin rst payload s =
    let seq : ℕ = elim seq? [ none ↦ s.snd_nxt | some n ↦ n ] in
    if assembler_accepts (make_segment seq syn ack fin rst payload s)
    then done (after_transmit seq syn ack fin rst payload s)
    else raised assertion_error s

abbrev pub send_ack : Session → Outcome
send_ack = transmit_packet none false true false false []

abbrev pub min_ℤ : ℤ → ℤ → ℤ
min_ℤ a b = if ltb_ℤ b a then b else a

abbrev pub is_zero : ℤ → Bool
is_zero (pos zero) = true
is_zero _ = false

-- `xs[start : start + count]`, where a negative end counts from the end of the buffer.
unfoldable pub slice : ℕ → ℤ → List ℕ → List ℕ
slice start count xs = elim (pos start +ℤ count) [
  | pos stop ↦ take (stop - start) (drop start xs)
  | negsuc k ↦ take (length xs - suc k - start) (drop start xs)
]

unfoldable pub remaining_data_len : Session → ℤ
remaining_data_len s = sub_ℕ (length s.tx_buffer) (buffer_index s.snd_nxt s.tx_buffer_seq_mod)

unfoldable pub transmit_data_len : Session → ℤ
unfolding remaining_data_len
transmit_data_len s =
    min_ℤ (min_ℤ (pos s.snd_mss) (sub_ℕ s.snd_ewn (buffer_index s.snd_nxt s.tx_buffer_seq_mod)))
      (remaining_data_len s)

-- The data segment that the sliding window allows, if there is any.
unfoldable pub transmit_segment : Session → Outcome
transmit_segment s =
    if is_zero (transmit_data_len s)
    then done s
    else transmit_packet none false true false false
        (slice (buffer_index s.snd_nxt s.tx_buffer_seq_mod) (transmit_data_len s) s.tx_buffer) s

-- The part of `_transmit_data` behind its assertion.
unfoldable pub transmit_pending : Session → Outcome
unfolding transmit_segment
transmit_pending s =
    if is_syn_sent s.state && s.snd_nxt == s.snd_ini
    then transmit_packet none true false false false [] s
    else if is_syn_rcvd s.state && s.snd_nxt == s.snd_ini
    then transmit_packet none true true false false [] s
    else if may_send_data s.state && not (is_zero (remaining_data_len s))
    then transmit_segment s
    else if may_send_fin s.state && not (s.snd_nxt == s.snd_fin)
    then transmit_packet none false true true false [] s
    else done s

unfoldable pub transmit_data : Session → Outcome
unfolding transmit_pending
transmit_data s =
    if leb s.snd_una s.snd_nxt && leb s.snd_nxt (s.snd_una + s.snd_ewn)
    then transmit_pending s
    else raised assertion_error s

unfoldable pub delayed_ack : Session → Outcome
delayed_ack s =
    if is_expired delayed_ack_timer s
    then (do
      t ← if ltb s.rcv_una s.rcv_nxt then send_ack s else done s
      done (register_timer delayed_ack_timer delayed_ack_delay t))
    else done s

-- The socket and the pending syscalls learn that the connection timed out.
unfoldable pub report_timeout : Session → Session
report_timeout s =
    let told =
      if reports_timeout s.state
      then record s { connection_error = timed_out; event_rx_buffer = s.event_rx_buffer + 1 }
      else s in
    if is_syn_sent told.state
    then record told { connection_error = timed_out; event_connect = told.event_connect + 1 }
    else told

-- The retransmit counter has expired: reset the connection. `_rcv_nxt` is never `None`.
unfoldable pub give_up : Session → Outcome
unfolding report_timeout
give_up s = do
  t ← transmit_packet (some s.snd_una) false true false true [] s
  change_state closed (report_timeout t)

-- Go back to the first number not acknowledged; a SYN is to be counted again.
unfoldable pub rewind : Session → Session
rewind s = record s {
  snd_ewn = s.snd_mss;
  snd_nxt = s.snd_una;
  tx_buffer_seq_mod =
      if s.snd_una == s.snd_ini || s.snd_una == s.snd_fin
      then s.tx_buffer_seq_mod +ℤ negsuc 0
      else s.tx_buffer_seq_mod;
}

unfoldable pub retransmit_packet_timeout : Session → Outcome
unfolding give_up rewind
retransmit_packet_timeout s =
    on_lookup (get? s.snd_una s.tx_retransmit_timeout_counter) (done s) λ count.
      if is_expired (retransmit_timer s.snd_una) s
      then (if count == packet_retransmit_max_count then give_up s else done (rewind s))
      else done s

unfoldable pub retransmit_packet_request : Metadata → Session → Session
retransmit_packet_request p s =
    let count : ℕ = elim (get? p.ack s.tx_retransmit_request_counter) [
      | none ↦ 1
      | some n ↦ n + 1
    ] in
    let counted = record s {
      tx_retransmit_request_counter = insert p.ack count s.tx_retransmit_request_counter;
    } in
    if ltb 1 count then record counted { snd_nxt = s.snd_una } else counted
