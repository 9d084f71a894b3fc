-- ===== src/Tcp/Input.antt =====
-- What a session does with an acceptable packet (`_enqueue_rx_buffer` and `_process_ack_packet` of
-- pytcp/protocols/tcp/session.py), and the guards that its handlers share.
use py_tcp.Prelude.{
  ℕ, ◌+◌, ◌*◌, min, max, none, some, List, ◌++◌, Bool, not, ◌&&◌, ◌||◌, ◌==◌, leb, ltb,
  if◌then◌else◌, length, drop,
}
use py_tcp.Prelude.Int.{pos, ◌+ℤ◌}
use py_tcp.Dict.{get?, insert, remove, purge}
use py_tcp.Tcp.State.{Metadata, Session}
use py_tcp.Tcp.Outcome.{Outcome, done, on_lookup}
use py_tcp.Tcp.Output.{bit, buffer_index, non_empty, send_ack}

-- The combinations of flags that the handlers tell apart; URG and the like are not looked at.
abbrev pub only_syn : Metadata → Bool
only_syn p = p.flag_syn && not (p.flag_ack || (p.flag_fin || p.flag_rst))

abbrev pub syn_and_ack : Metadata → Bool
syn_and_ack p = (p.flag_syn && p.flag_ack) && not (p.flag_fin || p.flag_rst)

abbrev pub only_ack : Metadata → Bool
only_ack p = p.flag_ack && not (p.flag_syn || (p.flag_rst || p.flag_fin))

abbrev pub fin_and_ack : Metadata → Bool
fin_and_ack p = (p.flag_fin && p.flag_ack) && not (p.flag_syn || p.flag_rst)

abbrev pub rst_and_ack : Metadata → Bool
rst_and_ack p = (p.flag_rst && p.flag_ack) && not (p.flag_fin || p.flag_syn)

abbrev pub only_rst : Metadata → Bool
only_rst p = p.flag_rst && not (p.flag_ack || (p.flag_fin || p.flag_syn))

-- `self._snd_una <= packet_rx_md.ack <= self._snd_max`
abbrev pub acks_sent : Metadata → Session → Bool
acks_sent p s = leb s.snd_una p.ack && leb p.ack s.snd_max

-- The sanity check of most branches.
abbrev pub is_next : Metadata → Session → Bool
is_next p s = p.seq == s.rcv_nxt && acks_sent p s

-- Appends to the receive buffer, and wakes a waiting `receive` unless it was woken already.
unfoldable pub enqueue_rx_buffer : List ℕ → Session → Session
enqueue_rx_buffer payload s = record s {
  rx_buffer = s.rx_buffer ++ payload;
  event_rx_buffer = if s.event_rx_buffer == 0 then 1 else s.event_rx_buffer;
}

-- What the peer acknowledged.
unfoldable pub ack_sent : Metadata → Session → Session
ack_sent p s =
    let una = max s.snd_una p.ack in
    record s {
      snd_una = una;
      snd_nxt = if ltb s.snd_nxt una && leb una s.snd_max then una else s.snd_nxt;
    }

-- The sequence numbers that the packet takes up, and its data.
unfoldable pub take_payload : Metadata → Session → Session
unfolding enqueue_rx_buffer
take_payload p s =
    let t = record s { rcv_nxt = p.seq + length p.payload + bit p.flag_syn + bit p.flag_fin } in
    if non_empty p.payload then enqueue_rx_buffer p.payload t else t

-- Acknowledged data leaves the transmit buffer.
unfoldable pub purge_tx_buffer : Session → Session
purge_tx_buffer s =
    let una = buffer_index s.snd_una s.tx_buffer_seq_mod in
    record s {
      tx_buffer = drop una s.tx_buffer;
      tx_buffer_seq_mod = s.tx_buffer_seq_mod +ℤ pos una;
    }

unfoldable pub update_window : Metadata → Session → Session
update_window p s =
    let wnd = p.win * s.snd_wsc in record s { snd_wnd = wnd; snd_ewn = min (s.snd_ewn * 2) wnd }

unfoldable pub purge_counters : Metadata → Session → Session
purge_counters p s = record s {
  tx_retransmit_request_counter = purge p.ack s.tx_retransmit_request_counter;
  tx_retransmit_timeout_counter = purge p.ack s.tx_retransmit_timeout_counter;
  rx_retransmit_request_counter = purge s.rcv_nxt s.rx_retransmit_request_counter;
}

-- `_process_ack_packet` up to the out-of-order queue.
unfoldable pub accept_packet : Metadata → Session → Session
unfolding ack_sent take_payload purge_tx_buffer update_window purge_counters
accept_packet p s =
    purge_counters p (update_window p (purge_tx_buffer (take_payload p (ack_sent p s))))

-- `self._ooo_packet_queue.pop(self._rcv_nxt, None)`, where the queue has the number.
unfoldable pub dequeue : Session → Session
dequeue s = record s { ooo_packet_queue = remove s.rcv_nxt s.ooo_packet_queue }

-- The next packet of the out-of-order queue goes through the state machine, `fsm`.
unfoldable pub bring_next : (Metadata → Session → Outcome) → Session → Outcome
unfolding dequeue
bring_next fsm s = on_lookup (get? s.rcv_nxt s.ooo_packet_queue) (done s) λ q. fsm q (dequeue s)

unfoldable pub process_ack_packet : (Metadata → Session → Outcome) → Metadata → Session → Outcome
unfolding accept_packet bring_next
process_ack_packet fsm p s = bring_next fsm (accept_packet p s)

-- A packet ahead of what is expected: it is stored, and the peer is asked to retransmit, at most
-- twice for one number.
unfoldable pub store_out_of_order : Metadata → Session → Session
store_out_of_order p s =
    let count : ℕ = elim (get? s.rcv_nxt s.rx_retransmit_request_counter) [
      | none ↦ 1
      | some n ↦ n + 1
    ] in
    record s {
      ooo_packet_queue = insert p.seq p s.ooo_packet_queue;
      rx_retransmit_request_counter = insert s.rcv_nxt count s.rx_retransmit_request_counter;
    }

unfoldable pub handle_out_of_order : Metadata → Session → Outcome
unfolding store_out_of_order
handle_out_of_order p s =
    let t = store_out_of_order p s in
    let asked : ℕ = elim (get? t.rcv_nxt t.rx_retransmit_request_counter) [
      | none ↦ 0
      | some n ↦ n
    ] in
    if leb asked 2 then send_ack t else done t
