-- ===== src/Tcp/Fsm.antt =====
-- `tcp_fsm` of pytcp/protocols/tcp/session.py. A handler that calls `tcp_fsm` again, for a packet of
-- the out-of-order queue, takes that call as its argument `fsm`.
pub mod Opening
pub mod Open
pub mod Closing
use py_tcp.Prelude.{ℕ, zero, suc, length}
use py_tcp.Tcp.State.{
  Metadata, Session, Input, packet, FsmState, closed, listen, syn_sent, syn_rcvd, established,
  fin_wait_1, fin_wait_2, closing, close_wait, last_ack, time_wait,
}
use py_tcp.Tcp.Outcome.{Outcome, raised, out_of_depth}
use Opening.{tcp_fsm_closed, tcp_fsm_listen, tcp_fsm_syn_sent, tcp_fsm_syn_rcvd}
use Open.{tcp_fsm_established, tcp_fsm_close_wait}
use Closing.{
  tcp_fsm_fin_wait_1, tcp_fsm_fin_wait_2, tcp_fsm_closing, tcp_fsm_last_ack, tcp_fsm_time_wait,
}

-- The table of handlers.
unfoldable pub dispatch : (Metadata → Session → Outcome) → FsmState → Input → Session → Outcome
dispatch fsm closed i s = tcp_fsm_closed i s
dispatch fsm listen i s = tcp_fsm_listen i s
dispatch fsm syn_sent i s = tcp_fsm_syn_sent fsm i s
dispatch fsm syn_rcvd i s = tcp_fsm_syn_rcvd fsm i s
dispatch fsm established i s = tcp_fsm_established fsm i s
dispatch fsm fin_wait_1 i s = tcp_fsm_fin_wait_1 fsm i s
dispatch fsm fin_wait_2 i s = tcp_fsm_fin_wait_2 fsm i s
dispatch fsm closing i s = tcp_fsm_closing i s
dispatch fsm close_wait i s = tcp_fsm_close_wait fsm i s
dispatch fsm last_ack i s = tcp_fsm_last_ack i s
dispatch fsm time_wait i s = tcp_fsm_time_wait i s

-- `tcp_fsm` with a bound on the depth of its calls of itself.
unfoldable pub tcp_fsm_at : ℕ → Input → Session → Outcome
tcp_fsm_at zero i s = raised out_of_depth s
tcp_fsm_at (suc depth) i s = dispatch (λ p t. tcp_fsm_at depth (packet p) t) s.state i s

-- Each call of itself takes a packet out of the queue, so this depth is enough.
unfoldable pub tcp_fsm : Input → Session → Outcome
unfolding tcp_fsm_at
tcp_fsm i s = tcp_fsm_at (suc (length s.ooo_packet_queue)) i s
