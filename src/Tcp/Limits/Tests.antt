-- ===== src/Tcp/Limits/Tests.antt =====
-- Sessions that stop short.
use py_tcp.Prelude.{◌≡◌, refl, [], ◌∷◌, true, false, arith}
use py_tcp.Prelude.Int.{pos, ◌+ℤ◌}
use py_tcp.Dict.{get?}
use py_tcp.Tcp.State.{Session, Metadata, packet, timer, syn_sent, new_session}
use py_tcp.Tcp.Outcome.{done, raised, assertion_error, ◌>>=◌}
use py_tcp.Tcp.Output.{remaining_data_len, transmit_data_len}
use py_tcp.Tcp.Input.{accept_packet}
use py_tcp.Tcp.Fsm.{tcp_fsm}
use py_tcp.Tcp.Limits.{syn_sent-only_syn, shrink_window-raises, wrap-raises}
use py_tcp.Tcp.Tests.{client, opened, from_peer}

abbrev connecting : Session
connecting = record client { state = syn_sent }

abbrev peer_syn : Metadata
peer_syn = from_peer true false false false 99 0 []

syn_sent-only_syn_example : tcp_fsm (packet peer_syn) connecting ≡ done connecting
syn_sent-only_syn_example = syn_sent-only_syn peer_syn connecting refl refl

-- The session has sent 3000 bytes; their timer is set.
abbrev busy : Session
busy = record opened { snd_nxt = 4001; snd_max = 4001; timers = λ n. 1000 }

-- The peer takes 1000 bytes and closes its window to 1000.
abbrev narrow : Metadata
narrow = record (from_peer false true false false 100 2001 []) { win = 1000 }

shrink_window-raises_example :
    (tcp_fsm (packet narrow) busy >>= tcp_fsm timer)
    ≡ raised assertion_error (accept_packet narrow busy)
unfolding new_session get?
shrink_window-raises_example =
    shrink_window-raises narrow busy refl refl refl refl refl refl (omega arith) refl

-- The session has come to the end of the sequence numbers, with three bytes to send.
abbrev late : Session
late = record opened {
  snd_una = 0x1_0000_0000;
  snd_nxt = 0x1_0000_0000;
  snd_max = 0x1_0000_0000;
  snd_ewn = 1000;
  tx_buffer_seq_mod = pos 0x1_0000_0000;
  tx_buffer = 7 ∷ 8 ∷ 9 ∷ [];
  timers = λ n. 1000;
}

wrap-raises_example : tcp_fsm timer late ≡ raised assertion_error late
unfolding new_session remaining_data_len transmit_data_len ◌+ℤ◌
wrap-raises_example = wrap-raises late refl refl (omega arith) (omega arith) refl refl (omega arith)
