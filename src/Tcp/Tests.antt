-- ===== src/Tcp/Tests.antt =====
-- Sessions that run.
use py_tcp.Prelude.{ℕ, ◌≡◌, refl, none, List, [], ◌∷◌, Bool, true, false, arith}
use py_tcp.Prelude.Int.{pos, ◌+ℤ◌}
use py_tcp.Dict.{get?, insert, remove, purge}
use py_tcp.Tcp.State.{
  IpAddress, Metadata, Session, packet, syscall, timer, connect_call, established, new_session,
  retransmit_timer,
}
use py_tcp.Tcp.Outcome.{Ensures}
use py_tcp.Tcp.Output.{
  change_state, transmit_packet, remaining_data_len, transmit_data_len, transmit_data,
  retransmit_packet_timeout, retransmit_packet_request, assembler_accepts, delayed_ack,
}
use py_tcp.Tcp.Input.{process_ack_packet, handle_out_of_order}
use py_tcp.Tcp.Fsm.{dispatch, tcp_fsm}
use py_tcp.Tcp.Fsm.Opening.{tcp_fsm_closed, tcp_fsm_syn_sent}
use py_tcp.Tcp.Fsm.Open.{tcp_fsm_established}
use py_tcp.Tcp.Moves.{Moves, IsQueue}
use py_tcp.Tcp.Termination.{Finishes, tcp_fsm-Finishes}
use py_tcp.Tcp.Sequence.{AnyPacket, IsOrdered, Forward, tcp_fsm-Forward}
use py_tcp.Tcp.Stream.{bytes_from, IsHonest, IsReceived, tcp_fsm-IsReceived}
use py_tcp.Tcp.Syscalls.{Action, event, read, receive, live}
use py_tcp.Tcp.Syscalls.Delivery.{IsLive, Delivers, live-Delivers}

abbrev here_ip : IpAddress
here_ip = record { version = 4; value = 0x0a000001 }

abbrev peer_ip : IpAddress
peer_ip = record { version = 4; value = 0x0a000002 }

-- A packet of the peer.
abbrev pub from_peer : Bool → Bool → Bool → Bool → ℕ → ℕ → List ℕ → Metadata
from_peer syn ack fin rst seq number payload = record {
  local_ip = here_ip;
  local_port = 80;
  remote_ip = peer_ip;
  remote_port = 1234;
  flag_syn = syn;
  flag_ack = ack;
  flag_fin = fin;
  flag_rst = rst;
  seq = seq;
  ack = number;
  win = 4000;
  wscale = none;
  mss = 1000;
  payload = payload;
}

abbrev pub data_packet : ℕ → List ℕ → Metadata
data_packet seq payload = from_peer false true false false seq 1001 payload

-- A client connects to the peer, whose initial sequence number is 99.
abbrev handshake : List Action
handshake =
    event (syscall connect_call)
    ∷ event timer
    ∷ event (packet (from_peer true true false false 99 1001 []))
    ∷ []

abbrev pub client : Session
client = new_session here_ip 80 peer_ip 1234 false 1000

connects : (live handshake client).1.state ≡ established
unfolding live dispatch tcp_fsm tcp_fsm_closed tcp_fsm_syn_sent process_ack_packet transmit_packet
    change_state transmit_data retransmit_packet_timeout new_session assembler_accepts ◌+ℤ◌ get?
    insert purge remove remaining_data_len transmit_data_len
connects = refl

-- The session that the handshake leads to, as far as the theorems look at it.
abbrev pub opened : Session
opened = record client {
  state = established;
  rcv_ini = 99;
  rcv_nxt = 100;
  rcv_una = 100;
  snd_nxt = 1001;
  snd_max = 1001;
  snd_una = 1001;
  tx_buffer_seq_mod = pos 1001;
}

-- The peer sends the bytes 100, 101, … up to its FIN at 200.
abbrev numbers : ℕ → ℕ
numbers n = n

-- Two segments that arrive in the wrong order with a tick of the timer between them, then a call of
-- `receive`.
abbrev swapped : List Action
swapped =
    event (packet (data_packet 102 (102 ∷ 103 ∷ [])))
    ∷ event timer
    ∷ event (packet (data_packet 100 (100 ∷ 101 ∷ [])))
    ∷ read none
    ∷ []

reorders : (live swapped opened).0 ≡ 100 ∷ 101 ∷ 102 ∷ 103 ∷ []
unfolding live receive dispatch tcp_fsm tcp_fsm_established process_ack_packet handle_out_of_order
    retransmit_packet_request transmit_packet new_session assembler_accepts ◌+ℤ◌ get? insert purge
    remove retransmit_packet_timeout transmit_data remaining_data_len delayed_ack
reorders = refl

-- Two ticks let an armed timer run down by two, and a third lets it expire.
runs_down :
    ((live (event timer ∷ event timer ∷ []) (record opened { timers = λ name. 3 })).1.timers
        (retransmit_timer 7)
      ≡ 1)
    × ((live
            (event timer ∷ event timer ∷ event timer ∷ [])
            (record opened { timers = λ name. 3 })).1.timers
          (retransmit_timer 7)
        ≡ 0)
unfolding live dispatch tcp_fsm tcp_fsm_established retransmit_packet_timeout transmit_data
    remaining_data_len delayed_ack transmit_packet new_session assembler_accepts ◌+ℤ◌ get? insert
    purge remove
runs_down = (refl, refl)

late-IsHonest : IsHonest numbers 200 (data_packet 102 (102 ∷ 103 ∷ []))
unfolding bytes_from
late-IsHonest = record { carries = refl; within = λ h. omega arith; at_end = λ h. cc }

early-IsHonest : IsHonest numbers 200 (data_packet 100 (100 ∷ 101 ∷ []))
unfolding bytes_from
early-IsHonest = record { carries = refl; within = λ h. omega arith; at_end = λ h. cc }

opened-IsReceived : IsReceived numbers 200 100 opened
unfolding new_session bytes_from
opened-IsReceived = record { later = tt; bounded = omega arith; ends = refl; holds = refl }

opened-IsLive : IsLive numbers 200 100 opened
unfolding new_session
opened-IsLive = record { received = opened-IsReceived; queued = tt }

live-Delivers_example : Delivers numbers 200 100 (live swapped opened).0 (live swapped opened).1
live-Delivers_example =
    live-Delivers numbers 200 swapped 100 opened (late-IsHonest, (tt, (early-IsHonest, (tt, tt))))
      opened-IsLive

tcp_fsm-IsReceived_example :
    Ensures
      (IsReceived numbers 200 100)
      (tcp_fsm (packet (data_packet 102 (102 ∷ 103 ∷ []))) opened)
tcp_fsm-IsReceived_example =
    tcp_fsm-IsReceived numbers 200 100 (packet (data_packet 102 (102 ∷ 103 ∷ []))) opened
      late-IsHonest opened-IsLive.queued opened-IsReceived

-- A session that has stored a packet which came early.
abbrev queued : Session
queued = record opened { ooo_packet_queue = (102, data_packet 102 (102 ∷ 103 ∷ [])) ∷ [] }

opened-IsOrdered : IsOrdered opened
unfolding new_session
opened-IsOrdered = omega arith

no_stored : IsQueue AnyPacket opened
unfolding new_session
no_stored = tt

tcp_fsm-Forward_example : Ensures (Forward opened) (tcp_fsm timer opened)
tcp_fsm-Forward_example = tcp_fsm-Forward timer opened no_stored opened-IsOrdered

tcp_fsm-Finishes_example : Finishes (tcp_fsm (packet (data_packet 100 [])) opened)
tcp_fsm-Finishes_example = tcp_fsm-Finishes (packet (data_packet 100 [])) opened
