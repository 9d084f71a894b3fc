-- ===== src/Tcp/Stream.antt =====
-- The receive buffer of `TcpSession` (pytcp/protocols/tcp/session.py) and the stream of its peer.
use py_tcp.Prelude.{
  ℕ, zero, suc, ◌+◌, ◌≤◌, ◌<◌, min, ◌≡◌, refl, ap, List, [], ◌∷◌, ◌++◌, true, false, length,
  length-append, Bool-cases, if◌then◌else◌, inl, inr, arith,
}
use mathlib.Core.Path.{ap₂}
use native.Mathlib.Nat.{add-zero, zero-add, add-suc, suc-add}
use py_tcp.Tcp.State.{Metadata, Session, Input}
use py_tcp.Tcp.Outcome.{Ensures, Ensures-map}
use py_tcp.Tcp.Output.{
  after_transmit, register_timer, report_timeout, rewind, retransmit_packet_request, non_empty, bit,
}
use py_tcp.Tcp.Input.{accept_packet, dequeue, store_out_of_order, is_next}
use py_tcp.Tcp.Fsm.{tcp_fsm}
use py_tcp.Tcp.Fsm.Opening.{adopt_parameters, take_connection}
use py_tcp.Tcp.Moves.{
  Move, send, send_reset, accept, accept_handshake, accept_syn_ack, take_stored, store, go_back,
  count_duplicate, adopt, connection, fin_acked, change, pop_socket, start_timer, tell_timeout,
  wake_connect, wake_refused, wake_receive, hand_over, ask_close, Moves-induction, IsQueue, Arrives,
  IsLater,
}
use py_tcp.Tcp.Moves.Queue.{Moves-IsQueue}
use py_tcp.Tcp.Moves.Refinement.{tcp_fsm-Moves}

-- The bytes of a stream at `count` sequence numbers from `start`.
unfoldable pub bytes_from : (ℕ → ℕ) → ℕ → ℕ → List ℕ
bytes_from stream start zero = []
bytes_from stream start (suc n) = stream start ∷ bytes_from stream (suc start) n

bytes_from-append :
    (stream : ℕ → ℕ) (m start n : ℕ)
    → bytes_from stream start (m + n) ≡ bytes_from stream start m ++ bytes_from stream (start + m) n
unfolding bytes_from
bytes_from-append stream zero start n = rw (add-zero, zero-add)
bytes_from-append stream (suc m) start n =
    rw (suc-add m n, add-suc start m, ← suc-add start m)
      (ap (◌∷◌ (stream start)) (bytes_from-append stream m (suc start) n))

not_empty-length : (xs : List ℕ) → non_empty xs ≡ false → length xs ≡ 0
not_empty-length [] h = refl
not_empty-length (x ∷ xs) h = cc

non_empty-length : (xs : List ℕ) → non_empty xs ≡ true → 0 < length xs
non_empty-length [] h = cc
non_empty-length (x ∷ xs) h = omega arith

pub join :
    (stream : ℕ → ℕ) (xs ys : List ℕ) (start : ℕ)
    → xs ≡ bytes_from stream start (length xs)
    → ys ≡ bytes_from stream (start + length xs) (length ys)
    → xs ++ ys ≡ bytes_from stream start (length (xs ++ ys))
join stream xs ys start h k =
    rw (length-append xs ys, bytes_from-append stream (length xs) start (length ys)) (ap₂ ◌++◌ h k)

state-accept_packet : (p : Metadata) (s : Session) → (accept_packet p s).state ≡ s.state
unfolding accept_packet
state-accept_packet p s = ground arith

-- The number that is expected after a packet.
pub rcv_nxt-accept_packet :
    (p : Metadata) (s : Session)
    → (accept_packet p s).rcv_nxt ≡ p.seq + length p.payload + bit p.flag_syn + bit p.flag_fin
unfolding accept_packet
rcv_nxt-accept_packet p s = ground arith

rx_buffer-accept_packet :
    (p : Metadata) (s : Session)
    → (accept_packet p s).rx_buffer
      ≡ (if non_empty p.payload then s.rx_buffer ++ p.payload else s.rx_buffer)
unfolding accept_packet
rx_buffer-accept_packet p s = ground arith

module _ (stream : ℕ → ℕ) (end : ℕ) where
  -- A packet of a peer whose byte with sequence number `n` is `stream n`, for all `n` below `end`, where
  -- its FIN stands. Packets may be lost, repeated, reordered and cut in any way.
  pub record IsHonest (p : Metadata) : Type 0 where
    pub carries : p.payload ≡ bytes_from stream p.seq (length p.payload)
    pub within : non_empty p.payload ≡ true → p.seq + length p.payload ≤ end
    pub at_end : p.flag_fin ≡ true → p.seq + length p.payload ≡ end

  module _ (start : ℕ) where
    -- The receive buffer is the stream from `start` up to what is expected next; the FIN itself takes one
    -- number and no byte.
    pub record IsReceived (s : Session) : Type 0 where
      pub later : IsLater s.state
      pub bounded : s.rcv_nxt ≤ end + 1
      pub ends : start + length s.rx_buffer ≡ min s.rcv_nxt end
      pub holds : s.rx_buffer ≡ bytes_from stream start (length s.rx_buffer)

    append_payload :
        (p : Metadata) (s : Session)
        → IsHonest p
        → is_next p s ≡ true
        → non_empty p.payload ≡ true
        → IsReceived s
        → s.rx_buffer ++ p.payload ≡ bytes_from stream start (length (s.rx_buffer ++ p.payload))
    append_payload p s honest h e r =
        join stream s.rx_buffer p.payload start r.holds (rw (← seq) honest.carries)
      where
        seq : p.seq ≡ start + length s.rx_buffer
        seq = ground (arith, honest.within, non_empty-length p.payload)

    accept-IsReceived :
        (p : Metadata) (s : Session)
        → IsHonest p
        → p.flag_syn ≡ false
        → is_next p s ≡ true
        → IsReceived s
        → IsReceived (accept_packet p s)
    accept-IsReceived p s honest f h r = elim (Bool-cases (non_empty p.payload)) [
      | inl e ↦ record {
        later = rw (state-accept_packet p s) r.later;
        bounded = ground (arith, rcv_nxt-accept_packet p s);
        ends = ground (
          arith,
          rcv_nxt-accept_packet p s,
          rx_buffer-accept_packet p s,
          non_empty-length p.payload,
          length-append s.rx_buffer p.payload,
        );
        holds = rw (rx_buffer-accept_packet p s, e) (append_payload p s honest h e r);
      }
      | inr e ↦ record {
        later = rw (state-accept_packet p s) r.later;
        bounded = ground (arith, rcv_nxt-accept_packet p s, not_empty-length p.payload);
        ends = ground (
          arith,
          rcv_nxt-accept_packet p s,
          rx_buffer-accept_packet p s,
          not_empty-length p.payload,
        );
        holds = rw (rx_buffer-accept_packet p s, e) r.holds;
      }
    ]

    -- A move that leaves the receiving side alone.
    frame :
        (s t : Session)
        → IsReceived s
        → t.state ≡ s.state
        → t.rcv_nxt ≡ s.rcv_nxt
        → t.rx_buffer ≡ s.rx_buffer
        → IsReceived t
    frame s t r a b c = record {
      later = rw a r.later;
      bounded = rw b r.bounded;
      ends = rw (b, c) r.ends;
      holds = rw c r.holds;
    }

    Move-IsReceived : (s t : Session) → Move IsHonest IsLater s t → IsReceived s → IsReceived t
    unfolding after_transmit register_timer dequeue store_out_of_order rewind
        retransmit_packet_request report_timeout adopt_parameters take_connection
    Move-IsReceived _ _ (send a b c d s h) r =
        frame s _ r (ground arith) (ground arith) (ground arith)
    Move-IsReceived _ _ (send_reset s h) r =
        frame s _ r (ground arith) (ground arith) (ground arith)
    Move-IsReceived _ _ (accept p s k n h) r = accept-IsReceived p s k n h r
    Move-IsReceived _ _ (accept_handshake p s k a b e n h) r =
        frame s _ r (state-accept_packet p s)
          (ground (arith, rcv_nxt-accept_packet p s, not_empty-length p.payload))
          (ground (arith, rx_buffer-accept_packet p s))
    Move-IsReceived _ _ (accept_syn_ack p s k y e h) r = absurd (rw y at r.later)
    Move-IsReceived _ _ (take_stored p s h) r = frame s _ r refl refl refl
    Move-IsReceived _ _ (store p s k a h) r = frame s _ r refl refl refl
    Move-IsReceived _ _ (go_back s) r = frame s _ r refl refl refl
    Move-IsReceived _ _ (count_duplicate p s) r =
        frame s _ r (ground arith) (ground arith) (ground arith)
    Move-IsReceived _ _ (adopt p s) r = frame s _ r refl refl refl
    Move-IsReceived _ _ (connection p s k h) r = absurd (rw h at r.later)
    Move-IsReceived _ _ (fin_acked p s h) r = frame s _ r refl refl refl
    Move-IsReceived _ _ (change t s e) r = record {
      later = e;
      bounded = r.bounded;
      ends = r.ends;
      holds = r.holds;
    }
    Move-IsReceived _ _ (pop_socket s) r = frame s _ r refl refl refl
    Move-IsReceived _ _ (start_timer n t s) r = frame s _ r refl refl refl
    Move-IsReceived _ _ (tell_timeout s) r =
        frame s _ r (ground arith) (ground arith) (ground arith)
    Move-IsReceived _ _ (wake_connect s) r = frame s _ r refl refl refl
    Move-IsReceived _ _ (wake_refused s) r = frame s _ r refl refl refl
    Move-IsReceived _ _ (wake_receive s) r = frame s _ r refl refl refl
    Move-IsReceived _ _ (hand_over s) r = frame s _ r refl refl refl
    Move-IsReceived _ _ (ask_close s) r = frame s _ r refl refl refl

    -- Both invariants, which the next event asks for.
    pub tcp_fsm_keeps :
        (i : Input) (s : Session)
        → Arrives IsHonest IsLater i
        → IsQueue IsHonest s
        → IsReceived s
        → Ensures (λ t. IsReceived t × IsQueue IsHonest t) (tcp_fsm i s)
    tcp_fsm_keeps i s a q h =
        Ensures-map (tcp_fsm i s)
          (λ t m. (
            Moves-induction IsReceived Move-IsReceived s t m h,
            Moves-IsQueue IsHonest IsLater s t m q,
          ))
          (tcp_fsm-Moves IsHonest IsLater (λ t e. e) i s a q)

    -- In a synchronised state, on every event but the LISTEN and CONNECT system calls, with an honest
    -- peer, the state machine keeps the receive buffer the stream of the peer from `start` up to the
    -- number expected next: no byte is lost, repeated or out of place.
    pub tcp_fsm-IsReceived :
        (i : Input) (s : Session)
        → Arrives IsHonest IsLater i
        → IsQueue IsHonest s
        → IsReceived s
        → Ensures IsReceived (tcp_fsm i s)
    tcp_fsm-IsReceived i s a q h = Ensures-map (tcp_fsm i s) (λ t r. r.0) (tcp_fsm_keeps i s a q h)
