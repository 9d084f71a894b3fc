-- ===== src/Tcp/Syscalls/Delivery.antt =====
-- What the application reads over the life of a session.
use py_tcp.Prelude.{
  ℕ, suc, ◌+◌, ◌≡◌, refl, ap, Option, List, [], ◌∷◌, ◌++◌, length, length-append, take-append-drop,
  Bool-cases, All, inl, inr, arith,
}
use native.Mathlib.Nat.{add-zero, add-suc, suc-add, add_assoc}
use py_tcp.Tcp.State.{Session, Input, packet, syscall, timer, may_send_data}
use py_tcp.Tcp.Outcome.{Outcome, done, raised, Ensures, on_done, on_raised}
use py_tcp.Tcp.Fsm.{tcp_fsm}
use py_tcp.Tcp.Moves.{IsQueue, Arrives, IsLater}
use py_tcp.Tcp.Stream.{bytes_from, join, IsHonest, IsReceived, tcp_fsm_keeps}
use py_tcp.Tcp.Syscalls.{
  send, wanted, receive, Action, event, write, read, session_after, elapse, perform, live,
}

-- `receive` takes bytes off the front of the receive buffer, and changes nothing else that the
-- receiving side depends on.
pub record Takes (s : Session) (bytes : List ℕ) (t : Session) : Type 0 where
  pub split : s.rx_buffer ≡ bytes ++ t.rx_buffer
  pub same_state : t.state ≡ s.state
  pub same_nxt : t.rcv_nxt ≡ s.rcv_nxt
  pub same_queue : t.ooo_packet_queue ≡ s.ooo_packet_queue

-- After any `receive`, blocked or not.
pub perform_read-Takes :
    (count : Option ℕ) (s : Session) → let (bytes, t) = perform (read count) s in Takes s bytes t
unfolding perform receive
perform_read-Takes count s =
    ground (arith, take-append-drop (wanted count (length s.rx_buffer)) s.rx_buffer)

-- A stretch of the stream, cut in two.
split_stream :
    (stream : ℕ → ℕ) (xs ys : List ℕ) (start : ℕ)
    → xs ++ ys ≡ bytes_from stream start (length (xs ++ ys))
    → (xs ≡ bytes_from stream start (length xs))
      × (ys ≡ bytes_from stream (start + length xs) (length ys))
unfolding bytes_from
split_stream stream [] ys start h = (refl, rw (add-zero start) h)
split_stream stream (x ∷ xs) ys start h =
    let (a, b) = split_stream stream xs ys (suc start) (cc h) in
    (ground (arith, a), rw (add-suc, ← suc-add) b)

module _ (stream : ℕ → ℕ) (end : ℕ) where
  -- An action with an honest peer that does not open the connection again.
  abbrev pub IsFair : Action → Type 0
  IsFair (event i) = Arrives (IsHonest stream end) IsLater i
  IsFair _ = Unit

  -- What holds between two actions: `start` is the number of the next byte to be read.
  pub record IsLive (start : ℕ) (s : Session) : Type 0 where
    pub received : IsReceived stream end start s
    pub queued : IsQueue (IsHonest stream end) s

  after-IsLive :
      (start : ℕ) (m : Outcome)
      → Ensures (λ t. IsReceived stream end start t × IsQueue (IsHonest stream end) t) m
      → IsLive start (session_after m)
  after-IsLive start (done _) (on_done s h) = record { received = h.0; queued = h.1 }
  after-IsLive start (raised _ _) (on_raised e s h) = record { received = h.0; queued = h.1 }

  elapse-IsLive : (i : Input) (start : ℕ) (s : Session) → IsLive start s → IsLive start (elapse i s)
  unfolding elapse
  elapse-IsLive (packet p) start s h = h
  elapse-IsLive (syscall c) start s h = h
  elapse-IsLive timer start s h = record {
    received = record {
      later = h.received.later;
      bounded = h.received.bounded;
      ends = h.received.ends;
      holds = h.received.holds;
    };
    queued = h.queued;
  }

  -- One action: what is read is the stream from `start`.
  pub record Delivers (start : ℕ) (bytes : List ℕ) (t : Session) : Type 0 where
    pub in_order : bytes ≡ bytes_from stream start (length bytes)
    pub live_on : IsLive (start + length bytes) t

  Takes-Delivers :
      (start : ℕ) (s t : Session) (bytes : List ℕ)
      → IsLive start s
      → Takes s bytes t
      → Delivers start bytes t
  Takes-Delivers start s t bytes h k = record {
    in_order = parts.0;
    live_on = record {
      received = record {
        later = rw k.same_state h.received.later;
        bounded = rw k.same_nxt h.received.bounded;
        ends = omega (
          arith,
          h.received.ends,
          k.same_nxt,
          ap (length {0}) k.split,
          length-append bytes t.rx_buffer,
        );
        holds = parts.1;
      };
      queued = rw k.same_queue h.queued;
    };
  }
    where
      parts :
          (bytes ≡ bytes_from stream start (length bytes))
          × (t.rx_buffer ≡ bytes_from stream (start + length bytes) (length t.rx_buffer))
      parts = split_stream stream bytes t.rx_buffer start (rw k.split at h.received.holds)

  Delivers-append :
      (start : ℕ) (bytes more : List ℕ) (t u : Session)
      → Delivers start bytes t
      → Delivers (start + length bytes) more u
      → Delivers start (bytes ++ more) u
  Delivers-append start bytes more t u h k = record {
    in_order = join stream bytes more start h.in_order k.in_order;
    live_on = rw (length-append bytes more) (rw (← add_assoc start) k.live_on);
  }

  nothing_read : (start : ℕ) (t : Session) → IsLive start t → Delivers start [] t
  unfolding bytes_from
  nothing_read start t h = record { in_order = refl; live_on = rw add-zero h }

  write-IsLive :
      (start : ℕ) (bytes : List ℕ) (s : Session)
      → IsLive start s
      → Delivers start (perform (write bytes) s).0 (perform (write bytes) s).1
  unfolding perform send
  write-IsLive start bytes s h = elim (Bool-cases (may_send_data s.state)) [
    | inl e ↦
        rw (e, perform)
          (nothing_read start _ (record {
            received = record {
              later = h.received.later;
              bounded = h.received.bounded;
              ends = h.received.ends;
              holds = h.received.holds;
            };
            queued = h.queued;
          }))
    | inr e ↦ rw (e, perform) (nothing_read start s h)
  ]

  perform-Delivers :
      (a : Action) (start : ℕ) (s : Session)
      → IsFair a
      → IsLive start s
      → Delivers start (perform a s).0 (perform a s).1
  perform-Delivers (event i) start s f h =
      let u = elapse i s in
      let k = elapse-IsLive i start s h in
      unfold perform in
      nothing_read start (session_after (tcp_fsm i u)) (
        after-IsLive start (tcp_fsm i u) (tcp_fsm_keeps stream end start i u f k.queued k.received))
  perform-Delivers (write bytes) start s f h = write-IsLive start bytes s h
  perform-Delivers (read count) start s f h =
      Takes-Delivers start s (perform (read count) s).1 (perform (read count) s).0 h
        (perform_read-Takes count s)

  -- The whole life of a synchronised session with an honest peer, whatever the order of packets,
  -- calls of the application and ticks of the timer, each of which lets the named timers of the
  -- session run down by one and then comes as a timer event: the bytes that the application has read, in all, are
  -- the stream of the peer from `start`, and what waits in the receive buffer is what follows.
  pub live-Delivers :
      (actions : List Action) (start : ℕ) (s : Session)
      → All IsFair actions
      → IsLive start s
      → Delivers start (live actions s).0 (live actions s).1
  unfolding live
  live-Delivers [] start s f h = nothing_read start s h
  live-Delivers (a ∷ rest) start s f h =
      let (bytes, t) = perform a s in
      let one : Delivers start bytes t = perform-Delivers a start s f.0 h in
      Delivers-append start bytes (live rest t).0 t (live rest t).1 one
        (live-Delivers rest (start + length bytes) t f.1 one.live_on)
