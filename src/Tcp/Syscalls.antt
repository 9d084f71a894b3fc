-- ===== src/Tcp/Syscalls.antt =====
-- `send` and `receive` of pytcp/protocols/tcp/session.py, and a session that lives through a list of
-- events and calls.
pub mod Delivery
use py_tcp.Prelude.{
  ℕ, ◌-◌, ◌+◌, min, Option, none, some, List, [], ◌∷◌, ◌++◌, Bool, true, false, not, ◌&&◌, ◌||◌,
  ◌==◌, if◌then◌else◌, length, take, drop,
}
use py_tcp.Tcp.State.{
  Session, Input, packet, syscall, timer, TimerName, may_send_data, at_end_of_input,
}
use py_tcp.Tcp.Outcome.{Outcome, done, raised}
use py_tcp.Tcp.Output.{non_empty}
use py_tcp.Tcp.Fsm.{tcp_fsm}

-- The number of bytes taken; `none` stands for the `TcpSessionError` that a session raises which is
-- locally or fully closed.
unfoldable pub send : List ℕ → Session → Option (ℕ × Session)
send bytes s =
    if may_send_data s.state
    then some (length bytes, record s { tx_buffer = s.tx_buffer ++ bytes })
    else none

-- `min(byte_count, len(self._rx_buffer))`; without a count it is the whole buffer.
abbrev pub wanted : Option ℕ → ℕ → ℕ
wanted none n = n
wanted (some k) n = min k n

-- The part of `receive` that takes bytes out, the semaphore acquired.
unfoldable pub take_bytes : ℕ → Session → List ℕ × Session
take_bytes n s =
    let rest = drop n s.rx_buffer in
    (
      take n s.rx_buffer,
      record s {
        rx_buffer = rest;
        event_rx_buffer =
            if non_empty rest || at_end_of_input s.state
            then s.event_rx_buffer + 1
            else s.event_rx_buffer;
      },
    )

-- `none`: the call waits for the semaphore.
unfoldable pub receive : Option ℕ → Session → Option (List ℕ × Session)
unfolding take_bytes
receive count s =
    let woken = record s { event_rx_buffer = s.event_rx_buffer - 1 } in
    if s.event_rx_buffer == 0
    then none
    else if not (non_empty s.rx_buffer) && at_end_of_input s.state
    then some ([], woken)
    else some (take_bytes (wanted count (length s.rx_buffer)) woken)

-- What can happen to a session: an event for its state machine, or a call of the application.
pub data Action : Type 0 where
  event : Input → Action
  write : List ℕ → Action
  read : Option ℕ → Action

-- An exception leaves the session as it was changed so far.
abbrev pub session_after : Outcome → Session
session_after (done s) = s
session_after (raised e s) = s

-- A timer event comes at the end of a tick of pytcp/subsystems/timer.py, which first takes one off
-- every named timer that has time left (Timer/Names); the other events come between two ticks.
abbrev pub one_less : (TimerName → ℕ) → TimerName → ℕ
one_less timers name = timers name - 1

unfoldable pub elapse : Input → Session → Session
elapse timer s = record s { timers = one_less s.timers }
elapse (packet p) s = s
elapse (syscall c) s = s

-- The bytes that the application reads, and the session after the action.
unfoldable pub perform : Action → Session → List ℕ × Session
unfolding elapse
perform (event i) s = ([], session_after (tcp_fsm i (elapse i s)))
perform (write bytes) s = elim (send bytes s) [ none ↦ ([], s) | some (n, t) ↦ ([], t) ]
perform (read count) s = elim (receive count s) [ none ↦ ([], s) | some (bytes, t) ↦ (bytes, t) ]

-- All bytes read, in order, and the session at the end.
unfoldable pub live : List Action → Session → List ℕ × Session
unfolding perform
live [] s = ([], s)
live (a ∷ rest) s =
    let (bytes, t) = perform a s in let (more, u) = live rest t in (bytes ++ more, u)
