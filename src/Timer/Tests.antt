-- ===== src/Timer/Tests.antt =====
-- Runs of pytcp/subsystems/timer.py.
use py_tcp.Prelude.{◌≡◌, refl, false, arith, [], ◌∷◌}
use py_tcp.Prelude.Int.{pos, negsuc}
use py_tcp.Timer.{Timers, get, register, expired, tick_for, new_task}
use py_tcp.Timer.Names.{ticks, IsRunning, expired-ticks-register}
use py_tcp.Timer.Tasks.{OnTime, new_task-OnTime}

abbrev two_timers : Timers
two_timers = ("80-retransmit_seq-100", pos 1000) ∷ ("80-delayed_ack", pos 2) ∷ []

two_timers-IsRunning : IsRunning two_timers
unfolding get
two_timers-IsRunning = (refl, refl, (refl, refl, tt))

expired-ticks-register_example :
    expired "80-delayed_ack" (ticks 3 (register "80-delayed_ack" (pos 100) two_timers)) ≡ false
expired-ticks-register_example =
    expired-ticks-register "80-delayed_ack" "80-delayed_ack" 100 3 two_timers (omega arith)
      two_timers-IsRunning

new_task-OnTime_example : OnTime 99 1000 (tick_for 1000 (new_task (pos 100) false (negsuc 0))).1
new_task-OnTime_example = new_task-OnTime 1000 99
