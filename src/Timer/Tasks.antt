-- ===== src/Timer/Tasks.antt =====
-- How often `TimerTask` (pytcp/subsystems/timer.py) calls its method.
use py_tcp.Prelude.{ℕ, zero, suc, ◌+◌, ◌-◌, ◌*◌, ◌≤◌, ◌<◌, ◌≡◌, refl, false, arith}
use py_tcp.Prelude.Int.{pos, negsuc}
use py_tcp.Timer.{Task, new_task, tick_for}

-- A task that repeats for ever at a constant delay of `d + 1`, with `m + 1` ticks to go.
abbrev pub periodic : ℕ → ℕ → ℕ → Task
periodic d m factor = record {
  delay = pos (suc d);
  delay_exp = false;
  repeat_count = negsuc 0;
  remaining_delay = pos (suc m);
  delay_exp_factor = factor;
}

wait_one :
    (m d f n : ℕ)
    → (tick_for (suc n) (periodic d (suc m) f)).1 ≡ 0 + (tick_for n (periodic d m f)).1
unfolding tick_for
wait_one m d f n = refl

call_one :
    (d f n : ℕ) → (tick_for (suc n) (periodic d 0 f)).1 ≡ 1 + (tick_for n (periodic d d (f + 1))).1
unfolding tick_for
call_one d f n = refl

no_ticks : (t : Task) → (tick_for 0 t).1 ≡ 0
unfolding tick_for
no_ticks t = refl

-- Being called `k` times in time for `t` ticks.
abbrev pub OnTime : ℕ → ℕ → ℕ → Type 0
OnTime d t k = (k * suc d ≤ t) × (t < suc k * suc d)

periodic-OnTime : (n d m f : ℕ) → m ≤ d → OnTime d (n + (d - m)) (tick_for n (periodic d m f)).1
periodic-OnTime zero d m f below = rw (no_ticks (periodic d m f)) (omega arith, omega arith)
periodic-OnTime (suc n) d zero f below =
    let (low, high) = periodic-OnTime n d d (f + 1) (omega arith) in
    rw (call_one d f n) (grind arith, grind arith)
periodic-OnTime (suc n) d (suc m) f below =
    let (low, high) = periodic-OnTime n d m f (omega arith) in
    rw (wait_one m d f n) (grind arith, grind arith)

-- A task registered to repeat for ever with a constant positive delay and no stop condition is called
-- once in each delay: after any number of ticks the calls are the ticks divided by the delay,
-- rounded down.
pub new_task-OnTime :
    (n d : ℕ) → OnTime d n (tick_for n (new_task (pos (suc d)) false (negsuc 0))).1
unfolding new_task
new_task-OnTime n d =
    let (low, high) = periodic-OnTime n d d 0 (omega arith) in (omega arith, omega arith)
