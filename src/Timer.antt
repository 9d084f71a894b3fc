-- ===== src/Timer.antt =====
-- pytcp/subsystems/timer.py: named timers and repeated tasks, both driven by one tick a millisecond.
-- A timer's value and a task's delay are Python ints that are decremented before they are tested, so
-- they are integers here.
pub mod Names
pub mod Tasks
pub mod Tests
use py_tcp.Prelude.{
  ℕ, zero, suc, ◌+◌, ◌-◌, ◌*◌, ◌^◌, Option, none, some, List, [], ◌∷◌, Bool, true, false, not, ◌&&◌,
  if◌then◌else◌,
}
use py_tcp.Prelude.Int.{ℤ, pos, negsuc, ◌+ℤ◌}
use Prim.Native.String.{String}
use text.Mathlib.Text.{◌==◌ as str_eq}

-- `self._timers`, in insertion order.
abbrev pub Timers : Type 0
Timers = List (String × ℤ)

-- `n - 1`
abbrev pub pred_ℤ : ℤ → ℤ
pred_ℤ (pos zero) = negsuc 0
pred_ℤ (pos (suc n)) = pos n
pred_ℤ (negsuc n) = negsuc (suc n)

-- Python's truth value of an int.
abbrev pub truthy : ℤ → Bool
truthy (pos zero) = false
truthy _ = true

unfoldable pub get : String → Timers → Option ℤ
get name [] = none
get name ((k, v) ∷ rest) = if str_eq k name then some v else get name rest

-- `register_timer`
unfoldable pub register : String → ℤ → Timers → Timers
register name timeout [] = (name, timeout) ∷ []
register name timeout ((k, v) ∷ rest) =
    if str_eq k name then (k, timeout) ∷ rest else (k, v) ∷ register name timeout rest

-- `is_expired`
unfoldable pub expired : String → Timers → Bool
expired name timers = elim (get name timers) [ none ↦ true | some v ↦ not (truthy v) ]

-- A tick of the timer thread counts each timer down, then drops those at zero.
unfoldable pub count_down : Timers → Timers
count_down [] = []
count_down ((k, v) ∷ rest) = (k, pred_ℤ v) ∷ count_down rest

unfoldable pub drop_expired : Timers → Timers
drop_expired [] = []
drop_expired ((k, v) ∷ rest) = if truthy v then (k, v) ∷ drop_expired rest else drop_expired rest

unfoldable pub tick_timers : Timers → Timers
unfolding count_down drop_expired
tick_timers timers = drop_expired (count_down timers)

-- A `TimerTask`, its method left out; `repeat_count` is -1 for ever.
pub record Task : Type 0 where
  pub delay : ℤ
  pub delay_exp : Bool
  pub repeat_count : ℤ
  pub remaining_delay : ℤ
  pub delay_exp_factor : ℕ

unfoldable pub new_task : ℤ → Bool → ℤ → Task
new_task delay delay_exp repeat_count = record {
  delay = delay;
  delay_exp = delay_exp;
  repeat_count = repeat_count;
  remaining_delay = delay;
  delay_exp_factor = 0;
}

-- `delay * (1 << factor)`
abbrev pub scaled : ℤ → ℕ → ℤ
scaled (pos n) factor = pos (n * 2 ^ factor)
scaled (negsuc n) factor = negsuc (n * 2 ^ factor + (2 ^ factor - 1))

abbrev pub positive : ℤ → Bool
positive (pos (suc n)) = true
positive _ = false

-- What `tick` does behind the call of the method.
unfoldable pub rearm : Task → Task
rearm t =
    if truthy t.repeat_count
    then record t {
      remaining_delay = if t.delay_exp then scaled t.delay t.delay_exp_factor else t.delay;
      delay_exp_factor = t.delay_exp_factor + 1;
      repeat_count = if positive t.repeat_count then pred_ℤ t.repeat_count else t.repeat_count;
    }
    else t

-- `tick`; `stop` is what the stop condition says, false where there is none. The flag tells that
-- the method was called.
unfoldable pub tick : Bool → Task → Task × Bool
unfolding rearm
tick stop task =
    let t = record task { remaining_delay = pred_ℤ task.remaining_delay } in
    if stop
    then (record t { remaining_delay = pos 0 }, false)
    else if truthy t.remaining_delay
    then (t, false)
    else (rearm t, true)

-- The task after some ticks of the timer thread, with the number of calls of its method; a task whose
-- delay is zero is dropped after its tick.
unfoldable pub tick_for : ℕ → Task → Option Task × ℕ
unfolding tick
tick_for zero task = (some task, 0)
tick_for (suc n) task =
    let (t, called) = tick false task in
    let (u, more) = tick_for n t in
    let one : ℕ = if called then 1 else 0 in
    if truthy t.remaining_delay then (u, one + more) else (none, one)
