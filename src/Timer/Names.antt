-- ===== src/Timer/Names.antt =====
-- The named timers of pytcp/subsystems/timer.py as a function from names to the ticks left.
use py_tcp.Prelude.{
  ℕ, zero, suc, ◌-◌, ◌<◌, ◌≡◌, refl, Option, none, some, [], ◌∷◌, true, false, Bool-cases, inl, inr,
  ◌==◌, leb, if◌then◌else◌, arith,
}
use py_tcp.Prelude.Int.{ℤ, pos, negsuc}
use Prim.Native.String.{String}
use text.Mathlib.Text.{◌==◌ as str_eq}
use text.Mathlib.TextEquality.{eq_iff}
use py_tcp.Timer.{Timers, positive, get, register, expired, tick_timers}

-- Names are distinct, and every timer that is held has ticks left.
abbrev pub IsRunning : Timers → Type 0
IsRunning [] = Unit
IsRunning ((k, v) ∷ rest) = (positive v ≡ true) × (get k rest ≡ none) × IsRunning rest

-- The ticks that a timer has left; 0 for one that is not held.
abbrev pub ticks_of : Option ℤ → ℕ
ticks_of none = 0
ticks_of (some (pos n)) = n
ticks_of (some (negsuc n)) = 0

pub left : String → Timers → ℕ
left name timers = ticks_of (get name timers)

pub left-register :
    (name other : String) (t : ℕ) (timers : Timers)
    → left other (register name (pos t) timers)
      ≡ (if str_eq name other then t else left other timers)
unfolding left get register
left-register name other t [] = ground arith
left-register name other t ((k, v) ∷ rest) =
    ground
      (arith, eq_iff name other, eq_iff k name, eq_iff k other, left-register name other t rest)

get-register_ne :
    (k name : String) (t : ℤ) (timers : Timers)
    → str_eq k name ≡ false
    → get k timers ≡ none
    → get k (register name t timers) ≡ none
unfolding get register
get-register_ne k name t [] h e = ground (arith, eq_iff name k, eq_iff k name)
get-register_ne k name t ((j, v) ∷ rest) h e =
    ground (
      arith,
      eq_iff j name,
      eq_iff j k,
      eq_iff k name,
      eq_iff name k,
      get-register_ne k name t rest,
    )

pub register-IsRunning :
    (name : String) (t : ℕ) (timers : Timers)
    → 0 < t
    → IsRunning timers
    → IsRunning (register name (pos t) timers)
unfolding get register
register-IsRunning name zero timers h r = absurd (omega arith)
register-IsRunning name (suc t) [] h r = (refl, refl, tt)
register-IsRunning name (suc t) ((k, v) ∷ rest) h r = elim (Bool-cases (str_eq k name)) [
  | inl e ↦ rw e (refl, r.1, r.2)
  | inr e ↦ rw e (
    r.0,
    get-register_ne k name (pos (suc t)) rest e r.1,
    register-IsRunning name (suc t) rest h r.2,
  )
]

get-tick_none :
    (k : String) (timers : Timers) → get k timers ≡ none → get k (tick_timers timers) ≡ none
unfolding get tick_timers
get-tick_none k [] h = refl
get-tick_none k ((j, v) ∷ rest) h = ground (arith, get-tick_none k rest)

pub tick-IsRunning : (timers : Timers) → IsRunning timers → IsRunning (tick_timers timers)
unfolding tick_timers
tick-IsRunning [] r = tt
tick-IsRunning ((k, pos zero) ∷ rest) r = cc
tick-IsRunning ((k, pos (suc zero)) ∷ rest) r = tick-IsRunning rest r.2
tick-IsRunning ((k, pos (suc (suc n))) ∷ rest) r =
    (refl, get-tick_none k rest r.1, tick-IsRunning rest r.2)
tick-IsRunning ((k, negsuc n) ∷ rest) r = cc

left-tick :
    (name : String) (timers : Timers)
    → IsRunning timers
    → left name (tick_timers timers) ≡ left name timers - 1
unfolding left get tick_timers
left-tick name [] r = refl
left-tick name ((k, v) ∷ rest) r =
    ground (arith, left-tick name rest r.2, eq_iff k name, get-tick_none k rest r.1)

expired-left :
    (name : String) (timers : Timers)
    → IsRunning timers
    → expired name timers ≡ (left name timers == 0)
unfolding left get expired
expired-left name [] r = refl
expired-left name ((k, v) ∷ rest) r = ground (arith, expired-left name rest r.2)

-- A number of ticks of the timer thread.
pub ticks : ℕ → Timers → Timers
ticks zero timers = timers
ticks (suc n) timers = ticks n (tick_timers timers)

ticks-left :
    (n : ℕ) (name : String) (timers : Timers)
    → IsRunning timers
    → (left name (ticks n timers) ≡ left name timers - n) × IsRunning (ticks n timers)
unfolding ticks
ticks-left zero name timers r = (omega arith, r)
ticks-left (suc n) name timers r =
    let later : _ = ticks-left n name (tick_timers timers) (tick-IsRunning timers r) in
    (omega (arith, later.0, left-tick name timers r), later.1)

-- Among distinct names with ticks left, a timer that is registered for `t` ticks, `t` above zero, is
-- expired after `n` ticks exactly if `t` is at most `n`, and every other timer runs as if it had not
-- been registered.
pub expired-ticks-register :
    (name other : String) (t n : ℕ) (timers : Timers)
    → 0 < t
    → IsRunning timers
    → expired other (ticks n (register name (pos t) timers))
      ≡ (if str_eq name other then leb t n else expired other (ticks n timers))
expired-ticks-register name other t n timers h r =
    let with : IsRunning (register name (pos t) timers) = register-IsRunning name t timers h r in
    let (new_left, new_running) = ticks-left n other (register name (pos t) timers) with in
    let (old_left, old_running) = ticks-left n other timers r in
    ground (
      arith,
      new_left,
      old_left,
      left-register name other t timers,
      expired-left other (ticks n (register name (pos t) timers)) new_running,
      expired-left other (ticks n timers) old_running,
    )
