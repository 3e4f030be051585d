-- ===== src/Clock.antt =====
-- libteredo/clock.c: `teredo_clock`, a clock in seconds that a timer keeps up to date, so that the time
-- is not read at each call. Times are the seconds of the clock that the code reads.
use miredo.Prelude.{ℕ, ◌+◌, ◌-◌, ◌==◌, min, if◌then◌else◌, Bool, true, false, List, [], ◌∷◌, ◌++◌}
pub mod Sound

-- `clk` and `priv`: whether there is a timer, whether the value stands for the second that runs, and
-- the value.
pub record TeredoClock : Type 0 where
  pub present : Bool
  pub active : Bool
  pub value : ℕ

-- What surrounds the clock: the time, whether the timer runs, and how many times it has expired
-- since the last tick.
pub record World : Type 0 where
  pub now : ℕ
  pub armed : Bool
  pub due : ℕ

pub record State : Type 0 where
  pub clk : TeredoClock
  pub world : World

-- `clock_tick`; `timer_getoverrun` counts the expirations but one, up to DELAYTIMER_MAX.
unfoldable pub clock_tick : ℕ → State → State
clock_tick delaytimer_max s =
    let orun = min (s.world.due - 1) delaytimer_max in
    let active = if orun == delaytimer_max then false else s.clk.active in
    record {
      clk = record s.clk { value = s.clk.value + (1 + orun); active = false };
      world = record s.world { due = 0; armed = if active then s.world.armed else false };
    }

-- `teredo_clock`: the state and the result. The flag tells whether `timer_create` succeeds, if it is
-- called; `kept` is how many expirations are still pending after `timer_settime`, if that is called.
unfoldable pub teredo_clock : Bool → ℕ → State → State × ℕ
teredo_clock creates kept s =
    let present = if s.clk.present then true else creates in
    if s.clk.active
    then (record s { clk = record s.clk { present = present } }, s.clk.value)
    else if present
    then (
      record {
        clk = record { present = present; active = true; value = s.world.now };
        world = record s.world { armed = true; due = kept };
      },
      s.world.now,
    )
    else (record s { clk = record s.clk { present = present; value = s.world.now } }, s.world.now)

-- A second passes: a timer that runs expires.
abbrev pub pass : State → State
pass s = record s {
  world = record s.world {
    now = s.world.now + 1;
    due = if s.world.armed then s.world.due + 1 else 0;
  };
}

-- What happens: a second passes, the timer's function runs, or the time is asked for. Each is one step;
-- the source's `clock_tick` takes no lock, and may run while `teredo_clock` does.
pub data Event : Type 0 where
  passes : Event
  ticks : Event
  asks : Bool → ℕ → Event

-- An answer of `teredo_clock`: its value, the time, and the expirations that the timer's function has
-- not seen by then.
pub record Answer : Type 0 where
  pub value : ℕ
  pub now : ℕ
  pub due : ℕ

unfoldable pub happen : ℕ → Event → State → State × List Answer
happen delaytimer_max passes s = (pass s, [])
happen delaytimer_max ticks s = (if s.world.due == 0 then s else clock_tick delaytimer_max s, [])
happen delaytimer_max (asks creates kept) s =
    let r = teredo_clock creates kept s in
    (r.0, record { value = r.1; now = r.0.world.now; due = r.0.world.due } ∷ [])

unfoldable pub run : ℕ → List Event → State → List Answer
run delaytimer_max [] s = []
run delaytimer_max (e ∷ es) s =
    let r = happen delaytimer_max e s in let rest = run delaytimer_max es r.0 in r.1 ++ rest

-- Before the first call.
abbrev pub initial : ℕ → State
initial now = record {
  clk = record { present = false; active = false; value = 0 };
  world = record { now = now; armed = false; due = 0 };
}
