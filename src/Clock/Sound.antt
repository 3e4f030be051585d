-- ===== src/Clock/Sound.antt =====
-- What `teredo_clock` answers.
use miredo.Prelude.{ℕ, ◌+◌, ◌≤◌, ◌≡◌, Bool, true, false, List, [], ◌∷◌}
use miredo.Clock.{State, Event, asks, Answer}

-- While the timer runs, the value and the expirations that are due make up the time.
abbrev IsTimed : Bool → State → Type 0
IsTimed true s = (s.clk.value + s.world.due ≡ s.world.now) × (s.clk.present ≡ true)
IsTimed false s = (s.world.due ≡ 0) × (s.clk.active ≡ false)

record IsKept (s : State) : Type 0 where
  timed : IsTimed s.world.armed s
  past : s.clk.value ≤ s.world.now

-- The answers are the time less what is due, and do not go back, from a value on.
abbrev pub AreRight : ℕ → List Answer → Type 0
AreRight low [] = Unit {0}
AreRight low (a ∷ rest) = (a.value + a.due ≡ a.now) × (low ≤ a.value) × AreRight a.value rest

-- A timer that is set again has no expirations pending.
abbrev ClearsTimer : Event → Type 0
ClearsTimer (asks creates kept) = kept ≡ 0
ClearsTimer e = Unit {0}

abbrev pub ClearTimers : List Event → Type 0
ClearTimers [] = Unit {0}
ClearTimers (e ∷ es) = ClearsTimer e × ClearTimers es
