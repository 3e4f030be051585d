-- ===== src/Relay/Limiter.antt =====
-- How many unreachable errors a tunnel sends.
use miredo.Prelude.{length, ℕ, ◌+◌, ◌≤◌, List, [], ◌∷◌, arith}
use miredo.Relay.{Tunnel, Env, refill, send_unreach}

-- The number of errors that leave in calls with these codes and packets, one after the other.
abbrev pub errors_sent : Env → Tunnel → List (ℕ × List ℕ) → ℕ
errors_sent e t [] = 0
errors_sent e t ((code, packet) ∷ ps) =
    let (t', out) = send_unreach e t code packet in length out + errors_sent e t' ps

-- What the limiter still allows at the time of `e`.
abbrev pub allowance : Env → Tunnel → ℕ
allowance e t = (refill t e.now).count

errors_sent-allowance :
    (e : Env) (t : Tunnel) (ps : List (ℕ × List ℕ)) → errors_sent e t ps ≤ allowance e t
unfolding send_unreach refill
errors_sent-allowance e t [] = omega arith
errors_sent-allowance e t ((code, packet) ∷ ps) =
    ground (arith, errors_sent-allowance e (send_unreach e t code packet).0 ps)

-- Of a tunnel whose limiter stands at 10 or less: in one tick of the clock, no more than 10 calls of
-- `teredo_send_unreach` send an error, whatever the codes and the packets.
pub errors_sent-le :
    (e : Env) (t : Tunnel) (ps : List (ℕ × List ℕ)) → t.count ≤ 10 → errors_sent e t ps ≤ 10
unfolding refill
errors_sent-le e t ps h = ground (arith, errors_sent-allowance e t ps)
