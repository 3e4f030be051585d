-- ===== src/Tun6/Passage.antt =====
-- The thread between the device and the tunnel, for whatever the device gives it.
use miredo.Prelude.{ℕ, ◌≡◌, true, Option, none, some, List, [], ◌∷◌}
use miredo.Peer.{Output}
use miredo.Relay.{Tunnel}
use miredo.PeerList.Lock.{IsSettled}
use miredo.Tun6.{Read}

-- A tunnel and what went out, with the peer list valid and free.
abbrev pub IsDone : ℕ → Option (Tunnel × List Output) → Type 0
IsDone max none = ⊥
IsDone max (some (t, out)) = IsSettled max t.list

-- A packet can be queued whenever one is to be.
abbrev pub HaveMemory : List Read → Type 0
HaveMemory [] = Unit {0}
HaveMemory (r ∷ rs) = (r.env.queue_memory ≡ true) × HaveMemory rs
