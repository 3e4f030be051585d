-- ===== src/Relay/Control/Notices.antt =====
-- The order in which a client is told that its tunnel goes up and down.
use miredo.Prelude.{if◌then◌else◌, ℕ, Bool, true, false, Option, none, some, List, [], ◌∷◌, ◌++◌}
use miredo.PeerList.{list_reset}
use miredo.Net.Addr.{Addr}
use miredo.Relay.{Tunnel, TeredoState}
use miredo.Relay.Control.{max_peers, Notice, goes_up, goes_down, state_change}

-- The notices of a sequence of state changes, up to one that waits for ever.
abbrev pub notices : Tunnel → List TeredoState → List Notice
notices t [] = []
notices t (s ∷ ss) = elim (state_change t s) [ none ↦ [] | some (t', ns) ↦ ns ++ notices t' ss ]

-- The tunnel goes down only when it is up.
abbrev pub Alternate : Bool → List Notice → Type 0
Alternate up [] = Unit {0}
Alternate up (goes_up a mtu ∷ ns) = Alternate true ns
Alternate true (goes_down ∷ ns) = Alternate false ns
Alternate false (goes_down ∷ ns) = ⊥

Alternate-state_change :
    (up locked before : Bool) (t t' : Tunnel) (a : Addr) (mtu : ℕ) (ss : List TeredoState)
    → Alternate up (notices t ss)
    → Alternate up (notices t' ss)
    → let r : Option (Tunnel × List Notice) =
        if up
        then (if locked then none else some (t, goes_up a mtu ∷ []))
        else some (t', if before then goes_down ∷ [] else []) in
      Alternate before (elim r [ none ↦ [] | some (t'', ns) ↦ ns ++ notices t'' ss ])
Alternate-state_change true true before t t' a mtu ss h h' = tt
Alternate-state_change true false before t t' a mtu ss h h' = h
Alternate-state_change false locked true t t' a mtu ss h h' = h'
Alternate-state_change false locked false t t' a mtu ss h h' = h'

-- Whatever states the maintenance procedure reports, each notice that the tunnel goes down follows
-- one that it went up, or a state that was up at the start, with no other such notice in between.
pub notices-Alternate : (ss : List TeredoState) (t : Tunnel) → Alternate t.state.up (notices t ss)
unfolding state_change
notices-Alternate [] t = tt
notices-Alternate (s ∷ ss) t =
    Alternate-state_change s.up t.list.locked t.state.up
      (record t { state = s; list = list_reset t.list max_peers }) (record t { state = s }) s.addr
      s.mtu ss (notices-Alternate ss _) (notices-Alternate ss _)
