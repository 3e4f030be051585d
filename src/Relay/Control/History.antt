-- ===== src/Relay/Control/History.antt =====
-- Histories of a tunnel: what the stack, the network, the maintenance thread, the collector of the
-- peer list and the program do with it, one call at a time.
use miredo.Prelude.Word.{Endian}
use miredo.Prelude.{
  if◌then◌else◌, ℕ, ◌≡◌, sym, subst, Bool, true, false, Option, none, some, List, [], ◌∷◌, arith,
}
use miredo.Udp.{TeredoPacket}
use miredo.PeerList.{PeerList, collect, list_create, list_reset}
use miredo.PeerList.Inv.{collect-IsValid, list_reset-IsValid}
use miredo.PeerList.Calls.{create-IsValid}
use miredo.PeerList.Lock.{IsSettled}
use miredo.Relay.{Tunnel, Env, TeredoState}
use miredo.Relay.Transmit.{Sent, transmit}
use miredo.Relay.Receive.{Received, receive}
use miredo.Relay.Settled.{transmit-Settles}
use miredo.Relay.Returns.{receive-Settles}
use miredo.Relay.Control.{
  Notice, create, state_change, set_prefix, set_cone_flag, set_client_mode, max_peers,
}

pub data Event : Type 0 where
  transmits : Env → List ℕ → Event
  receives : Env → TeredoPacket → Event
  changes : TeredoState → Event
  collects : Event
  sets_prefix : Endian → ℕ → Event
  sets_cone : Bool → Event
  starts_client : Bool → Event

-- `none`: the call does not return.
abbrev pub step : Tunnel → Event → Option Tunnel
step t (transmits e packet) = elim (transmit e t packet) [ none ↦ none | some s ↦ some s.tunnel ]
step t (receives e p) = elim (receive e t p) [ none ↦ none | some r ↦ some r.tunnel ]
step t (changes s) = elim (state_change t s) [ none ↦ none | some (t', ns) ↦ some t' ]
step t collects = if t.list.locked then none else some (record t { list = collect t.list })
step t (sets_prefix e prefix) = some (set_prefix e t prefix).0
step t (sets_cone cone) = some (set_cone_flag t cone).0
step t (starts_client started) = some (set_client_mode t started).0

abbrev pub run : Tunnel → List Event → Option Tunnel
run t [] = some t
run t (e ∷ es) = elim (step t e) [ none ↦ none | some t' ↦ run t' es ]

-- There is a tunnel, and its list is valid and free.
abbrev pub Stands : Option Tunnel → Type 0
Stands none = ⊥
Stands (some t) = IsSettled max_peers t.list

transmits-Stands :
    (o : Option Sent)
    → miredo.Relay.Settled.Settles max_peers o
    → Stands (elim o [ none ↦ none | some s ↦ some s.tunnel ])
transmits-Stands none h = h
transmits-Stands (some s) h = h

receives-Stands :
    (o : Option Received)
    → miredo.Relay.Returns.Settles max_peers o
    → Stands (elim o [ none ↦ none | some r ↦ some r.tunnel ])
receives-Stands none h = h
receives-Stands (some r) h = h.settled

same_list :
    (t t' : Tunnel) → t'.list ≡ t.list → IsSettled max_peers t.list → IsSettled max_peers t'.list
same_list t t' e h = subst (IsSettled max_peers) (sym e) h

reset_free : (l : PeerList) → l.locked ≡ false → (list_reset l max_peers).locked ≡ false
unfolding list_reset
reset_free l h = h

true≢false : true ≡ false → ⊥
true≢false k = ground arith

changes-Stands :
    (t : Tunnel) (s : TeredoState) → IsSettled max_peers t.list → Stands (step t (changes s))
unfolding state_change
changes-Stands t s h =
    by_up s.up t.list.locked (record t { state = s; list = list_reset t.list max_peers })
      (record t { state = s }) _ _ h.free reset h
  where
    reset : IsSettled max_peers (list_reset t.list max_peers)
    reset = record {
      valid = list_reset-IsValid t.list max_peers (omega arith);
      free = reset_free t.list h.free;
    }

    by_up :
        (up locked : Bool) (t1 t2 : Tunnel) (ns ns' : List Notice)
        → locked ≡ false
        → IsSettled max_peers t1.list
        → IsSettled max_peers t2.list
        → let r : Option (Tunnel × List Notice) =
            if up then (if locked then none else some (t1, ns)) else some (t2, ns') in
          Stands (elim r [ none ↦ none | some (t', ns'') ↦ some t' ])
    by_up true true t1 t2 ns ns' k h1 h2 = absurd (true≢false k)
    by_up true false t1 t2 ns ns' k h1 h2 = h1
    by_up false locked t1 t2 ns ns' k h1 h2 = h2

collects-Stands :
    (t : Tunnel) (locked : Bool)
    → locked ≡ false
    → IsSettled max_peers t.list
    → Stands (if locked then none else some (record t { list = collect t.list }))
unfolding collect
collects-Stands t true k h = absurd (true≢false k)
collects-Stands t false k h = record {
  valid = collect-IsValid max_peers t.list h.valid;
  free = h.free;
}

-- `malloc` gives memory for the packets that are to be queued.
abbrev pub HasMemory : Event → Type 0
HasMemory (transmits e packet) = e.queue_memory ≡ true
HasMemory (receives e p) = e.queue_memory ≡ true
HasMemory e = Unit {0}

abbrev pub HaveMemory : List Event → Type 0
HaveMemory [] = Unit {0}
HaveMemory (e ∷ es) = HasMemory e × HaveMemory es

step-Stands :
    (t : Tunnel) (e : Event) → HasMemory e → IsSettled max_peers t.list → Stands (step t e)
unfolding set_prefix set_cone_flag set_client_mode
step-Stands t (transmits e packet) m h =
    transmits-Stands (transmit e t packet) (transmit-Settles max_peers e t packet m h)
step-Stands t (receives e p) m h =
    receives-Stands (receive e t p) (receive-Settles max_peers e t p m h)
step-Stands t (changes s) m h = changes-Stands t s h
step-Stands t collects m h = collects-Stands t t.list.locked h.free h
step-Stands t (sets_prefix e prefix) m h = same_list t (set_prefix e t prefix).0 (ground arith) h
step-Stands t (sets_cone cone) m h = same_list t (set_cone_flag t cone).0 (ground arith) h
step-Stands t (starts_client started) m h =
    same_list t (set_client_mode t started).0 (ground arith) h

run-Stands :
    (es : List Event) (t : Tunnel) → HaveMemory es → IsSettled max_peers t.list → Stands (run t es)
run-Stands [] t m h = h
run-Stands (e ∷ es) t m h =
    then_run (step t e) (λ t' k. run-Stands es t' m.1 k) (step-Stands t e m.0 h)
  where
    then_run :
        (o : Option Tunnel)
        → ((t' : Tunnel) → IsSettled max_peers t'.list → Stands (run t' es))
        → Stands o
        → Stands (elim o [ none ↦ none | some t' ↦ run t' es ])
    then_run none f k = k
    then_run (some t') f k = f t' k

created-IsSettled :
    (socket ok : Bool) (ipv4 port : ℕ) (t : Tunnel)
    → create socket ok ipv4 port ≡ some t
    → IsSettled max_peers t.list
unfolding create list_create
created-IsSettled socket ok ipv4 port t h =
    let made : list_create true max_peers 30 ≡ some t.list = ground arith in
    record { valid = create-IsValid max_peers 30 t.list (omega arith) made; free = ground arith }

-- From the creation of a tunnel on, in any history of packets from the stack and from the network,
-- state changes, rounds of the collector and calls of the setters, in which `malloc` gives memory for
-- the packets that are to be queued, every call returns, and after it the peer list is valid, has no more peers than the maximum, and its mutex is free.
pub create-Stands :
    (socket ok : Bool) (ipv4 port : ℕ) (t : Tunnel) (es : List Event)
    → create socket ok ipv4 port ≡ some t
    → HaveMemory es
    → Stands (run t es)
create-Stands socket ok ipv4 port t es h m =
    run-Stands es t m (created-IsSettled socket ok ipv4 port t h)
