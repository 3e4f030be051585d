-- ===== src/Relay/Settled.antt =====
-- The relay's use of the peer list: every path gives the lock back, and none waits for itself.
use miredo.Prelude.{
  if◌then◌else◌, ℕ, ◌≡◌, refl, sym, subst, Bool, true, false, ◌&&◌, Option, none, some, List, [],
  arith,
}
use miredo.PeerList.Lock.{release-IsSettled, list_lookup-Answered, IsSettled}
use miredo.PeerList.Inv.{IsValid}
use miredo.Net.Ip6.{ip6_dst}
use miredo.Packets.Ping.{send_ping}
use miredo.PeerList.{get_peer, null, Found, PeerList, list_release, put_peer}
use miredo.PeerList.{null, known, created}
use miredo.Relay.Transmit.{route, Route, discard, unreachable, native, teredo}
use miredo.Peer.Queue.{peer_queue-some}
use miredo.Peer.{
  touch_transmit, is_valid, enqueue_out, with_queued, count_bubble, count_ping, Output, Peer,
}
use miredo.Relay.{Tunnel, Env, send_unreach, refill}
use miredo.Relay.Transmit.{
  Route, transmit, Sent, transmit_created, transmit_peer, encap, transmit_known, finish_peer,
  give_up, transmit_native, ping_peer, bubble_peer, transmit_teredo,
}

-- The list of a tunnel is the one given, with some peer written and the lock released.
abbrev pub Finished : PeerList → PeerList → Type 0
Finished l l' = (p : Peer) × (l' ≡ list_release (put_peer l p))

give_up-list :
    (e : Env) (t : Tunnel) (code : ℕ) (packet : List ℕ) (out : List Output)
    → (give_up e t code packet out).tunnel.list ≡ t.list
unfolding give_up send_unreach refill
give_up-list e t code packet out = ground arith

-- The list that a call leaves, if it returns.
abbrev Leaves : PeerList → Option Sent → Type 0
Leaves l none = ⊥
Leaves l (some s) = Finished l s.tunnel.list

queued-Leaves :
    (l : PeerList) (o : Option Peer) (q : Peer) (f : Peer → Sent)
    → o ≡ some q
    → Finished l (f q).tunnel.list
    → Leaves l (with_queued o f)
queued-Leaves l o q f h k = subst (λ o'. Leaves l (with_queued o' f)) (sym h) k

ping_peer-Finished :
    (e : Env) (t : Tunnel) (l : PeerList) (packet : List ℕ) (p : Peer)
    → Finished l (ping_peer e t l packet p).tunnel.list
unfolding ping_peer finish_peer
ping_peer-Finished e t l packet p =
    let p' = (count_ping p e.now).1 in
    let t' = finish_peer t l p' in
    let ping = (send_ping e.host e.time t.state.addr (ip6_dst packet)).0 in
    (p', ground (arith, give_up-list e t' 3 packet ping, give_up-list e t' 3 packet []))

bubble_peer-Finished :
    (e : Env) (t : Tunnel) (l : PeerList) (packet : List ℕ) (p : Peer)
    → Finished l (bubble_peer e t l packet p).tunnel.list
unfolding bubble_peer finish_peer
bubble_peer-Finished e t l packet p =
    let p' = (count_bubble p e.now).1 in
    (p', ground (arith, give_up-list e (finish_peer t l p') 3 packet []))

transmit_native-Leaves :
    (e : Env) (t : Tunnel) (l : PeerList) (p : Peer) (packet : List ℕ)
    → e.queue_memory ≡ true
    → Leaves l (transmit_native e t l p packet)
unfolding transmit_native enqueue_out
transmit_native-Leaves e t l p packet m =
    let q = peer_queue-some e.queue_memory p packet 0 0 false m in
    queued-Leaves l _ q.0 (ping_peer e t l packet) q.1 (ping_peer-Finished e t l packet q.0)

transmit_teredo-Leaves :
    (e : Env) (t : Tunnel) (l : PeerList) (p : Peer) (packet : List ℕ)
    → e.queue_memory ≡ true
    → Leaves l (transmit_teredo e t l p packet)
unfolding transmit_teredo enqueue_out
transmit_teredo-Leaves e t l p packet m =
    let q = peer_queue-some e.queue_memory p packet 0 0 false m in
    queued-Leaves l _ q.0 (bubble_peer e t l packet) q.1 (bubble_peer-Finished e t l packet q.0)

encap-Finished :
    (e : Env) (t : Tunnel) (l : PeerList) (p : Peer) (packet : List ℕ)
    → Finished l (encap e t l p packet).tunnel.list
unfolding encap finish_peer
encap-Finished e t l p packet = (touch_transmit p e.now, refl)

-- The result of a choice between two results.
pub choice {ℓ} :
    {A : Type 0} (P : A → Type ℓ) (b : Bool) (x y : A) → P x → P y → P (if b then x else y)
choice P true x y p q = p
choice P false x y p q = q

transmit_known-Leaves :
    (e : Env) (t : Tunnel) (l : PeerList) (p : Peer) (packet : List ℕ) (to_teredo : Bool)
    → e.queue_memory ≡ true
    → Leaves l (transmit_known e t l p packet to_teredo)
unfolding transmit_known
transmit_known-Leaves e t l p packet to_teredo m =
    choice (Leaves l) (p.trusted && is_valid p e.now) _ _ (encap-Finished e t l p packet) (
      choice (Leaves l) to_teredo _ _ (transmit_teredo-Leaves e t l p packet m)
        (transmit_native-Leaves e t l p packet m))

transmit_created-Leaves :
    (e : Env) (t : Tunnel) (l : PeerList) (p : Peer) (packet : List ℕ) (to_teredo : Bool)
    → e.queue_memory ≡ true
    → Leaves l (transmit_created e t l p packet to_teredo)
unfolding transmit_created
transmit_created-Leaves e t l p packet to_teredo m =
    choice (Leaves l) to_teredo _ _ (transmit_teredo-Leaves e t l _ packet m)
      (transmit_native-Leaves e t l _ packet m)

pub Finished-IsSettled :
    (max : ℕ) (l l' : PeerList) → IsValid max l → Finished l l' → IsSettled max l'
Finished-IsSettled max l l' v (p, e) = subst (IsSettled max) (sym e) (release-IsSettled max l p v)

-- A call returns, and leaves the list settled.
abbrev pub Settles : ℕ → Option Sent → Type 0
Settles max none = ⊥
Settles max (some s) = IsSettled max s.tunnel.list

transmit_peer-Settles :
    (max : ℕ) (e : Env) (t : Tunnel) (packet : List ℕ) (to_teredo : Bool)
    → e.queue_memory ≡ true
    → IsSettled max t.list
    → Settles max (transmit_peer e t packet to_teredo)
unfolding transmit_peer
transmit_peer-Settles max e t packet to_teredo m s =
    let a = list_lookup-Answered max e.alloc t.list (ip6_dst packet) true s in
    subst
      (λ o. Settles max (elim o [
        | none ↦ none
        | some (l, null) ↦ some (record { tunnel = record t { list = l }; out = []; ok = false })
        | some (l, known) ↦ transmit_known e t l (get_peer l e.alloc.garbage) packet to_teredo
        | some (l, created) ↦ transmit_created e t l (get_peer l e.alloc.garbage) packet to_teredo
      ]))
      (sym a.returned) (by_found a.list a.found a.valid a.free)
  where
    Leaves-Settles : (l : PeerList) (o : Option Sent) → IsValid max l → Leaves l o → Settles max o
    Leaves-Settles l none v h = h
    Leaves-Settles l (some r) v h = Finished-IsSettled max l _ v h

    by_found :
        (l : PeerList) (f : Found)
        → IsValid max l
        → (f ≡ null → l.locked ≡ false)
        → Settles max (elim f [
          | null ↦ some (record { tunnel = record t { list = l }; out = []; ok = false })
          | known ↦ transmit_known e t l (get_peer l e.alloc.garbage) packet to_teredo
          | created ↦ transmit_created e t l (get_peer l e.alloc.garbage) packet to_teredo
        ])
    by_found l null v free = record { valid = v; free = free refl }
    by_found l known v free =
        Leaves-Settles l _ v (transmit_known-Leaves e t l _ packet to_teredo m)
    by_found l created v free =
        Leaves-Settles l _ v (transmit_created-Leaves e t l _ packet to_teredo m)

-- From a valid peer list with its mutex free, and if `malloc` gives memory for a packet that is to be
-- queued, `teredo_transmit` returns, whatever the packet, the tunnel, the results of the system calls
-- and those of the other allocations, and the list is valid with its mutex free again.
pub transmit-Settles :
    (max : ℕ) (e : Env) (t : Tunnel) (packet : List ℕ)
    → e.queue_memory ≡ true
    → IsSettled max t.list
    → Settles max (transmit e t packet)
unfolding transmit
transmit-Settles max e t packet m s = by_route (route t packet)
  where
    by_route :
        (r : Route)
        → Settles max (elim r [
          | discard ↦ some (record { tunnel = t; out = []; ok = true })
          | unreachable code ↦ some (give_up e t code packet [])
          | native ↦ transmit_peer e t packet false
          | teredo ↦ transmit_peer e t packet true
        ])
    by_route discard = s
    by_route (unreachable code) = subst (IsSettled max) (sym (give_up-list e t code packet [])) s
    by_route native = transmit_peer-Settles max e t packet false m s
    by_route teredo = transmit_peer-Settles max e t packet true m s
