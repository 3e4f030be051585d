-- ===== src/Relay/Returns.antt =====
-- The same for packets from the tunnel: the lock of the peer list in `teredo_run_inner`.
use miredo.Packets.Ping.{check_ping}
use miredo.Prelude.{
  ◌==◌, if◌then◌else◌, ℕ, ◌≡◌, refl, sym, subst, true, false, ◌&&◌, Option, none, some, List, [],
  ◌∷◌, ◌++◌,
}
use miredo.Net.Addr.{is_multicast}
use miredo.PeerList.Calls.{list_release-IsValid}
use miredo.Net.Ip6.{ip6_dst, ip6_src}
use miredo.Relay.Transmit.{finish_peer, reset_counters}
use miredo.PeerList.{PeerList, Found, null, known, created, list_lookup, list_release, get_peer}
use miredo.PeerList.Inv.{IsValid}
use miredo.PeerList.Lock.{IsSettled, list_lookup-Answered}
use miredo.Peer.Queue.{peer_queue-some}
use miredo.Peer.{
  set_mapping, deliver, enqueue_in, with_queued, touch_receive, queue_yield, count_ping, Peer,
  Output,
}
use miredo.Udp.{TeredoPacket}
use miredo.Relay.{Tunnel, Env}
use miredo.Relay.Settled.{Finished, Finished-IsSettled, choice}
use miredo.Relay.Receive.{
  is_proved, admission, admit, stop, Admission, receive, receive_peer, whole, Received, accept_peer,
  trust, receive_native, ping_source, receive_unknown, receive_known, unless_bubble,
}

abbrev Ends : PeerList → Received → Type 0
Ends l r = Finished l r.tunnel.list

accept_peer-Ends :
    (e : Env) (t : Tunnel) (l : PeerList) (p : Peer) (after : List Output)
    → Ends l (accept_peer e t l p after)
unfolding accept_peer finish_peer
accept_peer-Ends e t l p after =
    ((queue_yield (record (touch_receive p e.now) { bubbles = 0; pings = 0 })).1, refl)

ping_source-Ends :
    (e : Env) (t : Tunnel) (l : PeerList) (p : TeredoPacket) (q : Peer)
    → Ends l (ping_source e t l p q)
unfolding ping_source finish_peer
ping_source-Ends e t l p q = ((count_ping (touch_receive q e.now) e.now).1, refl)

-- The list that is left is settled.
pub record IsCalm (max : ℕ) (r : Received) : Type 0 where
  pub settled : IsSettled max r.tunnel.list

calm : (max : ℕ) (l : PeerList) (r : Received) → IsValid max l → Ends l r → IsCalm max r
calm max l r v h = record { settled = Finished-IsSettled max l r.tunnel.list v h }

-- A call returns, and leaves the list settled.
abbrev pub Settles : ℕ → Option Received → Type 0
Settles max none = ⊥
Settles max (some r) = IsCalm max r

receive_native-Settles :
    (max : ℕ) (e : Env) (t : Tunnel) (l : PeerList) (q : Peer) (p : TeredoPacket)
    → e.queue_memory ≡ true
    → IsValid max l
    → Settles max (receive_native e t l q p)
unfolding receive_native enqueue_in
receive_native-Settles max e t l q p m v =
    let x = peer_queue-some e.queue_memory q (whole p) p.source_ipv4 p.source_port true m in
    subst (λ o. Settles max (with_queued o (ping_source e t l p))) (sym x.1)
      (calm max l (ping_source e t l p x.0) v (ping_source-Ends e t l p x.0))

receive_known-Settles :
    (max : ℕ) (e : Env) (t : Tunnel) (l : PeerList) (q : Peer) (p : TeredoPacket)
    → e.queue_memory ≡ true
    → IsValid max l
    → Settles max (receive_known e t l q p)
unfolding receive_known list_release
receive_known-Settles max e t l q p m v =
    let accepted = λ (q' : Peer) (after : List Output).
      calm max l (accept_peer e t l q' after) v (accept_peer-Ends e t l q' after) in
    choice (Settles max)
      (q.trusted && (p.source_ipv4 == q.mapped_addr && p.source_port == q.mapped_port)) _ _
      (accepted q (deliver (whole p) ∷ []))
      (choice (Settles max) (t.is_client && check_ping e.host e.time p.ip6) _ _
        (accepted (trust q p) [])
        (choice (Settles max) ((ip6_src p.ip6).prefix == t.state.addr.prefix) _ _
          (choice (Settles max) (is_proved e p) _ _ (accepted (trust q p) (unless_bubble p))
            released)
          (receive_native-Settles max e t l q p m v)))
  where
    released : IsCalm max (record { tunnel = record t { list = list_release l }; out = [] })
    released = record { settled = record { valid = list_release-IsValid max l v; free = refl } }

-- A second lookup, made when the first found nothing.
second_lookup :
    (max : ℕ) (e : Env) (t : Tunnel) (l : PeerList) (p : TeredoPacket)
    (f : PeerList → Option Received) (g : PeerList → Option Received)
    → IsSettled max l
    → ((l' : PeerList) → IsValid max l' → Settles max (f l'))
    → ((l' : PeerList) → IsValid max l' → Settles max (g l'))
    → Settles max (elim (list_lookup e.alloc' l (ip6_src p.ip6) true) [
      | none ↦ none
      | some (l', null) ↦ some (record { tunnel = record t { list = l' }; out = [] })
      | some (l', known) ↦ f l'
      | some (l', created) ↦ g l'
    ])
second_lookup max e t l p f g s hf hg =
    let a = list_lookup-Answered max e.alloc' l (ip6_src p.ip6) true s in
    subst
      (λ o. Settles max (elim o [
        | none ↦ none
        | some (l', null) ↦ some (record { tunnel = record t { list = l' }; out = [] })
        | some (l', known) ↦ f l'
        | some (l', created) ↦ g l'
      ]))
      (sym a.returned) (by_found a.list a.found a.valid a.free)
  where
    by_found :
        (l' : PeerList) (x : Found)
        → IsValid max l'
        → (x ≡ null → l'.locked ≡ false)
        → Settles max (elim x [
          | null ↦ some (record { tunnel = record t { list = l' }; out = [] })
          | known ↦ f l'
          | created ↦ g l'
        ])
    by_found l' null v free = record { settled = record { valid = v; free = free refl } }
    by_found l' known v free = hf l' v
    by_found l' created v free = hg l' v

receive_unknown-Settles :
    (max : ℕ) (e : Env) (t : Tunnel) (l : PeerList) (p : TeredoPacket)
    → e.queue_memory ≡ true
    → IsSettled max l
    → Settles max (receive_unknown e t l p)
unfolding receive_unknown
receive_unknown-Settles max e t l p m s =
    choice (Settles max) ((ip6_src p.ip6).prefix == t.state.addr.prefix) _ _
      (choice (Settles max) (is_proved e p && t.is_client) _
        (some (record { tunnel = record t { list = l }; out = [] }))
        (second_lookup max e t l p accept accept s accepted accepted) (record { settled = s }))
      (second_lookup max e t l p (λ l'. receive_native e t l' (get_peer l' e.alloc'.garbage) p)
        (λ l'. receive_native e t l' (blank l') p) s
        (λ l' v. receive_native-Settles max e t l' (get_peer l' e.alloc'.garbage) p m v)
        (λ l' v. receive_native-Settles max e t l' (blank l') p m v))
  where
    blank : PeerList → Peer
    blank l' = set_mapping (reset_counters (get_peer l' e.alloc'.garbage)) 0 0

    accept : PeerList → Option Received
    accept l' = some (accept_peer e t l' (trust (get_peer l' e.alloc'.garbage) p) (unless_bubble p))

    accepted :
        (l' : PeerList)
        → IsValid max l'
        → IsCalm max (accept_peer e t l' (trust (get_peer l' e.alloc'.garbage) p) (unless_bubble p))
    accepted l' v = calm max l' _ v (accept_peer-Ends e t l' _ (unless_bubble p))

receive_peer-Settles :
    (max : ℕ) (e : Env) (t : Tunnel) (p : TeredoPacket)
    → e.queue_memory ≡ true
    → IsSettled max t.list
    → Settles max (receive_peer e t p)
unfolding receive_peer
receive_peer-Settles max e t p m s =
    let a = list_lookup-Answered max e.alloc t.list (ip6_src p.ip6) false s in
    subst
      (λ o. Settles max (elim o [
        | none ↦ none
        | some (l, null) ↦ receive_unknown e t l p
        | some (l, known) ↦ receive_known e t l (get_peer l e.alloc.garbage) p
        | some (l, created) ↦ receive_known e t l (get_peer l e.alloc.garbage) p
      ]))
      (sym a.returned) (by_found a.list a.found a.valid a.free)
  where
    by_found :
        (l : PeerList) (x : Found)
        → IsValid max l
        → (x ≡ null → l.locked ≡ false)
        → Settles max (elim x [
          | null ↦ receive_unknown e t l p
          | known ↦ receive_known e t l (get_peer l e.alloc.garbage) p
          | created ↦ receive_known e t l (get_peer l e.alloc.garbage) p
        ])
    by_found l null v free =
        receive_unknown-Settles max e t l p m (record { valid = v; free = free refl })
    by_found l known v free = receive_known-Settles max e t l _ p m v
    by_found l created v free = receive_known-Settles max e t l _ p m v

with_out :
    (max : ℕ) (o : Option Received) (out : List Output)
    → Settles max o
    → Settles max
        (elim o [ none ↦ none | some r ↦ some (record { tunnel = r.tunnel; out = out ++ r.out }) ])
with_out max none out h = h
with_out max (some r) out h = record { settled = h.settled }

pub receive-Settles :
    (max : ℕ) (e : Env) (t : Tunnel) (p : TeredoPacket)
    → e.queue_memory ≡ true
    → IsSettled max t.list
    → Settles max (receive e t p)
unfolding receive
receive-Settles max e t p m s = by_admission (admission e t p)
  where
    by_admission :
        (a : Admission)
        → Settles max (elim a [
          | stop out ↦ some (record { tunnel = t; out = out })
          | admit out ↦
              if is_multicast (ip6_dst p.ip6)
              then some (record { tunnel = t; out = out })
              else elim (receive_peer e t p) [
                | none ↦ none
                | some r ↦ some (record { tunnel = r.tunnel; out = out ++ r.out })
              ]
        ])
    by_admission (stop out) = record { settled = s }
    by_admission (admit out) =
        choice (Settles max) (is_multicast (ip6_dst p.ip6))
          (some (record { tunnel = t; out = out })) _ (record { settled = s })
          (with_out max (receive_peer e t p) out (receive_peer-Settles max e t p m s))
