-- ===== src/Relay/Strangers.antt =====
-- What the tunnel hands to the IPv6 stack of a packet from a node that it does not know.
use miredo.Prelude.{
  ◌==◌, if◌then◌else◌, ℕ, ◌≡◌, refl, sym, ap, subst, ◌∙◌, Bool, true, false, ◌&&◌, Option, none,
  some, List, [], ◌∷◌, ◌++◌, arith,
}
use miredo.Net.Addr.{is_multicast}
use miredo.PeerList.View.{Looked-Answers, view}
use miredo.PeerList.Inv.{list_lookup-Looked, IsValid}
use miredo.Packets.Bubble.{send_bubble, reply_bubble}
use miredo.Udp.{TeredoPacket}
use miredo.Net.Ip6.{ip6_dst, ip6_src}
use miredo.Peer.{
  with_queued, enqueue_in, Peer, Output, udp, deliver, icmpv6, maintenance, set_mapping,
}
use miredo.PeerList.{PeerList, Found, null, known, created, Alloc, list_lookup, get_peer}
use miredo.Packets.Ping.{send_ping}
use miredo.Relay.{Tunnel, Env}
use miredo.Relay.Settled.{choice}
use miredo.Relay.Transmit.{reset_counters}
use miredo.Relay.Receive.{
  receive_known, admit, admit_client, stop, from_server, Admission, admission, receive_peer,
  receive, accept_peer, trust, unless_bubble, Received, is_proved, receive_unknown, receive_native,
  ping_source, whole,
}

-- The packets for the stack among what leaves the program.
abbrev pub delivered : List Output → List (List ℕ)
delivered [] = []
delivered (deliver packet ∷ os) = packet ∷ delivered os
delivered (o ∷ os) = delivered os

-- The packets that a call hands to the stack, if it returns.
abbrev pub delivered_by : Option Received → List (List ℕ)
delivered_by none = []
delivered_by (some r) = delivered r.out

record IsQuiet (o : Option Received) : Type 0 where
  nothing : delivered_by o ≡ []

delivered-append : (xs ys : List Output) → delivered (xs ++ ys) ≡ delivered xs ++ delivered ys
delivered-append [] ys = refl
delivered-append (deliver packet ∷ xs) ys = ap (◌∷◌ packet) (delivered-append xs ys)
delivered-append (udp ip port m ∷ xs) ys = delivered-append xs ys
delivered-append (icmpv6 m a ∷ xs) ys = delivered-append xs ys
delivered-append (maintenance m ∷ xs) ys = delivered-append xs ys

source-IsQuiet :
    (e : Env) (t : Tunnel) (l : PeerList) (p : TeredoPacket) (q : Peer)
    → delivered (ping_source e t l p q).out ≡ []
unfolding ping_source send_ping
source-IsQuiet e t l p q = ground arith

native-IsQuiet :
    (e : Env) (t : Tunnel) (l : PeerList) (q : Peer) (p : TeredoPacket)
    → IsQuiet (receive_native e t l q p)
unfolding receive_native
native-IsQuiet e t l q p =
    by_queued (enqueue_in e.queue_memory q (whole p) p.source_ipv4 p.source_port)
  where
    by_queued : (o : Option Peer) → IsQuiet (with_queued o (ping_source e t l p))
    by_queued none = record { nothing = refl }
    by_queued (some q') = record { nothing = source-IsQuiet e t l p q' }

unknown-IsQuiet :
    (e : Env) (t : Tunnel) (l : PeerList) (p : TeredoPacket)
    → is_proved e p ≡ false
    → IsQuiet (receive_unknown e t l p)
unfolding receive_unknown
unknown-IsQuiet e t l p h =
    choice IsQuiet ((ip6_src p.ip6).prefix == t.state.addr.prefix) _ _ (refused (is_proved e p) h)
      (second (list_lookup e.alloc' l (ip6_src p.ip6) true))
  where
    accepted : Option Received
    accepted = elim (list_lookup e.alloc' l (ip6_src p.ip6) true) [
      | none ↦ none
      | some (l', null) ↦ some (record { tunnel = record t { list = l' }; out = [] })
      | some (l', _) ↦
          some (accept_peer e t l' (trust (get_peer l' e.alloc'.garbage) p) (unless_bubble p))
    ]

    refused :
        (b : Bool)
        → b ≡ false
        → IsQuiet (
            if b && t.is_client
            then accepted
            else some (record { tunnel = record t { list = l }; out = [] }))
    refused b k =
        subst
          (λ c. IsQuiet (
            if c && t.is_client
            then accepted
            else some (record { tunnel = record t { list = l }; out = [] })))
          (sym k) (record { nothing = refl })

    second :
        (o : Option (PeerList × Found))
        → IsQuiet (elim o [
          | none ↦ none
          | some (l', null) ↦ some (record { tunnel = record t { list = l' }; out = [] })
          | some (l', known) ↦ receive_native e t l' (get_peer l' e.alloc'.garbage) p
          | some (l', created) ↦
              receive_native e t l'
                (set_mapping (reset_counters (get_peer l' e.alloc'.garbage)) 0 0)
                p
        ])
    second none = record { nothing = refl }
    second (some (l', null)) = record { nothing = refl }
    second (some (l', known)) = native-IsQuiet e t l' _ p
    second (some (l', created)) = native-IsQuiet e t l' _ p

-- The first lookup does not make a node.
not_created :
    (m : Alloc) (l l' : PeerList) (p : TeredoPacket)
    → list_lookup m l (ip6_src p.ip6) false ≡ some (l', created)
    → ⊥
unfolding list_lookup
not_created m l l' p h = ground arith

peer-IsQuiet :
    (max : ℕ) (e : Env) (t : Tunnel) (p : TeredoPacket)
    → IsValid max t.list
    → view t.list (ip6_src p.ip6) ≡ none
    → is_proved e p ≡ false
    → IsQuiet (receive_peer e t p)
unfolding receive_peer
peer-IsQuiet max e t p v absent h =
    by_lookup (list_lookup e.alloc t.list (ip6_src p.ip6) false) refl
  where
    not_both :
        (o : Option Peer) {q : Peer} → o ≡ none → o ≡ some q → (r : Option Received) → IsQuiet r
    not_both none a b r = ground arith
    not_both (some x) a b r = ground arith

    by_lookup :
        (o : Option (PeerList × Found))
        → list_lookup e.alloc t.list (ip6_src p.ip6) false ≡ o
        → IsQuiet (elim o [
          | none ↦ none
          | some (l, null) ↦ receive_unknown e t l p
          | some (l, known) ↦ receive_known e t l (get_peer l e.alloc.garbage) p
          | some (l, created) ↦ receive_known e t l (get_peer l e.alloc.garbage) p
        ])
    by_lookup none k = record { nothing = refl }
    by_lookup (some (l, null)) k = unknown-IsQuiet e t l p h
    by_lookup (some (l, known)) k =
        let found =
          Looked-Answers e.alloc t.list (ip6_src p.ip6) l known
            (list_lookup-Looked max e.alloc t.list (ip6_src p.ip6) false l known v k) in
        not_both (view t.list (ip6_src p.ip6)) absent found.0 _
    by_lookup (some (l, created)) k = absurd (not_created e.alloc t.list l p k)

-- What the checks before the lookup send.
abbrev sent_first : Admission → List Output
sent_first (stop out) = out
sent_first (admit out) = out

server-IsQuiet : (e : Env) (t : Tunnel) (p : TeredoPacket) → delivered (from_server e t p).0 ≡ []
unfolding from_server reply_bubble send_bubble
server-IsQuiet e t p = ground arith

admission-IsQuiet :
    (e : Env) (t : Tunnel) (p : TeredoPacket) → delivered (sent_first (admission e t p)) ≡ []
unfolding admission admit_client
admission-IsQuiet e t p = ground (arith, server-IsQuiet e t p)

-- The call of `teredo_run_inner` for a packet whose source is not among the peers of a valid list and
-- does not prove itself, by its mapped address or by the identifier in a bubble, hands nothing to the
-- IPv6 stack in that call; that a client queues the packet for later is not excluded.
pub receive-delivered :
    (max : ℕ) (e : Env) (t : Tunnel) (p : TeredoPacket)
    → IsValid max t.list
    → view t.list (ip6_src p.ip6) ≡ none
    → is_proved e p ≡ false
    → delivered_by (receive e t p) ≡ []
unfolding receive
receive-delivered max e t p v absent h =
    (by_admission (admission e t p) (admission-IsQuiet e t p)).nothing
  where
    with_out :
        (o : Option Received) (out : List Output)
        → delivered out ≡ []
        → IsQuiet o
        → IsQuiet (elim o [
          | none ↦ none
          | some r ↦ some (record { tunnel = r.tunnel; out = out ++ r.out })
        ])
    with_out none out k q = q
    with_out (some r) out k q = record {
      nothing = delivered-append out r.out ∙ ap (λ xs. xs ++ delivered r.out) k ∙ q.nothing;
    }

    by_admission :
        (a : Admission)
        → delivered (sent_first a) ≡ []
        → IsQuiet (elim a [
          | stop out ↦ some (record { tunnel = t; out = out })
          | admit out ↦
              if is_multicast (ip6_dst p.ip6)
              then some (record { tunnel = t; out = out })
              else elim (receive_peer e t p) [
                | none ↦ none
                | some r ↦ some (record { tunnel = r.tunnel; out = out ++ r.out })
              ]
        ])
    by_admission (stop out) k = record { nothing = k }
    by_admission (admit out) k =
        choice IsQuiet (is_multicast (ip6_dst p.ip6)) (some (record { tunnel = t; out = out })) _
          (record { nothing = k })
          (with_out (receive_peer e t p) out k (peer-IsQuiet max e t p v absent h))
