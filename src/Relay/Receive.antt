-- ===== src/Relay/Receive.antt =====
-- `teredo_run_inner`: a packet from the tunnel.
use miredo.Prelude.{
  ltb, ◌==◌, if◌then◌else◌, length, take, ℕ, ◌+◌, ◌/◌, ◌^◌, Bool, true, false, not, ◌&&◌, ◌||◌,
  Option, none, some, List, [], ◌∷◌, ◌++◌,
}
use miredo.Net.Addr.{
  is_multicast, is_linklocal, addr_equal, teredo_restrict, teredo_ipv4, teredo_port,
  matches_teredo_client, ipport_teredo,
}
use miredo.Net.Ip6.{ip6_vfc, ip6_plen, ip6_src, ip6_dst, is_bubble}
use miredo.Udp.{TeredoPacket}
use miredo.Peer.{
  Peer, Output, deliver, maintenance, send_now, enqueue_in, with_queued, set_mapping, touch_receive,
  queue_yield, queue_emit, count_ping,
}
use miredo.PeerList.{PeerList, null, known, created, list_lookup, list_release, get_peer}
use miredo.Packets.Bubble.{reply_bubble, check_bubble}
use miredo.Packets.Ping.{send_ping, check_ping}
use miredo.Relay.{Tunnel, Env}
use miredo.Relay.Transmit.{finish_peer, reset_counters}

-- The tunnel afterwards and what went out, in order.
pub record Received : Type 0 where
  pub tunnel : Tunnel
  pub out : List Output

-- The packet as the header counts it: `length` bytes.
unfoldable pub whole : TeredoPacket → List ℕ
whole p = take (40 + ip6_plen p.ip6) p.ip6

-- `teredo_predecap`, with the packet that is handed on after the queue, if it is.
unfoldable pub accept_peer : Env → Tunnel → PeerList → Peer → List Output → Received
accept_peer e t l p after =
    let (queued, p') = queue_yield (record (touch_receive p e.now) { bubbles = 0; pings = 0 }) in
    record {
      tunnel = finish_peer t l p';
      out = queue_emit queued p.mapped_addr p.mapped_port ++ after;
    }

-- A peer that has just proved itself: trusted, at the address that the packet came from.
unfoldable pub trust : Peer → TeredoPacket → Peer
trust p packet = record (set_mapping p packet.source_ipv4 packet.source_port) { trusted = true }

-- The check of `teredo_maintenance_process`: the packet goes to the maintenance thread.
unfoldable pub is_qualification : TeredoPacket → Bool
is_qualification p =
    p.source_port == ipport_teredo && (p.auth_present && addr_equal (ip6_dst p.ip6) teredo_restrict)

-- What a client does with a packet from its server, and whether it ends there.
unfoldable pub from_server : Env → Tunnel → TeredoPacket → List Output × Bool
from_server e t p =
    let src = ip6_src p.ip6 in
    let guess = p.orig_ipv4 == 0 && (is_bubble p.ip6 && src.prefix == t.state.addr.prefix) in
    let ipv4 = if guess then teredo_ipv4 src else p.orig_ipv4 in
    let port = if guess then teredo_port src else p.orig_port in
    if p.source_ipv4 == t.state.addr.server_ip && p.source_port == ipport_teredo
    then (if ipv4 == 0
        then ([], false)
        else ((reply_bubble e.host ipv4 port p.ip6).0, is_bubble p.ip6))
    else ([], false)

-- Client case 6: the packet, which has been queued, waits for the answer to a ping.
unfoldable pub ping_source : Env → Tunnel → PeerList → TeredoPacket → Peer → Received
ping_source e t l packet p =
    let (v, p') = count_ping (touch_receive p e.now) e.now in
    record {
      tunnel = finish_peer t l p';
      out = elim v [
        | send_now ↦ (send_ping e.host e.time t.state.addr (ip6_src packet.ip6)).0
        | _ ↦ []
      ];
    }

unfoldable pub receive_native : Env → Tunnel → PeerList → Peer → TeredoPacket → Option Received
receive_native e t l p packet =
    with_queued (enqueue_in e.queue_memory p (whole packet) packet.source_ipv4 packet.source_port)
      (ping_source e t l packet)

-- Whether the source proves itself: by its mapping, or by the identifier in a bubble.
unfoldable pub is_proved : Env → TeredoPacket → Bool
is_proved e p =
    matches_teredo_client (ip6_src p.ip6) p.source_ipv4 p.source_port
    || (is_bubble p.ip6 && check_bubble e.host p.ip6)

-- The packet for the stack, unless it is a bubble.
unfoldable pub unless_bubble : TeredoPacket → List Output
unless_bubble p = if is_bubble p.ip6 then [] else deliver (whole p) ∷ []

-- A packet whose source is not in the list.
unfoldable pub receive_unknown : Env → Tunnel → PeerList → TeredoPacket → Option Received
receive_unknown e t l p =
    let src = ip6_src p.ip6 in
    let dropped : Received = record { tunnel = record t { list = l }; out = [] } in
    if src.prefix == t.state.addr.prefix
    then (if is_proved e p && t.is_client
        then (elim (list_lookup e.alloc' l src true) [
          | none ↦ none
          | some (l', null) ↦ some (record { tunnel = record t { list = l' }; out = [] })
          | some (l', _) ↦
              some (accept_peer e t l' (trust (get_peer l' e.alloc'.garbage) p) (unless_bubble p))
        ])
        else some dropped)
    else elim (list_lookup e.alloc' l src true) [
      | none ↦ none
      | some (l', null) ↦ some (record { tunnel = record t { list = l' }; out = [] })
      | some (l', known) ↦ receive_native e t l' (get_peer l' e.alloc'.garbage) p
      | some (l', created) ↦
          receive_native e t l' (set_mapping (reset_counters (get_peer l' e.alloc'.garbage)) 0 0) p
    ]

-- A packet whose source is peer `q` of the list.
unfoldable pub receive_known : Env → Tunnel → PeerList → Peer → TeredoPacket → Option Received
receive_known e t l q p =
    let src = ip6_src p.ip6 in
    if q.trusted && (p.source_ipv4 == q.mapped_addr && p.source_port == q.mapped_port)
    then some (accept_peer e t l q (deliver (whole p) ∷ []))
    else if t.is_client && check_ping e.host e.time p.ip6
    then some (accept_peer e t l (trust q p) [])
    else if src.prefix == t.state.addr.prefix
    then (if is_proved e p
        then some (accept_peer e t l (trust q p) (unless_bubble p))
        else some (record { tunnel = record t { list = list_release l }; out = [] }))
    else receive_native e t l q p

-- The lookup and what follows. `none`: the call does not return, since it waits for the mutex of the
-- peer list, or writes through a null pointer in `teredo_peer_queue`.
unfoldable pub receive_peer : Env → Tunnel → TeredoPacket → Option Received
receive_peer e t p = elim (list_lookup e.alloc t.list (ip6_src p.ip6) false) [
  | none ↦ none
  | some (l, null) ↦ receive_unknown e t l p
  | some (l, _) ↦ receive_known e t l (get_peer l e.alloc.garbage) p
]

-- What the checks before the lookup decide, with what they send.
pub data Admission : Type 0 where
  stop : List Output → Admission
  admit : List Output → Admission

unfoldable pub admit_client : Env → Tunnel → TeredoPacket → Admission
admit_client e t p =
    let (bubble, done) = from_server e t p in
    if is_qualification p
    then stop (maintenance p.ip6 ∷ [])
    else if not t.state.up
    then stop []
    else if done || is_linklocal (ip6_src p.ip6)
    then stop bubble
    else admit bubble

unfoldable pub admission : Env → Tunnel → TeredoPacket → Admission
admission e t p =
    if ltb (length p.ip6) 40
    then stop []
    else if not (ip6_vfc p.ip6 / 2 ^ 4 == 6) || ltb (length p.ip6) (40 + ip6_plen p.ip6)
    then stop []
    else if t.is_client
    then admit_client e t p
    else if not ((ip6_src p.ip6).prefix == t.state.addr.prefix)
    then stop []
    else admit []

unfoldable pub receive : Env → Tunnel → TeredoPacket → Option Received
receive e t p = elim (admission e t p) [
  | stop out ↦ some (record { tunnel = t; out = out })
  | admit out ↦
      if is_multicast (ip6_dst p.ip6)
      then some (record { tunnel = t; out = out })
      else elim (receive_peer e t p) [
        | none ↦ none
        | some r ↦ some (record { tunnel = r.tunnel; out = out ++ r.out })
      ]
]
