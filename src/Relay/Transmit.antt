-- ===== src/Relay/Transmit.antt =====
-- `teredo_transmit`: a packet from the IPv6 stack to a peer.
use miredo.Prelude.Word.{bit_at}
use miredo.Prelude.{
  ◌==◌, if◌then◌else◌, length, ℕ, Bool, true, false, not, ◌&&◌, ◌||◌, Option, none, some, List, [],
  ◌∷◌, ◌++◌,
}
use miredo.Net.Ipv4.{is_ipv4_global_unicast}
use miredo.Net.Addr.{is_multicast, teredo_ipv4, teredo_port}
use miredo.Net.Ip6.{ip6_src, ip6_dst}
use miredo.Peer.{
  Peer, Output, udp, send_now, too_soon, too_many, enqueue_out, with_queued, set_mapping,
  touch_transmit, is_valid, count_ping, count_bubble,
}
use miredo.PeerList.{PeerList, null, known, created, list_lookup, list_release, put_peer, get_peer}
use miredo.Packets.{is_count}
use miredo.Packets.Bubble.{send_bubble_from_dst}
use miredo.Packets.Ping.{send_ping}
use miredo.Relay.{Tunnel, Env, send_unreach, unreach_admin, unreach_addr}

-- What the checks before the lookup decide.
pub data Route : Type 0 where
  discard : Route
  unreachable : ℕ → Route
  native : Route
  teredo : Route

unfoldable pub route : Tunnel → List ℕ → Route
route t packet =
    let dst = ip6_dst packet in
    if is_multicast dst
    then discard
    else if t.is_client && not t.state.up
    then unreachable unreach_addr
    else if not (dst.prefix == t.state.addr.prefix)
    then (if t.is_client
        then (if not ((ip6_src packet).prefix == t.state.addr.prefix)
            then unreachable unreach_admin
            else native)
        else unreachable unreach_addr)
    else if not (is_ipv4_global_unicast dst.server_ip) || dst.server_ip == 0
    then discard
    else teredo

-- The tunnel and what went out, and whether the function returns 0.
pub record Sent : Type 0 where
  pub tunnel : Tunnel
  pub out : List Output
  pub ok : Bool

-- The tunnel after the peer at hand has been written and the list released.
unfoldable pub finish_peer : Tunnel → PeerList → Peer → Tunnel
finish_peer t l p = record t { list = list_release (put_peer l p) }

-- `teredo_encap`
unfoldable pub encap : Env → Tunnel → PeerList → Peer → List ℕ → Sent
encap e t l p packet = record {
  tunnel = finish_peer t l (touch_transmit p e.now);
  out = udp p.mapped_addr p.mapped_port packet ∷ [];
  ok = is_count (length packet) (e.host.sendv p.mapped_addr p.mapped_port packet);
}

-- An unreachable error, after which the function returns 0.
unfoldable pub give_up : Env → Tunnel → ℕ → List ℕ → List Output → Sent
give_up e t code packet out =
    let (t', more) = send_unreach e t code packet in
    record { tunnel = t'; out = out ++ more; ok = true }

-- A peer that was made by the lookup starts untrusted with no bubble and no ping.
unfoldable pub reset_counters : Peer → Peer
reset_counters p = record p { trusted = false; bubbles = 0; pings = 0 }

-- Client case 2: the packet, which has been queued, waits for the answer to a ping.
unfoldable pub ping_peer : Env → Tunnel → PeerList → List ℕ → Peer → Sent
ping_peer e t l packet p =
    let (v, p') = count_ping p e.now in
    let t' = finish_peer t l p' in
    let (ping, sent) = send_ping e.host e.time t.state.addr (ip6_dst packet) in
    elim v [
      | send_now ↦
          if sent
          then record { tunnel = t'; out = ping; ok = true }
          else give_up e t' unreach_addr packet ping
      | too_soon ↦ record { tunnel = t'; out = []; ok = true }
      | too_many ↦ give_up e t' unreach_addr packet []
    ]

unfoldable pub transmit_native : Env → Tunnel → PeerList → Peer → List ℕ → Option Sent
transmit_native e t l p packet =
    with_queued (enqueue_out e.queue_memory p packet) (ping_peer e t l packet)

-- Client case 5 and relay case 3: the packet, which has been queued, waits for the answer to a bubble.
unfoldable pub bubble_peer : Env → Tunnel → PeerList → List ℕ → Peer → Sent
bubble_peer e t l packet p =
    let (v, p') = count_bubble p e.now in
    let t' = finish_peer t l p' in
    let (direct, direct_ok) = send_bubble_from_dst e.host (ip6_dst packet) false in
    let (relayed, relayed_ok) = send_bubble_from_dst e.host (ip6_dst packet) true in
    elim v [
      | send_now ↦
          if bit_at t.state.addr.flags 15 == 0
          then (if direct_ok
              then record { tunnel = t'; out = direct ++ relayed; ok = relayed_ok }
              else record { tunnel = t'; out = direct; ok = false })
          else record { tunnel = t'; out = relayed; ok = relayed_ok }
      | too_soon ↦ record { tunnel = t'; out = []; ok = true }
      | too_many ↦ give_up e t' unreach_addr packet []
    ]

unfoldable pub transmit_teredo : Env → Tunnel → PeerList → Peer → List ℕ → Option Sent
transmit_teredo e t l p packet =
    with_queued (enqueue_out e.queue_memory p packet) (bubble_peer e t l packet)

-- What is done with a peer that the lookup returned.
unfoldable pub transmit_known : Env → Tunnel → PeerList → Peer → List ℕ → Bool → Option Sent
transmit_known e t l p packet to_teredo =
    if p.trusted && is_valid p e.now
    then some (encap e t l p packet)
    else if to_teredo
    then transmit_teredo e t l p packet
    else transmit_native e t l p packet

unfoldable pub transmit_created : Env → Tunnel → PeerList → Peer → List ℕ → Bool → Option Sent
transmit_created e t l p packet to_teredo =
    let dst = ip6_dst packet in
    let p' = reset_counters p in
    if to_teredo
    then transmit_teredo e t l (set_mapping p' (teredo_ipv4 dst) (teredo_port dst)) packet
    else transmit_native e t l (set_mapping p' 0 0) packet

-- The lookup and what follows. `none`: the call does not return, since it waits for the mutex of the
-- peer list, or writes through a null pointer in `teredo_peer_queue`.
unfoldable pub transmit_peer : Env → Tunnel → List ℕ → Bool → Option Sent
transmit_peer e t packet to_teredo = elim (list_lookup e.alloc t.list (ip6_dst packet) true) [
  | none ↦ none
  | some (l, null) ↦ some (record { tunnel = record t { list = l }; out = []; ok = false })
  | some (l, known) ↦ transmit_known e t l (get_peer l e.alloc.garbage) packet to_teredo
  | some (l, created) ↦ transmit_created e t l (get_peer l e.alloc.garbage) packet to_teredo
]

unfoldable pub transmit : Env → Tunnel → List ℕ → Option Sent
transmit e t packet = elim (route t packet) [
  | discard ↦ some (record { tunnel = t; out = []; ok = true })
  | unreachable code ↦ some (give_up e t code packet [])
  | native ↦ transmit_peer e t packet false
  | teredo ↦ transmit_peer e t packet true
]
