-- ===== src/Relay.antt =====
-- libteredo/relay.c: the tunnel that a relay or a client is. A function on it takes what the
-- outside gives (`Env`) and returns the new tunnel with what leaves the program, in order. The
-- teredo state is read once, at the start, as the code copies it under its lock.
pub mod Transmit
pub mod Receive
pub mod Settled
pub mod Returns
pub mod Limiter
pub mod Strangers
pub mod Control
use miredo.Prelude.{◌==◌, if◌then◌else◌, length, ℕ, ◌-◌, ◌/◌, Bool, List, [], ◌∷◌}
use miredo.Net.Addr.{Addr}
use miredo.Net.Ip6.{ip6_src, icmp6_dst_unreach}
use miredo.PeerList.{PeerList, Alloc}
use miredo.Peer.{Output, icmpv6}
use miredo.Packets.{Host}
use miredo.Packets.Error.{build_icmpv6_error}

-- `teredo_state` of libteredo/maintain.h
pub record TeredoState : Type 0 where
  pub addr : Addr
  pub mtu : ℕ
  pub ipv4 : ℕ
  pub up : Bool

-- `struct teredo_tunnel`; `is_client` is `IsClient`: a maintenance thread runs.
pub record Tunnel : Type 0 where
  pub list : PeerList
  pub state : TeredoState
  pub is_client : Bool
  pub count : ℕ
  pub last : ℕ

-- The process, `teredo_clock`, `time`, the allocator at the first and the second lookup and for a packet
-- that is queued, and the byte of the buffer behind the packet.
pub record Env : Type 0 where
  pub host : Host
  pub now : ℕ
  pub time : ℕ
  pub alloc : Alloc
  pub alloc' : Alloc
  pub queue_memory : Bool
  pub behind : ℕ

-- The codes ICMP6_DST_UNREACH_ADMIN and ICMP6_DST_UNREACH_ADDR
abbrev pub unreach_admin : ℕ
unreach_admin = 1

abbrev pub unreach_addr : ℕ
unreach_addr = 3

-- The state of the rate limiter when an error is about to go out at `now`.
unfoldable pub refill : Tunnel → ℕ → Tunnel
refill t now = if now == t.last then t else record t { last = now; count = 1000 / 100 }

-- `teredo_send_unreach`
unfoldable pub send_unreach : Env → Tunnel → ℕ → List ℕ → Tunnel × List Output
unfolding refill
send_unreach e t code packet =
    let t' = refill t e.now in
    if t'.count == 0 then (t', []) else (
      record t' { count = t'.count - 1 },
      icmpv6 (build_icmpv6_error e.behind icmp6_dst_unreach code packet (length packet))
            (ip6_src packet)
          ∷ [],
    )
