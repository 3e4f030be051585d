-- ===== src/Peer.antt =====
-- libteredo/peerlist.h and peerlist.c: one peer, its packet queue, and the counters of
-- libteredo/relay.c that limit bubbles and pings. A clock value is an `unsigned long` of 64 bits.
pub mod Rate
pub mod Queue
use miredo.Net.Addr.{Addr}
use miredo.Prelude.{
  ltb, leb, ◌==◌, if◌then◌else◌, length, ℕ, ◌+◌, ◌-◌, ◌%◌, ◌^◌, Bool, true, false, ◌&&◌, Option,
  none, some, List, [], ◌∷◌,
}

-- `struct teredo_queue`
pub record Queued : Type 0 where
  pub payload : List ℕ
  pub ipv4 : ℕ
  pub port : ℕ
  pub incoming : Bool

-- `struct teredo_peer`; the queue's newest packet is first.
pub record Peer : Type 0 where
  pub queue : List Queued
  pub queue_left : ℕ
  pub last_rx : ℕ
  pub last_tx : ℕ
  pub mapped_addr : ℕ
  pub mapped_port : ℕ
  pub trusted : Bool
  pub bubbles : ℕ
  pub pings : ℕ
  pub last_ping : ℕ

abbrev pub max_queue_bytes : ℕ
max_queue_bytes = 1280

-- `now - then` on an `unsigned long`
abbrev pub elapsed : ℕ → ℕ → ℕ
elapsed now past = (now + 2 ^ 64 - past) % 2 ^ 64

-- `teredo_peer_init` on what `malloc` returned.
unfoldable pub peer_init : Peer → Peer
peer_init garbage = record garbage { queue = []; queue_left = max_queue_bytes }

-- `teredo_peer_queue`, by whether `malloc` gives memory. `none`: it does not, which the code does not
-- test, and writes through a null pointer.
unfoldable pub peer_queue : Bool → Peer → List ℕ → ℕ → ℕ → Bool → Option Peer
peer_queue memory p bytes ip port incoming =
    if ltb p.queue_left (length bytes)
    then some p
    else if memory
    then some (record p {
      queue = record { payload = bytes; ipv4 = ip; port = port; incoming = incoming } ∷ p.queue;
      queue_left = p.queue_left - length bytes;
    })
    else none

-- `teredo_enqueue_in`, `teredo_enqueue_out`
unfoldable pub enqueue_in : Bool → Peer → List ℕ → ℕ → ℕ → Option Peer
unfolding peer_queue
enqueue_in memory p bytes ip port = peer_queue memory p bytes ip port true

unfoldable pub enqueue_out : Bool → Peer → List ℕ → Option Peer
unfolding peer_queue
enqueue_out memory p bytes = peer_queue memory p bytes 0 0 false

-- What follows when a packet has been queued.
abbrev pub with_queued : {A : Type 0} → Option Peer → (Peer → A) → Option A
with_queued none f = none
with_queued (some p) f = some (f p)

-- `teredo_peer_queue_yield`
unfoldable pub queue_yield : Peer → List Queued × Peer
queue_yield p = (p.queue, record p { queue = []; queue_left = max_queue_bytes })

-- What leaves the program through a tunnel: a UDP datagram, a packet for the IPv6 stack, or an
-- ICMPv6 error for the stack to send to an address; or what goes to the maintenance thread.
pub data Output : Type 0 where
  udp : ℕ → ℕ → List ℕ → Output
  deliver : List ℕ → Output
  icmpv6 : List ℕ → Addr → Output
  maintenance : List ℕ → Output

-- `teredo_queue_emit`: a packet that came in is handed on if it came from the mapping that has
-- been verified; one that waited to go out is sent there.
unfoldable pub queue_emit : List Queued → ℕ → ℕ → List Output
queue_emit [] ipv4 port = []
queue_emit (q ∷ qs) ipv4 port =
    let rest = queue_emit qs ipv4 port in
    if q.incoming
    then (if ipv4 == q.ipv4 && port == q.port then deliver q.payload ∷ rest else rest)
    else udp ipv4 port q.payload ∷ rest

-- `SetMapping`, `TouchReceive`, `TouchTransmit`, `IsValid`
unfoldable pub set_mapping : Peer → ℕ → ℕ → Peer
set_mapping p ip port = record p { mapped_addr = ip; mapped_port = port }

unfoldable pub touch_receive : Peer → ℕ → Peer
touch_receive p now = record p { last_rx = now }

unfoldable pub touch_transmit : Peer → ℕ → Peer
touch_transmit p now = record p { last_tx = now }

unfoldable pub is_valid : Peer → ℕ → Bool
is_valid p now = leb (elapsed now p.last_rx) 30

-- The results 0, 1 and -1 of `CountPing` and `CountBubble`.
pub data Verdict : Type 0 where
  send_now : Verdict
  too_soon : Verdict
  too_many : Verdict

-- `CountPing`: `last_ping` keeps 9 bits and `pings` 3.
unfoldable pub ping_verdict : Peer → ℕ → Verdict
ping_verdict p now =
    if p.pings == 0
    then send_now
    else if leb 4 p.pings
    then too_many
    else if leb (elapsed now p.last_ping % 2 ^ 9) 2
    then too_soon
    else send_now

unfoldable pub count_ping : Peer → ℕ → Verdict × Peer
unfolding ping_verdict
count_ping p now = elim (ping_verdict p now) [
  | send_now ↦ (send_now, record p { last_ping = now % 2 ^ 9; pings = (p.pings + 1) % 2 ^ 3 })
  | v ↦ (v, p)
]

-- `CountBubble`: the verdict, and the count before the bubble that may be sent.
unfoldable pub bubble_verdict : Peer → ℕ → Verdict × ℕ
bubble_verdict p now =
    if ltb 0 p.bubbles
    then (if leb 4 p.bubbles
        then (if leb (elapsed now p.last_tx) 300 then (too_many, p.bubbles) else (send_now, 0))
        else if leb (elapsed now p.last_tx) 2
        then (too_soon, p.bubbles)
        else (send_now, p.bubbles))
    else (send_now, p.bubbles)

unfoldable pub count_bubble : Peer → ℕ → Verdict × Peer
unfolding bubble_verdict
count_bubble p now =
    let (v, bubbles) = bubble_verdict p now in
    elim v [
      | send_now ↦ (send_now, record p { last_tx = now; bubbles = (bubbles + 1) % 2 ^ 3 })
      | w ↦ (w, record p { bubbles = bubbles })
    ]
