-- ===== src/Peer/Rate.antt =====
-- How often bubbles and pings go to one peer.
use miredo.Prelude.{ℕ, suc, ◌+◌, ◌%◌, ◌^◌, ◌≤◌, ◌<◌, List, [], ◌∷◌, arith}
use miredo.Peer.{Peer, send_now, count_bubble, count_ping}

-- How many of the calls at these times allow a send.
abbrev pub bubbles_sent : Peer → List ℕ → ℕ
bubbles_sent p [] = 0
bubbles_sent p (t ∷ ts) =
    let (v, p') = count_bubble p t in
    let rest = bubbles_sent p' ts in elim v [ send_now ↦ suc rest | _ ↦ rest ]

abbrev pub pings_sent : Peer → List ℕ → ℕ
pings_sent p [] = 0
pings_sent p (t ∷ ts) =
    let (v, p') = count_ping p t in
    let rest = pings_sent p' ts in elim v [ send_now ↦ suc rest | _ ↦ rest ]

-- Times that do not fall, from `lo` on and up to `hi`.
abbrev pub Rising : ℕ → ℕ → List ℕ → Type 0
Rising lo hi [] = Unit {0}
Rising lo hi (t ∷ ts) = (lo ≤ t) × (t ≤ hi) × Rising t hi ts

Rising-mono : (ts : List ℕ) (lo lo' hi : ℕ) → lo' ≤ lo → Rising lo hi ts → Rising lo' hi ts
Rising-mono [] lo lo' hi h r = tt
Rising-mono (t ∷ ts) lo lo' hi h r = (omega arith, r.1, r.2)

abbrev after_bubble : Peer → ℕ → ℕ → Peer
after_bubble p t bubbles = record p { last_tx = t; bubbles = (bubbles + 1) % 2 ^ 3 }

-- Once a bubble has gone out in the window, what is left of the four.
bubbles_left :
    (p : Peer) (ts : List ℕ) (start : ℕ)
    → p.bubbles ≤ 4
    → 0 < p.bubbles
    → start ≤ p.last_tx
    → start + 300 < 2 ^ 64
    → Rising p.last_tx (start + 300) ts
    → bubbles_sent p ts + p.bubbles ≤ 4
unfolding count_bubble
bubbles_left p [] start b c s k r = omega arith
bubbles_left p (t ∷ ts) start b c s k r = ground (
  arith,
  bubbles_left p ts start b c s k (Rising-mono ts t p.last_tx (start + 300) r.0 r.2),
  bubbles_left (after_bubble p t p.bubbles) ts start,
)

bubbles_window :
    (p : Peer) (ts : List ℕ) (start lo : ℕ)
    → p.bubbles ≤ 4
    → start ≤ lo
    → start + 300 < 2 ^ 64
    → Rising lo (start + 300) ts
    → bubbles_sent p ts ≤ 4
unfolding count_bubble
bubbles_window p [] start lo b s k r = omega arith
bubbles_window p (t ∷ ts) start lo b s k r = ground (
  arith,
  bubbles_window p ts start t b (omega arith) k r.2,
  bubbles_left (after_bubble p t p.bubbles) ts start,
  bubbles_left (after_bubble p t 0) ts start,
)

-- Of a peer with at most 4 bubbles counted, and whatever its other fields: no more than 4 of the calls of
-- `CountBubble` made at times of a window of 300 seconds, in order, allow a bubble; if the window ends
-- before the clock wraps around at 2^64.
pub bubbles_sent-le :
    (p : Peer) (ts : List ℕ) (start : ℕ)
    → p.bubbles ≤ 4
    → start + 300 < 2 ^ 64
    → Rising start (start + 300) ts
    → bubbles_sent p ts ≤ 4
bubbles_sent-le p ts start b k r = bubbles_window p ts start start b (omega arith) k r

-- However many calls of `CountPing` follow one another, at any times, those that allow a ping are at
-- most 4 less the pings already counted.
pub pings_sent-le : (p : Peer) (ts : List ℕ) → p.pings ≤ 4 → pings_sent p ts + p.pings ≤ 4
unfolding count_ping
pings_sent-le p [] h = omega arith
pings_sent-le p (t ∷ ts) h = ground (
  arith,
  pings_sent-le p ts h,
  pings_sent-le (record p { last_ping = t % 2 ^ 9; pings = (p.pings + 1) % 2 ^ 3 }) ts,
)
