-- ===== src/Maintenance.antt =====
-- libteredo/maintain.c: the client's qualification and maintenance procedure, as a state machine. The
-- thread holds the inner mutex but in its two waits, so that what happens to it is a sequence of
-- inputs, each possible in some phases: the result of a resolution, a reading of the clock, a packet
-- that `teredo_maintenance_process` hands over, or a deadline that passes.
pub mod Sound
pub mod Qualified
pub mod Loss
pub mod Legs
pub mod Handshake
pub mod HandOver
use miredo.Prelude.Word.{host16, Endian}
use miredo.Prelude.{
  ltb, ◌==◌, if◌then◌else◌, take, same_bytes, ℕ, ◌+◌, ◌-◌, ◌*◌, ◌/◌, ◌%◌, ◌^◌, Bool, true, false,
  not, ◌&&◌, ◌||◌, Option, none, some, List, [], ◌∷◌, ◌++◌,
}
use miredo.Net.Addr.{Addr, addr_equal, ipport_teredo}
use miredo.Net.Ipv4.{is_ipv4_global_unicast}
use miredo.Udp.{TeredoPacket}
use miredo.Peer.{Output}
use miredo.Security.{get_nonce, get_flbits}
use miredo.Packets.{Host}
use miredo.Packets.Ra.{parse_ra, send_rs}
use miredo.Relay.{TeredoState}

-- `struct timespec`
pub record Time : Type 0 where
  pub sec : ℕ
  pub nsec : ℕ

-- The delays of `struct teredo_maintenance`, in seconds, and the number of tries.
pub record Delays : Type 0 where
  pub qualification_delay : ℕ
  pub qualification_retries : ℕ
  pub refresh_delay : ℕ
  pub restart_delay : ℕ

-- `x ?: y`
abbrev or_default : ℕ → ℕ → ℕ
or_default x y = if x == 0 then y else x

-- The delays that `teredo_maintenance_start` sets.
unfoldable pub start_delays : ℕ → ℕ → ℕ → ℕ → Delays
start_delays q_sec q_retries refresh_sec restart_sec = record {
  qualification_delay = or_default q_sec 4;
  qualification_retries = or_default q_retries 3;
  refresh_delay = or_default refresh_sec 30;
  restart_delay = or_default restart_sec 100;
}

-- Where the thread is: about to resolve the server's name, in the pause after a resolution that
-- failed, about to solicit, waiting for an advertisement, or in the pause before the next
-- solicitation.
pub data Phase : Type 0 where
  resolving : Phase
  unresolved : Phase
  soliciting : Phase
  awaiting : Phase
  pausing : Phase

-- The variables of `maintenance_thread`; `state` is `*c_state`, `net_mtu` is `newst.mtu`, and
-- `blackhole` is `last_error == TERR_BLACKHOLE`.
pub record Maintenance : Type 0 where
  pub phase : Phase
  pub state : TeredoState
  pub deadline : Time
  pub server_ip : ℕ
  pub count : ℕ
  pub blackhole : Bool
  pub nonce : List ℕ
  pub net_mtu : ℕ

abbrev pub no_address : Addr
no_address = record { prefix = 0; server_ip = 0; flags = 0; client_port = 0; client_ip = 0 }

-- The thread at its start, its state filled with zeros by `teredo_maintenance_start`.
unfoldable pub start : Maintenance
start = record {
  phase = resolving;
  state = record { addr = no_address; mtu = 0; ipv4 = 0; up = false };
  deadline = record { sec = 0; nsec = 0 };
  server_ip = 0;
  count = 0;
  blackhole = false;
  nonce = [];
  net_mtu = 0;
}

-- What happens to the thread. A packet comes with what the prefix of `newst`, which the thread does
-- not set, holds before it is parsed.
pub data Input : Type 0 where
  resolves : Option ℕ → Time → Input
  reads_clock : Time → Input
  arrives : TeredoPacket → ℕ → Input
  expires : Input

-- What the thread does: it sends, calls the callback with a state, or logs that the server is mute.
pub data Action : Type 0 where
  sends : List Output → Action
  notifies : TeredoState → Action
  no_reply : Action

abbrev pub later : Time → ℕ → Time
later t n = record t { sec = t.sec + n }

-- `checkTimeDrift`: whether the time has not passed yet.
unfoldable pub is_ahead : Time → Time → Bool
is_ahead now t = not (ltb t.sec now.sec || (now.sec == t.sec && ltb t.nsec now.nsec))

-- One round of the loop that resolves the name.
unfoldable pub resolve : Delays → Maintenance → Option ℕ → Time → Maintenance × List Action
resolve d m none now =
    (record m { phase = unresolved; deadline = later now d.restart_delay; server_ip = 0 }, [])
resolve d m (some ip) now =
    let state = record m.state { addr = record m.state.addr { server_ip = ip } } in
    if is_ipv4_global_unicast ip
    then (
      record m { phase = soliciting; deadline = now; server_ip = ip; state = state },
      notifies state ∷ [],
    )
    else (record m { phase = unresolved; deadline = later now d.restart_delay; server_ip = 0 }, [])

-- One round of the loop that sets the deadline; if it is ahead, the solicitation goes out.
unfoldable pub solicit : Host → Delays → Maintenance → Time → Maintenance × List Action
solicit h d m now =
    let deadline = later m.deadline d.qualification_delay in
    let nonce = get_nonce h.md5 h.endian h.hmac (deadline.sec % 2 ^ 32) m.server_ip ipport_teredo in
    if is_ahead now deadline
    then (
      record m { phase = awaiting; deadline = deadline; nonce = nonce; net_mtu = 1280 },
      sends (send_rs h m.server_ip nonce false).0 ∷ [],
    )
    else (record m { deadline = now }, [])

-- `maintenance_recv`: the address if the packet is accepted, and the MTU, which a packet from the
-- wrong server sets too.
unfoldable pub recv_advert : Endian → Maintenance → TeredoPacket → ℕ → Option Addr × ℕ
recv_advert e m p stale =
    if not (same_bytes (take 8 p.auth_nonce) m.nonce)
    then (none, m.net_mtu)
    else if p.auth_fail
    then (none, m.net_mtu)
    else elim (parse_ra e stale p false) [
      | none ↦ (none, m.net_mtu)
      | some a ↦ (
        (if a.addr.server_ip == m.server_ip then some a.addr else none),
        elim a.mtu [ none ↦ m.net_mtu | some mtu ↦ mtu ],
      )
    ]

-- `f & htons (TEREDO_RANDOM_MASK)`, for the mask 0x3cff and a field in network byte order
abbrev pub random_flags : ℕ → ℕ
random_flags f = f / 2 ^ 10 % 2 ^ 4 * 2 ^ 10 + f % 2 ^ 8

-- The address with its flags: those of the last address, or new ones if the rest has changed. The new
-- ones are a word as the host has it, which is written to the field as it is.
unfoldable pub choose_flags : Host → Maintenance → Addr → Addr
choose_flags h m addr =
    let kept = record addr { flags = m.state.addr.flags } in
    if addr_equal m.state.addr kept then kept else record addr {
      flags =
          random_flags
            (host16 h.endian (get_flbits h.md5 h.endian h.hmac (m.deadline.sec % 2 ^ 32)));
    }

-- The end of a round: the pause, if there is one, or the next round.
unfoldable pub next_round : Delays → Maintenance → ℕ → Maintenance
next_round d m delay =
    if delay == 0
    then record m { phase = if m.server_ip == 0 then resolving else soliciting }
    else record m {
      phase = pausing;
      deadline = record m.deadline { sec = m.deadline.sec - d.qualification_delay + delay };
    }

-- An advertisement has been accepted.
unfoldable pub succeed :
    Host → Delays → Maintenance → TeredoPacket → Addr → ℕ → Maintenance × List Action
succeed h d m p addr mtu =
    let addr' = choose_flags h m addr in
    let state : TeredoState = record { addr = addr'; mtu = mtu; ipv4 = p.dest_ipv4; up = true } in
    let m' = record m { count = 0; blackhole = false; net_mtu = mtu } in
    if not m.state.up || (not (addr_equal m.state.addr addr') || not (m.state.mtu == mtu))
    then (next_round d (record m' { state = state }) d.refresh_delay, notifies state ∷ [])
    else (next_round d m' d.refresh_delay, [])

-- The deadline has passed with no advertisement.
unfoldable pub time_out : Delays → Maintenance → Maintenance × List Action
time_out d m =
    let down = record m.state { up = false } in
    let reply = if m.blackhole then [] else no_reply ∷ [] in
    if ltb (m.count + 1) d.qualification_retries
    then (next_round d (record m { count = m.count + 1 }) 0, [])
    else if m.state.up
    then (
      next_round d (record m { count = 0; blackhole = true; state = down; server_ip = 0 })
          d.restart_delay,
      reply ++ (notifies down ∷ []),
    )
    else (next_round d (record m { count = 0; blackhole = true }) d.restart_delay, reply)

-- A packet in the wait for an advertisement.
unfoldable pub receive_advert :
    Host → Delays → Maintenance → TeredoPacket → ℕ → Maintenance × List Action
receive_advert h d m p stale =
    let (accepted, mtu) = recv_advert h.endian m p stale in
    elim accepted [ none ↦ (record m { net_mtu = mtu }, []) | some addr ↦ succeed h d m p addr mtu ]

-- One step in a phase. `none`: such an input does not come in this phase.
unfoldable pub step_in :
    Phase → Host → Delays → Maintenance → Input → Option (Maintenance × List Action)
step_in resolving h d m (resolves r now) = some (resolve d m r now)
step_in unresolved h d m (arrives p stale) = some (m, [])
step_in unresolved h d m expires = some (record m { phase = resolving }, [])
step_in soliciting h d m (reads_clock now) = some (solicit h d m now)
step_in awaiting h d m (arrives p stale) = some (receive_advert h d m p stale)
step_in awaiting h d m expires = some (time_out d m)
step_in pausing h d m (arrives p stale) = some (m, [])
step_in pausing h d m expires =
    some (record m { phase = if m.server_ip == 0 then resolving else soliciting }, [])
step_in _ h d m _ = none

abbrev pub step : Host → Delays → Maintenance → Input → Option (Maintenance × List Action)
step h d m i = step_in m.phase h d m i

-- The thread after a sequence of inputs, with what it did.
abbrev pub run : Host → Delays → Maintenance → List Input → Option (Maintenance × List Action)
run h d m [] = some (m, [])
run h d m (i ∷ is) = elim (step h d m i) [
  | none ↦ none
  | some (m', out) ↦ elim (run h d m' is) [
    | none ↦ none
    | some (m'', outs) ↦ some (m'', out ++ outs)
  ]
]
