-- ===== src/Maintenance/Handshake.antt =====
-- The qualification of a client with a server: maintain.c, packets.c, teredo.c and server.c together.
-- A datagram goes through a NAT, which gives it another source.
use miredo.Prelude.{
  ◌%◌, length, ◌^◌, ◌<◌, ◌≡◌, refl, ap, sym, subst, ◌∙◌, ℕ, Bool, true, false, Option, none, some,
  List, [], ◌∷◌, arith,
}
use miredo.Net.Addr.{is_cone, addr_at, s6_addr, Addr, ipport_teredo}
use miredo.Net.Ip6.{ip6_header, ip6_src}
use miredo.Udp.{TeredoPacket, Stale}
use miredo.Peer.{Output, udp}
use miredo.Packets.{Host, IsDigest}
use miredo.Packets.Bubble.Answered.{nonce-Bytes}
use miredo.Security.{get_nonce}
use miredo.Packets.Ra.{solicitation, send_rs}
use miredo.Relay.{TeredoState}
use miredo.Server.{TeredoServer, Sockets, Sending, datagram, send_ra, process_packet}
use miredo.Server.Advert.{
  CanAdvertise, client_addr, advert_packet, advert_payload, recv_inner-advert_packet,
}
use miredo.Maintenance.{
  Phase, notifies, Maintenance, Delays, Input, reads_clock, arrives, Action, sends, awaiting,
  soliciting, step, step_in, solicit, receive_advert, recv_advert, succeed, choose_flags,
  next_round, Time, later, is_ahead,
}
use miredo.Maintenance.Legs.{
  MaySolicit, serve, hand_over, rs_received, recv_inner-solicitation, decide-advertise,
  answer-is_qualification, recv_advert-advert_packet, process_packet-advertise,
}

-- What surrounds an exchange: the server's sockets, its state, the socket that the solicitation
-- comes to, the receive buffers, the NAT's address and port, the client's own address, and what the
-- prefix of the client's `newst` holds.
pub record Exchange : Type 0 where
  pub sockets : Sockets
  pub server : TeredoServer
  pub secondary : Bool
  pub old : Stale
  pub old' : Stale
  pub ip : ℕ
  pub port : ℕ
  pub ipv4 : ℕ
  pub stale : ℕ

-- The client's thread reads the clock and solicits; the server serves; the client gets the answer.
abbrev pub exchange :
    Exchange → Host → Delays → Maintenance → Time → Option (Maintenance × List Action)
exchange x h d m now = elim (step h d m (reads_clock now)) [
  | none ↦ none
  | some (m', acts) ↦
      elim (hand_over x.old' x.stale m'.server_ip x.ipv4 x.ip x.port
        (serve x.sockets x.server x.secondary x.old x.ip x.port acts)) [
          | none ↦ none
          | some i ↦ step h d m' i
        ]
]

-- That a result is a state of the thread with this state, which it has notified.
abbrev pub Qualifies : TeredoState → Option (Maintenance × List Action) → Type 0
Qualifies st none = ⊥
Qualifies st (some (m, acts)) = (m.state ≡ st) × (acts ≡ notifies st ∷ []) × (m.count ≡ 0)

served :
    (x : Exchange) (nonce : List ℕ) (server : ℕ)
    → MaySolicit x.server x.ip x.port
    → length nonce ≡ 8
    → (out : List Output)
    → serve x.sockets x.server x.secondary x.old x.ip x.port
        (sends (udp server ipport_teredo (solicitation nonce false) ∷ out) ∷ [])
      ≡ datagram x.secondary x.ip x.port
          (advert_payload x.sockets x.server (rs_received nonce x.ip x.port server) false)
        ∷ []
unfolding send_ra solicitation ip6_header ip6_src addr_at s6_addr is_cone
served x nonce server c n out =
    ap (λ (o : Option TeredoPacket). (process_packet x.sockets x.server x.secondary o).0)
      (recv_inner-solicitation x.old nonce x.ip x.port server n)
    ∙ process_packet-advertise x.sockets x.server x.secondary _
        (decide-advertise x.server nonce x.ip x.port server c)

handed_over :
    (x : Exchange) (p : TeredoPacket) (server : ℕ)
    → length p.auth_nonce ≡ 8
    → p.source_ipv4 < 2 ^ 32
    → p.source_port < 2 ^ 16
    → hand_over x.old' x.stale server x.ipv4 p.source_ipv4 p.source_port (
        datagram x.secondary p.source_ipv4 p.source_port (advert_payload x.sockets x.server p false)
        ∷ [])
      ≡ some (arrives (advert_packet x.sockets x.server p server x.ipv4 false) x.stale)
handed_over x p server n ip port = ground (
  arith,
  recv_inner-advert_packet x.sockets x.server p x.old' server x.ipv4 false n ip port,
  answer-is_qualification x.sockets x.server p server x.ipv4,
)

-- The state that the client gets in an exchange.
abbrev pub qualified : Exchange → Host → Delays → Maintenance → TeredoState
qualified x h d m = record {
  addr =
      choose_flags h (record m { deadline = later m.deadline d.qualification_delay })
        (client_addr x.server x.ip x.port false);
  mtu = x.server.adv_link_mtu;
  ipv4 = x.ipv4;
  up = true;
}

receive_advert-Qualifies :
    (x : Exchange) (h : Host) (d : Delays) (m : Maintenance) (p : TeredoPacket) (a : Addr) (mtu : ℕ)
    → recv_advert h.endian m p x.stale ≡ (some a, mtu)
    → m.state.up ≡ false
    → Qualifies
        (record { addr = choose_flags h m a; mtu = mtu; ipv4 = p.dest_ipv4; up = true })
        (some (receive_advert h d m p x.stale))
unfolding receive_advert succeed next_round
receive_advert-Qualifies x h d m p a mtu e down = ground arith

-- A client that is not connected, with its deadline ahead and an MD5 of 16 bytes, and solicits a server
-- that may advertise is connected at the end of one exchange, whatever global unicast address and
-- port, other than the server's own, the NAT gives it and whatever the receive buffers held: its state
-- has the server's prefix, address and MTU, and the address and port that the NAT gave it, and is
-- notified; the flags are the last ones, or random ones if the address is new.
pub exchange-qualified :
    (x : Exchange) (h : Host) (d : Delays) (m : Maintenance) (now : Time)
    → IsDigest h.md5
    → CanAdvertise h.endian x.server
    → MaySolicit x.server x.ip x.port
    → m.phase ≡ soliciting
    → m.state.up ≡ false
    → m.server_ip ≡ x.server.server_ip
    → is_ahead now (later m.deadline d.qualification_delay) ≡ true
    → Qualifies (qualified x h d m) (exchange x h d m now)
unfolding step_in solicit send_rs choose_flags
exchange-qualified x h d m now v c may ph down same ahead =
    subst (Qualifies (qualified x h d m)) (sym exchanged) (
      receive_advert-Qualifies x h d m1 q _ _
        (recv_advert-advert_packet h.endian x.sockets x.server m1 p x.stale m.server_ip x.ipv4 c
          may.positive refl n same)
        down)
  where
    deadline : Time
    deadline = later m.deadline d.qualification_delay

    nonce : List ℕ
    nonce = get_nonce h.md5 h.endian h.hmac (deadline.sec % 2 ^ 32) m.server_ip ipport_teredo

    n : length nonce ≡ 8
    n = (nonce-Bytes h.md5 h.endian h.hmac (deadline.sec % 2 ^ 32) m.server_ip ipport_teredo v).0

    m1 : Maintenance
    m1 = record m { phase = awaiting; deadline = deadline; nonce = nonce; net_mtu = 1280 }

    p : TeredoPacket
    p = rs_received nonce x.ip x.port m.server_ip

    q : TeredoPacket
    q = advert_packet x.sockets x.server p m.server_ip x.ipv4 false

    stepped :
        step h d m (reads_clock now) ≡ some (m1, sends (send_rs h m.server_ip nonce false).0 ∷ [])
    stepped = ap (λ (f : Phase). step_in f h d m (reads_clock now)) ph ∙ rw (solicit, ahead) refl

    exchanged : exchange x h d m now ≡ some (receive_advert h d m1 q x.stale)
    exchanged =
        ap
          (λ (o : Option (Maintenance × List Action)). elim o [
            | none ↦ none
            | some (m', acts) ↦
                elim (hand_over x.old' x.stale m'.server_ip x.ipv4 x.ip x.port
                  (serve x.sockets x.server x.secondary x.old x.ip x.port acts)) [
                    | none ↦ none
                    | some i ↦ step h d m' i
                  ]
          ])
          stepped
        ∙ ap
            (λ (s : List Sending).
              elim (hand_over x.old' x.stale m.server_ip x.ipv4 x.ip x.port s) [
                | none ↦ none
                | some i ↦ step h d m1 i
              ])
            (served x nonce m.server_ip may n [])
        ∙ ap (λ (o : Option Input). elim o [ none ↦ none | some i ↦ step h d m1 i ])
            (handed_over x p m.server_ip n may.word may.port)
