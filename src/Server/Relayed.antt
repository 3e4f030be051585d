-- ===== src/Server/Relayed.antt =====
-- The bubbles that a server forwards between two of its clients.
use miredo.Prelude.{
  ◌==◌, length, drop, ℕ, ◌^◌, ◌≤◌, ◌<◌, ◌≡◌, sym, ap, subst, ◌∙◌, Bool, true, false, none, some,
  List, [], ◌∷◌, ◌++◌, arith,
}
use miredo.Udp.RoundTrip.{recv_inner-headers}
use miredo.Server.{
  Sending, datagram, Sockets, forward_udp, origin_indication, process_packet, TeredoServer, decide,
  decide_accepted, is_accepted, is_addr_global, is_solicitation, forward,
}
use miredo.Udp.{recv_inner, Stale, TeredoPacket}
use miredo.Net.Ipv4.{is_ipv4_global_unicast}
use miredo.Net.Addr.{
  teredo_port, Addr, s6_addr, addr_equal, teredo_ipv4, matches_teredo_client, in6addr_allrouters,
}
use miredo.Net.Ip6.{ip6_header, ip6_src, ip6_dst, ip6_plen, ip6_nxt, ip6_vfc, is_bubble}
use miredo.Packets.Headers.{
  Fits, ip6_src-header, ip6_dst-header, ip6_plen-header, ip6_nxt-header, ip6_vfc-header,
}

-- A bubble from one client of the server to another, and what else the datagram holds after it.
pub record Punches (s : TeredoServer) (src dst : Addr) (p : TeredoPacket) (hlim : ℕ)
    (extra : List ℕ) : Type 0 where
  pub packet : p.ip6 ≡ ip6_header 0 59 hlim src dst ++ extra
  pub fits : Fits src
  pub fits' : Fits dst
  pub unicast : is_ipv4_global_unicast p.source_ipv4 ≡ true
  pub outside : (p.source_ipv4 == s.server_ip) ≡ false
  pub outside2 : (p.source_ipv4 == s.server_ip2) ≡ false
  pub ours : src.prefix ≡ s.prefix
  pub mapped : matches_teredo_client src p.source_ipv4 p.source_port ≡ true
  pub theirs : dst.prefix ≡ s.prefix
  pub server : dst.server_ip ≡ s.server_ip
  pub global : is_addr_global dst ≡ true
  pub reachable : is_ipv4_global_unicast (teredo_ipv4 dst) ≡ true
  pub not_routers : addr_equal in6addr_allrouters dst ≡ false
  pub not_server : addr_equal s.lladdr dst ≡ false

length-header :
    (hlim : ℕ) (src dst : Addr) (extra : List ℕ)
    → 40 ≤ length (ip6_header 0 59 hlim src dst ++ extra)
unfolding ip6_header s6_addr
length-header hlim src dst extra = omega arith

module _ (s : TeredoServer) (src dst : Addr) (p : TeredoPacket) (hlim : ℕ) (extra : List ℕ)
    (h : Punches s src dst p hlim extra) where
  src_eq : ip6_src p.ip6 ≡ src
  src_eq = ap ip6_src h.packet ∙ ip6_src-header 0 59 hlim src dst extra h.fits

  dst_eq : ip6_dst p.ip6 ≡ dst
  dst_eq = ap ip6_dst h.packet ∙ ip6_dst-header 0 59 hlim src dst extra h.fits'

  plen_eq : ip6_plen p.ip6 ≡ 0
  plen_eq = ap ip6_plen h.packet ∙ ip6_plen-header 0 59 hlim src dst extra (omega arith)

  nxt_eq : ip6_nxt p.ip6 ≡ 59
  nxt_eq = ap ip6_nxt h.packet ∙ ip6_nxt-header 0 59 hlim src dst extra

  vfc_eq : ip6_vfc p.ip6 ≡ 0x60
  vfc_eq = ap ip6_vfc h.packet ∙ ip6_vfc-header 0 59 hlim src dst extra

  long : 40 ≤ length p.ip6
  long = subst (λ b. 40 ≤ length b) (sym h.packet) (length-header hlim src dst extra)

  accepted : is_accepted s p ≡ true
  unfolding is_accepted is_solicitation
  accepted = ground (arith, src_eq, dst_eq, nxt_eq, h.ours, h.mapped)

  decided_accepted : decide_accepted s p ≡ forward true
  unfolding decide_accepted
  decided_accepted =
      rw (dst_eq, plen_eq, nxt_eq)
        (ground
          (arith, h.outside, h.outside2, h.not_routers, h.not_server, h.global, h.theirs, h.server))

  pub decide-forward : decide s p ≡ forward true
  unfolding decide is_bubble
  decide-forward =
      rw (decided_accepted, accepted, vfc_eq, plen_eq, nxt_eq, h.unicast) (ground (arith, long))

forward_out :
    (k : Sockets) (s : TeredoServer) (p : TeredoPacket) (sec : Bool)
    → decide s p ≡ forward true
    → (process_packet k s sec (some p)).0 ≡ (forward_udp k p true).0
unfolding process_packet
forward_out k s p sec h = ground arith

udp_out :
    (k : Sockets) (p : TeredoPacket)
    → is_ipv4_global_unicast (teredo_ipv4 (ip6_dst p.ip6)) ≡ true
    → (forward_udp k p true).0
      ≡ datagram false
          (teredo_ipv4 (ip6_dst p.ip6))
          (teredo_port (ip6_dst p.ip6))
          (origin_indication p ++ p.ip6)
        ∷ []
unfolding forward_udp
udp_out k p h = ground arith

-- A bubble from one client of a server to another is forwarded to the mapped address and port that
-- the destination names, behind the origin indication of its source; with whatever bytes follow the
-- bubble in the datagram, to which no limit applies.
pub process_packet-forward :
    (k : Sockets) (s : TeredoServer) (src dst : Addr) (p : TeredoPacket) (hlim : ℕ) (extra : List ℕ)
    (sec : Bool)
    → Punches s src dst p hlim extra
    → (process_packet k s sec (some p)).0
      ≡ datagram false
          (teredo_ipv4 dst)
          (teredo_port dst)
          (origin_indication p ++ (ip6_header 0 59 hlim src dst ++ extra))
        ∷ []
process_packet-forward k s src dst p hlim extra sec h =
    let to : ip6_dst p.ip6 ≡ dst = dst_eq s src dst p hlim extra h in
    forward_out k s p sec (decide-forward s src dst p hlim extra h)
    ∙ udp_out k p (ap (λ a. is_ipv4_global_unicast (teredo_ipv4 a)) to ∙ h.reachable)
    ∙ ap (λ a. datagram false (teredo_ipv4 a) (teredo_port a) (origin_indication p ++ p.ip6) ∷ [])
        to
    ∙ ap (λ b. datagram false (teredo_ipv4 dst) (teredo_port dst) (origin_indication p ++ b) ∷ [])
        h.packet

-- A bubble from one client of a server to another, with whatever bytes behind it, is forwarded so that
-- the other client receives the bubble and these bytes, with the mapped address and port of their
-- sender as the origin, to which it can answer.
pub process_packet-recv_inner :
    (k : Sockets) (s : TeredoServer) (src dst : Addr) (p : TeredoPacket) (hlim : ℕ) (extra : List ℕ)
    (sec : Bool) (old : Stale) (from dest : ℕ)
    → Punches s src dst p hlim extra
    → p.source_ipv4 < 2 ^ 32
    → p.source_port < 2 ^ 16
    → (elim (process_packet k s sec (some p)).0 [
      | datagram second ip port m ∷ out ↦
          recv_inner old
            (record { payload = m; source_ipv4 = from; source_port = 3544; dest_ipv4 = dest })
      | _ ↦ none
    ])
      ≡ some (record {
        ip6 = ip6_header 0 59 hlim src dst ++ extra;
        source_ipv4 = from;
        source_port = 3544;
        orig_port = p.source_port;
        orig_ipv4 = p.source_ipv4;
        dest_ipv4 = dest;
        auth_present = false;
        auth_fail = old.auth_fail;
        auth_nonce = old.auth_nonce;
      })
unfolding ip6_header origin_indication
process_packet-recv_inner k s src dst p hlim extra sec old from dest h ip port =
    ap
      (λ (o : List Sending). elim o [
        | datagram second ip port m ∷ out ↦
            recv_inner old
              (record { payload = m; source_ipv4 = from; source_port = 3544; dest_ipv4 = dest })
        | _ ↦ none
      ])
      (process_packet-forward k s src dst p hlim extra sec h)
    ∙ recv_inner-headers old none (some (record { ipv4 = p.source_ipv4; port = p.source_port }))
        0x60 0 (drop 2 (ip6_header 0 59 hlim src dst ++ extra)) from 3544 dest tt (ip, port)
        (omega arith)
