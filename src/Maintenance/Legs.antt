-- ===== src/Maintenance/Legs.antt =====
-- The two datagrams of a qualification: what the server makes of the client's, and the client's
-- thread of the server's. A datagram goes through a NAT, which gives it another source.
use miredo.Prelude.Word.{Endian}
use miredo.Prelude.{
  if◌then◌else◌, ◌==◌, length, take, drop, same_bytes_refl, ◌^◌, ◌<◌, ◌≡◌, refl, ap, ◌∙◌, ℕ, Bool,
  true, false, ◌&&◌, ◌||◌, Option, none, some, List, [], ◌∷◌, arith,
}
use miredo.Net.Addr.{is_linklocal, addr_at, s6_addr, addr_equal, ipport_teredo}
use miredo.Net.Ipv4.{is_ipv4_global_unicast}
use miredo.Net.Ip6.{ip6_header, ip6_vfc, ip6_plen, ip6_nxt, icmp6_type, is_bubble, ip6_src, ip6_dst}
use miredo.Udp.{TeredoPacket, Stale, Datagram, recv_inner}
use miredo.Udp.RoundTrip.{Auth, received, recv_inner-headers}
use miredo.Peer.{udp}
use miredo.Packets.Ra.{solicitation}
use miredo.Relay.Receive.{is_qualification}
use miredo.Server.{
  done, ra_message, ra_packet, TeredoServer, Sockets, Sending, datagram, advertise, decide, send_ra,
  process_packet, is_accepted, decide_accepted, is_solicitation,
}
use miredo.Server.Advert.{
  CanAdvertise, client_addr, nonce_front, advert_packet, advert_packet-parse_ra,
}
use miredo.Maintenance.{Maintenance, Input, arrives, Action, sends, recv_advert}

-- The IPv6 packet of a solicitation without the cone flag.
abbrev rs_packet : List ℕ
rs_packet = drop 13 (solicitation (0 ∷ 0 ∷ 0 ∷ 0 ∷ 0 ∷ 0 ∷ 0 ∷ 0 ∷ []) false)

-- The packet that a server makes of a client's solicitation.
abbrev pub rs_received : List ℕ → ℕ → ℕ → ℕ → TeredoPacket
rs_received nonce ip port server =
    received (record { payload = []; source_ipv4 = ip; source_port = port; dest_ipv4 = server })
      true false nonce none rs_packet

pub recv_inner-solicitation :
    (old : Stale) (nonce : List ℕ) (ip port server : ℕ)
    → length nonce ≡ 8
    → recv_inner old (record {
      payload = solicitation nonce false;
      source_ipv4 = ip;
      source_port = port;
      dest_ipv4 = server;
    })
      ≡ some (rs_received nonce ip port server)
unfolding solicitation ip6_header
recv_inner-solicitation old nonce ip port server n =
    ap
      (λ (m : List ℕ).
        recv_inner old
          (record { payload = m; source_ipv4 = ip; source_port = port; dest_ipv4 = server }))
      (nonce_front nonce _ n)
    ∙ recv_inner-headers old (some auth) none 0x60 0 (drop 2 rs_packet) ip port server n tt
        (omega arith)
  where
    auth : Auth
    auth = record { client_id = []; authenticator = []; nonce = nonce; confirmation = 0 }

-- Who may solicit: a host with a global unicast address that is not the server itself.
pub record MaySolicit (s : TeredoServer) (ip port_no : ℕ) : Type 0 where
  pub unicast : is_ipv4_global_unicast ip ≡ true
  pub positive : 0 < ip
  pub word : ip < 2 ^ 32
  pub port : port_no < 2 ^ 16
  pub other : ((ip == s.server_ip || ip == s.server_ip2) && port_no == ipport_teredo) ≡ false

pub decide-advertise :
    (s : TeredoServer) (nonce : List ℕ) (ip port server : ℕ)
    → MaySolicit s ip port
    → decide s (rs_received nonce ip port server) ≡ advertise
unfolding decide is_accepted decide_accepted is_solicitation solicitation ip6_header ip6_vfc
    ip6_plen ip6_nxt ip6_src ip6_dst icmp6_type is_linklocal addr_equal addr_at s6_addr is_bubble
decide-advertise s nonce ip port server c = rw (c.unicast, c.other) refl

-- What the server sends back, through the NAT, when the client has sent to it.
abbrev pub serve : Sockets → TeredoServer → Bool → Stale → ℕ → ℕ → List Action → List Sending
serve k s sec old ip port (sends (udp server p m ∷ out) ∷ acts) =
    let d : Datagram = record {
      payload = m;
      source_ipv4 = ip;
      source_port = port;
      dest_ipv4 = server;
    } in
    (process_packet k s sec (recv_inner old d)).0
serve k s sec old ip port acts = []

-- The input for the client's maintenance thread that the first of these datagrams is, if the NAT
-- takes it to the client.
abbrev pub hand_over : Stale → ℕ → ℕ → ℕ → ℕ → ℕ → List Sending → Option Input
hand_over old stale server ipv4 ip port (datagram second to to_port m ∷ out) =
    let got : Option TeredoPacket = recv_inner old (record {
      payload = m;
      source_ipv4 = server;
      source_port = ipport_teredo;
      dest_ipv4 = ipv4;
    }) in
    if to == ip && to_port == port
    then (elim got [
      | none ↦ none
      | some q ↦ if is_qualification q then some (arrives q stale) else none
    ])
    else none
hand_over old stale server ipv4 ip port out = none

-- An answer to the solicitation of a thread that waits for it, as it comes in.
pub answer-is_qualification :
    (k : Sockets) (s : TeredoServer) (p : TeredoPacket) (from to : ℕ)
    → is_qualification (advert_packet k s p from to false) ≡ true
unfolding is_qualification ra_packet ra_message ip6_header ip6_dst addr_equal addr_at s6_addr
answer-is_qualification k s p from to = refl

pub recv_advert-advert_packet :
    (e : Endian) (k : Sockets) (s : TeredoServer) (m : Maintenance) (p : TeredoPacket)
    (stale from to : ℕ)
    → CanAdvertise e s
    → 0 < p.source_ipv4
    → p.auth_nonce ≡ m.nonce
    → length m.nonce ≡ 8
    → m.server_ip ≡ s.server_ip
    → recv_advert e m (advert_packet k s p from to false) stale
      ≡ (some (client_addr s p.source_ipv4 p.source_port false), s.adv_link_mtu)
unfolding recv_advert
recv_advert-advert_packet e k s m p stale from to c pos same n h = ground (
  arith,
  advert_packet-parse_ra e k s p stale from to false c pos,
  same_bytes_refl m.nonce,
  take_all m.nonce n,
)
  where
    take_all : (xs : List ℕ) → length xs ≡ 8 → take 8 xs ≡ xs
    take_all xs k = ground arith

pub process_packet-advertise :
    (k : Sockets) (s : TeredoServer) (sec : Bool) (p : TeredoPacket)
    → decide s p ≡ advertise
    → (process_packet k s sec (some p)).0 ≡ (send_ra k s p (ip6_src p.ip6) sec).0
unfolding process_packet done
process_packet-advertise k s sec p e = rw (process_packet, e) refl
