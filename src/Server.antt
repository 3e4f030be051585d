-- ===== src/Server.antt =====
-- libteredo/server.c: the handling of one Teredo datagram by a server. The server is a record of the
-- fields of `struct teredo_server`, each as the number its bytes spell; the sockets are the results
-- of the calls on them (`Sockets`), and a packet that leaves is a `Sending`.
pub mod Advert
pub mod Limits
pub mod Outcomes
pub mod Relayed
pub mod Lifetime
use miredo.Prelude.Word.{Endian, bytes16, bytes32, not16, not32}
use miredo.Prelude.{
  ltb, leb, ◌==◌, if◌then◌else◌, length, take, ℕ, zero, suc, ◌+◌, ◌/◌, ◌^◌, Bool, true, false, not,
  ◌&&◌, ◌||◌, Option, none, some, List, [], ◌∷◌, ◌++◌,
}
use miredo.Net.Ipv4.{is_ipv4_global_unicast}
use miredo.Net.Addr.{
  Addr, addr_equal, in6addr_allrouters, teredo_prefix, teredo_flag_cone, ipport_teredo, teredo_ipv4,
  teredo_port, is_cone, is_linklocal, is_multicast, is_unspecified, is_loopback,
  matches_teredo_client, is_valid_teredo_prefix,
}
use miredo.Net.Ip6.{
  ip6_header, ip6_vfc, ip6_plen, ip6_nxt, ip6_src, ip6_dst, icmp6_type, is_bubble, ipproto_icmpv6,
  ipproto_none, nd_router_solicit, nd_router_advert,
}
use miredo.Udp.{TeredoPacket}
use miredo.Checksum.{icmp6_checksum}
use miredo.Packets.{is_positive}

-- `struct teredo_server` without its threads and sockets.
pub record TeredoServer : Type 0 where
  pub server_ip : ℕ
  pub server_ip2 : ℕ
  pub prefix : ℕ
  pub adv_link_mtu : ℕ
  pub lladdr : Addr

-- A datagram from the secondary or the primary socket, or a packet through the raw IPv6 socket.
pub data Sending : Type 0 where
  datagram : Bool → ℕ → ℕ → List ℕ → Sending
  raw : List ℕ → Sending

-- One call of `sendto`: the count it returns, an error that stands for an ICMPv6 error of an
-- earlier packet, or another error.
pub data Attempt : Type 0 where
  sent : ℕ → Attempt
  pending_error : Attempt
  failed : Attempt

-- What `teredo_sendv` returns, `none` for -1, and what the tries of `sendto` do.
pub record Sockets : Type 0 where
  pub endian : Endian
  pub sendv : Bool → ℕ → ℕ → List ℕ → Option ℕ
  pub sendto : ℕ → List ℕ → Attempt

-- The origin indication of a packet's source.
unfoldable pub origin_indication : TeredoPacket → List ℕ
origin_indication p = 0 ∷ 0 ∷ (bytes16 (not16 p.source_port) ++ bytes32 (not32 p.source_ipv4))

-- The ICMPv6 message of `SendRA` with a given checksum: the advertisement, the prefix and the MTU.
unfoldable pub ra_message : TeredoServer → ℕ → List ℕ
ra_message s cksum =
    (nd_router_advert ∷ 0 ∷ (bytes16 cksum ++ (0 ∷ 0 ∷ 0 ∷ 0 ∷ (bytes32 0 ++ bytes32 2000))))
    ++ ((3 ∷ 4 ∷ 64 ∷ 0x40 ∷ (bytes32 0xffffffff ++ (bytes32 0xffffffff ++ bytes32 0)))
        ++ ((bytes32 s.prefix ++ (bytes32 s.server_ip ++ (bytes32 0 ++ bytes32 0)))
            ++ (5 ∷ 1 ∷ 0 ∷ 0 ∷ bytes32 s.adv_link_mtu)))

-- The IPv6 packet of `SendRA`.
unfoldable pub ra_packet : Endian → TeredoServer → Addr → List ℕ
ra_packet e s dest =
    let ip6 = ip6_header 56 ipproto_icmpv6 255 s.lladdr dest in
    ip6 ++ ra_message s (icmp6_checksum e ip6 (ra_message s 0))

-- `SendRA`: what goes out and the result. The test `nonce != NULL` is on an array: the header is
-- always there, with the nonce that the packet holds.
unfoldable pub send_ra : Sockets → TeredoServer → TeredoPacket → Addr → Bool → List Sending × Bool
send_ra k s p dest secondary =
    let m =
      (0 ∷ 1 ∷ 0 ∷ 0 ∷ (take 8 p.auth_nonce ++ (0 ∷ [])))
      ++ (origin_indication p ++ ra_packet k.endian s dest) in
    let second = if is_cone dest then not secondary else secondary in
    (
      datagram second p.source_ipv4 p.source_port m ∷ [],
      is_positive (k.sendv second p.source_ipv4 p.source_port m),
    )

-- `teredo_forward_udp` on the primary socket.
unfoldable pub forward_udp : Sockets → TeredoPacket → Bool → List Sending × Bool
forward_udp k p insert_orig =
    let ip = teredo_ipv4 (ip6_dst p.ip6) in
    let port = teredo_port (ip6_dst p.ip6) in
    let m = if insert_orig then origin_indication p ++ p.ip6 else p.ip6 in
    if not (is_ipv4_global_unicast ip)
    then ([], false)
    else (datagram false ip port m ∷ [], is_positive (k.sendv false ip port m))

-- The loop of `teredo_send_ipv6`, with the number of tries that are left.
unfoldable pub send_tries : Sockets → List ℕ → ℕ → List Sending × Bool
send_tries k packet zero = ([], false)
send_tries k packet (suc tries) =
    let rest = send_tries k packet tries in
    elim (k.sendto tries packet) [
      | sent n ↦ (raw packet ∷ [], n == length packet)
      | pending_error ↦ rest
      | failed ↦ ([], false)
    ]

unfoldable pub send_ipv6 : Sockets → List ℕ → List Sending × Bool
send_ipv6 k packet = send_tries k packet 10

-- `IN6_IS_ADDR_GLOBAL`
unfoldable pub is_addr_global : Addr → Bool
is_addr_global a = not (is_unspecified a || (is_loopback a || (is_linklocal a || is_multicast a)))

-- A router solicitation, by its protocol, length and type.
unfoldable pub is_solicitation : List ℕ → Bool
is_solicitation ip6 =
    ip6_nxt ip6 == ipproto_icmpv6 && (leb 8 (ip6_plen ip6) && icmp6_type ip6 == nd_router_solicit)

-- Cases 4 to 6: what goes on to `accept`.
unfoldable pub is_accepted : TeredoServer → TeredoPacket → Bool
is_accepted s p =
    let src = ip6_src p.ip6 in
    let dst = ip6_dst p.ip6 in
    if is_linklocal src && (addr_equal in6addr_allrouters dst && is_solicitation p.ip6)
    then true
    else if src.prefix == s.prefix
    then matches_teredo_client src p.source_ipv4 p.source_port
    else dst.prefix == s.prefix && dst.server_ip == s.server_ip

-- What is to be done with a packet: nothing, an advertisement for its source, a packet of so many
-- bytes for the IPv6 internet, or a datagram for another client.
pub data Decision : Type 0 where
  dropped : Decision
  advertise : Decision
  direct : ℕ → Decision
  forward : Bool → Decision

-- What follows the label `accept`.
unfoldable pub decide_accepted : TeredoServer → TeredoPacket → Decision
decide_accepted s p =
    let dst = ip6_dst p.ip6 in
    if (p.source_ipv4 == s.server_ip || p.source_ipv4 == s.server_ip2)
      && p.source_port == ipport_teredo
    then dropped
    else if addr_equal in6addr_allrouters dst || addr_equal s.lladdr dst
    then (if is_solicitation p.ip6 then advertise else dropped)
    else if not (is_addr_global dst)
    then dropped
    else if not (ip6_nxt p.ip6 == ipproto_none) && ltb 88 (ip6_plen p.ip6)
    then dropped
    else if not (dst.prefix == s.prefix)
    then direct (40 + ip6_plen p.ip6)
    else forward (dst.server_ip == s.server_ip)

-- The checks of `teredo_process_packet`, in order.
unfoldable pub decide : TeredoServer → TeredoPacket → Decision
decide s p =
    if ltb (length p.ip6) 40
    then dropped
    else if not (ip6_vfc p.ip6 / 2 ^ 4 == 6) || ltb (length p.ip6) (40 + ip6_plen p.ip6)
    then dropped
    else if not (is_bubble p.ip6) && not (ip6_nxt p.ip6 == ipproto_icmpv6)
    then dropped
    else if not (is_ipv4_global_unicast p.source_ipv4)
    then dropped
    else if is_accepted s p
    then decide_accepted s p
    else dropped

-- The results -1, -2, 1, 2 and 3 of `teredo_process_packet`.
pub data Outcome : Type 0 where
  io_error : Outcome
  discarded : Outcome
  probed : Outcome
  checked : Outcome
  forwarded : Outcome

unfoldable pub done : Outcome → List Sending × Bool → List Sending × Outcome
done o (out, ok) = (out, if ok then o else io_error)

-- `teredo_process_packet`; without a packet, the receiving failed.
unfoldable pub process_packet :
    Sockets → TeredoServer → Bool → Option TeredoPacket → List Sending × Outcome
unfolding done
process_packet k s sec none = ([], io_error)
process_packet k s sec (some p) = elim (decide s p) [
  | dropped ↦ ([], discarded)
  | advertise ↦ done probed (send_ra k s p (ip6_src p.ip6) sec)
  | direct len ↦ done checked (send_ipv6 k (take len p.ip6))
  | forward insert ↦ done forwarded (forward_udp k p insert)
]

-- `teredo_server_create` on addresses that the sockets can be bound to: the fields it sets.
unfoldable pub server_create : ℕ → ℕ → Option TeredoServer
server_create ip1 ip2 =
    if not (is_ipv4_global_unicast ip1) || not (is_ipv4_global_unicast ip2)
    then none
    else some (record {
      server_ip = ip1;
      server_ip2 = ip2;
      prefix = teredo_prefix;
      adv_link_mtu = 1280;
      lladdr = record {
        prefix = 0xfe800000;
        server_ip = 0;
        flags = teredo_flag_cone;
        client_port = not16 ipport_teredo;
        client_ip = not32 ip1;
      };
    })

-- `teredo_server_set_prefix` and `teredo_server_set_MTU`: the server, and whether 0 is returned.
unfoldable pub set_prefix : Endian → TeredoServer → ℕ → TeredoServer × Bool
set_prefix e s prefix =
    if is_valid_teredo_prefix e prefix then (record s { prefix = prefix }, true) else (s, false)

unfoldable pub set_mtu : TeredoServer → ℕ → TeredoServer × Bool
set_mtu s mtu = if ltb mtu 1280 then (s, false) else (record s { adv_link_mtu = mtu }, true)
