-- ===== src/Packets/Ra.antt =====
-- Router solicitations and advertisements, as a client sends and reads them.
pub mod Scan
pub mod Bounds
pub use Scan.{Options, Parse, rejected, parsed, unfinished}
unfoldable pub use Scan.{parse_options, read_option}
use miredo.Prelude.Word.{Endian, bytes16, bytes32, u8, not16, not32}
use miredo.Prelude.{
  ltb, ◌==◌, if◌then◌else◌, take, drop, ℕ, ◌-◌, ◌%◌, ◌^◌, Bool, not, ◌||◌, Option, none, some, List,
  [], ◌∷◌, ◌++◌,
}
use miredo.Net.Addr.{
  Addr, addr_equal, teredo_cone, teredo_restrict, in6addr_allrouters, teredo_prefix,
  teredo_prefix_obsolete, teredo_flag_cone, is_valid_teredo_prefix, ipport_teredo,
}
use miredo.Net.Ip6.{
  ip6_header, ip6_plen, ip6_nxt, ip6_dst, ipproto_icmpv6, nd_router_solicit, nd_router_advert,
}
use miredo.Udp.{TeredoPacket}
use miredo.Peer.{Output, udp}
use miredo.Packets.{Host, is_positive}

-- `teredo_send_rs`: the authentication header and the solicitation, with its checksum as a constant.
unfoldable pub solicitation : List ℕ → Bool → List ℕ
solicitation nonce cone =
    (0 ∷ 1 ∷ 0 ∷ 0 ∷ (take 8 nonce ++ (0 ∷ [])))
    ++ (ip6_header 8 ipproto_icmpv6 255 (if cone then teredo_cone else teredo_restrict)
          in6addr_allrouters
        ++ (nd_router_solicit ∷ 0 ∷ (bytes16 (if cone then 0x125d else 0x7d37) ++ bytes32 0)))

unfoldable pub send_rs : Host → ℕ → List ℕ → Bool → List Output × Bool
send_rs h server_ip nonce cone =
    let m = solicitation nonce cone in
    (udp server_ip ipport_teredo m ∷ [], is_positive (h.sendv server_ip ipport_teredo m))

-- The result of `teredo_parse_ra`: the address, and the MTU if one was given.
pub record Advert : Type 0 where
  pub addr : Addr
  pub mtu : Option ℕ

-- The end of `teredo_parse_ra`, on what the options left.
unfoldable pub accept_options : Endian → TeredoPacket → Bool → Options → Option Advert
accept_options e p cone o =
    let prefix = if o.prefix == teredo_prefix_obsolete then teredo_prefix else o.prefix in
    if is_valid_teredo_prefix e prefix
    then some (record {
      addr = record {
        prefix = prefix;
        server_ip = o.server_ip;
        flags = if cone then teredo_flag_cone else 0;
        client_port = not16 p.orig_port;
        client_ip = not32 p.orig_ipv4;
      };
      mtu = if o.net_mtu == 0 then none else some (o.net_mtu % 2 ^ 16);
    })
    else none

-- `teredo_parse_ra`; `stale` is the prefix that the address held before. `none` is the return of -1.
unfoldable pub parse_ra : Endian → ℕ → TeredoPacket → Bool → Option Advert
parse_ra e stale p cone =
    let ip6 = p.ip6 in
    let plen = ip6_plen ip6 in
    let len = plen - 16 in
    if p.orig_ipv4 == 0
    then none
    else if not (addr_equal (ip6_dst ip6) (if cone then teredo_cone else teredo_restrict))
        || (not (ip6_nxt ip6 == ipproto_icmpv6) || ltb plen 16)
    then none
    else if not (u8 ip6 40 == nd_router_advert) || (not (u8 ip6 41 == 0) || ltb len 32)
    then none
    else elim (parse_options len (drop 56 ip6) len
        (record { prefix = stale; server_ip = 0; net_mtu = 0 })) [
          | parsed o ↦ accept_options e p cone o
          | rejected ↦ none
          | unfinished ↦ none
        ]
