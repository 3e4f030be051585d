-- ===== src/Packets/Ping.antt =====
-- Pings: echo requests that carry a keyed hash, and the answers to them.
pub mod Authentic
use miredo.Prelude.Word.{bytes16}
use miredo.Prelude.{
  ltb, ◌==◌, if◌then◌else◌, drop, ℕ, ◌-◌, ◌%◌, ◌^◌, Bool, false, not, ◌||◌, List, [], ◌∷◌, ◌++◌,
}
use miredo.Net.Addr.{Addr, addr_equal, ipport_teredo}
use miredo.Net.Ip6.{
  ip6_header, ip6_plen, ip6_nxt, ip6_src, ip6_dst, icmp6_type, icmp6_code, ipproto_icmpv6,
  icmp6_echo_request, icmp6_echo_reply, icmp6_dst_unreach,
}
use miredo.Checksum.{icmp6_checksum}
use miredo.Security.{get_pinghash, verify_pinghash}
use miredo.Peer.{Output, udp}
use miredo.Packets.{Host, is_positive}

-- The echo request of `SendPing`: the hash stands in the identifier, the sequence and the payload.
unfoldable pub echo_request : Host → ℕ → Addr → Addr → List ℕ
echo_request h time src dst =
    let hash = get_pinghash h.md5 h.hmac (time % 2 ^ 32) src dst in
    let ip6 = ip6_header 26 ipproto_icmpv6 128 src dst in
    let cksum = icmp6_checksum h.endian ip6 (icmp6_echo_request ∷ 0 ∷ 0 ∷ 0 ∷ hash) in
    ip6 ++ (icmp6_echo_request ∷ 0 ∷ (bytes16 cksum ++ hash))

-- `SendPing`
unfoldable pub send_ping : Host → ℕ → Addr → Addr → List Output × Bool
send_ping h time src dst =
    let m = echo_request h time src dst in
    (udp src.server_ip ipport_teredo m ∷ [], is_positive (h.sendv src.server_ip ipport_teredo m))

-- The end of `CheckPing`, on the packet whose ICMPv6 message holds the hash.
unfoldable pub check_hash : Host → ℕ → Addr → Addr → List ℕ → Bool
check_hash h time me it ip6 =
    if not (icmp6_code ip6 == 0)
    then false
    else verify_pinghash h.md5 h.hmac (time % 2 ^ 32) me it (drop 44 ip6)

-- The part of `CheckPing` for an unreachable error with our echo request in it.
unfoldable pub check_unreachable : Host → ℕ → List ℕ → Bool
check_unreachable h time ip6 =
    let inner = drop 48 ip6 in
    if ltb (ip6_plen ip6 - 8) 66 || not (ip6_nxt inner == ipproto_icmpv6)
    then false
    else if not (ip6_plen inner == 26)
    then false
    else if not (addr_equal (ip6_src inner) (ip6_dst ip6))
        || not (icmp6_type inner == icmp6_echo_request)
    then false
    else if not (addr_equal (ip6_dst inner) (ip6_src ip6))
    then false
    else check_hash h time (ip6_src inner) (ip6_dst inner) inner

-- `CheckPing`: `true` is the return of 0.
unfoldable pub check_ping : Host → ℕ → List ℕ → Bool
check_ping h time ip6 =
    if not (ip6_nxt ip6 == ipproto_icmpv6) || ltb (ip6_plen ip6) 26
    then false
    else if icmp6_type ip6 == icmp6_dst_unreach
    then check_unreachable h time ip6
    else if not (icmp6_type ip6 == icmp6_echo_reply)
    then false
    else check_hash h time (ip6_dst ip6) (ip6_src ip6) ip6
