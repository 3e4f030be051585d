-- ===== src/Packets/Bubble.antt =====
-- Bubbles: the packets without payload that open a path through a NAT.
pub mod Answered
use miredo.Prelude.Word.{high_bits}
use miredo.Prelude.{if◌then◌else◌, drop, same_bytes, ℕ, Bool, true, List, [], ◌∷◌}
use miredo.Net.Ipv4.{is_ipv4_global_unicast}
use miredo.Net.Addr.{Addr, s6_addr, addr_at, teredo_ipv4, teredo_port, ipport_teredo}
use miredo.Net.Ip6.{ip6_header, ip6_src, ip6_dst, ipproto_none}
use miredo.Security.{get_nonce}
use miredo.Peer.{Output, udp}
use miredo.Packets.{Host, is_count}

-- `teredo_send_bubble`
unfoldable pub send_bubble : Host → ℕ → ℕ → Addr → Addr → List Output × Bool
send_bubble h ip port src dst =
    let bubble = ip6_header 0 ipproto_none 0 src dst in
    if is_ipv4_global_unicast ip
    then (udp ip port bubble ∷ [], is_count 40 (h.sendv ip port bubble))
    else ([], true)

-- `teredo_reply_bubble` of libteredo/packets.h: the addresses of the request change places.
unfoldable pub reply_bubble : Host → ℕ → ℕ → List ℕ → List Output × Bool
reply_bubble h ip port req = send_bubble h ip port (ip6_dst req) (ip6_src req)

-- A nonce as an interface identifier: `[0] &= 0xfc`.
unfoldable pub interface_id : List ℕ → List ℕ
interface_id [] = []
interface_id (b ∷ bs) = high_bits b 2 ∷ bs

-- The identifier that belongs to a Teredo address.
unfoldable pub bubble_id : Host → Addr → List ℕ
bubble_id h a = interface_id (get_nonce h.md5 h.endian h.hmac 0 (teredo_ipv4 a) (teredo_port a))

-- The link-local address from which bubbles go to a peer.
unfoldable pub bubble_source : Host → Addr → Addr
bubble_source h dst = addr_at (0xfe ∷ 0x80 ∷ 0 ∷ 0 ∷ 0 ∷ 0 ∷ 0 ∷ 0 ∷ bubble_id h dst) 0

-- `SendBubbleFromDst`
unfoldable pub send_bubble_from_dst : Host → Addr → Bool → List Output × Bool
send_bubble_from_dst h dst indirect =
    if indirect
    then send_bubble h dst.server_ip ipport_teredo (bubble_source h dst) dst
    else send_bubble h (teredo_ipv4 dst) (teredo_port dst) (bubble_source h dst) dst

-- `CheckBubble`: `true` is the return of 0.
unfoldable pub check_bubble : Host → List ℕ → Bool
check_bubble h ip6 = same_bytes (bubble_id h (ip6_src ip6)) (drop 8 (s6_addr (ip6_dst ip6)))
