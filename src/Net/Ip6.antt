-- ===== src/Net/Ip6.antt =====
-- `struct ip6_hdr` and `struct icmp6_hdr` of the C library, read from and written to bytes.
use miredo.Prelude.Word.{bytes16, bytes32, u8, u16}
use miredo.Prelude.{◌==◌, ℕ, Bool, ◌&&◌, List, ◌∷◌, ◌++◌}
use miredo.Net.Addr.{Addr, addr_at, s6_addr}

abbrev pub ipproto_icmpv6 : ℕ
ipproto_icmpv6 = 58

abbrev pub ipproto_none : ℕ
ipproto_none = 59

-- ICMPv6 message types
abbrev pub icmp6_dst_unreach : ℕ
icmp6_dst_unreach = 1

abbrev pub icmp6_echo_request : ℕ
icmp6_echo_request = 128

abbrev pub icmp6_echo_reply : ℕ
icmp6_echo_reply = 129

abbrev pub nd_router_solicit : ℕ
nd_router_solicit = 133

abbrev pub nd_router_advert : ℕ
nd_router_advert = 134

-- `sizeof (struct ip6_hdr)` and `sizeof (struct icmp6_hdr)`
abbrev pub sizeof_ip6_hdr : ℕ
sizeof_ip6_hdr = 40

abbrev pub sizeof_icmp6_hdr : ℕ
sizeof_icmp6_hdr = 8

-- The fields of the header at the front of a packet.
unfoldable pub ip6_vfc : List ℕ → ℕ
ip6_vfc p = u8 p 0

unfoldable pub ip6_plen : List ℕ → ℕ
ip6_plen p = u16 p 4

unfoldable pub ip6_nxt : List ℕ → ℕ
ip6_nxt p = u8 p 6

unfoldable pub ip6_src : List ℕ → Addr
ip6_src p = addr_at p 8

unfoldable pub ip6_dst : List ℕ → Addr
ip6_dst p = addr_at p 24

-- The fields of the ICMPv6 header behind the IPv6 header.
unfoldable pub icmp6_type : List ℕ → ℕ
icmp6_type p = u8 p 40

unfoldable pub icmp6_code : List ℕ → ℕ
icmp6_code p = u8 p 41

-- A header with version 6, no traffic class and no flow label.
unfoldable pub ip6_header : ℕ → ℕ → ℕ → Addr → Addr → List ℕ
ip6_header plen nxt hlim src dst =
    bytes32 0x60000000 ++ (bytes16 plen ++ (nxt ∷ hlim ∷ (s6_addr src ++ s6_addr dst)))

-- `IsBubble` of libteredo/packets.h
unfoldable pub is_bubble : List ℕ → Bool
is_bubble p = ip6_plen p == 0 && ip6_nxt p == ipproto_none
