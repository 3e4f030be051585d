-- ===== src/Packets/Error.antt =====
-- `BuildICMPv6Error`: the error message for a packet, or nothing.
use miredo.Prelude.Word.{bit_at}
use miredo.Prelude.{ltb, ◌==◌, if◌then◌else◌, take, ℕ, ◌&&◌, ◌||◌, List, [], ◌∷◌, ◌++◌}
use miredo.Net.Addr.{is_multicast, is_unspecified}
use miredo.Net.Ip6.{ip6_nxt, ip6_src, ip6_dst, icmp6_type, ipproto_icmpv6}

-- The message, of `inlen` bytes of the packet behind an ICMPv6 header; empty for the return of 0.
-- `behind` is the byte of the buffer behind the packet, which is read as the type if the packet is a header only.
unfoldable pub build_icmpv6_error : ℕ → ℕ → ℕ → List ℕ → ℕ → List ℕ
build_icmpv6_error behind type code packet inlen =
    if ltb inlen 40
    then []
    else if ip6_nxt packet == ipproto_icmpv6 && bit_at (icmp6_type (packet ++ (behind ∷ []))) 7 == 0
    then []
    else if is_multicast (ip6_dst packet)
    then []
    else if is_multicast (ip6_src packet) || is_unspecified (ip6_src packet)
    then []
    else type ∷ code ∷ 0 ∷ 0 ∷ 0 ∷ 0 ∷ 0 ∷ 0 ∷ take (if ltb 1232 inlen then 1232 else inlen) packet
