-- ===== src/Packets/Ping/Authentic.antt =====
-- What a passed ping check proves, and which answers pass it.
use miredo.Prelude.{
  ltb, ◌==◌, Bool-cases, drop, drop-drop, ℕ, ◌+◌, ◌-◌, ◌%◌, ◌^◌, ◌<◌, ◌≡◌, refl, sym, ap, ◌∙◌, ◌⊎◌,
  inl, inr, true, List, ◌∷◌, ◌++◌, arith,
}
use miredo.Security.PingHash.{verify-get_pinghash}
use miredo.Net.Addr.{s6_addr, Addr, eq_of_addr_equal}
use miredo.Net.Ip6.{icmp6_code, ip6_header, ip6_src, ip6_dst, icmp6_type}
use miredo.Security.{get_pinghash, verify_pinghash}
use miredo.Packets.{Host}
use miredo.Packets.Headers.{ip6_dst-header, ip6_src-header, ip6_plen-header, ip6_nxt-header, Fits}
use miredo.Packets.Ping.{check_hash, check_unreachable, check_ping}

check_unreachable_authentic :
    (h : Host) (time : ℕ) (ip6 : List ℕ)
    → check_unreachable h time ip6 ≡ true
    → verify_pinghash h.md5 h.hmac
        (time % 2 ^ 32)
        (ip6_dst ip6)
        (ip6_src ip6)
        (drop 44 (drop 48 ip6))
      ≡ true
unfolding check_unreachable check_hash
check_unreachable_authentic h time ip6 e =
    let inner : List ℕ = drop 48 ip6 in
    ground (
      arith,
      eq_of_addr_equal (ip6_src inner) (ip6_dst ip6),
      eq_of_addr_equal (ip6_dst inner) (ip6_src ip6),
    )

-- A packet that passes `CheckPing`, be it an echo reply or an error about our echo request, carries
-- for its own destination and source a hash that verifies, behind its own header or behind that of the
-- request in it.
pub check_ping_authentic :
    (h : Host) (time : ℕ) (ip6 : List ℕ)
    → check_ping h time ip6 ≡ true
    → (n : ℕ) × ((n ≡ 44) ⊎ (n ≡ 92))
      × (verify_pinghash h.md5 h.hmac (time % 2 ^ 32) (ip6_dst ip6) (ip6_src ip6) (drop n ip6)
          ≡ true)
unfolding check_ping check_hash
check_ping_authentic h time ip6 e = elim (Bool-cases (icmp6_type ip6 == 1)) [
  | inl error ↦ (
    92,
    inr refl,
    ap (verify_pinghash h.md5 h.hmac (time % 2 ^ 32) (ip6_dst ip6) (ip6_src ip6))
          (sym (drop-drop 48 44 ip6))
        ∙ check_unreachable_authentic h time ip6 (ground arith),
  )
  | inr reply ↦ (44, inl refl, ground arith)
]

reply_fields :
    (hlim c d : ℕ) (src dst : Addr) (hash : List ℕ)
    → let m = ip6_header 26 58 hlim dst src ++ (129 ∷ 0 ∷ c ∷ d ∷ hash) in
      (icmp6_type m ≡ 129) × (icmp6_code m ≡ 0) × (drop 44 m ≡ hash)
unfolding ip6_header icmp6_type icmp6_code s6_addr
reply_fields hlim c d src dst hash = (refl, refl, refl)

-- The echo reply to a ping that `SendPing` made for an address, with the hash of the request, passes
-- the check exactly for 30 seconds.
pub check_ping-echo_reply :
    (h : Host) (sent now hlim c d : ℕ) (src dst : Addr)
    → sent < 2 ^ 32
    → Fits src
    → Fits dst
    → check_ping h now (
        ip6_header 26 58 hlim dst src ++ (129 ∷ 0 ∷ c ∷ d ∷ get_pinghash h.md5 h.hmac sent src dst))
      ≡ ltb ((now % 2 ^ 32 + 2 ^ 32 - sent) % 2 ^ 32) 30
unfolding check_ping check_hash
check_ping-echo_reply h sent now hlim c d src dst w fs fd =
    let hash : List ℕ = get_pinghash h.md5 h.hmac sent src dst in
    let rest : List ℕ = 129 ∷ 0 ∷ c ∷ d ∷ hash in
    ground (
      arith,
      ip6_nxt-header 26 58 hlim dst src rest,
      ip6_plen-header 26 58 hlim dst src rest,
      ip6_src-header 26 58 hlim dst src rest fd,
      ip6_dst-header 26 58 hlim dst src rest fs,
      reply_fields hlim c d src dst hash,
      verify-get_pinghash h.md5 h.hmac (now % 2 ^ 32) sent src dst w,
    )
