-- ===== src/Packets/Headers.antt =====
-- Reading back the header that is written in front of a payload.
use miredo.Prelude.{ℕ, ◌+◌, ◌*◌, ◌/◌, ◌%◌, ◌^◌, ◌<◌, ◌≡◌, refl, List, ◌++◌, arith}
use miredo.Net.Addr.{Addr, s6_addr, addr_at}
use miredo.Net.Ip6.{ip6_header, ip6_vfc, ip6_plen, ip6_nxt, ip6_src, ip6_dst}

-- The fields of an address fit their words.
pub record Fits (a : Addr) : Type 0 where
  pub prefix : a.prefix < 2 ^ 32
  pub server_ip : a.server_ip < 2 ^ 32
  pub flags : a.flags < 2 ^ 16
  pub client_port : a.client_port < 2 ^ 16
  pub client_ip : a.client_ip < 2 ^ 32

pub word32 :
    (w : ℕ)
    → w < 2 ^ 32
    → (w / 2 ^ 24 % 256 * 2 ^ 8 + w / 2 ^ 16 % 256) * 2 ^ 16 + (w / 2 ^ 8 % 256 * 2 ^ 8 + w % 256)
      ≡ w
word32 w h = omega arith

pub word16 : (w : ℕ) → w < 2 ^ 16 → w / 2 ^ 8 % 256 * 2 ^ 8 + w % 256 ≡ w
word16 w h = omega arith

-- The bytes of an address, read back, are the address.
pub addr_at-s6_addr : (a : Addr) → Fits a → addr_at (s6_addr a) 0 ≡ a
unfolding addr_at s6_addr
addr_at-s6_addr a f = ground (
  arith,
  word32 a.prefix f.prefix,
  word32 a.server_ip f.server_ip,
  word16 a.flags f.flags,
  word16 a.client_port f.client_port,
  word32 a.client_ip f.client_ip,
)

module _ (plen nxt hlim : ℕ) (src dst : Addr) (rest : List ℕ) where
  pub ip6_vfc-header : ip6_vfc (ip6_header plen nxt hlim src dst ++ rest) ≡ 0x60
  unfolding ip6_vfc ip6_header s6_addr
  ip6_vfc-header = refl

  pub ip6_nxt-header : ip6_nxt (ip6_header plen nxt hlim src dst ++ rest) ≡ nxt
  unfolding ip6_nxt ip6_header s6_addr
  ip6_nxt-header = refl

  pub ip6_plen-header : plen < 2 ^ 16 → ip6_plen (ip6_header plen nxt hlim src dst ++ rest) ≡ plen
  unfolding ip6_plen ip6_header s6_addr
  ip6_plen-header h = word16 plen h

  pub ip6_src-header : Fits src → ip6_src (ip6_header plen nxt hlim src dst ++ rest) ≡ src
  unfolding ip6_src ip6_header s6_addr addr_at
  ip6_src-header f = addr_at-s6_addr src f

  pub ip6_dst-header : Fits dst → ip6_dst (ip6_header plen nxt hlim src dst ++ rest) ≡ dst
  unfolding ip6_dst ip6_header s6_addr addr_at
  ip6_dst-header f = addr_at-s6_addr dst f
