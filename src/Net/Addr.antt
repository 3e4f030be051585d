-- ===== src/Net/Addr.antt =====
-- libteredo/teredo.h: `union teredo_addr` and the macros on it. An IPv6 address is kept as the
-- fields of its Teredo view, each in network byte order; `s6_addr` is the other view, its bytes.
pub mod Prefix
use miredo.Prelude.Word.{Endian, host32, bytes16, bytes32, u8, u16, u32, not16, not32, bit_at}
use miredo.Prelude.{◌==◌, ℕ, ◌+◌, ◌/◌, ◌^◌, ◌≡◌, Bool, true, not, ◌&&◌, List, ◌++◌, arith}

pub record Addr : Type 0 where
  pub prefix : ℕ
  pub server_ip : ℕ
  pub flags : ℕ
  pub client_port : ℕ
  pub client_ip : ℕ

-- The 16 bytes of an address, and the address whose bytes stand at an offset of a buffer.
unfoldable pub s6_addr : Addr → List ℕ
s6_addr a =
    bytes32 a.prefix
    ++ (bytes32 a.server_ip ++ (bytes16 a.flags ++ (bytes16 a.client_port ++ bytes32 a.client_ip)))

unfoldable pub addr_at : List ℕ → ℕ → Addr
addr_at b i = record {
  prefix = u32 b i;
  server_ip = u32 b (i + 4);
  flags = u16 b (i + 8);
  client_port = u16 b (i + 10);
  client_ip = u32 b (i + 12);
}

-- `IN6_ARE_ADDR_EQUAL`
unfoldable pub addr_equal : Addr → Addr → Bool
addr_equal a b =
    a.prefix == b.prefix
    && (a.server_ip == b.server_ip
        && (a.flags == b.flags && (a.client_port == b.client_port && a.client_ip == b.client_ip)))

abbrev pub ipport_teredo : ℕ
ipport_teredo = 3544

abbrev pub teredo_prefix : ℕ
teredo_prefix = 0x20010000

abbrev pub teredo_prefix_obsolete : ℕ
teredo_prefix_obsolete = 0x3ffe831f

abbrev pub teredo_flag_cone : ℕ
teredo_flag_cone = 0x8000

-- `teredo_restrict` (the Vista variant), `teredo_cone` and `in6addr_allrouters`
abbrev pub teredo_restrict : Addr
teredo_restrict = record {
  prefix = 0xfe800000;
  server_ip = 0;
  flags = 0;
  client_port = 0xffff;
  client_ip = 0xffffffff;
}

abbrev pub teredo_cone : Addr
teredo_cone = record {
  prefix = 0xfe800000;
  server_ip = 0;
  flags = 0x8000;
  client_port = 0x5445;
  client_ip = 0x5245444f;
}

abbrev pub in6addr_allrouters : Addr
in6addr_allrouters = record {
  prefix = 0xff020000;
  server_ip = 0;
  flags = 0;
  client_port = 0;
  client_ip = 2;
}

-- `IN6_TEREDO_IPV4`, `IN6_TEREDO_PORT`: the mapped address, which the IPv6 address holds inverted.
unfoldable pub teredo_ipv4 : Addr → ℕ
teredo_ipv4 a = not32 a.client_ip

unfoldable pub teredo_port : Addr → ℕ
teredo_port a = not16 a.client_port

-- `IN6_IS_TEREDO_ADDR_CONE`
unfoldable pub is_cone : Addr → Bool
is_cone a = not (bit_at a.flags 15 == 0)

-- `in6_matches_teredo_client`
unfoldable pub matches_teredo_client : Addr → ℕ → ℕ → Bool
matches_teredo_client a ip port = ip == teredo_ipv4 a && port == teredo_port a

-- `is_valid_teredo_prefix`: the mask is applied to the word as the host reads it, without `ntohl`.
unfoldable pub is_valid_teredo_prefix : Endian → ℕ → Bool
unfolding host32
is_valid_teredo_prefix e prefix = not (host32 e prefix / 2 ^ 24 == 0xff)

-- `s6_addr[0] == 0xff`: `IN6_IS_ADDR_MULTICAST`
unfoldable pub is_multicast : Addr → Bool
unfolding s6_addr
is_multicast a = u8 (s6_addr a) 0 == 0xff

-- `IN6_IS_ADDR_LINKLOCAL`: `fe80::/10`
unfoldable pub is_linklocal : Addr → Bool
unfolding s6_addr
is_linklocal a = u8 (s6_addr a) 0 == 0xfe && u8 (s6_addr a) 1 / 2 ^ 6 == 2

abbrev pub unspecified : Addr
unspecified = record { prefix = 0; server_ip = 0; flags = 0; client_port = 0; client_ip = 0 }

-- `IN6_IS_ADDR_UNSPECIFIED` and `IN6_IS_ADDR_LOOPBACK`
unfoldable pub is_unspecified : Addr → Bool
unfolding addr_equal
is_unspecified a = addr_equal a unspecified

unfoldable pub is_loopback : Addr → Bool
unfolding addr_equal
is_loopback a = addr_equal a (record unspecified { client_ip = 1 })

pub addr_equal_refl : (a : Addr) → addr_equal a a ≡ true
unfolding addr_equal
addr_equal_refl a = ground arith

pub eq_of_addr_equal : (a b : Addr) → addr_equal a b ≡ true → a ≡ b
unfolding addr_equal
eq_of_addr_equal a b h = ground arith
