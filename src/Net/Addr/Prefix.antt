-- ===== src/Net/Addr/Prefix.antt =====
-- What `is_valid_teredo_prefix` refuses, on hosts of either byte order.
use miredo.Prelude.Word.{host32, little, big}
use miredo.Prelude.{◌==◌, ◌%◌, ◌^◌, ◌<◌, ◌≡◌, not, arith}
use miredo.Net.Addr.{Addr, is_valid_teredo_prefix, is_multicast, s6_addr}

-- On a big-endian host the prefixes of multicast addresses are the ones refused. On a little-endian
-- host those are refused whose last byte is 0xff, whatever the first: multicast ones are accepted.
pub is_valid_teredo_prefix_bytes :
    (a : Addr)
    → a.prefix < 2 ^ 32
    → (is_valid_teredo_prefix big a.prefix ≡ not (is_multicast a))
      × (is_valid_teredo_prefix little a.prefix ≡ not (a.prefix % 256 == 0xff))
unfolding is_valid_teredo_prefix is_multicast host32 s6_addr
is_valid_teredo_prefix_bytes a h = ground arith
