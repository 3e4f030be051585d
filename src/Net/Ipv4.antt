-- ===== src/Net/Ipv4.antt =====
-- libteredo/v4global.c: which IPv4 addresses are global unicast.
pub mod Ranges
use miredo.Prelude.{ℕ, ◌/◌, ◌*◌, ◌%◌, ◌^◌, Bool, true, false, not, ◌&&◌, ◌==◌, if◌then◌else◌}
use miredo.Prelude.Word.{high_bits, bit_at}

-- `is_ipv4_global_unicast`: the classes by leading bits, then the forbidden networks of each.
unfoldable pub is_ipv4_global_unicast : ℕ → Bool
is_ipv4_global_unicast ip =
    if bit_at ip 31 == 0
    then not (high_bits ip 24 == 0x0a000000)
      && not (high_bits ip 24 == 0x7f000000)
      && not (high_bits ip 24 == 0x00000000)
    else if bit_at ip 30 == 0
    then not (high_bits ip 16 == 0xa9fe0000) && not (high_bits ip 20 == 0xac100000)
    else if bit_at ip 29 == 0
    then not (high_bits ip 16 == 0xc0a80000) && not (high_bits ip 8 == 0xc0586200)
    else if bit_at ip 28 == 0
    then false
    else not (ip == 0xffffffff)
