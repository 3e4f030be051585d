-- ===== src/Tests/Wire.antt =====
-- The theorems on datagrams, checksums and hashes, tried.
use miredo.Prelude.Word.{little, big}
use miredo.Prelude.{replicate, ◌-◌, ◌≡◌, refl, true, false, not, none, some, [], ◌∷◌, arith}
use miredo.Tests.{alice}
use miredo.Net.Ipv4.{is_ipv4_global_unicast}
use miredo.Net.Ipv4.Ranges.{forbidden, in_ranges, global_unicast-in_ranges}
use miredo.Net.Addr.{is_valid_teredo_prefix, is_multicast}
use miredo.Net.Addr.Prefix.{is_valid_teredo_prefix_bytes}
use miredo.Udp.{Stale, Datagram, recv_inner, strip_auth, strip_origin}
use miredo.Udp.RoundTrip.{recv_inner-headers, Auth, Origin, with_auth, with_origin, received}
use miredo.Udp.Extent.{recv_inner-SuffixOf, SuffixOf}
use miredo.Checksum.{in_cksum}
use miredo.Checksum.Sum.{fold16, word_sum, in_cksum-fold16}
use miredo.Security.{read_key}
use miredo.Security.Key.{read_key_short}

global_unicast-in_ranges_example :
    is_ipv4_global_unicast 0xac1f0001 ≡ not (in_ranges 0xac1f0001 forbidden)
global_unicast-in_ranges_example = global_unicast-in_ranges 0xac1f0001 (omega arith)

is_valid_teredo_prefix_bytes_example :
    (is_valid_teredo_prefix big 0x20010000 ≡ not (is_multicast alice))
    × (is_valid_teredo_prefix little 0x20010000 ≡ true)
is_valid_teredo_prefix_bytes_example = is_valid_teredo_prefix_bytes alice (omega arith)

abbrev used : Stale
used = record { fill = 1 ∷ 2 ∷ 3 ∷ []; auth_fail = true; auth_nonce = replicate 8 9 }

abbrev auth : Auth
auth = record {
  client_id = 5 ∷ [];
  authenticator = 6 ∷ 7 ∷ [];
  nonce = replicate 8 4;
  confirmation = 0;
}

abbrev origin : Origin
origin = record { ipv4 = 0xcb007105; port = 4096 }

abbrev wrapped : Datagram
wrapped = record {
  payload = with_auth auth (with_origin 0xcb007105 4096 (0x60 ∷ 0 ∷ 1 ∷ []));
  source_ipv4 = 0xc6336401;
  source_port = 3544;
  dest_ipv4 = 0;
}

recv_inner-headers_example :
    recv_inner used wrapped
    ≡ some (received wrapped true false (replicate 8 4) (some origin) (0x60 ∷ 0 ∷ 1 ∷ []))
recv_inner-headers_example =
    recv_inner-headers used (some auth) (some origin) 0x60 0 (1 ∷ []) 0xc6336401 3544 0 refl
      (omega arith, omega arith) (omega arith)

abbrev plain : Datagram
plain = record { payload = 0x60 ∷ 0 ∷ 1 ∷ []; source_ipv4 = 1; source_port = 2; dest_ipv4 = 3 }

plain_arrives :
    recv_inner used plain ≡ some (received plain false true (replicate 8 9) none plain.payload)
unfolding recv_inner strip_auth strip_origin
plain_arrives = refl

recv_inner-SuffixOf_example : SuffixOf (0x60 ∷ 0 ∷ 1 ∷ []) (0x60 ∷ 0 ∷ 1 ∷ [])
recv_inner-SuffixOf_example =
    recv_inner-SuffixOf used plain
      {p = received plain false true (replicate 8 9) none (0x60 ∷ 0 ∷ 1 ∷ [])} plain_arrives

in_cksum-fold16_example :
    in_cksum big ((1 ∷ 2 ∷ 3 ∷ []) ∷ (255 ∷ 255 ∷ []) ∷ [])
    ≡ 0xffff - fold16 (word_sum (1 ∷ 2 ∷ 3 ∷ 255 ∷ 255 ∷ []))
in_cksum-fold16_example = in_cksum-fold16 ((1 ∷ 2 ∷ 3 ∷ []) ∷ (255 ∷ 255 ∷ []) ∷ []) (omega arith)

read_key_short_example :
    read_key ((8 ∷ 9 ∷ []) ∷ replicate 14 5 ∷ []) 0 (replicate 64 0) ≡ some (8 ∷ 9 ∷ replicate 62 0)
read_key_short_example =
    read_key_short (8 ∷ 9 ∷ []) (replicate 14 5 ∷ []) (omega arith) (omega arith)
