-- ===== src/Checksum.antt =====
-- libteredo/teredo.c and checksum.h: the Internet checksum over a scatter-gather array.
pub mod Sum
pub mod Order
use miredo.Prelude.Word.{Endian, host16, bytes32, little, big}
use miredo.Prelude.{
  ltb, if◌then◌else◌, length, take, ℕ, ◌+◌, ◌-◌, ◌*◌, ◌^◌, Bool, true, false, List, [], ◌∷◌, ◌++◌,
}
use miredo.Net.Addr.{Addr, s6_addr}
use miredo.Net.Ip6.{ipproto_icmpv6, ip6_plen, ip6_src, ip6_dst}

-- The variables of `in_cksum`: the sum, whether a byte waits in `w.bytes[0]`, and that byte.
pub record Acc : Type 0 where
  pub sum : ℕ
  pub odd : Bool
  pub first : ℕ

-- `w.word` on a host of either byte order.
unfoldable pub word_at : Endian → ℕ → ℕ → ℕ
word_at little b0 b1 = b0 + b1 * 2 ^ 8
word_at big b0 b1 = b0 * 2 ^ 8 + b1

-- `sum += w.word; if (sum > 0xffff) sum -= 0xffff;`
unfoldable pub add_word : ℕ → ℕ → ℕ
add_word sum word = if ltb 0xffff (sum + word) then sum + word - 0xffff else sum + word

-- One round of the inner loop.
unfoldable pub add_byte : Endian → Acc → ℕ → Acc
unfolding word_at add_word
add_byte e a b =
    if a.odd
    then record a { sum = add_word a.sum (word_at e a.first b); odd = false }
    else record a { odd = true; first = b }

-- The inner loop over one buffer, and the outer loop over the array.
unfoldable pub add_bytes : Endian → Acc → List ℕ → Acc
unfolding add_byte
add_bytes e a [] = a
add_bytes e a (b ∷ bs) = add_bytes e (add_byte e a b) bs

unfoldable pub add_buffers : Endian → Acc → List (List ℕ) → Acc
unfolding add_bytes
add_buffers e a [] = a
add_buffers e a (b ∷ bs) = add_buffers e (add_bytes e a b) bs

-- The padding of an odd byte, and the complement.
unfoldable pub finish : Endian → Acc → ℕ
unfolding word_at add_word
finish e a = 0xffff - (if a.odd then add_word a.sum (word_at e a.first 0) else a.sum)

abbrev pub start : Acc
start = record { sum = 0; odd = false; first = 0 }

-- `in_cksum`: the word that the host computes.
unfoldable pub in_cksum : Endian → List (List ℕ) → ℕ
unfolding add_buffers finish
in_cksum e iov = finish e (add_buffers e start iov)

abbrev pub total_length : List (List ℕ) → ℕ
total_length [] = 0
total_length (b ∷ bs) = length b + total_length bs

-- `teredo_cksum`: the pseudo header in front. The result is the word as it lies in memory.
unfoldable pub teredo_cksum : Endian → Addr → Addr → ℕ → List (List ℕ) → ℕ
unfolding in_cksum s6_addr
teredo_cksum e src dst protocol iov = host16 e (
    in_cksum e (s6_addr src ∷ s6_addr dst ∷ (bytes32 (total_length iov) ++ bytes32 protocol) ∷ iov))

-- `icmp6_checksum`, on a packet whose ICMPv6 message follows its header: `ip6_plen` bytes of it.
unfoldable pub icmp6_checksum : Endian → List ℕ → List ℕ → ℕ
unfolding teredo_cksum
icmp6_checksum e ip6 icmp6 =
    teredo_cksum e (ip6_src ip6) (ip6_dst ip6) ipproto_icmpv6 (take (ip6_plen ip6) icmp6 ∷ [])
