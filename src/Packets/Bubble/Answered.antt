-- ===== src/Packets/Bubble/Answered.antt =====
-- The answer to one of our bubbles is recognised.
use miredo.Prelude.Word.{Endian, host32, bytes16, bytes32}
use miredo.Prelude.{
  length, take, drop, length-take, same_bytes_refl, ℕ, zero, suc, ◌+◌, ◌*◌, ◌/◌, ◌%◌, ◌^◌, ◌<◌, ◌≡◌,
  refl, ◌∙◌, true, List, [], ◌∷◌, ◌++◌, arith,
}
use miredo.Security.{Hmac, teredo_hash}
use miredo.Packets.Bubble.{bubble_source, interface_id, check_bubble, bubble_id}
use miredo.Net.Ip6.{ip6_header}
use miredo.Security.{get_nonce}
use miredo.Packets.{Host, IsDigest}
use miredo.Net.Addr.{teredo_port, teredo_ipv4, Addr, s6_addr, addr_at}
use miredo.Checksum.Sum.{Bytes}
use miredo.Packets.Headers.{ip6_dst-header, ip6_src-header, Fits}

abbrev source_bytes : List ℕ → List ℕ
source_bytes id = 0xfe ∷ 0x80 ∷ 0 ∷ 0 ∷ 0 ∷ 0 ∷ 0 ∷ 0 ∷ id

bytes_of_word16 :
    (a b : ℕ)
    → a < 256
    → b < 256
    → ((a * 2 ^ 8 + b) / 2 ^ 8 % 256 ≡ a) × ((a * 2 ^ 8 + b) % 256 ≡ b)
bytes_of_word16 a b ha hb = omega arith

bytes_of_word32 :
    (a b c d : ℕ)
    → a < 256
    → b < 256
    → c < 256
    → d < 256
    → let w = (a * 2 ^ 8 + b) * 2 ^ 16 + (c * 2 ^ 8 + d) in
      (w / 2 ^ 24 % 256 ≡ a) × (w / 2 ^ 16 % 256 ≡ b) × (w / 2 ^ 8 % 256 ≡ c) × (w % 256 ≡ d)
bytes_of_word32 a b c d ha hb hc hd = omega arith

-- An interface identifier of 8 bytes is what stands in the lower half of the address made of it.
low_half :
    (id : List ℕ)
    → length id ≡ 8
    → Bytes id
    → (drop 8 (s6_addr (addr_at (source_bytes id) 0)) ≡ id) × Fits (addr_at (source_bytes id) 0)
unfolding s6_addr addr_at
low_half (a ∷ b ∷ c ∷ d ∷ e ∷ f ∷ g ∷ i ∷ []) n (ha, (hb, (hc, (hd, (he, (hf, (hg, (hi, _)))))))) =
    (
      ground (
        arith,
        bytes_of_word16 a b ha hb,
        bytes_of_word16 c d hc hd,
        bytes_of_word32 e f g i he hf hg hi,
      ),
      omega arith,
    )
low_half xs n k = absurd (omega arith)

Bytes-take : (n : ℕ) (xs : List ℕ) → Bytes xs → Bytes (take n xs)
Bytes-take zero xs h = tt
Bytes-take (suc n) [] h = tt
Bytes-take (suc n) (x ∷ xs) h = (h.0, Bytes-take n xs h.1)

interface_id-Bytes :
    (xs : List ℕ) → Bytes xs → (length (interface_id xs) ≡ length xs) × Bytes (interface_id xs)
unfolding interface_id
interface_id-Bytes [] h = (refl, tt)
interface_id-Bytes (x ∷ xs) h = (refl, (omega arith, h.1))

hash-Bytes :
    (md5 : List ℕ → List ℕ) (k : Hmac) (src dst stamp : List ℕ)
    → IsDigest md5
    → (length (teredo_hash md5 k src dst stamp) ≡ 16) × Bytes (teredo_hash md5 k src dst stamp)
unfolding teredo_hash
hash-Bytes md5 k src dst stamp v = (v.size _, v.bytes _)

pub nonce-Bytes :
    (md5 : List ℕ → List ℕ) (e : Endian) (k : Hmac) (t ip port : ℕ)
    → IsDigest md5
    → (length (get_nonce md5 e k t ip port) ≡ 8) × Bytes (get_nonce md5 e k t ip port)
unfolding get_nonce
nonce-Bytes md5 e k t ip port v =
    let digest : List ℕ = teredo_hash md5 k (bytes32 ip) (bytes16 port) (bytes32 (host32 e t)) in
    let d = hash-Bytes md5 k (bytes32 ip) (bytes16 port) (bytes32 (host32 e t)) v in
    (omega (arith, length-take 8 digest, d.0), Bytes-take 8 digest d.1)

bubble_id-Bytes :
    (h : Host) (a : Addr) → IsDigest h.md5 → (length (bubble_id h a) ≡ 8) × Bytes (bubble_id h a)
unfolding bubble_id
bubble_id-Bytes h a v =
    let nonce : List ℕ = get_nonce h.md5 h.endian h.hmac 0 (teredo_ipv4 a) (teredo_port a) in
    let n = nonce-Bytes h.md5 h.endian h.hmac 0 (teredo_ipv4 a) (teredo_port a) v in
    let i = interface_id-Bytes nonce n.1 in (i.0 ∙ n.0, i.1)

-- The answer to a bubble of ours, in which the two addresses have changed places, is recognised by
-- `CheckBubble`, whatever its other fields: the peer's address gives the identifier that we made
-- our own address of.
pub check_bubble_answered :
    (h : Host) (peer : Addr) (plen nxt hlim : ℕ) (rest : List ℕ)
    → IsDigest h.md5
    → Fits peer
    → check_bubble h (ip6_header plen nxt hlim peer (bubble_source h peer) ++ rest) ≡ true
unfolding check_bubble bubble_source
check_bubble_answered h peer plen nxt hlim rest v f =
    let id = bubble_id-Bytes h peer v in
    let half = low_half (bubble_id h peer) id.0 id.1 in
    ground (
      arith,
      ip6_src-header plen nxt hlim peer (bubble_source h peer) rest f,
      ip6_dst-header plen nxt hlim peer (bubble_source h peer) rest half.1,
      half.0,
      same_bytes_refl (bubble_id h peer),
    )
