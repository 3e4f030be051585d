-- ===== src/Security/PingHash.antt =====
-- Which ping hashes are accepted.
use miredo.Prelude.Word.{bytes16, bytes32, u16}
use miredo.Prelude.{
  ltb, take, drop, take-take, same_bytes_refl, eq_of_same_bytes, ℕ, ◌+◌, ◌-◌, ◌*◌, ◌/◌, ◌%◌, ◌^◌,
  ◌<◌, ◌≡◌, true, List, arith,
}
use miredo.Net.Addr.{s6_addr, Addr}
use miredo.Security.{Hmac, teredo_hash, get_pinghash, verify_pinghash}

timestamp_bytes :
    (t : ℕ)
    → t < 2 ^ 32
    → t / 2 ^ 8 % 256 * 2 ^ 8
        + t % 256
        + (t / 2 ^ 16 / 2 ^ 8 % 256 * 2 ^ 8 + t / 2 ^ 16 % 256) * 2 ^ 16
      ≡ t
timestamp_bytes t h = omega arith

-- A fresh hash of the same key and addresses is accepted, and a stale one is refused.
pub verify-get_pinghash :
    (md5 : List ℕ → List ℕ) (k : Hmac) (now timestamp : ℕ) (src dst : Addr)
    → timestamp < 2 ^ 32
    → verify_pinghash md5 k now src dst (get_pinghash md5 k timestamp src dst)
      ≡ ltb ((now + 2 ^ 32 - timestamp) % 2 ^ 32) 30
unfolding verify_pinghash get_pinghash
verify-get_pinghash md5 k now timestamp src dst h =
    let digest : List ℕ = teredo_hash md5 k (s6_addr src) (s6_addr dst) (bytes32 timestamp) in
    rw (timestamp_bytes timestamp h, take-take 16 digest)
      (ground (arith, same_bytes_refl (bytes16 k.hmac_pid), same_bytes_refl (take 16 digest)))

-- An accepted hash is, in its first 22 bytes, the hash that this process makes for the same pair of
-- addresses at the timestamp it carries, and that is less than 30 seconds old.
pub verify_pinghash_sound :
    (md5 : List ℕ → List ℕ) (k : Hmac) (now : ℕ) (src dst : Addr) (hash : List ℕ)
    → verify_pinghash md5 k now src dst hash ≡ true
    → let timestamp = u16 hash 2 + u16 hash 4 * 2 ^ 16 in
      (take 2 hash ≡ bytes16 k.hmac_pid)
      × (take 16 (drop 6 hash)
          ≡ take 16 (teredo_hash md5 k (s6_addr src) (s6_addr dst) (bytes32 timestamp)))
      × ((now + 2 ^ 32 - timestamp) % 2 ^ 32 < 30)
unfolding verify_pinghash
verify_pinghash_sound md5 k now src dst hash h =
    let timestamp : ℕ = u16 hash 2 + u16 hash 4 * 2 ^ 16 in
    let digest : List ℕ = teredo_hash md5 k (s6_addr src) (s6_addr dst) (bytes32 timestamp) in
    ground (
      arith,
      eq_of_same_bytes (take 2 hash) (bytes16 k.hmac_pid),
      eq_of_same_bytes (take 16 digest) (take 16 (drop 6 hash)),
    )
