-- ===== src/Security.antt =====
-- libteredo/security.c: keyed hashes for nonces and pings. MD5 (libteredo/md5.c, the code of
-- another project) is the parameter `md5`: the digest of a byte string.
pub mod Key
pub mod PingHash
use miredo.Prelude.Word.{Endian, host32, bytes16, bytes32, u16}
use miredo.Prelude.{
  ltb, leb, if◌then◌else◌, length, take, drop, replicate, same_bytes, ℕ, ◌+◌, ◌-◌, ◌*◌, ◌/◌, ◌%◌,
  ◌^◌, Bool, false, not, Option, none, some, List, [], ◌∷◌, ◌++◌, map,
}
use Prim.Native.Nat.{bit_xor}
use miredo.Net.Addr.{Addr, s6_addr}

-- `inner_key`, `outer_key` after padding, and `hmac_pid`.
pub record Hmac : Type 0 where
  pub ipad : List ℕ
  pub opad : List ℕ
  pub hmac_pid : ℕ

abbrev pub libteredo_key_len : ℕ
libteredo_key_len = 16

abbrev pub hmac_block_len : ℕ
hmac_block_len = 64

-- `read (fd, key + len, …)` of the bytes `r`.
unfoldable pub write_at : ℕ → List ℕ → List ℕ → List ℕ
write_at len r key = take len key ++ (r ++ drop (len + length r) key)

-- The loop that fills the key. The list is what each `read` delivers, nothing for an error; the
-- counter is an `unsigned`. `none`: the loop waits for a read after the last one.
unfoldable pub read_key : List (List ℕ) → ℕ → List ℕ → Option (List ℕ)
read_key [] len key = if ltb len libteredo_key_len then none else some key
read_key (r ∷ rs) len key =
    let more =
      read_key rs (if ltb 0 (length r) then (len + 2 ^ 32 - length r) % 2 ^ 32 else len)
        (write_at len r key) in
    if ltb len libteredo_key_len then more else some key

-- `teredo_init_HMAC` for a process that has no key yet: the key in a zeroed block, and the two
-- pads. `none` is the return of -1 (the random device does not open), or a loop that waits.
unfoldable pub init_hmac : Bool → List (List ℕ) → ℕ → Option Hmac
init_hmac opened reads pid =
    if opened
    then (elim (read_key reads 0 (replicate hmac_block_len 0)) [
      | none ↦ none
      | some key ↦ some (record {
        ipad = map (λ b. bit_xor b 0x36) key;
        opad = map (λ b. bit_xor b 0x5c) key;
        hmac_pid = pid % 2 ^ 16;
      })
    ])
    else none

module _ (md5 : List ℕ → List ℕ) where
  -- `teredo_hash`; `stamp` is the timestamp as its bytes lie in memory.
  unfoldable pub teredo_hash : Hmac → List ℕ → List ℕ → List ℕ → List ℕ
  teredo_hash k src dst stamp =
      let inner = md5 (k.ipad ++ (src ++ (dst ++ (bytes16 k.hmac_pid ++ stamp)))) in
      md5 (k.opad ++ take 16 inner)

  -- `teredo_get_pinghash`: process, the two halves of the timestamp, low half first, and the hash.
  unfoldable pub get_pinghash : Hmac → ℕ → Addr → Addr → List ℕ
  get_pinghash k timestamp src dst =
      bytes16 k.hmac_pid
      ++ (bytes16 timestamp
          ++ (bytes16 (timestamp / 2 ^ 16)
              ++ take 16 (teredo_hash k (s6_addr src) (s6_addr dst) (bytes32 timestamp))))

  -- `teredo_verify_pinghash`: `true` is the return of 0.
  unfoldable pub verify_pinghash : Hmac → ℕ → Addr → Addr → List ℕ → Bool
  verify_pinghash k now src dst hash =
      let timestamp = u16 hash 2 + u16 hash 4 * 2 ^ 16 in
      if not (same_bytes (take 2 hash) (bytes16 k.hmac_pid))
      then false
      else if leb 30 ((now + 2 ^ 32 - timestamp) % 2 ^ 32)
      then false
      else same_bytes (take 16 (teredo_hash k (s6_addr src) (s6_addr dst) (bytes32 timestamp)))
          (take 16 (drop 6 hash))

  -- `teredo_get_nonce`: address and port in network byte order, the timestamp as the host has it.
  unfoldable pub get_nonce : Endian → Hmac → ℕ → ℕ → ℕ → List ℕ
  get_nonce e k timestamp ipv4 port =
      take 8 (teredo_hash k (bytes32 ipv4) (bytes16 port) (bytes32 (host32 e timestamp)))

  -- `teredo_get_flbits`
  unfoldable pub get_flbits : Endian → Hmac → ℕ → ℕ
  get_flbits e k timestamp = u16 (teredo_hash k [] [] (bytes32 (host32 e timestamp))) 0
