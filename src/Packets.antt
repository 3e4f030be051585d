-- ===== src/Packets.antt =====
-- libteredo/packets.c: the packets that relay and client build and check. What a process has at
-- hand for them is a `Host`. The functions that send return what they hand to the socket, and
-- whether they return 0.
pub mod Headers
pub mod Bubble
pub mod Ra
pub mod Error
pub mod Ping
use miredo.Prelude.Word.{Endian}
use miredo.Prelude.{ltb, ◌==◌, length, ℕ, ◌≡◌, Bool, false, Option, none, some, List}
use miredo.Security.{Hmac}
use miredo.Checksum.Sum.{Bytes}

-- MD5, the byte order, the keys, and what `teredo_sendv` returns for a datagram: the count of bytes
-- sent, or `none` for -1.
pub record Host : Type 0 where
  pub md5 : List ℕ → List ℕ
  pub endian : Endian
  pub hmac : Hmac
  pub sendv : ℕ → ℕ → List ℕ → Option ℕ

-- What MD5 returns: 16 bytes.
pub record IsDigest (md5 : List ℕ → List ℕ) : Type 0 where
  pub size : (m : List ℕ) → length (md5 m) ≡ 16
  pub bytes : (m : List ℕ) → Bytes (md5 m)

-- Whether a result of `teredo_sendv` is positive, and whether it is a given count.
unfoldable pub is_positive : Option ℕ → Bool
is_positive none = false
is_positive (some n) = ltb 0 n

unfoldable pub is_count : ℕ → Option ℕ → Bool
is_count n none = false
is_count n (some m) = m == n
