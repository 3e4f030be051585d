-- ===== src/Udp.antt =====
-- libteredo/teredo.c and teredo-udp.h: the Teredo datagram and its encapsulation headers.
pub mod RoundTrip
pub mod Extent
use miredo.Prelude.{
  ℕ, ◌+◌, ◌-◌, Bool, true, false, not, ◌&&◌, ◌++◌, List, [], Option, none, some, ◌==◌, ltb,
  if◌then◌else◌, length, take, drop,
}
use miredo.Prelude.Word.{u8, u16, u32, not16, not32}

-- What `recvmsg` delivers: the payload, its source, and the destination address of `IP_PKTINFO`.
pub record Datagram : Type 0 where
  pub payload : List ℕ
  pub source_ipv4 : ℕ
  pub source_port : ℕ
  pub dest_ipv4 : ℕ

-- `struct teredo_packet`: `ip6` holds the `ip6_len` bytes at the pointer of that name.
pub record TeredoPacket : Type 0 where
  pub ip6 : List ℕ
  pub source_ipv4 : ℕ
  pub source_port : ℕ
  pub orig_port : ℕ
  pub orig_ipv4 : ℕ
  pub dest_ipv4 : ℕ
  pub auth_present : Bool
  pub auth_fail : Bool
  pub auth_nonce : List ℕ

-- What the fields of the packet that a call leaves unset held before it.
pub record Stale : Type 0 where
  pub fill : List ℕ
  pub auth_fail : Bool
  pub auth_nonce : List ℕ

-- The receive buffer and the byte count after the authentication header has been removed.
pub record Unwrapped : Type 0 where
  pub buf : List ℕ
  pub len : ℕ
  pub auth_present : Bool
  pub auth_fail : Bool
  pub auth_nonce : List ℕ

-- `memmove (buf, src, len)` where `src` is the rest of the same buffer.
unfoldable pub move_down : List ℕ → List ℕ → ℕ → List ℕ
move_down buf src len = take len src ++ drop len buf

-- The authentication header: 2 bytes of tag, two lengths, identifier and authenticator, 8 bytes of
-- nonce and the confirmation byte. `none` is the return of -1.
unfoldable pub strip_auth : Stale → List ℕ → ℕ → Option Unwrapped
unfolding move_down
strip_auth old buf len =
    let id_au = u8 buf 2 + u8 buf 3 in
    let ptr = drop id_au (drop 4 buf) in
    let len' = len - 13 - id_au in
    if u8 buf 0 == 0 && u8 buf 1 == 1
    then (if ltb len 13
        then none
        else if ltb (len - 13) id_au
        then none
        else some (record {
          buf = move_down buf (drop 9 ptr) len';
          len = len';
          auth_present = true;
          auth_fail = not (u8 ptr 8 == 0);
          auth_nonce = take 8 ptr;
        }))
    else some (record {
      buf = buf;
      len = len;
      auth_present = false;
      auth_fail = old.auth_fail;
      auth_nonce = old.auth_nonce;
    })

-- The origin indication: 2 bytes of tag, the port and the address, both inverted.
unfoldable pub strip_origin : Datagram → Unwrapped → Option TeredoPacket
strip_origin d u =
    if u8 u.buf 0 == 0 && u8 u.buf 1 == 0
    then (if ltb u.len 8
        then none
        else some (record {
          ip6 = take (u.len - 8) (drop 8 u.buf);
          source_ipv4 = d.source_ipv4;
          source_port = d.source_port;
          orig_port = not16 (u16 u.buf 2);
          orig_ipv4 = not32 (u32 u.buf 4);
          dest_ipv4 = d.dest_ipv4;
          auth_present = u.auth_present;
          auth_fail = u.auth_fail;
          auth_nonce = u.auth_nonce;
        }))
    else some (record {
      ip6 = take u.len u.buf;
      source_ipv4 = d.source_ipv4;
      source_port = d.source_port;
      orig_port = 0;
      orig_ipv4 = 0;
      dest_ipv4 = d.dest_ipv4;
      auth_present = u.auth_present;
      auth_fail = u.auth_fail;
      auth_nonce = u.auth_nonce;
    })

-- `teredo_recv_inner` on a datagram that has arrived: the payload overwrites the front of the
-- buffer. A failed `recvmsg` is the caller's `none`.
unfoldable pub recv_inner : Stale → Datagram → Option TeredoPacket
recv_inner old d =
    let len = length d.payload in
    if ltb len 2 then none else elim (strip_auth old (d.payload ++ drop len old.fill) len) [
      | none ↦ none
      | some u ↦ strip_origin d u
    ]
