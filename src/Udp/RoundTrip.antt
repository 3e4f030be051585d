-- ===== src/Udp/RoundTrip.antt =====
-- What is sent behind the Teredo headers is what `teredo_recv_inner` hands on.
use miredo.Prelude.Word.{bytes16, bytes32, not16, not32}
use miredo.Prelude.{
  ◌==◌, length, drop, length-append, take_len, drop_len, get_or_len, ℕ, ◌+◌, ◌*◌, ◌/◌, ◌%◌, ◌^◌,
  ◌≤◌, ◌<◌, ◌≡◌, refl, Bool, true, false, not, Option, none, some, List, [], ◌∷◌, ◌++◌,
  append_assoc, arith,
}
use miredo.Udp.{Datagram, TeredoPacket, Stale, strip_auth, strip_origin, recv_inner}

-- An authentication header: identifier, authenticator, nonce and confirmation byte.
pub record Auth : Type 0 where
  pub client_id : List ℕ
  pub authenticator : List ℕ
  pub nonce : List ℕ
  pub confirmation : ℕ

-- The bytes of an authentication header in front of others.
abbrev pub with_auth : Auth → List ℕ → List ℕ
with_auth a rest =
    0
    ∷ 1
    ∷ length a.client_id
    ∷ length a.authenticator
    ∷ ((a.client_id ++ a.authenticator) ++ (a.nonce ++ (a.confirmation ∷ rest)))

-- The bytes of an origin indication in front of others.
abbrev pub with_origin : ℕ → ℕ → List ℕ → List ℕ
with_origin ip port rest = 0 ∷ 0 ∷ (bytes16 (not16 port) ++ (bytes32 (not32 ip) ++ rest))

with_auth-append : (a : Auth) (xs ys : List ℕ) → with_auth a xs ++ ys ≡ with_auth a (xs ++ ys)
with_auth-append a xs ys = simp append_assoc

length-with_auth :
    (a : Auth) (rest : List ℕ)
    → length a.nonce ≡ 8
    → length (with_auth a rest) ≡ 13 + (length a.client_id + length a.authenticator) + length rest
length-with_auth a rest h = omega (
  arith,
  length-append (a.client_id ++ a.authenticator) (a.nonce ++ (a.confirmation ∷ rest)),
  length-append a.client_id a.authenticator,
  length-append a.nonce (a.confirmation ∷ rest),
)

-- The authentication stage on such bytes, with whatever `junk` the buffer holds behind them.
strip_auth-with_auth :
    (old : Stale) (a : Auth) (rest junk : List ℕ)
    → length a.nonce ≡ 8
    → strip_auth old (with_auth a (rest ++ junk)) (length (with_auth a rest))
      ≡ some (record {
        buf = rest ++ drop (length rest) (with_auth a (rest ++ junk));
        len = length rest;
        auth_present = true;
        auth_fail = not (a.confirmation == 0);
        auth_nonce = a.nonce;
      })
unfolding strip_auth
strip_auth-with_auth old a rest junk h =
    let tail : List ℕ = a.confirmation ∷ (rest ++ junk) in
    let body : List ℕ = (a.client_id ++ a.authenticator) ++ (a.nonce ++ tail) in
    let k : ℕ = length a.client_id + length a.authenticator in
    let at_nonce : drop k body ≡ a.nonce ++ tail =
      drop_len k (a.client_id ++ a.authenticator) (a.nonce ++ tail)
        (length-append a.client_id a.authenticator) in
    ground (
      arith,
      at_nonce,
      length-with_auth a rest h,
      take_len 8 a.nonce tail h,
      get_or_len 8 a.nonce (rest ++ junk) a.confirmation 0 h,
      drop_len 9 (a.nonce ++ (a.confirmation ∷ [])) (rest ++ junk),
      take_len (length rest) rest junk refl,
    )

pub record Origin : Type 0 where
  pub ipv4 : ℕ
  pub port : ℕ

-- The packet that the two stages make of an IPv6 packet with these headers in front.
abbrev pub received : Datagram → Bool → Bool → List ℕ → Option Origin → List ℕ → TeredoPacket
received d present fail nonce o ip6 = record {
  ip6 = ip6;
  source_ipv4 = d.source_ipv4;
  source_port = d.source_port;
  orig_port = elim o [ none ↦ 0 | some x ↦ x.port ];
  orig_ipv4 = elim o [ none ↦ 0 | some x ↦ x.ipv4 ];
  dest_ipv4 = d.dest_ipv4;
  auth_present = present;
  auth_fail = fail;
  auth_nonce = nonce;
}

abbrev pub with_origin? : Option Origin → List ℕ → List ℕ
with_origin? none rest = rest
with_origin? (some o) rest = with_origin o.ipv4 o.port rest

abbrev pub OriginFits : Option Origin → Type 0
OriginFits none = Unit {0}
OriginFits (some o) = (o.ipv4 < 2 ^ 32) × (o.port < 2 ^ 16)

not16_bytes :
    (port : ℕ) → port < 2 ^ 16 → not16 (not16 port / 2 ^ 8 % 256 * 2 ^ 8 + not16 port % 256) ≡ port
not16_bytes port h = omega arith

not32_bytes :
    (ip : ℕ)
    → ip < 2 ^ 32
    → not32 (
        (not32 ip / 2 ^ 24 % 256 * 2 ^ 8 + not32 ip / 2 ^ 16 % 256) * 2 ^ 16
        + (not32 ip / 2 ^ 8 % 256 * 2 ^ 8 + not32 ip % 256))
      ≡ ip
not32_bytes ip h = omega arith

-- The origin stage. The IPv6 packet begins with a byte that is not zero, such as a version.
strip_origin-with_origin? :
    (d : Datagram) (present fail : Bool) (nonce : List ℕ) (o : Option Origin) (v : ℕ)
    (rest junk : List ℕ)
    → OriginFits o
    → 0 < v
    → strip_origin d (record {
      buf = with_origin? o (v ∷ rest) ++ junk;
      len = length (with_origin? o (v ∷ rest));
      auth_present = present;
      auth_fail = fail;
      auth_nonce = nonce;
    })
      ≡ some (received d present fail nonce o (v ∷ rest))
unfolding strip_origin
strip_origin-with_origin? d present fail nonce none v rest junk f h =
    ground (arith, take_len (length rest) rest junk refl)
strip_origin-with_origin? d present fail nonce (some o) v rest junk f h = ground (
  arith,
  take_len (length (v ∷ rest)) (v ∷ rest) junk refl,
  not16_bytes o.port f.1,
  not32_bytes o.ipv4 f.0,
)

-- An authentication header if there is one.
abbrev pub with_auth? : Option Auth → List ℕ → List ℕ
with_auth? none rest = rest
with_auth? (some a) rest = with_auth a rest

abbrev pub AuthFits : Option Auth → Type 0
AuthFits none = Unit {0}
AuthFits (some a) = length a.nonce ≡ 8

strip_auth-none :
    (old : Stale) (o : Option Origin) (v w : ℕ) (rest junk : List ℕ) (n : ℕ)
    → 0 < v
    → strip_auth old (with_origin? o (v ∷ w ∷ rest) ++ junk) n
      ≡ some (record {
        buf = with_origin? o (v ∷ w ∷ rest) ++ junk;
        len = n;
        auth_present = false;
        auth_fail = old.auth_fail;
        auth_nonce = old.auth_nonce;
      })
unfolding strip_auth
strip_auth-none old none v w rest junk n h = ground arith
strip_auth-none old (some o) v w rest junk n h = refl

two-le-length :
    (o : Option Origin) (v w : ℕ) (rest : List ℕ) → 2 ≤ length (with_origin? o (v ∷ w ∷ rest))
two-le-length none v w rest = omega arith
two-le-length (some o) v w rest = omega arith

-- A datagram made of an optional authentication header, an optional origin indication and an IPv6
-- packet is received as that packet, with the origin in clear and the nonce and the confirmation
-- of the header; whatever the receive buffer held before.
pub recv_inner-headers :
    (old : Stale) (a : Option Auth) (o : Option Origin) (v w : ℕ) (rest : List ℕ) (ip port dest : ℕ)
    → AuthFits a
    → OriginFits o
    → 0 < v
    → let d : Datagram = record {
      payload = with_auth? a (with_origin? o (v ∷ w ∷ rest));
      source_ipv4 = ip;
      source_port = port;
      dest_ipv4 = dest;
    } in
      recv_inner old d
      ≡ some (elim a [
        | none ↦ received d false old.auth_fail old.auth_nonce o (v ∷ w ∷ rest)
        | some x ↦ received d true (not (x.confirmation == 0)) x.nonce o (v ∷ w ∷ rest)
      ])
unfolding recv_inner
recv_inner-headers old none o v w rest ip port dest f g h =
    let d : Datagram = record {
      payload = with_origin? o (v ∷ w ∷ rest);
      source_ipv4 = ip;
      source_port = port;
      dest_ipv4 = dest;
    } in
    let n : ℕ = length (with_origin? o (v ∷ w ∷ rest)) in
    let junk : List ℕ = drop n old.fill in
    ground (
      arith,
      two-le-length o v w rest,
      strip_auth-none old o v w rest junk n h,
      strip_origin-with_origin? d false old.auth_fail old.auth_nonce o v (w ∷ rest) junk g h,
    )
recv_inner-headers old (some a) o v w rest ip port dest f g h =
    let inner : List ℕ = with_origin? o (v ∷ w ∷ rest) in
    let d : Datagram = record {
      payload = with_auth a inner;
      source_ipv4 = ip;
      source_port = port;
      dest_ipv4 = dest;
    } in
    let junk : List ℕ = drop (length (with_auth a inner)) old.fill in
    ground (
      arith,
      with_auth-append a inner junk,
      strip_auth-with_auth old a inner junk f,
      strip_origin-with_origin? d true (not (a.confirmation == 0)) a.nonce o v (w ∷ rest)
          (drop (length inner) (with_auth a (inner ++ junk))) g h,
    )
