-- ===== src/Server/Advert.antt =====
-- The advertisement that a server sends is the one that a client reads.
use miredo.Packets.Ra.{
  Parse, unfinished, parse_ra, parse_options, read_option, accept_options, Advert, Options, parsed,
  rejected,
}
use miredo.Prelude.Word.{u32, Endian, bytes32, not16, not32}
use miredo.Udp.{TeredoPacket, Stale, Datagram, recv_inner}
use miredo.Net.Ip6.{ip6_header, ip6_dst, ip6_plen, ip6_nxt}
use miredo.Udp.RoundTrip.{recv_inner-headers, Auth, Origin, received}
use miredo.Prelude.{
  append_assoc, take, drop, Bool, length, refl, ltb, ◌==◌, if◌then◌else◌, ℕ, ◌^◌, ◌≤◌, ◌<◌, ◌≡◌, ap,
  ◌∙◌, true, false, ◌||◌, Option, none, some, List, [], ◌∷◌, ◌++◌, arith,
}
use miredo.Server.{
  Sending, datagram, Sockets, ra_message, ra_packet, send_ra, origin_indication, TeredoServer,
}
use miredo.Net.Addr.{
  Addr, addr_equal, addr_at, s6_addr, ipport_teredo, teredo_cone, teredo_restrict, teredo_flag_cone,
  teredo_prefix_obsolete, is_valid_teredo_prefix,
}
use miredo.Packets.Headers.{word32}

-- The options of the advertisement.
abbrev options : TeredoServer → List ℕ
options s =
    (3 ∷ 4 ∷ 64 ∷ 0x40 ∷ (bytes32 0xffffffff ++ (bytes32 0xffffffff ++ bytes32 0)))
    ++ ((bytes32 s.prefix ++ (bytes32 s.server_ip ++ (bytes32 0 ++ bytes32 0)))
        ++ (5 ∷ 1 ∷ 0 ∷ 0 ∷ bytes32 s.adv_link_mtu))

-- What a server may advertise.
pub record CanAdvertise (e : Endian) (s : TeredoServer) : Type 0 where
  pub prefix : s.prefix < 2 ^ 32
  pub server_ip : s.server_ip < 2 ^ 32
  pub low : 1280 ≤ s.adv_link_mtu
  pub high : s.adv_link_mtu < 2 ^ 16
  pub valid : is_valid_teredo_prefix e s.prefix ≡ true
  pub recent : (s.prefix == teredo_prefix_obsolete) ≡ false

abbrev mtu_option : TeredoServer → List ℕ
mtu_option s = 5 ∷ 1 ∷ 0 ∷ 0 ∷ bytes32 s.adv_link_mtu

abbrev found : ℕ → ℕ → ℕ → Options
found prefix server_ip mtu = record { prefix = prefix; server_ip = server_ip; net_mtu = mtu }

read_prefix :
    (s : TeredoServer) (stale : ℕ)
    → s.prefix < 2 ^ 32
    → s.server_ip < 2 ^ 32
    → read_option (options s) 32 (found stale 0 0) ≡ some (found s.prefix s.server_ip 0)
unfolding read_option
read_prefix s stale h k =
    ap (λ (x : ℕ). some (found x (u32 (options s) 20) 0)) (word32 s.prefix h)
    ∙ ap (λ (x : ℕ). some (found s.prefix x 0)) (word32 s.server_ip k)

read_mtu :
    (s : TeredoServer)
    → 1280 ≤ s.adv_link_mtu
    → s.adv_link_mtu < 2 ^ 16
    → read_option (mtu_option s) 8 (found s.prefix s.server_ip 0)
      ≡ some (found s.prefix s.server_ip s.adv_link_mtu)
unfolding read_option
read_mtu s h k = read_word (u32 (mtu_option s) 4) (word32 s.adv_link_mtu (omega arith))
  where
    read_word :
        (x : ℕ)
        → x ≡ s.adv_link_mtu
        → (if ltb x 1280 || ltb 65535 x then none else some (found s.prefix s.server_ip x))
          ≡ some (found s.prefix s.server_ip s.adv_link_mtu)
    read_word x e = ground arith

options-parsed :
    (e : Endian) (s : TeredoServer) (stale : ℕ)
    → CanAdvertise e s
    → parse_options 40 (options s) 40 (found stale 0 0)
      ≡ parsed (found s.prefix s.server_ip s.adv_link_mtu)
unfolding parse_options
options-parsed e s stale c =
    ap
      (λ (r : Option Options). elim r [
        | none ↦ rejected
        | some o ↦ parse_options 39 (mtu_option s) 8 o
      ])
      (read_prefix s stale c.prefix c.server_ip)
    ∙ ap (λ (r : Option Options). elim r [ none ↦ rejected | some o ↦ parse_options 38 [] 0 o ])
        (read_mtu s c.low c.high)

-- The address that a client of this server takes at a mapped address and port.
abbrev pub client_addr : TeredoServer → ℕ → ℕ → Bool → Addr
client_addr s ip port cone = record {
  prefix = s.prefix;
  server_ip = s.server_ip;
  flags = if cone then teredo_flag_cone else 0;
  client_port = not16 port;
  client_ip = not32 ip;
}

accept_found :
    (e : Endian) (s : TeredoServer) (p : TeredoPacket) (cone : Bool)
    → CanAdvertise e s
    → accept_options e p cone (found s.prefix s.server_ip s.adv_link_mtu)
      ≡ some
          (record { addr = client_addr s p.orig_ipv4 p.orig_port cone; mtu = some s.adv_link_mtu })
unfolding accept_options
accept_found e s p cone c = ground (arith, c.recent, c.valid, c.low, c.high)

abbrev solicitor : Bool → Addr
solicitor cone = if cone then teredo_cone else teredo_restrict

parsed_packet :
    (e e' : Endian) (s : TeredoServer) (p : TeredoPacket) (stale : ℕ) (cone : Bool)
    → CanAdvertise e s
    → (p.orig_ipv4 == 0) ≡ false
    → p.ip6 ≡ ra_packet e' s (solicitor cone)
    → parse_ra e stale p cone ≡ (elim (parse_options 40 (options s) 40 (found stale 0 0)) [
      | parsed o ↦ accept_options e p cone o
      | rejected ↦ none
      | unfinished ↦ none
    ])
unfolding parse_ra ra_packet ra_message ip6_header addr_equal ip6_dst addr_at s6_addr ip6_plen
    ip6_nxt
parsed_packet e e' s p stale true c o h = rw (h, o) refl
parsed_packet e e' s p stale false c o h = rw (h, o) refl

pub nonce_front :
    (nonce rest : List ℕ)
    → length nonce ≡ 8
    → 0 ∷ 1 ∷ 0 ∷ 0 ∷ ((take 8 nonce ++ (0 ∷ [])) ++ rest) ≡ 0 ∷ 1 ∷ 0 ∷ 0 ∷ (nonce ++ (0 ∷ rest))
nonce_front nonce rest h =
    ap (λ (m : List ℕ). 0 ∷ 1 ∷ 0 ∷ 0 ∷ ((m ++ (0 ∷ [])) ++ rest)) (taken nonce h)
    ∙ ap (λ (m : List ℕ). 0 ∷ 1 ∷ 0 ∷ 0 ∷ m) (append_assoc nonce (0 ∷ []) rest)
  where
    taken : (m : List ℕ) → length m ≡ 8 → take 8 m ≡ m
    taken m k = ground arith

-- What a client makes of the first datagram that was sent.
abbrev pub client_reads : Endian → Stale → ℕ → Bool → ℕ → List Sending → Option Advert
client_reads e old stale cone server (datagram second ip port m ∷ out) =
    elim (recv_inner old
      (record { payload = m; source_ipv4 = server; source_port = ipport_teredo; dest_ipv4 = ip })) [
        | none ↦ none
        | some q ↦ parse_ra e stale q cone
      ]
client_reads e old stale cone server out = none

-- The packet that a client at this address makes of the advertisement.
abbrev pub advert_packet : Sockets → TeredoServer → TeredoPacket → ℕ → ℕ → Bool → TeredoPacket
advert_packet k s p from to cone =
    received
      (record { payload = []; source_ipv4 = from; source_port = ipport_teredo; dest_ipv4 = to })
      true false p.auth_nonce (some (record { ipv4 = p.source_ipv4; port = p.source_port }))
      (ra_packet k.endian s (solicitor cone))

-- The payload of the datagram with the advertisement.
abbrev pub advert_payload : Sockets → TeredoServer → TeredoPacket → Bool → List ℕ
advert_payload k s p cone =
    (0 ∷ 1 ∷ 0 ∷ 0 ∷ (take 8 p.auth_nonce ++ (0 ∷ [])))
    ++ (origin_indication p ++ ra_packet k.endian s (solicitor cone))

pub recv_inner-advert_packet :
    (k : Sockets) (s : TeredoServer) (p : TeredoPacket) (old : Stale) (from to : ℕ) (cone : Bool)
    → length p.auth_nonce ≡ 8
    → p.source_ipv4 < 2 ^ 32
    → p.source_port < 2 ^ 16
    → recv_inner old (record {
      payload = advert_payload k s p cone;
      source_ipv4 = from;
      source_port = ipport_teredo;
      dest_ipv4 = to;
    })
      ≡ some (advert_packet k s p from to cone)
unfolding ra_packet ip6_header origin_indication
recv_inner-advert_packet k s p old from to cone n ip port =
    ap (λ (m : List ℕ). recv_inner old (arrived m)) (nonce_front p.auth_nonce _ n)
    ∙ recv_inner-headers old (some auth) (some origin) 0x60 0 (drop 2 packet) from ipport_teredo to
        n (ip, port) (omega arith)
  where
    packet : List ℕ
    packet = ra_packet k.endian s (solicitor cone)

    arrived : List ℕ → Datagram
    arrived m = record {
      payload = m;
      source_ipv4 = from;
      source_port = ipport_teredo;
      dest_ipv4 = to;
    }

    auth : Auth
    auth = record { client_id = []; authenticator = []; nonce = p.auth_nonce; confirmation = 0 }

    origin : Origin
    origin = record { ipv4 = p.source_ipv4; port = p.source_port }

pub advert_packet-parse_ra :
    (e : Endian) (k : Sockets) (s : TeredoServer) (p : TeredoPacket) (stale from to : ℕ)
    (cone : Bool)
    → CanAdvertise e s
    → 0 < p.source_ipv4
    → parse_ra e stale (advert_packet k s p from to cone) cone
      ≡ some (record {
        addr = client_addr s p.source_ipv4 p.source_port cone;
        mtu = some s.adv_link_mtu;
      })
advert_packet-parse_ra e k s p stale from to cone c pos =
    parsed_packet e k.endian s got stale cone c (ground arith) refl
    ∙ ap
        (λ (r : Parse). elim r [
          | parsed o ↦ accept_options e got cone o
          | rejected ↦ none
          | unfinished ↦ none
        ])
        (options-parsed e s stale c)
    ∙ accept_found e s got cone c
  where
    got : TeredoPacket
    got = advert_packet k s p from to cone

-- Of a server with an MTU of 1280 to 65535 and a prefix that the macro is_valid_teredo_prefix accepts and
-- that is not the obsolete one: the answer of `SendRA` to a solicitation with a nonce of 8 bytes, from a
-- mapped address other than 0, is accepted by the client that made it. Through its decapsulation and
-- `teredo_parse_ra` the client gets the server's prefix, address and MTU, and the address and port from
-- which the solicitation came; whatever its receive buffer held before. (Words have their 16 or 32 bits.)
pub send_ra-parse_ra :
    (e : Endian) (k : Sockets) (s : TeredoServer) (p : TeredoPacket) (old : Stale) (stale from : ℕ)
    (cone sec : Bool)
    → CanAdvertise e s
    → length p.auth_nonce ≡ 8
    → 0 < p.source_ipv4
    → p.source_ipv4 < 2 ^ 32
    → p.source_port < 2 ^ 16
    → client_reads e old stale cone from
        (send_ra k s p (if cone then teredo_cone else teredo_restrict) sec).0
      ≡ some (record {
        addr = client_addr s p.source_ipv4 p.source_port cone;
        mtu = some s.adv_link_mtu;
      })
unfolding send_ra
send_ra-parse_ra e k s p old stale from cone sec c n pos ip port =
    ap of_packet (recv_inner-advert_packet k s p old from p.source_ipv4 cone n ip port)
    ∙ advert_packet-parse_ra e k s p stale from p.source_ipv4 cone c pos
  where
    of_packet : Option TeredoPacket → Option Advert
    of_packet o = elim o [ none ↦ none | some q ↦ parse_ra e stale q cone ]
