-- ===== src/Daemon/Serves.antt =====
-- The server that miredo-server starts on its settings.
use miredo.Prelude.Word.{Endian}
use miredo.Prelude.{
  ℕ, ◌+◌, ◌%◌, ◌^◌, ◌≤◌, ◌<◌, ◌==◌, if◌then◌else◌, Bool, true, false, Option, none, some, List, ◌≡◌,
  subst, arith,
}
use miredo.Net.Addr.{teredo_prefix, teredo_prefix_obsolete, is_valid_teredo_prefix}
use miredo.Net.Ipv4.{is_ipv4_global_unicast}
use miredo.Conf.{Setting, MiredoConf, Step, get}
use miredo.Conf.Values.{
  Resolver, get_int16, parse_ipv4, parse_ipv6, check_prefix, parse_teredo_prefix,
  parse_syslog_facility,
}
use miredo.Daemon.Names.{
  syslog_facility, prefix_directive, interface_mtu, server_bind_address, server_bind_address2,
}
use miredo.Daemon.{ServerConf, server_addresses, server_configure, configured_server, start_server}
use miredo.Server.{TeredoServer, server_create, set_prefix, set_mtu}
use miredo.Server.Advert.{CanAdvertise}

-- A property of the value of a lookup, if there is one.
abbrev pub All : {A : Type 0} → (A → Type 0) → Option A → Type 0
All P none = Unit {0}
All P (some a) = P a

-- A resolver gives words of 32 bits.
pub record GivesWords (r : Resolver) : Type 0 where
  pub ipv4 : (s : List ℕ) → All (λ ip. ip < 2 ^ 32) (r.ipv4_of s)
  pub ipv6 : (s : List ℕ) → All (λ a. a.prefix < 2 ^ 32) (r.ipv6_of s)

get_int16-bound :
    (c : MiredoConf) (name : List ℕ) (v : ℕ)
    → v < 2 ^ 16
    → All (λ x. x < 2 ^ 16) (get_int16 c name v).result
unfolding get_int16
get_int16-bound c name v h = ground arith

-- What holds of the value of a setting, if there is one.
each_value :
    {P : List ℕ → Type 0} → ((s : List ℕ) → P s) → (o : Option Setting) → All (λ p. P p.value) o
each_value f none = tt
each_value f (some p) = f p.value

parse_ipv4-bound :
    (r : Resolver) (c : MiredoConf) (name : List ℕ) (v : ℕ)
    → GivesWords r
    → v < 2 ^ 32
    → All (λ x. x < 2 ^ 32) (parse_ipv4 r c name v).result
unfolding parse_ipv4
parse_ipv4-bound r c name v w h = ground (arith, each_value w.ipv4 (get c name).1)

parse_teredo_prefix-bound :
    (e : Endian) (r : Resolver) (c : MiredoConf) (name : List ℕ) (v : ℕ)
    → GivesWords r
    → v < 2 ^ 32
    → All
        (λ x. (x < 2 ^ 32) × (is_valid_teredo_prefix e x ≡ true))
        (parse_teredo_prefix e r c name v).result
unfolding parse_teredo_prefix parse_ipv6 check_prefix
parse_teredo_prefix-bound e r c name v w h = ground (arith, each_value w.ipv6 (get c name).1)

abbrev AreWords : ℕ × ℕ → Type 0
AreWords p = (p.0 < 2 ^ 32) × (p.1 < 2 ^ 32)

server_addresses-bound :
    (r : Resolver) (c : MiredoConf) (name : Option (List ℕ))
    → GivesWords r
    → All AreWords (server_addresses r c name).1
unfolding server_addresses
server_addresses-bound r c none w = ground (
  arith,
  parse_ipv4-bound r c server_bind_address 0 w,
  parse_ipv4-bound r (parse_ipv4 r c server_bind_address 0).conf server_bind_address2 0 w,
)
server_addresses-bound r c (some name) w = ground (arith, w.ipv4 name)

-- What the configuration makes sure of.
record IsChecked (e : Endian) (k : ServerConf) : Type 0 where
  server_ip : k.server_ip < 2 ^ 32
  server_ip2 : k.server_ip2 < 2 ^ 32
  prefix : k.prefix < 2 ^ 32
  valid : is_valid_teredo_prefix e k.prefix ≡ true
  mtu : k.mtu < 2 ^ 16

server_configure-IsChecked :
    (e : Endian) (r : Resolver) (name : Option (List ℕ)) (c : MiredoConf)
    → GivesWords r
    → All (IsChecked e) (server_configure e r name c)
unfolding server_configure
server_configure-IsChecked e r name c w =
    by_results (server_addresses r c name).1 pref.result
      (get_int16 pref.conf interface_mtu 1280).result (server_addresses-bound r c name w)
      (parse_teredo_prefix-bound e r (server_addresses r c name).0 prefix_directive teredo_prefix w
        (omega arith))
      (get_int16-bound pref.conf interface_mtu 1280 (omega arith))
  where
    pref : Step (Option ℕ)
    pref = parse_teredo_prefix e r (server_addresses r c name).0 prefix_directive teredo_prefix

    by_zero :
        (b : Bool) (o : Option ServerConf)
        → All (IsChecked e) o
        → let x : Option ServerConf = if b then none else o in All (IsChecked e) x
    by_zero true o h = tt
    by_zero false o h = h

    by_results :
        (o : Option (ℕ × ℕ)) (o' o'' : Option ℕ)
        → All AreWords o
        → All (λ x. (x < 2 ^ 32) × (is_valid_teredo_prefix e x ≡ true)) o'
        → All (λ x. x < 2 ^ 16) o''
        → All (IsChecked e) (elim o [
          | none ↦ none
          | some (ip, ip2) ↦ if ip == 0 then none else elim o' [
            | none ↦ none
            | some prefix ↦ elim o'' [
              | none ↦ none
              | some mtu ↦ some (record {
                server_ip = ip;
                server_ip2 = if ip2 == 0 then (ip + 1) % 2 ^ 32 else ip2;
                prefix = prefix;
                mtu = mtu;
              })
            ]
          ]
        ])
    by_results none o' o'' h h' h'' = tt
    by_results (some (ip, ip2)) none o'' h h' h'' = by_zero (ip == 0) none tt
    by_results (some (ip, ip2)) (some prefix) none h h' h'' = by_zero (ip == 0) none tt
    by_results (some (ip, ip2)) (some prefix) (some mtu) h h' h'' =
        by_zero (ip == 0) (some _) (record {
          server_ip = h.0;
          server_ip2 = ground (arith, h.0, h.1);
          prefix = h'.0;
          valid = h'.1;
          mtu = h'';
        })

-- A server as it is to be started: global unicast addresses, a prefix that is not refused and an MTU
-- that IPv6 allows.
pub record IsServing (e : Endian) (s : TeredoServer) : Type 0 where
  pub unicast : is_ipv4_global_unicast s.server_ip ≡ true
  pub unicast2 : is_ipv4_global_unicast s.server_ip2 ≡ true
  pub server_ip : s.server_ip < 2 ^ 32
  pub prefix : s.prefix < 2 ^ 32
  pub valid : is_valid_teredo_prefix e s.prefix ≡ true
  pub low : 1280 ≤ s.adv_link_mtu
  pub high : s.adv_link_mtu < 2 ^ 16

configured_server-IsServing :
    (e : Endian) (k : ServerConf) → IsChecked e k → All (IsServing e) (configured_server e k)
unfolding configured_server server_create set_prefix set_mtu
configured_server-IsServing e k h = ground arith

-- A server that miredo-server starts with another prefix than the obsolete one, from whatever settings
-- and command line and with a resolver that gives words of 32 bits, has global unicast addresses, a
-- prefix that `is_valid_teredo_prefix` accepts and an MTU from 1280 to 65535, and with that all that a
-- client's acceptance of its advertisements needs.
pub start_server-IsServing :
    (e : Endian) (r : Resolver) (name : Option (List ℕ)) (c : MiredoConf) (s : TeredoServer)
    → GivesWords r
    → start_server e r name c ≡ some s
    → (s.prefix == teredo_prefix_obsolete) ≡ false
    → IsServing e s × CanAdvertise e s
unfolding start_server
start_server-IsServing e r name c s w h k =
    let v : IsServing e s =
      subst (All (IsServing e)) h
        (by_conf (server_configure e r name c0) (server_configure-IsChecked e r name c0 w)) in
    (
      v,
      record {
        prefix = v.prefix;
        server_ip = v.server_ip;
        low = v.low;
        high = v.high;
        valid = v.valid;
        recent = k;
      },
    )
  where
    c0 : MiredoConf
    c0 = (parse_syslog_facility c syslog_facility 24).conf

    by_conf :
        (o : Option ServerConf)
        → All (IsChecked e) o
        → All (IsServing e) (elim o [ none ↦ none | some k' ↦ configured_server e k' ])
    by_conf none g = tt
    by_conf (some k') g = configured_server-IsServing e k' g
