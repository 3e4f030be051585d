-- ===== src/Daemon/Checked.antt =====
-- What a verdict of miredo-checkconf is worth.
use miredo.Prelude.Word.{Endian, host32, little, big}
use miredo.Prelude.{
  ℕ, ◌==◌, if◌then◌else◌, Bool, true, false, ◌&&◌, Option, none, some, List, [], ◌∷◌, ◌≡◌, refl, ap,
  sym, subst, ◌∙◌, arith,
}
use mathlib.Core.Bool.{false≢true}
use miredo.Net.Addr.{teredo_prefix, is_valid_teredo_prefix}
use miredo.Conf.{invalid_hostname, Setting, MiredoConf, Step, get}
use miredo.Conf.Values.{
  looked_up, Resolver, get_int16, parse_ipv4, parse_ipv6, check_prefix, parse_teredo_prefix,
  parse_syslog_facility,
}
use miredo.Daemon.Names.{
  syslog_facility, relay_type, server_address, server_address2, prefix_directive, interface_mtu,
  bind_address, bind_port,
}
use miredo.Daemon.{
  name_copy, Mode, cone, restrict, client, parse_relay_type, RelayConf, bind_conf, defaults,
  client_conf, relay_conf, relay_configure, start_relay, both, check_mode, check_client, Garbage,
  checkconf,
}
use miredo.Daemon.Lookups.{
  is_some, both-is_some, get_int16-is_some, parse_ipv4-get, bind_conf-is_some, agrees,
  check_mode-agrees,
}

parse_ipv4-found :
    (r : Resolver) (c : MiredoConf) (name : List ℕ)
    → let ip : ℕ = elim (parse_ipv4 r c name 0).result [ none ↦ 0 | some a ↦ a ] in
      (ip == 0) ≡ false → is_some (get c name).1 ≡ true
unfolding parse_ipv4
parse_ipv4-found r c name h = by_found (get c name).1 h
  where
    by_found :
        (o : Option Setting)
        → let t : Option ℕ =
            (elim o as (λ _. Step (Option ℕ)) [
              | none ↦ looked_up (get c name).0 [] (some 0)
              | some p ↦ elim (r.ipv4_of p.value) [
                | none ↦ looked_up (get c name).0 (invalid_hostname p.value p.line ∷ []) none
                | some ip ↦ looked_up (get c name).0 [] (some ip)
              ]
            ]).result in
          let ip : ℕ = elim t [ none ↦ 0 | some a ↦ a ] in (ip == 0) ≡ false → is_some o ≡ true
    by_found none k = absurd (ground arith)
    by_found (some p) k = refl

check_client-is_some :
    (r : Resolver) (c : MiredoConf) (u32 u16 : ℕ)
    → (check_client r c u32).result ≡ true
    → (both
        (parse_ipv4 r (check_client r c u32).conf bind_address u32)
        (λ c'. get_int16 c' bind_port u16)).result
      ≡ true
    → is_some (client_conf r c none) ≡ true
unfolding check_client client_conf
check_client-is_some r c u32 u16 h k =
    by_name (get c server_address).1 (parse_ipv4-found r c server_address (ground arith)) (λ k'.
      bind_conf-is_some r (get (get c server_address).0 server_address2).0 k' u32 u16 (
        subst
          (λ (c' : MiredoConf).
            (both (parse_ipv4 r c' bind_address u32) (λ c''. get_int16 c'' bind_port u16)).result
            ≡ true)
          same k))
  where
    first : Step (Option ℕ)
    first = parse_ipv4 r c server_address 0

    same :
        (both first (λ c'. parse_ipv4 r c' server_address2 u32)).conf
        ≡ (get (get c server_address).0 server_address2).0
    same =
        (both-is_some first (λ c'. parse_ipv4 r c' server_address2 u32) (ground arith)).2
        ∙ parse_ipv4-get r first.conf server_address2 u32
        ∙ ap (λ (c' : MiredoConf). (get c' server_address2).0) (parse_ipv4-get r c server_address 0)

    by_name :
        (o : Option Setting)
        → is_some o ≡ true
        → ((k' : RelayConf)
            → is_some (bind_conf r (get (get c server_address).0 server_address2).0 k') ≡ true)
        → let x : Option RelayConf = elim o [
          | none ↦ none
          | some p ↦
              bind_conf r
                (get (get c server_address).0 server_address2).0
                (record (defaults client) {
                  server_name = name_copy (some p);
                  server_name2 = name_copy (get (get c server_address).0 server_address2).1;
                })
        ] in
          is_some x ≡ true
    by_name none e f = absurd (false≢true e)
    by_name (some p) e f = f (record (defaults client) {
      server_name = name_copy (some p);
      server_name2 = name_copy (get (get c server_address).0 server_address2).1;
    })

default_prefix : (e : Endian) → is_valid_teredo_prefix e teredo_prefix ≡ true
unfolding is_valid_teredo_prefix host32
default_prefix little = refl
default_prefix big = refl

parse_teredo_prefix-is_some :
    (e : Endian) (r : Resolver) (c : MiredoConf) (name : List ℕ) (v : ℕ)
    → is_some (parse_teredo_prefix e r c name v).result ≡ true
    → (is_some (parse_teredo_prefix e r c name teredo_prefix).result ≡ true)
      × ((parse_teredo_prefix e r c name v).conf
          ≡ (parse_teredo_prefix e r c name teredo_prefix).conf)
unfolding parse_teredo_prefix parse_ipv6 check_prefix
parse_teredo_prefix-is_some e r c name v h = ground (arith, default_prefix e)

relay_conf-is_some :
    (e : Endian) (r : Resolver) (c : MiredoConf) (m : Mode) (g : Garbage)
    → let t : Step Bool =
        both
          (parse_teredo_prefix e r c prefix_directive g.pref)
          (λ c'. get_int16 c' interface_mtu g.u16) in
      t.result ≡ true
      → (both (parse_ipv4 r t.conf bind_address g.u32) (λ c'. get_int16 c' bind_port g.u16)).result
        ≡ true
      → is_some (relay_conf e r c m) ≡ true
unfolding relay_conf
relay_conf-is_some e r c m g h k =
    by_results (parse_teredo_prefix e r c prefix_directive teredo_prefix).result
      (get_int16 left interface_mtu 1280).result pref.0
      (sym mtu.0
        ∙ ap (λ (c' : MiredoConf). is_some (get_int16 c' interface_mtu g.u16).result) (sym pref.1)
        ∙ b.1)
      (λ k'. bind_conf-is_some r (get_int16 left interface_mtu 1280).conf k' g.u32 g.u16 (
        subst
          (λ (c' : MiredoConf).
            (both (parse_ipv4 r c' bind_address g.u32)
              (λ c''. get_int16 c'' bind_port g.u16)).result
            ≡ true)
          same k))
  where
    left : MiredoConf
    left = (parse_teredo_prefix e r c prefix_directive teredo_prefix).conf

    b :
        (is_some (parse_teredo_prefix e r c prefix_directive g.pref).result ≡ true)
        × (is_some
              (get_int16
                (parse_teredo_prefix e r c prefix_directive g.pref).conf
                interface_mtu
                g.u16).result
            ≡ true)
        × ((both
              (parse_teredo_prefix e r c prefix_directive g.pref)
              (λ c'. get_int16 c' interface_mtu g.u16)).conf
            ≡ (get_int16
                (parse_teredo_prefix e r c prefix_directive g.pref).conf
                interface_mtu
                g.u16).conf)
    b =
        both-is_some (parse_teredo_prefix e r c prefix_directive g.pref)
          (λ c'. get_int16 c' interface_mtu g.u16) h

    pref :
        (is_some (parse_teredo_prefix e r c prefix_directive teredo_prefix).result ≡ true)
        × ((parse_teredo_prefix e r c prefix_directive g.pref).conf ≡ left)
    pref = parse_teredo_prefix-is_some e r c prefix_directive g.pref b.0

    mtu :
        (is_some (get_int16 left interface_mtu g.u16).result
          ≡ is_some (get_int16 left interface_mtu 1280).result)
        × ((get_int16 left interface_mtu g.u16).conf ≡ (get_int16 left interface_mtu 1280).conf)
    mtu = get_int16-is_some left interface_mtu g.u16 1280

    same :
        (both
          (parse_teredo_prefix e r c prefix_directive g.pref)
          (λ c'. get_int16 c' interface_mtu g.u16)).conf
        ≡ (get_int16 left interface_mtu 1280).conf
    same = b.2 ∙ ap (λ (c' : MiredoConf). (get_int16 c' interface_mtu g.u16).conf) pref.1 ∙ mtu.1

    by_results :
        (o o' : Option ℕ)
        → is_some o ≡ true
        → is_some o' ≡ true
        → ((k' : RelayConf)
            → is_some (bind_conf r (get_int16 left interface_mtu 1280).conf k') ≡ true)
        → let x : Option RelayConf = elim o [
          | none ↦ none
          | some prefix ↦ elim o' [
            | none ↦ none
            | some mtu' ↦
                bind_conf r (get_int16 left interface_mtu 1280).conf (record (defaults m) {
                  prefix = prefix;
                  mtu = mtu';
                  cone = (elim m [ cone ↦ true | restrict ↦ false | client ↦ false ]);
                })
          ]
        ] in
          is_some x ≡ true
    by_results none o' h' k' f = absurd (false≢true h')
    by_results (some a) none h' k' f = absurd (false≢true k')
    by_results (some a) (some a') h' k' f = f (record (defaults m) {
      prefix = a;
      mtu = a';
      cone = (elim m [ cone ↦ true | restrict ↦ false | client ↦ false ]);
    })

-- The bind address and port, as `miredo_checkconf` looks them up.
abbrev bound : Resolver → Garbage → MiredoConf → Step Bool
bound r g c = both (parse_ipv4 r c bind_address g.u32) (λ c'. get_int16 c' bind_port g.u16)

-- What it looks up before them, in the client's mode or not.
abbrev checked : Endian → Resolver → Garbage → MiredoConf → Bool → Step Bool
checked e r g c true = check_client r c g.u32
checked e r g c false =
    both (parse_teredo_prefix e r c prefix_directive g.pref)
      (λ c'. get_int16 c' interface_mtu g.u16)

checked-is_some :
    (e : Endian) (r : Resolver) (g : Garbage) (c : MiredoConf) (b : Bool) (o : Option Mode)
    → agrees b o ≡ true
    → (checked e r g c b).result ≡ true
    → (bound r g (checked e r g c b).conf).result ≡ true
    → let x : Option RelayConf = elim o [
      | none ↦ none
      | some m ↦ elim m [
        | client ↦ client_conf r c none
        | cone ↦ relay_conf e r c cone
        | restrict ↦ relay_conf e r c restrict
      ]
    ] in
      is_some x ≡ true
checked-is_some e r g c b none a h k = absurd (false≢true a)
checked-is_some e r g c true (some client) a h k = check_client-is_some r c g.u32 g.u16 h k
checked-is_some e r g c false (some client) a h k = absurd (false≢true a)
checked-is_some e r g c true (some cone) a h k = absurd (false≢true a)
checked-is_some e r g c false (some cone) a h k = relay_conf-is_some e r c cone g h k
checked-is_some e r g c true (some restrict) a h k = absurd (false≢true a)
checked-is_some e r g c false (some restrict) a h k = relay_conf-is_some e r c restrict g h k

if_checked :
    (e : Endian) (r : Resolver) (g : Garbage) (c : MiredoConf) (b : Bool)
    → let s : Step Bool =
        if b
        then check_client r c g.u32
        else both
            (parse_teredo_prefix e r c prefix_directive g.pref)
            (λ c'. get_int16 c' interface_mtu g.u16) in
      s ≡ checked e r g c b
if_checked e r g c true = refl
if_checked e r g c false = refl

pub parse_syslog_facility-get :
    (c : MiredoConf) (name : List ℕ) (v : ℕ)
    → (parse_syslog_facility c name v).conf ≡ (get c name).0
unfolding parse_syslog_facility
parse_syslog_facility-get c name v = ground arith

-- The parts of a verdict.
checkconf-parts :
    (e : Endian) (r : Resolver) (g : Garbage) (c : MiredoConf)
    → (checkconf e r g c).result ≡ true
    → let c1 = get (parse_syslog_facility c syslog_facility g.i).conf relay_type in
      let s : Step Bool = checked e r g c1.0 (check_mode c1.1).0 in
      ((check_mode c1.1).1 ≡ true) × (s.result ≡ true) × ((bound r g s.conf).result ≡ true)
unfolding checkconf
checkconf-parts e r g c h =
    let p = all_four _ _ _ _ h in
    let q =
      subst (λ (s : Step Bool). (s.result ≡ true) × ((bound r g s.conf).result ≡ true))
        (if_checked e r g c1.0 (check_mode c1.1).0) (p.1, p.2) in
    (p.0, q.0, q.1)
  where
    c1 : MiredoConf × Option Setting
    c1 = get (parse_syslog_facility c syslog_facility g.i).conf relay_type

    all_four : (a b x y : Bool) → a && (b && (x && y)) ≡ true → (b ≡ true) × (x ≡ true) × (y ≡ true)
    all_four a b x y k = ground arith

-- If `miredo_checkconf` accepts settings, whatever the variables that it does not initialize hold,
-- the daemon that starts with these settings, no server name on its command line and the same answers
-- of getaddrinfo to the same names as the checker had, does not stop with a configuration error.
pub checkconf-start_relay :
    (e : Endian) (r : Resolver) (g : Garbage) (c : MiredoConf)
    → (checkconf e r g c).result ≡ true
    → is_some (start_relay e r none c) ≡ true
unfolding start_relay relay_configure parse_relay_type
checkconf-start_relay e r g c h =
    subst (λ (c0 : MiredoConf). is_some (relay_configure e r none c0) ≡ true)
      (parse_syslog_facility-get c syslog_facility g.i
        ∙ sym (parse_syslog_facility-get c syslog_facility 24))
      (checked-is_some e r g (get c0 relay_type).0 (check_mode (get c0 relay_type).1).0 _
        (check_mode-agrees (get c0 relay_type).1 p.0) p.1 p.2)
  where
    c0 : MiredoConf
    c0 = (parse_syslog_facility c syslog_facility g.i).conf

    p :
        ((check_mode (get c0 relay_type).1).1 ≡ true)
        × ((checked e r g (get c0 relay_type).0 (check_mode (get c0 relay_type).1).0).result ≡ true)
        × ((bound r g
              (checked e r g
                (get c0 relay_type).0
                (check_mode (get c0 relay_type).1).0).conf).result
            ≡ true)
    p = checkconf-parts e r g c h
