-- ===== src/Daemon.antt =====
-- The daemons on their configuration: what src/relayd.c and src/serverd.c take from the settings
-- before they set anything up, and what src/checkconf.c says of them. What goes to `syslog` and to
-- the standard error stream is left out; what goes to the logger of the settings is not.
pub mod Names
pub mod Lookups
pub mod Checked
pub mod Serves
pub mod Supervisor
pub mod Restarts
pub mod Setup
pub mod Service
pub mod Command
use miredo.Prelude.Word.{Endian}
use miredo.Prelude.{
  ℕ, ◌+◌, ◌%◌, ◌^◌, ltb, ◌==◌, if◌then◌else◌, take, Bool, true, false, not, ◌&&◌, ◌||◌, Option,
  none, some, List, [], ◌∷◌, ◌++◌,
}
use miredo.Net.Addr.{teredo_prefix}
use miredo.Conf.Strings.{same_name}
use miredo.Conf.{Setting, Message, MiredoConf, Step, get, clear}
use miredo.Conf.Values.{Resolver, get_int16, parse_ipv4, parse_teredo_prefix, parse_syslog_facility}
use miredo.Daemon.Names.{
  syslog_facility, relay_type, server_address, server_address2, prefix_directive, interface_mtu,
  bind_address, bind_port, interface_name, server_bind_address, server_bind_address2, client_word,
  autoclient_word, relay_word, cone_word, restricted_word,
}
use miredo.Server.{TeredoServer, server_create, set_prefix, set_mtu}

-- TEREDO_CONE, TEREDO_RESTRICT and TEREDO_CLIENT
pub data Mode : Type 0 where
  cone : Mode
  restrict : Mode
  client : Mode

-- The comparisons of `ParseRelayType`.
unfoldable pub mode_of : List ℕ → Option Mode
mode_of val =
    if same_name val client_word || same_name val autoclient_word
    then some client
    else if same_name val restricted_word
    then some restrict
    else if same_name val relay_word || same_name val cone_word
    then some cone
    else none

-- `ParseRelayType`
unfoldable pub parse_relay_type : MiredoConf → List ℕ → Mode → MiredoConf × Option Mode
parse_relay_type c name type =
    let (c', found) = get c name in (c', elim found [ none ↦ some type | some p ↦ mode_of p.value ])

-- The variables of `relay_run` that its configuration sets. The port is in host byte order.
pub record RelayConf : Type 0 where
  pub mode : Mode
  pub server_name : Option (List ℕ)
  pub server_name2 : Option (List ℕ)
  pub prefix : ℕ
  pub mtu : ℕ
  pub cone : Bool
  pub bind_ip : ℕ
  pub bind_port : ℕ
  pub ifname : Option (List ℕ)

-- The value of a setting, and a copy of it in a buffer of NI_MAXHOST bytes.
abbrev pub value_of : Option Setting → Option (List ℕ)
value_of none = none
value_of (some p) = some p.value

abbrev pub name_copy : Option Setting → Option (List ℕ)
name_copy none = none
name_copy (some p) = some (take 1024 p.value)

-- `relay_run` from the bind address on.
unfoldable pub bind_conf : Resolver → MiredoConf → RelayConf → Option RelayConf
bind_conf r c k =
    let ip = parse_ipv4 r c bind_address 0 in
    let port = get_int16 ip.conf bind_port 0 in
    elim ip.result [
      | none ↦ none
      | some bind_ip' ↦ elim port.result [
        | none ↦ none
        | some bind_port' ↦ some (record k {
          bind_ip = bind_ip';
          bind_port = bind_port';
          ifname = value_of (get port.conf interface_name).1;
        })
      ]
    ]

-- The variables as they are before the mode is known.
abbrev pub defaults : Mode → RelayConf
defaults m = record {
  mode = m;
  server_name = none;
  server_name2 = none;
  prefix = teredo_prefix;
  mtu = 1280;
  cone = false;
  bind_ip = 0;
  bind_port = 0;
  ifname = none;
}

-- The server names of a client; the one of the command line takes the place of both settings.
unfoldable pub client_conf : Resolver → MiredoConf → Option (List ℕ) → Option RelayConf
client_conf r c (some name) = bind_conf r c (record (defaults client) { server_name = some name })
client_conf r c none =
    let (c1, name) = get c server_address in
    let (c2, name2) = get c1 server_address2 in
    elim name [
      | none ↦ none
      | some p ↦ bind_conf r c2 (record (defaults client) {
        server_name = name_copy (some p);
        server_name2 = name_copy name2;
      })
    ]

-- The prefix and the MTU of a relay.
unfoldable pub relay_conf : Endian → Resolver → MiredoConf → Mode → Option RelayConf
relay_conf e r c m =
    let pref = parse_teredo_prefix e r c prefix_directive teredo_prefix in
    let link = get_int16 pref.conf interface_mtu 1280 in
    elim pref.result [
      | none ↦ none
      | some prefix ↦ elim link.result [
        | none ↦ none
        | some mtu ↦ bind_conf r link.conf (record (defaults m) {
          prefix = prefix;
          mtu = mtu;
          cone = (elim m [ cone ↦ true | restrict ↦ false | client ↦ false ]);
        })
      ]
    ]

-- The configuration in `relay_run`; `none` where it returns -2.
unfoldable pub relay_configure : Endian → Resolver → Option (List ℕ) → MiredoConf → Option RelayConf
relay_configure e r server_name c =
    let (c', mode) = parse_relay_type c relay_type client in
    elim mode [
      | none ↦ none
      | some m ↦ elim m [
        | client ↦ client_conf r c' server_name
        | cone ↦ relay_conf e r c' cone
        | restrict ↦ relay_conf e r c' restrict
      ]
    ]

-- What `miredo` does with the settings in a new process, for the relay: the facility first, of
-- which a failure is not looked at.
unfoldable pub start_relay : Endian → Resolver → Option (List ℕ) → MiredoConf → Option RelayConf
start_relay e r server_name c =
    relay_configure e r server_name (parse_syslog_facility c syslog_facility 24).conf

-- `a || b` on two lookups that have failed: the second one is made if the first one has not.
unfoldable pub both : {A B : Type 0} → Step (Option A) → (MiredoConf → Step (Option B)) → Step Bool
both s f =
    let t = f s.conf in
    elim s.result [
      | none ↦ record { conf = s.conf; log = s.log; result = false }
      | some a ↦ record {
        conf = t.conf;
        log = s.log ++ t.log;
        result = elim t.result [ none ↦ false | some b ↦ true ];
      }
    ]

-- The comparisons of `miredo_checkconf`: whether the mode is the client's, and whether it is one.
unfoldable pub check_mode : Option Setting → Bool × Bool
check_mode none = (true, true)
check_mode (some p) =
    if same_name p.value client_word || same_name p.value autoclient_word
    then (true, true)
    else if same_name p.value relay_word
        || (same_name p.value cone_word || same_name p.value restricted_word)
    then (false, true)
    else (true, false)

-- The server addresses; `u32` is what the variable of the second one holds.
unfoldable pub check_client : Resolver → MiredoConf → ℕ → Step Bool
check_client r c u32 =
    let first = parse_ipv4 r c server_address 0 in
    let ip : ℕ = elim first.result [ none ↦ 0 | some a ↦ a ] in
    let s = both first (λ c'. parse_ipv4 r c' server_address2 u32) in
    record s { result = s.result && not (ip == 0) }

-- The variables of `miredo_checkconf` that it does not initialize.
pub record Garbage : Type 0 where
  pub i : ℕ
  pub u32 : ℕ
  pub u16 : ℕ
  pub pref : ℕ

-- `miredo_checkconf`
unfoldable pub checkconf : Endian → Resolver → Garbage → MiredoConf → Step Bool
checkconf e r g c =
    let facility = parse_syslog_facility c syslog_facility g.i in
    let (c1, found) = get facility.conf relay_type in
    let (is_client, known) = check_mode found in
    let s =
      if is_client
      then check_client r c1 g.u32
      else both (parse_teredo_prefix e r c1 prefix_directive g.pref)
          (λ c'. get_int16 c' interface_mtu g.u16) in
    let bound =
      both (parse_ipv4 r s.conf bind_address g.u32) (λ c'. get_int16 c' bind_port g.u16) in
    let (c', warned) = clear (get bound.conf interface_name).0 5 in
    record {
      conf = c';
      log = facility.log ++ (s.log ++ (bound.log ++ warned));
      result =
          (elim facility.result [ none ↦ false | some f ↦ true ])
          && (known && (s.result && bound.result));
    }

-- The settings of `server_run`.
pub record ServerConf : Type 0 where
  pub server_ip : ℕ
  pub server_ip2 : ℕ
  pub prefix : ℕ
  pub mtu : ℕ

-- The addresses: from the command line, or from the settings.
unfoldable pub server_addresses :
    Resolver → MiredoConf → Option (List ℕ) → MiredoConf × Option (ℕ × ℕ)
server_addresses r c (some name) =
    (c, elim (r.ipv4_of name) [ none ↦ none | some ip ↦ some (ip, 0) ])
server_addresses r c none =
    let first = parse_ipv4 r c server_bind_address 0 in
    let second = parse_ipv4 r first.conf server_bind_address2 0 in
    elim first.result [
      | none ↦ (first.conf, none)
      | some ip ↦ (second.conf, elim second.result [ none ↦ none | some ip2 ↦ some (ip, ip2) ])
    ]

-- The configuration in `server_run`; `none` where it returns -2.
unfoldable pub server_configure :
    Endian → Resolver → Option (List ℕ) → MiredoConf → Option ServerConf
server_configure e r server_name c =
    let (c', addresses) = server_addresses r c server_name in
    let pref = parse_teredo_prefix e r c' prefix_directive teredo_prefix in
    let link = get_int16 pref.conf interface_mtu 1280 in
    elim addresses [
      | none ↦ none
      | some (ip, ip2) ↦ if ip == 0 then none else elim pref.result [
        | none ↦ none
        | some prefix ↦ elim link.result [
          | none ↦ none
          | some mtu ↦ some (record {
            server_ip = ip;
            server_ip2 = if ip2 == 0 then (ip + 1) % 2 ^ 32 else ip2;
            prefix = prefix;
            mtu = mtu;
          })
        ]
      ]
    ]

-- The server that `server_run` starts, if its sockets can be opened and its privileges dropped.
unfoldable pub configured_server : Endian → ServerConf → Option TeredoServer
configured_server e k = elim (server_create k.server_ip k.server_ip2) [
  | none ↦ none
  | some s ↦
      let (s1, ok1) = set_prefix e s k.prefix in
      let (s2, ok2) = set_mtu s1 k.mtu in if ok1 && ok2 then some s2 else none
]

unfoldable pub start_server : Endian → Resolver → Option (List ℕ) → MiredoConf → Option TeredoServer
start_server e r server_name c =
    elim (server_configure e r server_name (parse_syslog_facility c syslog_facility 24).conf) [
      | none ↦ none
      | some k ↦ configured_server e k
    ]
