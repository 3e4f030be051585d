-- ===== src/Tests/Settings.antt =====
-- The theorems on settings and on the daemons that read them, tried.
use miredo.Net.Addr.{is_valid_teredo_prefix}
use miredo.Net.Ipv4.{is_ipv4_global_unicast}
use miredo.Server.{set_mtu, set_prefix, server_create, TeredoServer}
use miredo.Server.Advert.{CanAdvertise}
use miredo.Conf.Strings.{skip_space, to_lower, same_name, is_space}
use miredo.Prelude.Word.{host32, little}
use miredo.Prelude.{
  ◌^◌, ℕ, ◌+◌, ◌≤◌, ◌<◌, true, false, none, some, List, [], ◌∷◌, ◌++◌, ◌≡◌, refl, arith,
}
use miredo.Conf.{warnings, clear, take_out, Setting, MiredoConf, create, get, set, Malloc}
use miredo.Conf.Chain.{IsLinked, IsFresh, has_address}
use miredo.Conf.Tail.{get-set}
use miredo.Conf.Words.{NoZero}
use miredo.Conf.Reader.{read_stream, is_comment}
use miredo.Conf.Extends.{IsRead}
use miredo.Conf.Reads.{read_stream-IsRead}
use miredo.Conf.Lines.{Directive, print, AllDirectives}
use miredo.Conf.RoundTrip.{ReadsBack, read_stream-print}
use miredo.Conf.Decimal.{decimal}
use miredo.Conf.Values.{
  digit, scan_digits, detect_base, strip_sign, check_prefix, parse_ipv6, parse_teredo_prefix,
  parse_ipv4, strtoul, parse_syslog_facility, Resolver, get_int16,
}
use miredo.Daemon.Names.{relay_type, relay_word, interface_mtu, bind_port, server_address}
use miredo.Daemon.{
  configured_server, both, server_addresses, check_mode, server_configure, Garbage, checkconf,
  start_relay, start_server,
}
use miredo.Daemon.Lookups.{is_some}
use miredo.Daemon.Checked.{checkconf-start_relay}
use miredo.Daemon.Supervisor.{Round, other_signal, reload_signal, exit_signal, exited, supervise}
use miredo.Daemon.Restarts.{IsSafe, supervise-create}
use miredo.Tests.{server}
use miredo.Daemon.Serves.{IsServing, GivesWords, start_server-IsServing}

-- An address above all that are in use.
abbrev above : List Setting → ℕ
above [] = 1
above (s ∷ ss) = s.address + above ss + 1

abbrev bump : Malloc
bump ss = some (above ss)

bump-IsFresh : IsFresh bump
bump-IsFresh ss a e = fresh ss a (ground arith)
  where
    fresh : (ss : List Setting) (a : ℕ) → above ss ≤ a → has_address a ss ≡ false
    fresh [] a h = refl
    fresh (s ∷ ss) a h = ground (arith, fresh ss a)

create-IsLinked : IsLinked create
unfolding create
create-IsLinked = record { distinct = tt; ends = tt }

-- RelayType relay, InterfaceMTU 1400
abbrev directives : List Directive
directives =
    record { name = relay_type; value = relay_word }
    ∷ record { name = interface_mtu; value = decimal 5 1400 }
    ∷ []

directives-AllDirectives : AllDirectives directives
unfolding is_space is_comment
directives-AllDirectives = ground arith

read_stream-print_example :
    ReadsBack create 1 directives (read_stream bump false create (print directives))
read_stream-print_example =
    read_stream-print above create directives bump-IsFresh create-IsLinked directives-AllDirectives

-- A file that ends in the middle of a line.
abbrev unended : List ℕ
unended = print directives ++ relay_type

unended-NoZero : NoZero unended
unended-NoZero = ground arith

read_stream-IsRead_example : IsRead create true (read_stream bump true create unended)
read_stream-IsRead_example =
    read_stream-IsRead bump true create unended bump-IsFresh create-IsLinked unended-NoZero

abbrev mode_setting : Setting
mode_setting = record { address = 1; name = relay_type; value = relay_word; line = 1 }

abbrev mtu_setting : Setting
mtu_setting = record { address = 2; name = interface_mtu; value = decimal 5 1400; line = 2 }

abbrev settings : MiredoConf
settings = record { chain = mode_setting ∷ mtu_setting ∷ []; tail = 2 }

settings-IsLinked : IsLinked settings
settings-IsLinked = record { distinct = ground arith; ends = refl }

abbrev left : MiredoConf
left = record settings { chain = mode_setting ∷ [] }

settings-get : get settings interface_mtu ≡ (left, some mtu_setting)
unfolding get take_out same_name to_lower
settings-get = refl

get-set_example : set bump left bind_port (decimal 5 3545) 3 ≡ none
get-set_example =
    get-set bump settings left interface_mtu mtu_setting mode_setting [] bind_port (decimal 5 3545)
      3 3 settings-IsLinked settings-get refl refl refl

-- A resolver that knows one host.
abbrev resolver : Resolver
resolver = record { ipv4_of = λ s. some 0xc6336401; ipv6_of = λ s. none }

resolver-GivesWords : GivesWords resolver
resolver-GivesWords = record { ipv4 = λ s. below; ipv6 = λ s. tt }
  where
    below : 0xc6336401 < 2 ^ 32
    below = omega arith

abbrev garbage : Garbage
garbage = record { i = 0; u32 = 0; u16 = 0; pref = 0x20010000 }

settings-checked : (checkconf little resolver garbage settings).result ≡ true
unfolding checkconf check_mode both get take_out same_name to_lower parse_syslog_facility get_int16
    strtoul parse_ipv4 parse_teredo_prefix parse_ipv6 check_prefix is_valid_teredo_prefix host32
    skip_space is_space strip_sign detect_base scan_digits digit clear warnings
settings-checked = refl

checkconf-start_relay_example : is_some (start_relay little resolver none settings) ≡ true
checkconf-start_relay_example =
    checkconf-start_relay little resolver garbage settings settings-checked

-- 198.51.100.1 and its successor, with the MTU of the settings.
abbrev expected : TeredoServer
expected = record server { adv_link_mtu = 1400 }

settings-start_server : start_server little resolver (some server_address) settings ≡ some expected
unfolding start_server server_configure server_addresses configured_server server_create set_prefix
    set_mtu is_ipv4_global_unicast get take_out same_name to_lower parse_syslog_facility get_int16
    strtoul parse_ipv4 parse_teredo_prefix parse_ipv6 check_prefix is_valid_teredo_prefix host32
    skip_space is_space strip_sign detect_base scan_digits digit
settings-start_server = refl

start_server-IsServing_example : IsServing little expected × CanAdvertise little expected
start_server-IsServing_example =
    start_server-IsServing little resolver (some server_address) settings expected
      resolver-GivesWords settings-start_server refl

-- A reload, and then an exit.
abbrev two_rounds : List Round
two_rounds =
    record {
      malloc = bump;
      file = some (print directives);
      fails = false;
      forks = true;
      signals = other_signal ∷ reload_signal ∷ [];
      status = exited 0;
    }
    ∷ record {
      malloc = λ ss. none;
      file = none;
      fails = false;
      forks = true;
      signals = exit_signal ∷ [];
      status = exited 0;
    }
    ∷ []

nothing-IsFresh : IsFresh (λ ss. none)
nothing-IsFresh ss a e = absurd (ground arith)

supervise-create_example : IsSafe (supervise create two_rounds)
supervise-create_example =
    supervise-create two_rounds (bump-IsFresh, (nothing-IsFresh, tt)) (ground arith, (tt, tt))
