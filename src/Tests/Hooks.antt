-- ===== src/Tests/Hooks.antt =====
-- The theorems on the privileged process, tried.
use miredo.Net.Ip6.{ip6_plen, ip6_nxt, ip6_dst, ip6_header}
use miredo.Server.{ra_packet}
use miredo.Security.{get_flbits, get_nonce}
use miredo.Packets.Ra.Scan.{read_option, parse_options}
use miredo.Packets.Ra.{send_rs, accept_options, parse_ra}
use miredo.Server.Advert.{advert_packet}
use miredo.Udp.{TeredoPacket}
use miredo.Prelude.Word.{host16, host32, little, big}
use miredo.Prelude.{same_bytes, false, ℕ, ◌≡◌, refl, true, none, some, List, [], ◌∷◌, arith}
use miredo.Net.Addr.{addr_at, is_valid_teredo_prefix, addr_equal, s6_addr, is_multicast}
use miredo.Net.Ipv4.{is_ipv4_global_unicast}
use miredo.Packets.{Host}
use miredo.Tests.{host, server, sockets, heard, alice, alice-Fits}
use miredo.Maintenance.{
  is_ahead, next_round, choose_flags, succeed, recv_advert, receive_advert, solicit, arrives,
  resolve, reads_clock, Time, resolves, step_in, Maintenance, Action, Input, Delays, start, run,
}
use miredo.Privproc.Ipc.{Received, interrupted, failed, gave, took, miredo_send}
use miredo.Privproc.Ipc.Delivery.{IsReceived, miredo_recv-miredo_send}
use miredo.Privproc.{
  Abi, Settings, settings_bytes, int_bytes, Round, Environment, at_begin, serve, Served,
  configure_tunnel, Ntop,
}
use miredo.Privproc.Exchange.{Exchanged, Transfer, configure_tunnel-serve}
use miredo.Privproc.Sane.{AreWords, AreSane, start-AreSane}

-- A message of three bytes, sent and received in two pieces, with a fourth byte behind it.
abbrev pieces : List Received
pieces = gave (1 ∷ []) ∷ interrupted ∷ gave (2 ∷ 3 ∷ []) ∷ gave (4 ∷ []) ∷ []

pieces-IsReceived : IsReceived (1 ∷ 2 ∷ 3 ∷ []) (4 ∷ []) pieces
unfolding miredo_send
pieces-IsReceived =
    miredo_recv-miredo_send (1 ∷ 2 ∷ 3 ∷ []) (4 ∷ []) (took 2 ∷ interrupted ∷ took 1 ∷ [])
      (record { bytes = 1 ∷ 2 ∷ 3 ∷ []; ok = true; rest = [] }) pieces refl refl refl
      (omega arith, (omega arith, tt))

abbrev abi : Abi
abi = record { endian = little; padding = 2 }

-- An address is printed as its bytes.
abbrev ntop : Ntop
ntop a = s6_addr a

abbrev connected : Settings
connected = record { addr = alice; mtu = 1280 }

abbrev off : Settings
off = record {
  addr = record alice { prefix = 0; server_ip = 0; flags = 0; client_port = 0; client_ip = 0 };
  mtu = 1280;
}

-- The client is connected, then not, and the process ends when the result of that cannot be sent.
abbrev rounds : List Round
rounds =
    record {
      receives = gave (settings_bytes abi connected) ∷ [];
      iface = some (116 ∷ []);
      script = 0;
      sends = took 4 ∷ [];
    }
    ∷ record {
      receives = gave (settings_bytes abi off) ∷ [];
      iface = some (116 ∷ []);
      script = 0;
      sends = failed ∷ [];
    }
    ∷ []

abbrev begun : Environment
begun = at_begin (record { state = none; address = none; lladdress = none; mtu = none }) none

abbrev done : Served
done = serve abi ntop begun rounds

abbrev only : Round
only = record {
  receives = gave (settings_bytes abi connected) ∷ [];
  iface = some (116 ∷ []);
  script = 3;
  sends = took 1 ∷ took 3 ∷ [];
}

there-Transfer : Transfer (settings_bytes abi connected) [] (took 20 ∷ []) only.receives
unfolding miredo_send settings_bytes s6_addr host16
there-Transfer = record {
  passed = record { bytes = settings_bytes abi connected; ok = true; rest = [] };
  sent = refl;
  whole = refl;
  arrives = refl;
  within = (omega arith, tt);
}

back-Transfer : Transfer (int_bytes little 3) [] only.sends (gave (int_bytes little 3) ∷ [])
unfolding miredo_send host32
back-Transfer = record {
  passed = record { bytes = int_bytes little 3; ok = true; rest = [] };
  sent = refl;
  whole = refl;
  arrives = refl;
  within = (omega arith, tt);
}

configure_tunnel-serve_example :
    Exchanged abi ntop begun connected
      (116 ∷ [])
      only
      (configure_tunnel abi alice 1280 (took 20 ∷ []) (gave (int_bytes little 3) ∷ []))
unfolding is_multicast
configure_tunnel-serve_example =
    configure_tunnel-serve abi ntop begun connected (116 ∷ []) only (took 20 ∷ [])
      (gave (int_bytes little 3) ∷ []) [] [] alice-Fits refl (omega arith) (omega arith) refl
      (omega arith) there-Transfer back-Transfer

abbrev big_host : Host
big_host = record host { endian = big }

abbrev delays : Delays
delays = record {
  qualification_delay = 4;
  qualification_retries = 3;
  refresh_delay = 30;
  restart_delay = 100;
}

abbrev instant : ℕ → Time
instant n = record { sec = n; nsec = 0 }

-- The thread solicits its server.
abbrev asked : List Input
asked = resolves (some 0xc6336401) (instant 1000) ∷ reads_clock (instant 1000) ∷ []

abbrev solicited : Maintenance × List Action
solicited = elim (run big_host delays start asked) [ none ↦ (start, []) | some r ↦ r ]

-- The server's answer, through a NAT at 203.0.113.5, port 4096.
abbrev advert : TeredoPacket
advert =
    advert_packet (record sockets { endian = big }) server
      (record heard {
        auth_nonce = solicited.0.nonce;
        source_ipv4 = 0xcb007105;
        source_port = 4096;
      })
      0xc6336401 0xc0a80002 false

abbrev answered : List Input
answered =
    resolves (some 0xc6336401) (instant 1000) ∷ reads_clock (instant 1000) ∷ arrives advert 0 ∷ []

abbrev connected_now : Maintenance × List Action
connected_now = elim (run big_host delays start answered) [ none ↦ (start, []) | some r ↦ r ]

connected_now-run : run big_host delays start answered ≡ some connected_now
unfolding start step_in resolve solicit receive_advert recv_advert parse_ra parse_options
    accept_options read_option succeed choose_flags next_round is_ipv4_global_unicast is_ahead
    send_rs same_bytes get_nonce addr_equal ra_packet ip6_header s6_addr addr_at ip6_dst ip6_nxt
    ip6_plen is_valid_teredo_prefix host32 get_flbits miredo.Security.teredo_hash
    miredo.Server.ra_message
connected_now-run = refl

connected_now-AreWords : AreWords connected_now.1
unfolding start step_in resolve solicit receive_advert recv_advert parse_ra parse_options
    accept_options read_option succeed choose_flags next_round is_ipv4_global_unicast is_ahead
    send_rs same_bytes get_nonce addr_equal ra_packet ip6_header s6_addr addr_at ip6_dst ip6_nxt
    ip6_plen is_valid_teredo_prefix host32 get_flbits miredo.Security.teredo_hash
    miredo.Server.ra_message
connected_now-AreWords = (
  record {
    prefix = omega arith;
    server_ip = omega arith;
    flags = omega arith;
    client_port = omega arith;
    client_ip = omega arith;
  },
  (
    record {
      prefix = omega arith;
      server_ip = omega arith;
      flags = omega arith;
      client_port = omega arith;
      client_ip = omega arith;
    },
    tt,
  ),
)

start-AreSane_example : AreSane connected_now.1
start-AreSane_example =
    start-AreSane big_host delays answered connected_now.0 connected_now.1 refl (omega arith)
      connected_now-run connected_now-AreWords
