-- ===== src/Tests/Servers.antt =====
-- The theorems on the server, tried.
use miredo.Server.Outcomes.{Agrees, process_packet-Agrees}
use miredo.Prelude.Word.{little}
use miredo.Prelude.{
  List, ◌*◌, ◌^◌, ◌<◌, ◌≤◌, replicate, ◌≡◌, refl, true, false, none, some, [], ◌∷◌, ◌++◌, arith,
}
use miredo.Server.Relayed.{Punches, process_packet-recv_inner}
use miredo.Net.Ipv4.{is_ipv4_global_unicast}
use miredo.Net.Addr.{
  s6_addr, is_multicast, is_linklocal, is_loopback, is_unspecified, teredo_port, addr_equal,
  matches_teredo_client, teredo_cone, teredo_ipv4, is_valid_teredo_prefix,
}
use miredo.Server.Limits.{AreConfined, process_packet-AreConfined}
use miredo.Udp.{Stale, recv_inner}
use miredo.Net.Ip6.{ip6_header}
use miredo.Tests.{alice, bob, sockets, server, bubble, heard, alice-Fits, bob-Fits}
use miredo.Server.Lifetime.{
  Calls, Call, creates, destroys, Process, initial, after_calls, create_server, join, open_udp,
  destroy_server, HasRaw, after_calls-initial, after_calls-no_server,
}
use miredo.Server.{server_create, datagram, process_packet, send_ra, is_addr_global}
use miredo.Server.Advert.{CanAdvertise, client_reads, client_addr, send_ra-parse_ra}

pub server-CanAdvertise : CanAdvertise little server
unfolding is_valid_teredo_prefix
server-CanAdvertise = record {
  prefix = omega arith;
  server_ip = omega arith;
  low = omega arith;
  high = omega arith;
  valid = refl;
  recent = refl;
}

abbrev used : Stale
used = record { fill = []; auth_fail = true; auth_nonce = replicate 8 9 }

send_ra-parse_ra_example :
    client_reads little used 0 true 0xc6336401 (send_ra sockets server heard teredo_cone false).0
    ≡ some (record { addr = client_addr server 0xcb007105 4096 true; mtu = some 1280 })
send_ra-parse_ra_example =
    send_ra-parse_ra little sockets server heard used 0 0xc6336401 true false server-CanAdvertise
      refl (omega arith) (omega arith) (omega arith)

heard-Punches : Punches server alice bob heard 64 []
unfolding is_ipv4_global_unicast matches_teredo_client is_addr_global addr_equal is_unspecified
    is_loopback is_linklocal is_multicast teredo_ipv4 teredo_port s6_addr ip6_header
heard-Punches = record {
  packet = refl;
  fits = alice-Fits;
  fits' = bob-Fits;
  unicast = refl;
  outside = refl;
  outside2 = refl;
  ours = refl;
  mapped = refl;
  theirs = refl;
  server = refl;
  global = refl;
  reachable = refl;
  not_routers = refl;
  not_server = refl;
}

process_packet-AreConfined_example :
    AreConfined server heard (process_packet sockets server false (some heard)).0
process_packet-AreConfined_example = process_packet-AreConfined sockets server false heard

process_packet-recv_inner_example :
    (elim (process_packet sockets server false (some heard)).0 [
      | datagram second ip port m ∷ out ↦
          recv_inner used
            (record { payload = m; source_ipv4 = 0xc6336401; source_port = 3544; dest_ipv4 = 0 })
      | _ ↦ none
    ])
    ≡ some (record {
      ip6 = bubble ++ [];
      source_ipv4 = 0xc6336401;
      source_port = 3544;
      orig_port = 4096;
      orig_ipv4 = 0xcb007105;
      dest_ipv4 = 0;
      auth_present = false;
      auth_fail = true;
      auth_nonce = replicate 8 9;
    })
process_packet-recv_inner_example =
    process_packet-recv_inner sockets server alice bob heard 64 [] false used 0xc6336401 0
      heard-Punches (omega arith) (omega arith)

abbrev good_calls : Calls
good_calls = record { raw = some 5; memory = true; primary = some 6; secondary = some 7 }

-- A server, another one whose second address is taken, and the end of the first one.
abbrev history : List Call
history =
    creates good_calls 0xc6336401 0xc6336402
    ∷ creates (record good_calls { secondary = none }) 0xc6336401 0xc6336402
    ∷ destroys 0
    ∷ []

abbrev at_end : Process
at_end = record { raw_users = 1; raw_fd = some 5; raw_open = true; udp_open = 0; servers = [] }

history-after_calls : after_calls initial history ≡ some at_end
unfolding create_server join open_udp destroy_server server_create is_ipv4_global_unicast
history-after_calls = refl

after_calls-initial_example :
    HasRaw at_end.servers at_end.raw_open × (0 ≤ 1) × (1 < 2 ^ 32) × (0 ≡ 2 * 0)
after_calls-initial_example = after_calls-initial history at_end history-after_calls

-- No raw socket at first, and then one that nobody asks for.
abbrev failing : Calls
failing = record good_calls { raw = none }

abbrev later_calls : List Call
later_calls = creates good_calls 0xc6336401 0xc6336402 ∷ []

abbrev unserved : Process
unserved = record { raw_users = 2; raw_fd = none; raw_open = false; udp_open = 0; servers = [] }

later_calls-after_calls :
    after_calls initial (creates failing 0xc6336401 0xc6336402 ∷ later_calls) ≡ some unserved
unfolding create_server join open_udp server_create is_ipv4_global_unicast
later_calls-after_calls = refl

after_calls-no_server_example : unserved.servers ≡ []
after_calls-no_server_example =
    after_calls-no_server failing 0xc6336401 0xc6336402 later_calls unserved refl
      later_calls-after_calls

process_packet-Agrees_example : Agrees (process_packet sockets server false (some heard))
process_packet-Agrees_example = process_packet-Agrees sockets server false (some heard)
