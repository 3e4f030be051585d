-- ===== src/Tests/Nodes.antt =====
-- The theorems on packets, the tunnel and the server, tried.
use miredo.Prelude.Word.{not16, not32}
use miredo.Prelude.{
  drop, ℕ, ◌≤◌, ◌≡◌, refl, ◌⊎◌, true, false, none, some, List, [], ◌∷◌, ◌++◌, arith,
}
use miredo.Relay.Control.{create}
use miredo.Relay.Control.History.{Event, Stands, run, create-Stands}
use miredo.Relay.Control.Notices.{Alternate, notices, notices-Alternate}
use miredo.Relay.{Tunnel}
use miredo.PeerList.{list_create}
use miredo.Relay.Strangers.{delivered_by, receive-delivered}
use miredo.PeerList.View.{view}
use miredo.PeerList.{find_item}
use miredo.Relay.Receive.{is_proved}
use miredo.Tests.{
  bubble, heard, alice-Fits, bob-Fits, digest, key, host, alice, bob, empty, env, tunnel,
}
use miredo.Net.Addr.{matches_teredo_client, teredo_ipv4, teredo_port, s6_addr, addr_at}
use miredo.Net.Ip6.{ip6_plen, is_bubble, ip6_nxt, ip6_header, ip6_src, ip6_dst}
use miredo.Udp.{TeredoPacket}
use miredo.Security.{get_pinghash, verify_pinghash}
use miredo.Packets.Ping.{check_ping}
use miredo.Packets.Ping.Authentic.{check_ping_authentic, check_ping-echo_reply}
use miredo.Packets.Ra.{Options}
use miredo.PeerList.Items.{keys, items}
use miredo.PeerList.Lock.{IsSettled}
use miredo.Tun6.{tun_head, Read}
use miredo.Relay.Transmit.{transmit}
use miredo.Relay.Receive.{receive}
use miredo.Relay.Settled.{transmit-Settles}
use miredo.Relay.Settled
use miredo.Relay.Returns
use miredo.Relay.Limiter.{errors_sent, errors_sent-le}

abbrev reply : List ℕ
reply = ip6_header 26 58 64 bob alice ++ (129 ∷ 0 ∷ 0 ∷ 0 ∷ get_pinghash digest key 90 alice bob)

check_ping-reply : check_ping host 100 reply ≡ true
check_ping-reply =
    check_ping-echo_reply host 90 100 64 0 0 alice bob (omega arith) alice-Fits bob-Fits

check_ping_authentic_example :
    (n : ℕ) × ((n ≡ 44) ⊎ (n ≡ 92))
    × (verify_pinghash digest key 100 (ip6_dst reply) (ip6_src reply) (drop n reply) ≡ true)
check_ping_authentic_example = check_ping_authentic host 100 reply check_ping-reply

abbrev options : Options
options = record { prefix = 0; server_ip = 0; net_mtu = 0 }

empty-IsSettled : IsSettled 2 empty
unfolding keys items
empty-IsSettled = record {
  valid = record { agree = λ a. refl; once = λ a. omega arith; places = refl; small = omega arith };
  free = refl;
}

transmit-Settles_example : miredo.Relay.Settled.Settles 2 (transmit env tunnel bubble)
transmit-Settles_example = transmit-Settles 2 env tunnel bubble refl empty-IsSettled

errors_sent-le_example : errors_sent env tunnel ((3, bubble) ∷ (1, bubble) ∷ []) ≤ 10
errors_sent-le_example = errors_sent-le env tunnel ((3, bubble) ∷ (1, bubble) ∷ []) (omega arith)

-- A packet of Alice's that comes from another port.
abbrev strange : TeredoPacket
strange = record heard { ip6 = ip6_header 0 58 64 alice bob; source_port = 9 }

strange_proof : is_proved env strange ≡ false
unfolding is_proved matches_teredo_client teredo_ipv4 teredo_port is_bubble ip6_header ip6_src
    ip6_plen ip6_nxt addr_at s6_addr
strange_proof = refl

strange_absent : view empty (ip6_src strange.ip6) ≡ none
unfolding find_item
strange_absent = refl

receive-delivered_example : delivered_by (receive env tunnel strange) ≡ []
receive-delivered_example =
    receive-delivered 2 env tunnel strange empty-IsSettled.valid strange_absent strange_proof

abbrev fresh : Tunnel
fresh = record {
  list = record { recent = []; old = []; left = 1024; expiration = 30; root = []; locked = false };
  state = record {
    addr = record {
      prefix = 0x20010000;
      server_ip = 0;
      flags = 0;
      client_port = not16 3545;
      client_ip = not32 0xc0000201;
    };
    mtu = 0;
    ipv4 = 0;
    up = false;
  };
  is_client = false;
  count = 1;
  last = 0;
}

created_fresh : create true true 0xc0000201 3545 ≡ some fresh
unfolding create list_create
created_fresh = refl

abbrev events : List Event
events =
    Event.starts_client true
    ∷ Event.changes tunnel.state
    ∷ Event.transmits env bubble
    ∷ Event.receives env heard
    ∷ Event.collects
    ∷ Event.changes fresh.state
    ∷ []

create-Stands_example : Stands (run fresh events)
create-Stands_example =
    create-Stands true true 0xc0000201 3545 fresh events created_fresh
      (tt, (tt, (refl, (refl, (tt, (tt, tt))))))

notices-Alternate_example :
    Alternate false (notices fresh (tunnel.state ∷ tunnel.state ∷ fresh.state ∷ fresh.state ∷ []))
notices-Alternate_example =
    notices-Alternate (tunnel.state ∷ tunnel.state ∷ fresh.state ∷ fresh.state ∷ []) fresh

-- Packets from the stack: one as it is to be, one that is too short and one that could not be read.
abbrev reads : List Read
reads =
    record { env = env; bytes = some (tun_head ++ bubble) }
    ∷ record { env = env; bytes = some (tun_head ++ (96 ∷ [])) }
    ∷ record { env = env; bytes = none }
    ∷ []
