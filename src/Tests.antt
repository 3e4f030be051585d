-- ===== src/Tests.antt =====
-- Values on which the theorems and the functions are tried: a server, two of its clients, and a
-- process with a checksum of 16 bytes in place of MD5.
mod Wire
mod Lists
mod Nodes
mod Servers
mod Clients
mod Hooks
mod Setups
mod Settings
use miredo.Udp.{TeredoPacket}
use miredo.Packets.Headers.{Fits}
use miredo.Net.Ip6.{ip6_header}
use miredo.Prelude.Word.{not16, not32, little}
use miredo.Prelude.{
  length, replicate, ℕ, ◌+◌, ◌%◌, ◌≡◌, refl, true, false, some, List, [], ◌∷◌, arith,
}
use miredo.Checksum.Sum.{Bytes}
use miredo.Net.Addr.{Addr, teredo_prefix}
use miredo.Security.{Hmac}
use miredo.Peer.{Peer}
use miredo.Packets.{Host, IsDigest}
use miredo.PeerList.{PeerList, Alloc}
use miredo.Relay.{Tunnel, Env}
use miredo.Server.{TeredoServer, Sockets, sent}

abbrev total : List ℕ → ℕ
total [] = 0
total (x ∷ xs) = x + total xs

abbrev pub digest : List ℕ → List ℕ
digest m = replicate 16 (total m % 256)

pub digest-IsDigest : IsDigest digest
digest-IsDigest = record { size = λ m. refl_size m; bytes = λ m. all_bytes m }
  where
    refl_size : (m : List ℕ) → length (digest m) ≡ 16
    refl_size m = refl

    all_bytes : (m : List ℕ) → Bytes (digest m)
    all_bytes m = omega arith

abbrev pub key : Hmac
key = record { ipad = 0x36 ∷ []; opad = 0x5c ∷ []; hmac_pid = 7 }

abbrev pub host : Host
host = record { md5 = digest; endian = little; hmac = key; sendv = λ ip port m. some (length m) }

-- 198.51.100.1 and 198.51.100.2
abbrev pub server : TeredoServer
server = record {
  server_ip = 0xc6336401;
  server_ip2 = 0xc6336402;
  prefix = teredo_prefix;
  adv_link_mtu = 1280;
  lladdr = record {
    prefix = 0xfe800000;
    server_ip = 0;
    flags = 0x8000;
    client_port = not16 3544;
    client_ip = not32 0xc6336401;
  };
}

abbrev pub sockets : Sockets
sockets = record {
  endian = little;
  sendv = λ second ip port m. some (length m);
  sendto = λ tries packet. sent (length packet);
}

-- Clients at 203.0.113.5, port 4096, and 203.0.113.6, port 4097.
abbrev pub alice : Addr
alice = record {
  prefix = teredo_prefix;
  server_ip = 0xc6336401;
  flags = 0;
  client_port = not16 4096;
  client_ip = not32 0xcb007105;
}

abbrev pub bob : Addr
bob = record {
  prefix = teredo_prefix;
  server_ip = 0xc6336401;
  flags = 0;
  client_port = not16 4097;
  client_ip = not32 0xcb007106;
}

abbrev pub blank : Peer
blank = record {
  queue = [];
  queue_left = 0;
  last_rx = 0;
  last_tx = 0;
  mapped_addr = 0;
  mapped_port = 0;
  trusted = false;
  bubbles = 0;
  pings = 0;
  last_ping = 0;
}

abbrev pub memory : Alloc
memory = record { node = true; item = true; garbage = blank }

-- An empty list with room for two peers.
abbrev pub empty : PeerList
empty = record { recent = []; old = []; left = 2; expiration = 30; root = []; locked = false }

abbrev pub env : Env
env = record {
  host = host;
  now = 100;
  time = 100;
  alloc = memory;
  alloc' = memory;
  queue_memory = true;
  behind = 0;
}

-- Alice's tunnel, qualified.
abbrev pub tunnel : Tunnel
tunnel = record {
  list = empty;
  state = record { addr = alice; mtu = 1280; ipv4 = 0xc0000201; up = true };
  is_client = true;
  count = 10;
  last = 0;
}

abbrev pub bubble : List ℕ
bubble = ip6_header 0 59 64 alice bob

pub alice-Fits : Fits alice
alice-Fits = record {
  prefix = omega arith;
  server_ip = omega arith;
  flags = omega arith;
  client_port = omega arith;
  client_ip = omega arith;
}

pub bob-Fits : Fits bob
bob-Fits = record {
  prefix = omega arith;
  server_ip = omega arith;
  flags = omega arith;
  client_port = omega arith;
  client_ip = omega arith;
}

abbrev pub heard : TeredoPacket
heard = record {
  ip6 = bubble;
  source_ipv4 = 0xcb007105;
  source_port = 4096;
  orig_port = 0;
  orig_ipv4 = 0;
  dest_ipv4 = 0;
  auth_present = false;
  auth_fail = false;
  auth_nonce = replicate 8 3;
}
