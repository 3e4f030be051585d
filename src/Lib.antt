-- ===== src/Lib.antt =====
-- Verification of Miredo: the tunnels, servers and clients of its Teredo library (libteredo), and the
-- configuration of its daemons (src).
--
-- Miredo carries IPv6 packets in UDP/IPv4 datagrams (RFC 4380). A relay or client is a tunnel
-- (libteredo/relay.c): it takes packets from the IPv6 stack (`teredo_transmit`) and datagrams from
-- the network (`teredo_run_inner`), and keeps a list of peers (libteredo/peerlist.c) with a queue
-- and counters for each. It builds and checks bubbles, pings, router solicitations and ICMPv6
-- errors (libteredo/packets.c) with keyed hashes (libteredo/security.c), checksums and the
-- encapsulation of libteredo/teredo.c. A server (libteredo/server.c) answers solicitations and
-- forwards bubbles between its clients, one datagram at a time. A client has a maintenance thread
-- (libteredo/maintain.c), which solicits its server, takes the advertisements that the tunnel hands
-- over and tells the tunnel of its address. The daemons read a configuration file (src/conf.c) and
-- set up a tunnel (src/relayd.c) or a server (src/serverd.c) by it, in a child process that
-- src/miredo.c restarts; src/checkconf.c checks the file. A client tells a privileged process
-- (src/privproc.c) of its address over a socket, and that process runs a hook script.
--
-- Files, each with its children:
--   Prelude: the numbers, lists and machine words that all files use.
--   Net: libteredo/v4global.c (Net/Ipv4), the addresses of libteredo/teredo.h (Net/Addr) and the
--     IPv6 and ICMPv6 headers of the C library (Net/Ip6).
--   Udp: `teredo_recv_inner` (recv_inner) on a datagram and the receive buffer.
--   Clock: `teredo_clock` and `clock_tick` (libteredo/clock.c), a step for each call and each second; a tick
--     while a call runs, which the code allows, is left out.
--   Checksum: `in_cksum`, `teredo_cksum`, `icmp6_checksum`.
--   Security: `teredo_init_HMAC` (init_hmac), `teredo_hash`, ping hashes, nonces.
--   Peer: `struct teredo_peer`, its queue, `CountPing`, `CountBubble`.
--   PeerList: `struct teredo_peerlist`, `teredo_list_lookup`, the collector, reset and release.
--   Packets: `teredo_send_bubble`, `SendBubbleFromDst`, `CheckBubble` (Packets/Bubble),
--     `teredo_send_rs`, `teredo_parse_ra` (Packets/Ra), `SendPing`, `CheckPing` (Packets/Ping),
--     `BuildICMPv6Error` (Packets/Error).
--   Relay: the tunnel and its rate limit; Relay/Transmit: `teredo_transmit`; Relay/Receive:
--     `teredo_run_inner`; Relay/Control: `teredo_create`, `teredo_state_change` and the setters.
--   Server: `teredo_process_packet`, `SendRA`, `teredo_forward_udp`, `teredo_send_ipv6`; Server/Lifetime:
--     `teredo_server_create` (create_server) and `teredo_server_destroy`, with the raw socket they share.
--   Maintenance: `maintenance_thread`, a state machine (step_in) with a phase for each place where it
--     waits; an input is a resolution, a reading of the clock, a packet or a deadline that passes.
--     Maintenance/Handshake puts it together with a server and a NAT. Maintenance/HandOver has the
--     steps of the threads in `teredo_maintenance_process`, in any order, and of the thread that serves
--     them: what each of them does to the mutexes and to the packet between them.
--   Conf: the settings and their chain, `miredo_conf_set`, `_get` and `_clear`; Conf/Reader:
--     `miredo_conf_read_FILE`; Conf/Values: `miredo_conf_get_int16`, `_parse_IPv4` and the like;
--     Conf/Strings: the functions of the C library on strings that they use.
--   Tun6: `tun6_send` and `tun6_recv_inner` of libtun6/tun6.c on Linux, and the thread of src/relayd.c
--     that reads packets from the device, `miredo_encap_thread` (encap_thread).
--   Daemon: the configuration in `relay_run` and `server_run`, and `miredo_checkconf`;
--     Daemon/Supervisor: the loop of `miredo`, a round for each child; Daemon/Setup: `relay_run` after
--     its configuration, as the sequence of what it opens, starts, stops and closes (Act) when the
--     calls to the system succeed or fail as they may (Outside); Daemon/Service: `server_run` after
--     its configuration, with the start and the stop of the server's threads; Daemon/Command: the
--     command line in `miredo_main` of src/main.c.
--   Privproc: the loop of src/privproc.c (serve) with the environment of the hook script, and
--     `configure_tunnel` and the callbacks of src/relayd.c; Privproc/Ipc: `miredo_send` and `miredo_recv`.
--   Tests: values on which the theorems are applied.
--
-- Words in network byte order are the numbers that their bytes spell; where the code reads such a
-- word as the host has it, the byte order is a parameter (`Endian`). Functions that send return what
-- they hand to the socket, in order, with their result; those that change a tunnel or a list return
-- the new one. What the outside gives is a parameter: MD5, the results of the socket calls, the
-- clocks, the allocator (for the settings, one at each start of a child) and the contents of fresh or
-- stale memory. `none` from a function of the relay or the list is a call that does not return: it
-- waits for a mutex which it holds itself, or it has no memory for a packet that it queues
-- (queue_memory), and the code writes through NULL.
--
-- The chain of settings is a list of nodes with their addresses, and the tail pointer an address: a
-- write through it to a node that is not in the chain has no result, like a read outside a buffer.
--
-- Fuel is used in two loops. That over the options of an advertisement (parse_options) has the number
-- of bytes left, of which each round takes at least 8; that over the lines of a file (read_lines) has
-- one more than the bytes of the file, of which each round takes at least one. The server's loop on
-- `sendto` has the 10 tries of the code. A read past the end of a packet's bytes is 0, but for the type
-- of an ICMPv6 packet that is a header only, in `BuildICMPv6Error`: that is a parameter (behind). The
-- buffers of the reader have the sizes of the code: 1055 bytes of a line, 31 of a name, 1023 of a value;
-- its line numbers wrap around at 2^32 (next_line).
--
-- The tree of keys of the peer list is modelled as a list of keys, in the build without Judy arrays.
-- Two lookups of one call stand without calls of other threads in between. The maintenance thread
-- holds its mutex but where it waits (Maintenance/HandOver), so that its inputs come one after another.
--
-- Not modelled: the other threads and their locks, sockets, the creation and the configuration of
-- tunnel devices (libtun6), MD5, the privileges of the daemons (src/main.c), which
-- are system calls or glue; what the daemons write to the system log.
pub mod Prelude
pub mod Net
pub mod Udp
pub mod Clock
pub mod Checksum
pub mod Security
pub mod Peer
pub mod PeerList
pub mod Packets
pub mod Relay
pub mod Server
pub mod Maintenance
pub mod Conf
pub mod Tun6
pub mod Daemon
pub mod Privproc
pub mod Tests
