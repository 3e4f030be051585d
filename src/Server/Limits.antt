-- ===== src/Server/Limits.antt =====
-- What a server does with a packet, by its decision.
use miredo.Prelude.{
  some, ◌==◌, length, length-take, take, ap, ◌+◌, ◌≤◌, ◌≡◌, ◌⊎◌, inl, inr, refl, ℕ, zero, suc, not,
  if◌then◌else◌, Bool, true, false, ◌&&◌, List, [], ◌∷◌, arith,
}
use miredo.Server.{
  forward, dropped, advertise, Decision, TeredoServer, direct, decide, decide_accepted,
  is_addr_global, Sending, raw, datagram, Outcome, discarded, probed, checked, forwarded, done,
  Sockets, Attempt, sent, pending_error, failed, send_tries, send_ipv6, send_ra, forward_udp,
  process_packet,
}
use miredo.Udp.{TeredoPacket}
use miredo.Net.Ipv4.{is_ipv4_global_unicast}
use miredo.Net.Ip6.{ip6_src, ip6_nxt, ipproto_none, ip6_dst, ip6_plen, is_bubble}
use miredo.Net.Addr.{teredo_port, teredo_ipv4, ipport_teredo}

-- What is sent on to a destination of the packet's choice: from a global unicast source that is not
-- the server itself, to a global IPv6 destination, with a header that announces no more than 88
-- bytes, or none for a bubble.
pub record MayRelay (s : TeredoServer) (p : TeredoPacket) : Type 0 where
  pub unicast : is_ipv4_global_unicast p.source_ipv4 ≡ true
  pub no_loop : (p.source_ipv4 == s.server_ip && p.source_port == ipport_teredo) ≡ false
  pub no_loop2 : (p.source_ipv4 == s.server_ip2 && p.source_port == ipport_teredo) ≡ false
  pub global : is_addr_global (ip6_dst p.ip6) ≡ true
  pub small : ip6_plen p.ip6 ≤ 88
  pub whole : 40 + ip6_plen p.ip6 ≤ length p.ip6

abbrev pub relays : Decision → Bool
relays (direct len) = true
relays (forward insert) = true
relays d = false

accepted-MayRelay :
    (s : TeredoServer) (p : TeredoPacket)
    → relays (decide_accepted s p) ≡ true
    → is_ipv4_global_unicast p.source_ipv4 ≡ true
    → 40 + ip6_plen p.ip6 ≤ length p.ip6
    → (ip6_nxt p.ip6 ≡ ipproto_none → ip6_plen p.ip6 ≡ 0)
    → MayRelay s p
unfolding decide_accepted
accepted-MayRelay s p h unicast whole bubble = record {
  unicast = unicast;
  no_loop = ground arith;
  no_loop2 = ground arith;
  global = ground arith;
  small = ground arith;
  whole = whole;
}

-- A packet is relayed, to the IPv6 internet or to a client, only if it comes from a global unicast
-- address, not from the server's own sockets, goes to a global address, is no shorter than its
-- header says, and announces at most 88 bytes of payload.
decide-MayRelay : (s : TeredoServer) (p : TeredoPacket) → relays (decide s p) ≡ true → MayRelay s p
unfolding decide is_bubble
decide-MayRelay s p h =
    accepted-MayRelay s p (ground arith) (ground arith) (ground arith) (λ n. ground arith)

-- A packet to the IPv6 internet is what the header announces of a packet that may be relayed. A
-- datagram goes to a global unicast address, and back to the source, or the packet may be relayed.
abbrev pub IsConfined : TeredoServer → TeredoPacket → Sending → Type 0
IsConfined s p (raw m) = MayRelay s p × (length m ≤ 128) × (m ≡ take (40 + ip6_plen p.ip6) p.ip6)
IsConfined s p (datagram second ip port m) =
    (is_ipv4_global_unicast ip ≡ true)
    × (((ip ≡ p.source_ipv4) × (port ≡ p.source_port)) ⊎ MayRelay s p)

abbrev pub AreConfined : TeredoServer → TeredoPacket → List Sending → Type 0
AreConfined s p [] = Unit {0}
AreConfined s p (x ∷ out) = IsConfined s p x × AreConfined s p out

decide_direct :
    (s : TeredoServer) (p : TeredoPacket) (len : ℕ)
    → decide s p ≡ direct len
    → len ≡ 40 + ip6_plen p.ip6
unfolding decide decide_accepted
decide_direct s p len h = ground arith

decide_advertise :
    (s : TeredoServer) (p : TeredoPacket)
    → decide s p ≡ advertise
    → is_ipv4_global_unicast p.source_ipv4 ≡ true
unfolding decide
decide_advertise s p h = ground arith

done-AreConfined :
    (s : TeredoServer) (p : TeredoPacket) (o : Outcome) (r : List Sending × Bool)
    → AreConfined s p r.0
    → AreConfined s p (done o r).0
unfolding done
done-AreConfined s p o (out, ok) h = h

send_tries-AreConfined :
    (k : Sockets) (s : TeredoServer) (p : TeredoPacket) (m : List ℕ) (tries : ℕ)
    → IsConfined s p (raw m)
    → AreConfined s p (send_tries k m tries).0
unfolding send_tries
send_tries-AreConfined k s p m zero h = tt
send_tries-AreConfined k s p m (suc tries) h =
    by_attempt (k.sendto tries m) (send_tries-AreConfined k s p m tries h)
  where
    by_attempt :
        (a : Attempt)
        → AreConfined s p (send_tries k m tries).0
        → let r : List Sending × Bool = elim a [
          | sent n ↦ (raw m ∷ [], n == length m)
          | pending_error ↦ send_tries k m tries
          | failed ↦ ([], false)
        ] in
          AreConfined s p r.0
    by_attempt (sent n) r = (h, tt)
    by_attempt pending_error r = r
    by_attempt failed r = tt

direct-IsConfined :
    (s : TeredoServer) (p : TeredoPacket) (len : ℕ)
    → decide s p ≡ direct len
    → IsConfined s p (raw (take len p.ip6))
direct-IsConfined s p len h =
    let m = decide-MayRelay s p (ap relays h) in
    let e = decide_direct s p len h in
    (m, omega (arith, length-take len p.ip6, e, m.small), ap (λ n. take n p.ip6) e)

forward_udp-AreConfined :
    (k : Sockets) (s : TeredoServer) (p : TeredoPacket) (insert : Bool)
    → MayRelay s p
    → AreConfined s p (forward_udp k p insert).0
unfolding forward_udp
forward_udp-AreConfined k s p insert m =
    by_target (is_ipv4_global_unicast (teredo_ipv4 (ip6_dst p.ip6))) refl _ _
  where
    by_target :
        (b : Bool)
        → is_ipv4_global_unicast (teredo_ipv4 (ip6_dst p.ip6)) ≡ b
        → (message : List ℕ) (ok : Bool)
        → let port = teredo_port (ip6_dst p.ip6) in
          let r : List Sending × Bool =
            if not b
            then ([], false)
            else (datagram false (teredo_ipv4 (ip6_dst p.ip6)) port message ∷ [], ok) in
          AreConfined s p r.0
    by_target true e message ok = ((e, inr m), tt)
    by_target false e message ok = tt

-- Whatever the packet, and whatever the results of the socket calls: each datagram that a server sends
-- for it goes to a global unicast address, and either back to where the packet came from, or the packet
-- may be relayed; and what it sends to the IPv6 internet is, of a packet that may be relayed, the 128
-- bytes at most that the header announces. A packet may be relayed only if it comes from a global unicast
-- address, not from the server's own sockets, goes to a global address, is no shorter than its header
-- says, and announces at most 88 bytes of payload.
pub process_packet-AreConfined :
    (k : Sockets) (s : TeredoServer) (sec : Bool) (p : TeredoPacket)
    → AreConfined s p (process_packet k s sec (some p)).0
unfolding process_packet send_ipv6 send_ra
process_packet-AreConfined k s sec p = by_decision (decide s p) refl
  where
    by_decision :
        (d : Decision)
        → decide s p ≡ d
        → let r : List Sending × Outcome = elim d [
          | dropped ↦ ([], discarded)
          | advertise ↦ done probed (send_ra k s p (ip6_src p.ip6) sec)
          | direct len ↦ done checked (send_ipv6 k (take len p.ip6))
          | forward insert ↦ done forwarded (forward_udp k p insert)
        ] in
          AreConfined s p r.0
    by_decision dropped h = tt
    by_decision advertise h =
        done-AreConfined s p probed (send_ra k s p (ip6_src p.ip6) sec)
          ((decide_advertise s p h, inl (refl, refl)), tt)
    by_decision (direct len) h =
        done-AreConfined s p checked (send_ipv6 k (take len p.ip6))
          (send_tries-AreConfined k s p (take len p.ip6) 10 (direct-IsConfined s p len h))
    by_decision (forward insert) h =
        done-AreConfined s p forwarded (forward_udp k p insert)
          (forward_udp-AreConfined k s p insert (decide-MayRelay s p (ap relays h)))
