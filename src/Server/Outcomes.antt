-- ===== src/Server/Outcomes.antt =====
-- What the result of `teredo_process_packet` says of what was sent.
use miredo.Prelude.{
  ◌==◌, length, take, ℕ, zero, suc, ◌≤◌, ◌≡◌, refl, Bool, true, false, Option, none, some, List, [],
  ◌∷◌, arith,
}
use miredo.Net.Addr.{Addr}
use miredo.Net.Ip6.{ip6_src}
use miredo.Udp.{TeredoPacket}
use miredo.Server.{
  Sending, raw, Outcome, io_error, discarded, probed, checked, forwarded, Sockets, TeredoServer,
  Attempt, sent, pending_error, failed, Decision, dropped, advertise, direct, forward, decide, done,
  send_ra, send_ipv6, send_tries, forward_udp, process_packet,
}

-- How many packets leave with each result.
abbrev pub Agrees : List Sending × Outcome → Type 0
Agrees (out, discarded) = out ≡ []
Agrees (out, io_error) = length out ≤ 1
Agrees (out, o) = length out ≡ 1

-- An attempt to send: one packet at most, and one if it succeeds.
record IsAttempt (r : List Sending × Bool) : Type 0 where
  most : length r.0 ≤ 1
  one : r.1 ≡ true → length r.0 ≡ 1

send_tries-IsAttempt :
    (k : Sockets) (packet : List ℕ) (tries : ℕ) → IsAttempt (send_tries k packet tries)
unfolding send_tries
send_tries-IsAttempt k packet zero = record { most = omega arith; one = λ h. ground arith }
send_tries-IsAttempt k packet (suc tries) =
    by_attempt (k.sendto tries packet) (send_tries-IsAttempt k packet tries)
  where
    by_attempt :
        (a : Attempt)
        → IsAttempt (send_tries k packet tries)
        → IsAttempt (elim a [
          | sent n ↦ (raw packet ∷ [], n == length packet)
          | pending_error ↦ send_tries k packet tries
          | failed ↦ ([], false)
        ])
    by_attempt (sent n) r = record { most = omega arith; one = λ h. refl }
    by_attempt pending_error r = r
    by_attempt failed r = record { most = omega arith; one = λ h. ground arith }

forward_udp-IsAttempt :
    (k : Sockets) (p : TeredoPacket) (insert : Bool) → IsAttempt (forward_udp k p insert)
unfolding forward_udp
forward_udp-IsAttempt k p insert = record { most = ground arith; one = λ h. ground arith }

send_ra-IsAttempt :
    (k : Sockets) (s : TeredoServer) (p : TeredoPacket) (dest : Addr) (sec : Bool)
    → IsAttempt (send_ra k s p dest sec)
unfolding send_ra
send_ra-IsAttempt k s p dest sec = record { most = omega arith; one = λ h. refl }

done-Agrees :
    (o : Outcome) (out : List Sending) (ok : Bool)
    → (length out ≡ 1 → Agrees (out, o))
    → IsAttempt (out, ok)
    → Agrees (done o (out, ok))
unfolding done
done-Agrees o out true e h = e (h.one refl)
done-Agrees o out false e h = h.most

-- Whatever the packet, a server sends at most one packet for it; none if the result is that it was
-- discarded, and one if the result is that it was answered, sent to the IPv6 internet or forwarded.
pub process_packet-Agrees :
    (k : Sockets) (s : TeredoServer) (sec : Bool) (p : Option TeredoPacket)
    → Agrees (process_packet k s sec p)
unfolding process_packet send_ipv6
process_packet-Agrees k s sec none = omega arith
process_packet-Agrees k s sec (some p) = by_decision (decide s p)
  where
    by_decision :
        (d : Decision)
        → Agrees (elim d [
          | dropped ↦ ([], discarded)
          | advertise ↦ done probed (send_ra k s p (ip6_src p.ip6) sec)
          | direct len ↦ done checked (send_ipv6 k (take len p.ip6))
          | forward insert ↦ done forwarded (forward_udp k p insert)
        ])
    by_decision dropped = refl
    by_decision advertise =
        done-Agrees probed _ _ (λ x. x) (send_ra-IsAttempt k s p (ip6_src p.ip6) sec)
    by_decision (direct len) =
        done-Agrees checked _ _ (λ x. x) (send_tries-IsAttempt k (take len p.ip6) 10)
    by_decision (forward insert) =
        done-Agrees forwarded _ _ (λ x. x) (forward_udp-IsAttempt k p insert)
