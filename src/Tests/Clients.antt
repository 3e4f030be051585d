-- ===== src/Tests/Clients.antt =====
-- The theorems on the maintenance procedure, tried.
use miredo.Prelude.Word.{little}
use miredo.Prelude.{replicate, ◌≡◌, refl, true, false, none, some, [], ◌∷◌, arith, List, ℕ, ◌<◌}
use miredo.Tests.{host, server, sockets, digest-IsDigest, heard}
use miredo.Maintenance.HandOver.{
  Worker, sleeping, gone, waiting, entering, placing, arriving, System, set_call, call, lock_outer,
  lock_inner, place, begin, fall_asleep, cancel_sleeping, by_caller, by_worker, at_start, goes_on,
  stays, Reached, wake, wait_again, checking, Leads,
}
use miredo.Maintenance.HandOver.Order.{StillWaits, InOrder, Reached-StillWaits}
use miredo.Maintenance.HandOver.Stop.{InWait, Leads-InWait}
use miredo.Udp.{Stale}
use miredo.Net.Ipv4.{is_ipv4_global_unicast}
use miredo.Packets.Ra.{send_rs}
use miredo.Tests.Servers.{server-CanAdvertise}
use miredo.Maintenance.Legs.{MaySolicit}
use miredo.Maintenance.{
  Action, step_in, resolve, solicit, time_out, next_round, is_ahead, start, Delays, Maintenance,
  Input, resolves, reads_clock, expires, run, Time, soliciting,
}
use miredo.Maintenance.Sound.{AreUsable}
use miredo.Maintenance.Qualified.{AssertHolds, start-AreUsable}
use miredo.Maintenance.Loss.{detector, watch, run-watch}
use miredo.Maintenance.Handshake.{Exchange, Qualifies, exchange, qualified, exchange-qualified}

abbrev delays : Delays
delays = record {
  qualification_delay = 4;
  qualification_retries = 3;
  refresh_delay = 30;
  restart_delay = 100;
}

abbrev instant : ℕ → Time
instant n = record { sec = n; nsec = 0 }

-- The name is resolved, a solicitation goes out, and its answer does not come.
abbrev unanswered : List Input
unanswered = resolves (some 0xc6336401) (instant 1000) ∷ reads_clock (instant 1000) ∷ expires ∷ []

abbrev reached : Maintenance × List Action
reached = elim (run host delays start unanswered) [ none ↦ (start, []) | some r ↦ r ]

reached-run : run host delays start unanswered ≡ some reached
unfolding start step_in resolve solicit time_out next_round is_ipv4_global_unicast is_ahead send_rs
reached-run = refl

start-AreUsable_example :
    AreUsable little reached.1
    × (reached.0.count < 3)
    × AssertHolds reached.0.phase reached.0.state.up
start-AreUsable_example =
    start-AreUsable host delays unanswered reached.0 reached.1 (omega arith) reached-run

run-watch_example : detector reached.0 ≡ watch host delays (detector start) start unanswered
run-watch_example = run-watch host delays unanswered start reached.0 reached.1 reached-run

-- The thread with a server's address, about to solicit it.
abbrev ready : Maintenance
ready = record start { phase = soliciting; deadline = instant 1000; server_ip = 0xc6336401 }

abbrev used : Stale
used = record { fill = []; auth_fail = true; auth_nonce = replicate 8 9 }

-- Through a NAT at 203.0.113.5, port 4096.
abbrev through_nat : Exchange
through_nat = record {
  sockets = sockets;
  server = server;
  secondary = false;
  old = used;
  old' = used;
  ip = 0xcb007105;
  port = 4096;
  ipv4 = 0xc0a80002;
  stale = 0;
}

nat-MaySolicit : MaySolicit server 0xcb007105 4096
unfolding is_ipv4_global_unicast
nat-MaySolicit = record {
  unicast = refl;
  positive = omega arith;
  word = omega arith;
  port = omega arith;
  other = refl;
}

exchange-qualified_example :
    Qualifies
      (qualified through_nat host delays ready)
      (exchange through_nat host delays ready (instant 1000))
unfolding start is_ahead
exchange-qualified_example =
    exchange-qualified through_nat host delays ready (instant 1000) digest-IsDigest
      server-CanAdvertise nat-MaySolicit refl refl refl refl

-- Thread 7 calls while the maintenance thread sleeps, and hands its packet over.
abbrev posting : Worker → System
posting w = record {
  shared = record at_start.shared {
    outer = some 7;
    incoming = some (record { from = 7; packet = heard });
    worker_at = w;
  };
  calls =
      set_call
        (set_call (set_call (set_call at_start.calls 7 (arriving heard)) 7 (entering heard)) 7
          (placing heard))
        7 (waiting heard);
}

posting-Reached : Reached (posting sleeping)
posting-Reached =
    goes_on
      (goes_on
        (goes_on
          (goes_on
            (goes_on (goes_on stays (by_worker (begin refl refl)))
              (by_worker (fall_asleep refl refl)))
            (by_caller 7 (call heard)))
          (by_caller 7 (lock_outer refl)))
        (by_caller 7 (lock_inner refl)))
      (by_caller 7 place)

Reached-StillWaits_example :
    StillWaits (some (record { from = 7; packet = heard })) (posting sleeping).calls
    × InOrder (posting sleeping).shared
Reached-StillWaits_example = Reached-StillWaits (posting sleeping) posting-Reached

-- The call wakes up, finds its packet pending, and waits again.
abbrev waiting_on : System
waiting_on = record {
  shared = (posting gone).shared;
  calls = set_call (set_call (posting gone).calls 7 (checking heard)) 7 (waiting heard);
}

posting-Leads : Leads (posting gone) waiting_on
posting-Leads = goes_on (goes_on stays (by_caller 7 (wake refl))) (by_caller 7 (wait_again refl))

Leads-InWait_example : InWait heard (waiting_on.calls 7)
Leads-InWait_example =
    Leads-InWait (posting gone) waiting_on (record { from = 7; packet = heard })
      (goes_on posting-Reached (by_worker (cancel_sleeping refl refl))) refl refl posting-Leads
