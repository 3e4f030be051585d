-- ===== src/Tests/Setups.antt =====
-- The theorems on the clock and on the set-up of a relay, tried.
use miredo.Prelude.{◌≡◌, true, false, some, List, [], ◌∷◌}
use miredo.Clock.{Event, passes, ticks, asks}
use miredo.Daemon.Setup.{created, create_dynamic_tunnel, Outside, library, relay_setup}
use miredo.Daemon.Setup.Rules.{follow, has_run}
use miredo.Daemon.Setup.Balance.{relay_setup-follow}

-- The time is asked for while the timer's function is late, and after it has run.
abbrev events : List Event
events =
    asks true 0
    ∷ passes
    ∷ passes
    ∷ asks true 0
    ∷ ticks
    ∷ asks true 0
    ∷ passes
    ∷ ticks
    ∷ asks true 0
    ∷ []

-- A client whose ICMPv6 socket cannot be opened.
abbrev no_icmp6 : Outside
no_icmp6 = record {
  named = true;
  first = created;
  second = false;
  sets_mtu = true;
  brings_up = true;
  adds_address = true;
  adds_route = true;
  pairs = true;
  forks = true;
  starts_up = true;
  has_icmp6 = false;
  has_chrootdir = true;
  chroots = true;
  changes_dir = true;
  sets_uid = true;
  allocates = true;
  has_socket = true;
  has_list = true;
  maintains = true;
  receives = true;
  encapsulates = true;
}

relay_setup-follow_example :
    (follow (some (record { held = []; dropped = false })) (relay_setup true no_icmp6).0
      ≡ some (record { held = library ∷ []; dropped = false }))
    × (has_run (relay_setup true no_icmp6).0 ≡ (relay_setup true no_icmp6).1)
unfolding create_dynamic_tunnel
relay_setup-follow_example = relay_setup-follow true no_icmp6
