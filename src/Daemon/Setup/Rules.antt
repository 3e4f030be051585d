-- ===== src/Daemon/Setup/Rules.antt =====
-- The rules that opening and closing keep, for a sequence of acts.
use miredo.Prelude.{
  ◌==◌, if◌then◌else◌, ℕ, ◌≡◌, refl, Bool, true, false, not, ◌&&◌, ◌||◌, Option, none, some, List,
  [], ◌∷◌, ◌++◌,
}
use miredo.Daemon.Setup.{
  Resource, device, hook_end, client_end, hook_process, library, icmp6_socket, memory, udp_socket,
  peer_list, maintainer, receiver, encapsulator, Act, opens, closes, drops, runs, Done,
}

abbrev number : Resource → ℕ
number device = 0
number hook_end = 1
number client_end = 2
number hook_process = 3
number library = 4
number icmp6_socket = 5
number memory = 6
number udp_socket = 7
number peer_list = 8
number maintainer = 9
number receiver = 10
number encapsulator = 11

abbrev holds : List Resource → Resource → Bool
holds [] r = false
holds (q ∷ qs) r = if number q == number r then true else holds qs r

abbrev without : List Resource → Resource → List Resource
without [] r = []
without (q ∷ qs) r = let rest = without qs r in if number q == number r then qs else q ∷ rest

-- What is open, the last one first, and whether the privileges have been dropped.
pub record Standing : Type 0 where
  pub held : List Resource
  pub dropped : Bool

-- Whether a thread of the relay runs.
abbrev is_busy : Standing → Bool
is_busy s = holds s.held maintainer || (holds s.held receiver || holds s.held encapsulator)

-- What the threads that move packets use: the device, the ICMPv6 socket for their errors, the relay's
-- socket and its list.
abbrev has_paths : Standing → Bool
has_paths s =
    holds s.held device
    && (holds s.held icmp6_socket && (holds s.held udp_socket && holds s.held peer_list))

-- Privileges are needed for the device, the ICMPv6 socket and the privileged process; what takes
-- datagrams from the network is opened without them. A thread is started when what it uses is there;
-- the maintenance thread uses the socket and the list, and the privileged process by its callbacks.
abbrev may_open : Resource → Standing → Bool
may_open device s = not s.dropped
may_open icmp6_socket s = not s.dropped
may_open hook_process s = not s.dropped
may_open udp_socket s = s.dropped
may_open maintainer s =
    s.dropped && (holds s.held udp_socket && (holds s.held peer_list && holds s.held client_end))
may_open receiver s = s.dropped && has_paths s
may_open encapsulator s = s.dropped && has_paths s
may_open r s = true

-- Nothing but a thread is closed while a thread of the relay runs; the privileged process ends when its
-- socket has been closed. The memory of the maintenance is not among the resources: it goes with its thread.
abbrev may_close : Resource → Standing → Bool
may_close maintainer s = true
may_close receiver s = true
may_close encapsulator s = true
may_close hook_process s = not (is_busy s) && not (holds s.held client_end || holds s.held hook_end)
may_close r s = not (is_busy s)

-- No resource is opened twice, or closed when it is not open, and the rules above are kept.
abbrev pub do_act : Standing → Act → Option Standing
do_act s (opens r) =
    if not (holds s.held r) && may_open r s then some (record s { held = r ∷ s.held }) else none
do_act s (closes r) =
    if holds s.held r && may_close r s then some (record s { held = without s.held r }) else none
do_act s drops = if s.dropped then none else some (record s { dropped = true })
do_act s runs =
    if s.dropped && (holds s.held receiver && holds s.held encapsulator) then some s else none

abbrev pub follow : Option Standing → List Act → Option Standing
follow none acts = none
follow (some s) [] = some s
follow (some s) (a ∷ acts) = follow (do_act s a) acts

pub follow-append :
    (o : Option Standing) (xs ys : List Act) → follow o (xs ++ ys) ≡ follow (follow o xs) ys
follow-append none xs ys = refl
follow-append (some s) [] ys = refl
follow-append (some s) (x ∷ xs) ys = follow-append (do_act s x) xs ys

-- Whether a signal has been waited for.
abbrev pub has_run : List Act → Bool
has_run [] = false
has_run (runs ∷ acts) = true
has_run (a ∷ acts) = has_run acts

pub has_run-append : (xs ys : List Act) → has_run (xs ++ ys) ≡ (has_run xs || has_run ys)
has_run-append [] ys = refl
has_run-append (opens r ∷ xs) ys = has_run-append xs ys
has_run-append (closes r ∷ xs) ys = has_run-append xs ys
has_run-append (drops ∷ xs) ys = has_run-append xs ys
has_run-append (runs ∷ xs) ys = refl

pub or_false : (b : Bool) → (b || false) ≡ b
or_false true = refl
or_false false = refl

-- What is done leads from one standing to another, and its result is one of success if a signal has
-- been waited for.
pub record Leads (s : Standing) (d : Done) (t : Standing) : Type 0 where
  pub ends : follow (some s) d.0 ≡ some t
  pub result : has_run d.0 ≡ d.1

-- What is held once the tunnel is there.
abbrev pub tunnel_held : Bool → List Resource
tunnel_held true = hook_process ∷ client_end ∷ device ∷ []
tunnel_held false = device ∷ []

abbrev pub library_held : Bool → List Resource
library_held client = icmp6_socket ∷ library ∷ tunnel_held client

abbrev pub at : List Resource → Bool → Standing
at qs dropped = record { held = qs; dropped = dropped }
