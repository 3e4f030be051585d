-- ===== src/Daemon/Supervisor.antt =====
-- src/miredo.c: the process that reads the configuration, starts a child with it, and starts another
-- one when it is told to, or when a signal has killed the child. A round is a list of what its system
-- calls give.
use miredo.Prelude.{ℕ, ◌==◌, if◌then◌else◌, Bool, Option, none, some, List, [], ◌∷◌}
use miredo.Conf.{MiredoConf, Malloc, clear}
use miredo.Conf.Values.{parse_syslog_facility}
use miredo.Conf.Reader.{undefined, out_of_fuel, ended, read_file}
use miredo.Daemon.Names.{syslog_facility}

-- What `sigwait` and `waitpid` give: the child is gone, a signal to exit or to reload, or another.
pub data Signal : Type 0 where
  child_gone : Signal
  exit_signal : Signal
  reload_signal : Signal
  other_signal : Signal

-- How the child has ended.
pub data Status : Type 0 where
  exited : ℕ → Status
  killed : ℕ → Status

-- A round: the allocator while the file is read, the file, whether a read of it fails, whether `fork` succeeds, the signals, and the
-- status of the child.
pub record Round : Type 0 where
  pub malloc : Malloc
  pub file : Option (List ℕ)
  pub fails : Bool
  pub forks : Bool
  pub signals : List Signal
  pub status : Status

-- The loop that waits for a signal; `none` while it waits.
unfoldable pub wait_signal : List Signal → Option ℕ
wait_signal [] = none
wait_signal (child_gone ∷ ss) = some 1
wait_signal (exit_signal ∷ ss) = some 0
wait_signal (reload_signal ∷ ss) = some 2
wait_signal (other_signal ∷ ss) = wait_signal ss

-- `retval` after the status of the child.
unfoldable pub after_status : Status → ℕ → ℕ
after_status (exited code) retval = if code == 0 then retval else 1
after_status (killed signal) retval = 2

-- How `miredo` stands: it has returned this value, negated, still waits, would read more rounds, or has done something
-- that C leaves undefined.
pub data Standing : Type 0 where
  returned : ℕ → Standing
  waiting : Standing
  restarting : Standing
  broken : Standing

-- The settings that the children have been started with, the first one in front.
pub record Supervision : Type 0 where
  pub children : List MiredoConf
  pub standing : Standing

abbrev stopped : Standing → Supervision
stopped s = record { children = []; standing = s }

-- What follows the start of a child, with the rounds to come.
unfoldable pub supervise_child : MiredoConf → Round → Supervision → Supervision
supervise_child child r rest = elim (wait_signal r.signals) [
  | none ↦ record { children = child ∷ []; standing = waiting }
  | some retval ↦
      if after_status r.status retval == 2
      then record { children = child ∷ rest.children; standing = rest.standing }
      else record { children = child ∷ []; standing = returned (after_status r.status retval) }
]

-- The settings of a child: those of the file, without the facility.
abbrev pub child_conf : MiredoConf → MiredoConf
child_conf c = (parse_syslog_facility c syslog_facility 24).conf

-- The loop of `miredo`.
unfoldable pub supervise : MiredoConf → List Round → Supervision
supervise c [] = stopped restarting
supervise c (r ∷ rs) = elim (read_file r.malloc r.fails c r.file) [
  | undefined ↦ stopped broken
  | out_of_fuel ↦ stopped broken
  | ended s ↦
      let child = child_conf s.conf in
      let rest = supervise (clear child 0).0 rs in
      if r.forks then supervise_child child r rest else stopped (returned 1)
]
