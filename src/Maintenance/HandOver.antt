-- ===== src/Maintenance/HandOver.antt =====
-- libteredo/maintain.c: how `teredo_maintenance_process` hands a packet over to the maintenance thread,
-- with any number of threads that call it, and `teredo_maintenance_stop`. A step is what one thread
-- does between two operations on the mutexes; the threads take their steps in any order. A wait on a
-- condition variable may end at any time, as POSIX allows, once the mutex is free: the signals only
-- make it end earlier.
pub mod Inv
pub mod Steps
pub mod Order
pub mod Stop
use miredo.Prelude.{
  ℕ, ◌==◌, if◌then◌else◌, ◌≡◌, ◌≢◌, Bool, true, false, Option, none, some, List, [], ◌∷◌,
}
use miredo.Udp.{TeredoPacket}

-- Where the maintenance thread is: before it locks the inner mutex, at work, in `pthread_cond_timedwait`, or cancelled.
pub data Worker : Type 0 where
  starting : Worker
  working : Worker
  sleeping : Worker
  gone : Worker

-- Who has locked the inner mutex.
pub data Owner : Type 0 where
  worker : Owner
  caller : ℕ → Owner

-- A packet in a call of `teredo_maintenance_process`: the thread that makes the call, whose stack the
-- packet is on.
pub record Handed : Type 0 where
  pub from : ℕ
  pub packet : TeredoPacket

-- The shared variables, and the packets that have been processed and those whose calls are at their
-- end, the last one in front.
pub record Shared : Type 0 where
  pub outer : Option ℕ
  pub inner : Option Owner
  pub incoming : Option Handed
  pub worker_at : Worker
  pub processed : List Handed
  pub finished : List Handed

-- Where a thread is in `teredo_maintenance_process`: outside, about to lock the outer mutex, the inner
-- one, to hand the packet over, in `pthread_cond_wait`, before the test of its loop, or about to
-- unlock the outer mutex.
pub data Call : Type 0 where
  outside : Call
  arriving : TeredoPacket → Call
  entering : TeredoPacket → Call
  placing : TeredoPacket → Call
  waiting : TeredoPacket → Call
  checking : TeredoPacket → Call
  leaving : TeredoPacket → Call

-- One step of thread `i` in `teredo_maintenance_process`.
pub data CallStep (i : ℕ) (m : Shared) : Call → Shared → Call → Type 0 where
  call : (p : TeredoPacket) → CallStep i m outside m (arriving p)
  lock_outer :
      {p : TeredoPacket}
      → m.outer ≡ none
      → CallStep i m (arriving p) (record m { outer = some i }) (entering p)
  lock_inner :
      {p : TeredoPacket}
      → m.inner ≡ none
      → CallStep i m (entering p) (record m { inner = some (caller i) }) (placing p)
  place :
      {p : TeredoPacket}
      → CallStep i m
          (placing p)
          (record m { incoming = some (record { from = i; packet = p }); inner = none })
          (waiting p)
  wake :
      {p : TeredoPacket}
      → m.inner ≡ none
      → CallStep i m (waiting p) (record m { inner = some (caller i) }) (checking p)
  wait_again :
      {p : TeredoPacket} {x : Handed}
      → m.incoming ≡ some x
      → CallStep i m (checking p) (record m { inner = none }) (waiting p)
  unlock_inner :
      {p : TeredoPacket}
      → m.incoming ≡ none
      → CallStep i m (checking p) (record m { inner = none }) (leaving p)
  unlock_outer :
      {p : TeredoPacket}
      → CallStep i m
          (leaving p)
          (record m { outer = none; finished = record { from = i; packet = p } ∷ m.finished })
          outside

-- One step of the maintenance thread: `wait_reply` and `wait_reply_ignore`, what follows when a packet
-- is there, and the cancellation by `teredo_maintenance_stop` with its cleanup.
pub data WorkerStep (m : Shared) : Shared → Type 0 where
  begin :
      m.worker_at ≡ starting
      → m.inner ≡ none
      → WorkerStep m (record m { worker_at = working; inner = some worker })
  fall_asleep :
      m.worker_at ≡ working
      → m.incoming ≡ none
      → WorkerStep m (record m { worker_at = sleeping; inner = none })
  wake_up :
      m.worker_at ≡ sleeping
      → m.inner ≡ none
      → WorkerStep m (record m { worker_at = working; inner = some worker })
  process :
      {x : Handed}
      → m.worker_at ≡ working
      → m.incoming ≡ some x
      → WorkerStep m (record m { incoming = none; processed = x ∷ m.processed })
  cancel_working :
      m.worker_at ≡ working → WorkerStep m (record m { worker_at = gone; inner = none })
  cancel_sleeping :
      m.worker_at ≡ sleeping → m.inner ≡ none → WorkerStep m (record m { worker_at = gone })

pub record System : Type 0 where
  pub shared : Shared
  pub calls : ℕ → Call

abbrev pub set_call : (ℕ → Call) → ℕ → Call → ℕ → Call
set_call f i c j = if j == i then c else f j

-- One step of the threads together.
pub data Step (s : System) : System → Type 0 where
  by_caller :
      (i : ℕ) {m : Shared} {c : Call}
      → CallStep i s.shared (s.calls i) m c
      → Step s (record { shared = m; calls = set_call s.calls i c })
  by_worker : {m : Shared} → WorkerStep s.shared m → Step s (record { shared = m; calls = s.calls })

-- The thread has been created, and nobody has called yet.
abbrev pub at_start : System
at_start = record {
  shared = record {
    outer = none;
    inner = none;
    incoming = none;
    worker_at = starting;
    processed = [];
    finished = [];
  };
  calls = λ i. outside;
}

-- The states that steps lead to.
pub data Leads (s : System) : System → Type 0 where
  stays : Leads s s
  goes_on : {t u : System} → Leads s t → Step t u → Leads s u

abbrev pub Reached : System → Type 0
Reached = Leads at_start
