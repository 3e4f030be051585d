-- ===== src/Daemon/Service.antt =====
-- src/serverd.c: `server_run` after its configuration, with `teredo_server_start` and
-- `teredo_server_stop` of libteredo/server.c.
use miredo.Prelude.Word.{Endian}
use miredo.Prelude.{
  subst, ℕ, ◌+◌, ◌-◌, ◌≡◌, refl, sym, ap, ◌∙◌, if◌then◌else◌, Bool, true, false, not, ◌&&◌, Option,
  none, some, List, [], ◌∷◌, arith,
}
use miredo.Server.{TeredoServer, server_create, set_prefix, set_mtu}
use miredo.Server.Lifetime.{Process, Calls, initial, join, open_udp, create_server, destroy_server}
use miredo.Relay.Settled.{choice}
use miredo.Daemon.{ServerConf, configured_server}

-- Whether `drop_privileges` and `pthread_create`, for either thread, succeed.
pub record Chances : Type 0 where
  pub drops : Bool
  pub first : Bool
  pub second : Bool

-- `teredo_server_start`: how many threads run then, and whether 0 is returned.
unfoldable pub server_start : Chances → ℕ × Bool
server_start o =
    if o.first then (if o.second then (1 + 1, true) else (1 - 1, false)) else (0, false)

-- The process at the end, with its threads; the server that has served until a signal came, if one
-- has; and whether 0 is returned.
pub record Ran : Type 0 where
  pub process : Process
  pub threads : ℕ
  pub served : Option TeredoServer
  pub ok : Bool

abbrev pub destroyed : Process → Process
destroyed c = elim (destroy_server c 0) [ none ↦ c | some c' ↦ c' ]

-- `server_run` with the server that it has created.
unfoldable pub run_created : Endian → ServerConf → Chances → Process → TeredoServer → Ran
run_created e k o c s =
    let prefixed = set_prefix e s k.prefix in
    let linked = set_mtu prefixed.0 k.mtu in
    let started = server_start o in
    if prefixed.1 && (linked.1 && started.1)
    then record {
      process = destroyed c;
      threads = started.0 - 1 - 1;
      served = some linked.0;
      ok = true;
    }
    else record {
      process = destroyed c;
      threads = if prefixed.1 && linked.1 then started.0 else 0;
      served = none;
      ok = false;
    }

unfoldable pub run_first : Endian → ServerConf → Chances → Process → List TeredoServer → Ran
run_first e k o c [] = record { process = c; threads = 0; served = none; ok = false }
run_first e k o c (s ∷ ss) = run_created e k o c s

unfoldable pub run_server : Endian → ServerConf → Calls → Chances → Ran
run_server e k calls o =
    let c = create_server initial calls k.server_ip k.server_ip2 in
    if not o.drops
    then record { process = c; threads = 0; served = none; ok = false }
    else run_first e k o c c.servers

-- What `teredo_server_create` leaves in a process without servers: nothing, or one server.
data Made (ip1 ip2 : ℕ) : Process → Type 0 where
  nothing : {c : Process} → c.servers ≡ [] → c.udp_open ≡ 0 → Made ip1 ip2 c
  one :
      {c : Process} {s : TeredoServer}
      → server_create ip1 ip2 ≡ some s
      → c.servers ≡ s ∷ []
      → c.udp_open ≡ 2
      → Made ip1 ip2 c

create_server-Made :
    (calls : Calls) (ip1 ip2 : ℕ) → Made ip1 ip2 (create_server initial calls ip1 ip2)
unfolding create_server join open_udp
create_server-Made calls ip1 ip2 =
    by_calls calls.raw calls.memory calls.primary calls.secondary (server_create ip1 ip2) refl
  where
    by_calls :
        (raw : Option ℕ) (m : Bool) (p q : Option ℕ) (o : Option TeredoServer)
        → server_create ip1 ip2 ≡ o
        → let k : Calls = record { raw = raw; memory = m; primary = p; secondary = q } in
          Made ip1 ip2 (elim raw [
            | none ↦ join initial k
            | some fd ↦ elim o [
              | none ↦ join initial k
              | some s ↦ if m then open_udp (join initial k) k s else join initial k
            ]
          ])
    by_calls none m p q o e = nothing refl refl
    by_calls (some fd) m p q none e = nothing refl refl
    by_calls (some fd) false p q (some s) e = nothing refl refl
    by_calls (some fd) true none q (some s) e = nothing refl refl
    by_calls (some fd) true (some a) none (some s) e = nothing refl (omega arith)
    by_calls (some fd) true (some a) (some b) (some s) e = one e refl (omega arith)

-- The server that has served, if one has, is the one that the settings describe.
abbrev pub AsConfigured : Endian → ServerConf → Option TeredoServer → Bool → Type 0
AsConfigured e k none ok = ok ≡ false
AsConfigured e k (some s) ok = (configured_server e k ≡ some s) × (ok ≡ true)

-- No thread, no server and no UDP socket is left.
abbrev pub IsOver : Ran → Type 0
IsOver r = (r.threads ≡ 0) × (r.process.servers ≡ []) × (r.process.udp_open ≡ 0)

destroyed_one :
    (c : Process) (s : TeredoServer)
    → c.servers ≡ s ∷ []
    → c.udp_open ≡ 2
    → ((destroyed c).servers ≡ []) × ((destroyed c).udp_open ≡ 0)
unfolding destroy_server
destroyed_one c s h u = ground arith

run_created-AsConfigured :
    (e : Endian) (k : ServerConf) (o : Chances) (c : Process) (s : TeredoServer)
    → server_create k.server_ip k.server_ip2 ≡ some s
    → AsConfigured e k (run_created e k o c s).served (run_created e k o c s).ok
unfolding run_created configured_server
run_created-AsConfigured e k o c s h = ground arith

run_created-threads :
    (e : Endian) (k : ServerConf) (o : Chances) (c : Process) (s : TeredoServer)
    → (run_created e k o c s).threads ≡ 0
unfolding run_created server_start
run_created-threads e k o c s = ground arith

run_created-process :
    (e : Endian) (k : ServerConf) (o : Chances) (c : Process) (s : TeredoServer)
    → (run_created e k o c s).process ≡ destroyed c
unfolding run_created
run_created-process e k o c s = choice (λ (r : Ran). r.process ≡ destroyed c) _ _ _ refl refl

-- What is left, of a run that serves what the settings describe or nothing.
abbrev IsRight : Endian → ServerConf → Ran → Type 0
IsRight e k r = AsConfigured e k r.served r.ok × IsOver r

run_first-IsRight :
    (e : Endian) (k : ServerConf) (o : Chances) (c : Process)
    → Made k.server_ip k.server_ip2 c
    → IsRight e k (run_first e k o c c.servers)
unfolding run_first
run_first-IsRight e k o c (nothing h u) =
    subst (λ ss. IsRight e k (run_first e k o c ss)) (sym h) (refl, (refl, h, u))
run_first-IsRight e k o c (one {s = s} made h u) =
    let left = destroyed_one c s h u in
    let same = ap (λ (p : Process). p.servers) (run_created-process e k o c s) in
    let same' = ap (λ (p : Process). p.udp_open) (run_created-process e k o c s) in
    subst (λ ss. IsRight e k (run_first e k o c ss)) (sym h)
      (
        run_created-AsConfigured e k o c s made,
        (run_created-threads e k o c s, same ∙ left.0, same' ∙ left.1),
      )

-- Of `server_run` with valid settings, once the privileges have been dropped, whichever calls fail: a
-- server that serves is the one that the settings describe, with its prefix and MTU, and 0 is returned
-- only after one has served; when it returns, no thread, no server and no UDP socket is left.
run_server-IsOver :
    (e : Endian) (k : ServerConf) (calls : Calls) (o : Chances)
    → o.drops ≡ true
    → AsConfigured e k (run_server e k calls o).served (run_server e k calls o).ok
      × IsOver (run_server e k calls o)
unfolding run_server run_first run_created server_start
run_server-IsOver e k calls o d =
    rw d (run_first-IsRight e k o _ (create_server-Made calls k.server_ip k.server_ip2))
