-- ===== src/Privproc.antt =====
-- src/privproc.c: the privileged process, which runs the hook script for each change of the client's
-- address, and the callbacks of src/relayd.c that tell it of them over a stream socket.
pub mod Ipc
pub mod Chain
pub mod Exchange
pub mod Sane
use miredo.Prelude.Word.{Endian, host16, host32, bytes16, bytes32, u16, u32}
use miredo.Prelude.{
  ℕ, ◌+◌, ◌^◌, ltb, if◌then◌else◌, length, replicate, Bool, true, false, ◌||◌, Option, none, some,
  List, [], ◌∷◌, ◌++◌,
}
use miredo.Net.Addr.{
  Addr, s6_addr, addr_at, is_multicast, is_unspecified, is_cone, teredo_cone, teredo_restrict,
  unspecified,
}
use miredo.Conf.Decimal.{decimal}
use miredo.Relay.Control.{Notice, goes_up, goes_down}
use miredo.Privproc.Ipc.{Passed, Sent, Received, miredo_send, miredo_recv}

-- `struct miredo_tunnel_settings`, and its bytes in memory: the byte order of the host, and how many
-- bytes of padding stand at the end.
pub record Settings : Type 0 where
  pub addr : Addr
  pub mtu : ℕ

pub record Abi : Type 0 where
  pub endian : Endian
  pub padding : ℕ

unfoldable pub settings_bytes : Abi → Settings → List ℕ
settings_bytes abi s =
    s6_addr s.addr ++ (bytes16 (host16 abi.endian s.mtu) ++ replicate abi.padding 0)

unfoldable pub settings_at : Abi → List ℕ → Settings
settings_at abi b = record { addr = addr_at b 0; mtu = host16 abi.endian (u16 b 16) }

abbrev pub settings_size : Abi → ℕ
settings_size abi = 18 + abi.padding

-- An `int` is kept as its 32 bits: -1 is 0xffffffff.
abbrev pub int_bytes : Endian → ℕ → List ℕ
int_bytes e n = bytes32 (host32 e n)

abbrev pub int_at : Endian → List ℕ → ℕ
int_at e b = host32 e (u32 b 0)

abbrev pub minus_one : ℕ
minus_one = 0xffffffff

-- `configure_tunnel`: what it sends, and what it returns, if it does.
pub record Configured : Type 0 where
  pub sent : List ℕ
  pub returned : Option ℕ

unfoldable pub receive_result : Endian → List Received → Option ℕ
receive_result e calls = elim (miredo_recv 4 calls) [
  | none ↦ none
  | some r ↦ some (if r.ok then int_at e r.bytes else minus_one)
]

unfoldable pub configure_tunnel : Abi → Addr → ℕ → List Sent → List Received → Configured
configure_tunnel abi addr mtu sends calls =
    let rest = receive_result abi.endian calls in
    if ltb 65535 mtu
    then record { sent = []; returned = some minus_one }
    else elim (miredo_send (settings_bytes abi (record { addr = addr; mtu = mtu })) sends) [
      | none ↦ record { sent = []; returned = none }
      | some r ↦ record { sent = r.bytes; returned = if r.ok then rest else some minus_one }
    ]

-- `miredo_up_callback` and `miredo_down_callback`
unfoldable pub tell : Abi → Notice → List Sent → List Received → Configured
tell abi (goes_up addr mtu) sends calls = configure_tunnel abi addr mtu sends calls
tell abi goes_down sends calls = configure_tunnel abi unspecified 1280 sends calls

pub data TunnelState : Type 0 where
  up : TunnelState
  down : TunnelState
  destroy : TunnelState

-- The variables STATE, ADDRESS, LLADDRESS and MTU, or those with OLD_ in front. IFINDEX, which does not
-- change, is left out.
pub record Variables : Type 0 where
  pub state : Option TunnelState
  pub address : Option (List ℕ)
  pub lladdress : Option (List ℕ)
  pub mtu : Option (List ℕ)

pub record Environment : Type 0 where
  pub current : Variables
  pub old : Variables
  pub iface : Option (List ℕ)

abbrev pub without_address : TunnelState → Variables
without_address s = record { state = some s; address = none; lladdress = none; mtu = none }

-- How `inet_ntop` prints an address.
abbrev pub Ntop : Type 0
Ntop = Addr → List ℕ

abbrev pub lladdress_of : Addr → Addr
lladdress_of a = if is_cone a then teredo_cone else teredo_restrict

abbrev pub up_variables : Ntop → Settings → Variables
up_variables ntop cfg = record {
  state = some up;
  address = some (ntop cfg.addr);
  lladdress = some (ntop (lladdress_of cfg.addr));
  mtu = some (decimal 5 cfg.mtu);
}

-- What both halves of the loop write for settings that have come.
unfoldable pub variables_of : Ntop → Settings → Variables
variables_of ntop cfg =
    if is_unspecified cfg.addr then without_address down else up_variables ntop cfg

-- The environment when the loop begins, with the variables that `main` inherits.
abbrev pub at_begin : Variables → Option (List ℕ) → Environment
at_begin inherited iface = record { current = inherited; old = without_address down; iface = iface }

-- What the outside does in a round of the loop: the calls of `recv`, the name of the interface, the
-- result of `run_script`, if it comes to that, and the calls of `send`.
pub record Round : Type 0 where
  pub receives : List Received
  pub iface : Option (List ℕ)
  pub script : ℕ
  pub sends : List Sent

-- Why the loop does not go on: it waits in `recv`, or in `send`, nothing more comes, the settings fail
-- the sanity checks, or the result cannot be sent.
pub data Stop : Type 0 where
  waits : Stop
  sending : Stop
  closed : Stop
  refused : Stop
  unanswered : Stop

-- The environments of the script's runs, the results that were sent, and the environment at the end.
pub record Served : Type 0 where
  pub runs : List Environment
  pub replies : List (List ℕ)
  pub env : Environment
  pub stop : Stop

abbrev pub stopped : Environment → Stop → Served
stopped env why = record { runs = []; replies = []; env = env; stop = why }

-- The sanity checks.
unfoldable pub is_sane : Settings → Bool
is_sane cfg = if is_multicast cfg.addr || ltb cfg.mtu 1280 then false else true

-- The environment when the script runs, the runs (one at most) and the result.
unfoldable pub run_hook : Ntop → Environment → Settings → Round → Environment × List Environment × ℕ
run_hook ntop env cfg r =
    let set = record env { current = variables_of ntop cfg } in
    elim r.iface [
      | none ↦ (set, [], minus_one)
      | some name ↦ let named = record set { iface = some name } in (named, named ∷ [], r.script)
    ]

abbrev pub preceded : List Environment → List ℕ → Served → Served
preceded runs reply s = record s { runs = runs ++ s.runs; replies = reply ∷ s.replies }

-- The end of a round: the result is sent, and if it could be the loop goes on.
unfoldable pub answer : Option (Passed Sent) → Environment → List Environment → Served → Served
answer none env runs rest = record { runs = runs; replies = []; env = env; stop = sending }
answer (some s) env runs rest =
    if s.ok
    then preceded runs s.bytes rest
    else record { runs = runs; replies = s.bytes ∷ []; env = env; stop = unanswered }

-- A round, given what `miredo_recv` did and how the loop goes on.
unfoldable pub do_round :
    Abi → Ntop → Environment → Round → (Environment → Served) → Option (Passed Received) → Served
do_round abi ntop env r go_on none = stopped env waits
do_round abi ntop env r go_on (some m) =
    let cfg = settings_at abi m.bytes in
    let hook = run_hook ntop env cfg r in
    if m.ok
    then (if is_sane cfg
        then answer (miredo_send (int_bytes abi.endian hook.2) r.sends) hook.0 hook.1
            (go_on (record hook.0 { old = variables_of ntop cfg }))
        else stopped env refused)
    else stopped env closed

-- The loop of `main`, a round for each element.
unfoldable pub serve : Abi → Ntop → Environment → List Round → Served
serve abi ntop env [] = stopped env waits
serve abi ntop env (r ∷ rs) =
    do_round abi ntop env r (λ env'. serve abi ntop env' rs)
      (miredo_recv (settings_size abi) r.receives)

-- The last runs, after the loop: down, then destroy.
unfoldable pub last_runs : Environment → Option (List ℕ) → List Environment
last_runs env none = []
last_runs env (some name) =
    let gone = record env { current = without_address down; iface = some name } in
    gone ∷ record gone { current = record gone.current { state = some destroy } } ∷ []

abbrev pub has_ended : Stop → Bool
has_ended waits = false
has_ended sending = false
has_ended s = true

-- The runs of the script in `main`, given the rounds and the name of the interface at the end.
unfoldable pub script_runs :
    Abi → Ntop → Environment → List Round → Option (List ℕ) → List Environment
script_runs abi ntop env rounds name =
    let s = serve abi ntop env rounds in
    s.runs ++ (if has_ended s.stop then last_runs s.env name else [])
