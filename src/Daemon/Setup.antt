-- ===== src/Daemon/Setup.antt =====
-- src/relayd.c: what `relay_run` opens, starts, stops and closes after its configuration, down to
-- `teredo_create` and `teredo_destroy` of libteredo/relay.c, and `drop_privileges` of src/miredo.c.
pub mod Rules
pub mod Library
pub mod Balance
use miredo.Prelude.{◌==◌, if◌then◌else◌, ℕ, Bool, true, false, not, ◌&&◌, ◌||◌, List, [], ◌∷◌, ◌++◌}

-- The tunnel device; the two ends of the socket to the privileged process, and that process; the
-- library (`teredo_startup`); the ICMPv6 socket; the memory, the socket and the peer list of the
-- relay; the maintenance thread, the thread that receives and the one that encapsulates.
pub data Resource : Type 0 where
  device : Resource
  hook_end : Resource
  client_end : Resource
  hook_process : Resource
  library : Resource
  icmp6_socket : Resource
  memory : Resource
  udp_socket : Resource
  peer_list : Resource
  maintainer : Resource
  receiver : Resource
  encapsulator : Resource

-- To open and to close; for a process or a thread, to start it and to wait for its end. `drops` is
-- the end of the privileges, `runs` the wait for a signal.
pub data Act : Type 0 where
  opens : Resource → Act
  closes : Resource → Act
  drops : Act
  runs : Act

-- `tun6_create`: a device, none because of ENOSYS, or none for another reason.
pub data Creation : Type 0 where
  created : Creation
  unsupported : Creation
  failed : Creation

-- Whether the interface has a name, and which of the calls succeed, in the order of the calls.
pub record Outside : Type 0 where
  pub named : Bool
  pub first : Creation
  pub second : Bool
  pub sets_mtu : Bool
  pub brings_up : Bool
  pub adds_address : Bool
  pub adds_route : Bool
  pub pairs : Bool
  pub forks : Bool
  pub starts_up : Bool
  pub has_icmp6 : Bool
  pub has_chrootdir : Bool
  pub chroots : Bool
  pub changes_dir : Bool
  pub sets_uid : Bool
  pub allocates : Bool
  pub has_socket : Bool
  pub has_list : Bool
  pub maintains : Bool
  pub receives : Bool
  pub encapsulates : Bool

-- What is done, and whether the result is one of success.
abbrev pub Done : Type 0
Done = List Act × Bool

abbrev pub is_created : Creation → Bool
is_created created = true
is_created c = false

abbrev pub is_unsupported : Creation → Bool
is_unsupported unsupported = true
is_unsupported c = false

-- `create_dynamic_tunnel`, the parent's side of the fork.
unfoldable pub create_dynamic_tunnel : Outside → Done
create_dynamic_tunnel o =
    if not (is_created o.first)
    then ([], false)
    else if not o.pairs
    then (opens device ∷ closes device ∷ [], false)
    else if not o.forks
    then (
      opens device
          ∷ opens hook_end
          ∷ opens client_end
          ∷ closes hook_end
          ∷ closes client_end
          ∷ closes device
          ∷ [],
      false,
    )
    else (
      opens device ∷ opens hook_end ∷ opens client_end ∷ opens hook_process ∷ closes hook_end ∷ [],
      true,
    )

-- `create_static_tunnel`
unfoldable pub create_static_tunnel : Outside → Done
create_static_tunnel o =
    if not (is_created o.first || (o.named && (is_unsupported o.first && o.second)))
    then ([], false)
    else if not o.sets_mtu || (not o.brings_up || (not o.adds_address || not o.adds_route))
    then (opens device ∷ closes device ∷ [], false)
    else (opens device ∷ [], true)

-- `destroy_dynamic_tunnel` and `destroy_static_tunnel`
unfoldable pub destroy_tunnel : Bool → List Act
destroy_tunnel true = closes client_end ∷ closes hook_process ∷ closes device ∷ []
destroy_tunnel false = closes device ∷ []

-- `drop_privileges`
unfoldable pub drop_privileges : Outside → Bool
drop_privileges o =
    if o.has_chrootdir && (not o.chroots || not o.changes_dir) then false else o.sets_uid

-- `teredo_create`
unfoldable pub create_relay : Outside → Done
create_relay o =
    if not o.allocates
    then ([], false)
    else if not o.has_socket
    then (opens memory ∷ closes memory ∷ [], false)
    else if not o.has_list
    then (opens memory ∷ opens udp_socket ∷ closes udp_socket ∷ closes memory ∷ [], false)
    else (opens memory ∷ opens udp_socket ∷ opens peer_list ∷ [], true)

-- `teredo_destroy`, by whether there is a maintenance thread and whether `recv.running` is set.
unfoldable pub destroy_relay : Bool → Bool → List Act
destroy_relay maintained running =
    (if maintained then closes maintainer ∷ [] else [])
    ++ ((if running then closes receiver ∷ [] else [])
        ++ (closes peer_list ∷ closes udp_socket ∷ closes memory ∷ []))

-- `setup_client` and `setup_relay`; the latter succeeds on a tunnel that has just been created.
unfoldable pub set_mode : Bool → Outside → Done
set_mode true o = if o.maintains then (opens maintainer ∷ [], true) else ([], false)
set_mode false o = ([], true)

-- `run_tunnel`, with `teredo_run_async`, and whether `recv.running` is set then.
unfoldable pub run_tunnel : Outside → Done × Bool
run_tunnel o =
    if not o.receives
    then (([], false), false)
    else if not o.encapsulates
    then ((opens receiver ∷ [], false), true)
    else ((opens receiver ∷ opens encapsulator ∷ runs ∷ closes encapsulator ∷ [], true), true)

-- `relay_run` with a relay, with the privileges dropped, with the library, and all of it after the
-- configuration. The flag tells a client.
unfoldable pub use_relay : Bool → Outside → Done
use_relay client o =
    let mode = set_mode client o in
    let run = run_tunnel o in
    if mode.1
    then (mode.0 ++ (run.0.0 ++ destroy_relay client run.1), run.0.1)
    else (mode.0 ++ destroy_relay false false, false)

unfoldable pub use_privileges : Bool → Outside → Done
use_privileges client o =
    let relay = create_relay o in
    let rest = use_relay client o in
    if not (drop_privileges o)
    then ([], false)
    else if not relay.1
    then (drops ∷ relay.0, false)
    else (drops ∷ (relay.0 ++ rest.0), rest.1)

unfoldable pub use_library : Bool → Outside → Done
use_library client o =
    let rest = use_privileges client o in
    if not o.starts_up
    then ([], false)
    else if not o.has_icmp6
    then (opens library ∷ [], false)
    else (
      opens library ∷ opens icmp6_socket ∷ (rest.0 ++ (closes icmp6_socket ∷ closes library ∷ [])),
      rest.1,
    )

unfoldable pub relay_setup : Bool → Outside → Done
relay_setup client o =
    let tunnel = if client then create_dynamic_tunnel o else create_static_tunnel o in
    let rest = use_library client o in
    if tunnel.1 then (tunnel.0 ++ (rest.0 ++ destroy_tunnel client), rest.1) else (tunnel.0, false)
