-- ===== src/Relay/Control.antt =====
-- The creation of a tunnel, its setters, and the state changes that the maintenance thread reports.
pub mod History
pub mod Notices
use miredo.Prelude.Word.{Endian, not16, not32, bit_at}
use miredo.Prelude.{
  ◌==◌, if◌then◌else◌, ℕ, ◌+◌, ◌%◌, ◌^◌, Bool, true, false, not, ◌||◌, Option, none, some, List, [],
  ◌∷◌,
}
use miredo.Net.Addr.{Addr, teredo_prefix, teredo_flag_cone, is_valid_teredo_prefix}
use miredo.PeerList.{list_create, list_reset}
use miredo.Relay.{Tunnel, TeredoState}

-- `MAX_PEERS`, without Judy arrays
abbrev pub max_peers : ℕ
max_peers = 1024

-- `teredo_create`, with what the socket and the list's memory and thread give.
unfoldable pub create : Bool → Bool → ℕ → ℕ → Option Tunnel
create socket ok ipv4 port =
    if socket
    then (elim (list_create ok max_peers 30) [
      | none ↦ none
      | some l ↦ some (record {
        list = l;
        state = record {
          addr = record {
            prefix = teredo_prefix;
            server_ip = 0;
            flags = 0;
            client_port = not16 port;
            client_ip = not32 ipv4;
          };
          mtu = 0;
          ipv4 = 0;
          up = false;
        };
        is_client = false;
        count = 1;
        last = 0;
      })
    ])
    else none

-- The calls of `up_cb` and `down_cb`.
pub data Notice : Type 0 where
  goes_up : Addr → ℕ → Notice
  goes_down : Notice

-- `teredo_state_change`. `none`: the lock of the peer list is never released.
unfoldable pub state_change : Tunnel → TeredoState → Option (Tunnel × List Notice)
state_change t s =
    if s.up
    then (if t.list.locked
        then none
        else some
            (record t { state = s; list = list_reset t.list max_peers }, goes_up s.addr s.mtu ∷ []))
    else some (record t { state = s }, if t.state.up then goes_down ∷ [] else [])

abbrev pub with_addr : Tunnel → Addr → Tunnel
with_addr t a = record t { state = record t.state { addr = a } }

-- `teredo_set_prefix`, `teredo_set_cone_flag` and `teredo_set_client_mode`: the tunnel, and whether
-- 0 is returned. The last is given whether the maintenance thread starts.
unfoldable pub set_prefix : Endian → Tunnel → ℕ → Tunnel × Bool
set_prefix e t prefix =
    if not (is_valid_teredo_prefix e prefix) || t.is_client
    then (t, false)
    else (with_addr t (record t.state.addr { prefix = prefix }), true)

unfoldable pub set_cone_flag : Tunnel → Bool → Tunnel × Bool
set_cone_flag t cone =
    let flags = t.state.addr.flags in
    let set = if bit_at flags 15 == 0 then flags + teredo_flag_cone else flags in
    if t.is_client
    then (t, false)
    else (with_addr t (record t.state.addr { flags = if cone then set else flags % 2 ^ 15 }), true)

unfoldable pub set_client_mode : Tunnel → Bool → Tunnel × Bool
set_client_mode t started =
    if t.is_client then (t, false) else (record t { is_client = started }, started)
