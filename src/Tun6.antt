-- ===== src/Tun6.antt =====
-- libtun6/tun6.c on Linux: the packets that pass through the tunnel device, and the MTU; and what
-- src/relayd.c does with them.
pub mod Passage
use miredo.Prelude.Word.{u16}
use miredo.Prelude.{
  ℕ, ◌-◌, ltb, ◌==◌, if◌then◌else◌, length, drop, Bool, true, false, not, ◌||◌, Option, none, some,
  List, [], ◌∷◌, ◌++◌,
}
use miredo.Peer.{Output}
use miredo.Relay.{Tunnel, Env}
use miredo.Relay.Transmit.{Sent, transmit}

-- `TUN_HEAD_IPV6_INITIALIZER`: the flags, and ETH_P_IPV6
abbrev pub tun_head : List ℕ
tun_head = 0 ∷ 0 ∷ 0x86 ∷ 0xdd ∷ []

-- `tun6_recv_inner`, on the bytes that `readv` returns, if it does not fail.
unfoldable pub tun6_recv_inner : Option (List ℕ) → Option (List ℕ)
tun6_recv_inner none = none
tun6_recv_inner (some b) =
    if ltb (length b) 4 || not (u16 b 2 == 0x86dd) then none else some (drop 4 b)

-- `tun6_send`, with what `writev` returns: what it is given, if it is called, and the result.
pub record Written : Type 0 where
  pub frame : Option (List ℕ)
  pub result : Option ℕ

unfoldable pub tun6_send : (List ℕ → Option ℕ) → List ℕ → Written
tun6_send writev packet =
    if ltb 65535 (length packet) then record { frame = none; result = none } else record {
      frame = some (tun_head ++ packet);
      result = elim (writev (tun_head ++ packet)) [
        | none ↦ none
        | some val ↦ if ltb val 4 then none else some (val - 4)
      ];
    }

-- What one round of the thread takes from the outside: the bytes read, and the surroundings of
-- `teredo_transmit`.
pub record Read : Type 0 where
  pub env : Env
  pub bytes : Option (List ℕ)

abbrev pub added : List Output → Option (Tunnel × List Output) → Option (Tunnel × List Output)
added out none = none
added out (some (t, out')) = some (t, out ++ out')

-- `miredo_encap_thread`, a round for each read: the tunnel and what went out. `none`: a call of
-- `teredo_transmit` does not return.
unfoldable pub encap_thread : Tunnel → List Read → Option (Tunnel × List Output)
encap_thread t [] = some (t, [])
encap_thread t (r ∷ rs) = elim (tun6_recv_inner r.bytes) [
  | none ↦ encap_thread t rs
  | some packet ↦
      if ltb (length packet) 40 then encap_thread t rs else elim (transmit r.env t packet) [
        | none ↦ none
        | some s ↦ added s.out (encap_thread s.tunnel rs)
      ]
]
