-- ===== src/Privproc/Sane.antt =====
-- What the maintenance thread reports passes the sanity checks of the privileged process.
use miredo.Prelude.Word.{big, host32}
use miredo.Prelude.{◌<◌, ◌≡◌, subst, Bool, true, false, some, List, [], ◌∷◌, arith}
use miredo.Net.Addr.{is_valid_teredo_prefix, is_multicast, s6_addr}
use miredo.Packets.{Host}
use miredo.Packets.Headers.{Fits}
use miredo.Relay.{TeredoState}
use miredo.Maintenance.{Action, notifies, sends, no_reply, Delays, Maintenance, Input, start, run}
use miredo.Maintenance.Sound.{IfUp, IsUsable, AreUsable}
use miredo.Maintenance.Qualified.{start-AreUsable}
use miredo.Privproc.{is_sane}

-- The addresses of the states that are reported fit their words.
abbrev pub AreWords : List Action → Type 0
AreWords [] = Unit {0}
AreWords (notifies s ∷ xs) = Fits s.addr × AreWords xs
AreWords (sends o ∷ xs) = AreWords xs
AreWords (no_reply ∷ xs) = AreWords xs

-- The settings that the callback makes of each state that is up pass the checks.
abbrev pub AreSane : List Action → Type 0
AreSane [] = Unit {0}
AreSane (notifies s ∷ xs) =
    IfUp s.up (is_sane (record { addr = s.addr; mtu = s.mtu }) ≡ true) × AreSane xs
AreSane (sends o ∷ xs) = AreSane xs
AreSane (no_reply ∷ xs) = AreSane xs

IsUsable-is_sane :
    (s : TeredoState)
    → Fits s.addr
    → IsUsable big s
    → is_sane (record { addr = s.addr; mtu = s.mtu }) ≡ true
unfolding is_sane is_multicast s6_addr is_valid_teredo_prefix host32
IsUsable-is_sane s f u = ground (arith, f.prefix, u.prefix, u.mtu_low)

AreUsable-AreSane : (xs : List Action) → AreWords xs → AreUsable big xs → AreSane xs
AreUsable-AreSane [] w h = tt
AreUsable-AreSane (notifies s ∷ xs) w h = (if_up s.up h.0, AreUsable-AreSane xs w.1 h.1)
  where
    if_up :
        (b : Bool)
        → IfUp b (IsUsable big s)
        → IfUp b (is_sane (record { addr = s.addr; mtu = s.mtu }) ≡ true)
    if_up false h = tt
    if_up true h = IsUsable-is_sane s w.0 h
AreUsable-AreSane (sends o ∷ xs) w h = AreUsable-AreSane xs w h
AreUsable-AreSane (no_reply ∷ xs) w h = AreUsable-AreSane xs w h

-- On a big-endian host, from the start of the maintenance thread on, with at least one try: every
-- state that it reports as up, if the addresses it reports fit their words, becomes settings that
-- pass the sanity checks of the privileged process, so that the loop there does not end by them.
pub start-AreSane :
    (h : Host) (d : Delays) (is : List Input) (m : Maintenance) (out : List Action)
    → h.endian ≡ big
    → 0 < d.qualification_retries
    → run h d start is ≡ some (m, out)
    → AreWords out
    → AreSane out
start-AreSane h d is m out e r g w =
    AreUsable-AreSane out w (subst (λ b. AreUsable b out) e (start-AreUsable h d is m out r g).0)
