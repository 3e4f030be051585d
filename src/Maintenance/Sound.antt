-- ===== src/Maintenance/Sound.antt =====
-- libteredo/maintain.c: what each step of the maintenance thread keeps.
use miredo.Prelude.Word.{Endian}
use miredo.Prelude.{
  ◌==◌, Bool-cases, Option-cases, ℕ, ◌^◌, ◌≤◌, ◌<◌, ◌≡◌, refl, ap, ◌∙◌, ◌⊎◌, inl, inr, Bool, true,
  false, not, ◌||◌, Option, none, some, List, [], ◌∷◌, arith,
}
use miredo.Packets.Ra.{parse_ra}
use miredo.Packets.{Host}
use miredo.Packets.Ra.Bounds.{parse_ra-bounds}
use miredo.Net.Addr.{addr_equal, Addr, is_valid_teredo_prefix}
use miredo.Net.Ipv4.{is_ipv4_global_unicast}
use miredo.Udp.{TeredoPacket}
use miredo.Relay.{TeredoState}
use miredo.Relay.Settled.{choice}
use miredo.Maintenance.{
  expires, pausing, reads_clock, arrives, resolves, step_in, Phase, Input, receive_advert, succeed,
  notifies, next_round, Time, time_out, solicit, resolve, Action, awaiting, soliciting, unresolved,
  resolving, choose_flags, Delays, recv_advert, Maintenance, random_flags,
}

-- The flags of an address of ours: no cone flag, and only random bits of the mask 0x3cff.
abbrev pub HasRandomFlags : Addr → Type 0
HasRandomFlags a = random_flags a.flags ≡ a.flags

-- A state that is up has an address with a valid prefix, an MTU that IPv6 allows, and a server with
-- a global unicast address.
pub record IsUsable (e : Endian) (s : TeredoState) : Type 0 where
  pub prefix : is_valid_teredo_prefix e s.addr.prefix ≡ true
  pub server : is_ipv4_global_unicast s.addr.server_ip ≡ true
  pub mtu_low : 1280 ≤ s.mtu
  pub mtu_high : s.mtu < 2 ^ 16
  pub flags : HasRandomFlags s.addr

recv_advert-bounds :
    (e : Endian) (m : Maintenance) (p : TeredoPacket) (stale : ℕ) {a : Addr}
    → (recv_advert e m p stale).0 ≡ some a
    → (is_valid_teredo_prefix e a.prefix ≡ true) × (a.server_ip ≡ m.server_ip)
unfolding recv_advert
recv_advert-bounds e m p stale h = elim (Option-cases (parse_ra e stale p false)) [
  | inl n ↦ ground arith
  | inr (adv, k) ↦ ground (arith, parse_ra-bounds e stale p false k)
]

abbrev pub MtuFits : ℕ → Type 0
MtuFits n = (1280 ≤ n) × (n < 2 ^ 16)

recv_advert-MtuFits :
    (e : Endian) (m : Maintenance) (p : TeredoPacket) (stale : ℕ)
    → MtuFits m.net_mtu
    → MtuFits (recv_advert e m p stale).1
unfolding recv_advert
recv_advert-MtuFits e m p stale h = elim (Option-cases (parse_ra e stale p false)) [
  | inl n ↦ ground arith
  | inr (adv, k) ↦ ground (arith, parse_ra-bounds e stale p false k)
]

choose_flags-HasRandomFlags :
    (h : Host) (m : Maintenance) (a : Addr)
    → HasRandomFlags m.state.addr
    → HasRandomFlags (choose_flags h m a)
      × ((choose_flags h m a).prefix ≡ a.prefix)
      × ((choose_flags h m a).server_ip ≡ a.server_ip)
unfolding choose_flags
choose_flags-HasRandomFlags h m a r = ground arith

-- What holds of the thread between two inputs.
pub record IsSound (e : Endian) (d : Delays) (m : Maintenance) : Type 0 where
  pub resolved : (m.server_ip ≡ 0) ⊎ (is_ipv4_global_unicast m.server_ip ≡ true)
  pub usable : m.state.up ≡ true → IsUsable e m.state × (m.state.addr.server_ip ≡ m.server_ip)
  pub flags : HasRandomFlags m.state.addr
  pub patient : m.count < d.qualification_retries
  pub unnamed : m.server_ip ≡ 0 → m.state.up ≡ false
  pub resolves_none : m.phase ≡ resolving → m.server_ip ≡ 0
  pub pauses_none : m.phase ≡ unresolved → m.server_ip ≡ 0
  pub named : m.phase ≡ soliciting → is_ipv4_global_unicast m.server_ip ≡ true
  pub awaited : m.phase ≡ awaiting → is_ipv4_global_unicast m.server_ip ≡ true
  pub mtu : m.phase ≡ awaiting → MtuFits m.net_mtu

abbrev pub IfUp : Bool → Type 0 → Type 0
IfUp true T = T
IfUp false T = Unit {0}

IfUp_false : (b : Bool) (T : Type 0) → b ≡ false → IfUp b T
IfUp_false false T e = tt
IfUp_false true T e = ground arith

-- The states that are reported, those that are up usable.
abbrev pub AreUsable : Endian → List Action → Type 0
AreUsable e [] = Unit {0}
AreUsable e (notifies s ∷ os) = IfUp s.up (IsUsable e s) × AreUsable e os
AreUsable e (a ∷ os) = AreUsable e os

-- After a step: the thread is sound, and so is what it reported.
pub record Goes (e : Endian) (d : Delays) (r : Maintenance × List Action) : Type 0 where
  pub sound : IsSound e d r.0
  pub reported : AreUsable e r.1

abbrev pub Maybe : Endian → Delays → Option (Maintenance × List Action) → Type 0
Maybe e d none = Unit {0}
Maybe e d (some r) = Goes e d r

none_global : {ip : ℕ} → ip ≡ 0 → is_ipv4_global_unicast ip ≡ true → ⊥
unfolding is_ipv4_global_unicast
none_global e g = ground arith

module _ (h : Host) (d : Delays) (m : Maintenance) (v : IsSound h.endian d m) where
  resolve-Goes :
      (r : Option ℕ) (now : Time) → m.phase ≡ resolving → Goes h.endian d (resolve d m r now)
  unfolding resolve
  resolve-Goes none now p = record { sound = ground arith; reported = tt }
  resolve-Goes (some ip) now p =
      let unnamed : m.state.up ≡ false = v.unnamed (v.resolves_none p) in
      elim (Bool-cases (is_ipv4_global_unicast ip)) [
        | inl g ↦
            rw g (record { sound = ground arith; reported = (IfUp_false m.state.up _ unnamed, tt) })
        | inr g ↦ rw g (record { sound = ground arith; reported = tt })
      ]

  solicit-Goes : (now : Time) → m.phase ≡ soliciting → Goes h.endian d (solicit h d m now)
  unfolding solicit
  solicit-Goes now p = record { sound = ground arith; reported = ground arith }

  time_out-AreUsable : AreUsable h.endian (time_out d m).1
  unfolding time_out
  time_out-AreUsable = ground arith

  time_out-Goes : m.phase ≡ awaiting → Goes h.endian d (time_out d m)
  unfolding time_out next_round
  time_out-Goes p = record { sound = ground arith; reported = time_out-AreUsable }

  next_round-IsSound :
      (m' : Maintenance) (delay : ℕ)
      → IsSound h.endian d m'
      → is_ipv4_global_unicast m'.server_ip ≡ true
      → IsSound h.endian d (next_round d m' delay)
  unfolding next_round
  next_round-IsSound m' delay v' g = ground arith

  accepted_state :
      (p : TeredoPacket) (a : Addr) (mtu : ℕ)
      → is_valid_teredo_prefix h.endian a.prefix ≡ true
      → a.server_ip ≡ m.server_ip
      → MtuFits mtu
      → m.phase ≡ awaiting
      → IsUsable h.endian
          (record { addr = choose_flags h m a; mtu = mtu; ipv4 = p.dest_ipv4; up = true })
  accepted_state p a mtu valid same f w =
      let c = choose_flags-HasRandomFlags h m a v.flags in
      record {
        prefix = ap (is_valid_teredo_prefix h.endian) c.1 ∙ valid;
        server = ap is_ipv4_global_unicast (c.2 ∙ same) ∙ v.awaited w;
        mtu_low = f.0;
        mtu_high = f.1;
        flags = c.0;
      }

  -- The thread with a new state, and with the old one, before the pause.
  new :
      (p : TeredoPacket) (a : Addr) (mtu : ℕ)
      → IsUsable h.endian
          (record { addr = choose_flags h m a; mtu = mtu; ipv4 = p.dest_ipv4; up = true })
      → a.server_ip ≡ m.server_ip
      → m.phase ≡ awaiting
      → IsSound h.endian d (record m {
        count = 0;
        blackhole = false;
        net_mtu = mtu;
        state = record { addr = choose_flags h m a; mtu = mtu; ipv4 = p.dest_ipv4; up = true };
      })
  new p a mtu u same w = record {
    resolved = v.resolved;
    usable = λ t. (u, (choose_flags-HasRandomFlags h m a v.flags).2 ∙ same);
    flags = u.flags;
    patient = omega (arith, v.patient);
    unnamed = λ z. absurd (none_global z (v.awaited w));
    resolves_none = λ q. ground arith;
    pauses_none = λ q. ground arith;
    named = λ q. ground arith;
    awaited = v.awaited;
    mtu = λ q. (u.mtu_low, u.mtu_high);
  }

  old :
      (mtu : ℕ)
      → MtuFits mtu
      → m.phase ≡ awaiting
      → IsSound h.endian d (record m { count = 0; blackhole = false; net_mtu = mtu })
  old mtu f w = record {
    resolved = v.resolved;
    usable = v.usable;
    flags = v.flags;
    patient = omega (arith, v.patient);
    unnamed = v.unnamed;
    resolves_none = v.resolves_none;
    pauses_none = v.pauses_none;
    named = v.named;
    awaited = v.awaited;
    mtu = λ q. f;
  }

  succeed-Goes :
      (p : TeredoPacket) (a : Addr) (mtu : ℕ)
      → is_valid_teredo_prefix h.endian a.prefix ≡ true
      → a.server_ip ≡ m.server_ip
      → MtuFits mtu
      → m.phase ≡ awaiting
      → Goes h.endian d (succeed h d m p a mtu)
  unfolding succeed
  succeed-Goes p a mtu valid same f w =
      let usable = accepted_state p a mtu valid same f w in
      choice (Goes h.endian d)
        (not m.state.up
          || (not (addr_equal m.state.addr (choose_flags h m a)) || not (m.state.mtu == mtu)))
        _ _
        (record {
          sound = next_round-IsSound _ d.refresh_delay (new p a mtu usable same w) (v.awaited w);
          reported = (usable, tt);
        })
        (record {
          sound = next_round-IsSound _ d.refresh_delay (old mtu f w) (v.awaited w);
          reported = tt;
        })

  receive_advert-Goes :
      (p : TeredoPacket) (stale : ℕ)
      → m.phase ≡ awaiting
      → Goes h.endian d (receive_advert h d m p stale)
  unfolding receive_advert
  receive_advert-Goes p stale w =
      by_accepted (recv_advert h.endian m p stale).0
        (λ a e. recv_advert-bounds h.endian m p stale e)
        (recv_advert-MtuFits h.endian m p stale (v.mtu w))
    where
      by_accepted :
          (o : Option Addr)
          → ((a : Addr)
              → o ≡ some a
              → (is_valid_teredo_prefix h.endian a.prefix ≡ true) × (a.server_ip ≡ m.server_ip))
          → MtuFits (recv_advert h.endian m p stale).1
          → Goes h.endian d (elim o [
            | none ↦ (record m { net_mtu = (recv_advert h.endian m p stale).1 }, [])
            | some addr ↦ succeed h d m p addr (recv_advert h.endian m p stale).1
          ])
      by_accepted none b f = record { sound = ground arith; reported = tt }
      by_accepted (some a) b f = succeed-Goes p a _ (b a refl).0 (b a refl).1 f w

  -- What a step may be: one that does not come, or one that goes well.
  pub step_in-Goes : (ph : Phase) (i : Input) → m.phase ≡ ph → Maybe h.endian d (step_in ph h d m i)
  unfolding step_in
  step_in-Goes resolving (resolves r now) p = resolve-Goes r now p
  step_in-Goes unresolved (arrives q stale) p = record { sound = v; reported = tt }
  step_in-Goes unresolved expires p = record { sound = ground arith; reported = tt }
  step_in-Goes soliciting (reads_clock now) p = solicit-Goes now p
  step_in-Goes awaiting (arrives q stale) p = receive_advert-Goes q stale p
  step_in-Goes awaiting expires p = time_out-Goes p
  step_in-Goes pausing (arrives q stale) p = record { sound = v; reported = tt }
  step_in-Goes pausing expires p = record { sound = ground arith; reported = tt }
  step_in-Goes _ _ p = tt
