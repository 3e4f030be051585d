-- ===== src/Maintenance/Loss.antt =====
-- When a client takes itself for connected: the loss detector in the maintenance procedure.
use miredo.Prelude.{
  ltb, if◌then◌else◌, ℕ, ◌+◌, ◌≡◌, refl, subst, Bool, true, false, Option, none, some, List, [],
  ◌∷◌, ◌++◌, arith,
}
use miredo.Net.Addr.{Addr}
use miredo.Udp.{TeredoPacket}
use miredo.Packets.{Host}
use miredo.Maintenance.{
  Maintenance, Delays, Phase, resolving, unresolved, soliciting, awaiting, pausing, Input, resolves,
  reads_clock, arrives, expires, Action, step, step_in, run, resolve, solicit, recv_advert,
  next_round, succeed, time_out, receive_advert,
}

-- What an input means for the connection: an accepted answer, a missed one, or nothing.
pub data Event : Type 0 where
  answered : Event
  missed : Event
  nothing : Event

abbrev pub event_in : Phase → Host → Maintenance → Input → Event
event_in awaiting h m (arrives p stale) = elim (recv_advert h.endian m p stale).0 [
  | none ↦ nothing
  | some a ↦ answered
]
event_in awaiting h m expires = missed
event_in ph h m i = nothing

-- A detector of its own: an answer connects it, and so many misses in a row disconnect it.
pub record Detector : Type 0 where
  pub up : Bool
  pub misses : ℕ

abbrev pub detect : ℕ → Detector → Event → Detector
detect tries s answered = record { up = true; misses = 0 }
detect tries s missed =
    if ltb (s.misses + 1) tries
    then record s { misses = s.misses + 1 }
    else record { up = false; misses = 0 }
detect tries s nothing = s

-- The detector at the end of a run.
abbrev pub watch : Host → Delays → Detector → Maintenance → List Input → Detector
watch h d s m [] = s
watch h d s m (i ∷ is) = elim (step h d m i) [
  | none ↦ s
  | some (m', out) ↦ watch h d (detect d.qualification_retries s (event_in m.phase h m i)) m' is
]

abbrev pub detector : Maintenance → Detector
detector m = record { up = m.state.up; misses = m.count }

abbrev Follows : Detector → Option (Maintenance × List Action) → Type 0
Follows s none = Unit {0}
Follows s (some (m, out)) = detector m ≡ s

succeed-detector :
    (h : Host) (d : Delays) (m : Maintenance) (p : TeredoPacket) (a : Addr) (mtu : ℕ)
    → detector (succeed h d m p a mtu).0 ≡ record { up = true; misses = 0 }
unfolding succeed next_round
succeed-detector h d m p a mtu = ground arith

time_out-detector :
    (d : Delays) (m : Maintenance)
    → detector (time_out d m).0 ≡ detect d.qualification_retries (detector m) missed
unfolding time_out next_round
time_out-detector d m = ground arith

receive_advert-detector :
    (h : Host) (d : Delays) (m : Maintenance) (p : TeredoPacket) (stale : ℕ)
    → detector (receive_advert h d m p stale).0
      ≡ detect d.qualification_retries (detector m) (event_in awaiting h m (arrives p stale))
unfolding receive_advert
receive_advert-detector h d m p stale =
    by_accepted (recv_advert h.endian m p stale).0 (recv_advert h.endian m p stale).1
  where
    by_accepted :
        (o : Option Addr) (mtu : ℕ)
        → let r : Maintenance × List Action = elim o [
          | none ↦ (record m { net_mtu = mtu }, [])
          | some addr ↦ succeed h d m p addr mtu
        ] in
          detector r.0
          ≡ detect d.qualification_retries
              (detector m)
              (elim o [ none ↦ nothing | some a ↦ answered ])
    by_accepted none mtu = refl
    by_accepted (some a) mtu = succeed-detector h d m p a mtu

step_in-Follows :
    (h : Host) (d : Delays) (m : Maintenance) (ph : Phase) (i : Input)
    → Follows (detect d.qualification_retries (detector m) (event_in ph h m i)) (step_in ph h d m i)
unfolding step_in resolve solicit
step_in-Follows h d m resolving (resolves none now) = refl
step_in-Follows h d m resolving (resolves (some ip) now) = ground arith
step_in-Follows h d m unresolved (arrives p stale) = refl
step_in-Follows h d m unresolved expires = refl
step_in-Follows h d m soliciting (reads_clock now) = ground arith
step_in-Follows h d m awaiting (arrives p stale) = receive_advert-detector h d m p stale
step_in-Follows h d m awaiting expires = time_out-detector d m
step_in-Follows h d m pausing (arrives p stale) = refl
step_in-Follows h d m pausing expires = refl
step_in-Follows h d m _ _ = tt

run-Follows :
    (h : Host) (d : Delays) (is : List Input) (m : Maintenance) (s : Detector)
    → detector m ≡ s
    → Follows (watch h d s m is) (run h d m is)
run-Follows h d [] m s e = e
run-Follows h d (i ∷ is) m s e =
    then_run (step h d m i)
      (subst
        (λ t. Follows (detect d.qualification_retries t (event_in m.phase h m i)) (step h d m i)) e
        (step_in-Follows h d m m.phase i))
      (λ m' k. run-Follows h d is m' _ k)
  where
    next : Detector
    next = detect d.qualification_retries s (event_in m.phase h m i)

    joined :
        (out : List Action) (t : Detector) (o : Option (Maintenance × List Action))
        → Follows t o
        → Follows t (elim o [ none ↦ none | some (m'', outs) ↦ some (m'', out ++ outs) ])
    joined out t none g = tt
    joined out t (some (m'', outs)) g = g

    then_run :
        (o : Option (Maintenance × List Action))
        → Follows next o
        → ((m' : Maintenance) → detector m' ≡ next → Follows (watch h d next m' is) (run h d m' is))
        → Follows
            (elim o [ none ↦ s | some (m', out) ↦ watch h d next m' is ])
            (elim o [
              | none ↦ none
              | some (m', out) ↦ elim (run h d m' is) [
                | none ↦ none
                | some (m'', outs) ↦ some (m'', out ++ outs)
              ]
            ])
    then_run none g k = tt
    then_run (some (m', out)) g k = joined out (watch h d next m' is) (run h d m' is) (k m' g)

-- In every run the thread is up, and counts misses, as the detector does that is told of accepted
-- and missed answers only: the client is connected by an accepted advertisement and by nothing else,
-- and disconnected by as many misses in a row as there are tries, and by nothing else.
pub run-watch :
    (h : Host) (d : Delays) (is : List Input) (m m' : Maintenance) (out : List Action)
    → run h d m is ≡ some (m', out)
    → detector m' ≡ watch h d (detector m) m is
run-watch h d is m m' out e =
    subst (Follows (watch h d (detector m) m is)) e (run-Follows h d is m (detector m) refl)
