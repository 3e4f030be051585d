-- ===== src/Maintenance/Qualified.antt =====
-- What the client is told of its address: the states that the maintenance procedure reports.
use miredo.Prelude.Word.{Endian}
use miredo.Prelude.{
  ◌<◌, ◌≡◌, refl, subst, Bool, false, Option, none, some, List, [], ◌∷◌, ◌++◌, arith,
}
use miredo.Packets.{Host}
use miredo.Maintenance.{
  pausing, no_reply, Phase, start, run, sends, step, Input, notifies, Action, awaiting, soliciting,
  unresolved, resolving, Delays, Maintenance,
}
use miredo.Maintenance.Sound.{IsSound, Goes, Maybe, AreUsable, step_in-Goes}

AreUsable-append :
    (e : Endian) (xs ys : List Action) → AreUsable e xs → AreUsable e ys → AreUsable e (xs ++ ys)
AreUsable-append e [] ys h k = k
AreUsable-append e (notifies s ∷ xs) ys h k = (h.0, AreUsable-append e xs ys h.1 k)
AreUsable-append e (sends o ∷ xs) ys h k = AreUsable-append e xs ys h k
AreUsable-append e (no_reply ∷ xs) ys h k = AreUsable-append e xs ys h k

run-Goes :
    (h : Host) (d : Delays) (is : List Input) (m : Maintenance)
    → IsSound h.endian d m
    → Maybe h.endian d (run h d m is)
run-Goes h d [] m v = record { sound = v; reported = tt }
run-Goes h d (i ∷ is) m v =
    then_run (step h d m i) (step_in-Goes h d m v m.phase i refl) (λ m' v'. run-Goes h d is m' v')
  where
    joined :
        (out : List Action) (o : Option (Maintenance × List Action))
        → AreUsable h.endian out
        → Maybe h.endian d o
        → Maybe h.endian d (elim o [ none ↦ none | some (m'', outs) ↦ some (m'', out ++ outs) ])
    joined out none r g = tt
    joined out (some (m'', outs)) r g = record {
      sound = g.sound;
      reported = AreUsable-append h.endian out outs r g.reported;
    }

    then_run :
        (o : Option (Maintenance × List Action))
        → Maybe h.endian d o
        → ((m' : Maintenance) → IsSound h.endian d m' → Maybe h.endian d (run h d m' is))
        → Maybe h.endian d (elim o [
          | none ↦ none
          | some (m', out) ↦ elim (run h d m' is) [
            | none ↦ none
            | some (m'', outs) ↦ some (m'', out ++ outs)
          ]
        ])
    then_run none g k = tt
    then_run (some (m', out)) g k = joined out (run h d m' is) g.reported (k m' g.sound)

start-IsSound : (e : Endian) (d : Delays) → 0 < d.qualification_retries → IsSound e d start
unfolding start
start-IsSound e d r = ground arith

-- The assertion where the name is resolved: the client is not up.
abbrev pub AssertHolds : Phase → Bool → Type 0
AssertHolds resolving up = up ≡ false
AssertHolds ph up = Unit {0}

assertion :
    (e : Endian) (d : Delays) (m : Maintenance) → IsSound e d m → AssertHolds m.phase m.state.up
assertion e d m v = at m.phase (λ p. v.unnamed (v.resolves_none p))
  where
    at : (ph : Phase) → (ph ≡ resolving → m.state.up ≡ false) → AssertHolds ph m.state.up
    at resolving f = f refl
    at unresolved f = tt
    at soliciting f = tt
    at awaiting f = tt
    at pausing f = tt

-- From the start of the thread on, with at least one try and whatever happens to it: each state that it reports as up has a
-- valid Teredo prefix, a server with a global unicast address, an MTU between 1280 and 65535, and
-- flags of the random mask only; the count of missed answers stays below the number of tries; and
-- the assertion that the client is down when the server's name is resolved holds.
pub start-AreUsable :
    (h : Host) (d : Delays) (is : List Input) (m : Maintenance) (out : List Action)
    → 0 < d.qualification_retries
    → run h d start is ≡ some (m, out)
    → AreUsable h.endian out × (m.count < d.qualification_retries) × AssertHolds m.phase m.state.up
start-AreUsable h d is m out r e =
    let g : Goes h.endian d (m, out) =
      subst (Maybe h.endian d) e (run-Goes h d is start (start-IsSound h.endian d r)) in
    (g.reported, g.sound.patient, assertion h.endian d m g.sound)
