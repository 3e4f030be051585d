-- ===== src/Maintenance/HandOver/Order.antt =====
-- What the hand-over keeps: one packet at a time, in order, and only while its caller waits.
use miredo.Prelude.{ℕ, ◌≡◌, ◌⊎◌, inl, inr, refl, sym, subst, true, Option, none, some, ◌∷◌, arith}
use miredo.Udp.{TeredoPacket}
use miredo.Maintenance.HandOver.{
  Handed, Shared, Call, outside, arriving, entering, placing, waiting, checking, leaving, System,
  Reached,
}
use miredo.Maintenance.HandOver.Inv.{Posted, Quiet, Fits, is_inside, IsHeldBy, Inv}
use miredo.Maintenance.HandOver.Steps.{Reached-Inv}

-- A packet that is pending is one whose call has not returned.
abbrev pub StillWaits : Option Handed → (ℕ → Call) → Type 0
StillWaits none calls = Unit {0}
StillWaits (some x) calls = (calls x.from ≡ waiting x.packet) ⊎ (calls x.from ≡ checking x.packet)

-- What has been processed is what has been finished, or one packet more.
abbrev pub InOrder : Shared → Type 0
InOrder m = (m.processed ≡ m.finished) ⊎ ((x : Handed) × (m.processed ≡ x ∷ m.finished))

abbrev Delivered : Shared → (ℕ → Call) → Type 0
Delivered m calls = StillWaits m.incoming calls × InOrder m

Quiet-Delivered : (m : Shared) (calls : ℕ → Call) → Quiet m → Delivered m calls
Quiet-Delivered m calls q = (subst (λ o. StillWaits o calls) (sym q.0) tt, inl q.1)

Posted-Delivered :
    (m : Shared) (calls : ℕ → Call) (i : ℕ) (p : TeredoPacket)
    → (calls i ≡ waiting p) ⊎ (calls i ≡ checking p)
    → Posted m (record { from = i; packet = p })
    → Delivered m calls
Posted-Delivered m calls i p c (inl h) = (subst (λ o. StillWaits o calls) (sym h.0) c, inl h.1)
Posted-Delivered m calls i p c (inr h) =
    (subst (λ o. StillWaits o calls) (sym h.0) tt, inr (_, h.1))

holder-Delivered :
    (m : Shared) (calls : ℕ → Call) (i : ℕ) (c : Call)
    → calls i ≡ c
    → Fits i m c
    → is_inside c ≡ true
    → Delivered m calls
holder-Delivered m calls i outside e f h = absurd (ground arith)
holder-Delivered m calls i (arriving p) e f h = absurd (ground arith)
holder-Delivered m calls i (entering p) e f h = Quiet-Delivered m calls f.1
holder-Delivered m calls i (placing p) e f h = Quiet-Delivered m calls f.2
holder-Delivered m calls i (waiting p) e f h = Posted-Delivered m calls i p (inl e) f.1
holder-Delivered m calls i (checking p) e f h = Posted-Delivered m calls i p (inr e) f.2
holder-Delivered m calls i (leaving p) e f h =
    (subst (λ o. StillWaits o calls) (sym f.1) tt, inr (_, f.2))

-- With any number of threads that call `teredo_maintenance_process`, in any order of their steps: a
-- packet that the maintenance thread can see is one whose call still waits, so that the pointer to
-- it is good; and the packets are processed once each, in the order in which the calls end, each
-- before its call does.
pub Reached-StillWaits :
    (s : System) → Reached s → StillWaits s.shared.incoming s.calls × InOrder s.shared
Reached-StillWaits s r = by_outer s.shared.outer v.held
  where
    v : Inv s.shared s.calls
    v = Reached-Inv r

    by_outer : (k : Option ℕ) → IsHeldBy k s.shared s.calls → Delivered s.shared s.calls
    by_outer none h = Quiet-Delivered s.shared s.calls h
    by_outer (some i) h = holder-Delivered s.shared s.calls i (s.calls i) refl (v.fits i) h
