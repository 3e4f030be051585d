-- ===== src/Maintenance/HandOver/Stop.antt =====
-- `teredo_maintenance_stop` while a packet is pending.
use miredo.Prelude.{
  ℕ, ◌==◌, if◌then◌else◌, ◌≡◌, ◌⊎◌, inl, inr, refl, ap, subst, ◌∙◌, Bool, true, false, Bool-cases,
  some, arith,
}
use miredo.Udp.{TeredoPacket}
use miredo.Maintenance.HandOver.{
  gone, Handed, Shared, Call, waiting, checking, CallStep, call, lock_outer, lock_inner, place,
  wake, wait_again, unlock_inner, unlock_outer, WorkerStep, begin, fall_asleep, wake_up, process,
  cancel_working, cancel_sleeping, System, set_call, Step, by_caller, by_worker, Leads, stays,
  goes_on, Reached,
}
use miredo.Maintenance.HandOver.Inv.{Inv, is_inside, inside-outer}
use miredo.Maintenance.HandOver.Steps.{Step-Inv, Reached-Inv}
use miredo.Maintenance.HandOver.Order.{StillWaits, Reached-StillWaits}

-- The places in the wait of a call with this packet.
abbrev pub InWait : TeredoPacket → Call → Type 0
InWait p c = (c ≡ waiting p) ⊎ (c ≡ checking p)

-- The maintenance thread is gone, and the packet is pending.
record IsStuck (x : Handed) (s : System) : Type 0 where
  kept : Inv s.shared s.calls
  worker_gone : s.shared.worker_at ≡ gone
  pending : s.shared.incoming ≡ some x
  waits : InWait x.packet (s.calls x.from)

InWait-is_inside : (p : TeredoPacket) (c : Call) → InWait p c → is_inside c ≡ true
InWait-is_inside p c (inl e) = ap is_inside e
InWait-is_inside p c (inr e) = ap is_inside e

CallStep-worker_at :
    {i : ℕ} {m m' : Shared} {c c' : Call} → CallStep i m c m' c' → m'.worker_at ≡ m.worker_at
CallStep-worker_at (call p) = refl
CallStep-worker_at (lock_outer e) = refl
CallStep-worker_at (lock_inner e) = refl
CallStep-worker_at place = refl
CallStep-worker_at (wake e) = refl
CallStep-worker_at (wait_again e) = refl
CallStep-worker_at (unlock_inner e) = refl
CallStep-worker_at unlock_outer = refl

-- The call with the pending packet goes on waiting.
own-InWait :
    {i : ℕ} {m m' : Shared} {c c' : Call} (x : Handed)
    → CallStep i m c m' c'
    → m.incoming ≡ some x
    → InWait x.packet c
    → InWait x.packet c' × (m'.incoming ≡ some x)
own-InWait x (call p) e w = absurd (ground arith)
own-InWait x (lock_outer h) e w = absurd (ground arith)
own-InWait x (lock_inner h) e w = absurd (ground arith)
own-InWait x place e w = absurd (ground arith)
own-InWait x (wake h) e w = ground arith
own-InWait x (wait_again h) e w = ground arith
own-InWait x (unlock_inner h) e w = absurd (ground arith)
own-InWait x unlock_outer e w = absurd (ground arith)

-- The others come no further than to the outer mutex.
other-incoming :
    {i k : ℕ} {m m' : Shared} {c c' : Call}
    → CallStep i m c m' c'
    → m.outer ≡ some k
    → is_inside c ≡ false
    → m'.incoming ≡ m.incoming
other-incoming (call p) o h = refl
other-incoming (lock_outer e) o h = refl
other-incoming (lock_inner e) o h = refl
other-incoming place o h = absurd (ground arith)
other-incoming (wake e) o h = refl
other-incoming (wait_again e) o h = refl
other-incoming (unlock_inner e) o h = refl
other-incoming unlock_outer o h = refl

no_WorkerStep : {m m' : Shared} → WorkerStep m m' → m.worker_at ≡ gone → ⊥
no_WorkerStep (begin e h) g = ground arith
no_WorkerStep (fall_asleep e h) g = ground arith
no_WorkerStep (wake_up e h) g = ground arith
no_WorkerStep (process e h) g = ground arith
no_WorkerStep (cancel_working e) g = ground arith
no_WorkerStep (cancel_sleeping e h) g = ground arith

same_thread : (i j : ℕ) → (i == j) ≡ true → i ≡ j
same_thread i j e = ground arith

module _ (x : Handed) (s : System) (v : IsStuck x s) where
  holder : s.shared.outer ≡ some x.from
  holder =
      inside-outer x.from s.shared (s.calls x.from) (v.kept.fits x.from)
        (InWait-is_inside x.packet (s.calls x.from) v.waits)

  CallStep-waits :
      (i : ℕ) {m : Shared} {c : Call}
      → CallStep i s.shared (s.calls i) m c
      → InWait x.packet (set_call s.calls i c x.from) × (m.incoming ≡ some x)
  CallStep-waits i {m} {c} e = by_same (x.from == i) refl
    where
      apart : (x.from == i) ≡ false → is_inside (s.calls i) ≡ false
      apart h = elim (Bool-cases (is_inside (s.calls i))) [
        | inl k ↦
            absurd (ground (arith, holder, inside-outer i s.shared (s.calls i) (v.kept.fits i) k))
        | inr k ↦ k
      ]

      by_same :
          (b : Bool)
          → (x.from == i) ≡ b
          → let d : Call = if b then c else s.calls x.from in
            InWait x.packet d × (m.incoming ≡ some x)
      by_same true h =
          own-InWait x e v.pending
            (subst (λ k. InWait x.packet (s.calls k)) (same_thread x.from i h) v.waits)
      by_same false h = (v.waits, other-incoming e holder (apart h) ∙ v.pending)

Step-IsStuck : (x : Handed) {s t : System} → Step s t → IsStuck x s → IsStuck x t
Step-IsStuck x {s} (by_caller i e) v = record {
  kept = Step-Inv (by_caller i e) v.kept;
  worker_gone = CallStep-worker_at e ∙ v.worker_gone;
  pending = (CallStep-waits x s v i e).1;
  waits = (CallStep-waits x s v i e).0;
}
Step-IsStuck x (by_worker e) v = absurd (no_WorkerStep e v.worker_gone)

Leads-IsStuck : (x : Handed) {s t : System} → Leads s t → IsStuck x s → IsStuck x t
Leads-IsStuck x stays v = v
Leads-IsStuck x (goes_on r e) v = Step-IsStuck x e (Leads-IsStuck x r v)

-- In a state that the threads can reach, in which the maintenance thread has been cancelled and a packet
-- is pending: the call that has handed the packet over never returns, whatever steps follow.
pub Leads-InWait :
    (s t : System) (x : Handed)
    → Reached s
    → s.shared.worker_at ≡ gone
    → s.shared.incoming ≡ some x
    → Leads s t
    → InWait x.packet (t.calls x.from)
Leads-InWait s t x r g e l =
    (Leads-IsStuck x l (record {
      kept = Reached-Inv r;
      worker_gone = g;
      pending = e;
      waits = subst (λ o. StillWaits o s.calls) e (Reached-StillWaits s r).0;
    })).waits
