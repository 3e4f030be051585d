-- ===== src/Maintenance/HandOver/Steps.antt =====
-- The steps of the callers keep what the places of the threads say, so it holds in every reachable state.
use miredo.Prelude.{
  ℕ, ◌==◌, if◌then◌else◌, ◌≡◌, ◌⊎◌, inl, inr, refl, sym, subst, ◌∙◌, Bool, true, false, Option,
  none, some, ◌∷◌, arith,
}
use miredo.Maintenance.HandOver.{
  Worker, starting, working, sleeping, gone, worker, caller, Shared, Call, outside, arriving,
  entering, placing, waiting, checking, leaving, CallStep, call, lock_outer, lock_inner, place,
  wake, wait_again, unlock_inner, unlock_outer, System, set_call, Step, by_caller, by_worker, stays,
  goes_on, Reached,
}
use miredo.Maintenance.HandOver.Inv.{
  Fits, is_inside, IsHeldBy, WorkerFits, Inv, set_call_same, set_call_other, inside-outer,
  Fits-outside, WorkerStep-Inv,
}

eq_of_same : {j i : ℕ} → (j == i) ≡ true → i ≡ j
eq_of_same e = ground arith

-- The threads after one of them has gone on: its own place, and those of the others.
step-Fits :
    (f : ℕ → Call) (i : ℕ) (c : Call) (m : Shared)
    → Fits i m c
    → ((j : ℕ) → (j == i) ≡ false → Fits j m (f j))
    → (j : ℕ) → Fits j m (set_call f i c j)
step-Fits f i c m own others j = by_same (j == i) refl
  where
    by_same : (b : Bool) → (j == i) ≡ b → let d : Call = if b then c else f j in Fits j m d
    by_same true e = subst (λ k. Fits k m c) (eq_of_same e) own
    by_same false e = others j e

-- While one thread is inside, or none, the others have nothing to say.
others_outside :
    (m m' : Shared) (calls : ℕ → Call) (i : ℕ)
    → Inv m calls
    → (m.outer ≡ none) ⊎ (m.outer ≡ some i)
    → (j : ℕ) → (j == i) ≡ false
    → Fits j m' (calls j)
others_outside m m' calls i v h j e = by_inside (is_inside (calls j)) refl
  where
    by_inside : (b : Bool) → is_inside (calls j) ≡ b → Fits j m' (calls j)
    by_inside true k = absurd (ground (arith, inside-outer j m (calls j) (v.fits j) k))
    by_inside false k = Fits-outside j m m' (calls j) k

-- The maintenance thread is not at work while another holds the inner mutex, or nobody does.
idle-WorkerFits :
    (w : Worker) (m m' : Shared) → (m.inner ≡ some worker → ⊥) → WorkerFits w m → WorkerFits w m'
idle-WorkerFits starting m m' h f = tt
idle-WorkerFits working m m' h f = absurd (h f)
idle-WorkerFits sleeping m m' h f = tt
idle-WorkerFits gone m m' h f = tt

kept-WorkerFits :
    (w : Worker) (m m' : Shared) → m'.inner ≡ m.inner → WorkerFits w m → WorkerFits w m'
kept-WorkerFits starting m m' h f = tt
kept-WorkerFits working m m' h f = h ∙ f
kept-WorkerFits sleeping m m' h f = tt
kept-WorkerFits gone m m' h f = tt

-- The invariant after a step of a thread that stays inside, or comes inside, with the outer mutex.
inside-Inv :
    (m m' : Shared) (calls : ℕ → Call) (i : ℕ) (c : Call)
    → Inv m calls
    → (m.outer ≡ none) ⊎ (m.outer ≡ some i)
    → m'.outer ≡ some i
    → is_inside c ≡ true
    → Fits i m' c
    → WorkerFits m'.worker_at m'
    → Inv m' (set_call calls i c)
inside-Inv m m' calls i c v h o inside own w = record {
  fits = step-Fits calls i c m' own (others_outside m m' calls i v h);
  held =
      subst (λ k. IsHeldBy k m' (set_call calls i c)) (sym o)
        (subst (λ d. is_inside d ≡ true) (sym (set_call_same calls i c)) inside);
  worker_fits = w;
}

CallStep-Inv :
    {i : ℕ} {m m' : Shared} {c c' : Call} (calls : ℕ → Call)
    → CallStep i m c m' c'
    → Inv m calls
    → Fits i m c
    → is_inside (calls i) ≡ is_inside c
    → Inv m' (set_call calls i c')
CallStep-Inv {i} {m} calls (call p) v f same = record {
  fits = step-Fits calls i (arriving p) m tt (λ j e. v.fits j);
  held = still_held m.outer v.held;
  worker_fits = v.worker_fits;
}
  where
    still_held : (k : Option ℕ) → IsHeldBy k m calls → IsHeldBy k m (set_call calls i (arriving p))
    still_held none h = h
    still_held (some k) h =
        subst (λ d. is_inside d ≡ true) (sym (set_call_other calls i (arriving p) k (other k h))) h
      where
        other : (k : ℕ) → is_inside (calls k) ≡ true → (k == i) ≡ false
        other k h = ground arith
CallStep-Inv {i} {m} calls (lock_outer {p} e) v f same =
    inside-Inv m (record m { outer = some i }) calls i (entering p) v (inl e) refl refl
      (refl, subst (λ k. IsHeldBy k m calls) e v.held)
      (kept-WorkerFits m.worker_at m _ refl v.worker_fits)
CallStep-Inv {i} {m} calls (lock_inner {p} e) v f same =
    inside-Inv m (record m { inner = some (caller i) }) calls i (placing p) v (inr f.0) f.0 refl
      (f.0, refl, f.1) (idle-WorkerFits m.worker_at m _ (λ h. ground arith) v.worker_fits)
CallStep-Inv {i} {m} calls (place {p}) v f same =
    inside-Inv m _ calls i (waiting p) v (inr f.0) f.0 refl (f.0, inl (refl, f.2.1))
      (idle-WorkerFits m.worker_at m _ (λ h. ground arith) v.worker_fits)
CallStep-Inv {i} {m} calls (wake {p} e) v f same =
    inside-Inv m (record m { inner = some (caller i) }) calls i (checking p) v (inr f.0) f.0 refl
      (f.0, refl, f.1) (idle-WorkerFits m.worker_at m _ (λ h. ground arith) v.worker_fits)
CallStep-Inv {i} {m} calls (wait_again {p} e) v f same =
    inside-Inv m (record m { inner = none }) calls i (waiting p) v (inr f.0) f.0 refl (f.0, f.2)
      (idle-WorkerFits m.worker_at m _ (λ h. ground arith) v.worker_fits)
CallStep-Inv {i} {m} calls (unlock_inner {p} e) v f same =
    inside-Inv m (record m { inner = none }) calls i (leaving p) v (inr f.0) f.0 refl
      (f.0, e, ground arith) (idle-WorkerFits m.worker_at m _ (λ h. ground arith) v.worker_fits)
CallStep-Inv {i} {m} calls (unlock_outer {p}) v f same = record {
  fits = step-Fits calls i outside m' tt (others_outside m m' calls i v (inr f.0));
  held = (f.1, f.2);
  worker_fits = kept-WorkerFits m.worker_at m m' refl v.worker_fits;
}
  where
    m' : Shared
    m' = record m { outer = none; finished = record { from = i; packet = p } ∷ m.finished }

pub Step-Inv : {s t : System} → Step s t → Inv s.shared s.calls → Inv t.shared t.calls
Step-Inv {s} (by_caller i e) v = CallStep-Inv s.calls e v (v.fits i) refl
Step-Inv {s} (by_worker e) v = WorkerStep-Inv s.calls e v

pub Reached-Inv : {s : System} → Reached s → Inv s.shared s.calls
Reached-Inv stays = record { fits = λ i. tt; held = (refl, refl); worker_fits = tt }
Reached-Inv (goes_on r e) = Step-Inv e (Reached-Inv r)
