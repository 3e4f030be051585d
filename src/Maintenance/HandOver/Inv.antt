-- ===== src/Maintenance/HandOver/Inv.antt =====
-- What the place of each thread says of the shared variables, and that the maintenance thread's steps keep it.
use miredo.Prelude.{
  ℕ, ◌==◌, ◌≡◌, ◌⊎◌, inl, inr, refl, sym, subst, Bool, true, false, Option, none, some, ◌∷◌, arith,
}
use miredo.Maintenance.HandOver.{
  Worker, working, Owner, worker, caller, Handed, Shared, Call, outside, arriving, entering,
  placing, waiting, checking, leaving, WorkerStep, begin, fall_asleep, wake_up, process,
  cancel_working, cancel_sleeping, set_call,
}

-- A packet that has been handed over: it is pending, or it is the last one that has been processed.
abbrev pub Posted : Shared → Handed → Type 0
Posted m x =
    ((m.incoming ≡ some x) × (m.processed ≡ m.finished))
    ⊎ ((m.incoming ≡ none) × (m.processed ≡ x ∷ m.finished))

-- Nothing is pending, and all that has been processed has been finished.
abbrev pub Quiet : Shared → Type 0
Quiet m = (m.incoming ≡ none) × (m.processed ≡ m.finished)

-- What the place of a thread says of the shared variables.
abbrev pub Fits : ℕ → Shared → Call → Type 0
Fits i m outside = Unit {0}
Fits i m (arriving p) = Unit {0}
Fits i m (entering p) = (m.outer ≡ some i) × Quiet m
Fits i m (placing p) = (m.outer ≡ some i) × (m.inner ≡ some (caller i)) × Quiet m
Fits i m (waiting p) = (m.outer ≡ some i) × Posted m (record { from = i; packet = p })
Fits i m (checking p) =
    (m.outer ≡ some i) × (m.inner ≡ some (caller i)) × Posted m (record { from = i; packet = p })
Fits i m (leaving p) =
    (m.outer ≡ some i)
    × (m.incoming ≡ none)
    × (m.processed ≡ record { from = i; packet = p } ∷ m.finished)

-- Whether a thread has locked the outer mutex.
abbrev pub is_inside : Call → Bool
is_inside outside = false
is_inside (arriving p) = false
is_inside c = true

-- The outer mutex is free, or locked by a thread that is inside.
abbrev pub IsHeldBy : Option ℕ → Shared → (ℕ → Call) → Type 0
IsHeldBy none m calls = Quiet m
IsHeldBy (some i) m calls = is_inside (calls i) ≡ true

-- The maintenance thread at work has locked the inner mutex.
abbrev pub WorkerFits : Worker → Shared → Type 0
WorkerFits working m = m.inner ≡ some worker
WorkerFits w m = Unit {0}

pub record Inv (m : Shared) (calls : ℕ → Call) : Type 0 where
  pub fits : (i : ℕ) → Fits i m (calls i)
  pub held : IsHeldBy m.outer m calls
  pub worker_fits : WorkerFits m.worker_at m

pub set_call_same : (f : ℕ → Call) (i : ℕ) (c : Call) → set_call f i c i ≡ c
set_call_same f i c = ground arith

pub set_call_other :
    (f : ℕ → Call) (i : ℕ) (c : Call) (j : ℕ) → (j == i) ≡ false → set_call f i c j ≡ f j
set_call_other f i c j h = rw h refl

-- A thread that is not the holder of the outer mutex has nothing to say.
pub Fits-outside : (j : ℕ) (m m' : Shared) (c : Call) → is_inside c ≡ false → Fits j m' c
Fits-outside j m m' outside h = tt
Fits-outside j m m' (arriving p) h = tt
Fits-outside j m m' (entering p) h = absurd (ground arith)
Fits-outside j m m' (placing p) h = absurd (ground arith)
Fits-outside j m m' (waiting p) h = absurd (ground arith)
Fits-outside j m m' (checking p) h = absurd (ground arith)
Fits-outside j m m' (leaving p) h = absurd (ground arith)

-- Whoever is inside holds the outer mutex.
pub inside-outer :
    (j : ℕ) (m : Shared) (c : Call) → Fits j m c → is_inside c ≡ true → m.outer ≡ some j
inside-outer j m outside f h = absurd (ground arith)
inside-outer j m (arriving p) f h = absurd (ground arith)
inside-outer j m (entering p) f h = f.0
inside-outer j m (placing p) f h = f.0
inside-outer j m (waiting p) f h = f.0
inside-outer j m (checking p) f h = f.0
inside-outer j m (leaving p) f h = f.0

-- The shared variables with another state of the inner mutex and the maintenance thread.
abbrev relocked : Shared → Option Owner → Worker → Shared
relocked m o w = record m { inner = o; worker_at = w }

-- Nothing that a thread relies on changes when the maintenance thread locks or unlocks.
relocked-Fits :
    (j : ℕ) (m : Shared) (o : Option Owner) (w : Worker) (c : Call)
    → (m.inner ≡ none) ⊎ (m.inner ≡ some worker)
    → Fits j m c
    → Fits j (relocked m o w) c
relocked-Fits j m o w outside h f = tt
relocked-Fits j m o w (arriving p) h f = tt
relocked-Fits j m o w (entering p) h f = f
relocked-Fits j m o w (placing p) h f = absurd (ground arith)
relocked-Fits j m o w (waiting p) h f = f
relocked-Fits j m o w (checking p) h f = absurd (ground arith)
relocked-Fits j m o w (leaving p) h f = f

relocked-held :
    (m : Shared) (o : Option Owner) (w : Worker) (calls : ℕ → Call) (k : Option ℕ)
    → IsHeldBy k m calls
    → IsHeldBy k (relocked m o w) calls
relocked-held m o w calls none h = h
relocked-held m o w calls (some i) h = h

relocked-Inv :
    (m : Shared) (o : Option Owner) (w : Worker) (calls : ℕ → Call)
    → Inv m calls
    → (m.inner ≡ none) ⊎ (m.inner ≡ some worker)
    → WorkerFits w (relocked m o w)
    → Inv (relocked m o w) calls
relocked-Inv m o w calls v h k = record {
  fits = λ j. relocked-Fits j m o w (calls j) h (v.fits j);
  held = relocked-held m o w calls m.outer v.held;
  worker_fits = k;
}

abbrev after_process : Shared → Handed → Shared
after_process m x = record m { incoming = none; processed = x ∷ m.processed }

process-Fits :
    (j : ℕ) (m : Shared) (x : Handed) (c : Call)
    → m.inner ≡ some worker
    → m.incoming ≡ some x
    → Fits j m c
    → Fits j (after_process m x) c
process-Fits j m x outside w h f = tt
process-Fits j m x (arriving p) w h f = tt
process-Fits j m x (entering p) w h f = absurd (ground arith)
process-Fits j m x (placing p) w h f = absurd (ground arith)
process-Fits j m x (waiting p) w h f = ground arith
process-Fits j m x (checking p) w h f = absurd (ground arith)
process-Fits j m x (leaving p) w h f = absurd (ground arith)

process-held :
    (m : Shared) (x : Handed) (calls : ℕ → Call) (k : Option ℕ)
    → m.incoming ≡ some x
    → IsHeldBy k m calls
    → IsHeldBy k (after_process m x) calls
process-held m x calls none h q = absurd (ground arith)
process-held m x calls (some i) h q = q

working-inner :
    (m : Shared) → WorkerFits m.worker_at m → m.worker_at ≡ working → m.inner ≡ some worker
working-inner m f e = subst (λ w. WorkerFits w m) e f

pub WorkerStep-Inv :
    {m m' : Shared} (calls : ℕ → Call) → WorkerStep m m' → Inv m calls → Inv m' calls
WorkerStep-Inv {m} calls (begin e h) v = relocked-Inv m _ _ calls v (inl h) refl
WorkerStep-Inv {m} calls (fall_asleep e h) v =
    relocked-Inv m _ _ calls v (inr (working-inner m v.worker_fits e)) tt
WorkerStep-Inv {m} calls (wake_up e h) v = relocked-Inv m _ _ calls v (inl h) refl
WorkerStep-Inv {m} calls (process {x} e h) v =
    let w : m.inner ≡ some worker = working-inner m v.worker_fits e in
    record {
      fits = λ j. process-Fits j m x (calls j) w h (v.fits j);
      held = process-held m x calls m.outer h v.held;
      worker_fits = subst (λ k. WorkerFits k (after_process m x)) (sym e) w;
    }
WorkerStep-Inv {m} calls (cancel_working e) v =
    relocked-Inv m _ _ calls v (inr (working-inner m v.worker_fits e)) tt
WorkerStep-Inv {m} calls (cancel_sleeping e h) v = relocked-Inv m _ _ calls v (inl h) tt
