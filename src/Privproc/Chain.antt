-- ===== src/Privproc/Chain.antt =====
-- src/privproc.c: the OLD_ variables of the runs of the hook script.
use miredo.Prelude.{ℕ, ◌≡◌, Bool, true, false, some, List, [], ◌∷◌}
use miredo.Privproc.{
  sending, Settings, Variables, Environment, Ntop, variables_of, Round, Stop, unanswered, Served,
}

-- The interface is there in every round.
abbrev pub AreNamed : List Round → Type 0
AreNamed [] = Unit {0}
AreNamed (r ∷ rs) = ((name : List ℕ) × (r.iface ≡ some name)) × AreNamed rs

-- Whether the loop has left a round between the run of the script and the end.
abbrev pub is_cut : Stop → Bool
is_cut sending = true
is_cut unanswered = true
is_cut s = false

-- Each run has in its OLD_ variables those that the run before had without OLD_, the first one `p`;
-- and so has what follows, `q`, unless the last round was cut: then `q` is what its run had.
abbrev pub Follows : Bool → Variables → List Environment → Variables → Type 0
Follows false p [] q = q ≡ p
Follows true p [] q = ⊥
Follows false p (e ∷ es) q = (e.old ≡ p) × Follows false e.current es q
Follows true p (e ∷ []) q = (e.old ≡ p) × (q ≡ p)
Follows true p (e ∷ e' ∷ es) q = (e.old ≡ p) × Follows true e.current (e' ∷ es) q

abbrev Chained : Variables → Served → Type 0
Chained p s = Follows (is_cut s.stop) p s.runs s.env.old

-- The environment of the one run in a round, when the interface is there.
abbrev named_run : Ntop → Environment → Settings → List ℕ → Environment
named_run ntop env cfg name = record env { current = variables_of ntop cfg; iface = some name }
