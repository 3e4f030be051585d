-- ===== src/Conf/Found.antt =====
-- The setting that `miredo_conf_get` finds.
use miredo.Prelude.{
  ℕ, if◌then◌else◌, Bool, true, false, Option, none, some, List, [], ◌∷◌, ◌++◌, ◌≡◌, refl, ap,
}
use miredo.Conf.Strings.{same_name}
use miredo.Conf.{Setting, MiredoConf, take_out, get}

-- No setting of a chain has the name.
abbrev pub NoneNamed : List ℕ → List Setting → Type 0
NoneNamed name [] = Unit {0}
NoneNamed name (s ∷ ss) = (same_name s.name name ≡ false) × NoneNamed name ss

-- A setting that is the first of its name, and the chain without it.
pub record IsFirst (name : List ℕ) (chain : List Setting) (p : Setting) (rest : List Setting)
    : Type 0 where
  pub front : List Setting
  pub back : List Setting
  pub split : chain ≡ front ++ (p ∷ back)
  pub left : rest ≡ front ++ back
  pub named : same_name p.name name ≡ true
  pub before : NoneNamed name front

-- What a lookup is to give.
abbrev pub Finds : List ℕ → MiredoConf → MiredoConf × Option Setting → Type 0
Finds name c (c', none) = (c' ≡ c) × NoneNamed name c.chain
Finds name c (c', some p) = IsFirst name c.chain p c'.chain × (c'.tail ≡ c.tail)

-- The same for a chain alone.
abbrev pub Takes : List ℕ → List Setting → Option (Setting × List Setting) → Type 0
Takes name ss none = NoneNamed name ss
Takes name ss (some (p, rest)) = IsFirst name ss p rest

pub take_out-Takes : (name : List ℕ) (ss : List Setting) → Takes name ss (take_out name ss)
unfolding take_out
take_out-Takes name [] = tt
take_out-Takes name (s ∷ ss) =
    by_name (same_name s.name name) refl (take_out name ss) (take_out-Takes name ss)
  where
    by_name :
        (b : Bool)
        → same_name s.name name ≡ b
        → (o : Option (Setting × List Setting)) → Takes name ss o
        → Takes name
            (s ∷ ss)
            (if b then some (s, ss) else elim o [ none ↦ none | some (q, qs) ↦ some (q, s ∷ qs) ])
    by_name true e o t = record {
      front = [];
      back = ss;
      split = refl;
      left = refl;
      named = e;
      before = tt;
    }
    by_name false e none t = (e, t)
    by_name false e (some (q, qs)) t = record {
      front = s ∷ t.front;
      back = t.back;
      split = ap (◌∷◌ s) t.split;
      left = ap (◌∷◌ s) t.left;
      named = t.named;
      before = (e, t.before);
    }

-- `miredo_conf_get` finds the first setting whose name is the given one, in whatever case, and takes
-- it out of the chain, the others in their order; where there is none, nothing changes.
pub get-Finds : (c : MiredoConf) (name : List ℕ) → Finds name c (get c name)
unfolding get
get-Finds c name = by_chain (take_out name c.chain) (take_out-Takes name c.chain)
  where
    by_chain :
        (o : Option (Setting × List Setting))
        → Takes name c.chain o
        → let r : MiredoConf × Option Setting = elim o [
          | none ↦ (c, none)
          | some (p, chain) ↦ (record c { chain = chain }, some p)
        ] in
          Finds name c r
    by_chain none t = (refl, t)
    by_chain (some (p, chain)) t = (t, refl)
