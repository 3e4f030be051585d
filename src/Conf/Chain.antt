-- ===== src/Conf/Chain.antt =====
-- The chain of settings, its tail, and how a setting is added.
use miredo.Prelude.{
  ℕ, ◌==◌, Bool, true, false, ◌||◌, Bool-cases, Option, none, some, List, [], ◌∷◌, ◌++◌, ◌≡◌, refl,
  ap, sym, subst, inl, inr, arith,
}
use miredo.Conf.{Setting, no_memory, MiredoConf, Step, Malloc, link, set}

abbrev pub has_address : ℕ → List Setting → Bool
has_address a [] = false
has_address a (s ∷ ss) = s.address == a || has_address a ss

-- No node is twice in the chain.
abbrev pub Distinct : List Setting → Type 0
Distinct [] = Unit {0}
Distinct (s ∷ ss) = (has_address s.address ss ≡ false) × Distinct ss

-- A chain with a node at its end has it at this address.
abbrev pub Ends : ℕ → List Setting → Type 0
Ends t [] = Unit {0}
Ends t (s ∷ []) = s.address ≡ t
Ends t (s ∷ s' ∷ ss) = Ends t (s' ∷ ss)

-- What `miredo_conf_set` relies on.
pub record IsLinked (c : MiredoConf) : Type 0 where
  pub distinct : Distinct c.chain
  pub ends : Ends c.tail c.chain

-- Memory that is given is not in use.
abbrev pub IsFresh : Malloc → Type 0
IsFresh malloc =
    (chain : List Setting) (a : ℕ) → malloc chain ≡ some a → has_address a chain ≡ false

has_address-Ends :
    (t : ℕ) (s : Setting) (ss : List Setting) → Ends t (s ∷ ss) → has_address t (s ∷ ss) ≡ true
has_address-Ends t s [] h = ground arith
has_address-Ends t s (s' ∷ ss) h = ground (arith, has_address-Ends t s' ss h)

link-append :
    (t : ℕ) (parm s : Setting) (ss : List Setting)
    → Distinct (s ∷ ss)
    → Ends t (s ∷ ss)
    → link t parm (s ∷ ss) ≡ some ((s ∷ ss) ++ (parm ∷ []))
unfolding link
link-append t parm s [] d e = ground arith
link-append t parm s (s' ∷ ss) d e =
    ground (arith, link-append t parm s' ss d.1 e, has_address-Ends t s' ss e, other)
  where
    other : (s.address == t) ≡ false
    other = elim (Bool-cases (s.address == t)) [
      | inl h ↦ absurd (ground (arith, has_address-Ends t s' ss e))
      | inr h ↦ h
    ]

-- The end of a chain to which a node is added.
pub Ends-append : (parm : Setting) (ss : List Setting) → Ends parm.address (ss ++ (parm ∷ []))
Ends-append parm [] = refl
Ends-append parm (s ∷ []) = refl
Ends-append parm (s ∷ s' ∷ ss) = Ends-append parm (s' ∷ ss)

has_address-append :
    (a : ℕ) (parm : Setting) (ss : List Setting)
    → has_address a ss ≡ false
    → (parm.address == a) ≡ false
    → has_address a (ss ++ (parm ∷ [])) ≡ false
has_address-append a parm [] h k = ground arith
has_address-append a parm (s ∷ ss) h k = ground (arith, has_address-append a parm ss)

Distinct-append :
    (parm : Setting) (ss : List Setting)
    → Distinct ss
    → has_address parm.address ss ≡ false
    → Distinct (ss ++ (parm ∷ []))
Distinct-append parm [] d h = (refl, tt)
Distinct-append parm (s ∷ ss) d h = (
  has_address-append s.address parm ss d.0 (ground arith),
  Distinct-append parm ss d.1 (ground arith),
)

-- The setting for a directive, at an address.
abbrev pub setting_at : ℕ → List ℕ → List ℕ → ℕ → Setting
setting_at a name value line = record { address = a; name = name; value = value; line = line }

-- A step that adds a setting at the end, or runs out of memory and changes nothing.
pub data Adds (c : MiredoConf) (name value : List ℕ) (line : ℕ) : Step Bool → Type 0 where
  exhausted : Adds c name value line (record { conf = c; log = no_memory ∷ []; result = false })
  added :
      (a : ℕ)
      → has_address a c.chain ≡ false
      → Adds c name value line (record {
        conf = record { chain = c.chain ++ (setting_at a name value line ∷ []); tail = a };
        log = [];
        result = true;
      })

-- What is said of the result of a step that is defined.
abbrev pub Returns : {A : Type 0} → (Step A → Type 0) → Option (Step A) → Type 0
Returns P none = ⊥
Returns P (some s) = P s

joined :
    (t : ℕ) (parm : Setting) (ss : List Setting)
    → Distinct ss
    → Ends t ss
    → (elim ss [ [] ↦ some (parm ∷ []) | s ∷ ss' ↦ link t parm (s ∷ ss') ])
      ≡ some (ss ++ (parm ∷ []))
joined t parm [] d e = refl
joined t parm (s ∷ ss) d e = link-append t parm s ss d e

-- The step with memory at hand.
pub set-append :
    (address_of : List Setting → ℕ) (c : MiredoConf) (name value : List ℕ) (line : ℕ)
    → IsLinked c
    → set (λ ss. some (address_of ss)) c name value line
      ≡ some (record {
        conf = record {
          chain = c.chain ++ (setting_at (address_of c.chain) name value line ∷ []);
          tail = address_of c.chain;
        };
        log = [];
        result = true;
      })
unfolding set
set-append address_of c name value line v =
    ap
      (λ (o : Option (List Setting)). elim o [
        | none ↦ none
        | some chain ↦ some (record {
          conf = record { chain = chain; tail = address_of c.chain };
          log = [];
          result = true;
        })
      ])
      (joined c.tail (setting_at (address_of c.chain) name value line) c.chain v.distinct v.ends)

-- On settings whose tail is in order, `miredo_conf_set` writes to no freed memory: it adds the setting
-- at the end, or leaves everything as it is if memory is missing.
pub set-Adds :
    (malloc : Malloc) (c : MiredoConf) (name value : List ℕ) (line : ℕ)
    → IsFresh malloc
    → IsLinked c
    → Returns (λ s. Adds c name value line s × IsLinked s.conf) (set malloc c name value line)
unfolding set
set-Adds malloc c name value line fresh v = by_malloc (malloc c.chain) (λ a e. fresh c.chain a e)
  where
    by_malloc :
        (o : Option ℕ)
        → ((a : ℕ) → o ≡ some a → has_address a c.chain ≡ false)
        → Returns
            (λ s. Adds c name value line s × IsLinked s.conf)
            (elim o [
              | none ↦ some (record { conf = c; log = no_memory ∷ []; result = false })
              | some a ↦
                  let parm : Setting = setting_at a name value line in
                  let added : Option (List Setting) = elim c.chain [
                    | [] ↦ some (parm ∷ [])
                    | s ∷ ss ↦ link c.tail parm (s ∷ ss)
                  ] in
                  elim added [
                    | none ↦ none
                    | some chain ↦ some (record {
                      conf = record { chain = chain; tail = a };
                      log = [];
                      result = true;
                    })
                  ]
            ])
    by_malloc none f = (exhausted, v)
    by_malloc (some a) f =
        subst
          (λ (o : Option (List Setting)).
            Returns (λ s. Adds c name value line s × IsLinked s.conf)
              (elim o [
                | none ↦ none
                | some chain ↦
                    some (record {
                      conf = record { chain = chain; tail = a };
                      log = [];
                      result = true;
                    })
              ]))
          (sym (joined c.tail (setting_at a name value line) c.chain v.distinct v.ends))
          (
            added a (f a refl),
            record {
              distinct =
                  Distinct-append (setting_at a name value line) c.chain v.distinct (f a refl);
              ends = Ends-append (setting_at a name value line) c.chain;
            },
          )
