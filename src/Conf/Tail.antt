-- ===== src/Conf/Tail.antt =====
-- When a lookup leaves the tail in order.
use miredo.Prelude.{
  ℕ, ◌==◌, false, ◌||◌, none, some, List, [], ◌∷◌, ◌++◌, ◌≡◌, refl, sym, subst, ◌∙◌, ◌⊎◌, inl, inr,
  arith,
}
use miredo.Conf.{Setting, MiredoConf, Malloc, link, set, get}
use miredo.Conf.Found.{IsFirst}
use miredo.Conf.Found.{Finds}
use miredo.Conf.Found.{get-Finds}
use miredo.Conf.Chain.{has_address, Distinct, Ends, IsLinked}

has_address-split :
    (a : ℕ) (front back : List Setting)
    → has_address a (front ++ back) ≡ (has_address a front || has_address a back)
has_address-split a [] back = refl
has_address-split a (s ∷ front) back = ground (arith, has_address-split a front back)

Distinct-left :
    (front : List Setting) (p : Setting) (back : List Setting)
    → Distinct (front ++ (p ∷ back))
    → Distinct (front ++ back) × (has_address p.address (front ++ back) ≡ false)
Distinct-left [] p back d = (d.1, d.0)
Distinct-left (s ∷ front) p back d =
    let r = Distinct-left front p back d.1 in
    (
      (
        ground (
          arith,
          d.0,
          has_address-split s.address front (p ∷ back),
          has_address-split s.address front back,
        ),
        r.0,
      ),
      ground (arith, d.0, r.1, has_address-split s.address front (p ∷ back)),
    )

link_absent :
    (t : ℕ) (parm : Setting) (ss : List Setting) → has_address t ss ≡ false → link t parm ss ≡ none
unfolding link
link_absent t parm [] h = refl
link_absent t parm (s ∷ ss) h = ground (arith, link_absent t parm ss)

Ends-left :
    (t : ℕ) (front : List Setting) (p : Setting) (back : List Setting)
    → Ends t (front ++ (p ∷ back))
    → (p.address == t) ≡ false
    → Ends t (front ++ back)
Ends-left t [] p [] e h = tt
Ends-left t [] p (b ∷ back) e h = e
Ends-left t (s ∷ []) p [] e h = absurd (ground arith)
Ends-left t (s ∷ []) p (b ∷ back) e h = e
Ends-left t (s ∷ s' ∷ front) p back e h = Ends-left t (s' ∷ front) p back e h

-- After a lookup the tail is in order if the setting that was found is not the one at the tail, or
-- no other is left.
pub get-IsLinked :
    (c c' : MiredoConf) (name : List ℕ) (p : Setting)
    → IsLinked c
    → get c name ≡ (c', some p)
    → ((p.address == c.tail) ≡ false) ⊎ (c'.chain ≡ [])
    → IsLinked c'
get-IsLinked c c' name p v e o = found o
  where
    f : IsFirst name c.chain p c'.chain × (c'.tail ≡ c.tail)
    f = subst (Finds name c) e (get-Finds c name)

    d : Distinct (f.0.front ++ f.0.back) × (has_address p.address (f.0.front ++ f.0.back) ≡ false)
    d = Distinct-left f.0.front p f.0.back (subst Distinct f.0.split v.distinct)

    found : ((p.address == c.tail) ≡ false) ⊎ (c'.chain ≡ []) → IsLinked c'
    found (inl h) = record {
      distinct = subst Distinct (sym f.0.left) d.0;
      ends =
          subst (λ t. Ends t c'.chain) (sym f.1)
            (subst (Ends c.tail) (sym f.0.left)
              (Ends-left c.tail f.0.front p f.0.back (subst (Ends c.tail) f.0.split v.ends) h));
    }
    found (inr h) = record {
      distinct = subst Distinct (sym f.0.left) d.0;
      ends = subst (Ends c'.tail) (sym h) tt;
    }

-- From settings whose tail is in order: after a lookup that finds the setting at the tail while others
-- are left, the next
-- `miredo_conf_set` that gets memory writes to the node that has been freed.
pub get-set :
    (malloc : Malloc) (c c' : MiredoConf) (name : List ℕ) (p s : Setting) (ss : List Setting)
    (name' value : List ℕ) (line a : ℕ)
    → IsLinked c
    → get c name ≡ (c', some p)
    → p.address ≡ c.tail
    → c'.chain ≡ s ∷ ss
    → malloc c'.chain ≡ some a
    → set malloc c' name' value line ≡ none
unfolding set
get-set malloc c c' name p s ss name' value line a v e t left m = ground (
  arith,
  left,
  m,
  link_absent c'.tail (record { address = a; name = name'; value = value; line = line }) (s ∷ ss)
      absent,
)
  where
    f : IsFirst name c.chain p c'.chain × (c'.tail ≡ c.tail)
    f = subst (Finds name c) e (get-Finds c name)

    absent : has_address c'.tail (s ∷ ss) ≡ false
    absent =
        subst (λ u. has_address u (s ∷ ss) ≡ false) (t ∙ sym f.1)
          (subst (λ us. has_address p.address us ≡ false) (sym f.0.left ∙ left)
            (Distinct-left f.0.front p f.0.back (subst Distinct f.0.split v.distinct)).1)
