-- ===== src/PeerList/Calls.antt =====
-- Histories of a peer list: what its users and its collector do, in any order.
use miredo.PeerList.Items.{keys, items}
use miredo.Prelude.{
  if◌then◌else◌, length, ℕ, ◌+◌, ◌%◌, ◌^◌, ◌≤◌, ◌<◌, ◌≡◌, refl, sym, subst, Bool, true, false,
  Option, none, some, List, [], ◌∷◌, arith,
}
use miredo.Net.Addr.{Addr}
use miredo.Peer.{Peer}
use miredo.PeerList.Inv.{
  keys_of_found, move_front-IsValid, with_new-IsValid, keys_of_absent, list_reset-IsValid,
  collect-IsValid, given_up-IsValid, list_lookup-Looked, IsValid, Looked, absent, refused, added,
  hit,
}
use miredo.PeerList.{
  Item, set_first, list_create, PeerList, Alloc, Found, list_reset, collect, list_lookup,
  list_release, put_peer,
}

pub data Call : Type 0 where
  looks_up : Alloc → Addr → Bool → Call
  writes : Peer → Call
  releases : Call
  collects : Call
  resets : ℕ → Call

-- A list with the maximum it was last given.
pub record Bounded : Type 0 where
  pub list : PeerList
  pub max : ℕ

-- A call that must take the mutex changes nothing while it is held; a write through the pointer
-- of a lookup is made only while it is.
abbrev pub step : Bounded → Call → Bounded
step s (looks_up m a create) = elim (list_lookup m s.list a create) [
  | none ↦ s
  | some (l, f) ↦ record s { list = l }
]
step s (writes p) = if s.list.locked then record s { list = put_peer s.list p } else s
step s releases = record s { list = list_release s.list }
step s collects = if s.list.locked then s else record s { list = collect s.list }
step s (resets max) =
    if s.list.locked
    then s
    else record s { list = list_reset s.list (max % 2 ^ 32); max = max % 2 ^ 32 }

abbrev pub run : Bounded → List Call → Bounded
run s [] = s
run s (c ∷ cs) = run (step s c) cs

pub items-set_first : (a : Addr) (p : Peer) (xs : List Item) → items a (set_first p xs) ≡ items a xs
unfolding items set_first
items-set_first a p [] = refl
items-set_first a p (x ∷ xs) = refl

length-set_first : (p : Peer) (xs : List Item) → length (set_first p xs) ≡ length xs
unfolding set_first
length-set_first p [] = refl
length-set_first p (x ∷ xs) = refl

pub put_peer-IsValid :
    (max : ℕ) (l : PeerList) (p : Peer) → IsValid max l → IsValid max (put_peer l p)
unfolding put_peer
put_peer-IsValid max l p v = record {
  agree = λ a. omega (arith, v.agree a, items-set_first a p l.recent);
  once = v.once;
  places = omega (arith, v.places, length-set_first p l.recent);
  small = v.small;
}

pub list_release-IsValid : (max : ℕ) (l : PeerList) → IsValid max l → IsValid max (list_release l)
unfolding list_release
list_release-IsValid max l v = record {
  agree = v.agree;
  once = v.once;
  places = v.places;
  small = v.small;
}

pub Looked-IsValid :
    (max : ℕ) (m : Alloc) (l : PeerList) (a : Addr) (l' : PeerList) (f : Found)
    → IsValid max l
    → Looked m l a l' f
    → IsValid max l'
Looked-IsValid max m l a l' f v (absent e p q) = subst (IsValid max) (sym p) v
Looked-IsValid max m l a l' f v (refused e p q) =
    subst (IsValid max) (sym p) (given_up-IsValid max l a v (keys_of_absent max l a v e))
Looked-IsValid max m l a l' f v (added e room p q) =
    subst (IsValid max) (sym p) (with_new-IsValid max m l a v (keys_of_absent max l a v e) room)
Looked-IsValid max m l a l' f v (hit x k e p q) = subst (IsValid max) (sym p) (
    move_front-IsValid max l x v
      (subst (λ b. 0 < keys b l.root) (sym k) (keys_of_found max l a x v e)))

after_lookup :
    (s : Bounded) (m : Alloc) (a : Addr) (create : Bool) (o : Option (PeerList × Found))
    → list_lookup m s.list a create ≡ o
    → IsValid s.max s.list
    → let s' : Bounded = elim o [ none ↦ s | some (l, f) ↦ record s { list = l } ] in
      IsValid s'.max s'.list
after_lookup s m a create none e v = v
after_lookup s m a create (some (l, f)) e v =
    Looked-IsValid s.max m s.list a l f v (list_lookup-Looked s.max m s.list a create l f v e)

unless :
    (b : Bool) (s s' : Bounded)
    → IsValid s.max s.list
    → IsValid s'.max s'.list
    → let t : Bounded = if b then s else s' in IsValid t.max t.list
unless true s s' v w = v
unless false s s' v w = w

step-IsValid :
    (s : Bounded) (c : Call) → IsValid s.max s.list → IsValid (step s c).max (step s c).list
step-IsValid s (looks_up m a create) v =
    after_lookup s m a create (list_lookup m s.list a create) refl v
step-IsValid s (writes p) v =
    unless s.list.locked (record s { list = put_peer s.list p }) s
      (put_peer-IsValid s.max s.list p v) v
step-IsValid s releases v = list_release-IsValid s.max s.list v
step-IsValid s collects v =
    unless s.list.locked s (record s { list = collect s.list }) v (collect-IsValid s.max s.list v)
step-IsValid s (resets max) v =
    unless s.list.locked s (record { list = list_reset s.list (max % 2 ^ 32); max = max % 2 ^ 32 })
      v (list_reset-IsValid s.list (max % 2 ^ 32) (omega arith))

run-IsValid :
    (cs : List Call) (s : Bounded) → IsValid s.max s.list → IsValid (run s cs).max (run s cs).list
run-IsValid [] s v = v
run-IsValid (c ∷ cs) s v = run-IsValid cs (step s c) (step-IsValid s c v)

pub create-IsValid :
    (max expiration : ℕ) (l : PeerList)
    → max < 2 ^ 32
    → list_create true max expiration ≡ some l
    → IsValid max l
unfolding list_create list_reset
create-IsValid max expiration l h e =
    let same : list_reset (record l { locked = false }) max ≡ l = ground arith in
    subst (IsValid max) same (list_reset-IsValid (record l { locked = false }) max h)

-- After any history of a created list, whatever the allocator does, the tree holds the keys of the
-- linked peers, each once, and the peers and the free places make up the maximum last given: so
-- there are never more peers than that.
pub list_create-IsValid :
    (max expiration : ℕ) (l : PeerList) (cs : List Call)
    → max < 2 ^ 32
    → list_create true max expiration ≡ some l
    → let s = run (record { list = l; max = max }) cs in
      IsValid s.max s.list × (length s.list.recent + length s.list.old ≤ s.max)
list_create-IsValid max expiration l cs h e =
    let v = run-IsValid cs (record { list = l; max = max }) (create-IsValid max expiration l h e) in
    (v, omega (arith, v.places))
