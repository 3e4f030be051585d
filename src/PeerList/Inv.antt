-- ===== src/PeerList/Inv.antt =====
-- The invariant of the peer list.
use miredo.Prelude.{
  ltb, if◌then◌else◌, Bool-cases, length, ℕ, ◌+◌, ◌-◌, ◌^◌, ◌≤◌, ◌<◌, ◌≡◌, refl, sym, ap, subst,
  ◌∙◌, ◌⊎◌, inl, inr, Bool, true, false, ◌&&◌, Option, none, some, ◌∷◌, ◌++◌, arith,
}
use miredo.Net.Addr.{Addr, eq_of_addr_equal}
use miredo.PeerList.Items.{
  keys-delete_key, find_item_absent, has_key-keys, find_item-none, keys-add_key, find_item-some,
  items-append, keys, items, keys-delete_keys, items-unlink, length-unlink,
}
use miredo.PeerList.{
  list_lookup, known, add_key, created, has_key, delete_key, null, find_item, Found, peer_init,
  PeerList, Item, Alloc, list_reset, collect, move_front, create_item,
}

-- The tree holds the keys of the linked peers, each once, and the free places and the peers make
-- up the maximum.
pub record IsValid (max : ℕ) (l : PeerList) : Type 0 where
  pub agree : (a : Addr) → keys a l.root ≡ items a l.recent + items a l.old
  pub once : (a : Addr) → keys a l.root ≤ 1
  pub places : l.left + length l.recent + length l.old ≡ max
  pub small : max < 2 ^ 32

pub list_reset-IsValid : (l : PeerList) (max : ℕ) → max < 2 ^ 32 → IsValid max (list_reset l max)
unfolding list_reset keys items
list_reset-IsValid l max h = record {
  agree = λ a. omega arith;
  once = λ a. omega arith;
  places = omega arith;
  small = h;
}

pub collect-IsValid : (max : ℕ) (l : PeerList) → IsValid max l → IsValid max (collect l)
unfolding collect items
collect-IsValid max l v = record {
  agree = λ a. omega (arith, keys-delete_keys a l.old l.root, v.agree a);
  once = λ a. omega (arith, keys-delete_keys a l.old l.root, v.once a);
  places = omega (arith, v.places, v.small);
  small = v.small;
}

pub move_front-IsValid :
    (max : ℕ) (l : PeerList) (p : Item)
    → IsValid max l
    → 0 < keys p.key l.root
    → IsValid max (move_front l p)
unfolding move_front items
move_front-IsValid max l p v h = record {
  agree = λ a. ground (
    arith,
    v.agree a,
    v.once a,
    items-unlink a p.key l.recent,
    items-unlink a p.key l.old,
    eq_of_addr_equal a p.key,
  );
  once = v.once;
  places = omega (
    arith,
    v.places,
    v.agree p.key,
    v.once p.key,
    length-unlink p.key l.recent,
    length-unlink p.key l.old,
  );
  small = v.small;
}

-- The list with a new item, and the list after the key has gone into the tree and out again.
abbrev pub with_new : Alloc → PeerList → Addr → PeerList
with_new m l a = record l {
  recent = record { key = a; peer = peer_init m.garbage } ∷ l.recent;
  left = l.left - 1;
  root = add_key a l.root;
  locked = true;
}

abbrev pub given_up : PeerList → Addr → PeerList
given_up l a = record l { root = delete_key a (add_key a l.root) }

pub with_new-IsValid :
    (max : ℕ) (m : Alloc) (l : PeerList) (a : Addr)
    → IsValid max l
    → keys a l.root ≡ 0
    → 0 < l.left
    → IsValid max (with_new m l a)
unfolding items
with_new-IsValid max m l a v h room = record {
  agree = λ b. ground (arith, v.agree b, keys-add_key b a l.root h);
  once = λ b. ground (arith, v.once b, keys-add_key b a l.root h, eq_of_addr_equal b a);
  places = omega (arith, v.places);
  small = v.small;
}

pub given_up-IsValid :
    (max : ℕ) (l : PeerList) (a : Addr)
    → IsValid max l
    → keys a l.root ≡ 0
    → IsValid max (given_up l a)
given_up-IsValid max l a v h =
    let same : (b : Addr) → keys b (delete_key a (add_key a l.root)) ≡ keys b l.root =
      λ b. ground (arith, keys-delete_key b a (add_key a l.root), keys-add_key b a l.root h) in
    record {
      agree = λ b. same b ∙ v.agree b;
      once = λ b. omega (arith, same b, v.once b);
      places = v.places;
      small = v.small;
    }

-- The three ways in which a creation ends.
pub create_item_cases :
    (m : Alloc) (l : PeerList) (a : Addr)
    → (create_item m l a ≡ (l, null))
      ⊎ ((create_item m l a ≡ (with_new m l a, created)) × (0 < l.left))
      ⊎ (create_item m l a ≡ (given_up l a, null))
unfolding create_item
create_item_cases m l a = elim (Bool-cases m.node) [
  | inr n ↦ inl (ground arith)
  | inl n ↦ elim (Bool-cases (ltb 0 l.left && m.item)) [
    | inl r ↦ inr (inl (ground arith, ground arith))
    | inr r ↦ inr (inr (ground arith))
  ]
]

create_item-IsValid :
    (max : ℕ) (m : Alloc) (l : PeerList) (a : Addr)
    → IsValid max l
    → keys a l.root ≡ 0
    → IsValid max (create_item m l a).0
create_item-IsValid max m l a v h = elim (create_item_cases m l a) [
  | inl e ↦ subst (λ r. IsValid max r.0) (sym e) v
  | inr (inl (e, room)) ↦ subst (λ r. IsValid max r.0) (sym e) (with_new-IsValid max m l a v h room)
  | inr (inr e) ↦ subst (λ r. IsValid max r.0) (sym e) (given_up-IsValid max l a v h)
]

pub keys_of_absent :
    (max : ℕ) (l : PeerList) (a : Addr)
    → IsValid max l
    → find_item a (l.recent ++ l.old) ≡ none
    → keys a l.root ≡ 0
keys_of_absent max l a v e =
    omega (arith, v.agree a, items-append a l.recent l.old, find_item-none a (l.recent ++ l.old) e)

pub keys_of_found :
    (max : ℕ) (l : PeerList) (a : Addr) (p : Item)
    → IsValid max l
    → find_item a (l.recent ++ l.old) ≡ some p
    → 0 < keys a l.root
keys_of_found max l a p v e =
    omega (
      arith,
      v.agree a,
      items-append a l.recent l.old,
      (find_item-some a (l.recent ++ l.old) p e).1,
    )

-- What a lookup searches: the linked lists, if the tree has the key.
abbrev pub searched : PeerList → Addr → Option Item
searched l a = if has_key a l.root then find_item a (l.recent ++ l.old) else none

-- In a valid list the tree adds nothing to the search of the linked lists.
pub searched-find_item :
    (max : ℕ) (l : PeerList) (a : Addr)
    → IsValid max l
    → searched l a ≡ find_item a (l.recent ++ l.old)
searched-find_item max l a v = ground (
  arith,
  has_key-keys a l.root,
  v.agree a,
  items-append a l.recent l.old,
  find_item_absent a (l.recent ++ l.old),
)

searched-some :
    (max : ℕ) (l : PeerList) (a : Addr) (p : Item)
    → IsValid max l
    → searched l a ≡ some p
    → (p.key ≡ a) × (0 < keys a l.root)
searched-some max l a p v e =
    let f : (p.key ≡ a) × (0 < items a (l.recent ++ l.old)) =
      find_item-some a (l.recent ++ l.old) p (sym (searched-find_item max l a v) ∙ e) in
    (f.0, omega (arith, v.agree a, items-append a l.recent l.old, f.1))

-- The ways in which a lookup of an unlocked list ends.
pub data Looked (m : Alloc) (l : PeerList) (a : Addr) (l' : PeerList) (f : Found) : Type 0 where
  absent : find_item a (l.recent ++ l.old) ≡ none → l' ≡ l → f ≡ null → Looked m l a l' f
  refused :
      find_item a (l.recent ++ l.old) ≡ none → l' ≡ given_up l a → f ≡ null → Looked m l a l' f
  added :
      find_item a (l.recent ++ l.old) ≡ none
      → 0 < l.left
      → l' ≡ with_new m l a
      → f ≡ created
      → Looked m l a l' f
  hit :
      (p : Item)
      → p.key ≡ a
      → find_item a (l.recent ++ l.old) ≡ some p
      → l' ≡ move_front l p
      → f ≡ known
      → Looked m l a l' f

create_item-Looked :
    (m : Alloc) (l : PeerList) (a : Addr)
    → find_item a (l.recent ++ l.old) ≡ none
    → Looked m l a (create_item m l a).0 (create_item m l a).1
create_item-Looked m l a h = elim (create_item_cases m l a) [
  | inl e ↦ absent h (ap (λ r. r.0) e) (ap (λ r. r.1) e)
  | inr (inl (e, room)) ↦ added h room (ap (λ r. r.0) e) (ap (λ r. r.1) e)
  | inr (inr e) ↦ refused h (ap (λ r. r.0) e) (ap (λ r. r.1) e)
]

unlocked_of_lookup :
    (m : Alloc) (l : PeerList) (a : Addr) (create : Bool) {r : PeerList × Found}
    → list_lookup m l a create ≡ some r
    → l.locked ≡ false
unfolding list_lookup
unlocked_of_lookup m l a create h = ground arith

lookup_of_searched :
    (m : Alloc) (l : PeerList) (a : Addr) (create : Bool) (r : PeerList × Found)
    → list_lookup m l a create ≡ some r
    → (o : Option Item) → searched l a ≡ o
    → (elim o [
      | some p ↦ (move_front l p, known)
      | none ↦ if create then create_item m l a else (l, null)
    ])
      ≡ r
unfolding list_lookup
lookup_of_searched m l a create r h o e = ground arith

pub list_lookup-Looked :
    (max : ℕ) (m : Alloc) (l : PeerList) (a : Addr) (create : Bool) (l' : PeerList) (f : Found)
    → IsValid max l
    → list_lookup m l a create ≡ some (l', f)
    → Looked m l a l' f
list_lookup-Looked max m l a create l' f v h = go (searched l a) refl
  where
    at : (r : PeerList × Found) → r ≡ (l', f) → Looked m l a r.0 r.1 → Looked m l a l' f
    at r e k = subst (λ q. Looked m l a q.0 q.1) e k

    search_eq : searched l a ≡ find_item a (l.recent ++ l.old)
    search_eq = searched-find_item max l a v

    creating :
        (c : Bool)
        → searched l a ≡ none
        → Looked m l a
            (if c then create_item m l a else (l, null)).0
            (if c then create_item m l a else (l, null)).1
    creating true e = create_item-Looked m l a (sym search_eq ∙ e)
    creating false e = absent (sym search_eq ∙ e) refl refl

    go : (o : Option Item) → searched l a ≡ o → Looked m l a l' f
    go none e =
        at (if create then create_item m l a else (l, null))
          (lookup_of_searched m l a create (l', f) h none e) (creating create e)
    go (some p) e =
        at (move_front l p, known) (lookup_of_searched m l a create (l', f) h (some p) e)
          (hit p (searched-some max l a p v e).0 (sym search_eq ∙ e) refl refl)
