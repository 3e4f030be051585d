-- ===== src/PeerList/Items.antt =====
-- How often a key stands in the tree and in the linked lists, and what the list operations do to it.
use miredo.Prelude.{
  ltb, if◌then◌else◌, Bool-cases, length, ℕ, suc, ◌+◌, ◌-◌, ◌<◌, min, ◌≡◌, refl, inl, inr, false,
  none, some, List, [], ◌∷◌, ◌++◌, arith,
}
use miredo.Net.Addr.{Addr, addr_equal, addr_equal_refl, eq_of_addr_equal}
use miredo.PeerList.{Item, has_key, add_key, delete_key, delete_keys, find_item, unlink}

unfoldable pub keys : Addr → List Addr → ℕ
keys a [] = 0
keys a (k ∷ ks) = if addr_equal a k then suc (keys a ks) else keys a ks

unfoldable pub items : Addr → List Item → ℕ
items a [] = 0
items a (x ∷ xs) = if addr_equal a x.key then suc (items a xs) else items a xs

pub has_key-keys : (a : Addr) (ks : List Addr) → has_key a ks ≡ ltb 0 (keys a ks)
unfolding has_key keys
has_key-keys a [] = refl
has_key-keys a (k ∷ ks) = ground (arith, has_key-keys a ks)

pub keys-add_key :
    (a b : Addr) (ks : List Addr)
    → keys b ks ≡ 0
    → keys a (add_key b ks) ≡ (if addr_equal a b then suc (keys a ks) else keys a ks)
unfolding add_key keys
keys-add_key a b ks h = ground (arith, has_key-keys b ks)

pub keys-delete_key :
    (a b : Addr) (ks : List Addr)
    → keys a (delete_key b ks) ≡ (if addr_equal a b then keys a ks - 1 else keys a ks)
unfolding delete_key keys
keys-delete_key a b [] = ground arith
keys-delete_key a b (k ∷ ks) = ground (
  arith,
  keys-delete_key a b ks,
  eq_of_addr_equal b k,
  eq_of_addr_equal a b,
  eq_of_addr_equal a k,
  addr_equal_refl a,
)

pub keys-delete_keys :
    (a : Addr) (ps : List Item) (ks : List Addr)
    → keys a (delete_keys ps ks) ≡ keys a ks - items a ps
unfolding delete_keys items
keys-delete_keys a [] ks = omega arith
keys-delete_keys a (p ∷ ps) ks =
    ground (arith, keys-delete_keys a ps (delete_key p.key ks), keys-delete_key a p.key ks)

pub items-append : (a : Addr) (xs ys : List Item) → items a (xs ++ ys) ≡ items a xs + items a ys
unfolding items
items-append a [] ys = omega arith
items-append a (x ∷ xs) ys = ground (arith, items-append a xs ys)

pub items-unlink :
    (a b : Addr) (xs : List Item)
    → items a (unlink b xs) ≡ (if addr_equal a b then items a xs - 1 else items a xs)
unfolding unlink items
items-unlink a b [] = ground arith
items-unlink a b (x ∷ xs) = ground (
  arith,
  items-unlink a b xs,
  eq_of_addr_equal b x.key,
  eq_of_addr_equal a b,
  eq_of_addr_equal a x.key,
  addr_equal_refl a,
)

pub length-unlink :
    (a : Addr) (xs : List Item) → length (unlink a xs) + min 1 (items a xs) ≡ length xs
unfolding unlink items
length-unlink a [] = omega arith
length-unlink a (x ∷ xs) = ground (arith, length-unlink a xs)

pub find_item-some :
    (a : Addr) (xs : List Item) (p : Item)
    → find_item a xs ≡ some p
    → (p.key ≡ a) × (0 < items a xs)
unfolding find_item items
find_item-some a [] p h = cc
find_item-some a (x ∷ xs) p h = elim (Bool-cases (addr_equal a x.key)) [
  | inl e ↦ ground (arith, eq_of_addr_equal a x.key e)
  | inr e ↦ ground (arith, find_item-some a xs p)
]

pub find_item-none : (a : Addr) (xs : List Item) → find_item a xs ≡ none → items a xs ≡ 0
unfolding find_item items
find_item-none a [] h = refl
find_item-none a (x ∷ xs) h = ground (arith, find_item-none a xs)

pub find_item_absent : (a : Addr) (xs : List Item) → items a xs ≡ 0 → find_item a xs ≡ none
unfolding find_item items
find_item_absent a [] h = refl
find_item_absent a (x ∷ xs) h = ground (arith, find_item_absent a xs)

pub find_item-append :
    (a : Addr) (xs ys : List Item)
    → find_item a (xs ++ ys) ≡ (elim (find_item a xs) [ none ↦ find_item a ys | some p ↦ some p ])
unfolding find_item
find_item-append a [] ys = refl
find_item-append a (x ∷ xs) ys = ground (arith, find_item-append a xs ys)

pub find_item-unlink :
    (a b : Addr) (xs : List Item)
    → addr_equal a b ≡ false
    → find_item a (unlink b xs) ≡ find_item a xs
unfolding find_item unlink
find_item-unlink a b [] h = refl
find_item-unlink a b (x ∷ xs) h =
    ground (arith, find_item-unlink a b xs h, eq_of_addr_equal b x.key)
