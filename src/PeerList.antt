-- ===== src/PeerList.antt =====
-- libteredo/peerlist.c: the list of peers, with its search tree of keys, its two generations and
-- its lock (the build without Judy arrays: `tsearch`, `tfind` and `tdelete` of the C library).
pub mod Items
pub mod Inv
pub mod Calls
pub mod View
pub mod Lock
use miredo.Prelude.{
  ltb, if◌then◌else◌, length, ℕ, ◌+◌, ◌-◌, ◌%◌, ◌^◌, Bool, true, false, not, ◌&&◌, ◌||◌, Option,
  none, some, List, [], ◌∷◌, ◌++◌,
}
use miredo.Net.Addr.{Addr, addr_equal}
use miredo.Peer.{Peer, peer_init}

-- `teredo_listitem`
pub record Item : Type 0 where
  pub key : Addr
  pub peer : Peer

-- `struct teredo_peerlist`: `root` is the set of keys in the tree, and `locked` the mutex.
pub record PeerList : Type 0 where
  pub recent : List Item
  pub old : List Item
  pub left : ℕ
  pub expiration : ℕ
  pub root : List Addr
  pub locked : Bool

-- What the allocator does: whether a tree node and an item can be had, and what the memory of the
-- item holds.
pub record Alloc : Type 0 where
  pub node : Bool
  pub item : Bool
  pub garbage : Peer

-- The tree: `tfind`, `tsearch` and `tdelete`.
unfoldable pub has_key : Addr → List Addr → Bool
unfolding addr_equal
has_key a [] = false
has_key a (k ∷ ks) = addr_equal a k || has_key a ks

unfoldable pub add_key : Addr → List Addr → List Addr
unfolding has_key
add_key a ks = if has_key a ks then ks else a ∷ ks

unfoldable pub delete_key : Addr → List Addr → List Addr
unfolding addr_equal
delete_key a [] = []
delete_key a (k ∷ ks) = if addr_equal a k then ks else k ∷ delete_key a ks

-- The item with a key in a linked list, and the list with that item unlinked.
unfoldable pub find_item : Addr → List Item → Option Item
unfolding addr_equal
find_item a [] = none
find_item a (x ∷ xs) = if addr_equal a x.key then some x else find_item a xs

unfoldable pub unlink : Addr → List Item → List Item
unfolding addr_equal
unlink a [] = []
unlink a (x ∷ xs) = if addr_equal a x.key then xs else x ∷ unlink a xs

-- `teredo_list_create`; `none` when memory or the collector thread cannot be had.
unfoldable pub list_create : Bool → ℕ → ℕ → Option PeerList
list_create ok max expiration =
    if ok
    then some (record {
      recent = [];
      old = [];
      left = max;
      expiration = expiration;
      root = [];
      locked = false;
    })
    else none

-- `teredo_list_reset`, from the lock to the unlock.
unfoldable pub list_reset : PeerList → ℕ → PeerList
list_reset l max = record l { recent = []; old = []; left = max; root = [] }

-- `teredo_list_destroy`; `none` where it waits for the mutex. The collector has ended then.
unfoldable pub list_destroy : PeerList → Option PeerList
list_destroy l = if l.locked then none else some (list_reset l 0)

-- One round of `garbage_collector`, from the lock to the unlock.
unfoldable pub delete_keys : List Item → List Addr → List Addr
unfolding delete_key
delete_keys [] root = root
delete_keys (p ∷ ps) root = delete_keys ps (delete_key p.key root)

unfoldable pub collect : PeerList → PeerList
unfolding delete_keys
collect l = record l {
  recent = [];
  old = l.recent;
  left = (l.left + length l.old) % 2 ^ 32;
  root = delete_keys l.old l.root;
}

-- The result of `teredo_list_lookup`: whether the peer, now first of the recent ones, was created;
-- or a null pointer.
pub data Found : Type 0 where
  null : Found
  known : Found
  created : Found

-- An item known to the tree: to the head of the recent list.
unfoldable pub move_front : PeerList → Item → PeerList
unfolding unlink
move_front l p = record l {
  recent = p ∷ unlink p.key l.recent;
  old = unlink p.key l.old;
  locked = true;
}

-- A key unknown to the tree: a new item, if there is room and memory.
unfoldable pub create_item : Alloc → PeerList → Addr → PeerList × Found
unfolding add_key peer_init delete_key
create_item m l addr =
    if not m.node
    then (l, null)
    else if ltb 0 l.left && m.item
    then (
      record l {
        recent = record { key = addr; peer = peer_init m.garbage } ∷ l.recent;
        left = l.left - 1;
        root = add_key addr l.root;
        locked = true;
      },
      created,
    )
    else (record l { root = delete_key addr (add_key addr l.root) }, null)

-- `teredo_list_lookup`; `create` says that the caller passed a pointer for the flag. `none`: the
-- caller holds the lock already, and waits for ever.
unfoldable pub list_lookup : Alloc → PeerList → Addr → Bool → Option (PeerList × Found)
unfolding has_key find_item move_front create_item
list_lookup m l addr create =
    if l.locked
    then none
    else elim (if has_key addr l.root then find_item addr (l.recent ++ l.old) else none) [
      | some p ↦ some (move_front l p, known)
      | none ↦ some (if create then create_item m l addr else (l, null))
    ]

-- `teredo_list_release`
unfoldable pub list_release : PeerList → PeerList
list_release l = record l { locked = false }

-- A write through the pointer that a lookup returned, which is the head of the recent list.
unfoldable pub set_first : Peer → List Item → List Item
set_first p [] = []
set_first p (x ∷ xs) = record x { peer = p } ∷ xs

unfoldable pub put_peer : PeerList → Peer → PeerList
unfolding set_first
put_peer l p = record l { recent = set_first p l.recent }

-- A read through it. (A list with no recent peer has no such pointer: `p` stands for nothing.)
unfoldable pub get_peer : PeerList → Peer → Peer
get_peer l p = elim l.recent [ [] ↦ p | x ∷ xs ↦ x.peer ]
