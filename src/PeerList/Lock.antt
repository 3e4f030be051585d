-- ===== src/PeerList/Lock.antt =====
-- The mutex of the peer list across a lookup.
use miredo.Prelude.{if◌then◌else◌, Option-cases, ℕ, ◌≡◌, refl, inl, inr, Bool, false, some, arith}
use miredo.Peer.{Peer}
use miredo.Net.Addr.{Addr}
use miredo.PeerList.Inv.{IsValid, list_lookup-Looked, searched}
use miredo.PeerList.Calls.{Looked-IsValid, put_peer-IsValid, list_release-IsValid}
use miredo.PeerList.{
  [], list_destroy, list_reset, PeerList, Alloc, Found, null, known, list_lookup, list_release,
  put_peer, create_item, move_front,
}

-- A list that is valid, with its mutex free.
pub record IsSettled (max : ℕ) (l : PeerList) : Type 0 where
  pub valid : IsValid max l
  pub free : l.locked ≡ false

-- What a lookup on a settled list gives back: a valid list, free again if nothing was found.
pub record Answered (max : ℕ) (m : Alloc) (l : PeerList) (a : Addr) (create : Bool) : Type 0 where
  pub list : PeerList
  pub found : Found
  pub returned : list_lookup m l a create ≡ some (list, found)
  pub valid : IsValid max list
  pub free : found ≡ null → list.locked ≡ false

lookup_result :
    (m : Alloc) (l : PeerList) (a : Addr) (create : Bool)
    → l.locked ≡ false
    → (r : PeerList × Found) × (list_lookup m l a create ≡ some r)
      × (r.1 ≡ null → r.0.locked ≡ false)
unfolding list_lookup create_item
lookup_result m l a create h = elim (Option-cases (searched l a)) [
  | inr (p, e) ↦ ((move_front l p, known), ground arith, λ n. cc)
  | inl e ↦ ((if create then create_item m l a else (l, null)), ground arith, λ n. ground arith)
]

pub list_lookup-Answered :
    (max : ℕ) (m : Alloc) (l : PeerList) (a : Addr) (create : Bool)
    → IsSettled max l
    → Answered max m l a create
list_lookup-Answered max m l a create s =
    let (r, e, n) = lookup_result m l a create s.free in
    record {
      list = r.0;
      found = r.1;
      returned = e;
      valid =
          Looked-IsValid max m l a r.0 r.1 s.valid
            (list_lookup-Looked max m l a create r.0 r.1 s.valid e);
      free = n;
    }

-- Writing the peer at hand and releasing the lock settles the list.
pub release-IsSettled :
    (max : ℕ) (l : PeerList) (p : Peer)
    → IsValid max l
    → IsSettled max (list_release (put_peer l p))
unfolding list_release
release-IsSettled max l p v = record {
  valid = list_release-IsValid max (put_peer l p) (put_peer-IsValid max l p v);
  free = refl;
}

-- A list that has been destroyed: no item and no key is left, and no room for any.
record IsEmpty (l : PeerList) : Type 0 where
  recent : l.recent ≡ []
  old : l.old ≡ []
  root : l.root ≡ []
  left : l.left ≡ 0

-- From a valid list with its mutex free, `teredo_list_destroy` returns and leaves nothing.
list_destroy-IsEmpty :
    (max : ℕ) (l : PeerList)
    → IsSettled max l
    → (d : PeerList) × (list_destroy l ≡ some d) × IsEmpty d
unfolding list_destroy list_reset
list_destroy-IsEmpty max l s =
    (list_reset l 0, rw s.free refl, record { recent = refl; old = refl; root = refl; left = refl })
