-- ===== src/PeerList/View.antt =====
-- The peer list as a dictionary from addresses to peers, and which peers the collector drops.
use miredo.Prelude.{
  Option-cases, ℕ, ◌<◌, ◌≡◌, refl, sym, ap, subst, ◌∙◌, ◌≢◌, inl, inr, Bool, true, false, Option,
  none, some, List, [], ◌∷◌, ◌++◌, arith,
}
use miredo.PeerList.Calls.{items-set_first}
use miredo.Net.Addr.{addr_equal_refl, Addr, addr_equal}
use miredo.Peer.{Peer, peer_init}
use miredo.PeerList.Items.{
  find_item-none, find_item_absent, find_item-some, items-unlink, items, find_item-append,
  find_item-unlink,
}
use miredo.PeerList.Inv.{
  create_item_cases, searched, list_lookup-Looked, with_new, IsValid, given_up, Looked, absent,
  refused, added, hit,
}
use miredo.PeerList.{
  create_item, collect, list_release, put_peer, list_lookup, PeerList, Item, Alloc, Found, null,
  known, created, find_item, unlink, move_front, get_peer,
}

-- The peer that the list holds for an address.
abbrev pub view : PeerList → Addr → Option Peer
view l a = elim (find_item a (l.recent ++ l.old)) [ none ↦ none | some x ↦ some x.peer ]

-- What a lookup says of the address it was given: nothing there before and after; or the peer that
-- was there; or a new peer, where there was none. A peer found or made is the one that the
-- returned pointer shows, and the lock is held exactly then.
abbrev pub Answers : Alloc → PeerList → Addr → PeerList → Found → Type 0
Answers m l a l' null = (view l a ≡ none) × (view l' a ≡ none) × (l'.locked ≡ l.locked)
Answers m l a l' known =
    (view l a ≡ some (get_peer l' m.garbage)) × (view l' a ≡ view l a) × (l'.locked ≡ true)
Answers m l a l' created =
    (view l a ≡ none)
    × (view l' a ≡ some (peer_init m.garbage))
    × (get_peer l' m.garbage ≡ peer_init m.garbage)
    × (l'.locked ≡ true)

view-move_front :
    (l : PeerList) (x : Item) (b : Addr)
    → addr_equal b x.key ≡ false
    → find_item b ((move_front l x).recent ++ (move_front l x).old)
      ≡ find_item b (l.recent ++ l.old)
unfolding move_front find_item
view-move_front l x b h = ground (
  arith,
  find_item-append b l.recent l.old,
  find_item-append b (unlink x.key l.recent) (unlink x.key l.old),
  find_item-unlink b x.key l.recent h,
  find_item-unlink b x.key l.old h,
)

Looked-others :
    (m : Alloc) (l : PeerList) (a : Addr) (l' : PeerList) (f : Found) (b : Addr)
    → addr_equal b a ≡ false
    → Looked m l a l' f
    → find_item b (l'.recent ++ l'.old) ≡ find_item b (l.recent ++ l.old)
unfolding find_item
Looked-others m l a l' f b h (absent e p q) = ap (λ k. find_item b (k.recent ++ k.old)) p
Looked-others m l a l' f b h (refused e p q) = ap (λ k. find_item b (k.recent ++ k.old)) p
Looked-others m l a l' f b h (added e room p q) =
    ap (λ k. find_item b (k.recent ++ k.old)) p ∙ ground arith
Looked-others m l a l' f b h (hit x k e p q) =
    ap (λ k. find_item b (k.recent ++ k.old)) p
    ∙ view-move_front l x b (subst (λ c. addr_equal b c ≡ false) (sym k) h)

Answers-at :
    (m : Alloc) (l : PeerList) (a : Addr) (k l' : PeerList) (g f : Found)
    → l' ≡ k
    → f ≡ g
    → Answers m l a k g
    → Answers m l a l' f
Answers-at m l a k l' g f p q h =
    subst (λ x. Answers m l a x f) (sym p) (subst (Answers m l a k) (sym q) h)

pub Looked-Answers :
    (m : Alloc) (l : PeerList) (a : Addr) (l' : PeerList) (f : Found)
    → Looked m l a l' f
    → Answers m l a l' f
unfolding find_item get_peer move_front
Looked-Answers m l a l' f (absent e p q) =
    Answers-at m l a l l' null f p q (ground arith, ground arith, refl)
Looked-Answers m l a l' f (refused e p q) =
    Answers-at m l a (given_up l a) l' null f p q (ground arith, ground arith, refl)
Looked-Answers m l a l' f (added e room p q) =
    Answers-at m l a (with_new m l a) l' created f p q
      (ground arith, ground (arith, addr_equal_refl a), refl, refl)
Looked-Answers m l a l' f (hit x k e p q) =
    Answers-at m l a (move_front l x) l' known f p q
      (ground arith, ground (arith, addr_equal_refl a), refl)

-- A lookup that returns, on a valid list, answers from the dictionary, and leaves it as it was at
-- every other address.
pub list_lookup-view :
    (max : ℕ) (m : Alloc) (l : PeerList) (a : Addr) (create : Bool) (l' : PeerList) (f : Found)
    (b : Addr)
    → IsValid max l
    → list_lookup m l a create ≡ some (l', f)
    → addr_equal b a ≡ false
    → Answers m l a l' f × (view l' b ≡ view l b)
list_lookup-view max m l a create l' f b v e h =
    let k : Looked m l a l' f = list_lookup-Looked max m l a create l' f v e in
    (
      Looked-Answers m l a l' f k,
      ap (λ o. elim o [ none ↦ none | some x ↦ some x.peer ]) (Looked-others m l a l' f b h k),
    )

-- What the users of a list do between two rounds of the collector without looking `a` up.
pub data Other : Type 0 where
  looks_up : Alloc → Addr → Bool → Other
  writes : Peer → Other
  releases : Other

abbrev pub other : PeerList → Other → PeerList
other l (looks_up m b create) = elim (list_lookup m l b create) [ none ↦ l | some (l', f) ↦ l' ]
other l (writes p) = put_peer l p
other l releases = list_release l

abbrev pub others : PeerList → List Other → PeerList
others l [] = l
others l (c ∷ cs) = others (other l c) cs

-- None of the calls looks `a` up.
abbrev pub Spares : Addr → List Other → Type 0
Spares a [] = Unit {0}
Spares a (looks_up m b create ∷ cs) = (addr_equal a b ≡ false) × Spares a cs
Spares a (writes p ∷ cs) = Spares a cs
Spares a (releases ∷ cs) = Spares a cs

kept_moved :
    (l : PeerList) (p : Item) (a b : Addr)
    → p.key ≡ b
    → addr_equal a b ≡ false
    → items a (move_front l p).recent ≡ items a l.recent
unfolding move_front items
kept_moved l p a b k h = ground (arith, items-unlink a p.key l.recent)

kept_created :
    (m : Alloc) (l : PeerList) (a b : Addr)
    → addr_equal a b ≡ false
    → items a (create_item m l b).0.recent ≡ items a l.recent
unfolding items
kept_created m l a b h = elim (create_item_cases m l b) [
  | inl e ↦ ap (λ r. items a r.0.recent) e
  | inr (inl (e, room)) ↦ ap (λ r. items a r.0.recent) e ∙ ground arith
  | inr (inr e) ↦ ap (λ r. items a r.0.recent) e
]

searched_key : (l : PeerList) (b : Addr) (p : Item) → searched l b ≡ some p → p.key ≡ b
searched_key l b p e = (find_item-some b (l.recent ++ l.old) p (ground arith)).0

kept_lookup :
    (m : Alloc) (l : PeerList) (a b : Addr) (create : Bool)
    → addr_equal a b ≡ false
    → items a (other l (looks_up m b create)).recent ≡ items a l.recent
unfolding list_lookup
kept_lookup m l a b create h = elim (Option-cases (searched l b)) [
  | inl e ↦ ground (arith, kept_created m l a b h)
  | inr (p, e) ↦ ground (arith, kept_moved l p a b (searched_key l b p e) h)
]

-- Calls that spare `a` neither put it among the recent peers nor take it out.
kept_others :
    (cs : List Other) (l : PeerList) (a : Addr)
    → Spares a cs
    → items a (others l cs).recent ≡ items a l.recent
unfolding put_peer list_release
kept_others [] l a s = refl
kept_others (looks_up m b create ∷ cs) l a s =
    kept_others cs (other l (looks_up m b create)) a s.1 ∙ kept_lookup m l a b create s.0
kept_others (writes p ∷ cs) l a s = kept_others cs (put_peer l p) a s ∙ items-set_first a p l.recent
kept_others (releases ∷ cs) l a s = kept_others cs (list_release l) a s

-- A peer that nobody looks up between two rounds of the collector is gone after the second.
pub collect_drops :
    (l : PeerList) (cs : List Other) (a : Addr)
    → Spares a cs
    → view (collect (others (collect l) cs)) a ≡ none
unfolding collect items
collect_drops l cs a s =
    let gone : items a (others (collect l) cs).recent ≡ 0 = kept_others cs (collect l) a s in
    ground (arith, find_item_absent a (others (collect l) cs).recent gone)

first_of_Looked :
    (m : Alloc) (l : PeerList) (a : Addr) (l' : PeerList) (f : Found)
    → Looked m l a l' f
    → f ≢ null
    → 0 < items a l'.recent
unfolding items move_front
first_of_Looked m l a l' f (absent e p q) n = absurd (n q)
first_of_Looked m l a l' f (refused e p q) n = absurd (n q)
first_of_Looked m l a l' f (added e room p q) n = ground (arith, addr_equal_refl a)
first_of_Looked m l a l' f (hit x k e p q) n = ground (arith, addr_equal_refl a)

-- A peer that a lookup has returned is still there after the next round of the collector, whatever
-- is done with other peers in between.
pub collect_keeps :
    (max : ℕ) (m : Alloc) (l : PeerList) (a : Addr) (create : Bool) (l' : PeerList) (f : Found)
    (cs : List Other)
    → IsValid max l
    → list_lookup m l a create ≡ some (l', f)
    → f ≢ null
    → Spares a cs
    → view (collect (others l' cs)) a ≢ none
unfolding collect
collect_keeps max m l a create l' f cs v e n s gone =
    let here : 0 < items a l'.recent =
      first_of_Looked m l a l' f (list_lookup-Looked max m l a create l' f v e) n in
    let kept : items a (others l' cs).recent ≡ items a l'.recent = kept_others cs l' a s in
    let lost : find_item a (others l' cs).recent ≡ none = ground arith in
    absurd (omega (arith, here, kept, find_item-none a (others l' cs).recent lost))
