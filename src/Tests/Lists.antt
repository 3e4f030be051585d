-- ===== src/Tests/Lists.antt =====
-- The theorems on peers and the peer list, tried.
use miredo.Prelude.{length, ◌+◌, ◌≤◌, ◌≡◌, refl, ◌≢◌, true, false, none, some, List, [], ◌∷◌, arith}
use miredo.Tests.{alice, bob, blank, memory, empty}
use miredo.Net.Addr.{addr_equal}
use miredo.Peer.Rate.{bubbles_sent, bubbles_sent-le}
use miredo.PeerList.{null, PeerList, known, list_create, list_lookup, collect}
use miredo.PeerList.Items.{keys, items}
use miredo.PeerList.Inv.{IsValid}
use miredo.PeerList.Calls.{Call, run, list_create-IsValid}
use miredo.PeerList.View.{view, Answers, Other, others, list_lookup-view, collect_keeps}

bubbles_sent-le_example : bubbles_sent blank (100 ∷ 103 ∷ 106 ∷ 109 ∷ 112 ∷ []) ≤ 4
bubbles_sent-le_example =
    bubbles_sent-le blank (100 ∷ 103 ∷ 106 ∷ 109 ∷ 112 ∷ []) 100 (omega arith) (omega arith)
      (omega arith)

abbrev calls : List Call
calls =
    Call.looks_up memory alice true
    ∷ Call.writes blank
    ∷ Call.releases
    ∷ Call.collects
    ∷ Call.resets 5
    ∷ []

created_empty : list_create true 2 30 ≡ some empty
unfolding list_create
created_empty = refl

list_create-IsValid_example :
    let s = run (record { list = empty; max = 2 }) calls in
    IsValid s.max s.list × (length s.list.recent + length s.list.old ≤ s.max)
list_create-IsValid_example = list_create-IsValid 2 30 empty calls (omega arith) created_empty

-- A list in which Alice is an old peer.
abbrev one : PeerList
one = record {
  recent = [];
  old = record { key = alice; peer = blank } ∷ [];
  left = 1;
  expiration = 30;
  root = alice ∷ [];
  locked = false;
}

abbrev one_found : PeerList
one_found = record {
  recent = record { key = alice; peer = blank } ∷ [];
  old = [];
  left = 1;
  expiration = 30;
  root = alice ∷ [];
  locked = true;
}

one-IsValid : IsValid 2 one
unfolding keys items
one-IsValid = record {
  agree = λ a. ground arith;
  once = λ a. ground arith;
  places = refl;
  small = omega arith;
}

one_lookup : list_lookup memory one alice true ≡ some (one_found, known)
unfolding list_lookup addr_equal
one_lookup = refl

alice_differs : addr_equal alice bob ≡ false
unfolding addr_equal
alice_differs = refl

bob_differs : addr_equal bob alice ≡ false
unfolding addr_equal
bob_differs = refl

list_lookup-view_example :
    Answers memory one alice one_found known × (view one_found bob ≡ view one bob)
list_lookup-view_example =
    list_lookup-view 2 memory one alice true one_found known bob one-IsValid one_lookup bob_differs

abbrev bob_calls : List Other
bob_calls = Other.looks_up memory bob true ∷ Other.writes blank ∷ Other.releases ∷ []

found_known : known ≢ null
found_known e = ground arith

collect_keeps_example : view (collect (others one_found bob_calls)) alice ≢ none
collect_keeps_example =
    collect_keeps 2 memory one alice true one_found known bob_calls one-IsValid one_lookup
      found_known (alice_differs, tt)
