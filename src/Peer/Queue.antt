-- ===== src/Peer/Queue.antt =====
-- The packet queue of a peer.
use mathlib.Core.Bool.{false≢true}
use miredo.Prelude.{
  ltb, if◌then◌else◌, Option, none, some, refl, length, ℕ, ◌+◌, ◌≡◌, Bool, true, false, List, [],
  ◌∷◌, arith,
}
use miredo.Peer.{
  queue_yield, enqueue_out, enqueue_in, peer_init, Peer, Queued, peer_queue, max_queue_bytes,
}

abbrev pub queued_bytes : List Queued → ℕ
queued_bytes [] = 0
queued_bytes (q ∷ qs) = length q.payload + queued_bytes qs

-- The bytes in the queue and the room that is left make up the limit.
abbrev pub IsAccounted : Peer → Type 0
IsAccounted p = queued_bytes p.queue + p.queue_left ≡ max_queue_bytes

-- The same of a peer that there may be.
abbrev pub AreAccounted : Option Peer → Type 0
AreAccounted none = Unit {0}
AreAccounted (some p) = IsAccounted p

peer_queue-AreAccounted :
    (memory : Bool) (p : Peer) (bytes : List ℕ) (ip port : ℕ) (incoming : Bool)
    → IsAccounted p
    → AreAccounted (peer_queue memory p bytes ip port incoming)
unfolding peer_queue
peer_queue-AreAccounted memory p bytes ip port incoming h = ground arith

-- With memory, a packet is queued, or dropped if there is no room.
pub peer_queue-some :
    (memory : Bool) (p : Peer) (bytes : List ℕ) (ip port : ℕ) (incoming : Bool)
    → memory ≡ true
    → (q : Peer) × (peer_queue memory p bytes ip port incoming ≡ some q)
unfolding peer_queue
peer_queue-some memory p bytes ip port incoming h =
    by_room (ltb p.queue_left (length bytes)) memory p _ h
  where
    by_room :
        (full m : Bool) (x y : Peer)
        → m ≡ true
        → (q : Peer) × ((if full then some x else if m then some y else none) ≡ some q)
    by_room true m x y e = (x, refl)
    by_room false true x y e = (y, refl)
    by_room false false x y e = absurd (false≢true e)

-- What is done to a queue: a packet goes in from either side, with memory for it or not, or the queue
-- is emptied.
pub data QueueCall : Type 0 where
  enqueues_in : Bool → List ℕ → ℕ → ℕ → QueueCall
  enqueues_out : Bool → List ℕ → QueueCall
  yields : QueueCall

abbrev pub apply_call : Peer → QueueCall → Option Peer
apply_call p (enqueues_in m bytes ip port) = enqueue_in m p bytes ip port
apply_call p (enqueues_out m bytes) = enqueue_out m p bytes
apply_call p yields = some (queue_yield p).1

abbrev pub apply_calls : Peer → List QueueCall → Option Peer
apply_calls p [] = some p
apply_calls p (c ∷ cs) = elim (apply_call p c) [ none ↦ none | some q ↦ apply_calls q cs ]

apply_call-AreAccounted : (p : Peer) (c : QueueCall) → IsAccounted p → AreAccounted (apply_call p c)
unfolding enqueue_in enqueue_out queue_yield
apply_call-AreAccounted p (enqueues_in m bytes ip port) h =
    peer_queue-AreAccounted m p bytes ip port true h
apply_call-AreAccounted p (enqueues_out m bytes) h = peer_queue-AreAccounted m p bytes 0 0 false h
apply_call-AreAccounted p yields h = omega arith

apply_calls-AreAccounted :
    (cs : List QueueCall) (p : Peer) → IsAccounted p → AreAccounted (apply_calls p cs)
apply_calls-AreAccounted [] p h = h
apply_calls-AreAccounted (c ∷ cs) p h =
    after (apply_call p c) (apply_call-AreAccounted p c h) (λ q. apply_calls-AreAccounted cs q)
  where
    after :
        (o : Option Peer)
        → AreAccounted o
        → ((q : Peer) → IsAccounted q → AreAccounted (apply_calls q cs))
        → AreAccounted (elim o [ none ↦ none | some q ↦ apply_calls q cs ])
    after none k f = tt
    after (some q) k f = f q k

-- From a new peer on, whatever packets are queued and whenever the queue is emptied, the bytes in
-- the queue and the room left make up the limit of 1280, as long as there is memory.
peer_init-AreAccounted :
    (garbage : Peer) (cs : List QueueCall) → AreAccounted (apply_calls (peer_init garbage) cs)
unfolding peer_init
peer_init-AreAccounted garbage cs = apply_calls-AreAccounted cs (peer_init garbage) (omega arith)
