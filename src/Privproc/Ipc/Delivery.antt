-- ===== src/Privproc/Ipc/Delivery.antt =====
-- A message that `miredo_send` has passed whole is the one that `miredo_recv` gives, however the
-- stream cuts it.
use miredo.Prelude.{
  false, sym, ◌∙◌, subst, length-append, inr, ap, inl, drop, Option-cases, take, suc, ℕ, length,
  ◌==◌, ◌≤◌, ◌-◌, zero, suc, ap, take, drop, Option-cases, ◌≡◌, refl, true, some, List, [], ◌∷◌,
  ◌++◌, arith,
}
use miredo.Privproc.Ipc.{
  Sent, Received, interrupted, failed, took, gave, Passed, passed_first, miredo_send, miredo_recv,
}

-- The bytes that the calls of `recv` give before the stream fails or ends.
abbrev pub arrived : List Received → List ℕ
arrived [] = []
arrived (interrupted ∷ calls) = arrived calls
arrived (failed ∷ calls) = []
arrived (gave [] ∷ calls) = []
arrived (gave (y ∷ ys) ∷ calls) = (y ∷ ys) ++ arrived calls

-- No call of `recv` gives more than it was asked for, with so many bytes left to receive.
abbrev pub Within : ℕ → List Received → Type 0
Within zero calls = Unit {0}
Within (suc n) [] = Unit {0}
Within (suc n) (interrupted ∷ calls) = Within (suc n) calls
Within (suc n) (failed ∷ calls) = Unit {0}
Within (suc n) (gave ys ∷ calls) = (length ys ≤ suc n) × Within (suc n - length ys) calls

record IsCut (ys zs b more : List ℕ) : Type 0 where
  back : List ℕ
  whole : b ≡ ys ++ back
  after : zs ≡ back ++ more

head_eq : {x y : ℕ} {xs ys : List ℕ} → x ∷ xs ≡ y ∷ ys → (x ≡ y) × (xs ≡ ys)
head_eq e = ground arith

append-IsCut :
    (ys zs b more : List ℕ) → ys ++ zs ≡ b ++ more → length ys ≤ length b → IsCut ys zs b more
append-IsCut [] zs b more e h = record { back = b; whole = refl; after = e }
append-IsCut (y ∷ ys) zs [] more e h = absurd (omega arith)
append-IsCut (y ∷ ys) zs (x ∷ b) more e h =
    let r = append-IsCut ys zs b more (head_eq e).1 (omega arith) in
    record { back = r.back; whole = ground (arith, (head_eq e).0, r.whole); after = r.after }

take-drop : (n : ℕ) (xs : List ℕ) → take n xs ++ drop n xs ≡ xs
take-drop zero xs = refl
take-drop (suc n) [] = refl
take-drop (suc n) (x ∷ xs) = ap (◌∷◌ x) (take-drop n xs)

-- What is passed is the message, if true is returned.
miredo_send_whole :
    (b : List ℕ) (calls : List Sent) (r : Passed Sent)
    → miredo_send b calls ≡ some r
    → r.ok ≡ true
    → r.bytes ≡ b
unfolding miredo_send
miredo_send_whole [] calls r e h = ground arith
miredo_send_whole (x ∷ xs) [] r e h = absurd (ground arith)
miredo_send_whole (x ∷ xs) (interrupted ∷ calls) r e h = miredo_send_whole (x ∷ xs) calls r e h
miredo_send_whole (x ∷ xs) (failed ∷ calls) r e h = absurd (ground arith)
miredo_send_whole (x ∷ xs) (took l ∷ calls) r e h =
    elim (Option-cases (miredo_send (drop l (x ∷ xs)) calls)) [
      | inl k ↦ absurd (ground arith)
      | inr (r', k) ↦
          ground (arith, miredo_send_whole (drop l (x ∷ xs)) calls r' k, take-drop l (x ∷ xs))
    ]

pub record IsReceived (b more : List ℕ) (calls : List Received) : Type 0 where
  pub result : Passed Received
  pub returns : miredo_recv (length b) calls ≡ some result
  pub ok : result.ok ≡ true
  pub bytes : result.bytes ≡ b
  pub rest : arrived result.rest ≡ more

suc_not_zero : (n : ℕ) → (suc n == 0) ≡ false
suc_not_zero n = ground arith

miredo_recv-gave :
    (n y : ℕ) (ys : List ℕ) (calls : List Received)
    → miredo_recv (suc n) (gave (y ∷ ys) ∷ calls)
      ≡ passed_first (y ∷ ys) (miredo_recv (suc n - length (y ∷ ys)) calls)
unfolding miredo_recv
miredo_recv-gave n y ys calls = rw (suc_not_zero (length ys)) refl

-- A message whose bytes arrive is received.
miredo_recv_whole :
    (b more : List ℕ) (calls : List Received)
    → arrived calls ≡ b ++ more
    → Within (length b) calls
    → IsReceived b more calls
unfolding miredo_recv
miredo_recv_whole [] more calls e h = record {
  result = _;
  returns = refl;
  ok = refl;
  bytes = refl;
  rest = e;
}
miredo_recv_whole (x ∷ b) more [] e h = absurd (ground arith)
miredo_recv_whole (x ∷ b) more (interrupted ∷ calls) e h =
    let r = miredo_recv_whole (x ∷ b) more calls e h in
    record { result = r.result; returns = r.returns; ok = r.ok; bytes = r.bytes; rest = r.rest }
miredo_recv_whole (x ∷ b) more (failed ∷ calls) e h = absurd (ground arith)
miredo_recv_whole (x ∷ b) more (gave [] ∷ calls) e h = absurd (ground arith)
miredo_recv_whole (x ∷ b) more (gave (y ∷ ys) ∷ calls) e h =
    let cut = append-IsCut (y ∷ ys) (arrived calls) (x ∷ b) more e h.0 in
    let left : length (x ∷ b) - length (y ∷ ys) ≡ length cut.back =
      ground (arith, ap length cut.whole, length-append (y ∷ ys) cut.back) in
    let r =
      miredo_recv_whole cut.back more calls cut.after (subst (λ n. Within n calls) left h.1) in
    record {
      result = record r.result { bytes = (y ∷ ys) ++ r.result.bytes };
      returns =
          miredo_recv-gave (length b) y ys calls
          ∙ ap (passed_first (y ∷ ys)) (ap (λ n. miredo_recv n calls) left ∙ r.returns);
      ok = r.ok;
      bytes = ap (◌++◌ (y ∷ ys)) r.bytes ∙ sym cut.whole;
      rest = r.rest;
    }

-- When `miredo_send` returns true for a message, and its bytes and others behind it arrive at the other
-- end before the stream fails, in pieces none of which is more than was asked for, `miredo_recv` for the
-- length of the message returns true with the message, and leaves the others to the calls that follow.
pub miredo_recv-miredo_send :
    (b more : List ℕ) (sends : List Sent) (r : Passed Sent) (calls : List Received)
    → miredo_send b sends ≡ some r
    → r.ok ≡ true
    → arrived calls ≡ r.bytes ++ more
    → Within (length b) calls
    → IsReceived b more calls
miredo_recv-miredo_send b more sends r calls e ok a w =
    miredo_recv_whole b more calls (a ∙ ap (λ s. s ++ more) (miredo_send_whole b sends r e ok)) w
