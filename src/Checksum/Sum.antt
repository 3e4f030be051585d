-- ===== src/Checksum/Sum.antt =====
-- What the checksum loop computes, whatever way the bytes are cut into buffers.
use miredo.Prelude.Word.{Endian, big}
use miredo.Prelude.{
  ℕ, ◌+◌, ◌-◌, ◌*◌, ◌/◌, ◌%◌, ◌^◌, ◌≤◌, ◌<◌, min, ◌≡◌, refl, sym, ap, subst, ◌∙◌, false, List, [],
  ◌∷◌, ◌++◌, append-nil, arith,
}
use miredo.Checksum.{
  Acc, word_at, add_word, add_byte, add_bytes, add_buffers, finish, start, in_cksum,
}

abbrev pub concat : List (List ℕ) → List ℕ
concat [] = []
concat (b ∷ bs) = b ++ concat bs

add_bytes-append :
    (e : Endian) (a : Acc) (xs ys : List ℕ)
    → add_bytes e a (xs ++ ys) ≡ add_bytes e (add_bytes e a xs) ys
unfolding add_bytes
add_bytes-append e a [] ys = refl
add_bytes-append e a (x ∷ xs) ys = add_bytes-append e (add_byte e a x) xs ys

pub add_buffers-concat :
    (e : Endian) (a : Acc) (iov : List (List ℕ)) → add_buffers e a iov ≡ add_bytes e a (concat iov)
unfolding add_buffers add_bytes
add_buffers-concat e a [] = refl
add_buffers-concat e a (b ∷ bs) =
    add_buffers-concat e (add_bytes e a b) bs ∙ sym (add_bytes-append e a b (concat bs))

-- The bytes, taken two at a time as 16-bit words in network byte order, the last one padded.
abbrev pub word_sum : List ℕ → ℕ
word_sum [] = 0
word_sum (x ∷ []) = x * 2 ^ 8
word_sum (x ∷ y ∷ r) = x * 2 ^ 8 + y + word_sum r

abbrev pub Bytes : List ℕ → Type 0
Bytes [] = Unit {0}
Bytes (x ∷ xs) = (x < 256) × Bytes xs

-- A sum of words folded to 16 bits by the end-around carry; it is 0 only for 0.
abbrev pub fold16 : ℕ → ℕ
fold16 n = min n ((n + 0xfffe) % 0xffff + 1)

add_word-fold16 : (n w : ℕ) → w ≤ 0xffff → add_word (fold16 n) w ≡ fold16 (n + w)
unfolding add_word
add_word-fold16 n w k = ground arith

abbrev acc : ℕ → ℕ → Acc
acc s f = record { sum = s; odd = false; first = f }

sum_loop :
    (bs : List ℕ) (n f : ℕ)
    → Bytes bs
    → finish big (add_bytes big (acc (fold16 n) f) bs) ≡ 0xffff - fold16 (n + word_sum bs)
unfolding add_bytes add_byte finish word_at
sum_loop [] n f b = omega arith
sum_loop (x ∷ []) n f b =
    ap (λ (k : ℕ). 0xffff - k)
      (add_word-fold16 n (x * 2 ^ 8 + 0) (omega arith) ∙ ap fold16 (omega arith))
sum_loop (x ∷ y ∷ r) n f b =
    ap (λ (k : ℕ). finish big (add_bytes big (acc k x) r))
      (add_word-fold16 n (x * 2 ^ 8 + y) (omega arith))
    ∙ sum_loop r (n + (x * 2 ^ 8 + y)) x b.1.1
    ∙ ap (λ (k : ℕ). 0xffff - fold16 k) regroup
  where
    regroup : n + (x * 2 ^ 8 + y) + word_sum r ≡ n + (x * 2 ^ 8 + y + word_sum r)
    regroup = omega arith

-- On a big-endian host `in_cksum` is the complement of the sum of all 16-bit words of the
-- concatenated buffers, the last one padded, folded to 16 bits; however the buffers are cut.
pub in_cksum-fold16 :
    (iov : List (List ℕ))
    → Bytes (concat iov)
    → in_cksum big iov ≡ 0xffff - fold16 (word_sum (concat iov))
unfolding in_cksum
in_cksum-fold16 iov b =
    ap (finish big) (add_buffers-concat big start iov)
    ∙ sum_loop (concat iov) 0 0 b
    ∙ ap (λ (k : ℕ). 0xffff - fold16 k) (omega arith)

-- The number of bytes is even.
abbrev pub IsEven : List ℕ → Type 0
IsEven [] = Unit {0}
IsEven (x ∷ []) = ⊥
IsEven (x ∷ y ∷ r) = IsEven r

word_sum-append : (xs ys : List ℕ) → IsEven xs → word_sum (xs ++ ys) ≡ word_sum xs + word_sum ys
word_sum-append [] ys h = omega arith
word_sum-append (x ∷ []) ys h = absurd h
word_sum-append (x ∷ y ∷ r) ys h = omega (arith, word_sum-append r ys h)

Bytes-append : (xs ys : List ℕ) → Bytes xs → Bytes ys → Bytes (xs ++ ys)
Bytes-append [] ys h k = k
Bytes-append (x ∷ xs) ys h k = (h.0, Bytes-append xs ys h.1 k)

in_cksum-single : (m : List ℕ) → Bytes m → in_cksum big (m ∷ []) ≡ 0xffff - fold16 (word_sum m)
in_cksum-single m b =
    in_cksum-fold16 (m ∷ []) (subst Bytes (sym (append-nil m)) b)
    ∙ ap (λ (k : List ℕ). 0xffff - fold16 (word_sum k)) (append-nil m)

-- A message whose checksum field, at an even offset, holds the checksum of the message with that
-- field zero, has checksum 0 at the receiver, if any other word of it is not zero.
pub in_cksum_verifies :
    (pre post : List ℕ)
    → Bytes pre
    → Bytes post
    → IsEven pre
    → 0 < word_sum pre + word_sum post
    → let c = in_cksum big ((pre ++ (0 ∷ 0 ∷ post)) ∷ []) in
      in_cksum big ((pre ++ (c / 2 ^ 8 ∷ c % 2 ^ 8 ∷ post)) ∷ []) ≡ 0
in_cksum_verifies pre post bpre bpost even h =
    let c : ℕ = in_cksum big ((pre ++ (0 ∷ 0 ∷ post)) ∷ []) in
    let ec : c ≡ 0xffff - fold16 (word_sum (pre ++ (0 ∷ 0 ∷ post))) =
      in_cksum-single (pre ++ (0 ∷ 0 ∷ post))
        (Bytes-append pre (0 ∷ 0 ∷ post) bpre (omega arith, (omega arith, bpost))) in
    let tail : List ℕ = c / 2 ^ 8 ∷ c % 2 ^ 8 ∷ post in
    let bt : Bytes tail = (omega arith, (omega arith, bpost)) in
    omega (
      arith,
      ec,
      in_cksum-single (pre ++ tail) (Bytes-append pre tail bpre bt),
      word_sum-append pre (0 ∷ 0 ∷ post) even,
      word_sum-append pre tail even,
    )
