-- ===== src/Checksum/Order.antt =====
-- The checksum does not depend on the byte order of the host, and a message that carries it sums
-- to zero at the receiver.
use miredo.Prelude.Word.{Endian, host16, little, big}
use miredo.Prelude.{ℕ, ◌-◌, ◌≤◌, ◌<◌, ◌≡◌, refl, ap, ◌∙◌, false, List, [], ◌∷◌, arith}
use miredo.Checksum.{Acc, word_at, add_word, add_byte, add_bytes, finish, start, in_cksum}
use miredo.Checksum.Sum.{Bytes, concat, add_buffers-concat}

swap-add_word :
    (s x y : ℕ)
    → s ≤ 0xffff
    → x < 256
    → y < 256
    → (add_word (host16 little s) (word_at little x y)
        ≡ host16 little (add_word s (word_at big x y)))
      × (add_word s (word_at big x y) ≤ 0xffff)
unfolding add_word host16 word_at
swap-add_word s x y hs hx hy = ground arith

finish_swap :
    (s x : ℕ)
    → s ≤ 0xffff
    → x < 256
    → (host16 little (0xffff - host16 little s) ≡ 0xffff - s)
      × (host16 little (0xffff - add_word (host16 little s) (word_at little x 0))
          ≡ 0xffff - add_word s (word_at big x 0))
unfolding host16 add_word word_at
finish_swap s x hs hx = ground arith

abbrev acc : ℕ → ℕ → Acc
acc s f = record { sum = s; odd = false; first = f }

swap_loop :
    (bs : List ℕ) (s f : ℕ)
    → Bytes bs
    → s ≤ 0xffff
    → host16 little (finish little (add_bytes little (acc (host16 little s) f) bs))
      ≡ finish big (add_bytes big (acc s f) bs)
unfolding add_bytes add_byte finish
swap_loop [] s f b h = (finish_swap s 0 h (omega arith)).0
swap_loop (x ∷ []) s f b h = (finish_swap s x h b.0).1
swap_loop (x ∷ y ∷ r) s f b h =
    let q = swap-add_word s x y h b.0 b.1.0 in
    ap (λ (k : ℕ). host16 little (finish little (add_bytes little (acc k x) r))) q.0
    ∙ swap_loop r (add_word s (word_at big x y)) x b.1.1 q.1

-- The checksum has the same bytes in memory on hosts of either byte order: the sum that a
-- little-endian host makes of its own readings of the words, swapped, is that of a big-endian host.
pub in_cksum-host16 :
    (e : Endian) (iov : List (List ℕ))
    → Bytes (concat iov)
    → host16 e (in_cksum e iov) ≡ in_cksum big iov
unfolding in_cksum host16
in_cksum-host16 big iov b = refl
in_cksum-host16 little iov b =
    rw (add_buffers-concat little start iov, add_buffers-concat big start iov)
      (swap_loop (concat iov) 0 0 b (omega arith))
