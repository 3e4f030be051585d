-- ===== src/Security/Key.antt =====
-- How the key of `teredo_init_HMAC` is read from the random device.
use miredo.Prelude.{
  length, replicate, drop-replicate, ℕ, ◌+◌, ◌-◌, ◌≤◌, ◌<◌, ◌≡◌, some, List, [], ◌∷◌, ◌++◌, arith,
}
use miredo.Security.{read_key, write_at}

-- Whatever the first successful read delivers, the loop ends with it: the counter goes below zero.
-- After a short read the rest of the key keeps the zeros of the block, and no later read fills it.
pub read_key_short :
    (r : List ℕ) (rs : List (List ℕ))
    → 0 < length r
    → length r ≤ 16
    → read_key (r ∷ rs) 0 (replicate 64 0) ≡ some (r ++ replicate (64 - length r) 0)
unfolding read_key write_at
read_key_short r [] h k = ground (arith, drop-replicate {A = ℕ} (0 + length r) 64 0)
read_key_short r (q ∷ rs) h k = ground (arith, drop-replicate {A = ℕ} (0 + length r) 64 0)
