-- ===== src/Net/Ipv4/Ranges.antt =====
-- The networks that `is_ipv4_global_unicast` excludes, as ranges of addresses.
use miredo.Prelude.{
  ℕ, ◌≤◌, ◌<◌, ◌+◌, ◌≡◌, ◌^◌, ◌*◌, Bool, true, false, ◌&&◌, ◌||◌, not, List, [], ◌∷◌, arith, leb,
  dec_lt,
}
use miredo.Net.Ipv4.{is_ipv4_global_unicast}

-- The first and the last address of each excluded network, in dotted notation: 0.0.0.0/8,
-- 10.0.0.0/8, 127.0.0.0/8, 169.254.0.0/16, 172.16.0.0/12, 192.88.98.0/24, 192.168.0.0/16,
-- 224.0.0.0/4 (multicast) and 255.255.255.255 (broadcast).
abbrev pub forbidden : List (ℕ × ℕ)
forbidden =
    (0x00000000, 0x00ffffff)
    ∷ (0x0a000000, 0x0affffff)
    ∷ (0x7f000000, 0x7fffffff)
    ∷ (0xa9fe0000, 0xa9feffff)
    ∷ (0xac100000, 0xac1fffff)
    ∷ (0xc0586200, 0xc05862ff)
    ∷ (0xc0a80000, 0xc0a8ffff)
    ∷ (0xe0000000, 0xefffffff)
    ∷ (0xffffffff, 0xffffffff)
    ∷ []

-- Whether an address lies in one of the ranges.
abbrev pub in_ranges : ℕ → List (ℕ × ℕ) → Bool
in_ranges ip [] = false
in_ranges ip ((lo, hi) ∷ rs) = leb lo ip && leb ip hi || in_ranges ip rs

abbrev AsListed : ℕ → Type 0
AsListed ip = is_ipv4_global_unicast ip ≡ not (in_ranges ip forbidden)

class_a_low : (ip : ℕ) → ip < 0x0b000000 → AsListed ip
unfolding is_ipv4_global_unicast
class_a_low ip h = ground arith

class_a_high : (ip : ℕ) → 0x0b000000 ≤ ip → ip < 2 ^ 31 → AsListed ip
unfolding is_ipv4_global_unicast
class_a_high ip h h' = ground arith

class_a : (ip : ℕ) → ip < 2 ^ 31 → AsListed ip
class_a ip h = elim (dec_lt ip 0x0b000000) [
  | yes low ↦ class_a_low ip low
  | no high ↦ class_a_high ip (omega arith) h
]

class_b : (ip : ℕ) → 2 ^ 31 ≤ ip → ip < 3 * 2 ^ 30 → AsListed ip
unfolding is_ipv4_global_unicast
class_b ip h h' = ground arith

class_c : (ip : ℕ) → 3 * 2 ^ 30 ≤ ip → ip < 7 * 2 ^ 29 → AsListed ip
unfolding is_ipv4_global_unicast
class_c ip h h' = ground arith

class_d : (ip : ℕ) → 7 * 2 ^ 29 ≤ ip → ip < 2 ^ 32 → AsListed ip
unfolding is_ipv4_global_unicast
class_d ip h h' = ground arith

-- An IPv4 address is global unicast for `is_ipv4_global_unicast` exactly when it lies in none of
-- the listed ranges.
pub global_unicast-in_ranges :
    (ip : ℕ) → ip < 2 ^ 32 → is_ipv4_global_unicast ip ≡ not (in_ranges ip forbidden)
global_unicast-in_ranges ip h = elim (dec_lt ip (2 ^ 31)) [
  | yes a ↦ class_a ip a
  | no na ↦ elim (dec_lt ip (3 * 2 ^ 30)) [
    | yes b ↦ class_b ip (omega arith) b
    | no nb ↦ elim (dec_lt ip (7 * 2 ^ 29)) [
      | yes c ↦ class_c ip (omega arith) c
      | no nc ↦ class_d ip (omega arith) h
    ]
  ]
]

-- The 6to4 relay network 192.88.99.0/24, which the comment in the code names among the forbidden
-- ones, is taken for global unicast; the network below it, 192.88.98.0/24, is refused.
pub global_unicast_6to4 :
    (d : ℕ)
    → d < 256
    → (is_ipv4_global_unicast (0xc0586300 + d) ≡ true)
      × (is_ipv4_global_unicast (0xc0586200 + d) ≡ false)
unfolding is_ipv4_global_unicast
global_unicast_6to4 d h = ground arith
