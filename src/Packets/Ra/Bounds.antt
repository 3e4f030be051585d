-- ===== src/Packets/Ra/Bounds.antt =====
-- What `teredo_parse_ra` accepts.
use miredo.Prelude.Word.{Endian, u8}
use miredo.Prelude.{
  ◌==◌, Bool-cases, Option-cases, drop, ℕ, zero, suc, ◌-◌, ◌*◌, ◌%◌, ◌^◌, ◌≤◌, ◌<◌, ◌≡◌, refl, ◌⊎◌,
  inl, inr, Bool, true, none, some, List, arith,
}
use miredo.Net.Ip6.{ip6_plen}
use miredo.Net.Addr.{is_valid_teredo_prefix}
use miredo.Udp.{TeredoPacket}
use miredo.Packets.Ra.{
  rejected, unfinished, parse_ra, Options, Parse, parsed, parse_options, read_option,
  accept_options, Advert,
}

-- No MTU, or one that IPv6 allows.
abbrev pub MtuFits : ℕ → Type 0
MtuFits m = (m ≡ 0) ⊎ ((1280 ≤ m) × (m < 2 ^ 16))

read_option-MtuFits :
    (hdr : List ℕ) (optlen : ℕ) (o : Options) {o' : Options}
    → read_option hdr optlen o ≡ some o'
    → MtuFits o.net_mtu
    → MtuFits o'.net_mtu
unfolding read_option
read_option-MtuFits hdr optlen o h f = ground arith

parse_options-MtuFits :
    (fuel : ℕ) (hdr : List ℕ) (len : ℕ) (o o' : Options)
    → parse_options fuel hdr len o ≡ parsed o'
    → MtuFits o.net_mtu
    → MtuFits o'.net_mtu
unfolding parse_options
parse_options-MtuFits zero hdr len o o' h f = ground arith
parse_options-MtuFits (suc fuel) hdr len o o' h f =
    let optlen : ℕ = u8 hdr 1 * 8 in
    elim (Option-cases (read_option hdr optlen o)) [
      | inl none_read ↦ ground arith
      | inr (o1, read) ↦ ground (
        arith,
        read_option-MtuFits hdr optlen o read f,
        parse_options-MtuFits fuel (drop optlen hdr) (len - optlen) o1 o',
      )
    ]

-- What is accepted: a prefix that passes the check, and an MTU that IPv6 allows, if there is one.
pub accept_options-bounds :
    (e : Endian) (p : TeredoPacket) (cone : Bool) (o : Options) {a : Advert}
    → MtuFits o.net_mtu
    → accept_options e p cone o ≡ some a
    → (is_valid_teredo_prefix e a.addr.prefix ≡ true)
      × ((a.mtu ≡ none) ⊎ (m : ℕ) × (a.mtu ≡ some m) × (1280 ≤ m) × (m < 2 ^ 16))
unfolding accept_options
accept_options-bounds e p cone o f h = (
  ground arith,
  elim (Bool-cases (o.net_mtu == 0)) [
    | inl z ↦ inl (ground arith)
    | inr z ↦ inr (o.net_mtu % 2 ^ 16, ground arith, ground arith, ground arith)
  ],
)

pub parse_ra-bounds :
    (e : Endian) (stale : ℕ) (p : TeredoPacket) (cone : Bool) {a : Advert}
    → parse_ra e stale p cone ≡ some a
    → (is_valid_teredo_prefix e a.addr.prefix ≡ true)
      × ((a.mtu ≡ none) ⊎ (m : ℕ) × (a.mtu ≡ some m) × (1280 ≤ m) × (m < 2 ^ 16))
unfolding parse_ra
parse_ra-bounds e stale p cone {a} h =
    by_options (parse_options len hdr len o) (parse_options-MtuFits len hdr len o) (ground arith)
  where
    len : ℕ
    len = ip6_plen p.ip6 - 16

    hdr : List ℕ
    hdr = drop 56 p.ip6

    o : Options
    o = record { prefix = stale; server_ip = 0; net_mtu = 0 }

    by_options :
        (r : Parse)
        → ((o' : Options) → r ≡ parsed o' → MtuFits 0 → MtuFits o'.net_mtu)
        → (elim r [ parsed o' ↦ accept_options e p cone o' | rejected ↦ none | unfinished ↦ none ])
          ≡ some a
        → (is_valid_teredo_prefix e a.addr.prefix ≡ true)
          × ((a.mtu ≡ none) ⊎ (m : ℕ) × (a.mtu ≡ some m) × (1280 ≤ m) × (m < 2 ^ 16))
    by_options (parsed o') f k = accept_options-bounds e p cone o' (f o' refl (inl refl)) k
    by_options rejected f k = ground arith
    by_options unfinished f k = ground arith
