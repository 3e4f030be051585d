-- ===== src/Packets/Ra/Scan.antt =====
-- The loop of `teredo_parse_ra` over the options of an advertisement.
use miredo.Prelude.Word.{u8, u32}
use miredo.Prelude.{
  ltb, ◌==◌, if◌then◌else◌, Option-cases, drop, ℕ, zero, suc, ◌-◌, ◌*◌, ◌≤◌, ◌≢◌, inl, inr, not,
  ◌||◌, Option, none, some, List, arith,
}

-- What the loop has found: the first half of the address, and the MTU or 0.
pub record Options : Type 0 where
  pub prefix : ℕ
  pub server_ip : ℕ
  pub net_mtu : ℕ

-- The end of the loop: the return of -1, or what was found. `unfinished`: no fuel is left.
pub data Parse : Type 0 where
  rejected : Parse
  parsed : Options → Parse
  unfinished : Parse

-- One option of `optlen` bytes at the front of `hdr`; `none` is the return of -1. Types 3 and 5 are
-- ND_OPT_PREFIX_INFORMATION and ND_OPT_MTU.
unfoldable pub read_option : List ℕ → ℕ → Options → Option Options
read_option hdr optlen o =
    if u8 hdr 0 == 3
    then (if ltb optlen 32 || not (u8 hdr 2 == 64)
        then none
        else if not (o.server_ip == 0)
        then none
        else some (record o { prefix = u32 hdr 16; server_ip = u32 hdr 20 }))
    else if u8 hdr 0 == 5
    then (if ltb (u32 hdr 4) 1280 || ltb 65535 (u32 hdr 4)
        then none
        else some (record o { net_mtu = u32 hdr 4 }))
    else some o

-- The loop, on fuel; a round takes at least 8 of the `len` bytes that are left.
unfoldable pub parse_options : ℕ → List ℕ → ℕ → Options → Parse
parse_options zero hdr len o = if ltb len 8 then parsed o else unfinished
parse_options (suc fuel) hdr len o =
    let optlen = u8 hdr 1 * 8 in
    let rest = λ (o' : Options). parse_options fuel (drop optlen hdr) (len - optlen) o' in
    if ltb len 8
    then parsed o
    else if ltb len optlen || optlen == 0
    then rejected
    else elim (read_option hdr optlen o) [ none ↦ rejected | some o' ↦ rest o' ]

-- Fuel for the bytes that are left is enough.
pub parse_options-finishes :
    (fuel : ℕ) (hdr : List ℕ) (len : ℕ) (o : Options)
    → len ≤ fuel
    → parse_options fuel hdr len o ≢ unfinished
unfolding parse_options
parse_options-finishes zero hdr len o h e = ground arith
parse_options-finishes (suc fuel) hdr len o h e =
    let optlen : ℕ = u8 hdr 1 * 8 in
    elim (Option-cases (read_option hdr optlen o)) [
      | inl none_read ↦ ground arith
      | inr (o', read) ↦
          ground (arith, parse_options-finishes fuel (drop optlen hdr) (len - optlen) o')
    ]
