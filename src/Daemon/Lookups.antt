-- ===== src/Daemon/Lookups.antt =====
-- The lookups of src/conf.c, as src/relayd.c and src/checkconf.c put them together.
use miredo.Prelude.{
  ℕ, Bool, true, false, not, Option, none, some, List, ◌++◌, ◌≡◌, refl, ap, sym, ◌∙◌, arith,
}
use mathlib.Core.Bool.{false≢true}
use miredo.Conf.{Setting, MiredoConf, Step, get}
use miredo.Conf.Values.{Resolver, get_int16, parse_ipv4}
use miredo.Daemon.Names.{bind_address, bind_port, interface_name}
use miredo.Daemon.{
  value_of, Mode, cone, restrict, client, mode_of, RelayConf, bind_conf, both, check_mode,
}

-- Whether there is a value.
abbrev pub is_some : {A : Type 0} → Option A → Bool
is_some none = false
is_some (some a) = true

-- A result that two lookups give together.
pub both-is_some :
    {A B : Type 0} (s : Step (Option A)) (f : MiredoConf → Step (Option B))
    → (both s f).result ≡ true
    → (is_some s.result ≡ true)
      × (is_some (f s.conf).result ≡ true)
      × ((both s f).conf ≡ (f s.conf).conf)
unfolding both
both-is_some {A} {B} s f h = by_first s.result (f s.conf) h
  where
    by_second : (o : Option B) → (elim o [ none ↦ false | some b ↦ true ]) ≡ true → is_some o ≡ true
    by_second none k = k
    by_second (some b) k = refl

    by_first :
        (o : Option A) (t : Step (Option B))
        → let r : Step Bool = elim o [
          | none ↦ record { conf = s.conf; log = s.log; result = false }
          | some a ↦ record {
            conf = t.conf;
            log = s.log ++ t.log;
            result = elim t.result [ none ↦ false | some b ↦ true ];
          }
        ] in
          r.result ≡ true → (is_some o ≡ true) × (is_some t.result ≡ true) × (r.conf ≡ t.conf)
    by_first none t k = absurd (false≢true k)
    by_first (some a) t k = (refl, by_second t.result k, refl)

-- Whether there is a value does not hang on what the variable held before.
pub get_int16-is_some :
    (c : MiredoConf) (name : List ℕ) (v w : ℕ)
    → (is_some (get_int16 c name v).result ≡ is_some (get_int16 c name w).result)
      × ((get_int16 c name v).conf ≡ (get_int16 c name w).conf)
unfolding get_int16
get_int16-is_some c name v w = ground arith

parse_ipv4-is_some :
    (r : Resolver) (c : MiredoConf) (name : List ℕ) (v w : ℕ)
    → (is_some (parse_ipv4 r c name v).result ≡ is_some (parse_ipv4 r c name w).result)
      × ((parse_ipv4 r c name v).conf ≡ (parse_ipv4 r c name w).conf)
unfolding parse_ipv4
parse_ipv4-is_some r c name v w = ground arith

-- The settings that a lookup leaves.
pub parse_ipv4-get :
    (r : Resolver) (c : MiredoConf) (name : List ℕ) (v : ℕ)
    → (parse_ipv4 r c name v).conf ≡ (get c name).0
unfolding parse_ipv4
parse_ipv4-get r c name v = ground arith

pub bind_conf-is_some :
    (r : Resolver) (c : MiredoConf) (k : RelayConf) (u32 u16 : ℕ)
    → (both (parse_ipv4 r c bind_address u32) (λ c'. get_int16 c' bind_port u16)).result ≡ true
    → is_some (bind_conf r c k) ≡ true
unfolding bind_conf
bind_conf-is_some r c k u32 u16 h =
    let b = both-is_some (parse_ipv4 r c bind_address u32) (λ c'. get_int16 c' bind_port u16) h in
    let ip = parse_ipv4-is_some r c bind_address u32 0 in
    let port = get_int16-is_some (parse_ipv4 r c bind_address 0).conf bind_port u16 0 in
    by_results (parse_ipv4 r c bind_address 0).result
      (get_int16 (parse_ipv4 r c bind_address 0).conf bind_port 0).result (sym ip.0 ∙ b.0)
      (sym port.0
        ∙ ap (λ (c' : MiredoConf). is_some (get_int16 c' bind_port u16).result) (sym ip.1)
        ∙ b.1)
  where
    by_results :
        (o o' : Option ℕ)
        → is_some o ≡ true
        → is_some o' ≡ true
        → let x : Option RelayConf = elim o [
          | none ↦ none
          | some bind_ip' ↦ elim o' [
            | none ↦ none
            | some bind_port' ↦ some (record k {
              bind_ip = bind_ip';
              bind_port = bind_port';
              ifname =
                  value_of
                    (get
                      (get_int16 (parse_ipv4 r c bind_address 0).conf bind_port 0).conf
                      interface_name).1;
            })
          ]
        ] in
          is_some x ≡ true
    by_results none o' h k = absurd (false≢true h)
    by_results (some a) none h k = absurd (false≢true k)
    by_results (some a) (some b) h k = refl

-- Whether a relay type is the client's, or another.
abbrev pub agrees : Bool → Option Mode → Bool
agrees b none = false
agrees b (some client) = b
agrees b (some cone) = not b
agrees b (some restrict) = not b

pub check_mode-agrees :
    (o : Option Setting)
    → (check_mode o).1 ≡ true
    → agrees (check_mode o).0 (elim o [ none ↦ some client | some p ↦ mode_of p.value ]) ≡ true
unfolding check_mode mode_of
check_mode-agrees none h = refl
check_mode-agrees (some p) h = ground arith
