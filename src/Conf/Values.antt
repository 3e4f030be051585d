-- ===== src/Conf/Values.antt =====
-- src/conf.c: the values of settings. Each function of the source that writes to a variable is one
-- that returns its value: `none` where the source returns false, and the value that the variable
-- had where the setting is not there.
use miredo.Prelude.Word.{Endian}
use miredo.Prelude.{
  ℕ, ◌+◌, ◌-◌, ◌*◌, ◌%◌, ◌^◌, ltb, leb, ◌==◌, if◌then◌else◌, Bool, true, false, not, ◌&&◌, Option,
  none, some, List, [], ◌∷◌, ◌++◌,
}
use miredo.Net.Addr.{Addr, is_valid_teredo_prefix}
use miredo.Conf.Strings.{skip_space, to_lower, same_name}
use miredo.Conf.{
  Message, invalid_integer, invalid_hostname, invalid_prefix, unknown_facility, MiredoConf, Step,
  get,
}

-- The value of a byte as a digit, at least 36 if it is none.
unfoldable pub digit : ℕ → ℕ
digit c =
    if leb 48 c && leb c 57
    then c - 48
    else if leb 97 (to_lower c) && leb (to_lower c) 122
    then to_lower c - 87
    else 36

-- The number that the digits in front spell after `n`, and what follows them.
unfoldable pub scan_digits : ℕ → ℕ → List ℕ → ℕ × List ℕ
scan_digits base n [] = (n, [])
scan_digits base n (c ∷ s) =
    let rest = scan_digits base (n * base + digit c) s in
    if ltb (digit c) base then rest else (n, c ∷ s)

-- The base of a number that begins with a zero, and its digits.
unfoldable pub after_zero : List ℕ → ℕ × List ℕ
after_zero (x ∷ d ∷ s) =
    if to_lower x == 120 && ltb (digit d) 16 then (16, d ∷ s) else (8, 48 ∷ x ∷ d ∷ s)
after_zero s = (8, 48 ∷ s)

-- The base of a number for base 0, and its digits.
unfoldable pub detect_base : List ℕ → ℕ × List ℕ
detect_base [] = (10, [])
detect_base (c ∷ s) = if c == 48 then after_zero s else (10, c ∷ s)

-- A sign, and whether it is a minus.
unfoldable pub strip_sign : List ℕ → Bool × List ℕ
strip_sign [] = (false, [])
strip_sign (c ∷ s) = if c == 45 then (true, s) else if c == 43 then (false, s) else (false, c ∷ s)

-- `strtoul (val, &end, 0)` on 64 bits: the result, and the string at `end`. A minus negates what
-- fits, what does not is ULONG_MAX, and without a digit `end` is `val`.
unfoldable pub strtoul : List ℕ → ℕ × List ℕ
strtoul val =
    let sign = strip_sign (skip_space val) in
    let (base, s) = detect_base sign.1 in
    let (n, rest) = scan_digits base 0 s in
    elim s [
      | [] ↦ (0, val)
      | c ∷ cs ↦
          if not (ltb (digit c) base)
          then (0, val)
          else if leb (2 ^ 64) n
          then (2 ^ 64 - 1, rest)
          else ((if sign.0 then (2 ^ 64 - n) % 2 ^ 64 else n), rest)
    ]

-- What a lookup leaves: the settings without the one that is found, what is logged, and the value.
abbrev pub looked_up : MiredoConf → List Message → Option ℕ → Step (Option ℕ)
looked_up c log v = record { conf = c; log = log; result = v }

-- `miredo_conf_get_int16`
unfoldable pub get_int16 : MiredoConf → List ℕ → ℕ → Step (Option ℕ)
get_int16 c name value =
    let (c', found) = get c name in
    elim found [
      | none ↦ looked_up c' [] (some value)
      | some p ↦
          let (l, end) = strtoul p.value in
          elim end [
            | x ∷ xs ↦ looked_up c' (invalid_integer p.value ∷ []) none
            | [] ↦
                if ltb 65535 l
                then looked_up c' (invalid_integer p.value ∷ []) none
                else looked_up c' [] (some (l % 2 ^ 16))
          ]
    ]

-- `getaddrinfo` for IPv4 and for IPv6; `none` for an error.
pub record Resolver : Type 0 where
  pub ipv4_of : List ℕ → Option ℕ
  pub ipv6_of : List ℕ → Option Addr

-- `miredo_conf_parse_IPv4`
unfoldable pub parse_ipv4 : Resolver → MiredoConf → List ℕ → ℕ → Step (Option ℕ)
parse_ipv4 r c name ipv4 =
    let (c', found) = get c name in
    elim found [
      | none ↦ looked_up c' [] (some ipv4)
      | some p ↦ elim (r.ipv4_of p.value) [
        | none ↦ looked_up c' (invalid_hostname p.value p.line ∷ []) none
        | some ip ↦ looked_up c' [] (some ip)
      ]
    ]

-- `miredo_conf_parse_IPv6`
unfoldable pub parse_ipv6 : Resolver → MiredoConf → List ℕ → Addr → Step (Option Addr)
parse_ipv6 r c name value =
    let (c', found) = get c name in
    elim found [
      | none ↦ record { conf = c'; log = []; result = some value }
      | some p ↦ elim (r.ipv6_of p.value) [
        | none ↦ record { conf = c'; log = invalid_hostname p.value p.line ∷ []; result = none }
        | some a ↦ record { conf = c'; log = []; result = some a }
      ]
    ]

-- The end of `miredo_conf_parse_teredo_prefix`.
unfoldable pub check_prefix : Endian → Step (Option Addr) → Step (Option ℕ)
check_prefix e s = elim s.result [
  | none ↦ looked_up s.conf s.log none
  | some a ↦
      if is_valid_teredo_prefix e a.prefix
      then looked_up s.conf s.log (some a.prefix)
      else looked_up s.conf (s.log ++ (invalid_prefix a.prefix ∷ [])) none
]

-- `miredo_conf_parse_teredo_prefix`
unfoldable pub parse_teredo_prefix : Endian → Resolver → MiredoConf → List ℕ → ℕ → Step (Option ℕ)
parse_teredo_prefix e r c name value = check_prefix e (
    parse_ipv6 r c name
      (record { prefix = value; server_ip = 0; flags = 0; client_port = 0; client_ip = 0 }))

-- The table of facilities, with the numbers of the system's `<syslog.h>`.
unfoldable pub facilities : List (List ℕ × ℕ)
facilities =
    (97 ∷ 117 ∷ 116 ∷ 104 ∷ [], 32)
    ∷ (97 ∷ 117 ∷ 116 ∷ 104 ∷ 112 ∷ 114 ∷ 105 ∷ 118 ∷ [], 80)
    ∷ (99 ∷ 114 ∷ 111 ∷ 110 ∷ [], 72)
    ∷ (100 ∷ 97 ∷ 101 ∷ 109 ∷ 111 ∷ 110 ∷ [], 24)
    ∷ (102 ∷ 116 ∷ 112 ∷ [], 88)
    ∷ (107 ∷ 101 ∷ 114 ∷ 110 ∷ [], 0)
    ∷ (108 ∷ 111 ∷ 99 ∷ 97 ∷ 108 ∷ 48 ∷ [], 128)
    ∷ (108 ∷ 111 ∷ 99 ∷ 97 ∷ 108 ∷ 49 ∷ [], 136)
    ∷ (108 ∷ 111 ∷ 99 ∷ 97 ∷ 108 ∷ 50 ∷ [], 144)
    ∷ (108 ∷ 111 ∷ 99 ∷ 97 ∷ 108 ∷ 51 ∷ [], 152)
    ∷ (108 ∷ 111 ∷ 99 ∷ 97 ∷ 108 ∷ 52 ∷ [], 160)
    ∷ (108 ∷ 111 ∷ 99 ∷ 97 ∷ 108 ∷ 53 ∷ [], 168)
    ∷ (108 ∷ 111 ∷ 99 ∷ 97 ∷ 108 ∷ 54 ∷ [], 176)
    ∷ (108 ∷ 111 ∷ 99 ∷ 97 ∷ 108 ∷ 55 ∷ [], 184)
    ∷ (108 ∷ 112 ∷ 114 ∷ [], 48)
    ∷ (109 ∷ 97 ∷ 105 ∷ 108 ∷ [], 16)
    ∷ (110 ∷ 101 ∷ 119 ∷ 115 ∷ [], 56)
    ∷ (115 ∷ 121 ∷ 115 ∷ 108 ∷ 111 ∷ 103 ∷ [], 40)
    ∷ (117 ∷ 115 ∷ 101 ∷ 114 ∷ [], 8)
    ∷ (117 ∷ 117 ∷ 99 ∷ 112 ∷ [], 64)
    ∷ []

-- The loop over the table.
unfoldable pub find_facility : List ℕ → List (List ℕ × ℕ) → Option ℕ
find_facility str [] = none
find_facility str ((name, facility) ∷ fs) =
    let rest = find_facility str fs in if same_name str name then some facility else rest

-- `miredo_conf_parse_syslog_facility`
unfoldable pub parse_syslog_facility : MiredoConf → List ℕ → ℕ → Step (Option ℕ)
parse_syslog_facility c name facility =
    let (c', found) = get c name in
    elim found [
      | none ↦ looked_up c' [] (some facility)
      | some p ↦ elim (find_facility p.value facilities) [
        | none ↦ looked_up c' (unknown_facility p.value p.line ∷ []) none
        | some f ↦ looked_up c' [] (some f)
      ]
    ]
