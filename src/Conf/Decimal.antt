-- ===== src/Conf/Decimal.antt =====
-- Numbers in a configuration file.
use miredo.Prelude.{
  ℕ, zero, suc, ◌+◌, ◌*◌, ◌/◌, ◌%◌, ◌^◌, ◌≤◌, ◌<◌, ltb, if◌then◌else◌, Bool, true, false, some,
  List, [], ◌∷◌, ◌++◌, ◌≡◌, refl, ap, sym, ◌∙◌, arith, append_assoc, append-nil, Bool-cases, inl,
  inr,
}
use miredo.Conf.Strings.{is_space, skip_space}
use miredo.Conf.{Setting, MiredoConf, get}
use miredo.Conf.Values.{
  digit, scan_digits, after_zero, detect_base, strip_sign, strtoul, get_int16, looked_up,
}

-- A number of at most so many digits, as `printf ("%u")` writes it.
abbrev pub decimal : ℕ → ℕ → List ℕ
decimal zero n = []
decimal (suc k) n =
    let front = decimal k (n / 10) in
    if ltb n 10 then (48 + n) ∷ [] else front ++ ((48 + n % 10) ∷ [])

-- The least number with more than so many digits.
abbrev power : ℕ → ℕ
power zero = 1
power (suc k) = power k * 10

digit_decimal : (n : ℕ) → n < 10 → digit (48 + n) ≡ n
unfolding digit
digit_decimal n h = ground arith

scan_digit :
    (m d : ℕ) (rest : List ℕ)
    → d < 10
    → scan_digits 10 m ((48 + d) ∷ rest) ≡ scan_digits 10 (m * 10 + d) rest
unfolding scan_digits
scan_digit m d rest h = ground (arith, digit_decimal d h)

positive : (k n : ℕ) → ltb n 10 ≡ false → n < power (suc k) → 0 < k
positive zero n e h = absurd (ground arith)
positive (suc k) n e h = omega arith

scan_digits-decimal :
    (k n : ℕ) (rest : List ℕ)
    → n < power k
    → 0 < k
    → scan_digits 10 0 (decimal k n ++ rest) ≡ scan_digits 10 n rest
scan_digits-decimal zero n rest h p = absurd (omega arith)
scan_digits-decimal (suc k) n rest h p = elim (Bool-cases (ltb n 10)) [
  | inl e ↦
      rw e
        (scan_digit 0 n rest (ground arith) ∙ ap (λ (m : ℕ). scan_digits 10 m rest) (omega arith))
  | inr e ↦ rw e (
      ap (scan_digits 10 0) (append_assoc (decimal k (n / 10)) ((48 + n % 10) ∷ []) rest)
      ∙ scan_digits-decimal k (n / 10) ((48 + n % 10) ∷ rest) (smaller h) (positive k n e h)
      ∙ scan_digit (n / 10) (n % 10) rest (omega arith)
      ∙ ap (λ (m : ℕ). scan_digits 10 m rest) (omega arith))
]
  where
    smaller : n < power (suc k) → n / 10 < power k
    smaller h = omega arith

-- A string that begins with a digit other than zero.
abbrev StartsAsNumber : List ℕ → Type 0
StartsAsNumber [] = ⊥
StartsAsNumber (c ∷ s) = (49 ≤ c) × (c ≤ 57)

StartsAsNumber-append : (s t : List ℕ) → StartsAsNumber s → StartsAsNumber (s ++ t)
StartsAsNumber-append [] t h = absurd h
StartsAsNumber-append (c ∷ s) t h = h

decimal-StartsAsNumber : (k n : ℕ) → n < power k → 0 < n → StartsAsNumber (decimal k n)
decimal-StartsAsNumber zero n h p = absurd (omega arith)
decimal-StartsAsNumber (suc k) n h p =
    by_size (ltb n 10) refl (decimal-StartsAsNumber k (n / 10) (omega arith))
  where
    by_size :
        (b : Bool)
        → ltb n 10 ≡ b
        → (0 < n / 10 → StartsAsNumber (decimal k (n / 10)))
        → let s : List ℕ =
            if b then (48 + n) ∷ [] else decimal k (n / 10) ++ ((48 + n % 10) ∷ []) in
          StartsAsNumber s
    by_size true e f = ground arith
    by_size false e f =
        StartsAsNumber-append (decimal k (n / 10)) ((48 + n % 10) ∷ []) (f (ground arith))

strtoul_number :
    (s : List ℕ) (n : ℕ)
    → StartsAsNumber s
    → scan_digits 10 0 s ≡ (n, [])
    → n < 2 ^ 64
    → strtoul s ≡ (n, [])
unfolding strtoul skip_space strip_sign detect_base is_space digit
strtoul_number [] n h e k = absurd h
strtoul_number (c ∷ s) n h e k = ground (arith, h.0, h.1, e)

strtoul-decimal : (n : ℕ) → n < 2 ^ 16 → strtoul (decimal 5 n) ≡ (n, [])
unfolding strtoul skip_space strip_sign detect_base is_space digit scan_digits after_zero
strtoul-decimal zero h = refl
strtoul-decimal (suc m) h =
    strtoul_number (decimal 5 (suc m)) (suc m)
      (decimal-StartsAsNumber 5 (suc m) (omega arith) (omega arith)) scanned (omega arith)
  where
    scanned : scan_digits 10 0 (decimal 5 (suc m)) ≡ (suc m, [])
    scanned =
        ap (scan_digits 10 0) (sym (append-nil (decimal 5 (suc m))))
        ∙ scan_digits-decimal 5 (suc m) [] (omega arith) (omega arith)

-- A setting whose value is a number below 65536 in decimal digits is read as this number.
pub get_int16-decimal :
    (c c' : MiredoConf) (name : List ℕ) (p : Setting) (value n : ℕ)
    → n < 2 ^ 16
    → get c name ≡ (c', some p)
    → p.value ≡ decimal 5 n
    → get_int16 c name value ≡ looked_up c' [] (some n)
unfolding get_int16
get_int16-decimal c c' name p value n h e d = ground (arith, e, ap strtoul d, strtoul-decimal n h)
