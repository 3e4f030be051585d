-- ===== src/Conf/Words.antt =====
-- What `sscanf` and `fgets` find, for src/conf.c.
use miredo.Prelude.{
  ℕ, zero, suc, ◌≤◌, ◌<◌, ◌==◌, if◌then◌else◌, length, Bool, true, false, List, [], ◌∷◌, ◌≡◌, refl,
  arith,
}
use miredo.Conf.Strings.{is_space, c_string, skip_space, scan_word}
use miredo.Conf.Reader.{
  fgets_bytes, skip_line, Scan, no_word, one_word, two_words, scan_value, scan_line,
}

abbrev pub NoSpace : List ℕ → Type 0
NoSpace [] = Unit {0}
NoSpace (x ∷ xs) = (is_space x ≡ false) × NoSpace xs

abbrev pub NoZero : List ℕ → Type 0
NoZero [] = Unit {0}
NoZero (x ∷ xs) = (0 < x) × NoZero xs

-- A word of at most so many bytes.
pub record IsWord (n : ℕ) (w : List ℕ) : Type 0 where
  pub some_byte : 0 < length w
  pub size : length w ≤ n
  pub no_space : NoSpace w

scan_word-NoSpace :
    (n : ℕ) (s : List ℕ) → NoSpace (scan_word n s).0 × (length (scan_word n s).0 ≤ n)
unfolding scan_word
scan_word-NoSpace zero s = (tt, omega arith)
scan_word-NoSpace (suc n) [] = (tt, omega arith)
scan_word-NoSpace (suc n) (x ∷ xs) = by_space (is_space x) refl (scan_word-NoSpace n xs)
  where
    by_space :
        (b : Bool)
        → is_space x ≡ b
        → NoSpace (scan_word n xs).0 × (length (scan_word n xs).0 ≤ n)
        → let r : List ℕ × List ℕ =
            if b then ([], x ∷ xs) else (x ∷ (scan_word n xs).0, (scan_word n xs).1) in
          NoSpace r.0 × (length r.0 ≤ suc n)
    by_space true e h = (tt, omega arith)
    by_space false e h = ((e, h.0), omega (arith, h.1))

abbrev pub GoodScan : Scan → Type 0
GoodScan no_word = Unit {0}
GoodScan (one_word name) = IsWord 31 name
GoodScan (two_words name value) = IsWord 31 name × IsWord 1023 value

scan_value-GoodScan : (name s : List ℕ) → IsWord 31 name → GoodScan (scan_value name s)
unfolding scan_value
scan_value-GoodScan name s h =
    by_value (scan_word 1023 (skip_space s)).0 (scan_word-NoSpace 1023 (skip_space s))
  where
    by_value :
        (w : List ℕ)
        → NoSpace w × (length w ≤ 1023)
        → GoodScan (elim w [ [] ↦ one_word name | x ∷ xs ↦ two_words name (x ∷ xs) ])
    by_value [] g = h
    by_value (x ∷ xs) g = (h, record { some_byte = omega arith; size = g.1; no_space = g.0 })

-- The words that are found are words, of at most 31 and 1023 bytes.
pub scan_line-GoodScan : (s : List ℕ) → GoodScan (scan_line s)
unfolding scan_line
scan_line-GoodScan s = by_name (scan_word 31 (skip_space s)).0 (scan_word-NoSpace 31 (skip_space s))
  where
    by_name :
        (w : List ℕ)
        → NoSpace w × (length w ≤ 31)
        → GoodScan
            (elim w [ [] ↦ no_word | x ∷ xs ↦ scan_value (x ∷ xs) (scan_word 31 (skip_space s)).1 ])
    by_name [] g = tt
    by_name (x ∷ xs) g =
        scan_value-GoodScan (x ∷ xs) _
          (record { some_byte = omega arith; size = g.1; no_space = g.0 })

pub c_string_id : (s : List ℕ) → NoZero s → c_string s ≡ s
unfolding c_string
c_string_id [] h = refl
c_string_id (x ∷ xs) h = ground (arith, c_string_id xs h.1)

-- What is read and what is left are parts of the stream, and a byte of it is read.
pub fgets_bytes-NoZero :
    (n : ℕ) (s : List ℕ)
    → NoZero s
    → NoZero (fgets_bytes n s).0
      × NoZero (fgets_bytes n s).1
      × (length (fgets_bytes n s).1 ≤ length s)
unfolding fgets_bytes
fgets_bytes-NoZero zero s h = (tt, h, omega arith)
fgets_bytes-NoZero (suc n) [] h = (tt, tt, omega arith)
fgets_bytes-NoZero (suc n) (x ∷ xs) h = by_end (x == 10) (fgets_bytes-NoZero n xs h.1)
  where
    by_end :
        (b : Bool)
        → NoZero (fgets_bytes n xs).0
          × NoZero (fgets_bytes n xs).1
          × (length (fgets_bytes n xs).1 ≤ length xs)
        → let r : List ℕ × List ℕ =
            if b then (x ∷ [], xs) else (x ∷ (fgets_bytes n xs).0, (fgets_bytes n xs).1) in
          NoZero r.0 × NoZero r.1 × (length r.1 ≤ suc (length xs))
    by_end true k = ((h.0, tt), h.1, omega arith)
    by_end false k = ((h.0, k.0), k.1, omega (arith, k.2))

pub skip_line-NoZero :
    (s : List ℕ) → NoZero s → NoZero (skip_line s) × (length (skip_line s) ≤ length s)
unfolding skip_line
skip_line-NoZero [] h = (tt, omega arith)
skip_line-NoZero (x ∷ xs) h = by_end (x == 10) (skip_line-NoZero xs h.1)
  where
    by_end :
        (b : Bool)
        → NoZero (skip_line xs) × (length (skip_line xs) ≤ length xs)
        → let r : List ℕ = if b then xs else skip_line xs in NoZero r × (length r ≤ suc (length xs))
    by_end true k = (h.1, omega arith)
    by_end false k = (k.0, omega (arith, k.1))
