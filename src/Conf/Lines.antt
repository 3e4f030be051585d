-- ===== src/Conf/Lines.antt =====
-- A line of a file, as src/conf.c reads it.
use miredo.Prelude.{
  ℕ, zero, suc, ◌+◌, ◌≤◌, ◌<◌, ◌==◌, length, length-append, take, take_len, true, false, some, List,
  [], ◌∷◌, ◌++◌, ◌≡◌, refl, ap, ◌∙◌, arith,
}
use miredo.Conf.Strings.{is_space, skip_space, scan_word}
use miredo.Conf.{Setting, MiredoConf, Malloc}
use miredo.Conf.Chain.{IsLinked, setting_at, set-append}
use miredo.Conf.Words.{NoZero, NoSpace, IsWord, c_string_id}
use miredo.Conf.Reader.{
  next_line, fgets, fgets_bytes, ends_line, Scan, no_word, one_word, two_words, scan_line,
  scan_value, is_comment, read_line, Reading, undefined, out_of_fuel, ended, logged, read_lines,
}

-- A directive: a name and a value.
pub record Directive : Type 0 where
  pub name : List ℕ
  pub value : List ℕ

-- What can be written: words without zero bytes, not a comment, and a line that fits `lbuf`.
pub record IsDirective (d : Directive) : Type 0 where
  pub name : IsWord 31 d.name
  pub value : IsWord 1023 d.value
  pub name_bytes : NoZero d.name
  pub value_bytes : NoZero d.value
  pub active : is_comment d.name ≡ false
  pub fits : length d.name + length d.value ≤ 1053

abbrev pub AllDirectives : List Directive → Type 0
AllDirectives [] = Unit {0}
AllDirectives (d ∷ ds) = IsDirective d × AllDirectives ds

-- The lines of a file, a blank between name and value.
abbrev pub print : List Directive → List ℕ
print [] = []
print (d ∷ ds) = d.name ++ (32 ∷ (d.value ++ (10 ∷ print ds)))

abbrev pub NoFeed : List ℕ → Type 0
NoFeed [] = Unit {0}
NoFeed (x ∷ xs) = ((x == 10) ≡ false) × NoFeed xs

pub NoFeed-append : (xs ys : List ℕ) → NoFeed xs → NoFeed ys → NoFeed (xs ++ ys)
NoFeed-append [] ys h k = k
NoFeed-append (x ∷ xs) ys h k = (h.0, NoFeed-append xs ys h.1 k)

pub NoZero-append : (xs ys : List ℕ) → NoZero xs → NoZero ys → NoZero (xs ++ ys)
NoZero-append [] ys h k = k
NoZero-append (x ∷ xs) ys h k = (h.0, NoZero-append xs ys h.1 k)

pub NoSpace-NoFeed : (xs : List ℕ) → NoSpace xs → NoFeed xs
unfolding is_space
NoSpace-NoFeed [] h = tt
NoSpace-NoFeed (x ∷ xs) h = (ground (arith, h.0), NoSpace-NoFeed xs h.1)

fgets_bytes_line :
    (n : ℕ) (w rest : List ℕ)
    → NoFeed w
    → length w < n
    → fgets_bytes n (w ++ (10 ∷ rest)) ≡ (w ++ (10 ∷ []), rest)
unfolding fgets_bytes
fgets_bytes_line zero w rest h k = absurd (omega arith)
fgets_bytes_line (suc n) [] rest h k = refl
fgets_bytes_line (suc n) (x ∷ w) rest h k = ground (arith, fgets_bytes_line n w rest)

ends_line_feed : (w : List ℕ) → ends_line (w ++ (10 ∷ [])) ≡ true
unfolding ends_line
ends_line_feed [] = refl
ends_line_feed (x ∷ []) = refl
ends_line_feed (x ∷ y ∷ w) = ends_line_feed (y ∷ w)

scan_word_blank :
    (n : ℕ) (w rest : List ℕ)
    → NoSpace w
    → length w ≤ n
    → scan_word n (w ++ (32 ∷ rest)) ≡ (w, 32 ∷ rest)
unfolding scan_word is_space
scan_word_blank zero [] rest h k = refl
scan_word_blank zero (x ∷ w) rest h k = absurd (omega arith)
scan_word_blank (suc n) [] rest h k = refl
scan_word_blank (suc n) (x ∷ w) rest h k = ground (arith, scan_word_blank n w rest)

scan_word_end : (n : ℕ) (w : List ℕ) → NoSpace w → length w ≤ n → scan_word n w ≡ (w, [])
unfolding scan_word
scan_word_end zero [] h k = refl
scan_word_end zero (x ∷ w) h k = absurd (omega arith)
scan_word_end (suc n) [] h k = refl
scan_word_end (suc n) (x ∷ w) h k = ground (arith, scan_word_end n w)

skip_space_word : (x : ℕ) (w : List ℕ) → is_space x ≡ false → skip_space (x ∷ w) ≡ x ∷ w
unfolding skip_space
skip_space_word x w h = rw h refl

blank_skipped : (w : List ℕ) → skip_space (32 ∷ w) ≡ skip_space w
unfolding skip_space is_space
blank_skipped w = refl

pub scan_line_words :
    (x : ℕ) (name : List ℕ) (y : ℕ) (value : List ℕ)
    → IsWord 31 (x ∷ name)
    → IsWord 1023 (y ∷ value)
    → scan_line ((x ∷ name) ++ (32 ∷ (y ∷ value))) ≡ two_words (x ∷ name) (y ∷ value)
unfolding scan_line scan_value
scan_line_words x name y value h k =
    ap of_line (skip_space_word x (name ++ (32 ∷ y ∷ value)) h.no_space.0)
    ∙ ap of_words (scan_word_blank 31 (x ∷ name) (y ∷ value) h.no_space h.size)
    ∙ ap of_value (blank ∙ skip_space_word y value k.no_space.0)
    ∙ ap of_end (scan_word_end 1023 (y ∷ value) k.no_space k.size)
  where
    of_end : List ℕ × List ℕ → Scan
    of_end r = elim r.0 [ [] ↦ one_word (x ∷ name) | z ∷ zs ↦ two_words (x ∷ name) (z ∷ zs) ]

    of_value : List ℕ → Scan
    of_value s = of_end (scan_word 1023 s)

    of_words : List ℕ × List ℕ → Scan
    of_words r = elim r.0 [ [] ↦ no_word | z ∷ zs ↦ scan_value (z ∷ zs) r.1 ]

    of_line : List ℕ → Scan
    of_line s = of_words (scan_word 31 s)

    blank : skip_space (32 ∷ y ∷ value) ≡ skip_space (y ∷ value)
    blank = blank_skipped (y ∷ value)

fgets_line :
    (x : ℕ) (w rest : List ℕ)
    → NoFeed (x ∷ w)
    → length (x ∷ w) < 1055
    → fgets false ((x ∷ w) ++ (10 ∷ rest)) ≡ some ((x ∷ w) ++ (10 ∷ []), rest)
unfolding fgets
fgets_line x w rest h k = ap some (fgets_bytes_line 1055 (x ∷ w) rest h k)

-- The settings after a directive.
abbrev pub after : (List Setting → ℕ) → MiredoConf → Directive → ℕ → MiredoConf
after address_of c d line = record {
  chain = c.chain ++ (setting_at (address_of c.chain) d.name d.value line ∷ []);
  tail = address_of c.chain;
}

pub read_line_words :
    (address_of : List Setting → ℕ) (c : MiredoConf) (d : Directive) (line : ℕ)
    → IsLinked c
    → is_comment d.name ≡ false
    → read_line (λ ss. some (address_of ss)) c (two_words d.name d.value) line
      ≡ some (record { conf = after address_of c d line; log = []; result = true })
unfolding read_line
read_line_words address_of c d line v h = rw h (set-append address_of c d.name d.value line v)

logged_nil : (r : Reading) → logged [] r ≡ r
logged_nil undefined = refl
logged_nil out_of_fuel = refl
logged_nil (ended s) = refl

-- One line of the loop.
pub read_lines_step :
    (fuel : ℕ) (malloc : Malloc) (c c' : MiredoConf) (line x : ℕ) (w rest : List ℕ)
    → NoFeed (x ∷ w)
    → NoZero (x ∷ w)
    → length (x ∷ w) < 1055
    → read_line malloc c (scan_line (x ∷ w)) (next_line line)
      ≡ some (record { conf = c'; log = []; result = true })
    → read_lines (suc fuel) malloc false c line ((x ∷ w) ++ (10 ∷ rest))
      ≡ read_lines fuel malloc false c' (next_line line) rest
unfolding read_lines
read_lines_step fuel malloc c c' line x w rest feed nz k e =
    rw
      (
        read_lines,
        fgets_line x w rest feed k,
        c_string_id ((x ∷ w) ++ (10 ∷ [])) (NoZero-append (x ∷ w) (10 ∷ []) nz (omega arith, tt)),
        ends_line_feed (x ∷ w),
        taken,
        e,
      )
      (logged_nil (read_lines fuel malloc false c' (next_line line) rest))
  where
    taken : take (length (w ++ (10 ∷ []))) ((x ∷ w) ++ (10 ∷ [])) ≡ x ∷ w
    taken =
        take_len (length (w ++ (10 ∷ []))) (x ∷ w) (10 ∷ [])
          (omega (arith, length-append w (10 ∷ [])))
