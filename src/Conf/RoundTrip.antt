-- ===== src/Conf/RoundTrip.antt =====
-- A file that is written from directives is read as these directives.
use miredo.Prelude.{
  ℕ, zero, suc, ◌+◌, ◌<◌, length, length-append, true, false, some, List, [], ◌∷◌, ◌++◌, ◌≡◌, refl,
  ap, sym, subst, ◌∙◌, arith, append_assoc, append-nil,
}
use miredo.Conf.{Setting, MiredoConf}
use miredo.Conf.Chain.{Returns, Adds, set-Adds, IsLinked, IsFresh, setting_at, set-append}
use miredo.Conf.Reader.{
  next_line, fgets, Scan, read_line, Reading, undefined, out_of_fuel, ended, finish_file,
  read_lines, read_stream,
}
use miredo.Conf.Lines.{
  Directive, IsDirective, AllDirectives, print, NoFeed-append, NoZero-append, NoSpace-NoFeed,
  scan_line_words, read_line_words, after, read_lines_step,
}

-- The directives that settings stand for, with their lines.
abbrev pub entries : List Setting → List (Directive × ℕ)
entries [] = []
entries (s ∷ ss) = (record { name = s.name; value = s.value }, s.line) ∷ entries ss

-- Directives on lines of their own, from a line on.
abbrev pub numbered : ℕ → List Directive → List (Directive × ℕ)
numbered line [] = []
numbered line (d ∷ ds) = (d, line) ∷ numbered (next_line line) ds

-- That a reading ends well, and has added these directives and no more.
abbrev pub ReadsBack : MiredoConf → ℕ → List Directive → Reading → Type 0
ReadsBack c line ds undefined = ⊥
ReadsBack c line ds out_of_fuel = ⊥
ReadsBack c line ds (ended s) =
    (entries s.conf.chain ≡ entries c.chain ++ numbered line ds) × (s.log ≡ []) × (s.result ≡ true)

entries-append : (xs ys : List Setting) → entries (xs ++ ys) ≡ entries xs ++ entries ys
entries-append [] ys = refl
entries-append (x ∷ xs) ys =
    ap (◌∷◌ (record { name = x.name; value = x.value }, x.line)) (entries-append xs ys)

after-IsLinked :
    (address_of : List Setting → ℕ) (c : MiredoConf) (d : Directive) (line : ℕ)
    → IsFresh (λ ss. some (address_of ss))
    → IsLinked c
    → IsLinked (after address_of c d line)
after-IsLinked address_of c d line fresh v =
    (subst (Returns (λ s. Adds c d.name d.value line s × IsLinked s.conf))
      (set-append address_of c d.name d.value line v)
      (set-Adds (λ ss. some (address_of ss)) c d.name d.value line fresh v)).1

after-ReadsBack :
    (address_of : List Setting → ℕ) (c : MiredoConf) (d : Directive) (ds : List Directive)
    (line : ℕ) (r : Reading)
    → ReadsBack (after address_of c d line) (next_line line) ds r
    → ReadsBack c line (d ∷ ds) r
after-ReadsBack address_of c d ds line undefined h = h
after-ReadsBack address_of c d ds line out_of_fuel h = h
after-ReadsBack address_of c d ds line (ended s) h = (
  h.0
      ∙ ap (λ (m : List (Directive × ℕ)). m ++ numbered (next_line line) ds)
          (entries-append c.chain (setting_at (address_of c.chain) d.name d.value line ∷ []))
      ∙ append_assoc (entries c.chain) ((d, line) ∷ []) (numbered (next_line line) ds),
  h.1,
  h.2,
)

print_step :
    (fuel : ℕ) (address_of : List Setting → ℕ) (c : MiredoConf) (line : ℕ) (name value : List ℕ)
    (rest : List ℕ)
    → IsLinked c
    → IsDirective (record { name = name; value = value })
    → read_lines
        (suc fuel)
        (λ ss. some (address_of ss))
        false
        c
        line
        (name ++ (32 ∷ (value ++ (10 ∷ rest))))
      ≡ read_lines fuel
          (λ ss. some (address_of ss))
          false
          (after address_of c (record { name = name; value = value }) (next_line line))
          (next_line line)
          rest
print_step fuel address_of c line [] value rest v h = absurd (omega (arith, h.name.some_byte))
print_step fuel address_of c line (x ∷ name) [] rest v h = absurd (omega (arith, h.value.some_byte))
print_step fuel address_of c line (x ∷ name) (y ∷ value) rest v h =
    ap (read_lines (suc fuel) (λ ss. some (address_of ss)) false c line)
      (sym (append_assoc (x ∷ name) (32 ∷ (y ∷ value)) (10 ∷ rest)))
    ∙ read_lines_step fuel (λ ss. some (address_of ss)) c
        (after address_of c (record { name = x ∷ name; value = y ∷ value }) (next_line line)) line x
        (name ++ (32 ∷ (y ∷ value))) rest
        (NoFeed-append (x ∷ name) (32 ∷ (y ∷ value)) (NoSpace-NoFeed (x ∷ name) h.name.no_space)
          (refl, NoSpace-NoFeed (y ∷ value) h.value.no_space))
        (NoZero-append (x ∷ name) (32 ∷ (y ∷ value)) h.name_bytes (omega arith, h.value_bytes))
        (omega (arith, length-append name (32 ∷ (y ∷ value)), h.fits))
        (ap (λ (s : Scan). read_line (λ ss. some (address_of ss)) c s (next_line line))
            (scan_line_words x name y value h.name h.value)
          ∙ read_line_words address_of c (record { name = x ∷ name; value = y ∷ value })
              (next_line line) v h.active)

read_lines-print :
    (fuel : ℕ) (address_of : List Setting → ℕ) (c : MiredoConf) (line : ℕ) (ds : List Directive)
    → IsFresh (λ ss. some (address_of ss))
    → IsLinked c
    → AllDirectives ds
    → length (print ds) < fuel
    → ReadsBack c
        (next_line line)
        ds
        (read_lines fuel (λ ss. some (address_of ss)) false c line (print ds))
unfolding read_lines fgets finish_file
read_lines-print zero address_of c line ds fresh v h k = absurd (omega arith)
read_lines-print (suc fuel) address_of c line [] fresh v h k = (sym (append-nil _), refl, refl)
read_lines-print (suc fuel) address_of c line (d ∷ ds) fresh v h k =
    subst (ReadsBack c (next_line line) (d ∷ ds))
      (sym (print_step fuel address_of c line d.name d.value (print ds) v h.0))
      (after-ReadsBack address_of c d ds (next_line line) _ (
        read_lines-print fuel address_of (after address_of c d (next_line line)) (next_line line) ds
          fresh (after-IsLinked address_of c d (next_line line) fresh v) h.1
          (omega (
            arith,
            length-append d.name (32 ∷ (d.value ++ (10 ∷ print ds))),
            length-append d.value (10 ∷ print ds),
          ))))

-- A file of directives, each a name of 1 to 31 and a value of 1 to 1023 bytes that are together no
-- longer than 1053, without blanks and zero bytes and no comment, is read as these directives, in
-- their order, with their line numbers (counted from 1, modulo 2^32), behind the settings that were there, with nothing logged; if
-- there is memory for each, at an address that is not in use, and the tail is in order.
pub read_stream-print :
    (address_of : List Setting → ℕ) (c : MiredoConf) (ds : List Directive)
    → IsFresh (λ ss. some (address_of ss))
    → IsLinked c
    → AllDirectives ds
    → ReadsBack c 1 ds (read_stream (λ ss. some (address_of ss)) false c (print ds))
unfolding read_stream
read_stream-print address_of c ds fresh v h =
    read_lines-print (length (print ds) + 1) address_of c 0 ds fresh v h (omega arith)
