-- ===== src/Conf/Extends.antt =====
-- What a line of a file adds to the settings: src/conf.c.
use miredo.Prelude.{
  ◌&&◌, ℕ, ◌<◌, if◌then◌else◌, length, take, Bool, true, false, not, Option, none, some, List, [],
  ◌∷◌, ◌++◌, ◌≡◌, refl, ap, sym, ◌∙◌, arith, append_assoc, append-nil,
}
use miredo.Conf.{Setting, Message, overly_long, MiredoConf, Step, Malloc, set}
use miredo.Conf.Chain.{IsLinked, IsFresh, Adds, exhausted, added, Returns, set-Adds}
use miredo.Conf.Words.{NoZero, IsWord, GoodScan, scan_line-GoodScan, skip_line-NoZero}
use miredo.Conf.Reader.{
  next_line, ends_line, skip_line, Scan, no_word, one_word, two_words, scan_line, is_comment,
  read_line, Reading, undefined, out_of_fuel, ended, logged,
}

-- Settings with a name and a value of the sizes that the reader allows, and no comments.
abbrev pub Good : List Setting → Type 0
Good [] = Unit {0}
Good (s ∷ ss) = (IsWord 31 s.name × IsWord 1023 s.value × (is_comment s.name ≡ false)) × Good ss

Good-append : (xs ys : List Setting) → Good xs → Good ys → Good (xs ++ ys)
Good-append [] ys g h = h
Good-append (x ∷ xs) ys g h = (g.0, Good-append xs ys g.1 h)

-- Settings that have been read behind others, with the tail in order.
pub record Extends (c c' : MiredoConf) : Type 0 where
  pub linked : IsLinked c'
  pub new : List Setting
  pub chain : c'.chain ≡ c.chain ++ new
  pub good : Good new

pub Extends-refl : (c : MiredoConf) → IsLinked c → Extends c c
Extends-refl c v = record { linked = v; new = []; chain = sym (append-nil c.chain); good = tt }

Extends-trans : (a b c : MiredoConf) → Extends a b → Extends b c → Extends a c
Extends-trans a b c f g = record {
  linked = g.linked;
  new = f.new ++ g.new;
  chain =
      g.chain ∙ ap (λ (m : List Setting). m ++ g.new) f.chain ∙ append_assoc a.chain f.new g.new;
  good = Good-append f.new g.new f.good g.good;
}

-- What the reading is to do.
abbrev pub IsRead : MiredoConf → Bool → Reading → Type 0
IsRead c fails undefined = ⊥
IsRead c fails out_of_fuel = ⊥
IsRead c fails (ended s) = Extends c s.conf × ((s.result && fails) ≡ false)

IsRead-logged :
    (c c' : MiredoConf) (fails : Bool) (log : List Message) (r : Reading)
    → Extends c c'
    → IsRead c' fails r
    → IsRead c fails (logged log r)
IsRead-logged c c' fails log undefined f h = absurd h
IsRead-logged c c' fails log out_of_fuel f h = absurd h
IsRead-logged c c' fails log (ended s) f h = (Extends-trans c c' s.conf f h.0, h.1)

read_line-Extends :
    (malloc : Malloc) (c : MiredoConf) (s : Scan) (line : ℕ)
    → IsFresh malloc
    → IsLinked c
    → GoodScan s
    → Returns (λ t. Extends c t.conf) (read_line malloc c s line)
unfolding read_line
read_line-Extends malloc c no_word line fresh v g = Extends-refl c v
read_line-Extends malloc c (one_word name) line fresh v g = Extends-refl c v
read_line-Extends malloc c (two_words name value) line fresh v g = by_comment (is_comment name) refl
  where
    of_added :
        (t : Step Bool)
        → is_comment name ≡ false
        → Adds c name value line t
        → IsLinked t.conf
        → Extends c t.conf
    of_added _ e exhausted w = Extends-refl c v
    of_added _ e (added a h) w = record {
      linked = w;
      new = _;
      chain = refl;
      good = ((g.0, g.1, e), tt);
    }

    of_step :
        (o : Option (Step Bool))
        → is_comment name ≡ false
        → Returns (λ t. Adds c name value line t × IsLinked t.conf) o
        → Returns (λ t. Extends c t.conf) o
    of_step none e h = absurd h
    of_step (some t) e h = of_added t e h.0 h.1

    by_comment :
        (b : Bool)
        → is_comment name ≡ b
        → Returns
            (λ t. Extends c t.conf)
            (if b
              then some (record { conf = c; log = []; result = true })
              else set malloc c name value line)
    by_comment true e = Extends-refl c v
    by_comment false e =
        of_step (set malloc c name value line) e (set-Adds malloc c name value line fresh v)

-- What the rest of the reading does, from any settings behind these.
abbrev pub Rest : (MiredoConf → ℕ → List ℕ → Reading) → Bool → ℕ → Type 0
Rest r fails fuel =
    (c : MiredoConf) (line : ℕ) (stream : List ℕ)
    → length stream < fuel
    → NoZero stream
    → IsLinked c
    → IsRead c fails (r c line stream)

module _ (malloc : Malloc) (fails : Bool) (fresh : IsFresh malloc) (c : MiredoConf) (v : IsLinked c)
    (fuel line : ℕ) (next : MiredoConf → ℕ → List ℕ → Reading) (rec : Rest next fails fuel) where
  of_line :
      (rest : List ℕ) (o : Option (Step Bool))
      → length rest < fuel
      → NoZero rest
      → Returns (λ t. Extends c t.conf) o
      → IsRead c fails (elim o [
        | none ↦ undefined
        | some s ↦
            let more = logged s.log (next s.conf (next_line line) rest) in
            if s.result then more else ended s
      ])
  of_line rest none short nz h = absurd h
  of_line rest (some s) short nz h = by_result s.result refl
    where
      by_result :
          (b : Bool)
          → s.result ≡ b
          → let r : Reading =
              if b then logged s.log (next s.conf (next_line line) rest) else ended s in
            IsRead c fails r
      by_result true e =
          IsRead-logged c s.conf fails s.log _ h
            (rec s.conf (next_line line) rest short nz h.linked)
      by_result false e = (h, ground arith)

  pub of_buffer :
      (lbuf rest : List ℕ)
      → NoZero rest
      → length rest < fuel
      → 0 < length lbuf
      → IsRead c fails (elim lbuf [
        | [] ↦ undefined
        | x ∷ xs ↦
            let skipped =
              logged
                (overly_long (next_line line) ∷ [])
                (next c (next_line line) (skip_line rest)) in
            if not (ends_line (x ∷ xs))
            then skipped
            else elim (read_line malloc c
                (scan_line (take (length xs) (x ∷ xs)))
                (next_line line)) [
                  | none ↦ undefined
                  | some s ↦
                      let more = logged s.log (next s.conf (next_line line) rest) in
                      if s.result then more else ended s
                ]
      ])
  of_buffer [] rest nz short h = absurd (omega arith)
  of_buffer (x ∷ xs) rest nz short h = by_end (ends_line (x ∷ xs))
    where
      by_end :
          (b : Bool)
          → let r : Reading =
              if not b
              then logged
                  (overly_long (next_line line) ∷ [])
                  (next c (next_line line) (skip_line rest))
              else elim (read_line malloc c
                  (scan_line (take (length xs) (x ∷ xs)))
                  (next_line line)) [
                    | none ↦ undefined
                    | some s ↦
                        let more = logged s.log (next s.conf (next_line line) rest) in
                        if s.result then more else ended s
                  ] in
            IsRead c fails r
      by_end false =
          let k = skip_line-NoZero rest nz in
          IsRead-logged c c fails (overly_long (next_line line) ∷ [])
            (next c (next_line line) (skip_line rest)) (Extends-refl c v)
            (rec c (next_line line) (skip_line rest) (omega (arith, k.1)) k.0 v)
      by_end true =
          of_line rest (read_line malloc c (scan_line (take (length xs) (x ∷ xs))) (next_line line))
            short nz
            (read_line-Extends malloc c (scan_line (take (length xs) (x ∷ xs))) (next_line line)
              fresh v (scan_line-GoodScan (take (length xs) (x ∷ xs))))
