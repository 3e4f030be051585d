-- ===== src/Conf/Reads.antt =====
-- The reading of a file: src/conf.c on a stream without zero bytes.
use miredo.Prelude.{
  ℕ, zero, suc, ◌+◌, ◌≤◌, ◌<◌, ◌==◌, if◌then◌else◌, length, take, Bool, true, false, not, Option,
  none, some, List, [], ◌∷◌, sym, subst, arith,
}
use miredo.Conf.Strings.{c_string}
use miredo.Conf.{overly_long, MiredoConf, Malloc}
use miredo.Conf.Chain.{IsLinked, IsFresh}
use miredo.Conf.Words.{NoZero, c_string_id, fgets_bytes-NoZero}
use miredo.Conf.Reader.{
  next_line, fgets, fgets_bytes, ends_line, skip_line, scan_line, read_line, undefined, ended,
  logged, finish_file, read_lines, read_stream,
}
use miredo.Conf.Extends.{of_buffer, Extends-refl, IsRead, Rest}

finish_file-IsRead :
    (c : MiredoConf) (fails : Bool) → IsLinked c → IsRead c fails (ended (finish_file fails c))
unfolding finish_file
finish_file-IsRead c fails v = (Extends-refl c v, ground arith)

-- A read that is not NULL takes at least a byte of the stream.
abbrev Cuts : List ℕ → Option (List ℕ × List ℕ) → Type 0
Cuts stream none = Unit {0}
Cuts stream (some (lbuf, rest)) =
    NoZero lbuf × NoZero rest × (length rest < length stream) × (0 < length lbuf)

fgets_bytes-Cuts :
    (n x : ℕ) (xs : List ℕ) → NoZero (x ∷ xs) → Cuts (x ∷ xs) (some (fgets_bytes (suc n) (x ∷ xs)))
unfolding fgets_bytes
fgets_bytes-Cuts n x xs h = by_end (x == 10)
  where
    k :
        NoZero (fgets_bytes n xs).0
        × NoZero (fgets_bytes n xs).1
        × (length (fgets_bytes n xs).1 ≤ length xs)
    k = fgets_bytes-NoZero n xs h.1

    by_end :
        (b : Bool)
        → let r : List ℕ × List ℕ =
            if b then (x ∷ [], xs) else (x ∷ (fgets_bytes n xs).0, (fgets_bytes n xs).1) in
          Cuts (x ∷ xs) (some r)
    by_end true = ((h.0, tt), h.1, omega arith, omega arith)
    by_end false = ((h.0, k.0), k.1, omega (arith, k.2), omega arith)

fgets-Cuts : (fails : Bool) (stream : List ℕ) → NoZero stream → Cuts stream (fgets fails stream)
unfolding fgets
fgets-Cuts fails [] nz = tt
fgets-Cuts fails (x ∷ xs) nz =
    by_failure _ (fgets_bytes 1055 (x ∷ xs)) (fgets_bytes-Cuts 1054 x xs nz)
  where
    by_failure :
        (b : Bool) (r : List ℕ × List ℕ)
        → Cuts (x ∷ xs) (some r)
        → let o : Option (List ℕ × List ℕ) = if b then none else some r in Cuts (x ∷ xs) o
    by_failure true r h = tt
    by_failure false r h = h

read_lines-IsRead :
    (fuel : ℕ) (malloc : Malloc) (fails : Bool)
    → IsFresh malloc
    → Rest (read_lines fuel malloc fails) fails fuel
unfolding read_lines
read_lines-IsRead zero malloc fails fresh c line stream short nz v = absurd (omega arith)
read_lines-IsRead (suc fuel) malloc fails fresh c line stream short nz v =
    of_fgets (read_lines-IsRead fuel malloc fails fresh) (fgets fails stream)
      (fgets-Cuts fails stream nz)
  where
    of_fgets :
        Rest (read_lines fuel malloc fails) fails fuel
        → (o : Option (List ℕ × List ℕ)) → Cuts stream o
        → IsRead c fails (elim o [
          | none ↦ ended (finish_file fails c)
          | some (lbuf, rest) ↦ elim (c_string lbuf) [
            | [] ↦ undefined
            | x ∷ xs ↦
                let skipped =
                  logged
                    (overly_long (next_line line) ∷ [])
                    (read_lines fuel malloc fails c (next_line line) (skip_line rest)) in
                if not (ends_line (x ∷ xs))
                then skipped
                else elim (read_line malloc c
                    (scan_line (take (length xs) (x ∷ xs)))
                    (next_line line)) [
                      | none ↦ undefined
                      | some s ↦
                          let more =
                            logged s.log
                              (read_lines fuel malloc fails s.conf (next_line line) rest) in
                          if s.result then more else ended s
                    ]
          ]
        ])
    of_fgets rec none h = finish_file-IsRead c fails v
    of_fgets rec (some (lbuf, rest)) (nz', nz'', less, some_byte) =
        of_buffer malloc fails fresh c v fuel line (read_lines fuel malloc fails) rec
          (c_string lbuf) rest nz'' (omega arith)
          (subst (λ m. 0 < length m) (sym (c_string_id lbuf nz')) some_byte)

-- On a stream without a zero byte, and settings whose tail is in order, with an allocator that gives
-- addresses not in use or nothing, the reading of a file ends,
-- and writes to no freed memory and reads none outside `lbuf`: behind the settings that were there
-- it adds settings with names of 1 to 31 and values of 1 to 1023 bytes, without blanks and comments,
-- and leaves the tail in order; and it reports a success only if no read has failed.
pub read_stream-IsRead :
    (malloc : Malloc) (fails : Bool) (c : MiredoConf) (stream : List ℕ)
    → IsFresh malloc
    → IsLinked c
    → NoZero stream
    → IsRead c fails (read_stream malloc fails c stream)
unfolding read_stream
read_stream-IsRead malloc fails c stream fresh v nz =
    read_lines-IsRead (length stream + 1) malloc fails fresh c 0 stream (omega arith) nz v
