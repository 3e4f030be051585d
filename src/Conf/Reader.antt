-- ===== src/Conf/Reader.antt =====
-- src/conf.c: the reading of a configuration file. A stream is the bytes that are left of it; the
-- read that comes after them finds the end of the file, or fails.
use miredo.Prelude.{
  ◌^◌, ◌%◌, ℕ, zero, suc, ◌+◌, ltb, ◌==◌, if◌then◌else◌, length, take, get_or, Bool, true, false,
  not, ◌&&◌, Option, none, some, List, [], ◌∷◌, ◌++◌,
}
use miredo.Conf.Strings.{c_string, skip_space, scan_word}
use miredo.Conf.{
  Message, overly_long, ignoring, read_error, open_error, MiredoConf, Step, Malloc, set,
}

-- `fgets` for at most so many bytes: those it reads, and those that are left.
unfoldable pub fgets_bytes : ℕ → List ℕ → List ℕ × List ℕ
fgets_bytes zero s = ([], s)
fgets_bytes (suc n) [] = ([], [])
fgets_bytes (suc n) (x ∷ xs) =
    let rest = fgets_bytes n xs in if x == 10 then (x ∷ [], xs) else (x ∷ rest.0, rest.1)

-- Whether the last byte is a line feed.
unfoldable pub ends_line : List ℕ → Bool
ends_line [] = false
ends_line (x ∷ []) = x == 10
ends_line (x ∷ y ∷ s) = ends_line (y ∷ s)

-- `fgets (lbuf, sizeof (lbuf), stream)`; `none` for NULL. A read that fails in a line is NULL too.
unfoldable pub fgets : Bool → List ℕ → Option (List ℕ × List ℕ)
fgets fails [] = none
fgets fails (x ∷ xs) =
    let r = fgets_bytes 1055 (x ∷ xs) in
    if fails && (ltb (length r.0) 1055 && not (ends_line r.0)) then none else some r

-- The loop of `fgetc`: what is left behind the next line feed.
unfoldable pub skip_line : List ℕ → List ℕ
skip_line [] = []
skip_line (x ∷ xs) = let rest = skip_line xs in if x == 10 then xs else rest

-- The conversions of `sscanf (lbuf, " %31s %1023s", nbuf, vbuf)`.
pub data Scan : Type 0 where
  no_word : Scan
  one_word : List ℕ → Scan
  two_words : List ℕ → List ℕ → Scan

unfoldable pub scan_value : List ℕ → List ℕ → Scan
scan_value name s = elim (scan_word 1023 (skip_space s)).0 [
  | [] ↦ one_word name
  | x ∷ xs ↦ two_words name (x ∷ xs)
]

unfoldable pub scan_line : List ℕ → Scan
scan_line s =
    let r = scan_word 31 (skip_space s) in
    elim r.0 [ [] ↦ no_word | x ∷ xs ↦ scan_value (x ∷ xs) r.1 ]

-- `*nbuf == '#'`
unfoldable pub is_comment : List ℕ → Bool
is_comment name = get_or name 0 0 == 35

-- The switch on what `sscanf` finds in a line.
unfoldable pub read_line : Malloc → MiredoConf → Scan → ℕ → Option (Step Bool)
read_line malloc c no_word line = some (record { conf = c; log = []; result = true })
read_line malloc c (one_word name) line = some (record {
  conf = c;
  log = if is_comment name then [] else ignoring line name ∷ [];
  result = true;
})
read_line malloc c (two_words name value) line =
    if is_comment name
    then some (record { conf = c; log = []; result = true })
    else set malloc c name value line

-- How the reading of a file ends.
pub data Reading : Type 0 where
  undefined : Reading
  out_of_fuel : Reading
  ended : Step Bool → Reading

-- A reading that goes on, after what has been logged.
abbrev pub logged : List Message → Reading → Reading
logged log undefined = undefined
logged log out_of_fuel = out_of_fuel
logged log (ended s) = ended (record s { log = log ++ s.log })

-- The end of `miredo_conf_read_FILE`.
unfoldable pub finish_file : Bool → MiredoConf → Step Bool
finish_file fails c = record {
  conf = c;
  log = if fails then read_error ∷ [] else [];
  result = not fails;
}

-- `line++` on an `unsigned` of 32 bits.
abbrev pub next_line : ℕ → ℕ
next_line line = (line + 1) % 2 ^ 32

-- `miredo_conf_read_FILE` with the count of lines that have been read. The length of the string in
-- `lbuf` is what `strlen` finds; with nothing in front of a zero byte, the code reads `lbuf` at -1.
unfoldable pub read_lines : ℕ → Malloc → Bool → MiredoConf → ℕ → List ℕ → Reading
read_lines zero malloc fails c line stream = out_of_fuel
read_lines (suc fuel) malloc fails c line stream = elim (fgets fails stream) [
  | none ↦ ended (finish_file fails c)
  | some (lbuf, rest) ↦ elim (c_string lbuf) [
    | [] ↦ undefined
    | x ∷ xs ↦
        let skipped =
          logged (overly_long (next_line line) ∷ [])
            (read_lines fuel malloc fails c (next_line line) (skip_line rest)) in
        if not (ends_line (x ∷ xs))
        then skipped
        else elim (read_line malloc c (scan_line (take (length xs) (x ∷ xs))) (next_line line)) [
          | none ↦ undefined
          | some s ↦
              let more = logged s.log (read_lines fuel malloc fails s.conf (next_line line) rest) in
              if s.result then more else ended s
        ]
  ]
]

unfoldable pub read_stream : Malloc → Bool → MiredoConf → List ℕ → Reading
read_stream malloc fails c stream = read_lines (length stream + 1) malloc fails c 0 stream

-- `miredo_conf_read_file`; without a stream, the file could not be opened.
unfoldable pub read_file : Malloc → Bool → MiredoConf → Option (List ℕ) → Reading
read_file malloc fails c none = ended (record { conf = c; log = open_error ∷ []; result = false })
read_file malloc fails c (some stream) = read_stream malloc fails c stream
