-- ===== src/Conf/Strings.antt =====
-- The functions of the C library on strings that src/conf.c uses, in the "C" locale. A string is the
-- list of its bytes, without the zero byte at its end.
use miredo.Prelude.{
  ℕ, zero, suc, ◌+◌, Bool, true, false, ◌&&◌, ◌||◌, leb, ◌==◌, if◌then◌else◌, List, [], ◌∷◌,
}

-- `isspace`, `tolower`
unfoldable pub is_space : ℕ → Bool
is_space c = c == 32 || (leb 9 c && leb c 13)

unfoldable pub to_lower : ℕ → ℕ
to_lower c = if leb 65 c && leb c 90 then c + 32 else c

-- `strcasecmp (a, b) == 0`
unfoldable pub same_name : List ℕ → List ℕ → Bool
same_name [] [] = true
same_name [] (y ∷ ys) = false
same_name (x ∷ xs) [] = false
same_name (x ∷ xs) (y ∷ ys) = to_lower x == to_lower y && same_name xs ys

-- The bytes in front of the first zero byte, and whether there is one.
unfoldable pub c_string : List ℕ → List ℕ
c_string [] = []
c_string (x ∷ xs) = let rest = c_string xs in if x == 0 then [] else x ∷ rest

-- A blank in the format of `sscanf`.
unfoldable pub skip_space : List ℕ → List ℕ
skip_space [] = []
skip_space (x ∷ xs) = let rest = skip_space xs in if is_space x then rest else x ∷ xs

-- `%<n>s` in it, without the blanks that it skips: the word, and what follows it.
unfoldable pub scan_word : ℕ → List ℕ → List ℕ × List ℕ
scan_word zero s = ([], s)
scan_word (suc n) [] = ([], [])
scan_word (suc n) (x ∷ xs) =
    let rest = scan_word n xs in if is_space x then ([], x ∷ xs) else (x ∷ rest.0, rest.1)
