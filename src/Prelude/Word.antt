-- ===== src/Prelude/Word.antt =====
-- Machine words and their bytes. A word that the source keeps in network byte order is the number
-- that its bytes spell, most significant first: the result of `ntohl` and `ntohs` on it. On such
-- values `htonl` and `htons` of a constant are the constant, and equality and masks agree.
use Prim.Native.Nat.{ℕ, ◌+◌, ◌-◌, ◌*◌, ◌/◌, ◌%◌, ◌^◌}
use mathlib.Core.List.{List, [], ◌∷◌}
use miredo.Prelude.Lists.{get_or}

-- The byte order of the host.
pub data Endian : Type 0 where
  little big : Endian

-- The number that a host of this byte order reads from a word held in network byte order.
unfoldable pub host32 : Endian → ℕ → ℕ
host32 little w =
    w / 2 ^ 24 % 256 + w / 2 ^ 16 % 256 * 2 ^ 8 + w / 2 ^ 8 % 256 * 2 ^ 16 + w % 256 * 2 ^ 24
host32 big w = w

unfoldable pub host16 : Endian → ℕ → ℕ
host16 little w = w / 2 ^ 8 % 256 + w % 256 * 2 ^ 8
host16 big w = w

-- The bytes of a word in network byte order.
abbrev pub bytes16 : ℕ → List ℕ
bytes16 w = w / 2 ^ 8 % 256 ∷ w % 256 ∷ []

abbrev pub bytes32 : ℕ → List ℕ
bytes32 w = w / 2 ^ 24 % 256 ∷ w / 2 ^ 16 % 256 ∷ w / 2 ^ 8 % 256 ∷ w % 256 ∷ []

-- Reading a buffer at a byte offset. A read past the end is 0.
abbrev pub u8 : List ℕ → ℕ → ℕ
u8 b i = get_or b i 0

abbrev pub u16 : List ℕ → ℕ → ℕ
u16 b i = u8 b i * 2 ^ 8 + u8 b (i + 1)

abbrev pub u32 : List ℕ → ℕ → ℕ
u32 b i = u16 b i * 2 ^ 16 + u16 b (i + 2)

-- `~x` and `x ^ 0xffff…` on a word of 16 or 32 bits.
abbrev pub not16 : ℕ → ℕ
not16 x = 2 ^ 16 - 1 - x

abbrev pub not32 : ℕ → ℕ
not32 x = 2 ^ 32 - 1 - x

-- `x & mask` for the mask of all bits from bit `k` up.
abbrev pub high_bits : ℕ → ℕ → ℕ
high_bits x k = x / 2 ^ k * 2 ^ k

-- Bit `k` of `x`: `x & (1 << k)` is zero exactly when this is.
abbrev pub bit_at : ℕ → ℕ → ℕ
bit_at x k = x / 2 ^ k % 2
