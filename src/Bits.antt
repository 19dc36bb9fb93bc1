-- ===== src/Bits.antt =====
-- Bitmaps: a `uint64` word or a `uint8` byte that the code uses as a set of rows is the list of its
-- bits, the lowest first. C's `&`, `|`, `~`, `<<`, `>>` and `- 1` act on the bits as in C.
pub mod Laws
pub mod Ones
use pg_batch.Prelude.{
  ℕ, zero, suc, ◌+◌, Bool, true, false, not, ◌&&◌, ◌||◌, List, [], ◌∷◌, ◌++◌, length, get_or, set,
  take, drop, replicate, map,
}

abbrev pub Word : Type 0
Word = List Bool

-- Bit `i`; above the width there are zeros.
abbrev pub test_bit : Word → ℕ → Bool
test_bit w i = get_or w i false

-- `w == 0`
unfoldable pub is_zero : Word → Bool
is_zero [] = true
is_zero (b ∷ w) = not b && is_zero w

unfoldable pub bit_and : Word → Word → Word
bit_and (a ∷ x) (b ∷ y) = (a && b) ∷ bit_and x y
bit_and _ _ = []

pub bit_or : Word → Word → Word
bit_or (a ∷ x) (b ∷ y) = (a || b) ∷ bit_or x y
bit_or (a ∷ x) [] = a ∷ x
bit_or [] y = y

pub bit_not : Word → Word
bit_not [] = []
bit_not (b ∷ w) = not b ∷ bit_not w

-- `1 << k` at a width
unfoldable pub one_at : ℕ → ℕ → Word
one_at width k = set (replicate width false) k true

-- All zeros, and UINT64_MAX
abbrev pub zeros : ℕ → Word
zeros width = replicate width false

abbrev pub all_ones : ℕ → Word
all_ones width = replicate width true

unfoldable pub shift_left : Word → ℕ → Word
shift_left w k = take (length w) (replicate k false ++ w)

pub shift_right : Word → ℕ → Word
shift_right w k = drop k w ++ take (length w) (replicate k false)

-- `w - 1`, with the borrow written out; `0 - 1` wraps to all ones.
pub decrement : Word → Word
decrement [] = []
decrement (true ∷ w) = false ∷ w
decrement (false ∷ w) = true ∷ decrement w

-- Two words are equal.
unfoldable pub same : Word → Word → Bool
same [] [] = true
same (true ∷ x) (true ∷ y) = same x y
same (false ∷ x) (false ∷ y) = same x y
same _ _ = false

-- The positions of the ones, counted from `k`, in increasing order.
unfoldable pub ones : ℕ → Word → List ℕ
ones k [] = []
ones k (true ∷ w) = k ∷ ones (k + 1) w
ones k (false ∷ w) = ones (k + 1) w

-- The lowest position of a one, which is the width if there is none.
unfoldable pub lowest : Word → ℕ
lowest [] = 0
lowest (true ∷ w) = 0
lowest (false ∷ w) = suc (lowest w)
