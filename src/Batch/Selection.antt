-- ===== src/Batch/Selection.antt =====
-- include/pg_batch/batch.h: PgBatchSelection, the mutable set of active rows of a batch.
-- `nwords` is the length of `words`. A row number that is -1 before the first row and after the
-- last is an `Option`.
pub mod Rows
pub mod Update
pub mod Next
pub mod Count
use pg_batch.Prelude.{
  ℕ, zero, suc, ◌+◌, ◌*◌, ◌/◌, ◌%◌, ◌≡◌, ◌<◌, ◌≤◌, Bool, true, false, not, List, [], ◌∷◌, Option,
  none, some, length, get_or, set, ltb, leb, ◌==◌, if◌then◌else◌,
}
use pg_batch.Bits.{Word, test_bit, is_zero, bit_and, bit_not, one_at, all_ones, shift_left}
use pg_batch.Postgres.{PgBitutils}

pub record Selection : Type 0 where
  pub nrows : ℕ
  pub words : List Word

abbrev pub nwords : Selection → ℕ
nwords s = length s.words

-- selection->words[word]
abbrev pub word_at : Selection → ℕ → Word
word_at s word = get_or s.words word []

unfoldable pub contains : Selection → ℕ → Bool
contains s row = not (is_zero (bit_and (word_at s (row / 64)) (one_at 64 (row % 64))))

unfoldable pub clear : Selection → ℕ → Selection
clear s row = record s {
  words = set s.words (row / 64) (bit_and (word_at s (row / 64)) (bit_not (one_at 64 (row % 64))));
}

intersect_words : List Word → List Word → List Word
intersect_words (a ∷ x) (b ∷ y) = bit_and a b ∷ intersect_words x y
intersect_words x [] = x
intersect_words [] y = []

pub intersect : Selection → Selection → Selection
unfolding intersect_words
intersect s other = record s { words = intersect_words s.words other.words }

-- `previous + 1`
abbrev pub following : Option ℕ → ℕ
following none = 0
following (some row) = row + 1

module _ ⦃pg : PgBitutils⦄ where
  count_words : List Word → ℕ
  count_words [] = 0
  count_words (w ∷ ws) = pg.popcount64 w + count_words ws

  unfoldable pub count : Selection → ℕ
  unfolding count_words
  count s = if nwords s == 1 then pg.popcount64 (word_at s 0) else count_words s.words

  -- The loop from `word` on; `fuel` bounds the words that are left.
  next_scan : ℕ → Selection → ℕ → Word → Option ℕ
  next_scan zero s word bits = none
  next_scan (suc fuel) s word bits =
      let result = word * 64 + pg.rightmost_one_pos64 bits in
      let rest = next_scan fuel s (word + 1) (word_at s (word + 1)) in
      if not (is_zero bits)
      then if ltb result s.nrows then some result else none
      else if leb (nwords s) (word + 1)
      then none
      else rest

  pub next : Selection → Option ℕ → Option ℕ
  unfolding next_scan
  next s previous =
      let row = following previous in
      let word = row / 64 in
      let bits = bit_and (word_at s word) (shift_left (all_ones 64) (row % 64)) in
      let found = next_scan (nwords s) s word bits in if leb s.nrows row then none else found

-- What every published selection satisfies: enough words, and no row beyond the last.
pub record IsWellFormed (s : Selection) : Type 0 where
  pub enough : nwords s ≡ (s.nrows + 63) / 64
  pub widths : (k : ℕ) → k < nwords s → length (word_at s k) ≡ 64
  pub within : (row : ℕ) → s.nrows ≤ row → contains s row ≡ false
