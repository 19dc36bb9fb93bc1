-- ===== src/Batch/Selection/Update.antt =====
-- include/pg_batch/batch.h: rows are only ever removed from a selection.
use pg_batch.Prelude.{
  ℕ, zero, suc, ◌+◌, ◌/◌, ◌%◌, ◌<◌, ◌≡◌, refl, ap, sym, ◌∙◌, inl, inr, not, ◌&&◌, List, [], ◌∷◌,
  arith, length, get_or, ◌==◌, ==_iff, Bool-cases, length-set, get_or-set_self, get_or-set_ne,
}
use pg_batch.Bits.{Word, test_bit, bit_and, bit_not, one_at}
use pg_batch.Bits.Laws.{
  test_bit-and, test_bit-one_at, test_bit-not, length-and, length-not, length-one_at,
}
use pg_batch.Batch.Selection.{
  Selection, IsWellFormed, contains, clear, intersect, intersect_words, word_at, nwords,
}
use pg_batch.Batch.Selection.Rows.{contains-test_bit}

cleared_bit :
    (w : Word) (k i : ℕ)
    → k < 64
    → i < 64
    → test_bit (bit_and w (bit_not (one_at 64 k))) i ≡ test_bit w i && not (i == k)
cleared_bit w k i h h' =
    test_bit-and w (bit_not (one_at 64 k)) i
    ∙ rw (test_bit-not (one_at 64 k) i (rw (length-one_at 64 k) h'), test_bit-one_at 64 k i h)

-- Clearing a row that stands in a word of the selection removes that row and no other.
pub contains-clear :
    (s : Selection) (row q : ℕ)
    → row / 64 < nwords s
    → contains (clear s row) q ≡ contains s q && not (q == row)
unfolding clear
contains-clear s row q h =
    rw (contains-test_bit (clear s row) q, contains-test_bit s q)
      (elim (Bool-cases (q / 64 == row / 64)) [
        | inl e ↦
            let same : q / 64 ≡ row / 64 = (==_iff _ _).0 e in
            rw
              (
                same,
                get_or-set_self s.words (row / 64)
                    (bit_and (word_at s (row / 64)) (bit_not (one_at 64 (row % 64)))) [] h,
              )
              (cleared_bit (word_at s (row / 64)) (row % 64) (q % 64) (omega arith) (omega arith)
                ∙ ap (λ b. test_bit (word_at s (row / 64)) (q % 64) && not b) (ground arith))
        | inr n ↦
            rw
              (get_or-set_ne s.words (row / 64) (q / 64)
                (bit_and (word_at s (row / 64)) (bit_not (one_at 64 (row % 64)))) [] (ground arith))
              (ground arith)
      ])

length-word_clear :
    (s : Selection) (row k : ℕ)
    → length (word_at s k) ≡ 64
    → row / 64 < nwords s
    → length (word_at (clear s row) k) ≡ 64
unfolding clear
length-word_clear s row k w h = elim (Bool-cases (k == row / 64)) [
  | inl e ↦
      let same : k ≡ row / 64 = (==_iff _ _).0 e in
      let w' : length (word_at s (row / 64)) ≡ 64 = ap (λ j. length (word_at s j)) (sym same) ∙ w in
      rw
        (
          same,
          get_or-set_self s.words (row / 64)
              (bit_and (word_at s (row / 64)) (bit_not (one_at 64 (row % 64)))) [] h,
        )
        (length-and (word_at s (row / 64)) (bit_not (one_at 64 (row % 64)))
            (w' ∙ sym (length-not (one_at 64 (row % 64)) ∙ length-one_at 64 (row % 64)))
          ∙ w')
  | inr n ↦
      rw
        (get_or-set_ne s.words (row / 64) k
          (bit_and (word_at s (row / 64)) (bit_not (one_at 64 (row % 64)))) [] (ground arith))
        w
]

pub nrows-clear : (s : Selection) (row : ℕ) → (clear s row).nrows ≡ s.nrows
unfolding clear
nrows-clear s row = refl

nwords-clear : (s : Selection) (row : ℕ) → nwords (clear s row) ≡ nwords s
unfolding clear
nwords-clear s row =
    length-set s.words (row / 64) (bit_and (word_at s (row / 64)) (bit_not (one_at 64 (row % 64))))

-- A row below `nrows` stands in a word.
pub row_word : {s : Selection} (row : ℕ) → IsWellFormed s → row < s.nrows → row / 64 < nwords s
row_word row v h = omega (arith, v.enough)

pub clear-IsWellFormed :
    (s : Selection) (row : ℕ) → IsWellFormed s → row < s.nrows → IsWellFormed (clear s row)
clear-IsWellFormed s row v h = record {
  enough = nwords-clear s row ∙ v.enough ∙ ap (λ n. (n + 63) / 64) (sym (nrows-clear s row));
  widths = λ k b.
      length-word_clear s row k (v.widths k (omega (arith, nwords-clear s row))) (row_word row v h);
  within = λ q b.
      contains-clear s row q (row_word row v h)
      ∙ ap (λ c. c && not (q == row)) (v.within q (omega (arith, nrows-clear s row)));
}

word-intersect :
    (x y : List Word) (k : ℕ)
    → length x ≡ length y
    → get_or (intersect_words x y) k [] ≡ bit_and (get_or x k []) (get_or y k [])
unfolding intersect_words bit_and
word-intersect [] [] k h = refl
word-intersect [] (b ∷ y) k h = absurd (omega arith)
word-intersect (a ∷ x) [] k h = absurd (omega arith)
word-intersect (a ∷ x) (b ∷ y) zero h = refl
word-intersect (a ∷ x) (b ∷ y) (suc k) h = word-intersect x y k (omega arith)

-- Selections with the same number of words intersect to the rows that both contain.
pub contains-intersect :
    (s other : Selection) (q : ℕ)
    → nwords s ≡ nwords other
    → contains (intersect s other) q ≡ contains s q && contains other q
unfolding intersect
contains-intersect s other q h =
    rw (contains-test_bit (intersect s other) q, contains-test_bit s q, contains-test_bit other q)
      (ap (λ w. test_bit w (q % 64)) (word-intersect s.words other.words (q / 64) h)
        ∙ test_bit-and (word_at s (q / 64)) (word_at other (q / 64)) (q % 64))
