-- ===== src/Kernels/Mask.antt =====
-- kernels/int4.c, kernels/int4_hash.c: word_mask, and the rows that the loops over words visit.
use pg_batch.Prelude.{
  ℕ, suc, ◌+◌, ◌-◌, ◌*◌, ◌/◌, ◌%◌, ◌<◌, ◌≡◌, refl, ap, sym, ◌∙◌, inl, inr, Bool, true, false, ◌&&◌,
  List, [], ◌∷◌, ◌++◌, map, arith, length, get_or, ltb, leb, if◌then◌else◌, Bool-cases,
  get_or-replicate_lt,
}
use mathlib.Core.List.{append-nil}
use pg_batch.Bits.{Word, test_bit, bit_and, all_ones, shift_right, ones}
use pg_batch.Bits.Laws.{test_bit-and, test_bit-shift_right, length-and, length-shift_right}
use pg_batch.Batch.Selection.{Selection, IsWellFormed, contains, word_at, nwords}
use pg_batch.Batch.Selection.Rows.{
  contains-test_bit, rows, rows_where, rows_where_append, rows_where_none,
}

-- UINT64_MAX for a full word, else the bits of the rows that are left.
pub word_mask : ℕ → ℕ → Word
word_mask nrows word =
    let remaining = nrows - word * 64 in
    if leb 64 remaining then all_ones 64 else shift_right (all_ones 64) (64 - remaining)

pub length-word_mask : (nrows word : ℕ) → length (word_mask nrows word) ≡ 64
unfolding word_mask
length-word_mask nrows word = elim (Bool-cases (leb 64 (nrows - word * 64))) [
  | inl full ↦ rw full
  | inr part ↦ rw part (length-shift_right 64 (64 - (nrows - word * 64)) (omega arith))
]

pub test_bit-word_mask :
    (nrows word i : ℕ) → i < 64 → test_bit (word_mask nrows word) i ≡ ltb (word * 64 + i) nrows
unfolding word_mask
test_bit-word_mask nrows word i h = elim (Bool-cases (leb 64 (nrows - word * 64))) [
  | inl full ↦ rw full (get_or-replicate_lt 64 i true false h ∙ ground arith)
  | inr part ↦
      rw part (test_bit-shift_right 64 (64 - (nrows - word * 64)) i (omega arith) ∙ ground arith)
]

-- The rows of the words from number `word` on, as the loops number them.
unfoldable pub scan_rows : ℕ → ℕ → List Word → List ℕ
scan_rows nrows word [] = []
scan_rows nrows word (w ∷ ws) =
    ones (word * 64) (bit_and w (word_mask nrows word)) ++ scan_rows nrows (word + 1) ws

pub ones-map : (j k : ℕ) (w : Word) → ones (j + k) w ≡ map (λ b. j + b) (ones k w)
unfolding ones
ones-map j k [] = refl
ones-map j k (true ∷ w) =
    let e : j + k + 1 ≡ j + (k + 1) = omega arith in
    rw e (ap (λ l. (j + k) ∷ l) (ones-map j (k + 1) w))
ones-map j k (false ∷ w) =
    let e : j + k + 1 ≡ j + (k + 1) = omega arith in rw e (ones-map j (k + 1) w)

pub ones-rows_where :
    (p : ℕ → Bool) (w : Word) (j : ℕ)
    → ((i : ℕ) → i < length w → p (j + i) ≡ test_bit w i)
    → ones j w ≡ rows_where p j (length w)
unfolding ones rows_where
ones-rows_where p [] j h = refl
ones-rows_where p (b ∷ w) j h =
    let e : j + 0 ≡ j = omega arith in
    rw (ap p (sym e) ∙ h 0 (omega arith))
      (by_bit b (ones-rows_where p w (j + 1) (λ i k. ap p (omega arith) ∙ h (suc i) (omega arith))))
  where
    by_bit :
        (b : Bool)
        → ones (j + 1) w ≡ rows_where p (j + 1) (length w)
        → ones j (b ∷ w)
          ≡ (if b then j ∷ rows_where p (j + 1) (length w) else rows_where p (j + 1) (length w))
    by_bit true e = ap (◌∷◌ j) e
    by_bit false e = e

scan_rows-rows_where :
    (nrows : ℕ) (p : ℕ → Bool) (ws : List Word) (word : ℕ)
    → ((k : ℕ) → k < length ws → length (get_or ws k []) ≡ 64)
    → ((k i : ℕ)
        → k < length ws
        → i < 64
        → p ((word + k) * 64 + i) ≡ test_bit (get_or ws k []) i && ltb ((word + k) * 64 + i) nrows)
    → scan_rows nrows word ws ≡ rows_where p (word * 64) (length ws * 64)
unfolding scan_rows
scan_rows-rows_where nrows p [] word w h = unfold rows_where in refl
scan_rows-rows_where nrows p (x ∷ ws) word w h =
    let e : suc (length ws) * 64 ≡ 64 + length ws * 64 = omega arith in
    let f : word * 64 + 64 ≡ (word + 1) * 64 = omega arith in
    let x64 : length x ≡ 64 = w 0 (omega arith) in
    let masked : length (bit_and x (word_mask nrows word)) ≡ 64 =
      length-and x (word_mask nrows word) (x64 ∙ sym (length-word_mask nrows word)) ∙ x64 in
    let here = ones-rows_where p (bit_and x (word_mask nrows word)) (word * 64) (λ i k.
      let small : i < 64 = omega (arith, masked) in
      ap p (omega arith)
      ∙ h 0 i (omega arith) small
      ∙ sym (
          test_bit-and x (word_mask nrows word) i
          ∙ rw (test_bit-word_mask nrows word i small)
              (ap (λ n. test_bit x i && ltb n nrows) (omega arith)))) in
    let rest =
      scan_rows-rows_where nrows p ws (word + 1) (λ k b. w (suc k) (omega arith))
        (λ k i a b.
          let m : (word + 1 + k) * 64 + i ≡ (word + suc k) * 64 + i = omega arith in
          rw m (h (suc k) i (omega arith) b)) in
    rw (e, rows_where_append p 64 (length ws * 64) (word * 64), f, here, masked, rest)

-- The loops over the words of a well-formed selection visit its rows in order.
pub scan_rows-rows : (s : Selection) → IsWellFormed s → scan_rows s.nrows 0 s.words ≡ rows s
scan_rows-rows s v =
    let split : nwords s * 64 ≡ s.nrows + (nwords s * 64 - s.nrows) = omega (arith, v.enough) in
    let tail =
      rows_where_none (contains s) (nwords s * 64 - s.nrows) (0 + s.nrows)
        (λ i a b. v.within i (omega arith)) in
    scan_rows-rows_where s.nrows (contains s) s.words 0 v.widths
      (λ k i a b. at_bit (((0 + k) * 64 + i)) k i b (omega arith))
    ∙ ap (λ n. rows_where (contains s) 0 n) split
    ∙ rows_where_append (contains s) s.nrows (nwords s * 64 - s.nrows) 0
    ∙ rw (tail, append-nil)
  where
    at_bit :
        (row k i : ℕ)
        → i < 64
        → row ≡ k * 64 + i
        → contains s row ≡ test_bit (word_at s k) i && ltb row s.nrows
    at_bit row k i b e =
        let q : row / 64 ≡ k = omega arith in
        let r : row % 64 ≡ i = omega arith in
        let c : contains s row ≡ test_bit (word_at s k) i = contains-test_bit s row ∙ rw (q, r) in
        let out = v.within row in ground (arith, c, out)
