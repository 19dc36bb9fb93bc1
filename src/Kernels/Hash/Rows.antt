-- ===== src/Kernels/Hash/Rows.antt =====
-- kernels/int4_hash.c: pg_batch_hash_int4 at one row, whatever the number of keys.
use pg_batch.Prelude.{
  ℕ, zero, suc, ◌+◌, ◌*◌, ◌/◌, ◌%◌, ◌<◌, ◌≡◌, ◌≢◌, refl, sym, ap, ◌∙◌, Bool, true, false, not, ◌&&◌,
  ◌||◌, List, [], ◌∷◌, map, arith, length, length-map, get_or, get_or-replicate, if◌then◌else◌,
}
use pg_batch.Bits.{Word, test_bit, zeros}
use pg_batch.Postgres.{PgBitutils}
use pg_batch.Batch.Selection.{Selection, IsWellFormed, contains}
use pg_batch.Batch.Selection.Rows.{contains-test_bit}
use pg_batch.Kernels.Vector.{Int4Vector, row_is_null}
use pg_batch.Kernels.Hash.{HashFn, Hashes, two_bit, masked, hash_two_keys, hash_int4}
use pg_batch.Kernels.Hash.Bits.{both_hash, both_valid, two_bit-IsBody}
use pg_batch.Kernels.Hash.Loop.{
  AreWords, Pairs, rows_at, start_at, loop_words, two_words-loop_words, loop_words_hash,
  loop_words_bit,
}
use pg_batch.Kernels.Hash.Key.{no_null, AllAddressable, combined, row_hash, Are64, Are64-at}
use pg_batch.Kernels.Hash.Keys.{
  RowDone, general-RowDone, valid_rows, masked-contains, length-masked, masked-Are64,
}

from_zero : List Word → Pairs
from_zero = map (λ w. (w, zeros 64))

rows-from_zero : (ws : List Word) (k : ℕ) → rows_at (from_zero ws) k ≡ get_or ws k []
unfolding from_zero
rows-from_zero [] k = refl
rows-from_zero (w ∷ ws) zero = refl
rows-from_zero (w ∷ ws) (suc k) = rows-from_zero ws k

start-from_zero : (ws : List Word) (k i : ℕ) → test_bit (start_at (from_zero ws) k) i ≡ false
unfolding from_zero
start-from_zero [] k i = refl
start-from_zero (w ∷ ws) zero i = get_or-replicate 64 i false
start-from_zero (w ∷ ws) (suc k) i = start-from_zero ws k i

from_zero-AreWords : (ws : List Word) → Are64 ws → AreWords (from_zero ws)
unfolding from_zero
from_zero-AreWords [] h = tt
from_zero-AreWords (w ∷ ws) h = (h.0, refl, from_zero-AreWords ws h.1)

module _ ⦃fn : HashFn⦄ ⦃pg : PgBitutils⦄ where
  two-RowDone :
      (left right : Int4Vector) (s : Selection) (hashes : Hashes) (row : ℕ)
      → IsWellFormed s
      → row < s.nrows
      → RowDone s row
          (no_null (left ∷ right ∷ []) row)
          (row_hash (left ∷ right ∷ []) row)
          (hash_two_keys left right s hashes)
  unfolding hash_two_keys no_null row_hash combined from_zero
  two-RowDone left right s hashes row v h =
      let ws = masked s.nrows 0 s.words in
      let ps = from_zero ws in
      let body = two_bit left right in
      let keep = both_valid left right in
      let new = both_hash left right in
      let bit = λ (b : Bool) (r : ℕ). b || both_valid left right r in
      let is_body = two_bit-IsBody left right in
      let k = row / 64 in
      let i = row % 64 in
      let words =
        from_zero-AreWords ws (masked-Are64 s.nrows 0 s.words (Are64-at s.words v.widths)) in
      let count : length ps ≡ length ws = length-map (λ w. (w, zeros 64)) ws in
      let inside : k < length ps =
        omega (arith, count, length-masked s.nrows 0 s.words, v.enough) in
      let small : i < 64 = omega arith in
      let here : (0 + k) * 64 + i ≡ row = omega arith in
      let visited : test_bit (rows_at ps k) i ≡ contains s row =
        ap (λ w. test_bit w i) (rows-from_zero ws k) ∙ masked-contains s row v h in
      let bits =
        rw (visited, start-from_zero ws k i, here) at
          (loop_words_bit body keep new bit is_body ps 0 hashes k i words inside small) in
      let hash = rw visited at (
        loop_words_hash body keep new bit is_body ps 0 hashes k i row words inside small
          (sym here)) in
      let result = loop_words body 0 ps hashes in
      let chosen : contains (valid_rows s result) row
          ≡ contains s row && both_valid left right row =
        contains-test_bit (valid_rows s result) row
        ∙ bits
        ∙ only (contains s row) (both_valid left right row) in
      rw (two_words-loop_words left right s.nrows 0 s.words hashes) (record {
        contained =
            chosen
            ∙ and_true (contains s row) (not (row_is_null left row)) (not (row_is_null right row));
        hashed = λ on. hash ∙ rw (sym chosen ∙ on);
      })
    where
      only : (c v : Bool) → (if c then false || v else false) ≡ c && v
      only true v = refl
      only false v = refl

      and_true : (c l r : Bool) → c && (l && r) ≡ c && (l && (r && true))
      and_true c l r = ground arith

  all-RowDone :
      (keys : List Int4Vector) (s : Selection) (hashes : Hashes) (row : ℕ)
      → keys ≢ []
      → IsWellFormed s
      → AllAddressable keys s.nrows
      → row < s.nrows
      → RowDone s row (no_null keys row) (row_hash keys row) (hash_int4 keys s hashes)
  unfolding hash_int4
  all-RowDone [] s hashes row has_key v a h = absurd (has_key refl)
  all-RowDone (column ∷ []) s hashes row has_key v a h =
      general-RowDone column [] s hashes row v a h
  all-RowDone (left ∷ right ∷ []) s hashes row has_key v a h =
      two-RowDone left right s hashes row v h
  all-RowDone (left ∷ right ∷ third ∷ keys) s hashes row has_key v a h =
      general-RowDone left (right ∷ third ∷ keys) s hashes row v a h

  -- For one or more addressable keys and a well-formed selection, the rows that the kernel reports as
  -- valid are, on each of its paths, exactly the selected rows in which no key is null.
  pub contains-hash_int4 :
      (keys : List Int4Vector) (s : Selection) (hashes : Hashes) (row : ℕ)
      → keys ≢ []
      → IsWellFormed s
      → AllAddressable keys s.nrows
      → row < s.nrows
      → contains (valid_rows s (hash_int4 keys s hashes)) row ≡ contains s row && no_null keys row
  contains-hash_int4 keys s hashes row has_key v a h =
      (all-RowDone keys s hashes row has_key v a h).contained

  -- For one or more addressable keys and a well-formed selection, the hash of a row that is reported
  -- as valid combines the hashes of its keys from the left, whatever the array held before: the
  -- unrolled path over two keys gives the hash of the general one.
  pub hash_int4-row_hash :
      (keys : List Int4Vector) (s : Selection) (hashes : Hashes) (row : ℕ)
      → keys ≢ []
      → IsWellFormed s
      → AllAddressable keys s.nrows
      → row < s.nrows
      → contains (valid_rows s (hash_int4 keys s hashes)) row ≡ true
      → (hash_int4 keys s hashes).0 row ≡ row_hash keys row
  hash_int4-row_hash keys s hashes row has_key v a h on =
      (all-RowDone keys s hashes row has_key v a h).hashed on
