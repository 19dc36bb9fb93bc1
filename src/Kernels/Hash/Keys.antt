-- ===== src/Kernels/Hash/Keys.antt =====
-- kernels/int4_hash.c: pg_batch_hash_int4 against the hash of a row, on both of its paths.
use pg_batch.Prelude.{
  ℕ, zero, suc, ◌+◌, ◌*◌, ◌/◌, ◌%◌, ◌<◌, ◌≡◌, refl, sym, ap, ◌∙◌, Bool, true, false, not, ◌&&◌,
  List, [], ◌∷◌, arith, length, get_or, ltb, ◌==◌,
}
use pg_batch.Bits.{Word, test_bit}
use pg_batch.Bits.Laws.{test_bit-and, length-and}
use pg_batch.Postgres.{PgBitutils}
use pg_batch.Batch.Selection.{Selection, IsWellFormed, contains}
use pg_batch.Batch.Selection.Rows.{contains-test_bit}
use pg_batch.Kernels.Vector.{Int4Vector, row_value}
use pg_batch.Kernels.Mask.{word_mask, test_bit-word_mask, length-word_mask}
use pg_batch.Kernels.Hash.{
  HashFn, Hashes, key_is_null, key_hash, hash_words, hash_keys, masked, hash_general,
}
use pg_batch.Kernels.Hash.Bits.{mixed}
use pg_batch.Kernels.Hash.Key.{
  no_null, AllAddressable, combined, row_hash, Are64, Are64-at, hash_words-KeyDone,
  key_is_null-row_is_null,
}

-- The tests of the loops over the keys.
no_key_null : List Int4Vector → ℕ → Bool
no_key_null [] row = true
no_key_null (column ∷ keys) row = not (key_is_null column row) && no_key_null keys row

no_key_null-no_null :
    (keys : List Int4Vector) (nrows row : ℕ)
    → AllAddressable keys nrows
    → row < nrows
    → no_key_null keys row ≡ no_null keys row
unfolding no_key_null no_null
no_key_null-no_null [] nrows row a h = refl
no_key_null-no_null (column ∷ keys) nrows row a h =
    rw
      (key_is_null-row_is_null column nrows row (a.0) h, no_key_null-no_null keys nrows row (a.1) h)

module _ ⦃fn : HashFn⦄ where
  chain : List Int4Vector → ℕ → ℕ → ℕ → ℕ
  chain [] key row old = old
  chain (column ∷ keys) key row old = chain keys (key + 1) row (mixed column key row old)

  chain-combined :
      (keys : List Int4Vector) (key row old : ℕ)
      → 0 < key
      → chain keys key row old ≡ combined keys row old
  unfolding chain combined mixed
  chain-combined [] key row old h = refl
  chain-combined (column ∷ keys) key row old h =
      let later : (key == 0) ≡ false = ground arith in
      rw later (
        chain-combined keys (key + 1) row (fn.hash_combine old (key_hash (row_value column row)))
          (omega arith))

  chain-row_hash :
      (column : Int4Vector) (keys : List Int4Vector) (row old : ℕ)
      → chain (column ∷ keys) 0 row old ≡ row_hash (column ∷ keys) row
  unfolding chain row_hash mixed
  chain-row_hash column keys row old =
      chain-combined keys (0 + 1) row (key_hash (row_value column row)) (omega arith)

module _ ⦃fn : HashFn⦄ ⦃pg : PgBitutils⦄ where
  -- All keys: the rows with a null leave the words, the others have their hashes chained.
  record KeysDone (keys : List Int4Vector) (key : ℕ) (ws after : List Word) (hashes result : Hashes)
      : Type 0 where
    bit :
        (k i : ℕ)
        → k < length ws
        → i < 64
        → test_bit (get_or after k []) i
          ≡ test_bit (get_or ws k []) i && no_key_null keys (k * 64 + i)
    hash :
        (k i : ℕ)
        → k < length ws
        → i < 64
        → test_bit (get_or after k []) i ≡ true
        → result (k * 64 + i) ≡ chain keys key (k * 64 + i) (hashes (k * 64 + i))

  hash_keys-KeysDone :
      (keys : List Int4Vector) (key : ℕ) (ws : List Word) (hashes : Hashes)
      → Are64 ws
      → KeysDone keys key ws
          ((hash_keys keys key ws hashes).1)
          hashes
          ((hash_keys keys key ws hashes).0)
  unfolding hash_keys no_key_null chain
  hash_keys-KeysDone [] key ws hashes h = record {
    bit = λ k i a small. ground arith;
    hash = λ k i a small on. refl;
  }
  hash_keys-KeysDone (column ∷ keys) key ws hashes h =
      let first = hash_words-KeyDone column key ws hashes h in
      let after = hash_words column key 0 ws hashes in
      let rest = hash_keys-KeysDone keys (key + 1) (after.1) (after.0) first.words64 in
      record {
        bit = λ k i a small.
            rest.bit k i (omega (arith, a, first.same_length)) small
            ∙ rw (first.bit k i a small) (ground arith);
        hash = λ k i a small on.
            let inside : k < length (after.1) = omega (arith, a, first.same_length) in
            let still = first.bit k i a small in
            let bits = rest.bit k i inside small in
            let valid : (test_bit (get_or ws k []) i && not (key_is_null column (k * 64 + i)))
                ≡ true =
              ground (arith, still, bits, on) in
            rest.hash k i inside small on
            ∙ ap (chain keys (key + 1) (k * 64 + i)) (first.hash k i a small ∙ rw valid);
      }

masked_bit :
    (nrows word : ℕ) (ws : List Word) (k i : ℕ)
    → k < length ws
    → i < 64
    → test_bit (get_or (masked nrows word ws) k []) i
      ≡ test_bit (get_or ws k []) i && ltb ((word + k) * 64 + i) nrows
unfolding masked
masked_bit nrows word [] k i h small = elim h [ ]
masked_bit nrows word (w ∷ ws) zero i h small =
    let z : word + 0 ≡ word = omega arith in
    test_bit-and w (word_mask nrows word) i ∙ rw (test_bit-word_mask nrows word i small, z)
masked_bit nrows word (w ∷ ws) (suc k) i h small =
    let z : word + suc k ≡ word + 1 + k = omega arith in
    rw z (masked_bit nrows (word + 1) ws k i (omega arith) small)

pub length-masked : (nrows word : ℕ) (ws : List Word) → length (masked nrows word ws) ≡ length ws
unfolding masked
length-masked nrows word [] = refl
length-masked nrows word (w ∷ ws) = ap suc (length-masked nrows (word + 1) ws)

pub masked-Are64 : (nrows word : ℕ) (ws : List Word) → Are64 ws → Are64 (masked nrows word ws)
unfolding masked
masked-Are64 nrows word [] h = tt
masked-Are64 nrows word (w ∷ ws) h = (
  length-and w (word_mask nrows word) (h.0 ∙ sym (length-word_mask nrows word)) ∙ h.0,
  masked-Are64 nrows (word + 1) ws h.1,
)

-- The bit of a row of a well-formed selection in its masked words.
pub masked-contains :
    (s : Selection) (row : ℕ)
    → IsWellFormed s
    → row < s.nrows
    → test_bit (get_or (masked s.nrows 0 s.words) (row / 64) []) (row % 64) ≡ contains s row
masked-contains s row v h =
    let inside : row / 64 < length s.words = omega (arith, v.enough) in
    let here : (0 + row / 64) * 64 + row % 64 ≡ row = omega arith in
    masked_bit s.nrows 0 s.words (row / 64) (row % 64) inside (omega arith)
    ∙ rw (here, contains-test_bit s row) (ground arith)

-- The selection that the words of valid rows are.
abbrev pub valid_rows : Selection → Hashes × List Word → Selection
valid_rows s result = record { nrows = s.nrows; words = result.1 }

module _ ⦃fn : HashFn⦄ ⦃pg : PgBitutils⦄ where
  -- What the kernel does to one row.
  pub record RowDone (s : Selection) (row : ℕ) (valid : Bool) (hash : ℕ)
      (result : Hashes × List Word) : Type 0 where
    pub contained : contains (valid_rows s result) row ≡ contains s row && valid
    pub hashed : contains (valid_rows s result) row ≡ true → result.0 row ≡ hash

  pub general-RowDone :
      (column : Int4Vector) (keys : List Int4Vector) (s : Selection) (hashes : Hashes) (row : ℕ)
      → IsWellFormed s
      → AllAddressable (column ∷ keys) s.nrows
      → row < s.nrows
      → RowDone s row
          (no_null (column ∷ keys) row)
          (row_hash (column ∷ keys) row)
          (hash_general (column ∷ keys) s hashes)
  unfolding hash_general
  general-RowDone column keys s hashes row v a h =
      let ws = masked s.nrows 0 s.words in
      let all = column ∷ keys in
      let done =
        hash_keys-KeysDone all 0 ws hashes
          (masked-Are64 s.nrows 0 s.words (Are64-at s.words v.widths)) in
      let k = row / 64 in
      let i = row % 64 in
      let inside : k < length ws = omega (arith, length-masked s.nrows 0 s.words, v.enough) in
      let small : i < 64 = omega arith in
      let here : k * 64 + i ≡ row = omega arith in
      let bit = done.bit k i inside small in
      let hash = done.hash k i inside small in
      record {
        contained =
            contains-test_bit (valid_rows s (hash_keys all 0 ws hashes)) row
            ∙ bit
            ∙ rw (here, masked-contains s row v h, no_key_null-no_null all s.nrows row a h);
        hashed = λ on.
            let on_bit =
              sym (contains-test_bit (valid_rows s (hash_keys all 0 ws hashes)) row) ∙ on in
            rw here at (hash on_bit) ∙ chain-row_hash column keys row (hashes row);
      }
