-- ===== src/Kernels/Hash/Key.antt =====
-- kernels/int4_hash.c: what the pass over one key does, and the hash of a row.
use pg_batch.Prelude.{
  ℕ, zero, suc, ◌+◌, ◌*◌, ◌<◌, ◌≡◌, refl, sym, ◌∙◌, Bool, true, false, not, ◌&&◌, List, [], ◌∷◌,
  map, none, some, arith, length, length-map, get_or, if◌then◌else◌,
}
use pg_batch.Bits.{Word, test_bit}
use pg_batch.Postgres.{PgBitutils}
use pg_batch.Kernels.Vector.{
  Int4Vector, datum, packed, Addressable, row_is_null, row_value, row_is_null-packed,
}
use pg_batch.Kernels.Hash.{HashFn, Hashes, key_is_null, key_hash, hash_bit, hash_words}
use pg_batch.Kernels.Hash.Bits.{mixed, hash_bit-IsBody}
use pg_batch.Kernels.Hash.Loop.{
  AreWords, Pairs, rows_at, start_at, loop_words, hash_words-loop_words, length-loop_words,
  loop_words_width, loop_words_hash, loop_words_bit,
}

-- The bit that the loops test is the row's null flag, where the row number fits an int.
pub key_is_null-row_is_null :
    (column : Int4Vector) (nrows row : ℕ)
    → Addressable column nrows
    → row < nrows
    → key_is_null column row ≡ row_is_null column row
unfolding key_is_null
key_is_null-row_is_null (datum values isnull) nrows row h small = unfold row_is_null in refl
key_is_null-row_is_null (packed values none offset) nrows row h small = unfold row_is_null in refl
key_is_null-row_is_null (packed values (some validity) offset) nrows row h small =
    sym (row_is_null-packed values validity offset row (omega arith))

-- No key of the row is null.
unfoldable pub no_null : List Int4Vector → ℕ → Bool
no_null [] row = true
no_null (column ∷ keys) row = not (row_is_null column row) && no_null keys row

abbrev pub AllAddressable : List Int4Vector → ℕ → Type 0
AllAddressable [] nrows = Unit {0}
AllAddressable (column ∷ keys) nrows = Addressable column nrows × AllAddressable keys nrows

module _ ⦃fn : HashFn⦄ where
  -- The hashes of the keys, combined from the left.
  unfoldable pub combined : List Int4Vector → ℕ → ℕ → ℕ
  combined [] row hash = hash
  combined (column ∷ keys) row hash =
      combined keys row (fn.hash_combine hash (key_hash (row_value column row)))

  unfoldable pub row_hash : List Int4Vector → ℕ → ℕ
  row_hash [] row = 0
  row_hash (column ∷ keys) row = combined keys row (key_hash (row_value column row))

doubled : List Word → Pairs
doubled = map (λ w. (w, w))

rows-doubled : (ws : List Word) (k : ℕ) → rows_at (doubled ws) k ≡ get_or ws k []
unfolding doubled
rows-doubled [] k = refl
rows-doubled (w ∷ ws) zero = refl
rows-doubled (w ∷ ws) (suc k) = rows-doubled ws k

start-doubled : (ws : List Word) (k : ℕ) → start_at (doubled ws) k ≡ get_or ws k []
unfolding doubled
start-doubled [] k = refl
start-doubled (w ∷ ws) zero = refl
start-doubled (w ∷ ws) (suc k) = start-doubled ws k

-- Words of 64 bits.
abbrev pub Are64 : List Word → Type 0
Are64 [] = Unit {0}
Are64 (w ∷ ws) = (length w ≡ 64) × Are64 ws

doubled-AreWords : (ws : List Word) → Are64 ws → AreWords (doubled ws)
unfolding doubled
doubled-AreWords [] h = tt
doubled-AreWords (w ∷ ws) h = (h.0, h.0, doubled-AreWords ws h.1)

pub Are64-at :
    (ws : List Word) → ((k : ℕ) → k < length ws → length (get_or ws k []) ≡ 64) → Are64 ws
Are64-at [] h = tt
Are64-at (w ∷ ws) h = (h 0 (omega arith), Are64-at ws (λ k a. h (suc k) (omega arith)))

module _ ⦃fn : HashFn⦄ ⦃pg : PgBitutils⦄ where
  -- One key: the rows whose key is null leave the words, the others have their hashes mixed.
  pub record KeyDone (column : Int4Vector) (key : ℕ) (ws after : List Word)
      (hashes mixed_in : Hashes) : Type 0 where
    pub same_length : length after ≡ length ws
    pub words64 : Are64 after
    pub bit :
        (k i : ℕ)
        → k < length ws
        → i < 64
        → test_bit (get_or after k []) i
          ≡ test_bit (get_or ws k []) i && not (key_is_null column (k * 64 + i))
    pub hash :
        (k i : ℕ)
        → k < length ws
        → i < 64
        → mixed_in (k * 64 + i) ≡ (
            if test_bit (get_or ws k []) i && not (key_is_null column (k * 64 + i))
            then mixed column key (k * 64 + i) (hashes (k * 64 + i))
            else hashes (k * 64 + i))

  kept_bit : (t v : Bool) → (if t then t && v else t) ≡ t && v
  kept_bit true v = refl
  kept_bit false v = refl

  pub hash_words-KeyDone :
      (column : Int4Vector) (key : ℕ) (ws : List Word) (hashes : Hashes)
      → Are64 ws
      → KeyDone column key ws
          ((hash_words column key 0 ws hashes).1)
          hashes
          ((hash_words column key 0 ws hashes).0)
  unfolding doubled
  hash_words-KeyDone column key ws hashes h =
      let ps = doubled ws in
      let body = hash_bit column key in
      let keep = λ (r : ℕ). not (key_is_null column r) in
      let new = mixed column key in
      let bit = λ (b : Bool) (r : ℕ). b && not (key_is_null column r) in
      let is_body = hash_bit-IsBody column key in
      let count : length ps ≡ length ws = length-map (λ w. (w, w)) ws in
      let long = length-loop_words body keep new bit is_body ps 0 hashes in
      let words = doubled-AreWords ws h in
      rw (hash_words-loop_words column key 0 ws hashes) (record {
        same_length = long ∙ count;
        words64 = Are64-at ((loop_words body 0 ps hashes).1) (λ k a.
            loop_words_width body keep new bit is_body ps 0 hashes k words
              (omega (arith, a, long)));
        bit = λ k i a small.
            let z : 0 + k ≡ k = omega arith in
            (rw (rows-doubled ws k, start-doubled ws k, z) at
              (loop_words_bit body keep new bit is_body ps 0 hashes k i words
                (omega (arith, a, count)) small))
            ∙ kept_bit (test_bit (get_or ws k []) i) (not (key_is_null column (k * 64 + i)));
        hash = λ k i a small. rw (rows-doubled ws k) at (
            loop_words_hash body keep new bit is_body ps 0 hashes k i (k * 64 + i) words
              (omega (arith, a, count)) small (omega arith));
      })
