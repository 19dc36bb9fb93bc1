-- ===== src/Kernels/Hash.antt =====
-- kernels/int4_hash.c: the hashes of the rows of a batch over int4 key columns. The array of hashes is
-- a function of the row; `valid_rows` is the list of its words.
pub mod Bits
pub mod Words
pub mod Loop
pub mod Key
pub mod Keys
pub mod Rows
use pg_batch.Prelude.{
  ℕ, zero, suc, ◌+◌, ◌*◌, ◌/◌, ◌%◌, ◌≡◌, Bool, true, false, not, ◌&&◌, List, [], ◌∷◌, Option, none,
  some, get_or, foldl, ◌==◌, if◌then◌else◌,
}
use pg_batch.Prelude.Int.{ℤ}
use pg_batch.Bits.{Word, is_zero, bit_and, bit_or, bit_not, one_at, zeros}
use pg_batch.Bits.Ones.{set_bits}
use pg_batch.Postgres.{PgBitutils, to_uint32}
use pg_batch.Batch.Selection.{Selection}
use pg_batch.Kernels.Vector.{Int4Vector, datum, packed, validity_bit, row_is_null, row_value}
use pg_batch.Kernels.Mask.{word_mask}

-- common/hashfn.h: murmurhash32 and hash_combine, functions of uint32 of which nothing more is used.
pub record HashFn : Type 0 where
  pub murmurhash32 : ℕ → ℕ
  pub hash_combine : ℕ → ℕ → ℕ

abbrev pub Hashes : Type 0
Hashes = ℕ → ℕ

abbrev pub put : Hashes → ℕ → ℕ → Hashes
put hashes row v r = if r == row then v else hashes r

-- The null tests of the loops over one key. The bit number of a packed row is an int64 here.
pub key_is_null : Int4Vector → ℕ → Bool
key_is_null (datum values isnull) row = get_or isnull row false
key_is_null (packed values none offset) row = false
key_is_null (packed values (some validity) offset) row = not (validity_bit validity (offset + row))

-- w & ~bit
abbrev pub without : Word → ℕ → Word
without w bitno = bit_and w (bit_not (one_at 64 bitno))

-- selection->words[word] & word_mask(nrows, word)
pub masked : ℕ → ℕ → List Word → List Word
masked nrows word [] = []
masked nrows word (w ∷ ws) = bit_and w (word_mask nrows word) ∷ masked nrows (word + 1) ws

module _ ⦃fn : HashFn⦄ where
  pub key_hash : ℤ → ℕ
  key_hash value = fn.murmurhash32 (to_uint32 value)

  pub hash_value : Hashes → ℕ → ℕ → ℤ → Hashes
  hash_value hashes row key value =
      put hashes row
        (if key == 0 then key_hash value else fn.hash_combine (hashes row) (key_hash value))

  -- The body of the loops over the rows of a word, for one key.
  pub hash_bit : Int4Vector → ℕ → ℕ → Hashes × Word → ℕ → Hashes × Word
  hash_bit column key first_row (hashes, w) bitno =
      let row = first_row + bitno in
      if key_is_null column row
      then (hashes, without w bitno)
      else (hash_value hashes row key (row_value column row), w)

  -- The body of the loop over two keys.
  pub two_bit : Int4Vector → Int4Vector → ℕ → Hashes × Word → ℕ → Hashes × Word
  two_bit left right first_row (hashes, w) bitno =
      let row = first_row + bitno in
      if not (row_is_null left row) && not (row_is_null right row)
      then (
        put hashes row
            (fn.hash_combine (key_hash (row_value left row)) (key_hash (row_value right row))),
        bit_or w (one_at 64 bitno),
      )
      else (hashes, w)

module _ ⦃fn : HashFn⦄ ⦃pg : PgBitutils⦄ where
  -- for (int word = 0; word < nwords; word++), for one key
  pub hash_words : Int4Vector → ℕ → ℕ → List Word → Hashes → Hashes × List Word
  hash_words column key word [] hashes = (hashes, [])
  hash_words column key word (w ∷ ws) hashes =
      let (after, valid) =
        if is_zero w
        then (hashes, w)
        else foldl (hash_bit column key (word * 64)) (hashes, w) (set_bits w) in
      let (last, rest) = hash_words column key (word + 1) ws after in (last, valid ∷ rest)

  -- for (int key = 0; key < nkeys; key++)
  pub hash_keys : List Int4Vector → ℕ → List Word → Hashes → Hashes × List Word
  hash_keys [] key ws hashes = (hashes, ws)
  hash_keys (column ∷ keys) key ws hashes =
      let (after, valid) = hash_words column key 0 ws hashes in hash_keys keys (key + 1) valid after

  pub two_words : Int4Vector → Int4Vector → ℕ → ℕ → List Word → Hashes → Hashes × List Word
  two_words left right nrows word [] hashes = (hashes, [])
  two_words left right nrows word (w ∷ ws) hashes =
      let rows = bit_and w (word_mask nrows word) in
      let (after, valid) =
        if is_zero rows
        then (hashes, zeros 64)
        else foldl (two_bit left right (word * 64)) (hashes, zeros 64) (set_bits rows) in
      let (last, rest) = two_words left right nrows (word + 1) ws after in (last, valid ∷ rest)

  pub hash_two_keys : Int4Vector → Int4Vector → Selection → Hashes → Hashes × List Word
  hash_two_keys left right selection hashes =
      two_words left right selection.nrows 0 selection.words hashes

  pub hash_general : List Int4Vector → Selection → Hashes → Hashes × List Word
  hash_general keys selection hashes =
      hash_keys keys 0 (masked selection.nrows 0 selection.words) hashes

  pub hash_int4 : List Int4Vector → Selection → Hashes → Hashes × List Word
  unfolding hash_two_keys hash_general
  hash_int4 (left ∷ right ∷ []) selection hashes = hash_two_keys left right selection hashes
  hash_int4 keys selection hashes = hash_general keys selection hashes
