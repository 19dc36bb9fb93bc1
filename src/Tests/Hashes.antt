-- ===== src/Tests/Hashes.antt =====
-- The hash kernel at the sample batch, over one, two and three keys.
use pg_batch.Prelude.{
  ◌+◌, ◌*◌, ◌%◌, ◌^◌, ◌≡◌, ◌≢◌, true, false, ◌&&◌, List, [], ◌∷◌, none, some, arith,
}
use pg_batch.Prelude.Int.{pos, negsuc}
use pg_batch.Bits.{is_zero, bit_and, one_at}
use pg_batch.Batch.Selection.{contains}
use pg_batch.Kernels.Vector.{Int4Vector, datum, packed, row_is_null}
use pg_batch.Kernels.Hash.{HashFn, hash_int4}
use pg_batch.Kernels.Hash.Key.{no_null, row_hash}
use pg_batch.Kernels.Hash.Keys.{valid_rows}
use pg_batch.Kernels.Hash.Rows.{contains-hash_int4, hash_int4-row_hash}
use pg_batch.Tests.{bitutils, five, five-IsWellFormed}

instance abbrev hash_fn : HashFn
hash_fn = record {
  murmurhash32 = λ x. (x * 5 + 1) % 2 ^ 32;
  hash_combine = λ a b. (a * 31 + b) % 2 ^ 32;
}

abbrev first_key : Int4Vector
first_key =
    datum (pos 4 ∷ pos 5 ∷ pos 6 ∷ negsuc 7 ∷ pos 8 ∷ [])
      (false ∷ true ∷ false ∷ false ∷ false ∷ [])

-- Its rows start at the third value of the arrays.
abbrev second_key : Int4Vector
second_key =
    packed (pos 0 ∷ pos 0 ∷ pos 10 ∷ pos 11 ∷ pos 12 ∷ pos 13 ∷ pos 14 ∷ [])
      (some ((true ∷ true ∷ true ∷ true ∷ true ∷ true ∷ false ∷ false ∷ []) ∷ [])) 2

abbrev third_key : Int4Vector
third_key = packed (pos 1 ∷ pos 2 ∷ pos 3 ∷ pos 4 ∷ pos 5 ∷ []) none 0

abbrev keys : List Int4Vector
keys = first_key ∷ second_key ∷ third_key ∷ []

keys_given : keys ≢ []
keys_given e = cc

contains-hash_int4_example :
    contains (valid_rows five (hash_int4 keys five (λ r. 0))) 4 ≡ contains five 4 && no_null keys 4
contains-hash_int4_example =
    contains-hash_int4 keys five (λ r. 0) 4 keys_given five-IsWellFormed
      (omega arith, (omega arith, (omega arith, tt))) (omega arith)

three_valid : contains (valid_rows five (hash_int4 keys five (λ r. 0))) 3 ≡ true
unfolding contains no_null row_is_null is_zero bit_and one_at
three_valid = rw (
    contains-hash_int4 keys five (λ r. 0) 3 keys_given five-IsWellFormed
      (omega arith, (omega arith, (omega arith, tt))) (omega arith))

hash_int4-row_hash_example : (hash_int4 keys five (λ r. 0)).0 3 ≡ row_hash keys 3
hash_int4-row_hash_example =
    hash_int4-row_hash keys five (λ r. 0) 3 keys_given five-IsWellFormed
      (omega arith, (omega arith, (omega arith, tt))) (omega arith) three_valid
