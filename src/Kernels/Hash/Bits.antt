-- ===== src/Kernels/Hash/Bits.antt =====
-- kernels/int4_hash.c: the loops over the rows of one word.
use pg_batch.Prelude.{
  ℕ, ◌+◌, ◌<◌, ◌≡◌, sym, ◌∙◌, inl, inr, Bool, not, ◌&&◌, ◌||◌, arith, length, ◌==◌, ==_iff,
  if◌then◌else◌, Bool-cases,
}
use pg_batch.Bits.{Word, test_bit, bit_not, one_at}
use pg_batch.Bits.Laws.{
  test_bit-and, test_bit-or, test_bit-not, test_bit-one_at, length-and, length-or, length-not,
  length-one_at,
}
use pg_batch.Kernels.Vector.{Int4Vector, row_is_null, row_value}
use pg_batch.Kernels.Hash.{
  HashFn, Hashes, without, key_is_null, key_hash, hash_value, hash_bit, two_bit,
}

test_bit-without :
    (w : Word) (k i : ℕ) → k < 64 → i < 64 → test_bit (without w k) i ≡ test_bit w i && not (i == k)
test_bit-without w k i hk hi =
    test_bit-and w (bit_not (one_at 64 k)) i
    ∙ rw (test_bit-not (one_at 64 k) i (rw (length-one_at 64 k) hi), test_bit-one_at 64 k i hk)

length-without : (w : Word) (k : ℕ) → length w ≡ 64 → length (without w k) ≡ 64
length-without w k h =
    length-and w (bit_not (one_at 64 k)) (h ∙ sym (length-not (one_at 64 k) ∙ length-one_at 64 k))
    ∙ h

-- What a loop body does to the hashes and to the word at one row: it may set the hash of that row,
-- by a test of the row, and it sets or clears no bit but the row's.
pub record IsBody (body : Hashes × Word → ℕ → Hashes × Word) (first : ℕ) (keep : ℕ → Bool)
    (new : ℕ → ℕ → ℕ) (bit : Bool → ℕ → Bool) : Type 0 where
  pub hash_at :
      (s : Hashes × Word) (k r : ℕ)
      → (body s k).0 r ≡ (if (r == first + k) && keep r then new r (s.0 r) else s.0 r)
  pub bit_at :
      (s : Hashes × Word) (k i : ℕ)
      → length (s.1) ≡ 64
      → k < 64
      → i < 64
      → test_bit ((body s k).1) i
        ≡ (if i == k then bit (test_bit (s.1) i) (first + i) else test_bit (s.1) i)
  pub width : (s : Hashes × Word) (k : ℕ) → length (s.1) ≡ 64 → length ((body s k).1) ≡ 64

module _ ⦃fn : HashFn⦄ where
  -- The hash that a key gives to a row, from the hash that the row has.
  unfoldable pub mixed : Int4Vector → ℕ → ℕ → ℕ → ℕ
  mixed column key row old =
      if key == 0
      then key_hash (row_value column row)
      else fn.hash_combine old (key_hash (row_value column row))

  abbrev pub both_hash : Int4Vector → Int4Vector → ℕ → ℕ → ℕ
  both_hash left right row old =
      fn.hash_combine (key_hash (row_value left row)) (key_hash (row_value right row))

  abbrev pub both_valid : Int4Vector → Int4Vector → ℕ → Bool
  both_valid left right row = not (row_is_null left row) && not (row_is_null right row)

  pub hash_bit-IsBody :
      (column : Int4Vector) (key first : ℕ)
      → IsBody
          (hash_bit column key first)
          first
          (λ r. not (key_is_null column r))
          (mixed column key)
          (λ b r. b && not (key_is_null column r))
  unfolding hash_bit hash_value mixed
  hash_bit-IsBody column key first = record {
    hash_at = λ s k r. elim (Bool-cases (key_is_null column (first + k))) [
      | inl null ↦ rw null (elim (Bool-cases (r == first + k)) [
        | inl here ↦ let e : r ≡ first + k = (==_iff _ _).0 here in rw (here, e, null)
        | inr other ↦ rw other
      ])
      | inr value ↦ rw value (elim (Bool-cases (r == first + k)) [
        | inl here ↦ let e : r ≡ first + k = (==_iff _ _).0 here in rw (here, e, value)
        | inr other ↦ rw other
      ])
    ];
    bit_at = λ s k i long hk hi. elim (Bool-cases (key_is_null column (first + k))) [
      | inl null ↦
          rw (null, test_bit-without (s.1) k i hk hi)
            (elim (Bool-cases (i == k)) [
              | inl here ↦ let e : i ≡ k = (==_iff _ _).0 here in rw (here, e, null)
              | inr other ↦ rw other (ground arith)
            ])
      | inr value ↦ rw value (elim (Bool-cases (i == k)) [
        | inl here ↦ let e : i ≡ k = (==_iff _ _).0 here in rw (here, e, value) (ground arith)
        | inr other ↦ rw other
      ])
    ];
    width = λ s k long. elim (Bool-cases (key_is_null column (first + k))) [
      | inl null ↦ rw null (length-without (s.1) k long)
      | inr value ↦ rw value long
    ];
  }

  pub two_bit-IsBody :
      (left right : Int4Vector) (first : ℕ)
      → IsBody
          (two_bit left right first)
          first
          (both_valid left right)
          (both_hash left right)
          (λ b r. b || both_valid left right r)
  unfolding two_bit
  two_bit-IsBody left right first = record {
    hash_at = λ s k r. elim (Bool-cases (both_valid left right (first + k))) [
      | inl valid ↦ rw valid (elim (Bool-cases (r == first + k)) [
        | inl here ↦ let e : r ≡ first + k = (==_iff _ _).0 here in rw (here, e, valid)
        | inr other ↦ rw other
      ])
      | inr null ↦ rw null (elim (Bool-cases (r == first + k)) [
        | inl here ↦ let e : r ≡ first + k = (==_iff _ _).0 here in rw (here, e, null)
        | inr other ↦ rw other
      ])
    ];
    bit_at = λ s k i long hk hi. elim (Bool-cases (both_valid left right (first + k))) [
      | inl valid ↦
          rw (valid, test_bit-or (s.1) (one_at 64 k) i, test_bit-one_at 64 k i hk)
            (elim (Bool-cases (i == k)) [
              | inl here ↦ let e : i ≡ k = (==_iff _ _).0 here in rw (here, e, valid)
              | inr other ↦ rw other (ground arith)
            ])
      | inr null ↦ rw null (elim (Bool-cases (i == k)) [
        | inl here ↦ let e : i ≡ k = (==_iff _ _).0 here in rw (here, e, null) (ground arith)
        | inr other ↦ rw other
      ])
    ];
    width = λ s k long. elim (Bool-cases (both_valid left right (first + k))) [
      | inl valid ↦
          rw valid (length-or (s.1) (one_at 64 k) (long ∙ sym (length-one_at 64 k)) ∙ long)
      | inr null ↦ rw null long
    ];
  }
