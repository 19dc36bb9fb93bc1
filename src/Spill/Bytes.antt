-- ===== src/Spill/Bytes.antt =====
-- spill/spill.c: the bytes that LogicalTapeWrite and BufFileWrite copy from memory. A byte is a word
-- of eight bits; numbers have their lowest byte first.
use pg_batch.Prelude.{
  ℕ, zero, suc, ◌+◌, ◌-◌, ◌*◌, ◌/◌, ◌%◌, ◌^◌, ◌<◌, ◌≡◌, refl, sym, ap, Bool, true, false, List, [],
  ◌∷◌, ◌++◌, arith, length, take, drop, length-append, ltb, ◌==◌, if◌then◌else◌,
}
use pg_batch.Prelude.Int.{ℤ, pos, negsuc}
use pg_batch.Postgres.{fits_int32, to_uint32}
use pg_batch.Bits.{Word}

-- The `n` lowest bits of a number.
bits : ℕ → ℕ → Word
bits zero v = []
bits (suc n) v = (v % 2 == 1) ∷ bits n (v / 2)

abbrev bit_value : Bool → ℕ
bit_value true = 1
bit_value false = 0

number : Word → ℕ
number [] = 0
number (b ∷ w) = bit_value b + 2 * number w

-- The `n` lowest bytes of a number.
unfoldable pub bytes : ℕ → ℕ → List Word
unfolding bits
bytes zero v = []
bytes (suc n) v = bits 8 v ∷ bytes n (v / 256)

pub from_bytes : List Word → ℕ
unfolding number
from_bytes [] = 0
from_bytes (b ∷ bs) = number b + 256 * from_bytes bs

-- The bytes of an array of uint32, and the array that bytes hold.
unfoldable pub words : List ℕ → List Word
words [] = []
words (x ∷ xs) = bytes 4 x ++ words xs

unfoldable pub read_words : ℕ → List Word → List ℕ
read_words zero bs = []
read_words (suc n) bs = from_bytes (take 4 bs) ∷ read_words n (drop 4 bs)

pub to_int32 : ℕ → ℤ
to_int32 n = if ltb n (2 ^ 31) then pos n else negsuc (2 ^ 32 - 1 - n)

abbrev pub All {ℓ κ} : {A : Type ℓ} → (A → Type κ) → List A → Type κ
All P [] = Unit
All P (x ∷ xs) = P x × All P xs

abbrev pub IsUint32 : ℕ → Type 0
IsUint32 n = n < 2 ^ 32

bit_value_lem : (v : ℕ) → bit_value (v % 2 == 1) ≡ v % 2
bit_value_lem v = ground arith

number-bits : (v : ℕ) → number (bits 8 v) ≡ v % 256
unfolding number bits
number-bits v = omega (arith, bit_value_lem)

pub length-bytes : (n v : ℕ) → length (bytes n v) ≡ n
unfolding bytes
length-bytes zero v = refl
length-bytes (suc n) v = ap suc (length-bytes n (v / 256))

pub from_bytes-bytes_2 : (v : ℕ) → v < 2 ^ 16 → from_bytes (bytes 2 v) ≡ v
unfolding from_bytes bytes
from_bytes-bytes_2 v h = omega (arith, number-bits v, number-bits (v / 256))

pub from_bytes-bytes_4 : (v : ℕ) → IsUint32 v → from_bytes (bytes 4 v) ≡ v
unfolding from_bytes bytes
from_bytes-bytes_4 v h = omega (
  arith,
  number-bits v,
  number-bits (v / 256),
  number-bits (v / 256 / 256),
  number-bits (v / 256 / 256 / 256),
)

pub length-words : (xs : List ℕ) → length (words xs) ≡ 4 * length xs
unfolding words
length-words [] = omega arith
length-words (x ∷ xs) =
    omega (arith, length-append (bytes 4 x) (words xs), length-bytes 4 x, length-words xs)

module _ {ℓ} {A : Type ℓ} where
  pub take-append : (xs ys : List A) (n : ℕ) → n ≡ length xs → take n (xs ++ ys) ≡ xs
  take-append [] ys zero e = refl
  take-append [] ys (suc n) e = absurd (omega arith)
  take-append (x ∷ xs) ys zero e = absurd (omega arith)
  take-append (x ∷ xs) ys (suc n) e = ap (◌∷◌ x) (take-append xs ys n (omega arith))

  pub drop-append : (xs ys : List A) (n : ℕ) → n ≡ length xs → drop n (xs ++ ys) ≡ ys
  drop-append [] ys zero e = refl
  drop-append [] ys (suc n) e = absurd (omega arith)
  drop-append (x ∷ xs) ys zero e = absurd (omega arith)
  drop-append (x ∷ xs) ys (suc n) e = drop-append xs ys n (omega arith)

pub read_words-words : (xs : List ℕ) → All IsUint32 xs → read_words (length xs) (words xs) ≡ xs
unfolding words read_words
read_words-words [] h = refl
read_words-words (x ∷ xs) h =
    rw
      (
        take-append (bytes 4 x) (words xs) 4 (sym (length-bytes 4 x)),
        drop-append (bytes 4 x) (words xs) 4 (sym (length-bytes 4 x)),
        from_bytes-bytes_4 x h.0,
      )
      (ap (◌∷◌ x) (read_words-words xs h.1))

pub to_uint32-IsUint32 : (a : ℤ) → IsUint32 (to_uint32 a)
unfolding to_uint32
to_uint32-IsUint32 (pos n) = omega arith
to_uint32-IsUint32 (negsuc n) = omega arith

pub to_int32-to_uint32 : (a : ℤ) → fits_int32 a ≡ true → to_int32 (to_uint32 a) ≡ a
unfolding to_int32 to_uint32
to_int32-to_uint32 (pos n) h = ground arith
to_int32-to_uint32 (negsuc n) h = ground arith
