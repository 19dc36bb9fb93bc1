-- ===== src/Kernels/Hash/Loop.antt =====
-- kernels/int4_hash.c: the loops over the words of a batch.
use pg_batch.Prelude.{
  ℕ, zero, suc, ◌+◌, ◌*◌, ◌≤◌, ◌<◌, ◌≡◌, refl, ap, ◌∙◌, inl, inr, Bool, ◌&&◌, List, [], ◌∷◌, map,
  arith, length, get_or, foldl, if◌then◌else◌, Bool-cases,
}
use pg_batch.Bits.{Word, test_bit, is_zero, bit_and, zeros, ones}
use pg_batch.Bits.Ones.{set_bits, set_bits-ones, ones-is_zero}
use pg_batch.Postgres.{PgBitutils}
use pg_batch.Kernels.Vector.{Int4Vector}
use pg_batch.Kernels.Mask.{word_mask}
use pg_batch.Kernels.Hash.{HashFn, Hashes, hash_bit, two_bit, hash_words, two_words, masked}
use pg_batch.Kernels.Hash.Bits.{IsBody}
use pg_batch.Kernels.Hash.Words.{run_width, run_outside, run_inside, run_bit}

-- A word of rows to visit, and the word that the loop starts from.
abbrev pub Pairs : Type 0
Pairs = List (Word × Word)

abbrev pub rows_at : Pairs → ℕ → Word
rows_at ps k = (get_or ps k ([], [])).0

abbrev pub start_at : Pairs → ℕ → Word
start_at ps k = (get_or ps k ([], [])).1

abbrev pub AreWords : Pairs → Type 0
AreWords [] = Unit {0}
AreWords ((rows, start) ∷ ps) = (length rows ≡ 64) × (length start ≡ 64) × AreWords ps

-- Both loops over words are this one.
pub loop_words : (ℕ → Hashes × Word → ℕ → Hashes × Word) → ℕ → Pairs → Hashes → Hashes × List Word
loop_words body word [] hashes = (hashes, [])
loop_words body word ((rows, start) ∷ ps) hashes =
    let (after, valid) = foldl (body (word * 64)) (hashes, start) (ones 0 rows) in
    let (last, rest) = loop_words body (word + 1) ps after in (last, valid ∷ rest)

module _ ⦃pg : PgBitutils⦄ where
  visited :
      (step : Hashes × Word → ℕ → Hashes × Word) (rows : Word) (s : Hashes × Word)
      → (if is_zero rows then s else foldl step s (set_bits rows)) ≡ foldl step s (ones 0 rows)
  unfolding foldl
  visited step rows s = elim (Bool-cases (is_zero rows)) [
    | inl none_set ↦ rw (none_set, ones-is_zero 0 rows none_set)
    | inr some_set ↦ rw (some_set, set_bits-ones rows)
  ]

module _ ⦃fn : HashFn⦄ ⦃pg : PgBitutils⦄ where
  pub hash_words-loop_words :
      (column : Int4Vector) (key word : ℕ) (ws : List Word) (hashes : Hashes)
      → hash_words column key word ws hashes
        ≡ loop_words (hash_bit column key) word (map (λ w. (w, w)) ws) hashes
  unfolding hash_words loop_words
  hash_words-loop_words column key word [] hashes = refl
  hash_words-loop_words column key word (w ∷ ws) hashes =
      let s = foldl (hash_bit column key (word * 64)) (hashes, w) (ones 0 w) in
      rw (visited (hash_bit column key (word * 64)) w (hashes, w)) (
        ap (λ (r : Hashes × List Word). (r.0, s.1 ∷ r.1))
          (hash_words-loop_words column key (word + 1) ws (s.0)))

  pub two_words-loop_words :
      (left right : Int4Vector) (nrows word : ℕ) (ws : List Word) (hashes : Hashes)
      → two_words left right nrows word ws hashes
        ≡ loop_words
            (two_bit left right)
            word
            (map (λ w. (w, zeros 64)) (masked nrows word ws))
            hashes
  unfolding two_words loop_words masked
  two_words-loop_words left right nrows word [] hashes = refl
  two_words-loop_words left right nrows word (w ∷ ws) hashes =
      let rows = bit_and w (word_mask nrows word) in
      let s = foldl (two_bit left right (word * 64)) (hashes, zeros 64) (ones 0 rows) in
      rw (visited (two_bit left right (word * 64)) rows (hashes, zeros 64)) (
        ap (λ (r : Hashes × List Word). (r.0, s.1 ∷ r.1))
          (two_words-loop_words left right nrows (word + 1) ws (s.0)))

module _ (body : ℕ → Hashes × Word → ℕ → Hashes × Word) (keep : ℕ → Bool) (new : ℕ → ℕ → ℕ)
    (bit : Bool → ℕ → Bool) (b : (first : ℕ) → IsBody (body first) first keep new bit) where
  pub length-loop_words :
      (ps : Pairs) (word : ℕ) (hashes : Hashes)
      → length ((loop_words body word ps hashes).1) ≡ length ps
  unfolding loop_words
  length-loop_words [] word hashes = refl
  length-loop_words ((rows, start) ∷ ps) word hashes =
      ap suc (
        length-loop_words ps (word + 1)
          ((foldl (body (word * 64)) (hashes, start) (ones 0 rows)).0))

  pub loop_words_width :
      (ps : Pairs) (word : ℕ) (hashes : Hashes) (k : ℕ)
      → AreWords ps
      → k < length ps
      → length (get_or ((loop_words body word ps hashes).1) k []) ≡ 64
  unfolding loop_words
  loop_words_width [] word hashes k a h = elim h [ ]
  loop_words_width ((rows, start) ∷ ps) word hashes zero a h =
      run_width (body (word * 64)) (word * 64) keep new bit (b (word * 64)) rows 0 (hashes, start)
        (a.1)
  loop_words_width ((rows, start) ∷ ps) word hashes (suc k) a h =
      loop_words_width ps (word + 1) ((foldl (body (word * 64)) (hashes, start) (ones 0 rows)).0) k
        (a.2) (omega arith)

  loop_words_below :
      (ps : Pairs) (word : ℕ) (hashes : Hashes) (r : ℕ)
      → r < word * 64
      → (loop_words body word ps hashes).0 r ≡ hashes r
  unfolding loop_words
  loop_words_below [] word hashes r h = refl
  loop_words_below ((rows, start) ∷ ps) word hashes r h =
      loop_words_below ps (word + 1) ((foldl (body (word * 64)) (hashes, start) (ones 0 rows)).0) r
        (omega arith)
      ∙ run_outside (body (word * 64)) (word * 64) keep new bit (b (word * 64)) rows 0
          (hashes, start) r (λ i a e. omega (arith, e))

  pub loop_words_hash :
      (ps : Pairs) (word : ℕ) (hashes : Hashes) (k i r : ℕ)
      → AreWords ps
      → k < length ps
      → i < 64
      → r ≡ (word + k) * 64 + i
      → (loop_words body word ps hashes).0 r
        ≡ (if test_bit (rows_at ps k) i && keep r then new r (hashes r) else hashes r)
  unfolding loop_words
  loop_words_hash [] word hashes k i r a h small e = elim h [ ]
  loop_words_hash ((rows, start) ∷ ps) word hashes zero i r a h small e =
      let here : word * 64 + (0 + i) ≡ r = omega (arith, e) in
      let inside : i < length rows = omega (arith, a.0) in
      loop_words_below ps (word + 1) ((foldl (body (word * 64)) (hashes, start) (ones 0 rows)).0) r
        (omega (arith, e))
      ∙ rw (← here) (
          run_inside (body (word * 64)) (word * 64) keep new bit (b (word * 64)) rows 0
            (hashes, start) i inside)
  loop_words_hash ((rows, start) ∷ ps) word hashes (suc k) i r a h small e =
      let next : r ≡ (word + 1 + k) * 64 + i = omega (arith, e) in
      loop_words_hash ps (word + 1) ((foldl (body (word * 64)) (hashes, start) (ones 0 rows)).0) k i
        r (a.2) (omega arith) small next
      ∙ ap (λ o. if test_bit (rows_at ps k) i && keep r then new r o else o)
          (run_outside (body (word * 64)) (word * 64) keep new bit (b (word * 64)) rows 0
            (hashes, start) r (λ m c d. omega (arith, d, e, a.0)))

  pub loop_words_bit :
      (ps : Pairs) (word : ℕ) (hashes : Hashes) (k i : ℕ)
      → AreWords ps
      → k < length ps
      → i < 64
      → test_bit (get_or ((loop_words body word ps hashes).1) k []) i ≡ (
          if test_bit (rows_at ps k) i
          then bit (test_bit (start_at ps k) i) ((word + k) * 64 + i)
          else test_bit (start_at ps k) i)
  unfolding loop_words
  loop_words_bit [] word hashes k i a h small = elim h [ ]
  loop_words_bit ((rows, start) ∷ ps) word hashes zero i a h small =
      let z : 0 + i ≡ i = omega arith in
      let here : word * 64 + i ≡ (word + 0) * 64 + i = omega arith in
      let fits : 0 + length rows ≤ 64 = omega (arith, a.0) in
      let inside : i < length rows = omega (arith, a.0) in
      rw (← here) (
        rw z at (
          run_bit (body (word * 64)) (word * 64) keep new bit (b (word * 64)) rows 0 (hashes, start)
            i (a.1) fits inside))
  loop_words_bit ((rows, start) ∷ ps) word hashes (suc k) i a h small =
      let next : (word + suc k) * 64 + i ≡ (word + 1 + k) * 64 + i = omega arith in
      rw next (
        loop_words_bit ps (word + 1) ((foldl (body (word * 64)) (hashes, start) (ones 0 rows)).0) k
          i (a.2) (omega arith) small)
