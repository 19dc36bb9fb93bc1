-- ===== src/Kernels/Hash/Words.antt =====
-- kernels/int4_hash.c: the loop over the rows of a word runs its body once at each one of the word.
use pg_batch.Prelude.{
  ℕ, zero, suc, ◌+◌, ◌≤◌, ◌<◌, ◌≡◌, ◌≢◌, refl, ap, ◌∙◌, inl, inr, Bool, true, false, ◌&&◌, [], ◌∷◌,
  arith, length, foldl, ◌==◌, ==_iff, if◌then◌else◌, Bool-cases,
}
use pg_batch.Bits.{Word, test_bit, ones}
use pg_batch.Kernels.Hash.{Hashes}
use pg_batch.Kernels.Hash.Bits.{IsBody}

module _ (body : Hashes × Word → ℕ → Hashes × Word) (first : ℕ) (keep : ℕ → Bool) (new : ℕ → ℕ → ℕ)
    (bit : Bool → ℕ → Bool) (b : IsBody body first keep new bit) where
  abbrev run : ℕ → Word → Hashes × Word → Hashes × Word
  run j v s = foldl body s (ones j v)

  pub run_width :
      (v : Word) (j : ℕ) (s : Hashes × Word) → length (s.1) ≡ 64 → length ((run j v s).1) ≡ 64
  unfolding ones foldl
  run_width [] j s h = h
  run_width (true ∷ v) j s h = run_width v (j + 1) (body s j) (b.width s j h)
  run_width (false ∷ v) j s h = run_width v (j + 1) s h

  -- A row that the word does not number keeps its hash.
  pub run_outside :
      (v : Word) (j : ℕ) (s : Hashes × Word) (r : ℕ)
      → ((i : ℕ) → i < length v → r ≢ first + (j + i))
      → (run j v s).0 r ≡ s.0 r
  unfolding ones foldl
  run_outside [] j s r h = refl
  run_outside (true ∷ v) j s r h =
      let away : (r == first + j) ≡ false = elim (Bool-cases (r == first + j)) [
        | inl e ↦ absurd (h 0 (omega arith) ((==_iff _ _).0 e ∙ omega arith))
        | inr e ↦ e
      ] in
      run_outside v (j + 1) (body s j) r (λ i a e. h (suc i) (omega arith) (omega (arith, e)))
      ∙ b.hash_at s j r
      ∙ rw away
  run_outside (false ∷ v) j s r h =
      run_outside v (j + 1) s r (λ i a e. h (suc i) (omega arith) (omega (arith, e)))

  abbrev updated : Bool → ℕ → ℕ → ℕ
  updated on r old = if on && keep r then new r old else old

  pub run_inside :
      (v : Word) (j : ℕ) (s : Hashes × Word) (i : ℕ)
      → i < length v
      → (run j v s).0 (first + (j + i))
        ≡ updated (test_bit v i) (first + (j + i)) (s.0 (first + (j + i)))
  unfolding ones foldl
  run_inside [] j s i h = elim h [ ]
  run_inside (true ∷ v) j s zero h =
      let z : first + (j + 0) ≡ first + j = omega arith in
      let self : (first + j == first + j) ≡ true = ground arith in
      rw z (
        run_outside v (j + 1) (body s j) (first + j) (λ i a e. omega (arith, e))
        ∙ b.hash_at s j (first + j)
        ∙ rw self)
  run_inside (false ∷ v) j s zero h =
      run_outside v (j + 1) s (first + (j + 0)) (λ i a e. omega (arith, e))
  run_inside (true ∷ v) j s (suc i) h =
      let z : first + (j + suc i) ≡ first + (j + 1 + i) = omega arith in
      let away : (first + (j + 1 + i) == first + j) ≡ false = ground arith in
      let kept = b.hash_at s j (first + (j + 1 + i)) in
      rw z (
        run_inside v (j + 1) (body s j) i (omega arith)
        ∙ ap (updated (test_bit v i) (first + (j + 1 + i))) (kept ∙ rw away))
  run_inside (false ∷ v) j s (suc i) h =
      let z : first + (j + suc i) ≡ first + (j + 1 + i) = omega arith in
      rw z (run_inside v (j + 1) s i (omega arith))

  pub run_bit_below :
      (v : Word) (j : ℕ) (s : Hashes × Word) (m : ℕ)
      → length (s.1) ≡ 64
      → j + length v ≤ 64
      → m < j
      → test_bit ((run j v s).1) m ≡ test_bit (s.1) m
  unfolding ones foldl
  run_bit_below [] j s m long room h = refl
  run_bit_below (true ∷ v) j s m long room h =
      let away : (m == j) ≡ false = ground arith in
      run_bit_below v (j + 1) (body s j) m (b.width s j long) (omega arith) (omega arith)
      ∙ b.bit_at s j m long (omega arith) (omega arith)
      ∙ rw away
  run_bit_below (false ∷ v) j s m long room h =
      run_bit_below v (j + 1) s m long (omega arith) (omega arith)

  pub run_bit :
      (v : Word) (j : ℕ) (s : Hashes × Word) (i : ℕ)
      → length (s.1) ≡ 64
      → j + length v ≤ 64
      → i < length v
      → test_bit ((run j v s).1) (j + i) ≡ (
          if test_bit v i
          then bit (test_bit (s.1) (j + i)) (first + (j + i))
          else test_bit (s.1) (j + i))
  unfolding ones foldl
  run_bit [] j s i long room h = elim h [ ]
  run_bit (true ∷ v) j s zero long room h =
      let z : j + 0 ≡ j = omega arith in
      let self : (j == j) ≡ true = ground arith in
      rw z (
        run_bit_below v (j + 1) (body s j) j (b.width s j long) (omega arith) (omega arith)
        ∙ b.bit_at s j j long (omega arith) (omega arith)
        ∙ rw self)
  run_bit (false ∷ v) j s zero long room h =
      run_bit_below v (j + 1) s (j + 0) long (omega arith) (omega arith)
  run_bit (true ∷ v) j s (suc i) long room h =
      let z : j + suc i ≡ j + 1 + i = omega arith in
      let away : (j + 1 + i == j) ≡ false = ground arith in
      let fits : j + 1 + length v ≤ 64 = omega arith in
      let inside : i < length v = omega arith in
      let kept : test_bit ((body s j).1) (j + 1 + i) ≡ test_bit (s.1) (j + 1 + i) =
        b.bit_at s j (j + 1 + i) long (omega arith) (omega arith) ∙ rw away in
      rw z (
        run_bit v (j + 1) (body s j) i (b.width s j long) fits inside
        ∙ ap (λ o. if test_bit v i then bit o (first + (j + 1 + i)) else o) kept)
  run_bit (false ∷ v) j s (suc i) long room h =
      let z : j + suc i ≡ j + 1 + i = omega arith in
      rw z (run_bit v (j + 1) s i long (omega arith) (omega arith))
