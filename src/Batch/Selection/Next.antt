-- ===== src/Batch/Selection/Next.antt =====
-- include/pg_batch/batch.h: pg_batch_selection_next walks the selected rows in order.
use pg_batch.Prelude.{
  ℕ, zero, suc, ◌+◌, ◌-◌, ◌*◌, ◌/◌, ◌%◌, ◌≤◌, ◌<◌, ◌≡◌, refl, ap, sym, ◌∙◌, inl, inr, true, false,
  [], ◌∷◌, Option, none, some, arith, length, ltb, leb, ltb→lt, ◌==◌, ==_iff, Bool-cases,
  get_or-beyond,
}
use pg_batch.Bits.{Word, test_bit, is_zero, bit_and, all_ones, lowest, shift_left}
use pg_batch.Bits.Laws.{test_bit-and, test_bit-is_zero, test_bit-shift_left}
use pg_batch.Postgres.{PgBitutils}
use pg_batch.Batch.Selection.{
  Selection, IsWellFormed, contains, next, next_scan, following, word_at, nwords,
}
use pg_batch.Batch.Selection.Rows.{contains-test_bit, rows_where, rows_from, rows_where_none}

-- What `next` promises: the first selected row from `start` on, or that there is none.
abbrev pub IsFirst : Selection → ℕ → Option ℕ → Type 0
IsFirst s start none = (q : ℕ) → start ≤ q → q < s.nrows → contains s q ≡ false
IsFirst s start (some r) =
    (start ≤ r)
    × (r < s.nrows)
    × (contains s r ≡ true)
    × ((q : ℕ) → start ≤ q → q < r → contains s q ≡ false)

pub lowest_on : (w : Word) → is_zero w ≡ false → test_bit w (lowest w) ≡ true
unfolding is_zero lowest
lowest_on [] h = cc
lowest_on (true ∷ w) h = refl
lowest_on (false ∷ w) h = lowest_on w h

below_lowest : (w : Word) (i : ℕ) → i < lowest w → test_bit w i ≡ false
unfolding lowest
below_lowest [] i h = refl
below_lowest (true ∷ w) i h = elim h [ ]
below_lowest (false ∷ w) zero h = refl
below_lowest (false ∷ w) (suc i) h = below_lowest w i (omega arith)

pub lowest-lt : (w : Word) → is_zero w ≡ false → lowest w < length w
unfolding is_zero lowest
lowest-lt [] h = cc
lowest-lt (true ∷ w) h = omega arith
lowest-lt (false ∷ w) h = omega (arith, lowest-lt w h)

-- The loop's invariant: `bits` holds the rows of this word from `start` on, and no row between
-- `start` and the word is selected.
pub record Scanning (s : Selection) (start word : ℕ) (bits : Word) : Type 0 where
  reads : (i : ℕ) → i < 64 → start ≤ word * 64 + i → test_bit bits i ≡ test_bit (word_at s word) i
  earlier : (i : ℕ) → word * 64 + i < start → test_bit bits i ≡ false
  width : (i : ℕ) → 64 ≤ i → test_bit bits i ≡ false
  passed : (q : ℕ) → start ≤ q → q < word * 64 → contains s q ≡ false

test_bit_lt :
    (w : Word) (i n : ℕ) → ((i : ℕ) → n ≤ i → test_bit w i ≡ false) → test_bit w i ≡ true → i < n
test_bit_lt w i n h on = elim (Bool-cases (ltb i n)) [
  | inl lt ↦ ltb→lt i n lt
  | inr ge ↦ let off = h i (ground arith) in cc
]

module _ {s : Selection} {start word : ℕ} {bits : Word} (c : Scanning s start word bits) where
  -- A row of this word, seen through `bits`.
  scanned :
      (q : ℕ)
      → start ≤ q
      → word * 64 ≤ q
      → q < word * 64 + 64
      → contains s q ≡ test_bit bits (q - word * 64)
  scanned q a lo hi =
      let e : q / 64 ≡ word = omega arith in
      let f : q % 64 ≡ q - word * 64 = omega arith in
      contains-test_bit s q ∙ rw (e, f) (sym (c.reads (q - word * 64) (omega arith) (omega arith)))

  not_scanned :
      (r : ℕ)
      → ((i : ℕ) → i < r → test_bit bits i ≡ false)
      → (q : ℕ) → start ≤ q
      → q < word * 64 + r
      → r ≤ 64
      → contains s q ≡ false
  not_scanned r off q a b small = elim (Bool-cases (ltb q (word * 64))) [
    | inl before ↦ c.passed q a (ltb→lt _ _ before)
    | inr here ↦ scanned q a (ground arith) (omega arith) ∙ off (q - word * 64) (ground arith)
  ]

  found-IsFirst :
      is_zero bits ≡ false
      → word * 64 + lowest bits < s.nrows
      → IsFirst s start (some (word * 64 + lowest bits))
  found-IsFirst z inside =
      let on = lowest_on bits z in
      let small : lowest bits < 64 = test_bit_lt bits (lowest bits) 64 c.width on in
      let from : start ≤ word * 64 + lowest bits = from_start on in
      (
        from,
        inside,
        scanned (word * 64 + lowest bits) from (omega arith) (omega arith)
            ∙ ap (test_bit bits) (omega arith)
            ∙ on,
        λ q a b. not_scanned (lowest bits) (below_lowest bits) q a b (omega arith),
      )
    where
      from_start : test_bit bits (lowest bits) ≡ true → start ≤ word * 64 + lowest bits
      from_start on = elim (Bool-cases (ltb (word * 64 + lowest bits) start)) [
        | inl lt ↦ let off = c.earlier (lowest bits) (ltb→lt _ _ lt) in cc
        | inr ge ↦ ground arith
      ]

  next_word :
      is_zero bits ≡ true
      → start ≤ (word + 1) * 64
      → ((i : ℕ) → 64 ≤ i → test_bit (word_at s (word + 1)) i ≡ false)
      → Scanning s start (word + 1) (word_at s (word + 1))
  next_word z a w = record {
    reads = λ i h k. refl;
    earlier = λ i h. absurd (omega arith);
    width = w;
    passed =
        λ q b h. not_scanned 64 (λ i k. test_bit-is_zero bits i z) q b (omega arith) (omega arith);
  }

module _ ⦃pg : PgBitutils⦄ (s : Selection) (v : IsWellFormed s) where
  word_width : (k i : ℕ) → 64 ≤ i → test_bit (word_at s k) i ≡ false
  word_width k i h = elim (Bool-cases (ltb k (nwords s))) [
    | inl lt ↦ get_or-beyond (word_at s k) i false (omega (arith, v.widths k (ltb→lt _ _ lt)))
    | inr ge ↦ ap (λ w. test_bit w i) (get_or-beyond s.words k [] (ground arith))
  ]

  next_scan-IsFirst :
      (fuel start word : ℕ) (bits : Word)
      → Scanning s start word bits
      → start ≤ (word + 1) * 64
      → word < nwords s
      → nwords s ≤ fuel + word
      → IsFirst s start (next_scan fuel s word bits)
  unfolding next_scan
  next_scan-IsFirst zero start word bits c a h f = absurd (omega arith)
  next_scan-IsFirst (suc fuel) start word bits c a h f = elim (Bool-cases (is_zero bits)) [
    | inl z ↦ rw z (elim (Bool-cases (leb (nwords s) (word + 1))) [
      | inl last ↦ rw last (λ q b k.
          not_scanned c 64 (λ i _. test_bit-is_zero bits i z) q b (ground (arith, v.enough))
            (omega arith))
      | inr more ↦ rw more (
          next_scan-IsFirst fuel start (word + 1) (word_at s (word + 1))
            (next_word c z a (word_width (word + 1))) (omega arith) (ground arith) (omega arith))
    ])
    | inr z ↦
        rw (z, pg.rightmost_one_pos64_lem bits z)
          (elim (Bool-cases (ltb (word * 64 + lowest bits) s.nrows)) [
            | inl lt ↦ rw lt (found-IsFirst c z (ltb→lt _ _ lt))
            | inr ge ↦ rw ge (λ q b k.
                not_scanned c (lowest bits) (below_lowest bits) q b (ground arith)
                  (omega (arith, test_bit_lt bits (lowest bits) 64 c.width (lowest_on bits z))))
          ])
  ]

  first_word :
      (start : ℕ)
      → Scanning s start
          (start / 64)
          (bit_and (word_at s (start / 64)) (shift_left (all_ones 64) (start % 64)))
  first_word start = record {
    reads = λ i h k.
        test_bit-and (word_at s (start / 64)) _ i
        ∙ rw (test_bit-shift_left 64 (start % 64) i h) (ground arith);
    earlier = λ i h.
        test_bit-and (word_at s (start / 64)) _ i
        ∙ rw (test_bit-shift_left 64 (start % 64) i (omega arith)) (ground arith);
    width = λ i h.
        test_bit-and (word_at s (start / 64)) _ i ∙ ground (arith, word_width (start / 64) i h);
    passed = λ q a b. absurd (omega arith);
  }

  -- On a well-formed selection `next` gives the first selected row after `previous`, and -1 only if
  -- no later row is selected.
  pub next-IsFirst : (previous : Option ℕ) → IsFirst s (following previous) (next s previous)
  unfolding next
  next-IsFirst previous = elim (Bool-cases (leb s.nrows (following previous))) [
    | inl past ↦ rw past (λ q a b. absurd (omega_past past a b))
    | inr more ↦ rw more (
        next_scan-IsFirst (nwords s) (following previous) (following previous / 64) _
          (first_word (following previous)) (omega arith) (ground (arith, v.enough)) (omega arith))
  ]
    where
      omega_past :
          {q : ℕ}
          → leb s.nrows (following previous) ≡ true
          → following previous ≤ q
          → q < s.nrows
          → ⊥
      omega_past p a b = ground arith

-- So `next` unfolds the list of rows.
module _ (s : Selection) where
  pub rows_skip :
      (n start r : ℕ)
      → start ≤ r
      → r < start + n
      → contains s r ≡ true
      → ((q : ℕ) → start ≤ q → q < r → contains s q ≡ false)
      → rows_where (contains s) start n ≡ r ∷ rows_where (contains s) (r + 1) (start + n - (r + 1))
  unfolding rows_where
  rows_skip zero start r a b on off = absurd (omega arith)
  rows_skip (suc n) start r a b on off = elim (Bool-cases (start == r)) [
    | inl e ↦
        let same : start ≡ r = (==_iff start r).0 e in
        let m : r + suc n - (r + 1) ≡ n = omega arith in rw (same, m, on)
    | inr ne ↦
        let m : start + suc n - (r + 1) ≡ (start + 1) + n - (r + 1) = omega arith in
        rw (off start (omega arith) (ground arith), m)
          (rows_skip n (start + 1) r (ground arith) (omega arith) on
            (λ q c d. off q (omega arith) d))
  ]

  pub rows_from-IsFirst-some :
      (start r : ℕ) → IsFirst s start (some r) → rows_from s start ≡ r ∷ rows_from s (r + 1)
  rows_from-IsFirst-some start r f =
      let (a, b, on, off) = f in
      let m : start + (s.nrows - start) - (r + 1) ≡ s.nrows - (r + 1) = omega arith in
      rows_skip (s.nrows - start) start r a (omega arith) on off
      ∙ ap (λ n. r ∷ rows_where (contains s) (r + 1) n) m

  pub rows_from-IsFirst-none : (start : ℕ) → IsFirst s start none → rows_from s start ≡ []
  rows_from-IsFirst-none start f =
      rows_where_none (contains s) (s.nrows - start) start (λ q a b. f q a (omega arith))
