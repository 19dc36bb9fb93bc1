-- ===== src/Spill/Reader/Damage.antt =====
-- spill/spill.c: what pg_batch_spill_reader_next answers to any bytes on a tape, whole or damaged.
use pg_batch.Prelude.{
  ℕ, zero, suc, ◌+◌, ◌*◌, ◌≤◌, ◌<◌, ◌≡◌, refl, sym, ap, ◌∙◌, inl, inr, true, false, List, [], ◌∷◌,
  map, arith, length, length-take, length-drop, length-map, take, drop, ltb, ltb→lt, ◌==◌, ==_iff,
  Bool-cases,
}
use pg_batch.Prelude.Int.{ℤ}
use pg_batch.Prelude.Result.{ok, err}
use pg_batch.Bits.{Word}
use pg_batch.Spill.Bytes.{read_words, to_int32, All}
use pg_batch.Spill.Tape.{LogicalTape}
use pg_batch.Spill.Block.{SpillHeader}
use pg_batch.Spill.Partitions.{unexpected_end}
use pg_batch.Spill.Partitions.Write.{first_rows}
use pg_batch.Spill.Reader.{SpillBlock, read_columns, read_block}

module _ {ℓ} {A : Type ℓ} where
  pub length-take_short : (n : ℕ) (xs : List A) → length xs ≤ n → length (take n xs) ≡ length xs
  length-take_short zero [] h = refl
  length-take_short zero (x ∷ xs) h = elim h [ ]
  length-take_short (suc n) [] h = refl
  length-take_short (suc n) (x ∷ xs) h = ap suc (length-take_short n xs (omega arith))

  drop_nil : (n : ℕ) → ◌≡◌ {A = List A} (drop n []) []
  drop_nil zero = refl
  drop_nil (suc n) = refl

  pub drop-drop : (a b : ℕ) (xs : List A) → drop b (drop a xs) ≡ drop (a + b) xs
  drop-drop zero b xs = let e : 0 + b ≡ b = omega arith in rw e
  drop-drop (suc a) b [] = drop_nil b ∙ sym (drop_nil (suc a + b))
  drop-drop (suc a) b (x ∷ xs) =
      let e : suc a + b ≡ suc (a + b) = omega arith in rw e (drop-drop a b xs)

  -- A read gives as many bytes as were asked for exactly where there are enough.
  pub take_enough : (n : ℕ) (xs : List A) → n ≤ length xs → (length (take n xs) == n) ≡ true
  take_enough n xs h = ground (arith, length-take n xs h)

  pub take_short : (n : ℕ) (xs : List A) → length xs < n → (length (take n xs) == n) ≡ false
  take_short n xs h = ground (arith, length-take_short n xs (omega arith))

length-read_words : (n : ℕ) (bs : List Word) → length (read_words n bs) ≡ n
unfolding read_words
length-read_words zero bs = refl
length-read_words (suc n) bs = ap suc (length-read_words n (drop 4 bs))

-- Every array of the block has the length that its client relies on.
pub record IsShaped (ncolumns : ℕ) (b : SpillBlock) : Type 0 where
  pub some_rows : 0 < b.nrows
  pub room : b.nrows ≤ 64
  pub columns : b.ncolumns ≡ ncolumns
  pub hashes_length : length b.hashes ≡ b.nrows
  pub validity_length : length b.validity ≡ 8 * ncolumns
  pub values_length : length b.values ≡ ncolumns
  pub column_lengths : All (λ column. length column ≡ b.nrows) b.values

-- The bytes after the header of a block.
abbrev pub body_size : ℕ → ℕ → ℕ
body_size ncolumns nrows = 4 * nrows + (8 * ncolumns + ncolumns * (4 * nrows))

module _ {Tape : Type 0} ⦃tape : LogicalTape Tape⦄ where
  read_columns_enough :
      (n nrows : ℕ) (t : Tape)
      → n * (4 * nrows) ≤ length (tape.rest t)
      → (columns : List (List ℤ)) × (u : Tape) × (read_columns n nrows t ≡ ok (columns, u))
        × (length columns ≡ n)
        × All (λ column. length column ≡ nrows) columns
        × (tape.rest u ≡ drop (n * (4 * nrows)) (tape.rest t))
  unfolding read_columns
  read_columns_enough zero nrows t h =
      let z : 0 * (4 * nrows) ≡ 0 = omega arith in ([], t, refl, refl, tt, rw z)
  read_columns_enough (suc n) nrows t h =
      let k : ℕ = 4 * nrows in
      let split : suc n * (4 * nrows) ≡ 4 * nrows + n * (4 * nrows) = grind arith in
      let here : 4 * nrows ≤ length (tape.rest t) = omega (arith, split) in
      let after = (tape.read t (4 * nrows)).1 in
      let left = tape.read-drop t (4 * nrows) in
      let more : n * (4 * nrows) ≤ length (tape.rest after) =
        omega (arith, split, ap (length {A = Word}) left, length-drop (4 * nrows) (tape.rest t)) in
      let (columns, u, reads, count, lengths, rest) = read_columns_enough n nrows after more in
      (
        map to_int32 (read_words nrows ((tape.read t (4 * nrows)).0)) ∷ columns,
        u,
        rw (
          ap (λ bs. length bs == 4 * nrows) (tape.read-take t (4 * nrows))
              ∙ take_enough (4 * nrows) (tape.rest t) here,
          reads,
        ),
        ap suc count,
        (
          length-map to_int32 (read_words nrows ((tape.read t (4 * nrows)).0))
              ∙ length-read_words nrows ((tape.read t (4 * nrows)).0),
          lengths,
        ),
        rest
            ∙ ap (drop (n * (4 * nrows))) left
            ∙ drop-drop (4 * nrows) (n * (4 * nrows)) (tape.rest t)
            ∙ ap (λ m. drop m (tape.rest t)) (sym split),
      )

  read_columns_short :
      (n nrows : ℕ) (t : Tape)
      → length (tape.rest t) < n * (4 * nrows)
      → read_columns n nrows t ≡ err unexpected_end
  unfolding read_columns
  read_columns_short zero nrows t h = absurd (omega arith)
  read_columns_short (suc n) nrows t h =
      let split : suc n * (4 * nrows) ≡ 4 * nrows + n * (4 * nrows) = grind arith in
      elim (Bool-cases (ltb (length (tape.rest t)) (4 * nrows))) [
        | inl few ↦ rw (
            ap (λ bs. length bs == 4 * nrows) (tape.read-take t (4 * nrows))
            ∙ take_short (4 * nrows) (tape.rest t) (ltb→lt _ _ few))
        | inr enough ↦
            let here : 4 * nrows ≤ length (tape.rest t) = ground arith in
            let left = tape.read-drop t (4 * nrows) in
            rw (
              ap (λ bs. length bs == 4 * nrows) (tape.read-take t (4 * nrows))
                  ∙ take_enough (4 * nrows) (tape.rest t) here,
              read_columns_short n nrows ((tape.read t (4 * nrows)).1) (
                  omega (
                    arith,
                    split,
                    ap (length {A = Word}) left,
                    length-drop (4 * nrows) (tape.rest t),
                  )),
            )
      ]

  -- After the header: a block where the bytes suffice, an error where they do not.
  pub read_block_enough :
      (ncolumns : ℕ) (h : SpillHeader) (t : Tape)
      → body_size ncolumns h.nrows ≤ length (tape.rest t)
      → 0 < h.nrows
      → h.nrows ≤ 64
      → (b : SpillBlock) × (u : Tape) × (read_block ncolumns h t ≡ ok (b, u))
        × (b.nrows ≡ h.nrows)
        × IsShaped ncolumns b
        × (tape.rest u ≡ drop (body_size ncolumns h.nrows) (tape.rest t))
  unfolding read_block
  read_block_enough ncolumns h t enough some_rows room =
      let n = h.nrows in
      let after_hashes = (tape.read t (4 * n)).1 in
      let after_validity = (tape.read after_hashes (8 * ncolumns)).1 in
      let left = tape.read-drop t (4 * n) in
      let left_after = tape.read-drop after_hashes (8 * ncolumns) in
      let size = ap (length {A = Word}) left ∙ length-drop (4 * n) (tape.rest t) in
      let size_after =
        ap (length {A = Word}) left_after ∙ length-drop (8 * ncolumns) (tape.rest after_hashes) in
      let (columns, u, reads, count, lengths, rest) =
        read_columns_enough ncolumns n after_validity (omega (arith, size, size_after)) in
      let hash_bytes : 4 * n ≤ length (tape.rest t) = omega arith in
      let bitmap_bytes : 8 * ncolumns ≤ length (tape.rest after_hashes) = omega (arith, size) in
      let hashes_read =
        ap (λ bs. length bs == 4 * n) (tape.read-take t (4 * n))
        ∙ take_enough (4 * n) (tape.rest t) hash_bytes in
      let validity_read =
        ap (λ bs. length bs == 8 * ncolumns) (tape.read-take after_hashes (8 * ncolumns))
        ∙ take_enough (8 * ncolumns) (tape.rest after_hashes) bitmap_bytes in
      (
        record {
          nrows = n;
          ncolumns = ncolumns;
          selection = first_rows n;
          hashes = read_words n ((tape.read t (4 * n)).0);
          values = columns;
          validity = (tape.read after_hashes (8 * ncolumns)).0;
        },
        u,
        rw (hashes_read, validity_read, reads),
        refl,
        record {
          some_rows = some_rows;
          room = room;
          columns = refl;
          hashes_length = length-read_words n ((tape.read t (4 * n)).0);
          validity_length = (==_iff _ _).0 validity_read;
          values_length = count;
          column_lengths = lengths;
        },
        rest
            ∙ ap (drop (ncolumns * (4 * n))) (left_after ∙ ap (drop (8 * ncolumns)) left)
            ∙ ap (drop (ncolumns * (4 * n))) (drop-drop (4 * n) (8 * ncolumns) (tape.rest t))
            ∙ drop-drop (4 * n + 8 * ncolumns) (ncolumns * (4 * n)) (tape.rest t)
            ∙ ap (λ m. drop m (tape.rest t)) (omega arith),
      )

  pub read_block_short :
      (ncolumns : ℕ) (h : SpillHeader) (t : Tape)
      → length (tape.rest t) < body_size ncolumns h.nrows
      → read_block ncolumns h t ≡ err unexpected_end
  unfolding read_block
  read_block_short ncolumns h t short =
      let n = h.nrows in
      let after_hashes = (tape.read t (4 * n)).1 in
      let after_validity = (tape.read after_hashes (8 * ncolumns)).1 in
      let size =
        ap (length {A = Word}) (tape.read-drop t (4 * n)) ∙ length-drop (4 * n) (tape.rest t) in
      let size_after =
        ap (length {A = Word}) (tape.read-drop after_hashes (8 * ncolumns))
        ∙ length-drop (8 * ncolumns) (tape.rest after_hashes) in
      elim (Bool-cases (ltb (length (tape.rest t)) (4 * n))) [
        | inl few ↦ rw (
            ap (λ bs. length bs == 4 * n) (tape.read-take t (4 * n))
            ∙ take_short (4 * n) (tape.rest t) (ltb→lt _ _ few))
        | inr enough ↦
            let hashes_read =
              ap (λ bs. length bs == 4 * n) (tape.read-take t (4 * n))
              ∙ take_enough (4 * n) (tape.rest t) (ground arith) in
            elim (Bool-cases (ltb (length (tape.rest after_hashes)) (8 * ncolumns))) [
              | inl few ↦ rw (
                hashes_read,
                ap (λ bs. length bs == 8 * ncolumns) (tape.read-take after_hashes (8 * ncolumns))
                    ∙ take_short (8 * ncolumns) (tape.rest after_hashes) (ltb→lt _ _ few),
              )
              | inr more ↦
                  let bitmaps : 8 * ncolumns ≤ length (tape.rest after_hashes) = ground arith in
                  let bytes : 4 * n ≤ length (tape.rest t) = ground arith in
                  rw (
                    hashes_read,
                    ap (λ bs. length bs == 8 * ncolumns)
                          (tape.read-take after_hashes (8 * ncolumns))
                        ∙ take_enough (8 * ncolumns) (tape.rest after_hashes) bitmaps,
                    read_columns_short ncolumns n after_validity (omega (arith, size, size_after)),
                  )
            ]
      ]
