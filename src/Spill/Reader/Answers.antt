-- ===== src/Spill/Reader/Answers.antt =====
-- spill/spill.c: every answer of pg_batch_spill_reader_next, with the bytes that it is given for.
use pg_batch.Prelude.{
  ℕ, ◌+◌, ◌-◌, ◌≤◌, ◌<◌, ◌≡◌, ap, ◌∙◌, inl, inr, true, false, List, none, some, arith, length,
  length-drop, take, drop, ltb, ltb→lt, ◌==◌, ==_iff, Bool-cases,
}
use pg_batch.Prelude.Result.{ok, err}
use pg_batch.Bits.{Word}
use pg_batch.Spill.Tape.{LogicalTape}
use pg_batch.Spill.Block.{SpillHeader, update}
use pg_batch.Spill.Partitions.{SpillSet, invalid_block, unexpected_end}
use pg_batch.Spill.Reader.{
  SpillBlock, SpillReader, parse_header, is_valid_header, block_read, reader_next,
}
use pg_batch.Spill.Reader.Damage.{
  IsShaped, body_size, length-take_short, drop-drop, take_enough, take_short, read_block_enough,
  read_block_short,
}

-- A header that is accepted counts between 1 and 64 rows.
header_rows :
    (ncolumns : ℕ) (h : SpillHeader)
    → is_valid_header ncolumns h ≡ true
    → (0 < h.nrows) × (h.nrows ≤ 64)
unfolding is_valid_header
header_rows ncolumns h e = ground (arith, e)

-- A reader that has not met the end.
abbrev pub active : ℕ → SpillReader
active p = record { partition = p; eof = false }

module _ {Tape : Type 0} ⦃tape : LogicalTape Tape⦄ where
  -- The bytes that the reader of a partition has not taken, and the header at their front.
  abbrev pub unread : SpillSet Tape → ℕ → List Word
  unread set p = tape.rest (set.tapes p)

  abbrev pub header_at : SpillSet Tape → ℕ → SpillHeader
  header_at set p = parse_header (take 8 (unread set p))

  -- The answers of a reader, each with the bytes that it is given for.
  pub data Answer (set : SpillSet Tape) (p : ℕ) : Type 0 where
    ended :
        (s : SpillSet Tape)
        → length (unread set p) ≡ 0
        → reader_next set (active p) ≡ ok (none, s, record { partition = p; eof = true })
        → Answer set p
    cut_header :
        0 < length (unread set p)
        → length (unread set p) < 8
        → reader_next set (active p) ≡ err invalid_block
        → Answer set p
    wrong_header :
        8 ≤ length (unread set p)
        → is_valid_header set.ncolumns (header_at set p) ≡ false
        → reader_next set (active p) ≡ err invalid_block
        → Answer set p
    cut_block :
        8 ≤ length (unread set p)
        → is_valid_header set.ncolumns (header_at set p) ≡ true
        → length (unread set p) < 8 + body_size set.ncolumns (header_at set p).nrows
        → reader_next set (active p) ≡ err unexpected_end
        → Answer set p
    whole_block :
        (b : SpillBlock) (u : Tape)
        → is_valid_header set.ncolumns (header_at set p) ≡ true
        → 8 + body_size set.ncolumns (header_at set p).nrows ≤ length (unread set p)
        → reader_next set (active p) ≡ ok (some b, block_read set p b u, active p)
        → IsShaped set.ncolumns b
        → tape.rest u ≡ drop (8 + body_size set.ncolumns (header_at set p).nrows) (unread set p)
        → Answer set p

  with_header :
      (set : SpillSet Tape) (p : ℕ)
      → 8 ≤ length (unread set p)
      → is_valid_header set.ncolumns (header_at set p) ≡ true
      → (length ((tape.read (set.tapes p) 8).0) == 0) ≡ false
      → (length ((tape.read (set.tapes p) 8).0) == 8) ≡ true
      → parse_header ((tape.read (set.tapes p) 8).0) ≡ header_at set p
      → tape.rest ((tape.read (set.tapes p) 8).1) ≡ drop 8 (unread set p)
      → length (tape.rest ((tape.read (set.tapes p) 8).1)) ≡ length (unread set p) - 8
      → Answer set p
  unfolding reader_next
  with_header set p eight valid not_none all_read header left size =
      let h = header_at set p in
      let after = (tape.read (set.tapes p) 8).1 in
      let shape : (0 < h.nrows) × (h.nrows ≤ 64) = header_rows set.ncolumns h valid in
      elim (Bool-cases (ltb (length (tape.rest after)) (body_size set.ncolumns h.nrows))) [
        | inl few ↦
            let short = ltb→lt _ _ few in
            cut_block eight valid (omega (arith, size, short))
              (rw (not_none, all_read, header, valid, read_block_short set.ncolumns h after short))
        | inr enough ↦
            let whole : body_size set.ncolumns h.nrows ≤ length (tape.rest after) =
              ground (arith, enough) in
            let (b, u, reads, rows, shaped, rest) =
              read_block_enough set.ncolumns h after whole (shape.0) (shape.1) in
            whole_block b u valid (omega (arith, size, whole))
              (rw (not_none, all_read, header, valid, reads)) shaped
              (rest
                ∙ ap (drop (body_size set.ncolumns h.nrows)) left
                ∙ drop-drop 8 (body_size set.ncolumns h.nrows) (unread set p))
      ]

  -- Whatever bytes a tape holds, the reader gives one of its five answers: the end where there are
  -- none, an error for a header that is cut or wrong, an error for a block that is cut, and else a
  -- block whose arrays all have the lengths that its client relies on, with the tape behind it.
  pub reader_next-Answer : (set : SpillSet Tape) (p : ℕ) → Answer set p
  unfolding reader_next
  reader_next-Answer set p =
      let bs = unread set p in
      let taken = tape.read-take (set.tapes p) 8 in
      let left = tape.read-drop (set.tapes p) 8 in
      let size = ap (length {A = Word}) left ∙ length-drop 8 bs in
      elim (Bool-cases (length bs == 0)) [
        | inl none_left ↦
            let zero_long : length bs ≡ 0 = (==_iff _ _).0 none_left in
            let nothing : length (take 8 bs) ≡ 0 =
              length-take_short 8 bs (omega (arith, zero_long)) ∙ zero_long in
            let nothing_read : (length ((tape.read (set.tapes p) 8).0) == 0) ≡ true =
              ap (λ l. length l == 0) taken ∙ (==_iff _ _).1 nothing in
            ended (record set { tapes = update set.tapes p ((tape.read (set.tapes p) 8).1) })
              zero_long (rw nothing_read)
        | inr some_left ↦ elim (Bool-cases (ltb (length bs) 8)) [
          | inl few ↦
              let some_bytes : 0 < length bs = ground (arith, some_left) in
              let short = ltb→lt _ _ few in
              let size_short : length (take 8 bs) ≡ length bs =
                length-take_short 8 bs (omega (arith, short)) in
              let not_none : (length ((tape.read (set.tapes p) 8).0) == 0) ≡ false =
                ap (λ l. length l == 0) taken ∙ ap (λ n. n == 0) size_short ∙ some_left in
              let not_eight : (length ((tape.read (set.tapes p) 8).0) == 8) ≡ false =
                ap (λ l. length l == 8) taken ∙ take_short 8 bs short in
              cut_header some_bytes short (rw (not_none, not_eight))
          | inr enough ↦
              let eight : 8 ≤ length bs = ground (arith, enough) in
              let all_read : (length ((tape.read (set.tapes p) 8).0) == 8) ≡ true =
                ap (λ l. length l == 8) taken ∙ take_enough 8 bs eight in
              let not_none : (length ((tape.read (set.tapes p) 8).0) == 0) ≡ false =
                ground (arith, all_read) in
              let header : parse_header ((tape.read (set.tapes p) 8).0) ≡ header_at set p =
                ap parse_header taken in
              elim (Bool-cases (is_valid_header set.ncolumns (header_at set p))) [
                | inr wrong ↦ wrong_header eight wrong (rw (not_none, all_read, header, wrong))
                | inl valid ↦ with_header set p eight valid not_none all_read header left size
              ]
        ]
      ]
