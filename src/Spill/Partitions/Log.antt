-- ===== src/Spill/Partitions/Log.antt =====
-- spill/spill.c: what a partition holds, its rows on the tape and in memory, against the log of the
-- rows that were written to it.
use pg_batch.Prelude.{
  ℕ, ◌%◌, ◌^◌, ◌<◌, ◌≡◌, ◌≢◌, refl, sym, ap, ◌∙◌, Bool, List, [], ◌∷◌, ◌++◌, Option, none, some,
  arith, length, length-append,
}
use mathlib.Core.List.{append-nil, append_assoc}
use pg_batch.Prelude.Int.{ℤ}
use pg_batch.Bits.{Word}
use pg_batch.Spill.Bytes.{All, IsUint32}
use pg_batch.Spill.Block.{
  SpillWriter, SpillRow, IsBlock, fresh_writer, store_row, reset_block, tabulate, block_rows_of,
  row_at,
}
use pg_batch.Spill.Block.Rows.{
  AreInt32, new_row, block_rows-store_row, store_row-IsBlock, fresh-IsBlock, reset-IsBlock,
}
use pg_batch.Spill.Block.Data.{block_data}
use pg_batch.Spill.Partitions.{add64}

module _ {ℓ κ} {A : Type ℓ} {B : Type κ} where
  unfoldable pub flat : (A → List B) → List A → List B
  flat f [] = []
  flat f (x ∷ xs) = f x ++ flat f xs

  flat-snoc : (f : A → List B) (xs : List A) (x : A) → flat f (xs ++ x ∷ []) ≡ flat f xs ++ f x
  unfolding flat
  flat-snoc f [] x = append-nil (f x)
  flat-snoc f (y ∷ xs) x =
      ap (λ l. f y ++ l) (flat-snoc f xs x) ∙ sym (append_assoc (f y) (flat f xs) (f x))

-- A block on a tape.
abbrev pub IsFull : ℕ → SpillWriter → Type 0
IsFull ncolumns w = IsBlock ncolumns w × (0 < w.nrows)

-- The rows that wait in memory, and a writer that has room.
abbrev pub pending : ℕ → Option SpillWriter → List SpillRow
pending ncolumns none = []
pending ncolumns (some w) = block_rows_of ncolumns w

abbrev pub IsOpen : ℕ → Option SpillWriter → Type 0
IsOpen ncolumns none = Unit
IsOpen ncolumns (some w) = IsBlock ncolumns w × (w.nrows < 64)

-- The log of a partition is what stands on its tape and then what waits in memory.
pub record Logs (ncolumns : ℕ) (contents : List Word) (writer : Option SpillWriter) (count : ℕ)
    (log : List SpillRow) : Type 0 where
  pub blocks : List SpillWriter
  pub full : All (IsFull ncolumns) blocks
  pub on_tape : contents ≡ flat (block_data ncolumns) blocks
  pub logged : log ≡ flat (block_rows_of ncolumns) blocks ++ pending ncolumns writer
  pub opened : IsOpen ncolumns writer
  pub counted : count ≡ length log % 2 ^ 64

All-snoc {ℓ κ} :
    {A : Type ℓ} (P : A → Type κ) (xs : List A) (x : A) → All P xs → P x → All P (xs ++ x ∷ [])
All-snoc P [] x h p = (p, tt)
All-snoc P (y ∷ xs) x h p = (h.0, All-snoc P xs x h.1 p)

pub start_Logs : (ncolumns : ℕ) → Logs ncolumns [] none 0 []
start_Logs ncolumns = record {
  blocks = [];
  full = tt;
  on_tape = unfold flat in refl;
  logged = unfold flat in refl;
  opened = tt;
  counted = omega arith;
}

module _ (ncolumns : ℕ) (contents : List Word) (count : ℕ) (log : List SpillRow) where
  pub fresh_Logs :
      Logs ncolumns contents none count log → Logs ncolumns contents (some fresh_writer) count log
  fresh_Logs h = record {
    blocks = h.blocks;
    full = h.full;
    on_tape = h.on_tape;
    logged = unfold tabulate in h.logged;
    opened = (fresh-IsBlock ncolumns, omega arith);
    counted = h.counted;
  }

  -- A block with no rows is dropped.
  pub free_Logs :
      (w : SpillWriter)
      → w.nrows ≡ 0
      → Logs ncolumns contents (some w) count log
      → Logs ncolumns contents none count log
  free_Logs w e h = record {
    blocks = h.blocks;
    full = h.full;
    on_tape = h.on_tape;
    logged =
        h.logged
        ∙ ap (λ n. flat (block_rows_of ncolumns) h.blocks ++ tabulate 0 n (row_at ncolumns w)) e
        ∙ unfold tabulate in refl;
    opened = tt;
    counted = h.counted;
  }

  -- A block that is written out goes from memory to the tape.
  pub flush_Logs :
      (w : SpillWriter) (blocks : List SpillWriter)
      → IsFull ncolumns w
      → All (IsFull ncolumns) blocks
      → contents ≡ flat (block_data ncolumns) blocks
      → log ≡ flat (block_rows_of ncolumns) blocks ++ block_rows_of ncolumns w
      → count ≡ length log % 2 ^ 64
      → Logs ncolumns (contents ++ block_data ncolumns w) (some (reset_block ncolumns w)) count log
  unfolding reset_block tabulate
  flush_Logs w blocks full fulls on_tape logged counted = record {
    blocks = blocks ++ w ∷ [];
    full = All-snoc (IsFull ncolumns) blocks w fulls full;
    on_tape =
        ap (λ l. l ++ block_data ncolumns w) on_tape
        ∙ sym (flat-snoc (block_data ncolumns) blocks w);
    logged =
        logged
        ∙ sym (flat-snoc (block_rows_of ncolumns) blocks w)
        ∙ sym (append-nil (flat (block_rows_of ncolumns) (blocks ++ w ∷ [])));
    opened = (reset-IsBlock ncolumns w (full.0), omega arith);
    counted = counted;
  }

-- A row that is stored in a block joins the log.
module _ (ncolumns hash : ℕ) (cell : ℕ → ℤ × Bool) (w : SpillWriter) (contents : List Word)
    (count : ℕ) (log : List SpillRow) (logs : Logs ncolumns contents (some w) count log)
    (hash32 : IsUint32 hash) (values32 : AreInt32 cell) where
  grown : List SpillRow
  grown = log ++ new_row ncolumns hash cell ∷ []

  joined :
      grown
      ≡ flat (block_rows_of ncolumns) logs.blocks
        ++ block_rows_of ncolumns (store_row ncolumns hash cell w)
  unfolding grown
  joined =
      ap (λ l. l ++ new_row ncolumns hash cell ∷ []) logs.logged
      ∙ append_assoc (flat (block_rows_of ncolumns) logs.blocks) (block_rows_of ncolumns w)
          (new_row ncolumns hash cell ∷ [])
      ∙ ap (λ l. flat (block_rows_of ncolumns) logs.blocks ++ l)
          (sym (block_rows-store_row ncolumns hash cell w (logs.opened.0) (logs.opened.1)))

  recounted : add64 count 1 ≡ length grown % 2 ^ 64
  unfolding grown
  recounted = omega (arith, logs.counted, length-append log (new_row ncolumns hash cell ∷ []))

  stored-IsBlock : IsBlock ncolumns (store_row ncolumns hash cell w)
  stored-IsBlock =
      store_row-IsBlock ncolumns hash cell w (logs.opened.0) (logs.opened.1) hash32 values32

  pub store_Logs :
      (store_row ncolumns hash cell w).nrows ≢ 64
      → Logs ncolumns contents
          (some (store_row ncolumns hash cell w))
          (add64 count 1)
          (log ++ new_row ncolumns hash cell ∷ [])
  unfolding grown
  store_Logs part = record {
    blocks = logs.blocks;
    full = logs.full;
    on_tape = logs.on_tape;
    logged = joined;
    opened = (stored-IsBlock, omega (arith, stored-IsBlock.room, part));
    counted = recounted;
  }

  pub store_flush_Logs :
      (store_row ncolumns hash cell w).nrows ≡ 64
      → Logs ncolumns
          (contents ++ block_data ncolumns (store_row ncolumns hash cell w))
          (some (reset_block ncolumns (store_row ncolumns hash cell w)))
          (add64 count 1)
          (log ++ new_row ncolumns hash cell ∷ [])
  unfolding grown
  store_flush_Logs full =
      flush_Logs ncolumns contents (add64 count 1) (log ++ new_row ncolumns hash cell ∷ [])
        (store_row ncolumns hash cell w) logs.blocks (stored-IsBlock, omega (arith, full)) logs.full
        logs.on_tape joined recounted
