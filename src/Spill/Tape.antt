-- ===== src/Spill/Tape.antt =====
-- What the spill code takes from PostgreSQL's utils/logtape.h: a file of bytes that is written first
-- and read afterwards. The size argument of a write is the length of the list of bytes.
use pg_batch.Prelude.{ℕ, ◌≡◌, Bool, true, List, [], ◌++◌, take, drop}
use pg_batch.Bits.{Word}

-- LogicalTapeCreate, LogicalTapeWrite, LogicalTapeRewindForRead, LogicalTapeFreeze, LogicalTapeRead.
-- A rewound tape gives its bytes once; a frozen one keeps them and can be rewound again.
-- `contents` is what was written, `rest` what a read has not yet taken.
pub record LogicalTape (Tape : Type 0) : Type 0 where
  pub create : Tape
  pub write : Tape → List Word → Tape
  pub rewind_for_read : Tape → Tape
  pub freeze : Tape → Tape
  pub read : Tape → ℕ → List Word × Tape
  pub contents : Tape → List Word
  pub rest : Tape → List Word
  pub is_frozen : Tape → Bool
  pub contents-create : contents create ≡ []
  pub contents-write : (t : Tape) (bs : List Word) → contents (write t bs) ≡ contents t ++ bs
  pub rest-rewind : (t : Tape) → rest (rewind_for_read t) ≡ contents t
  pub rest-freeze : (t : Tape) → rest (freeze t) ≡ contents t
  pub freeze-is_frozen : (t : Tape) → is_frozen (freeze t) ≡ true
  pub contents-freeze : (t : Tape) → contents (freeze t) ≡ contents t
  pub contents-rewind : (t : Tape) → is_frozen t ≡ true → contents (rewind_for_read t) ≡ contents t
  pub rewind-is_frozen : (t : Tape) → is_frozen t ≡ true → is_frozen (rewind_for_read t) ≡ true
  pub contents-read : (t : Tape) (n : ℕ) → is_frozen t ≡ true → contents ((read t n).1) ≡ contents t
  pub read-is_frozen : (t : Tape) (n : ℕ) → is_frozen t ≡ true → is_frozen ((read t n).1) ≡ true
  pub read-take : (t : Tape) (n : ℕ) → (read t n).0 ≡ take n (rest t)
  pub read-drop : (t : Tape) (n : ℕ) → rest ((read t n).1) ≡ drop n (rest t)
