-- ===== src/Bridge.antt =====
-- bridge/bridge.c: the life of one binding between a batch consumer and a source. Batches are objects
-- in a store, since the bridge and the source both change them; an address is a number and NULL is
-- `none`. The consumer's callbacks see the state after a call and keep state of their own.
pub mod Publish
pub mod Life
pub mod Sealed
use pg_batch.Prelude.{
  ℕ, zero, suc, ◌+◌, ◌-◌, ◌*◌, ◌/◌, ◌%◌, ◌^◌, Bool, true, false, not, ◌&&◌, ◌||◌, List, [], ◌∷◌,
  Option, none, some, ltb, leb, ◌==◌, if◌then◌else◌,
}
use pg_batch.Prelude.Int.{ℤ, pos, negsuc, ltb_ℤ}
use pg_batch.Prelude.Result.{Result, ok, err, ◌>>=◌}
use pg_batch.Bits.{Word, is_zero, bit_and, all_ones, shift_left}
use pg_batch.Batch.Selection.{Selection, nwords, word_at, contains}

pub data BridgeError : Type 0 where
  already_published invalid_batch incompatible_abi already_active too_many_rows : BridgeError
  rows_beyond_end no_datum_column generation_wrapped : BridgeError
  request_sealed negative_max_rows invalid_output_mode column_out_of_range : BridgeError
  cannot_select cannot_finish : BridgeError

-- PgBatchOps, as far as the bridge looks at it.
pub record BatchOps : Type 0 where
  pub address : ℕ
  pub abi_version : ℕ
  pub struct_size : ℕ
  pub has_get_datum_column : Bool

pub record PgBatch : Type 0 where
  pub abi_version : ℕ
  pub struct_size : ℕ
  pub generation : ℕ
  pub ops : Option BatchOps
  pub null_words : Bool
  pub selection : Selection

pub data OutputMode : Type 0 where
  output_rows output_batch other_mode : OutputMode

-- PgBatchRequestSpec; a Bitmapset is the list of its members.
pub record RequestSpec : Type 0 where
  pub filter_columns : List ℕ
  pub project_columns : List ℕ
  pub output_mode : OutputMode
  pub max_rows : ℤ

-- The versions and the sizes of the build.
pub record Abi : Type 0 where
  pub batch_version : ℕ
  pub batch_min_size : ℕ
  pub ops_version : ℕ
  pub ops_min_size : ℕ

pub record Binding : Type 0 where
  pub ncolumns : ℕ
  pub request : RequestSpec
  pub batch : Option ℕ
  pub validated_ops : Option ℕ
  pub request_sealed : Bool
  pub finished : Bool

pub record State : Type 0 where
  pub binding : Binding
  pub batches : ℕ → PgBatch
  pub next_generation : ℕ

-- batch->generation = generation
pub set_generation : (ℕ → PgBatch) → ℕ → ℕ → ℕ → PgBatch
set_generation batches p generation q =
    if q == p then record (batches q) { generation = generation } else batches q

-- validate_abi, as the test that it makes
abbrev pub valid_abi : ℕ → ℕ → ℕ → ℕ → Bool
valid_abi version struct_size expected_version required_size =
    version == expected_version && leb required_size struct_size

-- `bms_next_member(columns, ncolumns - 1) >= 0`
abbrev pub beyond : ℕ → List ℕ → Bool
beyond ncolumns [] = false
beyond ncolumns (c ∷ cs) = leb ncolumns c || beyond ncolumns cs

abbrev pub valid_mode : OutputMode → Bool
valid_mode other_mode = false
valid_mode _ = true

unfoldable pub set_request : State → RequestSpec → Result BridgeError State
set_request st spec =
    if st.binding.request_sealed
    then err request_sealed
    else if ltb_ℤ spec.max_rows (pos 0)
    then err negative_max_rows
    else if not (valid_mode spec.output_mode)
    then err invalid_output_mode
    else if beyond st.binding.ncolumns spec.filter_columns
    then err column_out_of_range
    else if beyond st.binding.ncolumns spec.project_columns
    then err column_out_of_range
    else ok (record st { binding = record st.binding { request = spec } })

unfoldable pub seal_request : State → State
seal_request st = record st { binding = record st.binding { request_sealed = true } }

-- `generation = next_batch_generation++`, once more if it is 0; the counter is a uint64.
unfoldable pub take_generation : ℕ → Result BridgeError (ℕ × ℕ)
take_generation next =
    let second = (next + 1) % 2 ^ 64 in
    if not (next == 0)
    then ok (next, second)
    else if second == 0
    then err generation_wrapped
    else ok (second, (second + 1) % 2 ^ 64)

-- The tests on the batch up to the selected rows.
abbrev pub rows_beyond : Selection → Bool
rows_beyond s =
    not (s.nrows % 64 == 0)
    && not (is_zero (bit_and (word_at s (nwords s - 1)) (shift_left (all_ones 64) (s.nrows % 64))))

abbrev pub exceeds : ℤ → ℕ → Bool
exceeds max_rows nrows = ltb_ℤ (pos 0) max_rows && ltb_ℤ max_rows (pos nrows)

module _ (abi : Abi) where
  -- The tests on the operations, skipped for those validated before: the operations' address.
  unfoldable pub check_ops : Option ℕ → BatchOps → Result BridgeError ℕ
  check_ops validated ops =
      let known : Bool = elim validated [ none ↦ false | some address ↦ address == ops.address ] in
      if known
      then ok ops.address
      else if not (valid_abi ops.abi_version ops.struct_size abi.ops_version abi.ops_min_size)
      then err incompatible_abi
      else if not ops.has_get_datum_column
      then err no_datum_column
      else ok ops.address

  unfoldable pub check_batch : Binding → PgBatch → Result BridgeError ℕ
  unfolding check_ops
  check_batch b batch =
      if not (valid_abi batch.abi_version batch.struct_size abi.batch_version abi.batch_min_size)
      then err incompatible_abi
      else elim batch.ops [
        | none ↦ err invalid_batch
        | some ops ↦
            if batch.null_words
              || batch.selection.nrows == 0
              || not (nwords batch.selection == (batch.selection.nrows + 63) / 64)
            then err invalid_batch
            else if not (batch.generation == 0)
            then err already_active
            else if exceeds b.request.max_rows batch.selection.nrows
            then err too_many_rows
            else if rows_beyond batch.selection
            then err rows_beyond_end
            else check_ops b.validated_ops ops
      ]

  -- The state after the tests.
  unfoldable pub accept : State → ℕ → ℕ → ℕ → ℕ → State
  accept st p address generation next = record {
    binding = record st.binding {
      request_sealed = true;
      validated_ops = some address;
      batch = some p;
      finished = false;
    };
    batches = set_generation st.batches p generation;
    next_generation = next;
  }

  unfoldable pub publish_batch : State → Option ℕ → Result BridgeError State
  unfolding check_batch accept
  publish_batch st batch = elim st.binding.batch [
    | some p ↦ err already_published
    | none ↦ elim batch [
      | none ↦ err invalid_batch
      | some p ↦ check_batch st.binding (st.batches p) >>= λ address.
          take_generation st.next_generation >>= λ g. ok (accept st p address g.0 g.1)
    ]
  ]

-- select_row: the state stays; the consumer is called.
pub select_row : State → ℕ → Result BridgeError State
select_row st row = elim st.binding.batch [
  | none ↦ err cannot_select
  | some p ↦
      if st.binding.finished
        || leb (st.batches p).selection.nrows row
        || not (contains (st.batches p).selection row)
      then err cannot_select
      else ok st
]

pub finish : State → Result BridgeError State
finish st = elim st.binding.batch [
  | none ↦ err cannot_finish
  | some p ↦
      if st.binding.finished
      then err cannot_finish
      else ok (record st {
        binding = record st.binding { finished = true };
        batches = set_generation st.batches p 0;
      })
]

-- release_batch; the source's `release` then frees what it holds.
pub clear_binding : State → State
clear_binding st = elim st.binding.batch [
  | none ↦ st
  | some p ↦ record st {
    binding = record st.binding { batch = none; finished = false };
    batches = set_generation st.batches p 0;
  }
]
