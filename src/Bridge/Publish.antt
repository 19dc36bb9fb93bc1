-- ===== src/Bridge/Publish.antt =====
-- bridge/bridge.c: a batch that is published has a well-formed selection and a generation of its own.
use pg_batch.Prelude.{
  ℕ, ◌+◌, ◌-◌, ◌/◌, ◌%◌, ◌≤◌, ◌<◌, ◌≡◌, refl, ap, sym, ◌∙◌, subst, inl, inr, Bool, true, false, not,
  ◌||◌, [], Option, none, some, arith, length, ltb, ◌==◌, ==_iff, if◌then◌else◌, Bool-cases,
  get_or-beyond,
}
use pg_batch.Prelude.Result.{Result, ok, err, ◌>>=◌, one_value}
use pg_batch.Bits.{test_bit, is_zero, bit_and, all_ones, shift_left}
use pg_batch.Bits.Laws.{test_bit-and, test_bit-is_zero, test_bit-shift_left}
use pg_batch.Batch.Selection.{Selection, IsWellFormed, nwords, word_at}
use pg_batch.Batch.Selection.Rows.{contains-test_bit}
use pg_batch.Bridge.{
  BridgeError, BatchOps, PgBatch, Abi, Binding, State, publish_batch, check_batch, check_ops,
  accept, take_generation, rows_beyond, exceeds, set_generation, invalid_batch, already_active,
  too_many_rows, rows_beyond_end, incompatible_abi, already_published, valid_abi,
}

-- A test that leads to an error was false.
pub passed_test :
    {A : Type 0} (b : Bool) (x : BridgeError) (r : Result BridgeError A) (a : A)
    → (if b then err x else r) ≡ ok a
    → (b ≡ false) × (r ≡ ok a)
passed_test true x r a e = absurd (ground (arith, e))
passed_test false x r a e = (refl, e)

-- What a successful call has done.
pub record Published (abi : Abi) (st : State) (p : ℕ) (st' : State) : Type 0 where
  pub generation : ℕ
  pub next : ℕ
  pub address : ℕ
  pub free : st.binding.batch ≡ none
  pub checked : check_batch abi st.binding (st.batches p) ≡ ok address
  pub taken : take_generation st.next_generation ≡ ok (generation, next)
  pub state : st' ≡ accept abi st p address generation next

module _ (abi : Abi) where
  by_generation :
      (st st' : State) (p address : ℕ) (r : Result BridgeError (ℕ × ℕ))
      → st.binding.batch ≡ none
      → check_batch abi st.binding (st.batches p) ≡ ok address
      → take_generation st.next_generation ≡ r
      → (r >>= λ g. ok (accept abi st p address g.0 g.1)) ≡ ok st'
      → Published abi st p st'
  by_generation st st' p address (err x) f c t e = absurd (ground (arith, e))
  by_generation st st' p address (ok (g, n)) f c t e = record {
    generation = g;
    next = n;
    address = address;
    free = f;
    checked = c;
    taken = t;
    state =
        sym (one_value (accept abi st p address g n) st' (ok (accept abi st p address g n)) refl e);
  }

  -- A call that succeeds has published the batch that it was given.
  pub publish_batch-Published :
      (st st' : State) (batch : Option ℕ)
      → publish_batch abi st batch ≡ ok st'
      → (p : ℕ) × (batch ≡ some p) × Published abi st p st'
  unfolding publish_batch
  publish_batch-Published st st' batch e = by_binding st.binding.batch batch refl e
    where
      by_check :
          (p : ℕ) (r : Result BridgeError ℕ)
          → st.binding.batch ≡ none
          → check_batch abi st.binding (st.batches p) ≡ r
          → (r >>= λ address.
              take_generation st.next_generation >>= λ g. ok (accept abi st p address g.0 g.1))
            ≡ ok st'
          → Published abi st p st'
      by_check p (err x) f c e = absurd (ground (arith, e))
      by_check p (ok address) f c e =
          by_generation st st' p address (take_generation st.next_generation) f c refl e

      by_binding :
          (bound batch : Option ℕ)
          → st.binding.batch ≡ bound
          → (elim bound [
            | some q ↦ err already_published
            | none ↦ elim batch [
              | none ↦ err invalid_batch
              | some p ↦ check_batch abi st.binding (st.batches p) >>= λ address.
                  take_generation st.next_generation >>= λ g. ok (accept abi st p address g.0 g.1)
            ]
          ])
            ≡ ok st'
          → (p : ℕ) × (batch ≡ some p) × Published abi st p st'
      by_binding (some q) batch f e = absurd (ground (arith, e))
      by_binding none none f e = absurd (ground (arith, e))
      by_binding none (some p) f e =
          (p, refl, by_check p (check_batch abi st.binding (st.batches p)) f refl e)

-- A generation is never zero, and the counter moves on.
pub take_generation-nonzero :
    (next generation later : ℕ)
    → take_generation next ≡ ok (generation, later)
    → generation == 0 ≡ false
unfolding take_generation
take_generation-nonzero next generation later e = ground (arith, e)

pub set_generation-at :
    (batches : ℕ → PgBatch) (p g q : ℕ)
    → (set_generation batches p g q).generation ≡ (if q == p then g else (batches q).generation)
unfolding set_generation
set_generation-at batches p g q = by_test (q == p)
  where
    by_test :
        (b : Bool)
        → (if b then record (batches q) { generation = g } else batches q).generation
          ≡ (if b then g else (batches q).generation)
    by_test true = refl
    by_test false = refl

-- The tests on the selection make it well formed, its words being of 64 bits.
rows_beyond-IsWellFormed :
    (s : Selection)
    → (nwords s == (s.nrows + 63) / 64) ≡ true
    → rows_beyond s ≡ false
    → ((k : ℕ) → k < nwords s → length (word_at s k) ≡ 64)
    → IsWellFormed s
rows_beyond-IsWellFormed s enough none_beyond widths = record {
  enough = (==_iff _ _).0 enough;
  widths = widths;
  within = λ row h. contains-test_bit s row ∙ outside row h;
}
  where
    n : nwords s ≡ (s.nrows + 63) / 64
    n = (==_iff _ _).0 enough

    last_word :
        (i : ℕ)
        → i < 64
        → s.nrows % 64 ≤ i
        → (s.nrows % 64 == 0) ≡ false
        → test_bit (word_at s (nwords s - 1)) i ≡ false
    last_word i small above part =
        let w = word_at s (nwords s - 1) in
        let mask = shift_left (all_ones 64) (s.nrows % 64) in
        let zero_and : is_zero (bit_and w mask) ≡ true = ground (arith, none_beyond, part) in
        let off = test_bit-is_zero (bit_and w mask) i zero_and in
        let both = test_bit-and w mask i in
        let on = test_bit-shift_left 64 (s.nrows % 64) i small in
        ground (arith, off, both, on, above)

    outside : (row : ℕ) → s.nrows ≤ row → test_bit (word_at s (row / 64)) (row % 64) ≡ false
    outside row h = elim (Bool-cases (ltb (row / 64) (nwords s))) [
      | inl there ↦
          let last : row / 64 ≡ nwords s - 1 = ground (arith, n, there) in
          let above : s.nrows % 64 ≤ row % 64 = ground (arith, n, there) in
          rw last (last_word (row % 64) (omega arith) above (ground (arith, n, there)))
      | inr past ↦ rw (get_or-beyond s.words (row / 64) [] (ground (arith, past)))
    ]

module _ (abi : Abi) where
  -- A batch that passes the tests has rows, no more than the request allows, and a well-formed
  -- selection; it was not active.
  pub record Acceptable (b : Binding) (batch : PgBatch) : Type 0 where
    pub has_rows : 1 ≤ batch.selection.nrows
    pub inactive : batch.generation ≡ 0
    pub limit : exceeds b.request.max_rows batch.selection.nrows ≡ false
    pub well_formed : IsWellFormed batch.selection

  -- Tests that pass make the batch acceptable, its words being of 64 bits.
  pub check_batch-Acceptable :
      (b : Binding) (batch : PgBatch) (address : ℕ)
      → check_batch abi b batch ≡ ok address
      → ((k : ℕ) → k < nwords batch.selection → length (word_at batch.selection k) ≡ 64)
      → Acceptable b batch
  unfolding check_batch
  check_batch-Acceptable b batch address e widths =
      by_ops batch.ops
        (passed_test
          (not (valid_abi batch.abi_version batch.struct_size abi.batch_version abi.batch_min_size))
          incompatible_abi _ address e).1
    where
      by_ops :
          (ops : Option BatchOps)
          → (elim ops [
            | none ↦ err invalid_batch
            | some o ↦
                if batch.null_words
                  || batch.selection.nrows == 0
                  || not (nwords batch.selection == (batch.selection.nrows + 63) / 64)
                then err invalid_batch
                else if not (batch.generation == 0)
                then err already_active
                else if exceeds b.request.max_rows batch.selection.nrows
                then err too_many_rows
                else if rows_beyond batch.selection
                then err rows_beyond_end
                else check_ops abi b.validated_ops o
          ])
            ≡ ok address
          → Acceptable b batch
      by_ops none e = absurd (ground (arith, e))
      by_ops (some o) e =
          let (shape, e1) =
            passed_test
              (batch.null_words
                || batch.selection.nrows == 0
                || not (nwords batch.selection == (batch.selection.nrows + 63) / 64))
              invalid_batch _ address e in
          let (inactive, e2) =
            passed_test (not (batch.generation == 0)) already_active _ address e1 in
          let (limit, e3) =
            passed_test (exceeds b.request.max_rows batch.selection.nrows) too_many_rows _ address
              e2 in
          let (beyond, e4) =
            passed_test (rows_beyond batch.selection) rows_beyond_end
              (check_ops abi b.validated_ops o) address e3 in
          record {
            has_rows = ground (arith, shape);
            inactive = ground (arith, inactive);
            limit = limit;
            well_formed =
                rows_beyond-IsWellFormed batch.selection (ground (arith, shape)) beyond widths;
          }

  -- What a publication comes to.
  abbrev pub Accepted : State → ℕ → State → Type 0
  Accepted st p st' =
      Acceptable st.binding (st.batches p)
      × (st'.binding.batch ≡ some p)
      × (st'.binding.finished ≡ false)
      × (st'.binding.request_sealed ≡ true)
      × ((st'.batches p).generation == 0 ≡ false)

  accept-Accepted :
      (st : State) (p address generation next : ℕ)
      → generation == 0 ≡ false
      → Acceptable st.binding (st.batches p)
      → Accepted st p (accept abi st p address generation next)
  unfolding accept
  accept-Accepted st p address generation next nonzero a =
      let self : p == p ≡ true = ground arith in
      (
        a,
        refl,
        refl,
        refl,
        ap (λ k. k == 0) (set_generation-at st.batches p generation p) ∙ rw self nonzero,
      )

  -- When a publication succeeds and the words of the batch have 64 bits, the selection of the batch is
  -- well formed, has a row and no more rows than the request allows, and the batch was not active; the
  -- binding holds the batch, not finished, with a generation that is not zero, and its request is
  -- sealed.
  pub publish_batch-Accepted :
      (st st' : State) (p : ℕ)
      → publish_batch abi st (some p) ≡ ok st'
      → ((k : ℕ)
          → k < nwords (st.batches p).selection
          → length (word_at (st.batches p).selection k) ≡ 64)
      → Accepted st p st'
  publish_batch-Accepted st st' p e widths =
      let (q, same, done) = publish_batch-Published abi st st' (some p) e in
      let here : q ≡ p = ground (arith, same) in
      let d = subst (λ r. Published abi st r st') here done in
      subst (Accepted st p) (sym d.state) (
        accept-Accepted st p d.address d.generation d.next
          (take_generation-nonzero st.next_generation d.generation d.next d.taken)
          (check_batch-Acceptable st.binding (st.batches p) d.address d.checked widths))
