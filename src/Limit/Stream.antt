-- ===== src/Limit/Stream.antt =====
-- examples/limit_node/executor.c on the loop of runtime/unary.c: all batches of one execution.
use pg_batch.Prelude.{
  ℕ, zero, suc, ◌<◌, ◌≡◌, refl, ap, sym, ◌∙◌, subst, inl, inr, true, false, List, [], ◌∷◌, ◌++◌,
  map, Option, none, some, arith, length, ◌==◌, ==_iff, if◌then◌else◌, Bool-cases,
}
use pg_batch.Postgres.{PgBitutils}
use pg_batch.Batch.Selection.{Selection, IsWellFormed}
use pg_batch.Batch.Selection.Rows.{rows}
use pg_batch.Limit.{LimitState, take_row, trim_batch, stop_if_done}
use pg_batch.Limit.Window.{kept, after, window, kept-append, kept-window}
use pg_batch.Limit.Trim.{trim_batch-TrimsBatch}

-- A batch of the child; `number` tells the batches apart.
pub record Batch : Type 0 where
  pub number : ℕ
  pub selection : Selection

-- A row is known by its batch and its number there.
abbrev pub batch_rows : Batch → List (ℕ × ℕ)
batch_rows b = map (λ row. (b.number, row)) (rows b.selection)

abbrev pub all_rows : List Batch → List (ℕ × ℕ)
all_rows [] = []
all_rows (b ∷ bs) = batch_rows b ++ all_rows bs

-- What fetch_batch leaves: the batch with rows, if any, the batches not read yet, and the state.
pub record Fetched : Type 0 where
  pub active : Option Batch
  pub rest : List Batch
  pub state : LimitState

module _ ⦃pg : PgBitutils⦄ where
  -- The loop: `for (;;)` ends when the node is stopped, when the child has no batch left, or at a
  -- batch of which rows are left.
  pub fetch_batch : LimitState → List Batch → Fetched
  fetch_batch st [] = record { active = none; rest = []; state = st }
  fetch_batch st (b ∷ bs) =
      let t = trim_batch st b.selection in
      let later = fetch_batch t.state bs in
      if st.stopped
      then record { active = none; rest = b ∷ bs; state = st }
      else if t.remaining == 0
      then later
      else record {
        active = some (record b { selection = t.selection });
        rest = bs;
        state = t.state;
      }

  -- The batches of one execution: exec_batch until it has no result. Each fetch but the last reads a
  -- batch, so one round more than there are batches is enough.
  pub exec_all : ℕ → LimitState → List Batch → List Batch
  exec_all zero st bs = []
  exec_all (suc fuel) st bs =
      let f = fetch_batch st bs in
      let rest = exec_all fuel f.state f.rest in elim f.active [ none ↦ [] | some b ↦ b ∷ rest ]

-- All batches of the child are well formed.
abbrev pub AllWellFormed : List Batch → Type 0
AllWellFormed [] = Unit
AllWellFormed (b ∷ bs) = IsWellFormed b.selection × AllWellFormed bs

-- The node is stopped only when no more row can pass.
abbrev pub StopsRight : LimitState → Type 0
StopsRight st = st.stopped ≡ true → (st.no_count ≡ false) × (st.count_remaining ≡ 0)

kept-map : (f : ℕ → ℕ × ℕ) (rs : List ℕ) (st : LimitState) → kept st (map f rs) ≡ map f (kept st rs)
unfolding kept
kept-map f [] st = refl
kept-map f (r ∷ rs) st = elim (Bool-cases ((take_row st).1)) [
  | inl k ↦ rw k (ap (λ l. f r ∷ l) (kept-map f rs (take_row st).0))
  | inr k ↦ rw k (kept-map f rs (take_row st).0)
]

after-map : (f : ℕ → ℕ × ℕ) (rs : List ℕ) (st : LimitState) → after st (map f rs) ≡ after st rs
unfolding after
after-map f [] st = refl
after-map f (r ∷ rs) st = after-map f rs (take_row st).0

-- The stop flag does not bear on a row.
kept-stop : {A : Type 0} (rs : List A) (st : LimitState) → kept (stop_if_done st) rs ≡ kept st rs
unfolding stop_if_done
kept-stop rs st = kept-window rs (stop_if_done st) ∙ sym (kept-window rs st)

kept-done :
    {A : Type 0} (rs : List A) (st : LimitState)
    → st.no_count ≡ false
    → st.count_remaining ≡ 0
    → kept st rs ≡ []
kept-done rs st n c = kept-window rs st ∙ rw (n, c)

StopsRight-after :
    (rs : List ℕ) (st : LimitState) → st.stopped ≡ false → StopsRight (stop_if_done (after st rs))
unfolding after stop_if_done take_row
StopsRight-after [] st h = λ e. ground arith
StopsRight-after (r ∷ rs) st h = StopsRight-after rs (take_row st).0 (ground (arith, h))

module _ ⦃pg : PgBitutils⦄ where
  split_batch :
      (st : LimitState) (b : Batch) (bs : List Batch)
      → IsWellFormed b.selection
      → kept st (all_rows (b ∷ bs))
        ≡ map (λ row. (b.number, row)) (kept st (rows b.selection))
          ++ kept (trim_batch st b.selection).state (all_rows bs)
  split_batch st b bs v =
      let m = trim_batch-TrimsBatch st b.selection v in
      kept-append (batch_rows b) (all_rows bs) st
      ∙ rw
          (
            kept-map (λ row. (b.number, row)) (rows b.selection) st,
            after-map (λ row. (b.number, row)) (rows b.selection) st,
            m.state,
          )
          (ap (λ l. map (λ row. (b.number, row)) (kept st (rows b.selection)) ++ l)
            (sym (kept-stop (all_rows bs) (after st (rows b.selection)))))

  -- What a fetch promises for the rows that LIMIT and OFFSET keep of the batches `bs`.
  abbrev Gives : LimitState → List Batch → Option Batch → LimitState → List Batch → Type 0
  Gives st bs none st' rest = kept st (all_rows bs) ≡ []
  Gives st bs (some b) st' rest =
      (kept st (all_rows bs) ≡ batch_rows b ++ kept st' (all_rows rest))
      × (length rest < length bs)
      × AllWellFormed rest
      × StopsRight st'

  empty_list : (rs : List ℕ) → length rs ≡ 0 → rs ≡ []
  empty_list [] h = refl
  empty_list (r ∷ rs) h = absurd (omega arith)

  longer :
      (st st1 st2 : LimitState) (b : Batch) (bs rest : List Batch) (active : Option Batch)
      → kept st (all_rows (b ∷ bs)) ≡ kept st1 (all_rows bs)
      → Gives st1 bs active st2 rest
      → Gives st (b ∷ bs) active st2 rest
  longer st st1 st2 b bs rest none e g = e ∙ g
  longer st st1 st2 b bs rest (some a) e (k, l, v, r) = (e ∙ k, omega arith, v, r)

  fetch_batch-stopped :
      (b : Batch) (bs : List Batch) (st : LimitState)
      → st.stopped ≡ true
      → fetch_batch st (b ∷ bs) ≡ record { active = none; rest = b ∷ bs; state = st }
  unfolding fetch_batch
  fetch_batch-stopped b bs st s = rw s

  fetch_batch-empty :
      (b : Batch) (bs : List Batch) (st : LimitState)
      → st.stopped ≡ false
      → (trim_batch st b.selection).remaining == 0 ≡ true
      → fetch_batch st (b ∷ bs) ≡ fetch_batch (trim_batch st b.selection).state bs
  unfolding fetch_batch
  fetch_batch-empty b bs st s z = simp (s, z)

  fetch_batch-found :
      (b : Batch) (bs : List Batch) (st : LimitState)
      → st.stopped ≡ false
      → (trim_batch st b.selection).remaining == 0 ≡ false
      → fetch_batch st (b ∷ bs) ≡ record {
        active = some (record b { selection = (trim_batch st b.selection).selection });
        rest = bs;
        state = (trim_batch st b.selection).state;
      }
  unfolding fetch_batch
  fetch_batch-found b bs st s z = simp (s, z)

  -- A fetch keeps the promise.
  abbrev GivesFetched : LimitState → List Batch → Fetched → Type 0
  GivesFetched st bs f = Gives st bs f.active f.state f.rest

  fetch_batch-Gives :
      (bs : List Batch) (st : LimitState)
      → AllWellFormed bs
      → StopsRight st
      → GivesFetched st bs (fetch_batch st bs)
  fetch_batch-Gives [] st v r = unfold fetch_batch in unfold kept in refl
  fetch_batch-Gives (b ∷ bs) st v r = elim (Bool-cases st.stopped) [
    | inl s ↦
        subst (GivesFetched st (b ∷ bs)) (sym (fetch_batch-stopped b bs st s))
          (kept-done (all_rows (b ∷ bs)) st (r s).0 (r s).1)
    | inr s ↦
        let m = trim_batch-TrimsBatch st b.selection v.0 in
        let right : StopsRight (trim_batch st b.selection).state =
          subst StopsRight (sym m.state) (StopsRight-after (rows b.selection) st s) in
        elim (Bool-cases ((trim_batch st b.selection).remaining == 0)) [
          | inl z ↦ subst (GivesFetched st (b ∷ bs)) (sym (fetch_batch-empty b bs st s z)) (
              longer st (trim_batch st b.selection).state _ b bs _ _
                (split_batch st b bs v.0
                  ∙ rw (
                      empty_list (kept st (rows b.selection)) (sym m.remaining ∙ (==_iff _ _).0 z)))
                (fetch_batch-Gives bs (trim_batch st b.selection).state v.1 right))
          | inr n ↦
              subst (GivesFetched st (b ∷ bs)) (sym (fetch_batch-found b bs st s n))
                (split_batch st b bs v.0 ∙ rw (sym m.left), omega arith, v.1, right)
        ]
  ]

  exec_all-kept :
      (fuel : ℕ) (st : LimitState) (bs : List Batch)
      → length bs < fuel
      → AllWellFormed bs
      → StopsRight st
      → all_rows (exec_all fuel st bs) ≡ kept st (all_rows bs)
  unfolding exec_all
  exec_all-kept zero st bs h v r = absurd (omega arith)
  exec_all-kept (suc fuel) st bs h v r =
      by_active (fetch_batch st bs).active (fetch_batch st bs).state (fetch_batch st bs).rest
        (fetch_batch-Gives bs st v r) (exec_all-kept fuel)
    where
      by_active :
          (active : Option Batch) (st' : LimitState) (rest : List Batch)
          → Gives st bs active st' rest
          → ((t : LimitState) (cs : List Batch)
              → length cs < fuel
              → AllWellFormed cs
              → StopsRight t
              → all_rows (exec_all fuel t cs) ≡ kept t (all_rows cs))
          → all_rows (elim active [ none ↦ [] | some b ↦ b ∷ exec_all fuel st' rest ])
            ≡ kept st (all_rows bs)
      by_active none st' rest g ih = sym g
      by_active (some b) st' rest (k, l, w, s) ih =
          ap (λ l. batch_rows b ++ l) (ih st' rest (omega arith) w s) ∙ sym k

  -- For well-formed batches of the child, a node that is not stopped yet, and a round for every batch and
  -- one more: the batches that one execution returns hold, in order, exactly the rows that LIMIT and
  -- OFFSET keep of the rows of all batches of the child. The first `offset_remaining` rows are dropped,
  -- and of the others the first `count_remaining` are kept, or all of them without a LIMIT.
  pub exec_all-window :
      (fuel : ℕ) (st : LimitState) (bs : List Batch)
      → length bs < fuel
      → AllWellFormed bs
      → st.stopped ≡ false
      → all_rows (exec_all fuel st bs) ≡ window st (all_rows bs)
  exec_all-window fuel st bs h v running =
      exec_all-kept fuel st bs h v (λ s. absurd (ground (arith, running, s)))
      ∙ kept-window (all_rows bs) st
