-- ===== src/Bridge/Life.antt =====
-- bridge/bridge.c: every run of a binding, with the source changing the batches in between.
use pg_batch.Prelude.{
  ℕ, ◌≡◌, refl, ap, sym, ◌∙◌, subst, inl, inr, Bool, true, false, not, ◌&&◌, ◌||◌, leb, Option,
  none, some, arith, ◌==◌, if◌then◌else◌, Bool-cases,
}
use pg_batch.Prelude.Result.{ok, err, one_value}
use pg_batch.Prelude.Int.{pos, ltb_ℤ}
use pg_batch.Batch.Selection.{contains}
use pg_batch.Bridge.{
  PgBatch, RequestSpec, Abi, State, publish_batch, set_request, seal_request, finish, clear_binding,
  select_row, set_generation, accept, valid_mode, beyond, cannot_finish, cannot_select,
}
use pg_batch.Bridge.Publish.{
  publish_batch-Published, take_generation-nonzero, set_generation-at, passed_test,
}

-- One call of the bridge, or the source at work on its batches: it leaves the generations alone.
pub data Step (abi : Abi) : State → State → Type 0 where
  set : (st st' : State) (spec : RequestSpec) → set_request st spec ≡ ok st' → Step abi st st'
  seal : (st : State) → Step abi st (seal_request st)
  publish :
      (st st' : State) (batch : Option ℕ) → publish_batch abi st batch ≡ ok st' → Step abi st st'
  select : (st st' : State) (row : ℕ) → select_row st row ≡ ok st' → Step abi st st'
  finishing : (st st' : State) → finish st ≡ ok st' → Step abi st st'
  clearing : (st : State) → Step abi st (clear_binding st)
  source :
      (st : State) (batches : ℕ → PgBatch)
      → ((q : ℕ) → (batches q).generation ≡ (st.batches q).generation)
      → Step abi st (record st { batches = batches })

pub data Steps (abi : Abi) : State → State → Type 0 where
  done : (st : State) → Steps abi st st
  step : (st st' st'' : State) → Steps abi st st' → Step abi st' st'' → Steps abi st st''

-- The batch that the binding holds and that is not finished.
abbrev pub active : State → ℕ → Bool
active st q = not st.binding.finished && (elim st.binding.batch [ none ↦ false | some p ↦ q == p ])

-- Exactly the active batch has a generation.
abbrev pub Live : State → Type 0
Live st = (q : ℕ) → (st.batches q).generation == 0 ≡ not (active st q)

-- With no active batch before, and all generations zero, the one that is set becomes the only one.
only_one :
    (batches : ℕ → PgBatch) (p g q : ℕ)
    → (batches q).generation == 0 ≡ true
    → g == 0 ≡ false
    → (set_generation batches p g q).generation == 0 ≡ not (q == p)
only_one batches p g q z n =
    ap (λ k. k == 0) (set_generation-at batches p g q)
    ∙ elim (Bool-cases (q == p)) [ inl e ↦ rw e n | inr e ↦ rw e z ]

none_left :
    (batches : ℕ → PgBatch) (p q : ℕ) (inactive : Bool)
    → ((batches q).generation == 0) ≡ not (not inactive && (q == p))
    → (set_generation batches p 0 q).generation == 0 ≡ true
none_left batches p q inactive h =
    ap (λ k. k == 0) (set_generation-at batches p 0 q)
    ∙ elim (Bool-cases (q == p)) [ inl e ↦ rw e | inr e ↦ rw e (ground (arith, h, e)) ]

-- A request that is set was not sealed, and nothing else changes.
pub set_request-kept :
    (st st' : State) (spec : RequestSpec)
    → set_request st spec ≡ ok st'
    → (st.binding.request_sealed ≡ false)
      × (st' ≡ record st { binding = record st.binding { request = spec } })
unfolding set_request
set_request-kept st st' spec e =
    let (open_request, e1) = passed_test st.binding.request_sealed _ _ st' e in
    let (a, e2) = passed_test (ltb_ℤ spec.max_rows (pos 0)) _ _ st' e1 in
    let (b, e3) = passed_test (not (valid_mode spec.output_mode)) _ _ st' e2 in
    let (c, e4) = passed_test (beyond st.binding.ncolumns spec.filter_columns) _ _ st' e3 in
    let (d, e5) = passed_test (beyond st.binding.ncolumns spec.project_columns) _ _ st' e4 in
    let st2 : State = record st { binding = record st.binding { request = spec } } in
    (open_request, one_value st' st2 (ok st2) e5 refl)

-- The invariant where the binding is known to hold `bound`.
Live-at :
    (st : State) (bound : Option ℕ)
    → st.binding.batch ≡ bound
    → Live st
    → (q : ℕ)
    → (st.batches q).generation == 0
      ≡ not (not st.binding.finished && (elim bound [ none ↦ false | some p ↦ q == p ]))
Live-at st bound e live q =
    live q
    ∙ ap (λ o. not (not st.binding.finished && (elim o [ none ↦ false | some p ↦ q == p ]))) e

finish-Live : (st st' : State) → Live st → finish st ≡ ok st' → Live st'
unfolding finish
finish-Live st st' live e = by_bound st.binding.batch refl e
  where
    by_bound :
        (bound : Option ℕ)
        → st.binding.batch ≡ bound
        → (elim bound [
          | none ↦ err cannot_finish
          | some p ↦
              if st.binding.finished
              then err cannot_finish
              else ok (record st {
                binding = record st.binding { finished = true };
                batches = set_generation st.batches p 0;
              })
        ])
          ≡ ok st'
        → Live st'
    by_bound none b e = absurd (ground (arith, e))
    by_bound (some p) b e =
        let st2 : State = record st {
          binding = record st.binding { finished = true };
          batches = set_generation st.batches p 0;
        } in
        subst Live
          (one_value st2 st' (ok st2) refl
            (passed_test st.binding.finished cannot_finish (ok st2) st' e).1)
          (λ q. none_left st.batches p q st.binding.finished (Live-at st (some p) b live q))

clear-Live : (st : State) → Live st → Live (clear_binding st)
unfolding clear_binding
clear-Live st live = by_bound st.binding.batch refl
  where
    by_bound :
        (bound : Option ℕ)
        → st.binding.batch ≡ bound
        → Live (elim bound [
          | none ↦ st
          | some p ↦ record st {
            binding = record st.binding { batch = none; finished = false };
            batches = set_generation st.batches p 0;
          }
        ])
    by_bound none b = live
    by_bound (some p) b =
        λ q. none_left st.batches p q st.binding.finished (Live-at st (some p) b live q)

set-Live : (st st' : State) (spec : RequestSpec) → Live st → set_request st spec ≡ ok st' → Live st'
set-Live st st' spec live e = subst Live (sym (set_request-kept st st' spec e).1) live

pub select-kept : (st st' : State) (row : ℕ) → select_row st row ≡ ok st' → st' ≡ st
unfolding select_row
select-kept st st' row e = by_bound st.binding.batch e
  where
    by_bound :
        (bound : Option ℕ)
        → (elim bound [
          | none ↦ err cannot_select
          | some p ↦
              if st.binding.finished
                || leb (st.batches p).selection.nrows row
                || not (contains (st.batches p).selection row)
              then err cannot_select
              else ok st
        ])
          ≡ ok st'
        → st' ≡ st
    by_bound none e = absurd (ground (arith, e))
    by_bound (some p) e =
        one_value st' st (ok st)
          (passed_test
            (st.binding.finished
              || leb (st.batches p).selection.nrows row
              || not (contains (st.batches p).selection row))
            cannot_select (ok st) st' e).1
          refl

module _ (abi : Abi) where
  publish-Live :
      (st st' : State) (batch : Option ℕ) → Live st → publish_batch abi st batch ≡ ok st' → Live st'
  unfolding accept
  publish-Live st st' batch live e =
      let (p, same, d) = publish_batch-Published abi st st' batch e in
      subst Live (sym d.state) (λ q.
        only_one st.batches p d.generation q (Live-at st none d.free live q ∙ ground arith)
          (take_generation-nonzero st.next_generation d.generation d.next d.taken))

  Step-Live : (st st' : State) → Live st → Step abi st st' → Live st'
  Step-Live st st' live (set a b spec e) = set-Live a b spec live e
  Step-Live st st' live (seal a) = unfold seal_request in live
  Step-Live st st' live (publish a b batch e) = publish-Live a b batch live e
  Step-Live st st' live (select a b row e) = subst Live (sym (select-kept a b row e)) live
  Step-Live st st' live (finishing a b e) = finish-Live a b live e
  Step-Live st st' live (clearing a) = clear-Live a live
  Step-Live st st' live (source a batches e) = λ q. ap (λ g. g == 0) (e q) ∙ live q

  -- In every run of the calls on a binding, with the source changing its batches in between but not
  -- their generations: if before it exactly the active batch has a generation that is not zero, then
  -- after it too. So a generation tells whether a batch is still the one in use.
  pub Steps-Live : (st st' : State) → Live st → Steps abi st st' → Live st'
  Steps-Live st st' live (done a) = live
  Steps-Live st st' live (step a b c run last) = Step-Live b c (Steps-Live a b live run) last
