-- ===== src/Bridge/Sealed.antt =====
-- bridge/bridge.c: the request of a binding is settled once the producer has seen it.
use pg_batch.Prelude.{
  ℕ, ◌≡◌, refl, sym, subst, true, false, Option, none, some, arith, if◌then◌else◌,
}
use pg_batch.Prelude.Result.{ok, err, one_value}
use pg_batch.Bridge.{
  RequestSpec, Abi, State, seal_request, finish, clear_binding, set_generation, accept,
  cannot_finish,
}
use pg_batch.Bridge.Publish.{publish_batch-Published, passed_test}
use pg_batch.Bridge.Life.{
  Step, Steps, set, seal, publish, select, finishing, clearing, source, done, step,
  set_request-kept, select-kept,
}

-- A state with this request, sealed.
abbrev pub SealedWith : RequestSpec → State → Type 0
SealedWith request st = (st.binding.request ≡ request) × (st.binding.request_sealed ≡ true)

finish-SealedWith :
    (request : RequestSpec) (st st' : State)
    → SealedWith request st
    → finish st ≡ ok st'
    → SealedWith request st'
unfolding finish
finish-SealedWith request st st' h e = by_bound st.binding.batch e
  where
    by_bound :
        (bound : Option ℕ)
        → (elim bound [
          | none ↦ err cannot_finish
          | some p ↦
              if st.binding.finished
              then err cannot_finish
              else ok (record st {
                binding = record st.binding { finished = true };
                batches = set_generation st.batches p 0;
              })
        ])
          ≡ ok st'
        → SealedWith request st'
    by_bound none e = absurd (ground (arith, e))
    by_bound (some p) e =
        let st2 : State = record st {
          binding = record st.binding { finished = true };
          batches = set_generation st.batches p 0;
        } in
        subst (SealedWith request)
          (one_value st2 st' (ok st2) refl
            (passed_test st.binding.finished cannot_finish (ok st2) st' e).1)
          h

clear-SealedWith :
    (request : RequestSpec) (st : State)
    → SealedWith request st
    → SealedWith request (clear_binding st)
unfolding clear_binding
clear-SealedWith request st h = by_bound st.binding.batch
  where
    by_bound :
        (bound : Option ℕ)
        → SealedWith request (elim bound [
          | none ↦ st
          | some p ↦ record st {
            binding = record st.binding { batch = none; finished = false };
            batches = set_generation st.batches p 0;
          }
        ])
    by_bound none = h
    by_bound (some p) = h

module _ (abi : Abi) (request : RequestSpec) where
  Step-SealedWith :
      (st st' : State) → SealedWith request st → Step abi st st' → SealedWith request st'
  unfolding seal_request accept
  Step-SealedWith st st' h (set a b spec e) =
      absurd (let k = (set_request-kept a b spec e).0 in let s = h.1 in ground (arith, k, s))
  Step-SealedWith st st' h (seal a) = (h.0, refl)
  Step-SealedWith st st' h (publish a b batch e) =
      let (p, same, d) = publish_batch-Published abi a b batch e in
      subst (SealedWith request) (sym d.state) (h.0, refl)
  Step-SealedWith st st' h (select a b row e) =
      subst (SealedWith request) (sym (select-kept a b row e)) h
  Step-SealedWith st st' h (finishing a b e) = finish-SealedWith request a b h e
  Step-SealedWith st st' h (clearing a) = clear-SealedWith request a h
  Step-SealedWith st st' h (source a batches e) = h

  -- Once a request is sealed, no run of the calls on the binding changes it or opens it again.
  pub Steps-SealedWith :
      (st st' : State) → SealedWith request st → Steps abi st st' → SealedWith request st'
  Steps-SealedWith st st' h (done a) = h
  Steps-SealedWith st st' h (step a b c run last) =
      Step-SealedWith b c (Steps-SealedWith a b h run) last
