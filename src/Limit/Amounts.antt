-- ===== src/Limit/Amounts.antt =====
-- examples/limit_node/executor.c: compute_limits reads OFFSET and LIMIT, and the bound that it gives
-- to the child cuts no row that is needed.
use pg_batch.Prelude.{
  ℕ, zero, suc, ◌≡◌, refl, Bool, true, false, List, [], Option, some, take, drop,
}
use pg_batch.Prelude.Int.{ℤ, pos, negsuc}
use pg_batch.Prelude.Result.{Result, ok, err}
use pg_batch.Limit.{LimitState, LimitError, negative_offset, negative_limit}
use pg_batch.Limit.Window.{window}

-- SQL's OFFSET and LIMIT on a list; a null or absent amount does not cut.
abbrev pub sql_offset {ℓ} : {A : Type ℓ} → Option ℤ → List A → List A
sql_offset (some (pos o)) rs = drop o rs
sql_offset _ rs = rs

abbrev pub sql_limit {ℓ} : {A : Type ℓ} → Option ℤ → List A → List A
sql_limit (some (pos c)) rs = take c rs
sql_limit _ rs = rs

abbrev pub is_negative : Option ℤ → Bool
is_negative (some (negsuc n)) = true
is_negative _ = false

-- On success the state keeps what SQL keeps, and the first `bound` rows are enough for that; an error
-- tells which amount is negative, OFFSET being looked at first.
abbrev pub ReadsLimits : Option ℤ → Option ℤ → Result LimitError LimitState → Type 0
ReadsLimits offset count (ok st) =
    (rs : List ℕ)
    → (window st rs ≡ sql_limit count (sql_offset offset rs))
      × ((n : ℕ) → st.bound ≡ some n → window st (take n rs) ≡ window st rs)
ReadsLimits offset count (err negative_offset) = is_negative offset ≡ true
ReadsLimits offset count (err negative_limit) =
    (is_negative offset ≡ false) × (is_negative count ≡ true)

take_nil : (c : ℕ) → take {A = ℕ} c [] ≡ []
take_nil zero = refl
take_nil (suc c) = refl
