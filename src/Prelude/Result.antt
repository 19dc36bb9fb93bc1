-- ===== src/Prelude/Result.antt =====
-- A value or an error, with `do`; loops over a list that stop at the first error.
use pg_batch.Prelude.{◌≡◌, refl, ap, sym, ◌∙◌, ◌⊎◌, inl, inr, List, [], ◌∷◌, ◌++◌, map}

pub data Result {ℓ} (E : Type 0) (A : Type ℓ) : Type ℓ where
  ok : A → Result E A
  err : E → Result E A

infixl 5 ◌>>=◌
abbrev pub ◌>>=◌ {ℓ κ} :
    {E : Type 0} {A : Type ℓ} {B : Type κ} → Result E A → (A → Result E B) → Result E B
ok a >>= f = f a
err e >>= f = err e

pub Result-cases {ℓ} :
    {E : Type 0} {A : Type ℓ} (r : Result E A) → ((a : A) × (r ≡ ok a)) ⊎ ((e : E) × (r ≡ err e))
Result-cases (ok a) = inl (a, refl)
Result-cases (err e) = inr (e, refl)

module _ {ℓ κ} {E : Type 0} {S : Type ℓ} {A : Type κ} where
  -- `for (x in xs) body`, where the body may raise an error
  unfoldable pub fold_result : (A → S → Result E S) → List A → S → Result E S
  fold_result body [] s = ok s
  fold_result body (x ∷ xs) s = body x s >>= fold_result body xs

  pub fold_result-append :
      (body : A → S → Result E S) (xs ys : List A) (s : S)
      → fold_result body (xs ++ ys) s ≡ fold_result body xs s >>= fold_result body ys
  unfolding fold_result
  fold_result-append body [] ys s = refl
  fold_result-append body (x ∷ xs) ys s = by_step (body x s) (fold_result-append body xs ys)
    where
      by_step :
          (r : Result E S)
          → ((t : S)
              → fold_result body (xs ++ ys) t ≡ fold_result body xs t >>= fold_result body ys)
          → r >>= fold_result body (xs ++ ys) ≡ (r >>= fold_result body xs) >>= fold_result body ys
      by_step (ok t) ih = ih t
      by_step (err e) ih = refl

module _ {ℓ κ κ'} {E : Type 0} {S : Type ℓ} {A : Type κ} {B : Type κ'} where
  pub fold_result-map :
      (body : B → S → Result E S) (f : A → B) (xs : List A) (s : S)
      → fold_result body (map f xs) s ≡ fold_result (λ x. body (f x)) xs s
  unfolding fold_result
  fold_result-map body f [] s = refl
  fold_result-map body f (x ∷ xs) s = by_step (body (f x) s) (fold_result-map body f xs)
    where
      by_step :
          (r : Result E S)
          → ((t : S) → fold_result body (map f xs) t ≡ fold_result (λ x. body (f x)) xs t)
          → r >>= fold_result body (map f xs) ≡ r >>= fold_result (λ x. body (f x)) xs
      by_step (ok t) ih = ih t
      by_step (err e) ih = refl

abbrev value_or : {E A : Type 0} → A → Result E A → A
value_or d (ok a) = a
value_or d (err e) = d

-- A result has one value.
pub one_value : {E A : Type 0} (a b : A) (r : Result E A) → r ≡ ok a → r ≡ ok b → a ≡ b
one_value a b r p q = sym (ap (value_or a) p) ∙ ap (value_or a) q
