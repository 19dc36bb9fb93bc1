-- ===== src/Compressed/Registry.antt =====
-- examples/compressed_tam/compressed.c: the list of compressed snapshots of this session. A snapshot is
-- known by its address; a relation that is not supported is not looked up.
pub mod Counts
use pg_batch.Prelude.{
  ℕ, zero, suc, ◌+◌, ◌-◌, ◌≡◌, refl, ap, sym, ◌∙◌, inl, inr, Bool, true, false, not, ◌&&◌, List, [],
  ◌∷◌, Option, none, some, arith, ◌==◌, ==_iff, if◌then◌else◌, Bool-cases,
}
use pg_batch.Prelude.Result.{Result, ok, err, ◌>>=◌}

pub record Snapshot : Type 0 where
  pub address : ℕ
  pub relid : ℕ
  pub ncolumns : ℕ
  pub refcount : ℕ

pub data RegistryError : Type 0 where
  snapshot_in_use : RegistryError

-- The walk to the link of the relation, and the exchange there; `none` at the end of the list.
pub replace_link : Snapshot → List Snapshot → Result RegistryError (Option (List Snapshot))
replace_link new [] = ok none
replace_link new (r ∷ rs) =
    let rest = replace_link new rs in
    if r.relid == new.relid
    then if not (r.refcount == 0) then err snapshot_in_use else ok (some (new ∷ rs))
    else (rest >>= λ o. ok (elim o [ none ↦ none | some l ↦ some (r ∷ l) ]))

pub install_relation : Snapshot → List Snapshot → Result RegistryError (List Snapshot)
unfolding replace_link
install_relation new rs = replace_link new rs >>= λ o. ok (elim o [ none ↦ new ∷ rs | some l ↦ l ])

pub find_relation : ℕ → ℕ → List Snapshot → Option Snapshot
find_relation relid ncolumns [] = none
find_relation relid ncolumns (r ∷ rs) =
    if r.relid == relid && r.ncolumns == ncolumns then some r else find_relation relid ncolumns rs

-- `compressed->refcount++` and `compressed->refcount--` on the snapshot at an address
pub change_refcount : (ℕ → ℕ) → ℕ → List Snapshot → List Snapshot
change_refcount f address [] = []
change_refcount f address (r ∷ rs) =
    (if r.address == address then record r { refcount = f r.refcount } else r)
    ∷ change_refcount f address rs

pub acquire : ℕ → ℕ → List Snapshot → Option Snapshot × List Snapshot
unfolding change_refcount
acquire relid ncolumns rs =
    let found = find_relation relid ncolumns rs in
    (found, elim found [ none ↦ rs | some r ↦ change_refcount (λ n. n + 1) r.address rs ])

pub release : ℕ → List Snapshot → List Snapshot
unfolding change_refcount
release address rs = change_refcount (λ n. n - 1) address rs

-- No snapshot of a relation.
unfoldable pub absent : ℕ → List Snapshot → Bool
absent relid [] = true
absent relid (r ∷ rs) = not (r.relid == relid) && absent relid rs

-- A snapshot of the relation that is in use.
pub in_use : ℕ → List Snapshot → Bool
in_use relid [] = false
in_use relid (r ∷ rs) = if r.relid == relid then not (r.refcount == 0) else in_use relid rs

abbrev pub Unique : List Snapshot → Type 0
Unique [] = Unit
Unique (r ∷ rs) = (absent r.relid rs ≡ true) × Unique rs

absent-in_use : (relid : ℕ) (rs : List Snapshot) → absent relid rs ≡ true → in_use relid rs ≡ false
unfolding absent in_use
absent-in_use relid [] h = refl
absent-in_use relid (r ∷ rs) h =
    let other : r.relid == relid ≡ false = ground (arith, h) in
    rw other (absent-in_use relid rs (ground (arith, h)))

pub find-absent :
    (relid n : ℕ) (rs : List Snapshot) → absent relid rs ≡ true → find_relation relid n rs ≡ none
unfolding find_relation absent
find-absent relid n [] h = refl
find-absent relid n (r ∷ rs) h =
    let other : r.relid == relid ≡ false = ground (arith, h) in
    rw other (find-absent relid n rs (ground (arith, h)))

-- What is found after `new` is installed.
abbrev expected : Snapshot → ℕ → ℕ → List Snapshot → Option Snapshot
expected new relid n rs =
    if new.relid == relid
    then if new.ncolumns == n then some new else none
    else find_relation relid n rs

abbrev Replaced : Snapshot → List Snapshot → Result RegistryError (Option (List Snapshot)) → Type 0
Replaced new rs (err x) = in_use new.relid rs ≡ true
Replaced new rs (ok none) = absent new.relid rs ≡ true
Replaced new rs (ok (some l)) =
    (in_use new.relid rs ≡ false)
    × ((relid n : ℕ) → find_relation relid n l ≡ expected new relid n rs)
    × ((relid : ℕ) → absent relid l ≡ absent relid rs)
    × Unique l

exchanged :
    (new r : Snapshot) (rs : List Snapshot)
    → r.relid == new.relid ≡ true
    → r.refcount == 0 ≡ true
    → Unique (r ∷ rs)
    → Replaced new (r ∷ rs) (ok (some (new ∷ rs)))
unfolding find_relation absent in_use
exchanged new r rs e free u =
    let same : r.relid ≡ new.relid = (==_iff _ _).0 e in
    (
      rw (e, free),
      λ relid n. elim (Bool-cases (new.relid == relid)) [
        | inl here ↦
            let gone : absent relid rs ≡ true =
              ap (λ k. absent k rs) (sym ((==_iff _ _).0 here) ∙ sym same) ∙ u.0 in
            rw here (elim (Bool-cases (new.ncolumns == n)) [
              | inl c ↦ rw c
              | inr c ↦ rw c (find-absent relid n rs gone)
            ])
        | inr there ↦
            let r_there : r.relid == relid ≡ false = ap (λ k. k == relid) same ∙ there in
            rw (there, r_there)
      ],
      λ relid. ap (λ k. not (k == relid) && absent relid rs) (sym same),
      (ap (λ k. absent k rs) (sym same) ∙ u.0, u.1),
    )

beside :
    (new r : Snapshot) (rs l : List Snapshot)
    → r.relid == new.relid ≡ false
    → absent r.relid rs ≡ true
    → Replaced new rs (ok (some l))
    → Replaced new (r ∷ rs) (ok (some (r ∷ l)))
unfolding find_relation absent in_use
beside new r rs l e u (unused, f, a, v) = (
  rw e unused,
  λ relid n. elim (Bool-cases (r.relid == relid)) [
    | inl here ↦
        let there : new.relid == relid ≡ false = ground (arith, here, e) in
        rw (here, there)
          (elim (Bool-cases (r.ncolumns == n)) [
            | inl c ↦ rw c
            | inr c ↦ rw c (f relid n ∙ rw there)
          ])
    | inr there ↦ rw there (f relid n)
  ],
  λ relid. ap (λ b. not (r.relid == relid) && b) (a relid),
  (a r.relid ∙ u, v),
)

replace_link-Replaced :
    (new : Snapshot) (rs : List Snapshot) → Unique rs → Replaced new rs (replace_link new rs)
unfolding replace_link absent in_use
replace_link-Replaced new [] u = refl
replace_link-Replaced new (r ∷ rs) u = elim (Bool-cases (r.relid == new.relid)) [
  | inl e ↦ rw e (elim (Bool-cases (r.refcount == 0)) [
    | inl free ↦ rw free (exchanged new r rs e free u)
    | inr used ↦ rw used (rw (e, used))
  ])
  | inr e ↦ rw e (by_rest (replace_link new rs) e (replace_link-Replaced new rs u.1))
]
  where
    by_rest :
        (o : Result RegistryError (Option (List Snapshot)))
        → r.relid == new.relid ≡ false
        → Replaced new rs o
        → Replaced new (r ∷ rs) (o >>= λ p. ok (elim p [ none ↦ none | some l ↦ some (r ∷ l) ]))
    by_rest (err x) e h = rw e h
    by_rest (ok none) e h = rw e h
    by_rest (ok (some l)) e h = beside new r rs l e u.0 h

-- What installing a snapshot comes to: an error exactly if one of the relation is in use; else the new one
-- is found for its relation and number of columns, nothing else of that relation is, and what is found
-- for any other relation stays.
abbrev pub Installs : Snapshot → List Snapshot → Result RegistryError (List Snapshot) → Type 0
Installs new rs (err x) = in_use new.relid rs ≡ true
Installs new rs (ok l) =
    (in_use new.relid rs ≡ false)
    × ((relid n : ℕ)
        → find_relation relid n l ≡ (
            if new.relid == relid
            then if new.ncolumns == n then some new else none
            else find_relation relid n rs))
    × Unique l

-- With at most one snapshot for each relation, installing one replaces the snapshot of its relation or
-- adds it, leaves the other relations alone and keeps one for each, if the old snapshot has no
-- reference, and is refused if it has one.
pub install_relation-Installs :
    (new : Snapshot) (rs : List Snapshot) → Unique rs → Installs new rs (install_relation new rs)
unfolding install_relation find_relation
install_relation-Installs new rs u = by_link (replace_link new rs) (replace_link-Replaced new rs u)
  where
    by_link :
        (o : Result RegistryError (Option (List Snapshot)))
        → Replaced new rs o
        → Installs new rs (o >>= λ p. ok (elim p [ none ↦ new ∷ rs | some l ↦ l ]))
    by_link (err x) h = h
    by_link (ok (some l)) h = (h.0, h.1, h.3)
    by_link (ok none) h = (
      absent-in_use new.relid rs h,
      λ relid n. elim (Bool-cases (new.relid == relid)) [
        | inl here ↦ rw here (elim (Bool-cases (new.ncolumns == n)) [
          | inl c ↦ rw c
          | inr c ↦
              rw c (find-absent relid n rs (ap (λ k. absent k rs) (sym ((==_iff _ _).0 here)) ∙ h))
        ])
        | inr there ↦ rw there
      ],
      (h, u),
    )
