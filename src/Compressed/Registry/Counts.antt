-- ===== src/Compressed/Registry/Counts.antt =====
-- examples/compressed_tam/compressed.c: a reference to a snapshot keeps it from being replaced.
use pg_batch.Prelude.{
  ℕ, ◌+◌, ◌-◌, ◌≡◌, refl, ap, sym, ◌∙◌, inl, inr, Bool, true, false, not, List, [], ◌∷◌, Option,
  none, some, arith, ◌==◌, ==_iff, if◌then◌else◌, Bool-cases,
}
use pg_batch.Prelude.Result.{err}
use pg_batch.Compressed.Registry.{
  Snapshot, snapshot_in_use, replace_link, install_relation, find_relation, find-absent,
  change_refcount, acquire, release, absent, in_use, Unique,
}

undo :
    (address : ℕ) (rs : List Snapshot)
    → change_refcount (λ n. n - 1) address (change_refcount (λ n. n + 1) address rs) ≡ rs
unfolding change_refcount
undo address [] = refl
undo address (r ∷ rs) = by_test (r.address == address) refl (undo address rs)
  where
    by_test :
        (b : Bool)
        → r.address == address ≡ b
        → change_refcount (λ n. n - 1) address (change_refcount (λ n. n + 1) address rs) ≡ rs
        → (if (if b then record r { refcount = r.refcount + 1 } else r).address == address
              then record (if b then record r { refcount = r.refcount + 1 } else r) {
                refcount = (if b then record r { refcount = r.refcount + 1 } else r).refcount - 1;
              }
              else (if b then record r { refcount = r.refcount + 1 } else r))
            ∷ change_refcount (λ n. n - 1) address (change_refcount (λ n. n + 1) address rs)
          ≡ r ∷ rs
    by_test true e ih =
        let n : r.refcount + 1 - 1 ≡ r.refcount = omega arith in
        rw e (
          ap
            (λ k.
              record r { refcount = k }
              ∷ change_refcount (λ n. n - 1) address (change_refcount (λ n. n + 1) address rs))
            n
          ∙ ap (λ l. r ∷ l) ih)
    by_test false e ih = rw e (ap (λ l. r ∷ l) ih)

counted :
    (relid n : ℕ) (rs : List Snapshot) (found : Snapshot)
    → Unique rs
    → find_relation relid n rs ≡ some found
    → in_use relid (change_refcount (λ k. k + 1) found.address rs) ≡ true
unfolding change_refcount find_relation in_use
counted relid n [] found u e = absurd (ground (arith, e))
counted relid n (r ∷ rs) found u e = elim (Bool-cases (r.relid == relid)) [
  | inl here ↦ elim (Bool-cases (r.ncolumns == n)) [
    | inl c ↦
        let same : r ≡ found = some_eq (sym (rw (here, c)) ∙ e) in
        at_head (r.address == found.address)
          (ap (λ k. r.address == k.address) (sym same) ∙ ground arith) here
    | inr c ↦ absurd (
        no_other c
          (find-absent relid n rs (ap (λ k. absent k rs) (sym ((==_iff _ _).0 here)) ∙ u.0)) e)
  ]
  | inr there ↦
      behind (r.address == found.address) there (counted relid n rs found u.1 (later there e))
]
  where
    some_eq : {a b : Snapshot} → some a ≡ some b → a ≡ b
    some_eq {a = a} p = ap (λ o. elim o [ none ↦ a | some x ↦ x ]) p

    later :
        r.relid == relid ≡ false
        → find_relation relid n (r ∷ rs) ≡ some found
        → find_relation relid n rs ≡ some found
    later there e = sym (rw there) ∙ e

    no_other :
        r.ncolumns == n ≡ false
        → find_relation relid n rs ≡ none
        → find_relation relid n (r ∷ rs) ≡ some found
        → ⊥
    no_other c gone e = ground (arith, c, gone, e)

    at_head :
        (b : Bool)
        → b ≡ true
        → r.relid == relid ≡ true
        → (if (if b then record r { refcount = r.refcount + 1 } else r).relid == relid
            then not ((if b then record r { refcount = r.refcount + 1 } else r).refcount == 0)
            else in_use relid (change_refcount (λ k. k + 1) found.address rs))
          ≡ true
    at_head true e here = rw here (ground arith)
    at_head false e here = absurd (ground (arith, e))

    behind :
        (b : Bool)
        → r.relid == relid ≡ false
        → in_use relid (change_refcount (λ k. k + 1) found.address rs) ≡ true
        → (if (if b then record r { refcount = r.refcount + 1 } else r).relid == relid
            then not ((if b then record r { refcount = r.refcount + 1 } else r).refcount == 0)
            else in_use relid (change_refcount (λ k. k + 1) found.address rs))
          ≡ true
    behind true there h = rw there h
    behind false there h = rw there h

-- A snapshot in use is not replaced.
replace_link-in_use :
    (new : Snapshot) (rs : List Snapshot)
    → in_use new.relid rs ≡ true
    → replace_link new rs ≡ err snapshot_in_use
unfolding replace_link in_use
replace_link-in_use new [] h = absurd (ground (arith, h))
replace_link-in_use new (r ∷ rs) h = elim (Bool-cases (r.relid == new.relid)) [
  | inl here ↦ let used : r.refcount == 0 ≡ false = ground (arith, here, h) in rw (here, used)
  | inr there ↦ rw (there, replace_link-in_use new rs (ground (arith, there, h)))
]

install_relation-in_use :
    (new : Snapshot) (rs : List Snapshot)
    → in_use new.relid rs ≡ true
    → install_relation new rs ≡ err snapshot_in_use
unfolding install_relation
install_relation-in_use new rs h = rw (replace_link-in_use new rs h)

-- What acquiring a snapshot comes to: with none for the relation nothing changes; else no snapshot of the
-- relation can be installed, and releasing the one that was found gives the list back.
abbrev pub Acquires : ℕ → List Snapshot → Option Snapshot × List Snapshot → Type 0
Acquires relid rs (none, l) = l ≡ rs
Acquires relid rs (some r, l) =
    ((new : Snapshot) → new.relid ≡ relid → install_relation new l ≡ err snapshot_in_use)
    × (release r.address l ≡ rs)

-- With at most one snapshot for each relation, where acquiring finds one, every installation of a
-- snapshot of the relation is refused afterwards, and releasing it restores the list as it was; where
-- none is found nothing changes.
pub acquire-Acquires :
    (relid n : ℕ) (rs : List Snapshot) → Unique rs → Acquires relid rs (acquire relid n rs)
unfolding acquire release
acquire-Acquires relid n rs u = by_found (find_relation relid n rs) refl
  where
    by_found :
        (o : Option Snapshot)
        → find_relation relid n rs ≡ o
        → Acquires relid rs
            (o, elim o [ none ↦ rs | some r ↦ change_refcount (λ k. k + 1) r.address rs ])
    by_found none e = refl
    by_found (some r) e = (
      λ new same. install_relation-in_use new (change_refcount (λ k. k + 1) r.address rs) (
          ap (λ k. in_use k (change_refcount (λ j. j + 1) r.address rs)) same
          ∙ counted relid n rs r u e),
      undo r.address rs,
    )
