-- ===== src/Spill/Partitions/Slots.antt =====
-- spill/spill.c: the bound on the blocks in memory, and the search for a block to evict.
use pg_batch.Prelude.{
  ℕ, zero, suc, ◌+◌, ◌-◌, ◌%◌, ◌≤◌, ◌<◌, ◌≡◌, ◌≢◌, refl, sym, ap, ◌∙◌, ◌⊎◌, inl, inr, false, Option,
  none, some, arith, ◌==◌, ==_iff, ltb, ltb→lt, Bool-cases, Option-cases,
}
use native.Mathlib.Nat.{mod-eq_of_lt}
use pg_batch.Spill.Block.{SpillWriter, update}
use pg_batch.Spill.Partitions.{SpillSet, find_victim}

abbrev occupied : Option SpillWriter → ℕ
occupied none = 0
occupied (some w) = 1

-- The number of partitions that have a block.
pub count_writers : ℕ → (ℕ → Option SpillWriter) → ℕ
count_writers zero writers = 0
count_writers (suc n) writers = occupied (writers n) + count_writers n writers

count_update_beyond :
    (n q : ℕ) (writers : ℕ → Option SpillWriter) (o : Option SpillWriter)
    → n ≤ q
    → count_writers n (update writers q o) ≡ count_writers n writers
unfolding count_writers
count_update_beyond zero q writers o h = refl
count_update_beyond (suc n) q writers o h =
    let apart : (n == q) ≡ false = ground arith in
    rw (apart, count_update_beyond n q writers o (omega arith))

pub count-update :
    (n q : ℕ) (writers : ℕ → Option SpillWriter) (o : Option SpillWriter)
    → q < n
    → count_writers n (update writers q o) + occupied (writers q)
      ≡ count_writers n writers + occupied o
unfolding count_writers
count-update zero q writers o h = absurd (omega arith)
count-update (suc n) q writers o h = elim (Bool-cases (n == q)) [
  | inl e ↦
      let here : n ≡ q = (==_iff n q).0 e in
      rw (e, here, count_update_beyond q q writers o (omega arith)) (omega arith)
  | inr e ↦
      let apart : n ≢ q = λ h. ground (arith, h, e) in
      rw e (omega (arith, count-update n q writers o (omega (arith, apart))))
]

pub count_none :
    (n : ℕ) (writers : ℕ → Option SpillWriter)
    → ((p : ℕ) → p < n → writers p ≡ none)
    → count_writers n writers ≡ 0
unfolding count_writers
count_none zero writers h = refl
count_none (suc n) writers h =
    rw (h n (omega arith), count_none n writers (λ p a. h p (omega arith)))

-- The blocks in memory are counted and bounded; the cursor points to a partition.
pub record Slots {Tape : Type 0} (set : SpillSet Tape) : Type 0 where
  pub active : set.active_writers ≡ count_writers set.npartitions set.writers
  pub bounded : set.active_writers ≤ set.max_writers
  pub one_writer : 1 ≤ set.max_writers
  pub cursor : set.eviction_cursor < set.npartitions

-- Every partition is looked at, whatever the cursor.
wrapped : (a p np : ℕ) → (a ≡ p) ⊎ (a ≡ p + np) → p < np → a % np ≡ p
wrapped a p np (inl e) h = rw e (mod-eq_of_lt h)
wrapped a p np (inr e) h = rw e (grind arith)

reached : (c p np : ℕ) → c < np → p < np → (k : ℕ) × (k < np) × ((c + k) % np ≡ p)
reached c p np hc hp = elim (Bool-cases (ltb p c)) [
  | inl e ↦
      let before : p < c = ltb→lt p c e in
      (p + np - c, omega arith, wrapped (c + (p + np - c)) p np (inr (omega arith)) hp)
  | inr e ↦
      let after : c ≤ p = ground arith in
      (p - c, omega arith, wrapped (c + (p - c)) p np (inl (omega arith)) hp)
]

module _ {Tape : Type 0} where
  find_victim-none :
      (n offset : ℕ) (set : SpillSet Tape) (k : ℕ)
      → find_victim n offset set ≡ none
      → k < n
      → set.writers ((set.eviction_cursor + (offset + k)) % set.npartitions) ≡ none
  unfolding find_victim
  find_victim-none zero offset set k e h = absurd (omega arith)
  find_victim-none (suc n) offset set k e h =
      by_writer (Option-cases (set.writers ((set.eviction_cursor + offset) % set.npartitions))) k
        (λ r j. find_victim-none n (offset + 1) set j r) e h
    where
      by_writer :
          (set.writers ((set.eviction_cursor + offset) % set.npartitions) ≡ none)
            ⊎ ((w : SpillWriter) × (set.writers ((set.eviction_cursor + offset) % set.npartitions)
                  ≡ some w))
          → (k : ℕ)
          → (find_victim n (offset + 1) set ≡ none
              → (j : ℕ) → j < n
              → set.writers ((set.eviction_cursor + (offset + 1 + j)) % set.npartitions) ≡ none)
          → find_victim (suc n) offset set ≡ none
          → k < suc n
          → set.writers ((set.eviction_cursor + (offset + k)) % set.npartitions) ≡ none
      by_writer (inl free) zero ih e h = let z : offset + 0 ≡ offset = omega arith in rw z free
      by_writer (inl free) (suc k) ih e h =
          let z : offset + suc k ≡ offset + 1 + k = omega arith in
          rw z (ih (rw (find_victim, free) at e) k (omega arith))
      by_writer (inr (w, taken)) k ih e h = ground (arith, taken, e)

  -- What the loop finds has a block.
  find_victim-some :
      (n offset v : ℕ) (set : SpillSet Tape)
      → 0 < set.npartitions
      → find_victim n offset set ≡ some v
      → (v < set.npartitions) × ((w : SpillWriter) × (set.writers v ≡ some w))
  unfolding find_victim
  find_victim-some zero offset v set np e = absurd (ground arith)
  find_victim-some (suc n) offset v set np e =
      by_writer (Option-cases (set.writers ((set.eviction_cursor + offset) % set.npartitions)))
        (find_victim-some n (offset + 1) v set np) e
    where
      by_writer :
          (set.writers ((set.eviction_cursor + offset) % set.npartitions) ≡ none)
            ⊎ ((w : SpillWriter) × (set.writers ((set.eviction_cursor + offset) % set.npartitions)
                  ≡ some w))
          → (find_victim n (offset + 1) set ≡ some v
              → (v < set.npartitions) × ((w : SpillWriter) × (set.writers v ≡ some w)))
          → find_victim (suc n) offset set ≡ some v
          → (v < set.npartitions) × ((w : SpillWriter) × (set.writers v ≡ some w))
      by_writer (inl free) ih e = ih (rw (find_victim, free) at e)
      by_writer (inr (w, taken)) ih e =
          let here : (set.eviction_cursor + offset) % set.npartitions ≡ v =
            ground (arith, taken, e) in
          (rw (← here) (grind arith), (w, ap set.writers (sym here) ∙ taken))

  -- The loop passes over partitions that have no block.
  find_victim-first :
      (n offset v : ℕ) (set : SpillSet Tape)
      → find_victim n offset set ≡ some v
      → (k : ℕ) × (k < n)
        × ((set.eviction_cursor + (offset + k)) % set.npartitions ≡ v)
        × ((j : ℕ)
            → j < k
            → set.writers ((set.eviction_cursor + (offset + j)) % set.npartitions) ≡ none)
  unfolding find_victim
  find_victim-first zero offset v set e = absurd (ground arith)
  find_victim-first (suc n) offset v set e =
      by_writer (Option-cases (set.writers ((set.eviction_cursor + offset) % set.npartitions)))
        (find_victim-first n (offset + 1) v set) e
    where
      by_writer :
          (set.writers ((set.eviction_cursor + offset) % set.npartitions) ≡ none)
            ⊎ ((w : SpillWriter) × (set.writers ((set.eviction_cursor + offset) % set.npartitions)
                  ≡ some w))
          → (find_victim n (offset + 1) set ≡ some v
              → (k : ℕ) × (k < n)
                × ((set.eviction_cursor + (offset + 1 + k)) % set.npartitions ≡ v)
                × ((j : ℕ)
                    → j < k
                    → set.writers ((set.eviction_cursor + (offset + 1 + j)) % set.npartitions)
                      ≡ none))
          → find_victim (suc n) offset set ≡ some v
          → (k : ℕ) × (k < suc n)
            × ((set.eviction_cursor + (offset + k)) % set.npartitions ≡ v)
            × ((j : ℕ)
                → j < k
                → set.writers ((set.eviction_cursor + (offset + j)) % set.npartitions) ≡ none)
      by_writer (inl free) ih e =
          let (k, small, here, passed) = ih (rw (find_victim, free) at e) in
          (
            k + 1,
            omega arith,
            ap (λ m. (set.eviction_cursor + m) % set.npartitions) (omega arith) ∙ here,
            free_before k passed,
          )
        where
          free_before :
              (k : ℕ)
              → ((j : ℕ)
                  → j < k
                  → set.writers ((set.eviction_cursor + (offset + 1 + j)) % set.npartitions) ≡ none)
              → (j : ℕ) → j < k + 1
              → set.writers ((set.eviction_cursor + (offset + j)) % set.npartitions) ≡ none
          free_before k passed zero h = let z : offset + 0 ≡ offset = omega arith in rw z free
          free_before k passed (suc j) h =
              let z : offset + suc j ≡ offset + 1 + j = omega arith in rw z (passed j (omega arith))
      by_writer (inr (w, taken)) ih e =
          let z : offset + 0 ≡ offset = omega arith in
          (0, omega arith, rw z (ground (arith, taken, e)), λ j h. absurd (omega arith))

  -- The partition to evict: the first from the cursor on, around the end, that has a block.
  pub record FirstBlock (set : SpillSet Tape) (v : ℕ) : Type 0 where
    pub inside : v < set.npartitions
    pub block : (w : SpillWriter) × (set.writers v ≡ some w)
    pub first :
        (k : ℕ) × (k < set.npartitions)
        × ((set.eviction_cursor + k) % set.npartitions ≡ v)
        × ((j : ℕ) → j < k → set.writers ((set.eviction_cursor + j) % set.npartitions) ≡ none)

  search-FirstBlock :
      (set : SpillSet Tape) (v : ℕ)
      → 0 < set.npartitions
      → find_victim set.npartitions 0 set ≡ some v
      → FirstBlock set v
  search-FirstBlock set v some_partition e =
      let (inside, block) = find_victim-some set.npartitions 0 v set some_partition e in
      let (k, small, here, passed) = find_victim-first set.npartitions 0 v set e in
      let z : (m : ℕ) → m ≡ 0 + m = λ m. omega arith in
      record {
        inside = inside;
        block = block;
        first = (
          k,
          small,
          ap (λ m. (set.eviction_cursor + m) % set.npartitions) (z k) ∙ here,
          λ j h.
              ap (λ m. set.writers ((set.eviction_cursor + m) % set.npartitions)) (z j)
              ∙ passed j h,
        );
      }

  -- Where the blocks are counted and one is in memory, the search for a victim ends, wherever the
  -- cursor stands, and it ends at the first partition from the cursor on that has a block, where the
  -- partitions are taken in a circle.
  pub victim_found :
      (set : SpillSet Tape)
      → Slots set
      → 0 < set.active_writers
      → (v : ℕ) × (find_victim set.npartitions 0 set ≡ some v) × FirstBlock set v
  victim_found set slots busy = by_search (Option-cases (find_victim set.npartitions 0 set))
    where
      by_search :
          (find_victim set.npartitions 0 set ≡ none)
            ⊎ ((v : ℕ) × (find_victim set.npartitions 0 set ≡ some v))
          → (v : ℕ) × (find_victim set.npartitions 0 set ≡ some v) × FirstBlock set v
      by_search (inr (v, e)) = (v, e, search-FirstBlock set v (omega (arith, slots.cursor)) e)
      by_search (inl nothing) =
          let empty = count_none set.npartitions set.writers (λ p h.
            let (k, small, here) = reached set.eviction_cursor p set.npartitions slots.cursor h in
            let z : 0 + k ≡ k = omega arith in
            let free = find_victim-none set.npartitions 0 set k nothing small in
            ap set.writers
              (sym here ∙ ap (λ j. (set.eviction_cursor + j) % set.npartitions) (sym z))
            ∙ free) in
          absurd (omega (arith, empty, slots.active))
