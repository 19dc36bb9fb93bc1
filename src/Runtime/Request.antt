-- ===== src/Runtime/Request.antt =====
-- runtime/unary.c: forward_request merges the requests of the child, the node and its parent, and sets
-- the result on the child's binding (bridge/bridge.c). A Bitmapset is the list of its members.
use pg_batch.Prelude.{
  ℕ, ◌≡◌, refl, ap, ◌∙◌, inl, inr, Bool, true, false, not, ◌&&◌, ◌||◌, List, [], ◌∷◌, ◌++◌, arith,
  leb, ◌==◌, if◌then◌else◌, Bool-cases,
}
use pg_batch.Prelude.Int.{ℤ, pos, negsuc, ltb_ℤ}
use pg_batch.Prelude.Result.{Result, ok, err, ◌>>=◌}
use pg_batch.Kernels.Compare.{eqb_ℤ, leb_ℤ}
use pg_batch.Bridge.{
  BridgeError, output_batch, RequestSpec, Binding, State, beyond, set_request, seal_request,
}

pub data RequestError : Type 0 where
  columns_differ : RequestError
  refused : BridgeError → RequestError

-- The row limit of one more request; 0 is no limit.
pub merge_rows : ℤ → ℤ → ℤ
merge_rows max_rows own =
    if ltb_ℤ (pos 0) own
    then (if eqb_ℤ max_rows (pos 0) then own else if ltb_ℤ max_rows own then max_rows else own)
    else max_rows

-- The node's own part: the columns that it filters and projects, and its row limit.
pub record UnaryRequest : Type 0 where
  pub filter_columns : List ℕ
  pub project_columns : List ℕ
  pub max_rows : ℤ

pub merged : RequestSpec → UnaryRequest → RequestSpec → RequestSpec
merged child unary own = record {
  filter_columns = child.filter_columns ++ (unary.filter_columns ++ own.filter_columns);
  project_columns = child.project_columns ++ (unary.project_columns ++ own.project_columns);
  output_mode = output_batch;
  max_rows = merge_rows (merge_rows child.max_rows unary.max_rows) own.max_rows;
}

abbrev from_bridge : Result BridgeError State → Result RequestError State
from_bridge (ok st) = ok st
from_bridge (err e) = err (refused e)

-- The bindings of the child and of the node, before and after.
pub forward_request : UnaryRequest → State → State → Result RequestError (State × State)
unfolding merged
forward_request unary child own =
    let sealed = seal_request own in
    if not (child.binding.ncolumns == sealed.binding.ncolumns)
    then err columns_differ
    else from_bridge (set_request child (merged child.binding.request unary sealed.binding.request))
      >>= λ c. ok (c, sealed)

-- Membership as a test.
abbrev pub has_column : ℕ → List ℕ → Bool
has_column c [] = false
has_column c (d ∷ ds) = (c == d) || has_column c ds

-- A batch of `n` rows is within a row limit.
abbrev pub admits : ℤ → ℕ → Bool
admits max_rows n = eqb_ℤ max_rows (pos 0) || leb_ℤ (pos n) max_rows

has_column-append :
    (c : ℕ) (xs ys : List ℕ) → has_column c (xs ++ ys) ≡ (has_column c xs || has_column c ys)
has_column-append c [] ys = refl
has_column-append c (x ∷ xs) ys = elim (Bool-cases (c == x)) [
  | inl same ↦ rw same
  | inr other ↦ rw other (has_column-append c xs ys)
]

beyond-append : (n : ℕ) (xs ys : List ℕ) → beyond n (xs ++ ys) ≡ (beyond n xs || beyond n ys)
beyond-append n [] ys = refl
beyond-append n (x ∷ xs) ys = elim (Bool-cases (leb n x)) [
  | inl out ↦ rw out
  | inr within ↦ rw within (beyond-append n xs ys)
]

admits-merge_rows :
    (a b : ℤ) (n : ℕ)
    → ltb_ℤ a (pos 0) ≡ false
    → ltb_ℤ b (pos 0) ≡ false
    → (admits (merge_rows a b) n ≡ (admits a n && admits b n))
      × (ltb_ℤ (merge_rows a b) (pos 0) ≡ false)
unfolding merge_rows
admits-merge_rows (negsuc a) b n h k = absurd (ground (arith, h))
admits-merge_rows (pos a) (negsuc b) n h k = absurd (ground (arith, k))
admits-merge_rows (pos a) (pos b) n h k = (ground arith, ground arith)

-- A request that set_request would take: its limit is no negative number, its columns exist.
pub record IsRequest (ncolumns : ℕ) (filter_columns project_columns : List ℕ) (max_rows : ℤ)
    : Type 0 where
  pub filters : beyond ncolumns filter_columns ≡ false
  pub projects : beyond ncolumns project_columns ≡ false
  pub limit : ltb_ℤ max_rows (pos 0) ≡ false

-- What the child's binding asks for after the merge of three requests.
pub record Forwards (child own : RequestSpec) (unary : UnaryRequest) (after : Binding)
    : Type 0 where
  pub filters :
      (c : ℕ)
      → has_column c after.request.filter_columns ≡ (
          has_column c child.filter_columns
          || (has_column c unary.filter_columns || has_column c own.filter_columns))
  pub projects :
      (c : ℕ)
      → has_column c after.request.project_columns ≡ (
          has_column c child.project_columns
          || (has_column c unary.project_columns || has_column c own.project_columns))
  pub batches : after.request.output_mode ≡ output_batch
  pub limit :
      (n : ℕ)
      → admits after.request.max_rows n
        ≡ ((admits child.max_rows n && admits unary.max_rows n) && admits own.max_rows n)

has_column-merged :
    (c : ℕ) (xs ys zs : List ℕ)
    → has_column c (xs ++ (ys ++ zs)) ≡ (has_column c xs || (has_column c ys || has_column c zs))
has_column-merged c xs ys zs =
    has_column-append c xs (ys ++ zs) ∙ ap (λ b. has_column c xs || b) (has_column-append c ys zs)

beyond-merged :
    (n : ℕ) (xs ys zs : List ℕ)
    → beyond n xs ≡ false
    → beyond n ys ≡ false
    → beyond n zs ≡ false
    → beyond n (xs ++ (ys ++ zs)) ≡ false
beyond-merged n xs ys zs e f g =
    beyond-append n xs (ys ++ zs)
    ∙ ap (λ b. beyond n xs || b) (beyond-append n ys zs)
    ∙ rw (e, f, g)

set_request-ok :
    (st : State) (spec : RequestSpec)
    → st.binding.request_sealed ≡ false
    → ltb_ℤ spec.max_rows (pos 0) ≡ false
    → spec.output_mode ≡ output_batch
    → beyond st.binding.ncolumns spec.filter_columns ≡ false
    → beyond st.binding.ncolumns spec.project_columns ≡ false
    → set_request st spec ≡ ok (record st { binding = record st.binding { request = spec } })
unfolding set_request
set_request-ok st spec sealed limit mode filters projects =
    simp (sealed, limit, mode, filters, projects)

module _ (child own : State) (unary : UnaryRequest) where
  -- Forwarding valid requests succeeds as long as the child's request is not sealed: the node's own
  -- request is sealed then, the child is asked for batches with exactly the columns that the child,
  -- the node or its parent asked for, and a number of rows is within the new limit just if it is
  -- within the limits of all three, where 0 is no limit.
  pub forward_request-Forwards :
      child.binding.request_sealed ≡ false
      → child.binding.ncolumns ≡ own.binding.ncolumns
      → IsRequest child.binding.ncolumns child.binding.request.filter_columns
          child.binding.request.project_columns child.binding.request.max_rows
      → IsRequest child.binding.ncolumns unary.filter_columns unary.project_columns unary.max_rows
      → IsRequest child.binding.ncolumns own.binding.request.filter_columns
          own.binding.request.project_columns own.binding.request.max_rows
      → (after : State) × (forward_request unary child own ≡ ok (after, seal_request own))
        × Forwards child.binding.request own.binding.request unary after.binding
  unfolding forward_request merged seal_request
  forward_request-Forwards writable widths a b c =
      let spec = merged child.binding.request unary own.binding.request in
      let first =
        admits-merge_rows child.binding.request.max_rows unary.max_rows 0 a.limit b.limit in
      let rows = merge_rows child.binding.request.max_rows unary.max_rows in
      let accepted =
        set_request-ok child spec writable
          ((admits-merge_rows rows own.binding.request.max_rows 0 (first.1) c.limit).1) refl
          (beyond-merged child.binding.ncolumns child.binding.request.filter_columns
            unary.filter_columns own.binding.request.filter_columns a.filters b.filters c.filters)
          (beyond-merged child.binding.ncolumns child.binding.request.project_columns
            unary.project_columns own.binding.request.project_columns a.projects b.projects
            c.projects) in
      let same : (child.binding.ncolumns == own.binding.ncolumns) ≡ true = ground (arith, widths) in
      (
        record child { binding = record child.binding { request = spec } },
        by_parts same accepted,
        record {
          filters = λ col.
              has_column-merged col child.binding.request.filter_columns unary.filter_columns
                own.binding.request.filter_columns;
          projects = λ col.
              has_column-merged col child.binding.request.project_columns unary.project_columns
                own.binding.request.project_columns;
          batches = refl;
          limit = λ n.
              (admits-merge_rows rows own.binding.request.max_rows n (first.1) c.limit).0
              ∙ ap (λ x. x && admits own.binding.request.max_rows n)
                  ((admits-merge_rows child.binding.request.max_rows unary.max_rows n a.limit
                    b.limit).0);
        },
      )
    where
      by_parts :
          (child.binding.ncolumns == own.binding.ncolumns) ≡ true
          → set_request child (merged child.binding.request unary own.binding.request)
            ≡ ok (record child {
              binding = record child.binding {
                request = merged child.binding.request unary own.binding.request;
              };
            })
          → forward_request unary child own
            ≡ ok (
              record child {
                binding = record child.binding {
                  request = merged child.binding.request unary own.binding.request;
                };
              },
              seal_request own,
            )
      by_parts same e = rw (same, e)
