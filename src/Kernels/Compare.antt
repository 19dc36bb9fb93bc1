-- ===== src/Kernels/Compare.antt =====
-- kernels/internal.h and kernels/int4.c: the six comparisons, and how an operator's function is
-- mapped to one of them.
use pg_batch.Prelude.{ℕ, ◌≡◌, Bool, not, Option, none, some, leb, ◌==◌, ◌+◌, if◌then◌else◌, arith}
use mathlib.Core.Option
use pg_batch.Prelude.Int.{ℤ, pos_part, neg_part, ltb_ℤ}

pub data Int4Op : Type 0 where
  eq ne lt le gt ge : Int4Op

-- `left == right`, `left <= right` on int32 values
abbrev pub eqb_ℤ : ℤ → ℤ → Bool
eqb_ℤ a b = pos_part a + neg_part b == pos_part b + neg_part a

abbrev pub leb_ℤ : ℤ → ℤ → Bool
leb_ℤ a b = leb (pos_part a + neg_part b) (pos_part b + neg_part a)

unfoldable pub compare : ℤ → ℤ → Int4Op → Bool
compare left right eq = eqb_ℤ left right
compare left right ne = not (eqb_ℤ left right)
compare left right lt = ltb_ℤ left right
compare left right le = leb_ℤ left right
compare left right gt = ltb_ℤ right left
compare left right ge = leb_ℤ right left

-- PostgreSQL's function numbers F_INT4EQ … F_INT4GE and F_INT4PL … F_INT4UM, and any other.
pub data Funcid : Type 0 where
  int4eq int4ne int4lt int4le int4gt int4ge : Funcid
  int4pl int4mi int4mul int4div int4mod int4um : Funcid
  other : ℕ → Funcid

-- The first `switch`.
pub compare_funcid : Funcid → Option Int4Op
compare_funcid int4eq = some eq
compare_funcid int4ne = some ne
compare_funcid int4lt = some lt
compare_funcid int4le = some le
compare_funcid int4gt = some gt
compare_funcid int4ge = some ge
compare_funcid _ = none

-- The swap for a Var on the right.
pub commute : Int4Op → Int4Op
commute lt = gt
commute le = ge
commute gt = lt
commute ge = le
commute eq = eq
commute ne = ne

-- pg_batch_int4_compare_op; `none` is the result false.
unfoldable pub compare_op : Funcid → ℕ → Option Int4Op
unfolding compare_funcid commute
compare_op funcid var_argno = elim (compare_funcid funcid) [
  | none ↦ none
  | some op ↦ some (if var_argno == 1 then commute op else op)
]

-- PostgreSQL's comparison functions.
abbrev pub call_compare : Funcid → ℤ → ℤ → Option Bool
call_compare int4eq a b = some (eqb_ℤ a b)
call_compare int4ne a b = some (not (eqb_ℤ a b))
call_compare int4lt a b = some (ltb_ℤ a b)
call_compare int4le a b = some (leb_ℤ a b)
call_compare int4gt a b = some (ltb_ℤ b a)
call_compare int4ge a b = some (leb_ℤ b a)
call_compare _ a b = none

-- For every operator function, the operation that is found compares the column's value with the
-- scalar as the function compares its arguments, with the column on the left and on the right; and
-- none is found for another function.
pub compare_op_lem :
    (f : Funcid) (value scalar : ℤ)
    → (Option.map (compare value scalar) (compare_op f 0) ≡ call_compare f value scalar)
      × (Option.map (compare value scalar) (compare_op f 1) ≡ call_compare f scalar value)
unfolding compare_op compare
compare_op_lem int4eq value scalar = ground arith
compare_op_lem int4ne value scalar = ground arith
compare_op_lem int4lt value scalar = ground arith
compare_op_lem int4le value scalar = ground arith
compare_op_lem int4gt value scalar = ground arith
compare_op_lem int4ge value scalar = ground arith
compare_op_lem _ value scalar = ground arith
